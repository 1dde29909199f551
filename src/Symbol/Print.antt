-- ===== src/Symbol/Print.antt =====
-- `stab_print_type` of dragon/symbol.c. `INDENT` writes on stdout and `DIAG` on stderr; `DEBUG` writes
-- on stderr unless the program is built without it, and is not kept.
use cs.Prelude.{ℕ, String, List, [], ◌∷◌, ◌++◌}
use cs.Ast.{sub_function, sub_procedure, Subprogs}
use cs.Exec.{aborted, Exec, pure, halt, ◌>>=◌}
use cs.Symbol.{Stab, StabType, ResolvedType, stab_type}
use cs.Print.{Piece, spaces, text, newline}

-- What is written, each piece on its stream.
pub data Written : Type 0 where
  on_stdout : Piece → Written
  on_stderr : Piece → Written

abbrev pub diag : List Piece → List Written
diag [] = []
diag (p ∷ ps) = on_stderr p ∷ diag ps

abbrev pub indent_twice : ℕ → List Written
indent_twice indent = on_stdout (spaces indent) ∷ on_stdout (spaces indent) ∷ []

abbrev pub kind_name : Subprogs → String
kind_name sub_procedure = "procedure"
kind_name sub_function = "function"

abbrev pub quoted : String → String → List Piece
quoted what name = text what ∷ text name ∷ text "`" ∷ newline ∷ []

-- The `switch` on the tag.
unfoldable pub describe_type : StabType → ResolvedType → Exec Stab (List Piece)
describe_type t ResolvedType.boolean = pure (text "boolean" ∷ newline ∷ [])
describe_type t ResolvedType.char = pure (text "char" ∷ newline ∷ [])
describe_type t ResolvedType.integer = pure (text "integer" ∷ newline ∷ [])
describe_type t ResolvedType.real = pure (text "real" ∷ newline ∷ [])
describe_type t ResolvedType.string = pure (text "string" ∷ newline ∷ [])
describe_type t (ResolvedType.array lower upper elt) = pure (quoted "array `" t.name)
describe_type t (ResolvedType.func kind args retty) =
    pure (text (kind_name kind) ∷ text " " ∷ text t.name ∷ newline ∷ [])
describe_type t (ResolvedType.record_of fields) = pure (quoted "record `" t.name)
describe_type t (ResolvedType.pointer p) = pure (quoted "pointer to `" t.name)
describe_type t ResolvedType.void = pure (text "void" ∷ newline ∷ [])
describe_type t ResolvedType.ref = halt aborted

unfoldable pub stab_print_type : ℕ → ℕ → Exec Stab (List Written)
unfolding describe_type
stab_print_type id indent = do
  t ← stab_type id
  pieces ← describe_type t t.ty
  pure (indent_twice indent ++ diag pieces)
