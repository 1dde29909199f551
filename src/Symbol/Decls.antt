-- ===== src/Symbol/Decls.antt =====
-- Declaring names in the innermost scope: the `stab_add_` functions of dragon/symbol.c.
use cs.Prelude.{not, ℕ, String, Bool, true, false, List, [], ◌∷◌, Option}
use cs.Prelude.Int.{ℤ}
use cs.Ast.{AstType, sub_function}
use cs.Exec.{span_err, already_defined, aborted, undefined, Exec, pure, halt, ◌>>=◌, ◌>>◌, stop_if}
use cs.Symbol.{
  Stab, ResolvedType, Magic, plain, read, readln, write, writeln, stab_has_local_var,
  stab_has_local_func, stab_has_local_type, push_type, on_innermost, insert_func, insert_type,
}
use cs.Symbol.Types.{is_complex, stab_add_var, stab_resolve_type, stab_resolve_complex_type}

-- The loop of `stab_add_decls`; the result is `*off` after it.
unfoldable pub add_names : ℕ → List String → Option ℤ → Bool → Exec Stab (Option ℤ)
unfolding stab_has_local_var
add_names type [] off arguments = pure off
add_names type (var ∷ names) off arguments = do
  defined ← stab_has_local_var var
  stop_if defined (span_err (already_defined var))
  (_, off') ← stab_add_var var type off arguments
  add_names type names off' arguments

unfoldable pub stab_add_decls : List String → AstType → Option ℤ → Bool → Exec Stab (Option ℤ)
unfolding add_names
stab_add_decls names t off arguments = do
  type ← stab_resolve_type t "<decls>"
  add_names type names off arguments

abbrev pub is_function_type : AstType → Bool
is_function_type (AstType.func kind ds ret) = true
is_function_type _ = false

abbrev assert : Bool → Exec Stab (Unit {0})
assert true st = pure tt st
assert false st = halt aborted st

unfoldable pub stab_add_func : String → AstType → Exec Stab (Unit {0})
unfolding stab_has_local_func
stab_add_func name sig = do
  assert (is_function_type sig)
  defined ← stab_has_local_func name
  stop_if defined (span_err (already_defined name))
  type ← stab_resolve_complex_type name sig
  on_innermost (insert_func name type)

abbrev pub magic_name : Magic → String
magic_name readln = "readln"
magic_name read = "read"
magic_name writeln = "writeln"
magic_name write = "write"
magic_name plain = ""

-- `default: abort()`
abbrev pub check_magic : Magic → Exec Stab (Unit {0})
check_magic plain st = halt aborted st
check_magic _ st = pure tt st

-- `calloc` leaves the kind, the return type and the sizes 0; the null `args` is never read.
unfoldable pub stab_add_magic_func : Magic → Exec Stab (Unit {0})
stab_add_magic_func which = do
  check_magic which
  type ← push_type (record {
    ty = ResolvedType.func sub_function [] 0;
    name = magic_name which;
    size = 0;
    align = 0;
    magic = which;
  })
  on_innermost (insert_func (magic_name which) type)

-- `stab_resolve_type` frees the name of a type that makes no entry of its own; the insertion then
-- reads it.
unfoldable pub stab_add_type : String → AstType → Exec Stab (Unit {0})
unfolding stab_has_local_type
stab_add_type name t = do
  defined ← stab_has_local_type name
  stop_if defined (span_err (already_defined name))
  type ← stab_resolve_type t name
  stop_if (not (is_complex t)) undefined
  on_innermost (insert_type name type)
