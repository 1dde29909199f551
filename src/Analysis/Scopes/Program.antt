-- ===== src/Analysis/Scopes/Program.antt =====
-- The scopes of a whole run of `analyze` of dragon/analysis.c.
use cs.Prelude.{
  ◌≡◌, refl, ◌∙◌, String, Bool, true, false, List, [], ◌∷◌, some, length, if◌then◌else◌, str_eq,
}
use cs.Prelude.Int.{pos}
use cs.Util.Hash.{Bucket}
use cs.Ast.{AstProgram}
use cs.Exec.{ok, Exec}
use cs.Exec.Rules.{After, returns, stops, After-mono, After_of_eq}
use cs.Symbol.{stab_new, stab_enter, readln, read, writeln, write}
use cs.Symbol.Invariant.{IsStab, stab_new-IsStab, stab_enter-IsStab}
use cs.Analysis.{Acx, prologue, main_label, sub_rsp, lea_local, store_display, exit_program}
use cs.Analysis.Paths.{times_align}
use cs.Analysis.Program.{
  register_input, register_output, do_import, do_imports, fill_display, initial_acx, global_size,
  set_toplevel, analyze,
}
use cs.Analysis.Keeps.{Keeps, Moves, Keeps-refl, keep_then, pure-Keeps, emit-Keeps, on_stab-Keeps}
use cs.Analysis.Keeps.Reads.{stab_var-Reads}
use cs.Analysis.Keeps.Paths.{gimme-Keeps, takeback-Keeps}
use cs.Analysis.Keeps.Stmts.{stmt-Keeps}
use cs.Analysis.Scopes.{Held-refl, Holds, held_then, Holds-Keeps, table_held}
use cs.Analysis.Scopes.Locals.{add_types-Leaves, decl_list-Leaves, magic-Leaves}
use cs.Analysis.Scopes.Subprogs.{entries-Keeps, subprogs-Holds}

if-Holds :
    {A : Type 0} {x y : Exec Acx A} (b : Bool) → Holds x → Holds y → Holds (if b then x else y)
if-Holds true h k = h
if-Holds false h k = k

import-Holds : (name : String) → Holds (do_import name)
unfolding do_import register_input register_output
import-Holds name =
    if-Holds (str_eq name "input")
      (held_then (table_held (magic-Leaves readln)) (λ _. table_held (magic-Leaves read)))
      (if-Holds (str_eq name "output")
        (held_then (table_held (magic-Leaves writeln)) (λ _. table_held (magic-Leaves write)))
        (λ a good. stops))

pub imports-Holds : (names : List String) → Holds (do_imports names)
unfolding do_imports
imports-Holds [] a good = returns (Held-refl good)
imports-Holds (name ∷ names) a good =
    held_then (import-Holds name) (λ _. imports-Holds names) a good

if-Keeps :
    {A : Type 0} {x y : Exec Acx A} (b : Bool)
    → Moves Keeps x
    → Moves Keeps y
    → Moves Keeps (if b then x else y)
if-Keeps true h k = h
if-Keeps false h k = k

pub fill-Keeps : (entries : Bucket String) → Moves Keeps (fill_display entries)
unfolding fill_display
fill-Keeps [] a = returns (Keeps-refl a)
fill-Keeps ((name, id) ∷ entries) a =
    keep_then (on_stab-Keeps (stab_var-Reads id))
      (λ v.
        keep_then
          (if-Keeps v.captured
            (keep_then gimme-Keeps (λ r.
              keep_then
                (emit-Keeps (
                  lea_local r.name v.stack_base_offset
                  ∷ store_display r.name (times_align v.disp_offset)
                  ∷ []))
                (λ _. takeback-Keeps r)))
            (pure-Keeps tt))
          (λ _. fill-Keeps entries))
      a

toplevel-Holds : Holds set_toplevel
toplevel-Holds a good = returns (Held-refl good)

one_scope : length (stab_enter stab_new).chain ≡ 1
unfolding stab_enter stab_new
one_scope = refl

analyze-After :
    (prog : AstProgram) → After (λ _ c. IsStab c.st × (length c.st.chain ≡ 1)) (analyze prog)
unfolding analyze initial_acx stab_enter
analyze-After prog =
    After-mono
      (held_then (imports-Holds prog.args)
        (λ _. held_then (table_held (add_types-Leaves prog.types)) λ _.
          held_then (table_held (decl_list-Leaves prog.decls (some (pos 0)) true)) λ off.
            held_then (subprogs-Holds prog.subprogs) λ _.
              held_then (Holds-Keeps (emit-Keeps (main_label ∷ sub_rsp (global_size off) ∷ [])))
                λ _. held_then (Holds-Keeps entries-Keeps) λ entries.
                  held_then (Holds-Keeps (fill-Keeps entries)) λ _. held_then toplevel-Holds λ _.
                    held_then (Holds-Keeps (stmt-Keeps prog.body))
                      λ _. Holds-Keeps (emit-Keeps (exit_program ∷ [])))
        (record initial_acx { ofd = prologue ∷ []; st = stab_enter stab_new })
        (stab_enter-IsStab stab_new-IsStab))
      (λ _ b h. (h.good, h.depth ∙ one_scope))

-- When `analyze` accepts a program, every scope that was entered on the way has been left again but
-- the program's own, and the symbol table is well formed.
pub analyze-IsStab :
    (prog : AstProgram) (c : Acx)
    → analyze prog ≡ ok (tt, c)
    → IsStab c.st × (length c.st.chain ≡ 1)
analyze-IsStab prog c accepted = After_of_eq (analyze-After prog) accepted
