-- ===== src/Analysis/Typing/Programs.antt =====
-- The bodies of a program, as `analyze` of dragon/analysis.c accepts it: the tables in which they are
-- typed.
use cs.Prelude.{◌≡◌, refl, [], ◌∷◌, ◌++◌, true, some, Option}
use cs.Prelude.Int.{ℤ, pos}
use cs.Ast.{AstStmt, AstProgram}
use cs.Exec.{ok, Exec, ◌>>◌, ◌>>=◌}
use cs.Exec.Rules.{After, After-bind, After-mono, After-intro, After_of_eq}
use cs.Symbol.{Stab, stab_new, stab_enter}
use cs.Symbol.Invariant.{IsStab, stab_new-IsStab, stab_enter-IsStab}
use cs.Analysis.{Acx, on_stab, emit, sub_rsp, prologue, main_label, exit_program}
use cs.Analysis.Stmts.{analyze_stmt, enter}
use cs.Analysis.Program.{
  global_size, local_entries, fill_display, set_toplevel, do_imports, add_types, add_decl_list,
  initial_acx, analyze,
}
use cs.Analysis.Keeps.{Keeps-trans, Keeps-prints}
use cs.Analysis.Scopes.{table_held}
use cs.Analysis.Scopes.Locals.{add_types-Leaves, decl_list-Leaves}
use cs.Analysis.Scopes.Program.{imports-Holds, fill-Keeps}
use cs.Symbol.Invariant.Arena.{Leaves}
use cs.Analysis.Scopes.Subprogs.{entries-Keeps}
use cs.Analysis.Typing.{env_of}
use cs.Analysis.Typing.Pieces.{WellTyped, stmt_later}
use cs.Analysis.Typing.Stmts.{analyze_stmt-WellTyped}
use cs.Analysis.Typing.Subprograms.{TypedSubs, on_stab-exact, subs-Typed}

-- A program: its names are those of the imports, the types and the variables, and the body is typed
-- in the table that its subprograms are declared in.
pub data TypedProgram (prog : AstProgram) : Type 0 where
  typed_program :
      {a : Acx} {s t u : Stab} {off : Option ℤ}
      → (emit (prologue ∷ []) >> enter >> do_imports prog.args) initial_acx ≡ ok (tt, a)
      → add_types prog.types a.st ≡ ok (tt, s)
      → add_decl_list prog.decls (some (pos 0)) true s ≡ ok (off, t)
      → TypedSubs t prog.subprogs u
      → IsStab u
      → WellTyped (env_of u) prog.body
      → TypedProgram prog

-- The result of an operation of the table, and that the table is well formed after it.
table_step :
    {A : Type 0} (m : Exec Stab A) (a : Acx)
    → IsStab a.st
    → ((s : Stab) → IsStab s → After (λ _ u. Leaves s u) (m s))
    → After (λ x b. (m a.st ≡ ok (x, b.st)) × IsStab b.st) (on_stab m a)
table_step m a good h =
    After-intro (on_stab m a)
      (λ x b e. (After_of_eq (on_stab-exact m a) e, (After_of_eq (table_held h a good) e).good))

main-WellTyped :
    (body : AstStmt) (off : Option ℤ) (d : Acx)
    → After
        (λ _ _. WellTyped (env_of d.st) body)
        ((do
          emit (main_label ∷ sub_rsp (global_size off) ∷ [])
          entries ← local_entries
          fill_display entries
          set_toplevel
          analyze_stmt body
          emit (exit_program ∷ []))
          d)
main-WellTyped body off d =
    let code = main_label ∷ sub_rsp (global_size off) ∷ [] in
    let k = Keeps-prints d (record d { ofd = d.ofd ++ code }) code refl in
    After-bind (entries-Keeps _) (λ entries e l. After-bind (fill-Keeps entries e) (λ _ f m.
      let z : Acx = record f { toplevel = true } in
      After-bind {P = λ _ _. WellTyped (env_of d.st) body}
        (After-intro (analyze_stmt body z) (λ _ g returned.
          stmt_later (Keeps-trans k (Keeps-trans l m)) (analyze_stmt-WellTyped body z g returned)))
        (λ _ g h. After-intro _ (λ _ _ _. h))))

analyze-Typed : (prog : AstProgram) → After (λ _ _. TypedProgram prog) (analyze prog)
unfolding analyze initial_acx stab_enter
analyze-Typed prog =
    let start : Acx = record initial_acx { ofd = prologue ∷ []; st = stab_enter stab_new } in
    let good = stab_enter-IsStab stab_new-IsStab in
    After-bind {P = λ _ a. (do_imports prog.args start ≡ ok (tt, a)) × IsStab a.st}
      (After-intro (do_imports prog.args start)
        (λ _ a e. (e, (After_of_eq (imports-Holds prog.args start good) e).good)))
      (λ _ a (imported, good₁).
        After-bind (table_step (add_types prog.types) a good₁ (add_types-Leaves prog.types))
          (λ _ b (added, good₂).
            After-bind
              (table_step (add_decl_list prog.decls (some (pos 0)) true) b good₂
                (decl_list-Leaves prog.decls (some (pos 0)) true))
              (λ off c (declared, good₃).
                After-bind (subs-Typed prog.subprogs c good₃) (λ _ d (subprogs, good₄).
                  After-mono (main-WellTyped prog.body off d)
                    (λ _ _ body. typed_program imported added declared subprogs good₄ body)))))

-- When `analyze` accepts a program, its body, the bodies of its subprograms and of all that are nested in
-- them are typed: the program's in the table that the imports, its types and variables, and the
-- declarations of its subprograms make, and a subprogram's in the table that entering a scope, adding its
-- types, parameters, variables and result, and declaring the subprograms inside make of the table around
-- it. After a subprogram the names that are in scope mean what they meant before its body, with the
-- types that they had.
pub analyze-TypedProgram :
    (prog : AstProgram) (c : Acx) → analyze prog ≡ ok (tt, c) → TypedProgram prog
analyze-TypedProgram prog c accepted = After_of_eq (analyze-Typed prog) accepted
