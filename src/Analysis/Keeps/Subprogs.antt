-- ===== src/Analysis/Keeps/Subprogs.antt =====
-- What `analyze_subprog` of dragon/analysis.c restores.
use cs.Prelude.{◌≡◌, refl}
use cs.Ast.{AstType, AstSubdecl, subdecl}
use cs.Exec.{ok, ◌>>◌}
use cs.Exec.Rules.{After, returns, stops, After-bind, After-intro, After_of_eq}
use cs.Analysis.{Acx, on_stab}
use cs.Analysis.Program.{
  begin_subprog, add_locals, analyze_subprogs, finish_subprog, end_subprog, analyze_subprog,
}

-- The fields on the subprogram around, and its register pool.
pub record Restored (a b : Acx) : Type 0 where
  pub func : b.current_func_name ≡ a.current_func_name
  pub label : b.label ≡ a.label
  pub assigned : b.ret_assigned ≡ a.ret_assigned
  pub kind : b.current_func_type ≡ a.current_func_type
  pub registers : b.rs ≡ a.rs

subprog-After : (s : AstSubdecl) (a : Acx) → After (λ _ b. Restored a b) (analyze_subprog s a)
unfolding analyze_subprog end_subprog
subprog-After (subdecl (AstType.func kind args ret) name types ds subs body) a =
    After-bind {P = λ _ _. Unit {0}}
      {r = (begin_subprog name kind >> on_stab (add_locals name ret args types ds)) a}
      {f = λ slot. analyze_subprogs subs >> finish_subprog body slot.0 slot.1 >> end_subprog a}
      (After-intro _ (λ _ _ _. tt))
      (λ slot b _.
        After-bind {P = λ _ _. Unit {0}}
          {r = (analyze_subprogs subs >> finish_subprog body slot.0 slot.1) b}
          {f = λ _. end_subprog a} (After-intro _ (λ _ _ _. tt))
          (λ _ c _.
            returns (record {
              func = refl;
              label = refl;
              assigned = refl;
              kind = refl;
              registers = refl;
            })))
subprog-After (subdecl _ name types ds subs body) a = stops

-- When `analyze_subprog` returns, the name and the kind of the subprogram around, its label
-- counter, whether its result was assigned, and its register pool are as they were, however deep
-- the subprograms in it are nested.
pub analyze_subprog-Restored :
    (s : AstSubdecl) (a b : Acx) → analyze_subprog s a ≡ ok (tt, b) → Restored a b
analyze_subprog-Restored s a b e = After_of_eq (subprog-After s a) e
