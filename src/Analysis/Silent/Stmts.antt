-- ===== src/Analysis/Silent/Stmts.antt =====
-- What the tests of an assignment and of a `for` of dragon/analysis.c leave alone.
use cs.Prelude.{◌≡◌, refl, ◌⊎◌, inl, inr, Bool, true, false, String, str_eq, arith, if◌then◌else◌}
use cs.Ast.{Subprogs, sub_function, sub_procedure, AstExpr, deref, idx, path}
use cs.Exec.{ok, undefined}
use cs.Exec.Rules.{After, returns}
use cs.Analysis.{Resu}
use cs.Analysis.Stmts.{
  check_local, note_result, check_name, check_target, check_assignability, assign_to, check_bounds,
}
use cs.Analysis.Keeps.{Keeps-refl, Moves}
use cs.Analysis.Keeps.Reads.{reading}
use cs.Analysis.Silent.{silence, Silent, Silent-refl, Silent-then, pure-Silent, halt-Silent}
use cs.Analysis.Silent.Paths.{takeback-Silent}

note_result-Silent : (name : String) → Moves Silent (note_result name)
note_result-Silent name a = returns (record {
  keeps = record {
    chain = refl;
    types = refl;
    var_count = refl;
    var_types = λ i. refl;
    toplevel = refl;
    kind = refl;
    func = refl;
    assigned = go (str_eq a.current_func_name name);
    labels = omega arith;
    code = (Keeps-refl a).code;
  };
  same_pool = refl;
  same_label = refl;
  same_definitions = λ n. refl;
  same_jumps = λ n. refl;
})
  where
    go : {r : Bool} (b : Bool) → ((if b then true else r) ≡ r) ⊎ ((if b then true else r) ≡ true)
    go true = inr refl
    go false = inl refl

check_local-Silent : (kind : Subprogs) (name : String) → Moves Silent (check_local kind name)
check_local-Silent sub_procedure name = pure-Silent _
check_local-Silent sub_function name = search (reading, silence) depth 30

check_name-Silent : (name : String) → Moves Silent (check_name name)
unfolding check_name
check_name-Silent name a =
    Silent-then (check_local-Silent a.current_func_type name) (λ _. note_result-Silent name) a

check_target-Silent : (e : AstExpr) → Moves Silent (check_target e)
unfolding check_target
check_target-Silent (path p) = check_name-Silent p.first
check_target-Silent (idx p e) =
    Silent-then (check_name-Silent p.first) (λ _. check_name-Silent p.first)
check_target-Silent (deref e) = Silent-then (check_target-Silent e) (λ _. halt-Silent undefined)
check_target-Silent _ = halt-Silent _

pub assignability-Silent : (e : AstExpr) → Moves Silent (check_assignability e)
unfolding check_assignability
assignability-Silent e a = go a.toplevel
  where
    go : (b : Bool) → After (λ _ c. Silent a c) (if b then ok (tt, a) else check_target e a)
    go true = returns (Silent-refl a)
    go false = check_target-Silent e a

pub assign_to-Silent : (l r : Resu) → Moves Silent (assign_to l r)
unfolding assign_to
assign_to-Silent l r = search (reading, silence, takeback-Silent) depth 30

pub bounds-Silent : (s e : Resu) → Moves Silent (check_bounds s e)
bounds-Silent s e = search silence
