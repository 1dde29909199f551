-- ===== src/Analysis/Accepts/Stmts.antt =====
-- That `analyze_stmt` of dragon/analysis.c accepts the statements that it is made to accept.
use cs.Prelude.{suc, ◌≡◌, refl, ◌≤◌, true, false, [], ◌∷◌, ◌++◌, length, arith}
use cs.Ast.{AstStmt, StmtList}
use cs.Exec.{ok}
use cs.Exec.Total.{Returns-run}
use cs.Symbol.{Stab, resolve_failure}
use cs.Symbol.Invariant.{IsStab}
use cs.Analysis.{Acx, label, jmp, jne, cmp_one}
use cs.Analysis.Registers.{num_regs}
use cs.Analysis.Stmts.{analyze_stmt, analyze_stmts}
use cs.Analysis.Keeps.{Keeps, Keeps-trans, Keeps-prints}
use cs.Analysis.Typing.Pieces.{relabelled}
use cs.Analysis.Accepts.{
  AcceptedStmt, AcceptedStmts, nothing, assigned, counted, chosen, performed, communicated, block,
  repeated, none_left, one_more,
}
use cs.Analysis.Accepts.Pieces.{
  Ready, Ready-later, Any, Goes, goes_then, gives, prints, later, takeback-Goes,
}
use cs.Analysis.Accepts.Paths.{path-Goes, chain_of_var}
use cs.Analysis.Accepts.Calls.{SameType-later}
use cs.Analysis.Accepts.Builtins.{magic-Goes}
use cs.Analysis.Accepts.Exprs.{Same, Same-Keeps, var_in, type_in, expr-Goes}
use cs.Analysis.Accepts.Loops.{
  Assigns, Assigns-later, assignability-Goes, assign_to-Goes, call-Goes, Same-entered, loop-Goes,
}

mutual
  unfolding analyze_stmt

  stmt-Goes :
      {st : Stab} {s : AstStmt} (a : Acx)
      → Ready a
      → Same st a.st
      → Assigns a
      → AcceptedStmt st s
      → Goes Any (analyze_stmt s) a
  stmt-Goes a ready same assigns nothing = gives ready tt
  stmt-Goes a ready same assigns (assigned {l} target h g eq) =
      goes_then (expr-Goes false a ready same h) (λ x b (is_t, _) ready₁ k₁.
        goes_then
          (goes_then {P = Any} (assignability-Goes l b ready₁ (Assigns-later k₁ assigns) target)
            (λ _ c _ ready₂ k₂. expr-Goes true c ready₂ (Same-Keeps same (Keeps-trans k₁ k₂)) g))
          (λ y d (is_u, _) ready₃ k₃.
            assign_to-Goes x y d ready₃ is_t is_u
              (SameType-later (Same-Keeps same (Keeps-trans k₁ k₃)).types eq)))
  stmt-Goes a ready same assigns (counted {id} {start} {end} {body} hs he v known h) =
      goes_then (expr-Goes true a ready same hs) (λ s b (is_s, _) ready₁ k₁.
        goes_then (expr-Goes true b ready₁ (Same-Keeps same k₁) he) (λ e c (is_e, _) ready₂ k₂.
          let same₂ = Same-Keeps same (Keeps-trans k₁ k₂) in
          rw (is_s, is_e)
            (goes_then (path-Goes id false c ready₂ (var_in id same₂ v) (type_in 0 same₂ known))
              (λ i d (is_i, _) ready₃ k₃.
                let kd = Keeps-trans k₁ (Keeps-trans k₂ k₃) in
                let same₃ = Same-Keeps same kd in
                let (sc, rest, around) = chain_of_var id d.st ready₃.vars (var_in id same₃ v) in
                rw is_i (
                  loop-Goes s e (analyze_stmt body) d sc rest ready₃ around (λ z r k.
                    stmt-Goes z r (Same-Keeps (Same-entered d same₃) k)
                      (Assigns-later k (Assigns-later kd assigns)) h))))))
  stmt-Goes a ready same assigns (chosen {cond} {s} {t} h yes_ no_) =
      goes_then (expr-Goes true a ready same h) (λ c b (bool, _) ready₁ k₁. rw bool (
        let z : Acx = record b {
          label = suc (suc b.label);
          ofd = b.ofd ++ cmp_one c.reg.name ∷ jne b.label ∷ [];
        } in
        let kz : Keeps b z = relabelled b (suc (suc b.label)) _ (omega arith) in
        let same' = Same-Keeps same (Keeps-trans k₁ kz) in
        let assigns' = Assigns-later (Keeps-trans k₁ kz) assigns in
        later kz (
          goes_then {P = Any}
            (goes_then {P = Any}
              (goes_then {P = Any}
                (goes_then {P = Any} (takeback-Goes c.reg z (Ready-later ready₁ kz ready₁.pool))
                  (λ _ w _ r k. stmt-Goes w r (Same-Keeps same' k) (Assigns-later k assigns') yes_))
                (λ _ w _ r _. prints (jmp (suc b.label) ∷ label b.label ∷ []) r tt))
              (λ _ w _ r k. stmt-Goes w r (Same-Keeps same' k) (Assigns-later k assigns') no_))
            (λ _ w _ r _. prints (label (suc b.label) ∷ []) r tt))))
  stmt-Goes a ready same assigns (performed f at pl is_func args) =
      goes_then (call-Goes f a ready same at pl is_func args)
        (λ c b _ ready₁ _. takeback-Goes c.reg b ready₁)
  stmt-Goes a ready same assigns (communicated f at is_magic operands) =
      goes_then (magic-Goes f a ready same at is_magic operands)
        (λ c b _ ready₁ _. takeback-Goes c.reg b ready₁)
  stmt-Goes a ready same assigns (block h) = stmts-Goes a ready same assigns h
  stmt-Goes a ready same assigns (repeated {cond} {body} h k) =
      let z : Acx = record a { label = suc (suc a.label); ofd = a.ofd ++ label a.label ∷ [] } in
      let kz : Keeps a z = relabelled a (suc (suc a.label)) _ (omega arith) in
      later kz (
        goes_then (expr-Goes true z (Ready-later ready kz ready.pool) (Same-Keeps same kz) h)
          (λ c b (bool, _) ready₁ k₁. rw bool (
            let printed = Keeps-prints b _ _ refl in
            later printed (
              goes_then {P = Any}
                (goes_then {P = Any}
                  (takeback-Goes c.reg _ (Ready-later ready₁ printed ready₁.pool))
                  (λ _ d _ ready₂ k₂.
                    let kd = Keeps-trans kz (Keeps-trans k₁ (Keeps-trans printed k₂)) in
                    stmt-Goes d ready₂ (Same-Keeps same kd) (Assigns-later kd assigns) k))
                (λ _ u _ ready₃ _. prints (jmp a.label ∷ label (suc a.label) ∷ []) ready₃ tt)))))

  stmts-Goes :
      {st : Stab} {ss : StmtList} (a : Acx)
      → Ready a
      → Same st a.st
      → Assigns a
      → AcceptedStmts st ss
      → Goes Any (analyze_stmts ss) a
  stmts-Goes a ready same assigns none_left = gives ready tt
  stmts-Goes a ready same assigns (one_more h hs) =
      goes_then (stmt-Goes a ready same assigns h)
        (λ _ b _ ready₁ k₁. stmts-Goes b ready₁ (Same-Keeps same k₁) (Assigns-later k₁ assigns) hs)

-- In the program's body and in a procedure, from a pool of fourteen registers and a well-formed symbol
-- table with fewer than 2 ^ 64 variables and types, `analyze_stmt` returns on every statement that is
-- made of assignments of a value to a variable or an element of the same type, of `for` over an integer
-- variable from integer to integer, of `if` and `while` on Boolean conditions, of calls with as many
-- arguments as parameters and of their types, of `write`, `writeln`, `read` and `readln` on operands
-- of the built-in types, and of blocks of such; it leaves the scopes as they were
-- and a pool of fourteen registers.
pub analyze_stmt-returns :
    (s : AstStmt) (a : Acx)
    → length a.rs.regs_used ≡ num_regs
    → IsStab a.st
    → length a.st.vars ≤ resolve_failure
    → length a.st.types ≤ resolve_failure
    → Assigns a
    → AcceptedStmt a.st s
    → (c : Acx) × (analyze_stmt s a ≡ ok (tt, c))
      × (c.st.chain ≡ a.st.chain)
      × (length c.rs.regs_used ≡ num_regs)
analyze_stmt-returns s a pool good vars types assigns accepted =
    let ready : Ready a = record { good = good; pool = pool; vars = vars; types = types } in
    let same : Same a.st a.st = record { env = refl; types = refl; params = λ i. refl } in
    let (_, c, returned, h) = Returns-run (stmt-Goes a ready same assigns accepted) in
    (c, returned, h.2.chain, h.1.pool)
