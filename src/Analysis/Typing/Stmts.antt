-- ===== src/Analysis/Typing/Stmts.antt =====
-- The types in the statements that `analyze_stmt` of dragon/analysis.c accepts.
use mathlib.Core.Path.{subst}
use cs.Prelude.{ℕ, suc, ◌≡◌, ◌≢◌, ap, sym, ◌∙◌, [], ◌∷◌, some, ◌++◌, arith, Bool, true, false}
use cs.Token.{not_}
use cs.Ast.{
  ast_path, AstExpr, un, AstStmt, assign, for_to, ite, proc, stmts, wdo, skip, StmtList, no_stmts,
  stmt,
}
use cs.Exec.{ok, ◌>>◌}
use cs.Exec.Rules.{After, returns, After-bind, After-mono, After_of_eq, After-intro}
use cs.Analysis.{Acx, Resu, label, op, Op, je, jne, cmp_one}
use cs.Analysis.Exprs.{analyze_expr}
use cs.Analysis.Stmts.{analyze_stmt, analyze_stmts}
use cs.Analysis.Keeps.{Keeps, Keeps-trans, emit-Keeps}
use cs.Analysis.Keeps.Paths.{takeback-Keeps}
use cs.Analysis.Keeps.Stmts.{assignability-Keeps, stmt-Keeps}
use cs.Analysis.Typing.{Env, env_of, env_of-Keeps, HasType, sign}
use cs.Analysis.Typing.Calls.{path-After, typed_later}
use cs.Analysis.Typing.Exprs.{expr-Types, call-Types, analyze_expr-HasType}
use cs.Analysis.Typing.Pieces.{
  WellTyped, AllWellTyped, nothing, assigned, counted, chosen, called_with, block, repeated,
  none_left, one_more, fact, relabelled, guard, assign_to-After, bounds-After, opening-After,
  Compared-later, stmt_later, then_stmt, then_keep, condition-After, guard-After, env_of-entered,
}

mutual
  unfolding analyze_stmt ast_path

  stmt-After : (s : AstStmt) (a : Acx) → After (λ _ _. WellTyped (env_of a.st) s) (analyze_stmt s a)
  stmt-After skip a = returns nothing
  stmt-After (assign lvalue rvalue) a = After-bind (expr-Types lvalue false a) (λ l b (k, h).
      After-bind {P = λ r d. Keeps b d × HasType (env_of b.st) rvalue r.type}
        (After-bind (assignability-Keeps lvalue b) (λ _ c m.
          After-mono (expr-Types rvalue true c) (λ r d (n, g). (Keeps-trans m n, typed_later m g))))
        (λ r d (n, g).
          After-mono (assign_to-After l r d)
            (λ _ _ c. assigned h (typed_later k g) (Compared-later (Keeps-trans k n) c))))
  stmt-After (for_to id start end body) a = After-bind (expr-Types start true a) (λ s b (k, h).
      After-bind (expr-Types end true b) (λ e c (m, g).
        After-bind
          {P = λ i d.
            Keeps c d × ((env_of c.st).var id ≡ some i.type) × (s.type ≡ 0) × (e.type ≡ 0)}
          (After-bind (bounds-After s e c) (λ _ d (same, hs, he).
            rw same (After-mono (path-After (ast_path id) false c) (λ i u q. (q.0, q.1, hs, he)))))
          (λ i d (n, v, hs, he). After-bind (opening-After i s.reg.name d) (λ l₀ x (inside, hi).
            let kc : Keeps a c = Keeps-trans k m in
            let z : Acx = record x {
              label = suc x.label;
              ofd = x.ofd ++ label l₀ ∷ op Op.op_cmp s.reg.name e.reg.name ∷ je x.label ∷ [];
            } in
            let kx : Keeps x z = relabelled x (suc x.label) _ (omega arith) in
            fact _ (
              fact _ (
                fact _ (
                  fact _ (
                    After-mono (stmt-After body z) (λ _ _ t.
                      counted (subst (HasType (env_of a.st) start) hs h)
                        (subst (HasType (env_of a.st) end) he (typed_later k g))
                        (ap (λ (w : Env). w.var id) (sym (env_of-Keeps kc)) ∙ v ∙ ap some hi)
                        (subst (λ (w : Env). WellTyped w body)
                          (env_of-entered d ∙ env_of-Keeps (Keeps-trans kc n))
                          (stmt_later (Keeps-trans inside kx) t)))))))))))
  stmt-After (ite cond yes_ no_) a = After-bind (expr-Types cond true a) (λ c b (k, h).
      After-bind (condition-After c _ b) (λ l₀ d (n, bool).
        let z : Acx = record d {
          label = suc d.label;
          ofd = d.ofd ++ cmp_one c.reg.name ∷ jne l₀ ∷ [];
        } in
        let kz : Keeps a z =
          Keeps-trans k (Keeps-trans n (relabelled d (suc d.label) _ (omega arith))) in
        fact _ (
          After-bind
            (then_keep (then_stmt yes_ (stmt-After yes_) (takeback-Keeps c.reg) z)
              (λ _. emit-Keeps _))
            (λ _ x (q, first). After-mono (stmt-After no_ x) (λ _ _ second.
              chosen (subst (HasType (env_of a.st) cond) bool h) (stmt_later kz first)
                (stmt_later (Keeps-trans kz q) second))))))
  stmt-After (proc name args) a =
      After-bind (call-Types name args a) (λ c b h. After-intro _ (λ _ _ _. called_with h.1))
  stmt-After (stmts ss) a = After-mono (stmts-After ss a) (λ _ _ h. block h)
  stmt-After (wdo cond body) a =
      let z : Acx = record a { label = suc (suc a.label); ofd = a.ofd ++ label a.label ∷ [] } in
      let kz : Keeps a z = relabelled a (suc (suc a.label)) _ (omega arith) in
      After-bind (expr-Types cond true z) (λ r e (n, h).
        fact {r = (guard r (suc a.label) >> analyze_stmt body) e} _ (
          After-bind (guard-After r (suc a.label) e) (λ _ x (m, bool).
            After-mono (stmt-After body x) (λ _ _ t.
              repeated (subst (HasType (env_of a.st) cond) bool (typed_later kz h))
                (stmt_later (Keeps-trans kz (Keeps-trans n m)) t)))))

  stmts-After :
      (ss : StmtList) (a : Acx) → After (λ _ _. AllWellTyped (env_of a.st) ss) (analyze_stmts ss a)
  stmts-After no_stmts a = returns none_left
  stmts-After (stmt s ss) a =
      After-bind {P = λ _ b. Keeps a b × WellTyped (env_of a.st) s}
        (After-intro _ (λ _ b e. (After_of_eq (stmt-Keeps s a) e, After_of_eq (stmt-After s a) e)))
        (λ _ b (k, h).
          After-mono (stmts-After ss b)
            (λ _ _ hs. one_more h (subst (λ (w : Env). AllWellTyped w ss) (env_of-Keeps k) hs)))

-- A statement that `analyze_stmt` accepts is typed in the environment in which the analysis
-- started: the conditions of `if` and `while` are Boolean, the bounds and the variable of a `for`
-- are integers, both sides of an assignment have types that `stab_types_eq` found the same, and
-- the arguments of a call have types.
pub analyze_stmt-WellTyped :
    (s : AstStmt) (a c : Acx) → analyze_stmt s a ≡ ok (tt, c) → WellTyped (env_of a.st) s
analyze_stmt-WellTyped s a c e = After_of_eq (stmt-After s a) e

-- `not` is refused on every operand: no expression that applies it is ever accepted.
analyze_expr-not_refused :
    (e : AstExpr) (b : Bool) (a c : Acx) (r : Resu) → analyze_expr (un not_ e) b a ≢ ok (r, c)
analyze_expr-not_refused e b a c r h = refused (analyze_expr-HasType (un not_ e) b a c r h)
  where
    refused : {env : Env} {t : ℕ} → HasType env (un not_ e) t → ⊥
    refused (sign f h) = ground arith
