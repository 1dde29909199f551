-- ===== src/Analysis/Labels/Stmts.antt =====
-- The labels in the code of statements: `analyze_stmt` of dragon/analysis.c.
use cs.Prelude.{
  ℕ, suc, ◌+◌, ◌≡◌, ◌∙◌, ap, ◌≤◌, ◌<◌, ◌&&◌, true, false, List, [], ◌∷◌, ◌++◌, leb, ltb, arith,
  ◌==◌, not, Bool-cases, inl, inr, if◌then◌else◌,
}
use cs.Ast.{
  AstStmt, assign, for_to, ite, proc, stmts, wdo, skip, StmtList, no_stmts, stmt, ast_path,
}
use cs.Exec.{span_err, while_not_boolean, ok, stop, Result, Exec, ◌>>=◌}
use cs.Analysis.Keeps.Stmts.{stmt-Keeps}
use cs.Exec.Rules.{After_of_eq, After, returns, stops, After-bind, After-mono}
use cs.Symbol.{Stab, stab_enter, stab_leave, integer_type_idx, boolean_type_idx}
use cs.Analysis.{
  Acx, Insn, Op, push, label, op, je, jne, jmp, inc, store_top, cmp_one, emit, with_stab, on_stab,
}
use cs.Analysis.Keeps.{Moves, Moves-bind}
use cs.Analysis.Stmts.{analyze_stmt, analyze_stmts}
use cs.Analysis.Labels.{definitions, jumps}
use cs.Analysis.Labels.Counts.{definitions-append, jumps-append}
use cs.Analysis.Silent.{Silent, Silent-refl, Silent-trans, Silent-then, stop_if-Silent, silence}
use cs.Analysis.Silent.Paths.{takeback-Silent, type_of_path-Silent}
use cs.Analysis.Silent.Exprs.{expr-Silent, call-Silent}
use cs.Analysis.Silent.Stmts.{assignability-Silent, assign_to-Silent, bounds-Silent}

-- 1 for the labels from `lo` on and below `hi`.
abbrev pub inside : ℕ → ℕ → ℕ → ℕ
inside lo hi n = if leb lo n && ltb n hi then 1 else 0

-- From one state to a later one, `xs` having been printed besides: of the labels that were taken in
-- between each is defined once more, and of the others none; no jump to one of the others was added.
pub record Gains (xs : List Insn) (a b : Acx) : Type 0 where
  pub grows : a.label ≤ b.label
  pub defined :
      (n : ℕ)
      → definitions n b.ofd ≡ definitions n a.ofd + definitions n xs + inside a.label b.label n
  pub aimed : (n : ℕ) → inside a.label b.label n ≡ 0 → jumps n b.ofd ≡ jumps n a.ofd + jumps n xs

abbrev pub Labelled : Acx → Acx → Type 0
Labelled = Gains []

Silent-Labelled : {a b : Acx} → Silent a b → Labelled a b
Silent-Labelled s = record {
  grows = omega (arith, s.same_label);
  defined = λ n. ground (arith, s.same_definitions n, s.same_label);
  aimed = λ n h. omega (arith, s.same_jumps n);
}

Gains-trans : {xs ys : List Insn} {a b c : Acx} → Gains xs a b → Gains ys b c → Gains (xs ++ ys) a c
Gains-trans {xs} {ys} h k = record {
  grows = omega (arith, h.grows, k.grows);
  defined =
      λ n. ground (arith, h.defined n, k.defined n, h.grows, k.grows, definitions-append n xs ys);
  aimed = λ n e. ground (arith, h.aimed n, k.aimed n, h.grows, k.grows, jumps-append n xs ys);
}

-- In sequence.
gain_then :
    {A B : Type 0} {xs ys : List Insn} {m : Exec Acx A} {f : A → Exec Acx B}
    → Moves (Gains xs) m
    → ((x : A) → Moves (Gains ys) (f x))
    → Moves (Gains (xs ++ ys)) (m >>= f)
gain_then {m = m} {f} h k = Moves-bind m f (λ a b c. Gains-trans) h k

silent : {A : Type 0} {m : Exec Acx A} → Moves Silent m → Moves Labelled m
silent h a = After-mono (h a) (λ _ b. Silent-Labelled)

begins :
    (a : Acx) (st : Stab) (is : List Insn) → Gains is a (record a { st = st; ofd = a.ofd ++ is })
begins a st is = record {
  grows = omega arith;
  defined = λ n. ground (arith, definitions-append n a.ofd is);
  aimed = λ n h. omega (arith, jumps-append n a.ofd is);
}

prints : (is : List Insn) → Moves (Gains is) (emit is)
prints is a = returns (begins a a.st is)

-- An operation of the symbol table prints nothing.
on_stab-Labelled : {A : Type 0} (m : Exec Stab A) → Moves Labelled (on_stab m)
on_stab-Labelled m a = go (m a.st)
  where
    go : {A : Type 0} (r : Result (A × Stab)) → After (λ _ b. Labelled a b) (with_stab a r)
    go (ok (x, u)) =
        returns
          (record { grows = omega arith; defined = λ n. ground arith; aimed = λ n h. omega arith })
    go (stop e) = stops

-- Code in which the two labels that were taken first are defined once and are the only targets.
two_labels :
    (a z : Acx) {xs : List Insn}
    → Gains xs (record a { label = suc (suc a.label) }) z
    → ((n : ℕ) → definitions n xs ≡ inside a.label (suc (suc a.label)) n)
    → ((n : ℕ) → inside a.label (suc (suc a.label)) n ≡ 0 → jumps n xs ≡ 0)
    → Labelled a z
two_labels a z g once only = record {
  grows = omega (arith, g.grows);
  defined = λ n. ground (arith, g.defined n, once n, g.grows);
  aimed = λ n h. ground (arith, g.aimed n, only n, g.grows);
}

mutual
  unfolding analyze_stmt

  stmt-Labelled : (s : AstStmt) → Moves Labelled (analyze_stmt s)
  stmt-Labelled skip a = returns (Silent-Labelled (Silent-refl a))
  stmt-Labelled (assign lvalue rvalue) a =
      After-mono (search (silence, expr-Silent, assignability-Silent, assign_to-Silent) depth 30)
        (λ _ b. Silent-Labelled)
  stmt-Labelled (for_to id start end body) a = After-bind (expr-Silent start true a) λ s b q.
      After-bind (expr-Silent end true b) λ e c r.
        After-bind
          (Silent-then (bounds-Silent s e) (λ _. type_of_path-Silent (ast_path id) false) c)
          λ i d p. elim (Bool-cases (not (i.type == integer_type_idx))) [
            | inl x ↦ rw x stops
            | inr x ↦
                let l₀ = d.label in
                let l₁ = suc d.label in
                let opened = record d {
                  st = stab_enter d.st;
                  ofd = d.ofd ++ push s.reg.name ∷ [];
                  label = suc (suc d.label);
                } in
                rw x (
                  After-mono
                    (gain_then
                      (gain_then
                        (gain_then
                          (gain_then
                            (gain_then
                              (prints (label l₀ ∷ op Op.op_cmp s.reg.name e.reg.name ∷ je l₁ ∷ []))
                              (λ _. stmt-Labelled body))
                            (λ _.
                              prints
                                (inc s.reg.name ∷ store_top s.reg.name ∷ jmp l₀ ∷ label l₁ ∷ [])))
                          (λ _. silent (takeback-Silent e.reg)))
                        (λ _. silent (takeback-Silent s.reg)))
                      (λ _. on_stab-Labelled stab_leave) opened)
                    (λ _ z g. Gains-trans (Silent-Labelled (Silent-trans q (Silent-trans r p))) (
                      two_labels d z
                        (Gains-trans
                          (begins (record d { label = suc l₁ }) (stab_enter d.st)
                            (push s.reg.name ∷ []))
                          g)
                        (λ n. ground arith) (λ n h. ground arith))))
          ]
  stmt-Labelled (ite cond yes_ no_) a = After-bind (expr-Silent cond true a) λ c b q.
      elim (Bool-cases (not (c.type == boolean_type_idx))) [
        | inl e ↦ rw e stops
        | inr e ↦
            let l₀ = b.label in
            let l₁ = suc b.label in
            rw e (
              After-mono
                (gain_then
                  (gain_then
                    (gain_then
                      (gain_then
                        (gain_then (prints (cmp_one c.reg.name ∷ jne l₀ ∷ []))
                          (λ _. silent (takeback-Silent c.reg)))
                        (λ _. stmt-Labelled yes_))
                      (λ _. prints (jmp l₁ ∷ label l₀ ∷ [])))
                    (λ _. stmt-Labelled no_))
                  (λ _. prints (label l₁ ∷ [])) (record b { label = suc (suc b.label) }))
                (λ _ z g.
                  Gains-trans (Silent-Labelled q)
                    (two_labels b z g (λ n. ground arith) (λ n h. ground arith))))
      ]
  stmt-Labelled (proc name args) a =
      silent (Silent-then (call-Silent name args) (λ c. takeback-Silent c.reg)) a
  stmt-Labelled (stmts ss) a = stmts-Labelled ss a
  stmt-Labelled (wdo cond body) a =
      let l₀ = a.label in
      let l₁ = suc a.label in
      let begun = record a { ofd = a.ofd ++ label l₀ ∷ []; label = suc l₁ } in
      After-bind (expr-Silent cond true begun) λ c b q.
        After-mono
          (gain_then
            (gain_then
              (gain_then
                (gain_then
                  (silent (
                    stop_if-Silent (not (c.type == boolean_type_idx)) (span_err while_not_boolean)))
                  (λ _. prints (cmp_one c.reg.name ∷ jne l₁ ∷ [])))
                (λ _. silent (takeback-Silent c.reg)))
              (λ _. stmt-Labelled body))
            (λ _. prints (jmp l₀ ∷ label l₁ ∷ [])) b)
          (λ _ z g.
            two_labels a z
              (Gains-trans (begins (record a { label = suc l₁ }) a.st (label l₀ ∷ []))
                (Gains-trans (Silent-Labelled q) g))
              (λ n. ground arith) (λ n h. ground arith))

  stmts-Labelled : (ss : StmtList) → Moves Labelled (analyze_stmts ss)
  stmts-Labelled no_stmts a = returns (Silent-Labelled (Silent-refl a))
  stmts-Labelled (stmt s ss) a = gain_then (stmt-Labelled s) (λ _. stmts-Labelled ss) a

-- When `analyze_stmt` returns, the code that it added defines each label that it took, those from
-- the old counter on and below the new one, exactly once and no other label, and every jump in it
-- goes to a label that it defines.
pub analyze_stmt-labels :
    (s : AstStmt) (a c : Acx)
    → analyze_stmt s a ≡ ok (tt, c)
    → (is : List Insn) × (c.ofd ≡ a.ofd ++ is)
      × ((n : ℕ) → definitions n is ≡ inside a.label c.label n)
      × ((n : ℕ) → 0 < jumps n is → definitions n is ≡ 1)
analyze_stmt-labels s a c h =
    let g = After_of_eq (stmt-Labelled s a) h in
    let (is, e) = (After_of_eq (stmt-Keeps s a) h).code in
    let added : (n : ℕ) → definitions n c.ofd ≡ definitions n a.ofd + definitions n is =
      λ n. ap (definitions n) e ∙ definitions-append n a.ofd is in
    let aimed : (n : ℕ) → jumps n c.ofd ≡ jumps n a.ofd + jumps n is =
      λ n. ap (jumps n) e ∙ jumps-append n a.ofd is in
    (
      is,
      e,
      λ n. omega (arith, added n, g.defined n),
      λ n some_jump. ground (arith, added n, g.defined n, aimed n, g.aimed n),
    )
