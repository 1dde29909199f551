-- ===== src/Analysis/Typing/Loops.antt =====
-- Assignments in the body of a `for` of a function, as `analyze_stmt` of dragon/analysis.c meets
-- them.
use cs.Prelude.{
  not, ◌==◌, suc, [], ◌++◌, ◌^◌, ◌≡◌, ◌≢◌, ◌∙◌, ◌⊎◌, inl, inr, ◌∷◌, true, false, String, str_eq,
  List,
}
use cs.Ast.{
  sub_function, ast_path, AstExpr, app, bin, deref, idx, lit, path, un, addrof, AstStmt, assign,
  for_to, ite, proc, stmts, wdo, skip, StmtList, no_stmts, stmt,
}
use cs.Exec.{span_err, while_not_boolean, Result, ok, Exec, ◌>>=◌}
use cs.Exec.Rules.{After, stops, After-bind, After_of_eq, After-ok}
use cs.Util.Hash.Table.{lookup-hash_new}
use cs.Symbol.{
  boolean_type_idx, Scope, stab_scope_new, stab_enter, stab_has_local_var, local_in, hash_string,
}
use cs.Analysis.{Acx, label, op, Op, je, jne, jmp, cmp_one, emit}
use cs.Analysis.Stmts.{check_name, check_target, check_assignability, analyze_stmt, analyze_stmts}
use cs.Analysis.Keeps.{
  Keeps, Keeps-trans, Moves, keep_then, emit-Keeps, next_label-Keeps, stop_if-Keeps,
}
use cs.Analysis.Keeps.Paths.{takeback-Keeps, type_of_path-Keeps}
use cs.Analysis.Keeps.Exprs.{expr-Keeps}
use cs.Analysis.Keeps.Stmts.{Inside, opening, bounds-Keeps, stmt-Keeps}
use cs.Analysis.Typing.Pieces.{fact}

abbrev mutual
  -- A statement that has an assignment in it, at any depth.
  pub Assigns : AstStmt → Type 0
  Assigns skip = ⊥
  Assigns (assign lvalue rvalue) = Unit
  Assigns (for_to id start end body) = Assigns body
  Assigns (ite cond yes_ no_) = Assigns yes_ ⊎ Assigns no_
  Assigns (proc name args) = ⊥
  Assigns (stmts ss) = SomeAssigns ss
  Assigns (wdo cond body) = Assigns body

  pub SomeAssigns : StmtList → Type 0
  SomeAssigns no_stmts = ⊥
  SomeAssigns (stmt s ss) = Assigns s ⊎ SomeAssigns ss

-- In a function, in a scope that nothing was declared in.
record InNewScope (a : Acx) : Type 0 where
  nested : a.toplevel ≡ false
  kind : a.current_func_type ≡ sub_function
  rest : List Scope
  chain : a.st.chain ≡ stab_scope_new ∷ rest

InNewScope-Keeps : {a b : Acx} → InNewScope a → Keeps a b → InNewScope b
InNewScope-Keeps s k = record {
  nested = k.toplevel ∙ s.nested;
  kind = k.kind ∙ s.kind;
  rest = s.rest;
  chain = k.chain ∙ s.chain;
}

-- It never returns in such a scope.
abbrev Refused : {A : Type 0} → (Acx → Result (A × Acx)) → Type 0
Refused m = (a : Acx) → InNewScope a → After (λ _ _. ⊥) (m a)

name-Refused : (n : String) → Refused (check_name n)
unfolding check_name stab_has_local_var local_in stab_scope_new
name-Refused n y s = rw (s.kind, s.chain, lookup-hash_new (2 ^ 8) hash_string str_eq n) stops

target-Refused : (e : AstExpr) → Refused (check_target e)
unfolding check_target
target-Refused (path p) y s = name-Refused p.first y s
target-Refused (idx p e) y s = fact _ (name-Refused p.first y s)
target-Refused (deref e) y s = fact _ (target-Refused e y s)
target-Refused (app p args) y s = stops
target-Refused (bin o l r) y s = stops
target-Refused (lit v) y s = stops
target-Refused (un o e) y s = stops
target-Refused (addrof e) y s = stops

assignability-Refused : (e : AstExpr) → Refused (check_assignability e)
unfolding check_assignability
assignability-Refused e y s = simp (s.nested) (target-Refused e y s)

-- In a function, whatever its innermost scope is.
record InFunction (a : Acx) : Type 0 where
  nested : a.toplevel ≡ false
  kind : a.current_func_type ≡ sub_function

entered-InNewScope : {a b : Acx} → InFunction a → Inside a b → InNewScope b
unfolding stab_enter
entered-InNewScope {a} f k = record {
  nested = k.toplevel ∙ f.nested;
  kind = k.kind ∙ f.kind;
  rest = a.st.chain;
  chain = k.chain;
}

for-Refused :
    (id : String) (start end : AstExpr) (body : AstStmt)
    → Refused (analyze_stmt body)
    → (a : Acx) → InFunction a
    → After (λ _ _. ⊥) (analyze_stmt (for_to id start end body) a)
unfolding analyze_stmt
for-Refused id start end body h a f = After-bind (expr-Keeps start true a) (λ s b k.
    After-bind (expr-Keeps end true b) (λ e c l.
      After-bind (keep_then (bounds-Keeps s e) (λ _. type_of_path-Keeps (ast_path id) false) c)
        (λ i d m.
          let kd : Keeps a d = Keeps-trans k (Keeps-trans l m) in
          let fd : InFunction d = record {
            nested = kd.toplevel ∙ f.nested;
            kind = kd.kind ∙ f.kind;
          } in
          After-bind (opening i s.reg.name d) (λ l₀ x inside.
            let z : Acx = record x {
              label = suc x.label;
              ofd = x.ofd ++ label l₀ ∷ op Op.op_cmp s.reg.name e.reg.name ∷ je x.label ∷ [];
            } in
            let o : Keeps x z = After-ok (
              keep_then next_label-Keeps
                (λ l₁. emit-Keeps (label l₀ ∷ op Op.op_cmp s.reg.name e.reg.name ∷ je l₁ ∷ []))
                x) in
            fact _
              (fact _ (fact _ (fact _ (h z (entered-InNewScope fd (Keeps-trans inside o))))))))))

-- A first part that keeps the scope, and then one that is refused.
later :
    {A B : Type 0} {m : Exec Acx A} {f : A → Exec Acx B}
    → Moves Keeps m
    → ((x : A) → Refused (f x))
    → Refused (m >>= f)
later h k a s = After-bind (h a) (λ x b p. k x b (InNewScope-Keeps s p))

at_once : {A B : Type 0} {m : Exec Acx A} (f : A → Exec Acx B) → Refused m → Refused (m >>= f)
at_once f h a s = fact f (h a s)

mutual
  unfolding analyze_stmt

  stmt-Refused : (s : AstStmt) → Assigns s → Refused (analyze_stmt s)
  stmt-Refused skip h a n = absurd h
  stmt-Refused (proc name args) h a n = absurd h
  stmt-Refused (assign lvalue rvalue) h a n =
      later (expr-Keeps lvalue false) (λ l. at_once _ (at_once _ (assignability-Refused lvalue))) a
        n
  stmt-Refused (for_to id start end body) h a s =
      for-Refused id start end body (stmt-Refused body h) a
        (record { nested = s.nested; kind = s.kind })
  stmt-Refused (ite cond yes_ no_) (inl h) a n =
      later (expr-Keeps cond true)
        (λ c. later (keep_then (stop_if-Keeps _ _) (λ _. next_label-Keeps)) (λ l₀.
          later next_label-Keeps (λ l₁. at_once _ (
            at_once _ (
              at_once _ (
                later (keep_then (emit-Keeps _) (λ _. takeback-Keeps c.reg))
                  (λ _. stmt-Refused yes_ h)))))))
        a n
  stmt-Refused (ite cond yes_ no_) (inr h) a n =
      later (expr-Keeps cond true)
        (λ c. later (keep_then (stop_if-Keeps _ _) (λ _. next_label-Keeps)) (λ l₀.
          later next_label-Keeps (λ l₁. at_once _ (
            later
              (keep_then
                (keep_then (keep_then (emit-Keeps _) (λ _. takeback-Keeps c.reg))
                  (λ _. stmt-Keeps yes_))
                (λ _. emit-Keeps _))
              (λ _. stmt-Refused no_ h)))))
        a n
  stmt-Refused (stmts ss) h a n = stmts-Refused ss h a n
  stmt-Refused (wdo cond body) h a n =
      later next_label-Keeps
        (λ l₀. later next_label-Keeps (λ l₁.
          later (keep_then (emit-Keeps (label l₀ ∷ [])) (λ _. expr-Keeps cond true)) (λ c.
            at_once (λ _. emit (jmp l₀ ∷ label l₁ ∷ []))
              (later
                (keep_then
                  (keep_then
                    (stop_if-Keeps (not (c.type == boolean_type_idx)) (span_err while_not_boolean))
                    (λ _. emit-Keeps (cmp_one c.reg.name ∷ jne l₁ ∷ [])))
                  (λ _. takeback-Keeps c.reg))
                (λ _. stmt-Refused body h)))))
        a n

  stmts-Refused : (ss : StmtList) → SomeAssigns ss → Refused (analyze_stmts ss)
  stmts-Refused no_stmts h a n = absurd h
  stmts-Refused (stmt s ss) (inl h) a n = at_once _ (stmt-Refused s h) a n
  stmts-Refused (stmt s ss) (inr h) a n = later (stmt-Keeps s) (λ _. stmts-Refused ss h) a n

-- In a function, no `for` is ever accepted that has an assignment anywhere in its body, in a block,
-- a condition or another loop too, whatever is assigned to, a local variable of the function
-- included: the body stands in an empty scope of its own.
pub analyze_stmt-for_refused :
    (id : String) (start end : AstExpr) (body : AstStmt) (a c : Acx)
    → Assigns body
    → a.toplevel ≡ false
    → a.current_func_type ≡ sub_function
    → analyze_stmt (for_to id start end body) a ≢ ok (tt, c)
analyze_stmt-for_refused id start end body a c h t k e =
    After_of_eq
      (for-Refused id start end body (stmt-Refused body h) a (record { nested = t; kind = k })) e
