-- ===== src/Analysis/Keeps/Stmts.antt =====
-- What `check_assignability` and `analyze_stmt` of dragon/analysis.c leave alone.
use cs.Prelude.{◌≡◌, ap, sym, ◌∙◌, List, [], ◌∷◌, true, false, not, String, length, ◌==◌}
use cs.Ast.{
  ast_path, AstExpr, AstStmt, assign, for_to, ite, proc, stmts, wdo, skip, StmtList, no_stmts, stmt,
}
use cs.Exec.{Result, ok, stop, span_err, for_variable_not_integer, Exec, stop_if, ◌>>=◌, ◌>>◌}
use cs.Exec.Rules.{After, returns, stops, After-bind}
use cs.Symbol.{Scope, Stab, stab_scope_new, stab_enter, stab_leave, integer_type_idx}
use cs.Symbol.Scoping.{stab_leave-After}
use cs.Analysis.{Acx, Resu, push, emit, on_stab, with_stab, next_label}
use cs.Analysis.Stmts.{
  check_assignability, assign_to, check_bounds, enter, analyze_stmt, analyze_stmts,
}
use cs.Analysis.Keeps.{
  stop_if-Keeps, emit-Keeps, next_label-Keeps, keeping, type_at, Keeps, Keeps-refl, Keeps-trans,
  Moves, Moves-bind, keep_then,
}
use cs.Analysis.Silent.{Silent-Keeps}
use cs.Analysis.Silent.Stmts.{assignability-Silent, assign_to-Silent, bounds-Silent}
use cs.Analysis.Keeps.Paths.{takeback-Keeps, type_of_path-Keeps}
use cs.Analysis.Keeps.Exprs.{expr-Keeps, call-Keeps}

pub assignability-Keeps : (e : AstExpr) → Moves Keeps (check_assignability e)
assignability-Keeps e = Silent-Keeps _ (assignability-Silent e)

assign_to-Keeps : (l r : Resu) → Moves Keeps (assign_to l r)
assign_to-Keeps l r = Silent-Keeps _ (assign_to-Silent l r)

pub bounds-Keeps : (s e : Resu) → Moves Keeps (check_bounds s e)
bounds-Keeps s e = Silent-Keeps _ (bounds-Silent s e)

-- The state after entering a scope, and what holds inside it.
abbrev pub entered : Acx → Acx
entered a = record a { st = stab_enter a.st }

entered-Keeps : (a b : Acx) → Keeps a b → Keeps (entered a) (entered b)
unfolding stab_enter
entered-Keeps a b h = record {
  chain = ap (λ l. stab_scope_new ∷ l) h.chain;
  types = h.types;
  var_count = h.var_count;
  var_types = h.var_types;
  toplevel = h.toplevel;
  kind = h.kind;
  func = h.func;
  assigned = h.assigned;
  labels = h.labels;
  code = h.code;
}

-- Inside the scope that the first state has entered.
abbrev pub Inside : Acx → Acx → Type 0
Inside a b = Keeps (entered a) b

enter-Inside : Moves Inside enter
enter-Inside a = returns (Keeps-refl (entered a))

-- Actions that leave the scope again.
abbrev pub Closes : {A : Type 0} → Exec Acx A → Type 0
Closes m = (a b : Acx) → Inside a b → After (λ _ c. Keeps a c) (m b)

inner_chain :
    (a : Acx) (sc : Scope) (l : List Scope) → sc ∷ l ≡ (entered a).st.chain → l ≡ a.st.chain
unfolding stab_enter
inner_chain a sc l e = cc

pub leave-Closes : Closes (on_stab stab_leave)
unfolding stab_enter
leave-Closes a b h = go (stab_leave b.st) (stab_leave-After b.st)
  where
    go :
        (r : Result (Unit {0} × Stab))
        → After
            (λ _ u.
              (sc : Scope) × (b.st.chain ≡ sc ∷ u.chain) × (u ≡ record b.st { chain = u.chain }))
            r
        → After (λ _ c. Keeps a c) (with_stab b r)
    go (ok (x, u)) (returns (sc, e, same)) = returns (record {
      chain = inner_chain a sc u.chain (sym e ∙ h.chain);
      types = ap (λ (s : Stab). s.types) same ∙ h.types;
      var_count = ap (λ (s : Stab). length s.vars) same ∙ h.var_count;
      var_types = λ i. ap (λ (s : Stab). type_at s i) same ∙ h.var_types i;
      toplevel = h.toplevel;
      kind = h.kind;
      func = h.func;
      assigned = h.assigned;
      labels = h.labels;
      code = h.code;
    })
    go (stop x) k = stops

Closes-after :
    {A B : Type 0} {m : Exec Acx A} {f : A → Exec Acx B}
    → Moves Keeps m
    → ((x : A) → Closes (f x))
    → Closes (m >>= f)
Closes-after h k a b i = After-bind (h b) (λ x c l. k x a c (Keeps-trans i l))

opens_then :
    {A B : Type 0} {m : Exec Acx A} {f : A → Exec Acx B}
    → Moves Inside m
    → ((x : A) → Closes (f x))
    → Moves Keeps (m >>= f)
opens_then h k a = After-bind (h a) (λ x b i. k x a b i)

Inside-then :
    {A B : Type 0} {m : Exec Acx A} {f : A → Exec Acx B}
    → Moves Inside m
    → ((x : A) → Moves Keeps (f x))
    → Moves Inside (m >>= f)
Inside-then {m = m} {f} h k = Moves-bind m f (λ a b c. Keeps-trans) h k

before-Inside :
    {A B : Type 0} {m : Exec Acx A} {f : A → Exec Acx B}
    → Moves Keeps m
    → ((x : A) → Moves Inside (f x))
    → Moves Inside (m >>= f)
before-Inside {m = m} {f} h k =
    Moves-bind m f (λ a b c p q. Keeps-trans (entered-Keeps a b p) q) h k

-- The start of a `for` loop, in its scope.
pub opening :
    (i : Resu) (reg : String)
    → Moves Inside (
        stop_if (not (i.type == integer_type_idx)) (span_err for_variable_not_integer)
        >> enter
        >> emit (push reg ∷ [])
        >> next_label)
opening i reg =
    Inside-then
      (Inside-then (before-Inside (stop_if-Keeps _ _) (λ _. enter-Inside)) (λ _. emit-Keeps _))
      (λ _. next_label-Keeps)

mutual
  unfolding analyze_stmt

  pub stmt-Keeps : (s : AstStmt) → Moves Keeps (analyze_stmt s)
  stmt-Keeps skip a = returns (Keeps-refl a)
  stmt-Keeps (assign lvalue rvalue) a =
      search (keeping, expr-Keeps, assignability-Keeps, assign_to-Keeps) depth 30
  stmt-Keeps (for_to id start end body) a =
      keep_then (expr-Keeps start true)
        (λ s. keep_then (expr-Keeps end true) (λ e.
          keep_then (keep_then (bounds-Keeps s e) (λ _. type_of_path-Keeps (ast_path id) false))
            (λ i. opens_then (opening i s.reg.name) (λ l₀. Closes-after next_label-Keeps (λ l₁.
              Closes-after
                (keep_then
                  (keep_then
                    (keep_then (keep_then (emit-Keeps _) (λ _. stmt-Keeps body))
                      (λ _. emit-Keeps _))
                    (λ _. takeback-Keeps e.reg))
                  (λ _. takeback-Keeps s.reg))
                (λ _. leave-Closes))))))
        a
  stmt-Keeps (ite cond yes_ no_) a =
      search (keeping, expr-Keeps, takeback-Keeps, stmt-Keeps yes_, stmt-Keeps no_) depth 30
  stmt-Keeps (proc name args) a = keep_then (call-Keeps name args) (λ c. takeback-Keeps c.reg) a
  stmt-Keeps (stmts ss) a = stmts-Keeps ss a
  stmt-Keeps (wdo cond body) a =
      search (keeping, expr-Keeps, takeback-Keeps, stmt-Keeps body) depth 30

  pub stmts-Keeps : (ss : StmtList) → Moves Keeps (analyze_stmts ss)
  stmts-Keeps no_stmts a = returns (Keeps-refl a)
  stmts-Keeps (stmt s ss) a = keep_then (stmt-Keeps s) (λ _. stmts-Keeps ss) a
