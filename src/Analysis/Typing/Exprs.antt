-- ===== src/Analysis/Typing/Exprs.antt =====
-- The types of the expressions that `analyze_expr` of dragon/analysis.c accepts.
use mathlib.Core.Path.{subst}
use cs.Prelude.{
  ℕ, suc, ◌≡◌, refl, ap, sym, ◌∙◌, List, [], ◌∷◌, Bool, true, false, not, ◌==◌, length, arith,
}
use cs.Ast.{AstPath, AstExpr, app, bin, deref, idx, lit, path, un, addrof, ExprList, no_exprs, expr}
use cs.Exec.{Result, ok}
use cs.Exec.Rules.{
  After, returns, stops, After-bind, After-require, After-stop_if, After-mono, After_of_eq,
}
use cs.Symbol.{ResolvedType, Magic, plain, read, readln, write, writeln, integer_type_idx}
use cs.Analysis.{push, Acx, Resu}
use cs.Analysis.Exprs.{
  is_lvalue, length_exprs, path_field, pointee, element, analyze_expr, magic_args, pass_args,
  analyze_call,
}
use cs.Analysis.Keeps.{Keeps-prints, emit-Keeps, Keeps, Keeps-refl, Keeps-trans, keep_then}
use cs.Analysis.Keeps.Paths.{gimme-Keeps}
use cs.Analysis.Keeps.Exprs.{
  write_argument-Keeps, read_argument-Keeps, check_argument-Keeps, load_if-Keeps,
}
use cs.Analysis.Typing.{
  Env, env_of, env_of-Keeps, HasType, literal, variable, pointed, indexed, called, builtin,
  AllTyped, none_left, one_more,
}
use cs.Analysis.Typing.Calls.{
  Types, type-After, path-After, typed_later, AllTyped-later, same_type, binary-After, unary-After,
  call_path-After,
}

pointee-After :
    (t : ResolvedType) (b : Acx)
    → After (λ p c. (c ≡ b) × (t ≡ ResolvedType.pointer p)) (pointee t b)
pointee-After (ResolvedType.pointer p) b = returns (refl, refl)
pointee-After _ b = stops

element-After :
    (t : ResolvedType) (b : Acx)
    → After
        (λ elt c. (c ≡ b) × (lower : ℕ) × (upper : ℕ) × (t ≡ ResolvedType.array lower upper elt))
        (element t b)
element-After (ResolvedType.array lower upper elt) b = returns (refl, lower, upper, refl)
element-After _ b = stops

-- One argument, then the others.
then_typed :
    {a b c : Acx} {e : AstExpr} {es : ExprList} {t : ℕ} {m : Result (Unit {0} × Acx)}
    → Keeps a b
    → HasType (env_of a.st) e t
    → Keeps b c
    → After (λ _ d. Keeps c d × AllTyped (env_of c.st) es) m
    → After (λ _ d. Keeps a d × AllTyped (env_of a.st) (expr e es)) m
then_typed k h l m = After-mono m (λ _ d (q, typed).
    (Keeps-trans k (Keeps-trans l q), one_more h (AllTyped-later (Keeps-trans k l) typed)))

mutual
  unfolding analyze_expr

  pub expr-Types : (e : AstExpr) (b : Bool) (a : Acx) → Types e (analyze_expr e b) a
  expr-Types (app p es) b a =
      call_path-After p es _ _ a (λ w. magic_args-AllTyped es w a)
        (λ formals c count. pass_args-AllTyped es 0 formals count c)
  expr-Types (bin o l r) b a = After-bind (expr-Types l true a) (λ x s (k, h).
      After-bind (expr-Types r true s) (λ y t (m, g).
        After-mono (binary-After o l r x y (env_of a.st) t h (typed_later k g))
          (λ z u q. (Keeps-trans k (Keeps-trans m q.0), q.1))))
  expr-Types (deref e) b a = After-require (path_field e) a _ (λ p is_path.
      After-bind (path-After p false a) (λ r s (k, v).
        After-bind (type-After r.type s) (λ t u (same, at).
          After-bind (pointee-After t.ty u) (λ target w (same', ptr). returns (
            Keeps-trans k (rw (same', same) (Keeps-prints s _ _ refl)),
            pointed is_path v (ap (λ (x : Env). x.type r.type) (sym (env_of-Keeps k)) ∙ at) ptr,
          )))))
  expr-Types (idx p e) b a = After-bind (path-After p false a) (λ r s (k, v).
      After-bind (type-After r.type s) (λ t u (same, at).
        After-bind (element-After t.ty u) (λ elt w (same', lower, upper, arr).
          After-bind (expr-Types e true w) (λ i x (m, h).
            After-bind {P = λ _ y. (i.type ≡ 0) × Keeps x y}
              (After-stop_if (not (i.type == integer_type_idx)) _ x _ (λ int.
                After-mono (load_if-Keeps b i.reg.name x) (λ _ y l. (same_type i.type 0 int, l))))
              (λ _ y (int, l).
                let kw : Keeps a w = Keeps-trans k (rw (same', same) (Keeps-refl s)) in
                returns (
                  Keeps-trans kw (Keeps-trans m l),
                  indexed v (ap (λ (x : Env). x.type r.type) (sym (env_of-Keeps k)) ∙ at) arr
                      (typed_later kw (subst (HasType (env_of w.st) e) int h)),
                ))))))
  expr-Types (lit s) b a =
      After-bind (gimme-Keeps a)
        (λ r c k. returns (Keeps-trans k (Keeps-prints c _ _ refl), literal))
  expr-Types (path p) b a = After-mono (path-After p b a) (λ r c h. (h.0, variable h.1))
  expr-Types (un o e) b a = After-bind (expr-Types e true a) (λ r c (k, h).
      After-mono (unary-After o e r (env_of a.st) c h) (λ s d q. (Keeps-trans k q.0, q.1)))
  expr-Types (addrof e) b a = stops

  magic_args-AllTyped :
      (es : ExprList) (w : Magic) (a : Acx)
      → After (λ _ c. Keeps a c × AllTyped (env_of a.st) es) (magic_args es w a)
  magic_args-AllTyped no_exprs w a = returns (Keeps-prints a _ _ refl, none_left)
  magic_args-AllTyped (expr e es) plain a = stops
  magic_args-AllTyped (expr e es) write a = After-bind (expr-Types e true a) (λ r b (k, h).
      After-bind (write_argument-Keeps r b)
        (λ _ c l. then_typed k h l (magic_args-AllTyped es write c)))
  magic_args-AllTyped (expr e es) writeln a = After-bind (expr-Types e true a) (λ r b (k, h).
      After-bind (write_argument-Keeps r b)
        (λ _ c l. then_typed k h l (magic_args-AllTyped es writeln c)))
  magic_args-AllTyped (expr e es) read a =
      After-bind (After-stop_if (not (is_lvalue e)) _ a _ (λ _. expr-Types e false a))
        (λ r b (k, h).
          After-bind (read_argument-Keeps read r b)
            (λ _ c l. then_typed k h l (magic_args-AllTyped es read c)))
  magic_args-AllTyped (expr e es) readln a =
      After-bind (After-stop_if (not (is_lvalue e)) _ a _ (λ _. expr-Types e false a))
        (λ r b (k, h).
          After-bind (read_argument-Keeps readln r b)
            (λ _ c l. then_typed k h l (magic_args-AllTyped es readln c)))

  pass_args-AllTyped :
      (es : ExprList) (i : ℕ) (formals : List ℕ)
      → length_exprs es ≡ length formals
      → (a : Acx) → After (λ _ c. Keeps a c × AllTyped (env_of a.st) es) (pass_args es i formals a)
  pass_args-AllTyped no_exprs i formals count a = returns (Keeps-refl a, none_left)
  pass_args-AllTyped (expr e es) i [] count a = absurd (omega arith)
  pass_args-AllTyped (expr e es) i (formal ∷ formals) count a =
      After-bind (expr-Types e true a) (λ r b (k, h).
        After-bind
          (keep_then (check_argument-Keeps i r.type formal) (λ _. emit-Keeps (push r.reg.name ∷ []))
            b)
          (λ _ c l. then_typed k h l (pass_args-AllTyped es (suc i) formals (omega arith) c)))

-- An expression that `analyze_expr` accepts has the type that it returns, in the environment in
-- which the analysis started.
pub analyze_expr-HasType :
    (e : AstExpr) (b : Bool) (a c : Acx) (r : Resu)
    → analyze_expr e b a ≡ ok (r, c)
    → HasType (env_of a.st) e r.type
analyze_expr-HasType e b a c r h = (After_of_eq (expr-Types e b a) h).1

pub call-Types :
    (p : AstPath) (es : ExprList) (a : Acx)
    → After (λ r c. Keeps a c × AllTyped (env_of a.st) es) (analyze_call p es a)
unfolding analyze_call
call-Types p es a =
    After-mono
      (call_path-After p es _ _ a (λ w. magic_args-AllTyped es w a)
        (λ formals c count. pass_args-AllTyped es 0 formals count c))
      (λ r c h. (h.0, arguments h.1))
  where
    arguments : {t : ℕ} → HasType (env_of a.st) (app p es) t → AllTyped (env_of a.st) es
    arguments (called x y z w typed) = typed
    arguments (builtin x y typed) = typed
