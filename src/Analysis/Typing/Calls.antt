-- ===== src/Analysis/Typing/Calls.antt =====
-- The types of paths, of operators and of calls: the pieces of `analyze_expr` of
-- dragon/analysis.c, over what it does with the arguments.
use mathlib.Core.Path.{subst}
use mathlib.Core.Option.{map}
use cs.Prelude.{
  ℕ, ◌≡◌, ◌≢◌, refl, ap, sym, ◌∙◌, inl, inr, List, some, Bool, false, not, ◌==◌, ==_iff, ◌&&◌, ◌||◌,
  length, get_elem?, arith, Option-cases,
}
use cs.Token.{Token}
use cs.Ast.{AstPath, AstExpr, app, bin, un, ExprList, Subprogs}
use cs.Exec.{Exec, pure, ◌>>◌}
use cs.Exec.Rules.{After, returns, stops, After-bind, After-stop_if}
use cs.Symbol.{
  StabVar, StabType, ResolvedType, Magic, plain, read, readln, write, writeln, stab_type, stab_var,
  stab_resolve_var, stab_resolve_func, resolve_failure, integer_type_idx, boolean_type_idx,
}
use cs.Analysis.{Acx, Resu, on_stab}
use cs.Analysis.Paths.{type_of_path, but_last}
use cs.Analysis.Exprs.{
  length_exprs, signature, call_with, dispatch_call, call_path, binary, is_not, unary, magic_result,
}
use cs.Analysis.Keeps.{Keeps-prints, Keeps, Keeps-trans, on_stab-Keeps}
use cs.Analysis.Keeps.Paths.{
  gimme-Keeps, load_address-Keeps, walk-Keeps, load_value-Keeps, takeback-Keeps,
}
use cs.Analysis.Keeps.Reads.{has_local_var-Reads, stab_type-Reads}
use cs.Analysis.Keeps.Exprs.{save-Keeps, binary_code-Keeps, restore-Keeps}
use cs.Analysis.Typing.{
  Env, env_of, env_of-Keeps, HasType, operator, sign, called, builtin, AllTyped,
}

-- Reading a variable and a type.
pub var-After :
    (id : ℕ) (a : Acx)
    → After (λ v b. (b ≡ a) × (get_elem? a.st.vars id ≡ some v)) (on_stab (stab_var id) a)
var-After id a = elim (Option-cases (get_elem? a.st.vars id)) [
  | inl e ↦ rw e stops
  | inr (v, e) ↦ rw e (returns (refl, refl))
]

pub type-After :
    (id : ℕ) (a : Acx)
    → After (λ t b. (b ≡ a) × (get_elem? a.st.types id ≡ some t)) (on_stab (stab_type id) a)
type-After id a = elim (Option-cases (get_elem? a.st.types id)) [
  | inl e ↦ rw e stops
  | inr (t, e) ↦ rw e (returns (refl, refl))
]

pub path-After :
    (p : AstPath) (b : Bool) (a : Acx)
    → After (λ r c. Keeps a c × ((env_of a.st).var p.first ≡ some r.type)) (type_of_path p b a)
unfolding type_of_path
path-After p b a = After-stop_if (stab_resolve_var a.st p.first == resolve_failure) _ a _ (λ found.
    After-bind (gimme-Keeps a) (λ reg s₁ k₁.
      After-bind (on_stab-Keeps (has_local_var-Reads p.first) s₁) (λ here s₂ k₂.
        After-bind (load_address-Keeps here (stab_resolve_var a.st p.first) reg.name s₂) (λ _ s₃ k₃.
          After-bind (var-After (stab_resolve_var a.st p.first) s₃) (λ v s₄ (same, at).
            After-bind (on_stab-Keeps (stab_type-Reads v.type) s₄) (λ t s₅ k₅.
              After-bind (walk-Keeps reg.name (but_last p.first p.rest) t.ty s₅) (λ _ s₆ k₆.
                After-bind (load_value-Keeps b reg.name s₆) (λ _ s₇ k₇.
                  let k : Keeps a s₃ = Keeps-trans k₁ (Keeps-trans k₂ k₃) in
                  let k' : Keeps s₄ s₇ = Keeps-trans k₅ (Keeps-trans k₆ k₇) in
                  returns (
                    Keeps-trans k (rw same at k'),
                    sym (k.var_types (stab_resolve_var a.st p.first))
                        ∙ ap (map (λ (x : StabVar). x.type)) at,
                  )))))))))

-- What is proved of each action: it keeps the environment, and its result is typed in the first.
abbrev pub Types : AstExpr → Exec Acx Resu → Acx → Type 0
Types e m a = After (λ r c. Keeps a c × HasType (env_of a.st) e r.type) (m a)

pub typed_later :
    {a b : Acx} {e : AstExpr} {t : ℕ}
    → Keeps a b
    → HasType (env_of b.st) e t
    → HasType (env_of a.st) e t
typed_later {e = e} {t} k h = subst (λ (v : Env). HasType v e t) (env_of-Keeps k) h

pub AllTyped-later :
    {a b : Acx} {es : ExprList} → Keeps a b → AllTyped (env_of b.st) es → AllTyped (env_of a.st) es
AllTyped-later {es = es} k h = subst (λ (v : Env). AllTyped v es) (env_of-Keeps k) h

pub same_type : (x y : ℕ) → not (x == y) ≡ false → x ≡ y
same_type x y e = (==_iff x y).0 (ground arith)

pub binary-After :
    (o : Token) (l r : AstExpr) (x y : Resu) (env : Env) (a : Acx)
    → HasType env l x.type
    → HasType env r y.type
    → After (λ s c. Keeps a c × HasType env (bin o l r) s.type) (binary o x y a)
unfolding binary
binary-After o l r x y env a h k = After-stop_if (not (x.type == y.type)) _ a _ (λ same.
    After-bind (binary_code-Keeps o x y a) (λ _ b k₁. After-bind (takeback-Keeps y.reg b) (λ _ c k₂.
      returns (
        Keeps-trans k₁ k₂,
        operator h (subst (HasType env r) (sym (same_type x.type y.type same)) k),
      ))))

-- `not` is always refused, since no index is that of both integer and real.
sign_only :
    (o : Token) (t : ℕ)
    → t ≡ 3
    → is_not o && (not (t == integer_type_idx) || not (t == 1)) ≡ false
    → is_not o ≡ false
sign_only o t e h = ground arith

pub unary-After :
    (o : Token) (e : AstExpr) (r : Resu) (env : Env) (a : Acx)
    → HasType env e r.type
    → After (λ s c. Keeps a c × HasType env (un o e) s.type) (unary o r a)
unfolding unary
unary-After o e r env a h = After-stop_if _ _ a _ (λ f.
    After-stop_if (not (r.type == boolean_type_idx)) _ a _ (λ g.
      let boolean : r.type ≡ 3 = same_type r.type 3 g in
      let h' : HasType env e 3 = subst (HasType env e) boolean h in
      let t : HasType env (un o e) 3 = sign (sign_only o r.type boolean f) h' in
      returns (Keeps-prints a _ _ refl, subst (HasType env (un o e)) (sym boolean) t)))

signature-After :
    (t : ResolvedType) (b : Acx)
    → After
        (λ s c. (c ≡ b) × (kind : Subprogs) × (t ≡ ResolvedType.func kind s.0 s.1))
        (signature t b)
signature-After (ResolvedType.func kind args retty) b = returns (refl, kind, refl)
signature-After _ b = stops

call_with-After :
    (p : AstPath) (es : ExprList) (ty : StabType) (pass : List ℕ → Exec Acx (Unit {0})) (a : Acx)
    → ((formals : List ℕ) (b : Acx)
        → length_exprs es ≡ length formals
        → After (λ _ c. Keeps b c × AllTyped (env_of b.st) es) (pass formals b))
    → (env_of a.st).func p.first ≡ some ty
    → ty.magic ≡ plain
    → Types (app p es) (call_with p.first ty (length_exprs es) pass) a
unfolding call_with
call_with-After p es ty pass a h at pl = After-bind (save-Keeps a) (λ _ b k.
    After-bind (signature-After ty.ty b) (λ s c (same, kind, is_func).
      After-stop_if (not (length_exprs es == length s.0)) _ c _ (λ count.
        After-bind (h s.0 c (same_type _ _ count)) (λ _ d (l, typed).
          After-bind (gimme-Keeps d) (λ reg e k₁. After-bind (restore-Keeps reg _) (λ _ g k₃.
            let k' : Keeps a c = rw same k in
            returns (
              Keeps-trans k'
                  (Keeps-trans l (Keeps-trans k₁ (Keeps-trans (Keeps-prints e _ _ refl) k₃))),
              called at pl is_func (same_type _ _ count) (AllTyped-later k' typed),
            )))))))

dispatch-After :
    (p : AstPath) (es : ExprList) (ty : StabType) (builtin_call : Magic → Exec Acx (Unit {0}))
    (ordinary : Exec Acx Resu) (a : Acx)
    → (env_of a.st).func p.first ≡ some ty
    → ((w : Magic) → After (λ _ c. Keeps a c × AllTyped (env_of a.st) es) (builtin_call w a))
    → (ty.magic ≡ plain → Types (app p es) ordinary a)
    → Types (app p es) (dispatch_call ty.magic builtin_call ordinary) a
dispatch-After p es ty builtin_call ordinary a at h k = go ty.magic refl
  where
    built :
        (w : Magic) → ty.magic ≢ plain → Types (app p es) (builtin_call w >> pure magic_result) a
    built w ne = After-bind (h w) (λ _ c (l, typed). returns (l, builtin at ne typed))

    go : (w : Magic) → ty.magic ≡ w → Types (app p es) (dispatch_call w builtin_call ordinary) a
    go plain e = k e
    go read e = built read (λ f. ground arith)
    go readln e = built readln (λ f. ground arith)
    go write e = built write (λ f. ground arith)
    go writeln e = built writeln (λ f. ground arith)

pub call_path-After :
    (p : AstPath) (es : ExprList) (builtin_call : Magic → Exec Acx (Unit {0}))
    (pass : List ℕ → Exec Acx (Unit {0})) (a : Acx)
    → ((w : Magic) → After (λ _ c. Keeps a c × AllTyped (env_of a.st) es) (builtin_call w a))
    → ((formals : List ℕ) (b : Acx)
        → length_exprs es ≡ length formals
        → After (λ _ c. Keeps b c × AllTyped (env_of b.st) es) (pass formals b))
    → Types (app p es) (call_path p (length_exprs es) builtin_call pass) a
unfolding call_path
call_path-After p es builtin_call pass a h k =
    After-stop_if (not (length p.rest == 0)) _ a _ (λ single.
      After-stop_if (stab_resolve_func a.st p.first == resolve_failure) _ a _ (λ found.
        After-bind (type-After (stab_resolve_func a.st p.first) a) (λ ty b (same, at). rw same (
          dispatch-After p es ty builtin_call (call_with p.first ty (length_exprs es) pass) a at h
            (λ pl. call_with-After p es ty pass a k at pl)))))
