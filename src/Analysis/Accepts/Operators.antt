-- ===== src/Analysis/Accepts/Operators.antt =====
-- The operators of `analyze_expr` of dragon/analysis.c that are known to return.
use cs.Prelude.{
  ◌≡◌, refl, [], ◌∷◌, Bool, true, false, not, ◌&&◌, ◌||◌, ◌==◌, Option, none, some, String, arith,
  if◌then◌else◌,
}
use cs.Token.{Token, and_, or_, neq, le, ge, div, mod_, chr, is_relop}
use cs.Exec.{Exec}
use cs.Exec.Total.{returns, Returns-stop_if}
use cs.Symbol.{integer_type_idx, real_type_idx, boolean_type_idx}
use cs.Analysis.{Acx, Resu, not_}
use cs.Analysis.Exprs.{low_byte, compare_into, binary_code, binary, is_not, unary}
use cs.Analysis.Silent.Exprs.{binary_code-Silent}
use cs.Analysis.Accepts.{is_operator}
use cs.Analysis.Accepts.Pieces.{
  Ready, has_low, Named, Any, Goes, Ends, goes_then, goes_silent, gives, prints, takeback-Goes,
}

if-Ends :
    {A : Type 0} {a : Acx} (b : Bool) (x y : Exec Acx A)
    → (b ≡ true → Ends x a)
    → (b ≡ false → Ends y a)
    → Ends (if b then x else y) a
if-Ends true x y h k = h refl
if-Ends false x y h k = k refl

low_exists : (o : Option String) → has_low o ≡ true → (s : String) × (o ≡ some s)
low_exists none h = absurd (ground arith)
low_exists (some s) h = (s, refl)

compare-Ends : (l r : Resu) (a : Acx) → Named r.reg → (cc : _) → Ends (compare_into cc l r) a
compare-Ends l r a named cc =
    let (s, e) = low_exists (low_byte r.reg.name) named in rw e (returns tt)

code-Ends :
    (o : Token) (l r : Resu) (a : Acx)
    → is_operator o ≡ true
    → Named r.reg
    → Ends (binary_code o l r) a
unfolding is_operator binary_code
code-Ends and_ l r a h named = returns tt
code-Ends or_ l r a h named = returns tt
code-Ends neq l r a h named = compare-Ends l r a named _
code-Ends le l r a h named = compare-Ends l r a named _
code-Ends ge l r a h named = compare-Ends l r a named _
code-Ends div l r a h named = returns tt
code-Ends mod_ l r a h named = returns tt
code-Ends (chr c) l r a h named =
    if-Ends (c == b'=') _ _ (λ _. compare-Ends l r a named _)
      λ e₁.
        if-Ends (c == b'<') _ _ (λ _. compare-Ends l r a named _)
          λ e₂.
            if-Ends (c == b'>') _ _ (λ _. compare-Ends l r a named _)
              λ e₃.
                if-Ends (c == b'/') _ _ (λ _. returns tt)
                  λ e₄.
                    if-Ends (c == b'+') _ _ (λ _. returns tt)
                      λ e₅.
                        if-Ends (c == b'-') _ _ (λ _. returns tt)
                          λ e₆.
                            if-Ends (c == b'*') _ _ (λ _. returns tt) λ e₇. absurd (ground arith)
code-Ends _ l r a h named = absurd (ground arith)

pub binary-Goes :
    (o : Token) (l r : Resu) (a : Acx)
    → Ready a
    → is_operator o ≡ true
    → l.type ≡ r.type
    → Named l.reg
    → Named r.reg
    → Goes
        (λ s. (s.type ≡ (if is_relop o then boolean_type_idx else l.type)) × Named s.reg)
        (binary o l r)
        a
unfolding binary
binary-Goes o l r a ready known same low low' =
    Returns-stop_if (not (l.type == r.type)) _ a _ (ground arith) (
      goes_then {P = Any}
        (goes_silent (binary_code-Silent o l r) ready (code-Ends o l r a known low'))
        (λ _ b _ ready' _.
          goes_then (takeback-Goes r.reg b ready') (λ _ c _ ready'' _. gives ready'' (refl, low))))

pub unary-Goes :
    (o : Token) (r : Resu) (a : Acx)
    → Ready a
    → is_not o ≡ false
    → r.type ≡ boolean_type_idx
    → Named r.reg
    → Goes (λ s. (s.type ≡ boolean_type_idx) × Named s.reg) (unary o r) a
unfolding unary
unary-Goes o r a ready sign bool low =
    Returns-stop_if
      (is_not o && (not (r.type == integer_type_idx) || not (r.type == real_type_idx))) _ a _
      (rw sign refl)
      (Returns-stop_if (not (r.type == boolean_type_idx)) _ a _ (ground arith)
        (prints (not_ r.reg.name ∷ []) ready (bool, low)))
