-- ===== src/Exec/Rules.antt =====
-- Postconditions of actions that return: a rule for each way to build an action.
use mathlib.Core.Path.{subst}
use cs.Prelude.{◌≡◌, refl, Bool, true, false, Option, none, some}
use cs.Exec.{Stop, Result, ok, stop, Exec, require, continue, ◌>>=◌, stop_if}

-- Inversion of a sequence that returned: both parts returned.
module _ {ℓ} {S A B : Type ℓ} where
  pub >>=-eq-ok :
      (m : Exec S A) (f : A → Exec S B) (s : S) {b : B} {u : S}
      → (m >>= f) s ≡ ok (b, u)
      → (a : A) × (t : S) × (m s ≡ ok (a, t)) × (f a t ≡ ok (b, u))
  >>=-eq-ok m f s {b} {u} h = go (m s) h
    where
      go :
          (r : Result (A × S))
          → continue r f ≡ ok (b, u)
          → (a : A) × (t : S) × (r ≡ ok (a, t)) × (f a t ≡ ok (b, u))
      go (ok (a, t)) e = (a, t, (λ i. ok (a, t)), e)
      go (stop e) e' = cc

-- If the run returned, `P` holds of its value and of the state after it.
pub data After {S A : Type 0} (P : A → S → Type 0) : Result (A × S) → Type 0 where
  returns : {a : A} {s : S} → P a s → After P (ok (a, s))
  stops : {e : Stop} → After P (stop e)

module _ {S A : Type 0} {P : A → S → Type 0} where
  pub After-ok : {a : A} {s : S} → After P (ok (a, s)) → P a s
  After-ok (returns h) = h

  pub After_of_eq : {r : Result (A × S)} {a : A} {s : S} → After P r → r ≡ ok (a, s) → P a s
  After_of_eq h e = After-ok (subst (After P) e h)

  pub After-intro : (r : Result (A × S)) → ((a : A) (s : S) → r ≡ ok (a, s) → P a s) → After P r
  After-intro (ok (a, s)) h = returns (h a s refl)
  After-intro (stop e) h = stops

  pub After-mono :
      {Q : A → S → Type 0} {r : Result (A × S)}
      → After P r
      → ((a : A) (s : S) → P a s → Q a s)
      → After Q r
  After-mono (returns h) k = returns (k _ _ h)
  After-mono stops k = stops

module _ {S A B : Type 0} {P : A → S → Type 0} {Q : B → S → Type 0} where
  pub After-bind :
      {r : Result (A × S)} {f : A → Exec S B}
      → After P r
      → ((a : A) (s : S) → P a s → After Q (f a s))
      → After Q (continue r f)
  After-bind (returns h) k = k _ _ h
  After-bind stops k = stops

module _ {S A B : Type 0} {Q : B → S → Type 0} where
  pub After-require :
      (o : Option A) (s : S) (f : A → Exec S B)
      → ((a : A) → o ≡ some a → After Q (f a s))
      → After Q (continue (require o s) f)
  After-require none s f k = stops
  After-require (some a) s f k = k a refl

module _ {S B : Type 0} {Q : B → S → Type 0} where
  pub After-stop_if :
      (b : Bool) (e : Stop) (s : S) (f : Unit {0} → Exec S B)
      → (b ≡ false → After Q (f tt s))
      → After Q (continue (stop_if b e s) f)
  After-stop_if true e s f k = stops
  After-stop_if false e s f k = k refl
