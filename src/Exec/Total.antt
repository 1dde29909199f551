-- ===== src/Exec/Total.antt =====
-- Postconditions of actions that are known to return.
use cs.Prelude.{◌≡◌, Bool, true, false, arith}
use cs.Exec.{Result, ok, Stop, Exec, stop_if, continue}
use cs.Exec.Rules.{After}

pub data Returns {S A : Type 0} (P : A → S → Type 0) : Result (A × S) → Type 0 where
  returns : {a : A} {s : S} → P a s → Returns P (ok (a, s))

module _ {S A : Type 0} {P : A → S → Type 0} where
  pub Returns-mono :
      {Q : A → S → Type 0} {r : Result (A × S)}
      → Returns P r
      → ((a : A) (s : S) → P a s → Q a s)
      → Returns Q r
  Returns-mono (returns h) k = returns (k _ _ h)

module _ {S A B : Type 0} {P : A → S → Type 0} {Q : B → S → Type 0} where
  pub Returns-bind :
      {r : Result (A × S)} {f : A → Exec S B}
      → Returns P r
      → ((a : A) (s : S) → P a s → Returns Q (f a s))
      → Returns Q (continue r f)
  Returns-bind (returns h) k = k _ _ h

module _ {S B : Type 0} {Q : B → S → Type 0} where
  pub Returns-stop_if :
      (b : Bool) (e : Stop) (s : S) (f : Unit {0} → Exec S B)
      → b ≡ false
      → Returns Q (f tt s)
      → Returns Q (continue (stop_if b e s) f)
  Returns-stop_if true e s f h k = absurd (ground arith)
  Returns-stop_if false e s f h k = k

-- What holds when it returns holds of one that is known to return.
module _ {S A : Type 0} {P Q : A → S → Type 0} where
  pub Returns-After :
      {r : Result (A × S)} → Returns P r → After Q r → Returns (λ a s. P a s × Q a s) r
  Returns-After (returns p) (After.returns q) = returns (p, q)

module _ {S A : Type 0} {P : A → S → Type 0} where
  pub Returns-run : {r : Result (A × S)} → Returns P r → (a : A) × (s : S) × (r ≡ ok (a, s)) × P a s
  Returns-run (returns {a} {s} p) = (a, s, (λ i. ok (a, s)), p)
