-- ===== src/Util/Hash/Foreach.antt =====
-- Which entries a pass over a table by `HFOREACH` of dragon/util.h visits.
use mathlib.Core.List.{flatten}
use cs.Prelude.{
  ℕ, zero, suc, ◌≡◌, ◌≤◌, refl, ap, ◌∙◌, List, [], ◌∷◌, ◌++◌, length, get_or, take, arith,
}
use cs.Util.Hash.{Bucket, HashTable, hforeach_loop, hforeach}

-- The buckets from number `hi` on, `n` of them.
abbrev pub slice : {K : Type 0} → ℕ → ℕ → List (Bucket K) → Bucket K
slice zero hi bs = []
slice (suc n) hi bs = get_or bs hi [] ++ slice n (suc hi) bs

slice-cons :
    {K : Type 0} (n hi : ℕ) (b : Bucket K) (bs : List (Bucket K))
    → slice n (suc hi) (b ∷ bs) ≡ slice n hi bs
slice-cons zero hi b bs = refl
slice-cons (suc n) hi b bs = ap (λ t. get_or bs hi [] ++ t) (slice-cons n (suc hi) b bs)

slice-flatten :
    {K : Type 0} (n : ℕ) (bs : List (Bucket K)) → n ≤ length bs → slice n 0 bs ≡ flatten (take n bs)
unfolding flatten
slice-flatten zero bs h = refl
slice-flatten (suc n) [] h = elim h [ ]
slice-flatten (suc n) (b ∷ bs) h =
    ap (λ t. b ++ t) (slice-cons n 0 b bs ∙ slice-flatten n bs (omega arith))

hforeach_loop-slice :
    {K : Type 0} (n hi : ℕ) (b : Bucket K) (bs : List (Bucket K))
    → hforeach_loop (suc n) hi b bs ≡ b ++ slice n hi bs
unfolding hforeach_loop
hforeach_loop-slice zero hi b bs = refl
hforeach_loop-slice (suc n) hi b bs =
    ap (λ t. b ++ t) (hforeach_loop-slice n (suc hi) (get_or bs hi []) bs)

-- `HFOREACH` over a table of `n + 1` buckets visits the first bucket, and then the first `n`
-- buckets in order: from two buckets on, the first one a second time, and never the last one.
pub hforeach-visits :
    {K : Type 0} (tab : HashTable K) (n : ℕ)
    → tab.num_buckets ≡ suc n
    → length tab.buckets ≡ suc n
    → hforeach tab ≡ get_or tab.buckets 0 [] ++ flatten (take n tab.buckets)
unfolding hforeach
hforeach-visits tab n e w = rw e (
    hforeach_loop-slice n 0 (get_or tab.buckets 0 []) tab.buckets
    ∙ ap (λ t. get_or tab.buckets 0 [] ++ t) (slice-flatten n tab.buckets (omega arith)))
