-- ===== src/Util/Hash/Pjw/Bound.antt =====
-- How large `hashpjw` of dragon/util.c gets.
use Prim.Native.Nat.{bit_and, bit_xor}
use cs.Prelude.{
  inl, inr, Bool-cases, arith, ==_iff, ◌==◌, List, [], ◌∷◌, Bool, true, ◌&&◌, ap, ◌∙◌, sym, refl,
  ◌≡◌, ◌<◌, ◌^◌, ◌%◌, ◌/◌, ◌*◌, ◌+◌, ℕ, suc, zero,
}
use cs.Util.Hash.Pjw.{sign_extend, hashpjw_step, hashpjw_loop, hashpjw}
use cs.Util.Hash.Pjw.Digits.{halves, halves-bound, halves-lt, halves-and, halves-xor}

-- Every number below a bound, by evaluation.
all_below : ℕ → (ℕ → Bool) → Bool
all_below zero p = true
all_below (suc n) p = p n && all_below n p

below_sound : (n : ℕ) (p : ℕ → Bool) (x : ℕ) → all_below n p ≡ true → x < n → p x ≡ true
unfolding all_below
below_sound zero p x h lt = absurd (omega arith)
below_sound (suc n) p x h lt = ground (arith, below_sound n p x)

nibble_mask : all_below 16 (λ x. bit_and x 15 == x) ≡ true
unfolding all_below
nibble_mask = refl

nibble_cancel : all_below 16 (λ x. bit_xor (bit_xor x 0) x == 0) ≡ true
unfolding all_below
nibble_cancel = refl

abbrev mask : ℕ
mask = 0xf000000000000000

-- The four digits from the 60th on, masked and cancelled.
module _ (h : ℕ) (fits : h < 2 ^ 64) where
  top : halves 60 h < 16
  top = halves-lt 60 h 16 (omega arith)

  masked : halves 60 (bit_and h mask) ≡ halves 60 h
  masked =
      halves-and 60 h mask
      ∙ (==_iff _ _).0 (below_sound 16 (λ x. bit_and x 15 == x) (halves 60 h) nibble_mask top)

  masked_fits : bit_and h mask < 2 ^ 64
  masked_fits =
      let small : halves 60 (bit_and h mask) < 16 = omega (arith, masked, top) in
      omega (arith, halves-bound 60 (bit_and h mask) 16 small)

  clear-lt : (bit_and h mask ≡ 0) → h < 2 ^ 60
  clear-lt none_set =
      let zero_top : halves 60 h < 1 = omega (arith, sym masked ∙ ap (halves 60) none_set) in
      omega (arith, halves-bound 60 h 1 zero_top)

  cancelled-lt : bit_xor (bit_xor h (bit_and h mask / 2 ^ 48)) (bit_and h mask) < 2 ^ 60
  cancelled-lt =
      let g = bit_and h mask in
      let low : halves 60 (g / 2 ^ 48) < 1 =
        halves-lt 60 (g / 2 ^ 48) 1 (omega (arith, masked_fits)) in
      let gone : halves 60 (g / 2 ^ 48) ≡ 0 = omega arith in
      let top_zero : halves 60 (bit_xor (bit_xor h (g / 2 ^ 48)) g) ≡ 0 =
        halves-xor 60 (bit_xor h (g / 2 ^ 48)) g
        ∙ ap (λ n. bit_xor n (halves 60 g))
            (halves-xor 60 h (g / 2 ^ 48) ∙ ap (bit_xor (halves 60 h)) gone)
        ∙ ap (bit_xor (bit_xor (halves 60 h) 0)) masked
        ∙ (==_iff _ _).0
            (below_sound 16 (λ x. bit_xor (bit_xor x 0) x == 0) (halves 60 h) nibble_cancel top) in
      omega (arith, halves-bound 60 (bit_xor (bit_xor h (g / 2 ^ 48)) g) 1 (omega arith))

hashpjw_step-lt : (h c : ℕ) → hashpjw_step h c < 2 ^ 60
unfolding hashpjw_step
hashpjw_step-lt h c =
    let w = (h * 16 + sign_extend c) % 2 ^ 64 in
    let fits : w < 2 ^ 64 = omega arith in
    elim (Bool-cases (bit_and w mask == 0)) [
      | inl e ↦ rw e (clear-lt w fits ((==_iff _ 0).0 e))
      | inr e ↦ rw e (cancelled-lt w fits)
    ]

hashpjw_loop-lt : (h : ℕ) (string : List ℕ) → h < 2 ^ 60 → hashpjw_loop h string < 2 ^ 60
unfolding hashpjw_loop
hashpjw_loop-lt h [] lt = lt
hashpjw_loop-lt h (c ∷ string) lt = hashpjw_loop-lt (hashpjw_step h c) string (hashpjw_step-lt h c)

-- `hashpjw` of any bytes is below 2 ^ 60.
pub hashpjw-lt : (string : List ℕ) → hashpjw string < 2 ^ 60
unfolding hashpjw
hashpjw-lt string = hashpjw_loop-lt 0 string (omega arith)
