-- ===== src/Util/Hash/Pjw/Digits.antt =====
-- Binary digits of the native bit operations at variables.
use Prim.Native.Nat.{
  min, bit_and, bit_xor, digits, bitwise, differ, bit_and-bitwise, bit_xor-bitwise,
}
use native.Mathlib.Nat.{pow-suc, pow-zero}
use cs.Prelude.{
  arith, ap, ◌∙◌, sym, refl, ◌≡◌, ◌<◌, ◌≤◌, ◌^◌, ◌%◌, ◌/◌, ◌*◌, ◌-◌, ◌+◌, ℕ, suc, zero,
}

-- An operation digit by digit: `z` gives the digits of the second number beyond the first one's.
module _ (z : ℕ → ℕ) (f : ℕ → ℕ → ℕ) (beyond : (b : ℕ) → z b ≡ z (b / 2) * 2 + f 0 (b % 2))
    (digit : (x y : ℕ) → x < 2 → y < 2 → f x y < 2) where
  -- One unit of fuel more than the first number, and any amount.
  one_more : (n a b : ℕ) → a ≤ n → digits z f (suc n) a b ≡ digits z f n a b
  one_more zero zero b enough = refl
  one_more zero (suc a) b enough = absurd (omega arith)
  one_more (suc n) zero b enough = refl
  one_more (suc n) (suc a) b enough = omega (arith, one_more n (suc a / 2) (b / 2) (omega arith))

  spare : (k n m a b : ℕ) → m ≡ k + n → a ≤ n → digits z f m a b ≡ digits z f n a b
  spare zero n m a b total enough = ap (λ r. digits z f r a b) (omega arith)
  spare (suc k) n zero a b total enough = absurd (omega arith)
  spare (suc k) n (suc m) a b total enough =
      one_more m a b (omega arith) ∙ spare k n m a b (omega arith) enough

  bitwise-half : (a b : ℕ) → bitwise z f a b / 2 ≡ bitwise z f (a / 2) (b / 2)
  bitwise-half zero b = omega (arith, beyond b, digit 0 (b % 2) (omega arith) (omega arith))
  bitwise-half (suc a) b =
      let h = suc a / 2 in
      let same = spare (a - h) h a h (b / 2) (omega arith) (omega arith) in
      let low = digit (suc a % 2) (b % 2) (omega arith) (omega arith) in omega (arith, same, low)

-- Without the lowest `n` digits.
abbrev pub halves : ℕ → ℕ → ℕ
halves zero a = a
halves (suc n) a = halves n (a / 2)

pub halves-bound : (n a m : ℕ) → halves n a < m → a < 2 ^ n * m
halves-bound zero a m h = omega (arith, pow-zero 2)
halves-bound (suc n) a m h = grind (arith, halves-bound n (a / 2) m h, pow-suc 2 n)

pub halves-lt : (n a m : ℕ) → a < 2 ^ n * m → halves n a < m
halves-lt zero a m h = omega (arith, pow-zero 2)
halves-lt (suc n) a m h =
    let doubled : 2 ^ suc n * m ≡ 2 * (2 ^ n * m) = ap (λ k. k * m) (pow-suc 2 n) ∙ grind arith in
    halves-lt n (a / 2) m (omega arith)

differ-digit : (x y : ℕ) → x < 2 → y < 2 → differ x y < 2
differ-digit zero y p q = q
differ-digit (suc zero) zero p q = p
differ-digit (suc zero) (suc y) p q = omega arith
differ-digit (suc (suc x)) y p q = absurd (omega arith)

and_half : (a b : ℕ) → bit_and a b / 2 ≡ bit_and (a / 2) (b / 2)
and_half a b =
    ap (λ n. n / 2) (bit_and-bitwise a b)
    ∙ bitwise-half (λ b. 0) min (λ c. omega arith) (λ x y p q. omega arith) a b
    ∙ sym (bit_and-bitwise (a / 2) (b / 2))

xor_half : (a b : ℕ) → bit_xor a b / 2 ≡ bit_xor (a / 2) (b / 2)
xor_half a b =
    ap (λ n. n / 2) (bit_xor-bitwise a b)
    ∙ bitwise-half (λ b. b) differ (λ c. omega arith) differ-digit a b
    ∙ sym (bit_xor-bitwise (a / 2) (b / 2))

pub halves-and : (n a b : ℕ) → halves n (bit_and a b) ≡ bit_and (halves n a) (halves n b)
halves-and zero a b = refl
halves-and (suc n) a b = ap (halves n) (and_half a b) ∙ halves-and n (a / 2) (b / 2)

pub halves-xor : (n a b : ℕ) → halves n (bit_xor a b) ≡ bit_xor (halves n a) (halves n b)
halves-xor zero a b = refl
halves-xor (suc n) a b = ap (halves n) (xor_half a b) ∙ halves-xor n (a / 2) (b / 2)
