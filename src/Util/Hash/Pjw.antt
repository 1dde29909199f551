-- ===== src/Util/Hash/Pjw.antt =====
-- `hashpjw` of dragon/util.c, on 64-bit words.
pub mod Digits
pub mod Bound
use Prim.Native.Nat.{bit_and, bit_xor}
use cs.Prelude.{
  ℕ, zero, suc, Bool, ◌+◌, ◌-◌, ◌*◌, ◌/◌, ◌%◌, ◌^◌, List, [], ◌∷◌, ltb, ◌==◌, if◌then◌else◌,
}

-- A `char` is signed: the sum with a `uint64_t` extends its sign.
unfoldable pub sign_extend : ℕ → ℕ
sign_extend c = if ltb c 128 then c else 2 ^ 64 - 256 + c

-- One round of the loop.
unfoldable pub hashpjw_step : ℕ → ℕ → ℕ
unfolding sign_extend
hashpjw_step h c =
    let h₁ = (h * 16 + sign_extend c) % 2 ^ 64 in
    let g = bit_and h₁ 0xf000000000000000 in
    if g == 0 then h₁ else bit_xor (bit_xor h₁ (g / 2 ^ 48)) g

unfoldable pub hashpjw_loop : ℕ → List ℕ → ℕ
unfolding hashpjw_step
hashpjw_loop h [] = h
hashpjw_loop h (c ∷ string) = hashpjw_loop (hashpjw_step h c) string

-- `string` lists the `size` bytes.
unfoldable pub hashpjw : List ℕ → ℕ
unfolding hashpjw_loop
hashpjw string = hashpjw_loop 0 string

-- The bytes of a number in memory, the lowest first.
abbrev pub bytes : ℕ → ℕ → List ℕ
bytes zero p = []
bytes (suc n) p = p % 256 ∷ bytes n (p / 256)

-- A pointer has 8 bytes.
unfoldable pub hash_pointer : ℕ → ℕ
unfolding hashpjw
hash_pointer p = hashpjw (bytes 8 p)

unfoldable pub compare_pointer : ℕ → ℕ → Bool
compare_pointer a b = a == b
