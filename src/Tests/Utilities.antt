-- ===== src/Tests/Utilities.antt =====
-- The theorems on vectors and hash tables at small ones.
use cs.Prelude.{
  ℕ, ◌<◌, ◌^◌, suc, ◌≡◌, refl, [], ◌∷◌, ◌++◌, some, ◌==◌, ==_iff, length, get_or, take,
  if◌then◌else◌, arith, none,
}
use mathlib.Core.List.{flatten}
use cs.Util.Vec.{Ptrvec, ptrvec_wcap, ptrvec_push, ptrvec_pop, contents, ptrvec_new}
use cs.Util.Vec.Push as Push
use cs.Util.Hash.{HashTable, hash_new, hash_lookup, hash_insert, hforeach}
use cs.Util.Hash.Lookup.{KeyLaws, IsValid}
use cs.Util.Hash.Table.{hash_new-IsValid, hash_insert_lem}
use cs.Util.Hash.Pjw.{hashpjw}
use cs.Util.Hash.Pjw.Bound.{hashpjw-lt}
use cs.Util.Hash.Foreach.{hforeach-visits}

abbrev empty : Ptrvec ℕ
empty = ptrvec_wcap 0 2

empty-IsValid : Push.IsValid empty
empty-IsValid = Push.ptrvec_wcap-IsValid 0 2 (omega arith)

ptrvec_push-contents_example :
    (w : Ptrvec ℕ) × (ptrvec_push 0 empty 7 ≡ some (empty.len, w))
    × Push.IsValid w
    × (contents w ≡ contents empty ++ 7 ∷ [])
    × (w.len ≡ suc empty.len)
ptrvec_push-contents_example = Push.ptrvec_push-contents 0 empty 7 empty-IsValid

abbrev pushed : ℕ → Ptrvec ℕ
pushed n = record { len = 1; capacity = 2; cells = n ∷ 0 ∷ [] }

pushed_eq : (n : ℕ) → ptrvec_push 0 empty n ≡ some (0, pushed n)
unfolding ptrvec_push ptrvec_wcap
pushed_eq n = refl

pop-push_ignores_example : (ptrvec_pop (pushed 7)).0 ≡ (ptrvec_pop (pushed 8)).0
pop-push_ignores_example =
    Push.pop-push_ignores 0 empty 7 8 0 0 (pushed 7) (pushed 8) empty-IsValid (pushed_eq 7)
      (pushed_eq 8)

-- A table of numbers in three buckets, after 4 was inserted.
ptrvec_new-contents_example :
    ((w : Ptrvec ℕ) × (ptrvec_new 0 (7 ∷ 8 ∷ 9 ∷ []) ≡ some w)
      × Push.IsValid w
      × (contents w ≡ 7 ∷ 8 ∷ 9 ∷ []))
    × ((w : Ptrvec ℕ) × (ptrvec_new 0 [] ≡ some w) × (ptrvec_push 0 w 7 ≡ none))
ptrvec_new-contents_example = Push.ptrvec_new-contents 0 7 (8 ∷ 9 ∷ [])

abbrev numbers : HashTable ℕ
numbers = (hash_insert (hash_new 3 (λ n. n) ◌==◌) 4 40).0

abbrev empty_numbers : HashTable ℕ
empty_numbers = hash_new 3 (λ n. n) ◌==◌

number_laws : KeyLaws (λ (n : ℕ). n) ◌==◌
number_laws = record {
  comp_refl = λ a. ground arith;
  comp_symm = λ a b. ground arith;
  comp_trans = λ a b c h k. ground arith;
  hash-comp = λ a b h. (==_iff a b).0 h;
}

empty_laws : KeyLaws empty_numbers.hash empty_numbers.comp
unfolding hash_new
empty_laws = number_laws

empty_numbers-IsValid : IsValid empty_numbers
empty_numbers-IsValid = hash_new-IsValid 3 (λ n. n) ◌==◌ (omega arith)

hash_insert_lem_example :
    IsValid numbers
    × ((q : ℕ) → hash_lookup numbers q ≡ (if q == 4 then 40 else hash_lookup empty_numbers q))
unfolding hash_new
hash_insert_lem_example = hash_insert_lem empty_numbers empty_laws empty_numbers-IsValid 4 40

three : numbers.num_buckets ≡ 3
unfolding hash_insert cs.Util.Hash.write_last hash_new
three = refl

three_wide : length numbers.buckets ≡ 3
unfolding hash_insert cs.Util.Hash.write_last hash_new
three_wide = refl

hforeach-visits_example :
    hforeach numbers ≡ get_or numbers.buckets 0 [] ++ flatten (take 2 numbers.buckets)
hforeach-visits_example = hforeach-visits numbers 2 three three_wide

hashpjw-lt_example : hashpjw (b'a' ∷ b'b' ∷ 200 ∷ []) < 2 ^ 60
hashpjw-lt_example = hashpjw-lt (b'a' ∷ b'b' ∷ 200 ∷ [])
