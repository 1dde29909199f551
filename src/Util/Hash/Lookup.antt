-- ===== src/Util/Hash/Lookup.antt =====
-- Lookups in one bucket of a hash table of dragon/util.c, and when a table is valid.
use cs.Prelude.{
  ℕ, ◌+◌, ◌≡◌, refl, ◌<◌, ◌≤◌, Bool, true, none, some, [], ◌∷◌, ◌++◌, length, get_or, if◌then◌else◌,
  Option-cases, inl, inr, arith,
}
use cs.Util.Hash.{Bucket, HashTable, lookup_entry, write_last}

-- What a table asks of the functions that its creator supplies.
pub record KeyLaws {K : Type 0} (hash : K → ℕ) (comp : K → K → Bool) : Type 0 where
  pub comp_refl : (a : K) → comp a a ≡ true
  pub comp_symm : (a b : K) → comp a b ≡ comp b a
  pub comp_trans : (a b c : K) → comp a b ≡ true → comp b c ≡ true → comp a c ≡ true
  pub hash-comp : (a b : K) → comp a b ≡ true → hash a ≡ hash b

-- How many entries of a bucket compare equal to a key.
unfoldable pub count : {K : Type 0} → (K → K → Bool) → K → Bucket K → ℕ
count comp q [] = 0
count comp q (ent ∷ bucket) = (if comp q ent.0 then 1 else 0) + count comp q bucket

-- The recorded number of buckets is the real one and not 0, and no bucket holds a key twice.
pub record IsValid {K : Type 0} (tab : HashTable K) : Type 0 where
  pub some_bucket : 0 < tab.num_buckets
  pub width : length tab.buckets ≡ tab.num_buckets
  pub once : (q : K) (i : ℕ) → count tab.comp q (get_or tab.buckets i []) ≤ 1

module _ {K : Type 0} {hash : K → ℕ} {comp : K → K → Bool} (laws : KeyLaws hash comp) where
  comp_congr : (a b c : K) → comp a b ≡ true → comp a c ≡ comp b c
  comp_congr a b c e =
      ground (arith, laws.comp_symm a b, laws.comp_trans a b c, laws.comp_trans b a c)

  pub write_last-none :
      (k : K) (v : ℕ) (b : Bucket K) → write_last comp k v b ≡ none → count comp k b ≡ 0
  unfolding write_last count
  write_last-none k v [] h = refl
  write_last-none k v (e ∷ b) h = elim (Option-cases (write_last comp k v b)) [
    | inl n ↦ ground (arith, write_last-none k v b)
    | inr (r, s) ↦ ground arith
  ]

  write_last-some :
      (k : K) (v : ℕ) (b : Bucket K) {old : ℕ} {r : Bucket K}
      → write_last comp k v b ≡ some (old, r)
      → 0 < count comp k b
  unfolding write_last count
  write_last-some k v [] h = cc
  write_last-some k v (e ∷ b) h = elim (Option-cases (write_last comp k v b)) [
    | inl n ↦ ground arith
    | inr ((o, t), s) ↦ ground (arith, write_last-some k v b s)
  ]

  pub count-write_last :
      (k q : K) (v : ℕ) (b : Bucket K) {old : ℕ} {r : Bucket K}
      → write_last comp k v b ≡ some (old, r)
      → count comp q r ≡ count comp q b
  unfolding write_last count
  count-write_last k q v [] h = cc
  count-write_last k q v (e ∷ b) h = elim (Option-cases (write_last comp k v b)) [
    | inl n ↦ ground arith
    | inr ((o, t), s) ↦ ground (arith, count-write_last k q v b s)
  ]

  pub lookup-write_last :
      (k q : K) (v : ℕ) (b : Bucket K) {old : ℕ} {r : Bucket K}
      → write_last comp k v b ≡ some (old, r)
      → count comp k b ≤ 1
      → lookup_entry comp q r ≡ (if comp q k then v else lookup_entry comp q b)
  unfolding write_last count lookup_entry
  lookup-write_last k q v [] h u = cc
  lookup-write_last k q v (e ∷ b) h u = elim (Option-cases (write_last comp k v b)) [
    | inl n ↦ ground (
      arith,
      comp_congr q k e.0,
      comp_congr k q e.0,
      laws.comp_symm q k,
      laws.comp_trans q e.0 k,
      laws.comp_symm k e.0,
    )
    | inr ((o, t), s) ↦
        ground (arith, lookup-write_last k q v b s, write_last-some k v b s, comp_congr q k e.0)
  ]

  pub lookup-append :
      (k q : K) (v : ℕ) (b : Bucket K)
      → count comp k b ≡ 0
      → lookup_entry comp q (b ++ (k, v) ∷ []) ≡ (if comp q k then v else lookup_entry comp q b)
  unfolding lookup_entry count
  lookup-append k q v [] h = refl
  lookup-append k q v (e ∷ b) h = ground (arith, lookup-append k q v b, comp_congr q k e.0)

  pub count-append :
      (k q : K) (v : ℕ) (b : Bucket K)
      → count comp q (b ++ (k, v) ∷ []) ≡ count comp q b + (if comp q k then 1 else 0)
  unfolding count
  count-append k q v [] = ground arith
  count-append k q v (e ∷ b) = ground (arith, count-append k q v b)

  pub count_congr : (a b : K) (l : Bucket K) → comp a b ≡ true → count comp a l ≡ count comp b l
  unfolding count
  count_congr a b [] e = refl
  count_congr a b (x ∷ l) e = rw (comp_congr a b x.0 e, count_congr a b l e)
