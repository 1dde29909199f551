-- ===== src/Util/Hash/Table.antt =====
-- `hash_new`, `hash_insert` and `hash_lookup` of dragon/util.c on whole tables.
use cs.Prelude.{
  ℕ, ◌≡◌, ◌∙◌, ◌<◌, ◌≤◌, Bool, [], ◌∷◌, ◌++◌, length, get_or, set, length-set, length-replicate,
  get_or-set_self, get_or-set_ne, get_or-replicate, ◌==◌, ==_iff, if◌then◌else◌, Bool-cases,
  Option-cases, inl, inr, arith,
}
use cs.Util.Hash.{
  not_found, Bucket, HashTable, hash_new, bucket_index, bucket_of, lookup_entry, hash_lookup,
  write_last, hash_insert,
}
use cs.Util.Hash.Lookup.{
  KeyLaws, count, IsValid, write_last-none, lookup-write_last, count-write_last, lookup-append,
  count-append, count_congr,
}

module _ {K : Type 0} where
  -- A new table is valid and holds no key.
  pub hash_new-IsValid :
      (n : ℕ) (hash : K → ℕ) (comp : K → K → Bool) → 0 < n → IsValid (hash_new n hash comp)
  unfolding hash_new count
  hash_new-IsValid n hash comp h = record {
    some_bucket = h;
    width = length-replicate n [];
    once = λ q i. rw get_or-replicate (omega arith);
  }

  pub lookup-hash_new :
      (n : ℕ) (hash : K → ℕ) (comp : K → K → Bool) (k : K)
      → hash_lookup (hash_new n hash comp) k ≡ not_found
  unfolding hash_new hash_lookup lookup_entry
  lookup-hash_new n hash comp k = rw get_or-replicate

module _ {K : Type 0} (tab : HashTable K) (laws : KeyLaws tab.hash tab.comp) where
  -- The bucket of `k` replaced by `c`.
  abbrev put_bucket : K → Bucket K → HashTable K
  put_bucket k c = record tab { buckets = set tab.buckets (bucket_index tab k) c }

  bucket_index-lt : IsValid tab → (k : K) → bucket_index tab k < length tab.buckets
  bucket_index-lt ok k = rw ok.width (omega (arith, ok.some_bucket))

  get_bucket-put :
      (ok : IsValid tab) (k : K) (i : ℕ) (c : Bucket K)
      → get_or (put_bucket k c).buckets i []
        ≡ (if bucket_index tab k == i then c else get_or tab.buckets i [])
  get_bucket-put ok k i c = elim (Bool-cases (bucket_index tab k == i)) [
    | inl e ↦
        let e' : bucket_index tab k ≡ i = (==_iff _ _).0 e in
        rw e
          (rw (← e') (get_or-set_self tab.buckets (bucket_index tab k) c [] (bucket_index-lt ok k)))
    | inr n ↦ rw n (
        get_or-set_ne tab.buckets (bucket_index tab k) i c []
          (λ e. cc ((==_iff (bucket_index tab k) i).1 e)))
  ]

  put_bucket-IsValid :
      (ok : IsValid tab) (k : K) (c : Bucket K)
      → ((q : K) → count tab.comp q c ≤ 1)
      → IsValid (put_bucket k c)
  put_bucket-IsValid ok k c few = record {
    some_bucket = ok.some_bucket;
    width = length-set tab.buckets (bucket_index tab k) c ∙ ok.width;
    once = λ q i. ground (arith, get_bucket-put ok k i c, few q, ok.once q i);
  }

  -- A lookup after the bucket of `k` became `c`, where `c` answers for every key.
  lookup-put_bucket :
      (ok : IsValid tab) (k q : K) (v : ℕ) (c : Bucket K)
      → lookup_entry tab.comp q c
        ≡ (if tab.comp q k then v else lookup_entry tab.comp q (bucket_of tab k))
      → hash_lookup (put_bucket k c) q ≡ (if tab.comp q k then v else hash_lookup tab q)
  unfolding hash_lookup
  lookup-put_bucket ok k q v c h =
      rw (get_bucket-put ok k (bucket_index tab q) c) (ground (arith, h, laws.hash-comp q k))

  -- Insertion keeps a valid table valid, where the comparison is an equivalence and keys that
  -- compare equal have the same hash.
  pub hash_insert-IsValid : (ok : IsValid tab) (k : K) (v : ℕ) → IsValid (hash_insert tab k v).0
  unfolding hash_insert
  hash_insert-IsValid ok k v =
      let b = bucket_of tab k in
      elim (Option-cases (write_last tab.comp k v b)) [
        | inl n ↦
            rw (n, hash_insert)
              (put_bucket-IsValid ok k (b ++ (k, v) ∷ []) (λ q. ground (
                arith,
                count-append laws k q v b,
                write_last-none laws k v b n,
                count_congr laws q k b,
                ok.once q (bucket_index tab k),
              )))
        | inr ((old, r), s) ↦
            rw (s, hash_insert)
              (put_bucket-IsValid ok k r
                (λ q. rw (count-write_last laws k q v b s) (ok.once q (bucket_index tab k))))
      ]

  -- In a valid table, where the comparison is an equivalence and keys that compare equal have the
  -- same hash, a lookup after an insertion gives the new value at every key that compares equal to
  -- the inserted one, and what it gave before at every other key.
  pub lookup-hash_insert :
      (ok : IsValid tab) (k q : K) (v : ℕ)
      → hash_lookup (hash_insert tab k v).0 q ≡ (if tab.comp q k then v else hash_lookup tab q)
  unfolding hash_insert
  lookup-hash_insert ok k q v =
      let b = bucket_of tab k in
      elim (Option-cases (write_last tab.comp k v b)) [
        | inl n ↦
            rw (n, hash_insert)
              (lookup-put_bucket ok k q v (b ++ (k, v) ∷ [])
                (lookup-append laws k q v b (write_last-none laws k v b n)))
        | inr ((old, r), s) ↦
            rw (s, hash_insert)
              (lookup-put_bucket ok k q v r
                (lookup-write_last laws k q v b s (ok.once k (bucket_index tab k))))
      ]

  -- In a valid table, where the comparison is an equivalence and keys that compare equal have the
  -- same hash, an insertion keeps the table valid: the buckets' number, and at most one entry for a
  -- key in a bucket. A lookup after it gives the new value at every key that compares equal to the
  -- inserted one, and what it gave before at every other key.
  pub hash_insert_lem :
      (ok : IsValid tab) (k : K) (v : ℕ)
      → IsValid (hash_insert tab k v).0
        × ((q : K)
            → hash_lookup (hash_insert tab k v).0 q
              ≡ (if tab.comp q k then v else hash_lookup tab q))
  hash_insert_lem ok k v = (hash_insert-IsValid ok k v, λ q. lookup-hash_insert ok k q v)
