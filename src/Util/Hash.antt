-- ===== src/Util/Hash.antt =====
-- `struct hash_table` of dragon/util.c: chained buckets, a hash and a comparison that the creator
-- supplies. A value is a `void *`, that is a 64-bit word; the word of -1 means "not found".
pub mod Lookup
pub mod Table
pub mod Foreach
pub mod Pjw
use cs.Prelude.{
  ℕ, zero, suc, ◌+◌, ◌-◌, ◌%◌, ◌^◌, Bool, Option, none, some, List, [], ◌∷◌, ◌++◌, get_or, set,
  replicate, if◌then◌else◌,
}

-- `(void *)-1`
abbrev pub not_found : ℕ
not_found = 2 ^ 64 - 1

-- One bucket: the entries in the order in which they were added.
abbrev pub Bucket : Type 0 → Type 0
Bucket K = List (K × ℕ)

-- The destructors are not kept: `hash_insert` returns the values that it hands to `val_dtor`.
pub record HashTable (K : Type 0) : Type 0 where
  pub num_buckets : ℕ
  pub hash : K → ℕ
  pub comp : K → K → Bool
  pub buckets : List (Bucket K)

module _ {K : Type 0} where
  unfoldable pub hash_new : ℕ → (K → ℕ) → (K → K → Bool) → HashTable K
  hash_new num_buckets hash comp = record {
    num_buckets = num_buckets;
    hash = hash;
    comp = comp;
    buckets = replicate num_buckets [];
  }

  -- `HASH`; a table has at least one bucket, for `% 0` is undefined.
  abbrev pub bucket_index : HashTable K → K → ℕ
  bucket_index tab key = tab.hash key % tab.num_buckets

  abbrev pub bucket_of : HashTable K → K → Bucket K
  bucket_of tab key = get_or tab.buckets (bucket_index tab key) []

  -- The loop of `hash_lookup`: the value of the first entry that compares equal.
  unfoldable pub lookup_entry : (K → K → Bool) → K → Bucket K → ℕ
  lookup_entry comp key [] = not_found
  lookup_entry comp key (ent ∷ bucket) =
      if comp key ent.0 then ent.1 else lookup_entry comp key bucket

  unfoldable pub hash_lookup : HashTable K → K → ℕ
  hash_lookup tab key = lookup_entry tab.comp key (bucket_of tab key)

  -- The loop of `hash_insert` does not stop at a match, so `elt` points into the last entry that
  -- compares equal. The result is what `*elt` was and the bucket after the write through `elt`;
  -- `none` is the null `elt`.
  unfoldable pub write_last : (K → K → Bool) → K → ℕ → Bucket K → Option (ℕ × Bucket K)
  write_last comp key val [] = none
  write_last comp key val (ent ∷ bucket) = elim (write_last comp key val bucket) [
    | some (old, rest) ↦ some (old, ent ∷ rest)
    | none ↦ if comp key ent.0 then some (ent.1, (ent.0, val) ∷ bucket) else none
  ]

  -- The new table, and the values that were handed to `val_dtor`.
  unfoldable pub hash_insert : HashTable K → K → ℕ → HashTable K × List ℕ
  hash_insert tab key val = elim (write_last tab.comp key val (bucket_of tab key)) [
    | some (old, bucket) ↦
        (record tab { buckets = set tab.buckets (bucket_index tab key) bucket }, old ∷ [])
    | none ↦ (
      record tab {
        buckets = set tab.buckets (bucket_index tab key) (bucket_of tab key ++ (key, val) ∷ []);
      },
      [],
    )
  ]

  -- `HFOREACH` starts at bucket 0 and steps with `__bucket = buckets[__hi++]`; `rounds` counts
  -- the rounds left. The result lists the entries in the order in which the body sees them.
  unfoldable pub hforeach_loop : ℕ → ℕ → Bucket K → List (Bucket K) → Bucket K
  hforeach_loop zero hi bucket buckets = []
  hforeach_loop (suc rounds) hi bucket buckets =
      bucket ++ hforeach_loop rounds (suc hi) (get_or buckets hi []) buckets

  unfoldable pub hforeach : HashTable K → Bucket K
  unfolding hforeach_loop
  hforeach tab = hforeach_loop tab.num_buckets 0 (get_or tab.buckets 0 []) tab.buckets
