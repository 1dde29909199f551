-- ===== src/Util/Memory/Hash.antt =====
-- `hash_free` of dragon/util.c, over the destructors of keys and values.
pub mod Laws
use mathlib.Core.List.{map}
use cs.Prelude.{ℕ, ◌+◌, List, [], ◌∷◌}
use cs.Exec.{undefined, pure, halt, ◌>>=◌, ◌>>◌}
use cs.Util.List.{Ptr, null}
use cs.Util.Memory.{Action, reads, free_struct, Blocks, block, struct_blocks}
use cs.Util.Memory.Containers.{
  Nodes, end, node, OwnedList, null_list, empty, list, list_free, list_blocks,
}

-- `struct bucket_entry`
pub record EntryAt (K V : Type 0) : Type 0 where
  pub at : Ptr
  pub key : K
  pub val : V

-- `struct hash_table`: the struct, the array of the buckets, and the buckets.
pub record HashAt (K V : Type 0) : Type 0 where
  pub at : Ptr
  pub array : Ptr
  pub buckets : List (OwnedList (EntryAt K V))

-- `free` of an entry; the key and the value are not a part of it.
abbrev pub free_entry : {K V : Type 0} → EntryAt K V → Action
free_entry ent = free_struct ent.at []

abbrev pub entry_block : {K V : Type 0} → EntryAt K V → Blocks
entry_block ent a = struct_blocks ent.at [] a

module _ {K V : Type 0} (key_dtor : K → Action) (val_dtor : V → Action) where
  -- The body of the loop over a bucket.
  abbrev pub free_contents : EntryAt K V → Action → Action
  free_contents ent rest = reads ent.at >> (key_dtor ent.key >> (val_dtor ent.val >> rest))

  -- The loop over a bucket, and what comes behind it.
  unfoldable pub each_node : Nodes (EntryAt K V) → Action → Action
  unfolding reads
  each_node end rest = rest
  each_node (node p ent more) rest = reads p >> free_contents ent (each_node more rest)

  unfoldable pub each_entry : OwnedList (EntryAt K V) → Action → Action
  unfolding each_node
  each_entry null_list rest = halt undefined
  each_entry (empty p) rest = reads p >> rest
  each_entry (list p ent more) rest = reads p >> free_contents ent (each_node more rest)

  unfoldable pub free_bucket : OwnedList (EntryAt K V) → Action
  unfolding each_entry list_free
  free_bucket bucket = each_entry bucket (list_free free_entry bucket)

  unfoldable pub hash_free : HashAt K V → Action
  unfolding free_bucket free_struct
  hash_free tab = free_struct tab.at (free_struct tab.array (map free_bucket tab.buckets) ∷ [])

module _ {K V : Type 0} (key_blocks : K → Blocks) (val_blocks : V → Blocks) where
  abbrev pub content_blocks : EntryAt K V → Blocks
  content_blocks ent a = key_blocks ent.key a + val_blocks ent.val a

  unfoldable pub nodes_contents : Nodes (EntryAt K V) → Blocks
  nodes_contents end a = 0
  nodes_contents (node p ent more) a = content_blocks ent a + nodes_contents more a

  unfoldable pub bucket_contents : OwnedList (EntryAt K V) → Blocks
  unfolding nodes_contents
  bucket_contents (list p ent more) a = content_blocks ent a + nodes_contents more a
  bucket_contents _ a = 0

  -- A null bucket is no block that a memory can hold.
  unfoldable pub bucket_blocks : OwnedList (EntryAt K V) → Blocks
  unfolding bucket_contents
  bucket_blocks null_list a = block null a
  bucket_blocks bucket a = bucket_contents bucket a + list_blocks entry_block bucket a

  unfoldable pub hash_blocks : HashAt K V → Blocks
  unfolding bucket_blocks
  hash_blocks tab a =
      struct_blocks tab.at (struct_blocks tab.array (map bucket_blocks tab.buckets) ∷ []) a
