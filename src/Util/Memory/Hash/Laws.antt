-- ===== src/Util/Memory/Hash/Laws.antt =====
-- What `hash_free` gives back.
use mathlib.Core.List.{map}
use cs.Prelude.{ℕ, ◌+◌, ◌≤◌, List, [], ◌∷◌, arith}
use cs.Util.List.{Ptr}
use cs.Util.Memory.{Action, Blocks, block, total, struct_blocks}
use cs.Util.Memory.Frees.{
  Frees, Frees-then, Frees-same, Parts, no_part, part, struct-Frees, reads-Frees, self_block,
  halt-Frees,
}
use cs.Util.Memory.Containers.{
  Nodes, end, node, OwnedList, null_list, empty, list, list_blocks, node_blocks,
}
use cs.Util.Memory.Containers.Laws.{list_free-Frees}
use cs.Util.Memory.Hash.{
  EntryAt, HashAt, free_entry, entry_block, free_contents, each_node, each_entry, free_bucket,
  hash_free, content_blocks, nodes_contents, bucket_contents, bucket_blocks, hash_blocks,
}

free_entry-Frees : {K V : Type 0} (ent : EntryAt K V) → Frees (entry_block ent) (free_entry ent)
free_entry-Frees ent = struct-Frees ent.at no_part

-- The nodes and their entries are among the blocks.
abbrev Among : {K V : Type 0} → Blocks → Nodes (EntryAt K V) → Type 0
Among c end = Unit
Among c (node p ent more) = (1 ≤ c p) × (1 ≤ c ent.at) × Among c more

Among-mono :
    {K V : Type 0} {b c : Blocks} (es : Nodes (EntryAt K V))
    → ((a : Ptr) → b a ≤ c a)
    → Among b es
    → Among c es
Among-mono end h k = tt
Among-mono (node p ent more) h (k, l, m) =
    (omega (arith, h p, k), omega (arith, h ent.at, l), Among-mono more h m)

first_block : (p q : Ptr) (n : ℕ) → 1 ≤ n → 1 ≤ block p q + n
unfolding block
first_block p q n h = omega arith

node_blocks-Among :
    {K V : Type 0} (es : Nodes (EntryAt K V)) → Among (node_blocks entry_block es) es
unfolding node_blocks struct_blocks total
node_blocks-Among end = tt
node_blocks-Among (node p ent more) = (
  omega (arith, self_block p 0),
  omega (arith, self_block ent.at 0),
  Among-mono more (λ a. omega arith) (node_blocks-Among more),
)

module _ {K V : Type 0} {key_dtor : K → Action} {val_dtor : V → Action} {key_blocks : K → Blocks}
    {val_blocks : V → Blocks} (key : (k : K) → Frees (key_blocks k) (key_dtor k))
    (val : (v : V) → Frees (val_blocks v) (val_dtor v)) where
  contents-Frees :
      (ent : EntryAt K V) {c : Blocks} {rest : Action}
      → 1 ≤ c ent.at
      → Frees c rest
      → Frees
          (λ a. content_blocks key_blocks val_blocks ent a + c a)
          (free_contents key_dtor val_dtor ent rest)
  contents-Frees ent one f =
      reads-Frees ent.at _ _ (omega arith)
        (Frees-same (λ a. omega arith) (Frees-then (key ent.key) (Frees-then (val ent.val) f)))

  each_node-Frees :
      (es : Nodes (EntryAt K V)) (c : Blocks) (rest : Action)
      → Among c es
      → Frees c rest
      → Frees
          (λ a. nodes_contents key_blocks val_blocks es a + c a)
          (each_node key_dtor val_dtor es rest)
  unfolding each_node nodes_contents
  each_node-Frees end c rest among f = Frees-same (λ a. omega arith) f
  each_node-Frees (node p ent more) c rest (one, one', among) f = reads-Frees p _ _ (omega arith) (
      Frees-same (λ a. omega arith)
        (contents-Frees ent (omega arith) (each_node-Frees more c rest among f)))

  free_bucket-Frees :
      (bucket : OwnedList (EntryAt K V))
      → Frees (bucket_blocks key_blocks val_blocks bucket) (free_bucket key_dtor val_dtor bucket)
  unfolding free_bucket each_entry bucket_blocks bucket_contents list_blocks struct_blocks total
  free_bucket-Frees null_list = halt-Frees
  free_bucket-Frees (empty p) =
      Frees-same (λ a. omega arith)
        (reads-Frees p _ _ (self_block p 0)
          (list_free-Frees (free_entry-Frees {K = K} {V = V}) (empty p)))
  free_bucket-Frees (list p ent more) =
      let own = list_blocks entry_block (list p ent more) in
      let freed = list_free-Frees free_entry-Frees (list p ent more) in
      reads-Frees p _ _ (omega (arith, self_block p 0)) (
        Frees-same (λ a. omega arith)
          (contents-Frees ent (omega (arith, self_block ent.at 0)) (
            each_node-Frees more own _ (Among-mono more (λ a. omega arith) (node_blocks-Among more))
              freed)))

  each_bucket :
      (bs : List (OwnedList (EntryAt K V)))
      → Parts
          (map (bucket_blocks key_blocks val_blocks) bs)
          (map (free_bucket key_dtor val_dtor) bs)
  each_bucket [] = no_part
  each_bucket (b ∷ bs) = part (free_bucket-Frees b) (each_bucket bs)

  pub hash_free-Frees :
      (tab : HashAt K V)
      → Frees (hash_blocks key_blocks val_blocks tab) (hash_free key_dtor val_dtor tab)
  unfolding hash_free hash_blocks
  hash_free-Frees tab =
      struct-Frees tab.at (part (struct-Frees tab.array (each_bucket tab.buckets)) no_part)
