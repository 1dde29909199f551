-- ===== src/Util/Memory/Containers/Laws.antt =====
-- What the destructors of the containers give back.
use mathlib.Core.List.{map}
use cs.Prelude.{List, [], ◌∷◌}
use cs.Util.Memory.{Action, Blocks}
use cs.Util.Memory.Frees.{Frees, Frees-none, Frees-then, Parts, no_part, part, struct-Frees}
use cs.Util.Memory.Containers.{
  Nodes, end, node, OwnedList, null_list, empty, list, OwnedVec, null_vec, vec, free_nodes,
  list_free, ptrvec_free, node_blocks, list_blocks, vec_blocks,
}

module _ {A : Type 0} {dtor : A → Action} {b : A → Blocks}
    (h : (e : A) → Frees (b e) (dtor e)) where
  free_nodes-Frees : (es : Nodes A) → Frees (node_blocks b es) (free_nodes dtor es)
  unfolding free_nodes node_blocks
  free_nodes-Frees end = Frees-none
  free_nodes-Frees (node p e rest) =
      Frees-then (struct-Frees p (part (h e) no_part)) (free_nodes-Frees rest)

  pub list_free-Frees : (es : OwnedList A) → Frees (list_blocks b es) (list_free dtor es)
  unfolding list_free list_blocks
  list_free-Frees null_list = Frees-none
  list_free-Frees (empty p) = struct-Frees p no_part
  list_free-Frees (list p e rest) =
      struct-Frees p (part (free_nodes-Frees rest) (part (h e) no_part))

  each_element : (es : List A) → Parts (map b es) (map dtor es)
  each_element [] = no_part
  each_element (e ∷ es) = part (h e) (each_element es)

  pub ptrvec_free-Frees : (v : OwnedVec A) → Frees (vec_blocks b v) (ptrvec_free dtor v)
  unfolding ptrvec_free vec_blocks
  ptrvec_free-Frees null_vec = Frees-none
  ptrvec_free-Frees (vec p cells es) =
      struct-Frees p (part (struct-Frees cells (each_element es)) no_part)
