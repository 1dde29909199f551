-- ===== src/Util/Memory/Containers.antt =====
-- The destructors of the containers of dragon/util.c, over the destructor of the elements.
--
-- The elements and what the destructor does with them are the caller's. The test for a null element
-- in `node_free` is left to the destructor: no destructor does anything at null. What the pointers
-- between nodes are is in Util.List.
pub mod Laws
use mathlib.Core.List.{map}
use cs.Prelude.{ℕ, ◌+◌, List, [], ◌∷◌}
use cs.Exec.{pure, ◌>>=◌, ◌>>◌}
use cs.Util.List.{Ptr}
use cs.Util.Memory.{Action, free_struct, Blocks, struct_blocks}

-- The nodes after the first one, which is a part of the list.
pub data Nodes (A : Type 0) : Type 0 where
  end : Nodes A
  node : Ptr → A → Nodes A → Nodes A

-- A `struct list *`.
pub data OwnedList (A : Type 0) : Type 0 where
  null_list : OwnedList A
  empty : Ptr → OwnedList A
  list : Ptr → A → Nodes A → OwnedList A

-- A `struct ptrvec *`: the struct, the array, and the elements below `length`. The array is not null,
-- since `ptrvec_wcap` aborts then.
pub data OwnedVec (A : Type 0) : Type 0 where
  null_vec : OwnedVec A
  vec : Ptr → Ptr → List A → OwnedVec A

module _ {A : Type 0} (dtor : A → Action) where
  unfoldable pub free_nodes : Nodes A → Action
  unfolding free_struct
  free_nodes end = pure tt
  free_nodes (node p e rest) = free_struct p (dtor e ∷ []) >> free_nodes rest

  unfoldable pub list_free : OwnedList A → Action
  unfolding free_nodes
  list_free null_list = pure tt
  list_free (empty p) = free_struct p []
  list_free (list p e rest) = free_struct p (free_nodes rest ∷ dtor e ∷ [])

  -- The loop reads each element from the array, which is given back behind it.
  unfoldable pub ptrvec_free : OwnedVec A → Action
  unfolding free_struct
  ptrvec_free null_vec = pure tt
  ptrvec_free (vec p cells es) = free_struct p (free_struct cells (map dtor es) ∷ [])

-- The blocks of a container, over those of an element.
module _ {A : Type 0} (b : A → Blocks) where
  unfoldable pub node_blocks : Nodes A → Blocks
  node_blocks end a = 0
  node_blocks (node p e rest) a = struct_blocks p (b e ∷ []) a + node_blocks rest a

  unfoldable pub list_blocks : OwnedList A → Blocks
  unfolding node_blocks
  list_blocks null_list a = 0
  list_blocks (empty p) a = struct_blocks p [] a
  list_blocks (list p e rest) a = struct_blocks p (node_blocks rest ∷ b e ∷ []) a

  unfoldable pub vec_blocks : OwnedVec A → Blocks
  vec_blocks null_vec a = 0
  vec_blocks (vec p cells es) a = struct_blocks p (struct_blocks cells (map b es) ∷ []) a
