-- ===== src/Util/Memory.antt =====
-- Which blocks of memory are allocated, for the functions that give memory back: `D` of
-- dragon/util.h, `ptrvec_free` and `hash_free` of dragon/util.c, and the destructors.
--
-- A struct that was allocated by itself is a block at an address. The trees that are given back here
-- carry the address of each block; an address that stands twice is a block that two pointers own.
-- A read of a block that is not allocated is undefined, and so is giving it back.
pub mod Frees
pub mod Containers
pub mod Hash
use cs.Prelude.{ℕ, zero, suc, ◌+◌, ◌==◌, Bool, true, false, List, [], ◌∷◌, if◌then◌else◌}
use cs.Exec.{undefined, Exec, ok, pure, stop_if, ◌>>=◌, ◌>>◌, Result, stop}
use cs.Util.List.{Ptr, null}

abbrev pub Memory : Type 0
Memory = Ptr → Bool

abbrev pub Action : Type 0
Action = Exec Memory (Unit {0})

-- A read of a field of the struct at `p`.
unfoldable pub reads : Ptr → Action
reads p h = if p == null then stop undefined else if h p then ok (tt, h) else stop undefined

-- `D(p)`, that is `free(p)`, which does nothing at null.
unfoldable pub release : Ptr → Action
release p h =
    if p == null
    then ok (tt, h)
    else if h p
    then ok (tt, λ a. if a == p then false else h a)
    else stop undefined

-- `dummy_free`
unfoldable pub dummy_free : Ptr → Action
dummy_free p = pure tt

-- The end of a destructor: each pointer is read from the struct before what it points to is given
-- back, and the struct is given back last.
unfoldable pub release_after : Ptr → List Action → Action
unfolding reads release
release_after p [] = release p
release_after p (part ∷ parts) = reads p >> (part >> release_after p parts)

-- A destructor that looks at the struct first, as one that has a `switch` on the tag does.
unfoldable pub free_struct : Ptr → List Action → Action
unfolding release_after
free_struct p parts = reads p >> release_after p parts

-- How often an address is that of a block.
abbrev pub Blocks : Type 0
Blocks = Ptr → ℕ

abbrev pub no_blocks : Blocks
no_blocks a = 0

unfoldable pub block : Ptr → Blocks
block p a = if a == p then 1 else 0

-- What `free` of a pointer that may be null gives back.
unfoldable pub name_block : Ptr → Blocks
unfolding block
name_block p a = if p == null then 0 else block p a

unfoldable pub total : List Blocks → Blocks
total [] a = 0
total (b ∷ bs) a = b a + total bs a

unfoldable pub struct_blocks : Ptr → List Blocks → Blocks
unfolding block total
struct_blocks p bs a = block p a + total bs a

-- 1 at an allocated block.
unfoldable pub held : Memory → Blocks
held h a = if h a then 1 else 0
