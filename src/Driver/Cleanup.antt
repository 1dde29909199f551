-- ===== src/Driver/Cleanup.antt =====
-- The end of `compile_input` of dragon/driver.c: the tree and the symbol table are given back.
use cs.Prelude.{◌+◌, ◌≡◌, ◌≢◌, ◌≤◌, ◌↔◌, false}
use cs.Exec.{ok, ◌>>◌}
use cs.Util.List.{Ptr, null}
use cs.Util.Memory.{Memory, Action, Blocks, release, held}
use cs.Util.Memory.Frees.{
  Frees, Frees-then, Frees-iff, Taken, release-Frees, twice-stops, release_self,
}
use cs.Symbol.Owned.{StabAt, stab_free, stab_blocks}
use cs.Symbol.Owned.Laws.{stab_free-Frees}
use cs.Ast.Owned.{ProgramAt}
use cs.Ast.Owned.Free.{free_program}
use cs.Ast.Owned.Blocks.{program_blocks}
use cs.Ast.Owned.Laws.{free_program-Frees}

-- After the analysis has returned.
unfoldable pub cleanup : ProgramAt → StabAt → Action
unfolding free_program stab_free
cleanup prog st = free_program prog >> stab_free st

abbrev pub both_blocks : ProgramAt → StabAt → Blocks
both_blocks prog st a = program_blocks prog a + stab_blocks st a

cleanup-Frees : (prog : ProgramAt) (st : StabAt) → Frees (both_blocks prog st) (cleanup prog st)
unfolding cleanup
cleanup-Frees prog st = Frees-then (free_program-Frees prog) (stab_free-Frees st)

-- From a memory with no block at null, giving back the tree and then the table returns exactly when
-- every struct, node and string of the two is allocated and stands once in the two together; then
-- just these blocks are given back.
pub cleanup_iff :
    (prog : ProgramAt) (st : StabAt) (h : Memory)
    → h null ≡ false
    → (((k : Memory) × (cleanup prog st h ≡ ok (tt, k)))
        ↔ ((a : Ptr) → both_blocks prog st a ≤ held h a))
      × ((k : Memory) → cleanup prog st h ≡ ok (tt, k) → Taken (both_blocks prog st) h k)
cleanup_iff prog st h nothing = Frees-iff (cleanup-Frees prog st) h nothing

-- Where a string that is a block of the tree was given back before, `free_program` does not return.
released_name-undefined :
    (prog : ProgramAt) (p : Ptr) (h k : Memory)
    → p ≢ null
    → 1 ≤ program_blocks prog p
    → (release p >> free_program prog) h ≢ ok (tt, k)
released_name-undefined prog p h k nonnull one =
    twice-stops p h k (release-Frees p) (free_program-Frees prog) (release_self p nonnull) one

-- A block that is both the tree's and the table's: giving back the tree and then the table
-- does not return, whatever the memory.
pub shared_name-undefined :
    (prog : ProgramAt) (st : StabAt) (p : Ptr) (h k : Memory)
    → 1 ≤ program_blocks prog p
    → 1 ≤ stab_blocks st p
    → cleanup prog st h ≢ ok (tt, k)
unfolding cleanup
shared_name-undefined prog st p h k one one' =
    twice-stops p h k (free_program-Frees prog) (stab_free-Frees st) one one'
