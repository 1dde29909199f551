-- ===== src/Tests/Owned.antt =====
-- A small program and its symbol table in memory, and giving them back.
use cs.Prelude.{◌≡◌, ◌≢◌, ◌≤◌, ◌+◌, ◌==◌, ◌↔◌, refl, true, false, [], ◌∷◌, arith, if◌then◌else◌}
use cs.Exec.{ok}
use cs.Util.List.{Ptr, null}
use cs.Util.Memory.{Memory, held, release}
use cs.Util.Memory.Frees.{Taken}
use cs.Util.Memory.Containers.{OwnedList, empty, list, end, vec}
use cs.Util.Memory.Hash.{HashAt}
use cs.Ast.Owned.{
  ProgramAt, program, type_decl, pointer, integer, empty_decls_list, empty_subdecl_list, null_stmt,
}
use cs.Ast.Owned.Blocks.{program_blocks}
use cs.Symbol.Owned.{StabAt, ScopeAt, StabTypeAt, ScopeTable, OwnedType, stab_free, stab_blocks}
use cs.Driver.Cleanup.{cleanup, both_blocks, cleanup_iff, shared_name-undefined}

-- `program p; type t = ^integer; begin end.`, with the name `t` at 32.
abbrev pointers : ProgramAt
pointers =
    program 10 11 (empty 12) (list 30 (type_decl 31 32 (pointer 33 (integer 34))) end)
      (empty_decls_list 14) (empty_subdecl_list 15) null_stmt

abbrev no_names : Ptr → ScopeTable
no_names p = record { at = p; array = p + 1; buckets = empty (p + 2) ∷ [] }

-- A table with one scope and one pointer type of this name.
abbrev one_type : Ptr → StabAt
one_type name = record {
  at = 40;
  chain = empty 41;
  scopes =
      vec 42 43
        (record { at = 44; vars = no_names 50; funcs = no_names 60; types = no_names 70 } ∷ []);
  vars = vec 45 46 [];
  types = vec 47 48 (record { at = 49; name = name; defn = null; ty = OwnedType.other } ∷ []);
}

abbrev everywhere : Memory
everywhere a = if a == null then false else true

cleanup_iff_example :
    (((k : Memory) × (cleanup pointers (one_type 80) everywhere ≡ ok (tt, k)))
      ↔ ((a : Ptr) → both_blocks pointers (one_type 80) a ≤ held everywhere a))
    × ((k : Memory)
        → cleanup pointers (one_type 80) everywhere ≡ ok (tt, k)
        → Taken (both_blocks pointers (one_type 80)) everywhere k)
cleanup_iff_example = cleanup_iff pointers (one_type 80) everywhere refl

-- As `stab_add_type` makes it: the table's type has the name of the tree.
shared_name-undefined_example : cleanup pointers (one_type 32) everywhere ≢ ok (tt, everywhere)
unfolding program_blocks stab_blocks cs.Util.Memory.struct_blocks cs.Util.Memory.name_block
    cs.Util.Memory.Containers.list_blocks cs.Ast.Owned.Blocks.decls_list_blocks
    cs.Ast.Owned.Blocks.type_decl_blocks cs.Util.Memory.Containers.vec_blocks
    cs.Symbol.Owned.scope_blocks cs.Util.Memory.Hash.hash_blocks cs.Symbol.Owned.stab_type_blocks
shared_name-undefined_example =
    shared_name-undefined pointers (one_type 32) 32 everywhere everywhere (omega arith)
      (omega arith)
