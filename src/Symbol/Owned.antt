-- ===== src/Symbol/Owned.antt =====
-- The symbol table of dragon/symbol.h as it lies in memory, and the destructors of dragon/symbol.c.
-- The keys of a scope's tables are not owned by it, and their values are indices.
pub mod Laws
use cs.Prelude.{ℕ, ◌+◌, [], ◌∷◌}
use cs.Exec.{pure}
use cs.Util.List.{Ptr}
use cs.Util.Memory.{
  Action, dummy_free, release, free_struct, Blocks, no_blocks, name_block, struct_blocks,
}
use cs.Util.Memory.Containers.{OwnedList, OwnedVec, list_free, ptrvec_free, list_blocks, vec_blocks}
use cs.Util.Memory.Hash.{HashAt, hash_free, hash_blocks}

abbrev pub ScopeTable : Type 0
ScopeTable = HashAt Ptr ℕ

-- `struct stab_scope`
pub record ScopeAt : Type 0 where
  pub at : Ptr
  pub vars : ScopeTable
  pub funcs : ScopeTable
  pub types : ScopeTable

-- `struct stab_var`
pub record VarAt : Type 0 where
  pub at : Ptr
  pub name : Ptr
  pub defn : Ptr

-- `struct stab_record_field`
pub record StabFieldAt : Type 0 where
  pub at : Ptr
  pub name : Ptr

-- What a `struct stab_resolved_type` owns.
pub data OwnedType : Type 0 where
  fields : OwnedList StabFieldAt → OwnedType
  args : OwnedList ℕ → OwnedType
  other : OwnedType

-- `struct stab_type`
pub record StabTypeAt : Type 0 where
  pub at : Ptr
  pub name : Ptr
  pub defn : Ptr
  pub ty : OwnedType

-- `struct stab`
pub record StabAt : Type 0 where
  pub at : Ptr
  pub chain : OwnedList Ptr
  pub scopes : OwnedVec ScopeAt
  pub vars : OwnedVec VarAt
  pub types : OwnedVec StabTypeAt

unfoldable pub free_stab_scope : ScopeAt → Action
unfolding free_struct hash_free
free_stab_scope sc = free_struct sc.at (
    hash_free dummy_free dummy_free sc.vars
    ∷ hash_free dummy_free dummy_free sc.funcs
    ∷ hash_free dummy_free dummy_free sc.types
    ∷ [])

unfoldable pub free_stab_var : VarAt → Action
unfolding free_struct
free_stab_var v = free_struct v.at (release v.name ∷ release v.defn ∷ [])

unfoldable pub free_stab_record_field : StabFieldAt → Action
unfolding free_struct
free_stab_record_field f = free_struct f.at (release f.name ∷ [])

-- The `switch` on the tag.
unfoldable pub free_owned : OwnedType → Action
unfolding list_free free_stab_record_field
free_owned (fields fs) = list_free free_stab_record_field fs
free_owned (args ids) = list_free dummy_free ids
free_owned other = pure tt

unfoldable pub free_stab_type : StabTypeAt → Action
unfolding free_struct free_owned
free_stab_type t = free_struct t.at (release t.name ∷ release t.defn ∷ free_owned t.ty ∷ [])

-- The chain does not own the scopes.
unfoldable pub stab_free : StabAt → Action
unfolding free_struct list_free ptrvec_free free_stab_scope free_stab_var free_stab_type
stab_free st = free_struct st.at (
    list_free dummy_free st.chain
    ∷ ptrvec_free free_stab_scope st.scopes
    ∷ ptrvec_free free_stab_var st.vars
    ∷ ptrvec_free free_stab_type st.types
    ∷ [])

-- The blocks of the parts and of the table.
unfoldable pub scope_blocks : ScopeAt → Blocks
scope_blocks sc a =
    struct_blocks sc.at
      (hash_blocks (λ k. no_blocks) (λ v. no_blocks) sc.vars
        ∷ hash_blocks (λ k. no_blocks) (λ v. no_blocks) sc.funcs
        ∷ hash_blocks (λ k. no_blocks) (λ v. no_blocks) sc.types
        ∷ [])
      a

unfoldable pub var_blocks : VarAt → Blocks
var_blocks v a = struct_blocks v.at (name_block v.name ∷ name_block v.defn ∷ []) a

unfoldable pub stab_field_blocks : StabFieldAt → Blocks
stab_field_blocks f a = struct_blocks f.at (name_block f.name ∷ []) a

unfoldable pub owned_blocks : OwnedType → Blocks
unfolding list_blocks
owned_blocks (fields fs) a = list_blocks stab_field_blocks fs a
owned_blocks (args ids) a = list_blocks (λ i. no_blocks) ids a
owned_blocks other a = 0

unfoldable pub stab_type_blocks : StabTypeAt → Blocks
stab_type_blocks t a =
    struct_blocks t.at (name_block t.name ∷ name_block t.defn ∷ owned_blocks t.ty ∷ []) a

unfoldable pub stab_blocks : StabAt → Blocks
stab_blocks st a =
    struct_blocks st.at
      (list_blocks (λ sc. no_blocks) st.chain
        ∷ vec_blocks scope_blocks st.scopes
        ∷ vec_blocks var_blocks st.vars
        ∷ vec_blocks stab_type_blocks st.types
        ∷ [])
      a
