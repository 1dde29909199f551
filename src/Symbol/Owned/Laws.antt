-- ===== src/Symbol/Owned/Laws.antt =====
-- What the destructors of dragon/symbol.c give back, after those of the syntax tree.
use cs.Prelude.{ℕ}
use cs.Util.Memory.{dummy_free, no_blocks}
use cs.Util.Memory.Frees.{Frees, Frees-none, no_part, part, struct-Frees, release-Frees}
use cs.Util.Memory.Containers.Laws.{list_free-Frees, ptrvec_free-Frees}
use cs.Util.Memory.Hash.Laws.{hash_free-Frees}
use cs.Symbol.Owned.{
  ScopeAt, VarAt, StabFieldAt, OwnedType, fields, args, other, StabTypeAt, StabAt, free_stab_scope,
  free_stab_var, free_stab_record_field, free_owned, free_stab_type, stab_free, scope_blocks,
  var_blocks, stab_field_blocks, owned_blocks, stab_type_blocks, stab_blocks,
}

dummy-Frees : (x : ℕ) → Frees no_blocks (dummy_free x)
unfolding dummy_free
dummy-Frees x = Frees-none

scope-Frees : (sc : ScopeAt) → Frees (scope_blocks sc) (free_stab_scope sc)
unfolding free_stab_scope scope_blocks
scope-Frees sc = struct-Frees sc.at (
    part (hash_free-Frees dummy-Frees dummy-Frees sc.vars) (
      part (hash_free-Frees dummy-Frees dummy-Frees sc.funcs)
        (part (hash_free-Frees dummy-Frees dummy-Frees sc.types) no_part)))

var-Frees : (v : VarAt) → Frees (var_blocks v) (free_stab_var v)
unfolding free_stab_var var_blocks
var-Frees v = struct-Frees v.at (part (release-Frees v.name) (part (release-Frees v.defn) no_part))

field-Frees : (f : StabFieldAt) → Frees (stab_field_blocks f) (free_stab_record_field f)
unfolding free_stab_record_field stab_field_blocks
field-Frees f = struct-Frees f.at (part (release-Frees f.name) no_part)

owned-Frees : (t : OwnedType) → Frees (owned_blocks t) (free_owned t)
unfolding free_owned owned_blocks
owned-Frees (fields fs) = list_free-Frees field-Frees fs
owned-Frees (args ids) = list_free-Frees dummy-Frees ids
owned-Frees other = Frees-none

type-Frees : (t : StabTypeAt) → Frees (stab_type_blocks t) (free_stab_type t)
unfolding free_stab_type stab_type_blocks
type-Frees t =
    struct-Frees t.at
      (part (release-Frees t.name) (part (release-Frees t.defn) (part (owned-Frees t.ty) no_part)))

pub stab_free-Frees : (st : StabAt) → Frees (stab_blocks st) (stab_free st)
unfolding stab_free stab_blocks
stab_free-Frees st = struct-Frees st.at (
    part (list_free-Frees dummy-Frees st.chain) (
      part (ptrvec_free-Frees scope-Frees st.scopes) (
        part (ptrvec_free-Frees var-Frees st.vars)
          (part (ptrvec_free-Frees type-Frees st.types) no_part))))
