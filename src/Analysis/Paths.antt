-- ===== src/Analysis/Paths.antt =====
-- `size_of_type` and `type_of_path` of dragon/analysis.c.
use cs.Prelude.{
  ℕ, suc, ◌+◌, ◌*◌, String, Bool, true, false, List, [], ◌∷◌, set, ◌==◌, str_eq, if◌then◌else◌,
}
use cs.Prelude.Int.{ℤ, pos}
use cs.Ast.{AstPath}
use cs.Exec.{
  span_err, unresolved_variable, field_of_non_record, no_such_field, size_of_type_ref, Exec, ok,
  pure, halt, stop_if, ◌>>=◌, ◌>>◌,
}
use cs.Symbol.{
  StabVar, ResolvedType, stab_type, stab_var, stab_resolve_var, stab_has_local_var, resolve_failure,
}
use cs.Analysis.{Acx, Resu, load_display, lea_local, load, add_const, emit, on_stab}
use cs.Analysis.Registers.{reg_gimme}

unfoldable pub size_of_tag : ResolvedType → Exec Acx ℕ
size_of_tag (ResolvedType.array lower upper elt) = pure 8
size_of_tag ResolvedType.boolean = pure 1
size_of_tag ResolvedType.char = pure 1
size_of_tag (ResolvedType.func kind args retty) = pure 8
size_of_tag ResolvedType.integer = pure 8
size_of_tag (ResolvedType.pointer p) = pure 8
size_of_tag ResolvedType.real = pure 8
size_of_tag (ResolvedType.record_of fields) = pure 64
size_of_tag ResolvedType.ref = halt (span_err size_of_type_ref)
size_of_tag ResolvedType.string = pure 8
size_of_tag ResolvedType.void = pure 1

unfoldable pub size_of_type : ℕ → Exec Acx ℕ
unfolding size_of_tag
size_of_type id = do t ← on_stab (stab_type id); size_of_tag t.ty

-- `STAB_VAR(st, idx)->captured = true` with a new slot of the display.
abbrev pub capture : ℕ → StabVar → Exec Acx (Unit {0})
capture id v acx = ok (
  tt,
  record acx {
    st = record acx.st {
      vars = set acx.st.vars id (record v { captured = true; disp_offset = pos acx.disp_offset });
    };
    disp_offset = suc acx.disp_offset;
  },
)

-- The first time that an enclosing scope's variable is used.
abbrev pub capture_once : ℕ → StabVar → Exec Acx (Unit {0})
capture_once id v = if v.captured then pure tt else capture id v

-- `disp_offset * ABI_POINTER_ALIGN`; the offset of a captured variable is not negative.
abbrev pub times_align : ℤ → ℤ
times_align (pos n) = pos (n * 8)
times_align z = z

-- The address of the variable: through the display, or in the frame.
unfoldable pub load_address : Bool → ℕ → String → Exec Acx (Unit {0})
load_address false id reg = do
  v ← on_stab (stab_var id)
  capture_once id v
  v' ← on_stab (stab_var id)
  emit (load_display reg (times_align v'.disp_offset) ∷ [])
load_address true id reg = do
  v ← on_stab (stab_var id)
  emit (lea_local reg v.stack_base_offset ∷ [])

-- What a field was found to be: to go on with the pointee of a pointer, or with the field's type.
unfoldable pub enter_field : ResolvedType → String → ℕ → Exec Acx ResolvedType
enter_field (ResolvedType.pointer p) reg offset = do
  t ← on_stab (stab_type p)
  emit (load reg reg ∷ [])
  pure t.ty
enter_field ty reg offset = do emit (add_const reg offset ∷ []); pure ty

-- The loop over the fields of a record; `n` is the name that is looked for.
unfoldable pub find_field : String → String → ℕ → List (String × ℕ) → Exec Acx ResolvedType
unfolding size_of_type enter_field
find_field n reg offset [] = halt (span_err (no_such_field n))
find_field n reg offset ((name, id) ∷ fields) =
    let step = size_of_type id >>= λ size. find_field n reg (offset + size) fields in
    let found = on_stab (stab_type id) >>= λ t. enter_field t.ty reg offset in
    if str_eq name n then found else step

unfoldable pub access_field : String → String → ResolvedType → Exec Acx ResolvedType
unfolding find_field
access_field n reg (ResolvedType.record_of fields) = find_field n reg 0 fields
access_field n reg _ = halt (span_err (field_of_non_record n))

-- The rounds of the loop over the components after the first round.
unfoldable pub walk : String → ResolvedType → List String → Exec Acx ResolvedType
unfolding access_field
walk reg ty [] = pure ty
walk reg ty (n ∷ names) = do ty' ← access_field n reg ty; walk reg ty' names

-- All components but the last.
abbrev pub but_last : String → List String → List String
but_last first [] = []
but_last first (n ∷ rest) = first ∷ but_last n rest

abbrev pub load_value : Bool → String → Exec Acx (Unit {0})
load_value true reg = emit (load reg reg ∷ [])
load_value false reg = pure tt

-- In the loop over the components `continue` skips the step to the next node, so the rounds after
-- the first see the components from the first one on, and not the last one. The type that is
-- returned is that of the variable.
unfoldable pub type_of_path : AstPath → Bool → Exec Acx Resu
unfolding load_address walk
type_of_path p compute_rvalue = do
  idx ← on_stab (λ st. ok (stab_resolve_var st p.first, st))
  stop_if (idx == resolve_failure) (span_err (unresolved_variable p.first))
  reg ← reg_gimme
  here ← on_stab (stab_has_local_var p.first)
  load_address here idx reg.name
  v ← on_stab (stab_var idx)
  t ← on_stab (stab_type v.type)
  _ ← walk reg.name t.ty (but_last p.first p.rest)
  load_value compute_rvalue reg.name
  pure (record { type = v.type; reg = reg })
