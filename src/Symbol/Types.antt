-- ===== src/Symbol/Types.antt =====
-- From the types of the syntax tree to indices of the type arena: `stab_add_var` and the
-- `stab_resolve_type` functions of dragon/symbol.c.
use cs.Prelude.{
  ℕ, ◌+◌, ◌-◌, ◌*◌, ◌%◌, ◌^◌, String, Bool, true, false, ◌&&◌, List, [], ◌∷◌, ◌++◌, Option, none,
  some, ltb, leb, if◌then◌else◌,
}
use cs.Prelude.Int.{ℤ, pos, negsuc, ◌+ℤ◌, ◌-ℤ◌}
use cs.Ast.{AstType, DeclsList, no_decls, decls, RecordFields, no_fields, field}
use cs.Exec.{aborted, undefined, Exec, pure, halt, ◌>>=◌, ◌>>◌}
use cs.Symbol.{
  Stab, StabType, ResolvedType, plain, codes, integer_type_idx, real_type_idx, string_type_idx,
  boolean_type_idx, char_type_idx, void_type_idx, abi_pointer_size, abi_closure_size,
  stab_resolve_type_name, stab_type, push_type, push_var, on_innermost, insert_var,
}

-- The `int` that a number is converted to, modulo 2 ^ 32.
abbrev pub signed_word : ℕ → ℤ
signed_word m = if ltb m (2 ^ 31) then pos m else negsuc (2 ^ 32 - 1 - m)

unfoldable pub to_int : ℤ → ℤ
to_int (pos n) = signed_word (n % 2 ^ 32)
to_int (negsuc n) = signed_word (2 ^ 32 - 1 - n % 2 ^ 32)

-- `*curr_var_offset` after a variable of `size` bytes: the locals grow it and the formal
-- arguments shrink it, in 64 bits that are converted to an `int`.
unfoldable pub advance : Bool → ℤ → ℕ → ℤ
unfolding to_int
advance add_to_locals off size = to_int (if add_to_locals then off +ℤ pos size else off -ℤ pos size)

-- The offset of the new variable and `*curr_var_offset` after it; `none` is a null pointer.
unfoldable pub place_var : ℕ → Option ℤ → Bool → Exec Stab (ℤ × Option ℤ)
unfolding advance
place_var type none add_to_locals = pure (negsuc 0, none)
place_var type (some off) add_to_locals = do
  t ← stab_type type
  pure (off, some (advance add_to_locals off t.size))

-- The result is the variable's index, with `*curr_var_offset` as it is left.
unfoldable pub stab_add_var : String → ℕ → Option ℤ → Bool → Exec Stab (ℕ × Option ℤ)
unfolding place_var
stab_add_var name type curr_var_offset add_to_locals = do
  (base, off) ← place_var type curr_var_offset add_to_locals
  id ← push_var (record {
    type = type;
    name = name;
    disp_offset = negsuc 0;
    stack_base_offset = base;
    captured = false;
  })
  on_innermost (insert_var name id)
  pure (id, off)

-- `atoi` of the C library on a numeral of the lexer: the digits up to the first other character.
atoi_loop : ℕ → List ℕ → ℕ
atoi_loop n [] = n
atoi_loop n (c ∷ cs) = if leb b'0' c && leb c b'9' then atoi_loop (n * 10 + (c - b'0')) cs else n

unfoldable pub atoi : String → ℕ
unfolding atoi_loop
atoi s = atoi_loop 0 (codes s)

-- A bound of an array as an `int`; `atoi` has no meaning where the number does not fit.
unfoldable pub int_bound : String → Exec Stab ℕ
unfolding atoi
int_bound s = if ltb (atoi s) (2 ^ 31) then pure (atoi s) else halt undefined

-- `size * (upper - lower)`, where the `int` difference is converted to `uint64_t`.
abbrev pub array_size : ℕ → ℕ → ℕ → ℕ
array_size size lower upper = size * ((upper + 2 ^ 64 - lower) % 2 ^ 64) % 2 ^ 64

-- A new `struct stab_type`; `calloc` makes the fields that are not assigned 0.
abbrev pub new_type : String → ResolvedType → ℕ → ℕ → StabType
new_type name ty size align = record {
  ty = ty;
  name = name;
  size = size;
  align = align;
  magic = plain;
}

-- The inner loop over the parameters of one declaration; `resolve` resolves its type again for
-- each name.
unfoldable pub add_parameters : (String → Exec Stab ℕ) → List String → Exec Stab (List ℕ)
unfolding stab_add_var
add_parameters resolve [] = pure []
add_parameters resolve (name ∷ names) = do
  type ← resolve name
  (id, _) ← stab_add_var name type none false
  ids ← add_parameters resolve names
  pure (id ∷ ids)

-- A loop in sequence with the rest of the list.
abbrev pub append_ids : Exec Stab (List ℕ) → Exec Stab (List ℕ) → Exec Stab (List ℕ)
append_ids first others = do ids ← first; more ← others; pure (ids ++ more)

unfoldable mutual
  -- `stab_resolve_type`, with `stab_resolve_complex_type` written out in the last four clauses.
  pub stab_resolve_type : AstType → String → Exec Stab ℕ
  stab_resolve_type AstType.null name st = pure void_type_idx st
  stab_resolve_type (AstType.ref r) name st = pure (stab_resolve_type_name st r) st
  stab_resolve_type AstType.integer name st = pure integer_type_idx st
  stab_resolve_type AstType.real name st = pure real_type_idx st
  stab_resolve_type AstType.string name st = pure string_type_idx st
  stab_resolve_type AstType.boolean name st = pure boolean_type_idx st
  stab_resolve_type AstType.char name st = pure char_type_idx st
  stab_resolve_type AstType.void name st = pure void_type_idx st
  stab_resolve_type (AstType.pointer t) name st =
      (stab_resolve_type t name >>= λ target.
      push_type (new_type name (ResolvedType.pointer target) abi_pointer_size abi_pointer_size))
        st
  stab_resolve_type (AstType.record_of fs) name st =
      (resolve_fields fs >>= λ fields.
      push_type (new_type name (ResolvedType.record_of fields) 0 0))
        st
  stab_resolve_type (AstType.array lower upper t) name st =
      (int_bound lower >>= λ lo. int_bound upper >>= λ hi.
      stab_resolve_type t "<array elts>" >>= λ elt. stab_type elt >>= λ et.
      push_type (new_type name (ResolvedType.array lo hi elt) (array_size et.size lo hi) 0))
        st
  stab_resolve_type (AstType.func kind ds ret) name st =
      (stab_resolve_type ret "<func ret>" >>= λ retty. resolve_args ds >>= λ args.
      push_type
        (new_type name (ResolvedType.func kind args retty) abi_closure_size abi_closure_size))
        st

  -- The loop over the fields of a record.
  pub resolve_fields : RecordFields → Exec Stab (List (String × ℕ))
  resolve_fields no_fields st = pure [] st
  resolve_fields (field name t fs) st =
      (stab_resolve_type t name >>= λ id. resolve_fields fs >>= λ rest. pure ((name, id) ∷ rest)) st

  -- The loop over the parameters of a subprogram.
  pub resolve_args : DeclsList → Exec Stab (List ℕ)
  resolve_args no_decls st = pure [] st
  resolve_args (decls names t ds) st =
      append_ids (add_parameters (stab_resolve_type t) names) (resolve_args ds) st

-- The tags that `stab_resolve_complex_type` accepts.
abbrev pub is_complex : AstType → Bool
is_complex (AstType.pointer t) = true
is_complex (AstType.record_of fs) = true
is_complex (AstType.array lower upper t) = true
is_complex (AstType.func kind ds ret) = true
is_complex _ = false

unfoldable pub stab_resolve_complex_type : String → AstType → Exec Stab ℕ
unfolding stab_resolve_type
stab_resolve_complex_type name ty =
    if is_complex ty then stab_resolve_type ty name else halt aborted
