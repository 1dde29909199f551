-- ===== src/Util/Vec.antt =====
-- `struct ptrvec` of dragon/util.c: a vector of pointers that doubles its allocation.
-- `data` is the allocated block; the cells at `length` and above are allocated and hold zero or
-- what was left there. A write or a read outside the block is undefined behaviour.
-- `realloc` of no bytes is left to the C library: where it gives null, as glibc does, the code calls
-- `abort`, and elsewhere the write that follows is outside the block.
pub mod Push
use cs.Prelude.{
  ℕ, suc, ◌+◌, ◌-◌, ◌*◌, ◌≡◌, Option, none, some, List, [], ◌∷◌, ◌++◌, length, get_elem?, set, take,
  replicate, ltb, if◌then◌else◌, ◌==◌,
}

-- `capacity` is the number of cells of the block as the struct records it.
pub record Ptrvec (A : Type 0) : Type 0 where
  pub len : ℕ
  pub capacity : ℕ
  pub cells : List A

-- `calloc` fills the cells with null.
unfoldable pub ptrvec_wcap : {A : Type 0} → A → ℕ → Ptrvec A
ptrvec_wcap null cap = record { len = 0; capacity = cap; cells = replicate cap null }

-- `realloc` keeps the old cells; the new ones have no known contents, here `null`. Allocation of one
-- byte or more does not fail.
abbrev pub doubled : {A : Type 0} → A → Ptrvec A → Ptrvec A
doubled null vec = record vec {
  capacity = vec.capacity * 2;
  cells = take (vec.capacity * 2) (vec.cells ++ replicate vec.capacity null);
}

-- `none` is `realloc` of no bytes.
unfoldable pub ptrvec_reserve : {A : Type 0} → A → Ptrvec A → ℕ → Option (Ptrvec A)
ptrvec_reserve null vec len =
    if ltb len vec.capacity
    then some vec
    else (if vec.capacity == 0 then none else some (doubled null vec))

-- The write at the old length.
abbrev pub write_at : {A : Type 0} → ℕ → A → Option (Ptrvec A) → Option (ℕ × Ptrvec A)
write_at idx elem none = none
write_at idx elem (some grown) =
    if ltb idx (length grown.cells)
    then some (idx, record grown { cells = set grown.cells idx elem })
    else none

-- `none` is the end in `abort` or a write outside the block.
unfoldable pub ptrvec_push : {A : Type 0} → A → Ptrvec A → A → Option (ℕ × Ptrvec A)
unfolding ptrvec_reserve
ptrvec_push null vec elem =
    let idx = vec.len in
    write_at idx elem (ptrvec_reserve null (record vec { len = suc idx }) (suc idx))

-- The decrement is on the stored length, and the read uses the value before it.
unfoldable pub ptrvec_pop : {A : Type 0} → Ptrvec A → Option A × Ptrvec A
ptrvec_pop vec = (get_elem? vec.cells vec.len, record vec { len = vec.len - 1 })

unfoldable pub ptrvec_last : {A : Type 0} → Ptrvec A → Option A
ptrvec_last vec = get_elem? vec.cells (vec.len - 1)

-- The elements that the vector holds.
abbrev pub contents : {A : Type 0} → Ptrvec A → List A
contents vec = take vec.len vec.cells

-- What follows a push.
abbrev pub then_push :
    {A : Type 0} → Option (ℕ × Ptrvec A) → (Ptrvec A → Option (Ptrvec A)) → Option (Ptrvec A)
then_push none rest = none
then_push (some (_, grown)) rest = rest grown

-- The loop of `ptrvec_new` over its variable arguments.
unfoldable pub push_all : {A : Type 0} → A → List A → Ptrvec A → Option (Ptrvec A)
unfolding ptrvec_push
push_all null [] vec = some vec
push_all null (x ∷ xs) vec = then_push (ptrvec_push null vec x) (push_all null xs)

-- `count` is the number of the arguments.
unfoldable pub ptrvec_new : {A : Type 0} → A → List A → Option (Ptrvec A)
unfolding ptrvec_wcap push_all
ptrvec_new null args = push_all null args (ptrvec_wcap null (length args))
