-- ===== src/Symbol/Equality.antt =====
-- `stab_types_eq` of dragon/symbol.c. It follows pointers, so it runs on fuel; the children are
-- about how much is enough.
pub mod Laws
pub mod Total
use cs.Prelude.{ℕ, zero, suc, Bool, true, false, ◌&&◌, ◌==◌}
use cs.Exec.{Result, aborted, out_of_fuel, Exec, pure, halt, ◌>>=◌}
use cs.Symbol.{
  Stab, ResolvedType, array, boolean, char, integer, real, ref, string, void, func, pointer,
  record_of, stab_type,
}

-- The test of the tags and the `switch`; `rec` is the recursive call.
unfoldable pub compare_types :
    (ℕ → ℕ → Exec Stab Bool) → ℕ → ℕ → ResolvedType → ResolvedType → Exec Stab Bool
compare_types rec a b boolean boolean = pure true
compare_types rec a b char char = pure true
compare_types rec a b integer integer = pure true
compare_types rec a b real real = pure true
compare_types rec a b string string = pure true
compare_types rec a b (array lower upper elt) (array lower' upper' elt') =
    pure ((upper == upper') && (lower == lower') && (elt == elt'))
compare_types rec a b (func kind args retty) (func kind' args' retty') = pure (a == b)
compare_types rec a b (record_of fields) (record_of fields') = pure (a == b)
compare_types rec a b (pointer p) (pointer q) = rec p q
compare_types rec a b ref ref = halt aborted
compare_types rec a b void void = halt aborted
compare_types rec a b _ _ = pure false

unfoldable pub types_eq_loop : ℕ → ℕ → ℕ → Exec Stab Bool
unfolding compare_types
types_eq_loop zero a b = halt out_of_fuel
types_eq_loop (suc fuel) a b = do
  at ← stab_type a
  bt ← stab_type b
  compare_types (types_eq_loop fuel) a b at.ty bt.ty

-- The fuel: pointers go to older types, so `a + 2` rounds are enough.
unfoldable pub stab_types_eq : ℕ → ℕ → Exec Stab Bool
unfolding types_eq_loop
stab_types_eq a b = types_eq_loop (suc (suc a)) a b
