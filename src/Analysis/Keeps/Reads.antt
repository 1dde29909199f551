-- ===== src/Analysis/Keeps/Reads.antt =====
-- Operations of dragon/symbol.c that only read the table.
use cs.Prelude.{ℕ, zero, suc, ◌≡◌, refl, Option, none, some, Bool, String, get_elem?, arith}
use cs.Exec.{ok, Exec}
use cs.Exec.Rules.{After, returns, stops, After-require, After-intro, After_of_eq}
use cs.Symbol.{
  Stab, ResolvedType, stab_type, stab_var, stab_has_local_var, stab_resolve_var, stab_resolve_func,
  local_in, innermost, Scope,
}
use cs.Symbol.Equality.{compare_types, types_eq_loop, stab_types_eq}
use cs.Analysis.Keeps.{Reads, require-Reads}

pub stab_type-Reads : (id : ℕ) → Reads (stab_type id)
stab_type-Reads id = require-Reads (λ st. get_elem? st.types id)

pub stab_var-Reads : (id : ℕ) → Reads (stab_var id)
stab_var-Reads id = require-Reads (λ st. get_elem? st.vars id)

pub has_local_var-Reads : (name : String) → Reads (stab_has_local_var name)
unfolding stab_has_local_var local_in
has_local_var-Reads name st = go (innermost st.chain)
  where
    go : (o : Option Scope) → After (λ _ u. u ≡ st) (local_in (λ sc. sc.vars) name o st)
    go none = stops
    go (some sc) = returns refl

compare-reads :
    (rec : ℕ → ℕ → Exec Stab Bool)
    → ((p q : ℕ) (st u : Stab) (r : Bool) → rec p q st ≡ ok (r, u) → u ≡ st)
    → (a b : ℕ) (x y : ResolvedType) (st u : Stab) (r : Bool)
    → compare_types rec a b x y st ≡ ok (r, u)
    → u ≡ st
unfolding compare_types
compare-reads rec h a b (ResolvedType.pointer p) (ResolvedType.pointer q) st u r e = h p q st u r e
compare-reads rec h a b _ _ st u r e = ground arith

compare-Reads :
    (rec : ℕ → ℕ → Exec Stab Bool)
    → ((p q : ℕ) → Reads (rec p q))
    → (a b : ℕ) (x y : ResolvedType) → Reads (compare_types rec a b x y)
compare-Reads rec h a b x y st =
    After-intro (compare_types rec a b x y st)
      (λ r u e. compare-reads rec (λ p q s w r f. After_of_eq (h p q s) f) a b x y st u r e)

types_eq_loop-Reads : (fuel a b : ℕ) → Reads (types_eq_loop fuel a b)
unfolding types_eq_loop
types_eq_loop-Reads zero a b st = stops
types_eq_loop-Reads (suc fuel) a b st = After-require (get_elem? st.types a) st _ (λ x e.
    After-require (get_elem? st.types b) st _
      (λ y f. compare-Reads (types_eq_loop fuel) (types_eq_loop-Reads fuel) a b x.ty y.ty st))

pub types_eq-Reads : (a b : ℕ) → Reads (stab_types_eq a b)
unfolding stab_types_eq
types_eq-Reads a b = types_eq_loop-Reads (suc (suc a)) a b

pub ruleset reading = (stab_type-Reads, stab_var-Reads, has_local_var-Reads, types_eq-Reads)

pub resolve-Reads : (name : String) → Reads (λ st. ok (stab_resolve_var st name, st))
resolve-Reads name st = returns refl

pub resolve_func-Reads : (name : String) → Reads (λ st. ok (stab_resolve_func st name, st))
resolve_func-Reads name st = returns refl
