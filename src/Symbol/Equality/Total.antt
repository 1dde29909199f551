-- ===== src/Symbol/Equality/Total.antt =====
-- `stab_types_eq` of dragon/symbol.c on a well-formed symbol table.
use cs.Prelude.{
  ℕ, zero, suc, Bool, ◌≡◌, ◌≢◌, refl, ◌≤◌, ◌<◌, inl, inr, length, get_elem?, get_elem?-ne-none,
  some, Option-cases, arith,
}
use mathlib.Core.Path.{subst}
use cs.Exec.{Result, ok, stop, aborted, Exec}
use cs.Symbol.{Stab, StabType, ResolvedType, pointer, resolve_failure}
use cs.Symbol.Equality.{compare_types, types_eq_loop, stab_types_eq}
use cs.Symbol.Equality.Laws.{PointersDown}
use cs.Symbol.Invariant.{Refs, IsStab}

pub IsStab-PointersDown :
    (st : Stab) → IsStab st → length st.types ≤ resolve_failure → PointersDown st
IsStab-PointersDown st h fits = record {
  fits = fits;
  down = λ i p t e ptr. subst (Refs i (length st.vars)) ptr (h.arena.refs i t e);
}

-- The targets of all pointers were resolved.
abbrev pub TargetsResolved : Stab → Type 0
TargetsResolved st =
    (i p : ℕ) (t : StabType)
    → get_elem? st.types i ≡ some t
    → t.ty ≡ pointer p
    → p ≢ resolve_failure

-- An answer, with the table as it was, or the call of `abort`.
abbrev pub Answers : Stab → Result (Bool × Stab) → Type 0
Answers st (ok (same, u)) = u ≡ st
Answers st (stop aborted) = Unit
Answers st _ = ⊥

compare-Answers :
    (rec : ℕ → ℕ → Exec Stab Bool) (a b : ℕ) (x y : ResolvedType) (st : Stab)
    → ((p q : ℕ) → x ≡ pointer p → y ≡ pointer q → Answers st (rec p q st))
    → Answers st (compare_types rec a b x y st)
unfolding compare_types
compare-Answers rec a b (pointer p) (pointer q) st h = h p q refl refl
compare-Answers rec a b _ _ st h = ground arith

module _ (st : Stab) (wf : PointersDown st) (resolved : TargetsResolved st) where
  target : (i p : ℕ) (t : StabType) → get_elem? st.types i ≡ some t → t.ty ≡ pointer p → p < i
  target i p t e ptr = elim (wf.down i p t e ptr) [
    | inl lt ↦ lt
    | inr bad ↦ absurd (resolved i p t e ptr bad)
  ]

  loop-Answers :
      (fuel a b : ℕ)
      → a < fuel
      → a < length st.types
      → b < length st.types
      → Answers st (types_eq_loop fuel a b st)
  unfolding types_eq_loop
  loop-Answers zero a b h la lb = elim h [ ]
  loop-Answers (suc fuel) a b h la lb = elim (Option-cases (get_elem? st.types a)) [
    | inl e ↦ absurd (get_elem?-ne-none st.types a la e)
    | inr (x, e) ↦ elim (Option-cases (get_elem? st.types b)) [
      | inl f ↦ absurd (get_elem?-ne-none st.types b lb f)
      | inr (y, f) ↦
          rw (e, f)
            (compare-Answers (types_eq_loop fuel) a b x.ty y.ty st (λ p q g k.
              let down = target a p x e g in
              let over = target b q y f k in
              loop-Answers fuel p q (omega arith) (omega arith) (omega arith)))
    ]
  ]

-- In a well-formed table with fewer than 2 ^ 64 types, whose pointers were all resolved, the
-- comparison of any two types of the table answers and leaves the table as it was, or calls `abort`.
pub stab_types_eq-IsStab :
    (a b : ℕ) (st : Stab)
    → IsStab st
    → length st.types ≤ resolve_failure
    → TargetsResolved st
    → a < length st.types
    → b < length st.types
    → Answers st (stab_types_eq a b st)
unfolding stab_types_eq
stab_types_eq-IsStab a b st h fits resolved la lb =
    loop-Answers st (IsStab-PointersDown st h fits) resolved (suc (suc a)) a b (omega arith) la lb
