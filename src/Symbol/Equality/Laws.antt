-- ===== src/Symbol/Equality/Laws.antt =====
-- `stab_types_eq` of dragon/symbol.c against a relation that is stated apart from it.
use cs.Prelude.{
  ℕ, zero, suc, ◌≡◌, ◌≢◌, refl, ◌<◌, ◌≤◌, ◌⊎◌, inl, inr, ◌↔◌, Bool, true, none, some, get_elem?,
  length, Option-cases, arith, sym, ◌∙◌, get_elem?-past,
}
use cs.Exec.{ok, stop, out_of_fuel, Exec}
use cs.Symbol.{
  Stab, StabType, ResolvedType, array, boolean, char, integer, real, string, func, pointer,
  record_of, resolve_failure,
}
use cs.Symbol.Equality.{compare_types, types_eq_loop, stab_types_eq}

-- The types that have no parts, but for `ref` and `void`.
abbrev pub IsBasic : ResolvedType → Type 0
IsBasic boolean = Unit
IsBasic char = Unit
IsBasic integer = Unit
IsBasic real = Unit
IsBasic string = Unit
IsBasic _ = ⊥

-- The types that are compared by their index.
abbrev pub IsNamed : ResolvedType → Type 0
IsNamed (func kind args retty) = Unit
IsNamed (record_of fields) = Unit
IsNamed _ = ⊥

-- Every pointer goes to an older type, or to the index of a failed resolution, which no type has.
pub record PointersDown (st : Stab) : Type 0 where
  pub fits : length st.types ≤ resolve_failure
  pub down :
      (i p : ℕ) (t : StabType)
      → get_elem? st.types i ≡ some t
      → t.ty ≡ pointer p
      → (p < i) ⊎ (p ≡ resolve_failure)

-- A comparison that does not follow pointers never asks for fuel.
compare-ne-out_of_fuel :
    (rec : ℕ → ℕ → Exec Stab Bool) (a b : ℕ) (x y : ResolvedType) (st : Stab)
    → ((p q : ℕ) → x ≡ pointer p → rec p q st ≢ stop out_of_fuel)
    → compare_types rec a b x y st ≢ stop out_of_fuel
unfolding compare_types
compare-ne-out_of_fuel rec a b (pointer p) (pointer q) st h = h p q refl
compare-ne-out_of_fuel rec a b _ _ st h = ground arith

types_eq_loop-bad :
    (fuel a b : ℕ) (st : Stab)
    → 0 < fuel
    → get_elem? st.types a ≡ none
    → types_eq_loop fuel a b st ≢ stop out_of_fuel
unfolding types_eq_loop
types_eq_loop-bad zero a b st h e = elim h [ ]
types_eq_loop-bad (suc fuel) a b st h e = rw e (λ e. ground arith)

-- With more fuel than the first index and one more round the comparison does not run out of fuel.
pub types_eq_loop-ends :
    (fuel a b : ℕ) (st : Stab)
    → PointersDown st
    → suc a < fuel
    → types_eq_loop fuel a b st ≢ stop out_of_fuel
unfolding types_eq_loop
types_eq_loop-ends zero a b st wf h = elim h [ ]
types_eq_loop-ends (suc fuel) a b st wf h = elim (Option-cases (get_elem? st.types a)) [
  | inl e ↦ rw e (λ e. ground arith)
  | inr (x, e) ↦ elim (Option-cases (get_elem? st.types b)) [
    | inl f ↦ rw (e, f) (λ e. ground arith)
    | inr (y, f) ↦
        rw (e, f)
          (compare-ne-out_of_fuel (types_eq_loop fuel) a b x.ty y.ty st (λ p q g.
            elim (wf.down a p x e g) [
              | inl lt ↦ types_eq_loop-ends fuel p q st wf (omega arith)
              | inr bad ↦
                  types_eq_loop-bad fuel p q st (omega arith)
                    (get_elem?-past st.types p (rw bad wf.fits))
            ]))
  ]
]

-- On an arena whose pointers go to older types `stab_types_eq` never runs out of fuel.
pub stab_types_eq-ends :
    (a b : ℕ) (st : Stab) → PointersDown st → stab_types_eq a b st ≢ stop out_of_fuel
unfolding stab_types_eq
stab_types_eq-ends a b st wf = types_eq_loop-ends (suc (suc a)) a b st wf (omega arith)

-- Two types are the same: equal indices for records and subprograms, equal bounds and element
-- index for arrays, the same basic tag, or pointers to types that are the same.
pub data SameType (st : Stab) : ℕ → ℕ → Type 0 where
  basic :
      {a b : ℕ} {x y : StabType}
      → get_elem? st.types a ≡ some x
      → get_elem? st.types b ≡ some y
      → IsBasic x.ty
      → x.ty ≡ y.ty
      → SameType st a b
  arrays :
      {a b : ℕ} {x y : StabType} (lower upper elt : ℕ)
      → get_elem? st.types a ≡ some x
      → get_elem? st.types b ≡ some y
      → x.ty ≡ array lower upper elt
      → y.ty ≡ array lower upper elt
      → SameType st a b
  named :
      {a b : ℕ} {x : StabType}
      → get_elem? st.types a ≡ some x
      → IsNamed x.ty
      → a ≡ b
      → SameType st a b
  pointers :
      {a b p q : ℕ} {x y : StabType}
      → get_elem? st.types a ≡ some x
      → get_elem? st.types b ≡ some y
      → x.ty ≡ pointer p
      → y.ty ≡ pointer q
      → SameType st p q
      → SameType st a b

-- What the comparison of two resolved types means, given what the recursive call means.
compare_sound :
    (rec : ℕ → ℕ → Exec Stab Bool) (a b : ℕ) (x y : StabType) (st u : Stab)
    → get_elem? st.types a ≡ some x
    → get_elem? st.types b ≡ some y
    → ((p q : ℕ) → rec p q st ≡ ok (true, u) → SameType st p q)
    → (k l : ResolvedType) → x.ty ≡ k
    → y.ty ≡ l
    → compare_types rec a b k l st ≡ ok (true, u)
    → SameType st a b
unfolding compare_types
compare_sound rec a b x y st u e f ih boolean boolean k l h = basic e f (rw k tt) (k ∙ sym l)
compare_sound rec a b x y st u e f ih char char k l h = basic e f (rw k tt) (k ∙ sym l)
compare_sound rec a b x y st u e f ih integer integer k l h = basic e f (rw k tt) (k ∙ sym l)
compare_sound rec a b x y st u e f ih real real k l h = basic e f (rw k tt) (k ∙ sym l)
compare_sound rec a b x y st u e f ih string string k l h = basic e f (rw k tt) (k ∙ sym l)
compare_sound rec a b x y st u e f ih (array lo hi t) (array lo' hi' t') k l h =
    let same : (lo ≡ lo') × (hi ≡ hi') × (t ≡ t') = ground arith in
    arrays lo hi t e f k (rw (same.0, same.1, same.2) l)
compare_sound rec a b x y st u e f ih (func s v r) (func s' v' r') k l h =
    named e (rw k tt) (ground arith)
compare_sound rec a b x y st u e f ih (record_of fs) (record_of fs') k l h =
    named e (rw k tt) (ground arith)
compare_sound rec a b x y st u e f ih (pointer p) (pointer q) k l h = pointers e f k l (ih p q h)
compare_sound rec a b x y st u e f ih _ _ k l h = absurd (ground arith)

types_eq_loop_sound :
    (fuel a b : ℕ) (st : Stab) → types_eq_loop fuel a b st ≡ ok (true, st) → SameType st a b
unfolding types_eq_loop
types_eq_loop_sound zero a b st h = absurd (ground arith)
types_eq_loop_sound (suc fuel) a b st h = elim (Option-cases (get_elem? st.types a)) [
  | inl e ↦ absurd (ground arith)
  | inr (x, e) ↦ elim (Option-cases (get_elem? st.types b)) [
    | inl f ↦ absurd (ground arith)
    | inr (y, f) ↦
        compare_sound (types_eq_loop fuel) a b x y st st e f
          (λ p q. types_eq_loop_sound fuel p q st) x.ty y.ty refl refl (rw (e, f) at h)
  ]
]

compare_basic :
    (rec : ℕ → ℕ → Exec Stab Bool) (a b : ℕ) (k : ResolvedType) (st : Stab)
    → IsBasic k
    → compare_types rec a b k k st ≡ ok (true, st)
unfolding compare_types
compare_basic rec a b boolean st h = refl
compare_basic rec a b char st h = refl
compare_basic rec a b integer st h = refl
compare_basic rec a b real st h = refl
compare_basic rec a b string st h = refl
compare_basic rec a b _ st h = absurd h

compare_named :
    (rec : ℕ → ℕ → Exec Stab Bool) (a : ℕ) (k : ResolvedType) (st : Stab)
    → IsNamed k
    → compare_types rec a a k k st ≡ ok (true, st)
unfolding compare_types
compare_named rec a (func s v r) st h = ground arith
compare_named rec a (record_of fs) st h = ground arith
compare_named rec a _ st h = absurd h

-- The first type of two that are the same exists.
SameType-ne-past : {st : Stab} {a b : ℕ} → SameType st a b → get_elem? st.types a ≢ none
SameType-ne-past (basic e f k l) h = ground arith
SameType-ne-past (arrays lo hi t e f k l) h = ground arith
SameType-ne-past (named e k l) h = ground arith
SameType-ne-past (pointers e f k l s) h = ground arith

types_eq_loop_complete :
    (fuel : ℕ) (st : Stab) {a b : ℕ}
    → PointersDown st
    → suc a < fuel
    → SameType st a b
    → types_eq_loop fuel a b st ≡ ok (true, st)
unfolding types_eq_loop
types_eq_loop_complete zero st wf h s = elim h [ ]
types_eq_loop_complete (suc fuel) st {a} {b} wf h (basic {x = x} {y = y} e f k l) =
    rw (e, f, ← l) (compare_basic (types_eq_loop fuel) a b x.ty st k)
types_eq_loop_complete (suc fuel) st {a} {b} wf h (arrays lo hi t e f k l) =
    rw (e, f, k, l) (unfold compare_types in ground arith)
types_eq_loop_complete (suc fuel) st {a} {b} wf h (named {x = x} e k l) =
    rw (← l, e, e) (compare_named (types_eq_loop fuel) a x.ty st k)
types_eq_loop_complete (suc fuel) st {a} {b} wf h (pointers {p = p} {q = q} {x = x} e f k l s) =
    rw (e, f, k, l)
      (unfold compare_types in
        elim (wf.down a p x e k) [
          | inl lt ↦ types_eq_loop_complete fuel st wf (omega arith) s
          | inr bad ↦ absurd (SameType-ne-past s (get_elem?-past st.types p (rw bad wf.fits)))
        ])

-- In a table of fewer than 2 ^ 64 types whose pointers go to older types or to the index of a
-- failed resolution, `stab_types_eq` answers true, with the table as it was, for exactly the pairs
-- of types that are the same.
pub stab_types_eq_iff :
    (a b : ℕ) (st : Stab)
    → PointersDown st
    → (stab_types_eq a b st ≡ ok (true, st)) ↔ SameType st a b
unfolding stab_types_eq
stab_types_eq_iff a b st wf = (
  types_eq_loop_sound (suc (suc a)) a b st,
  types_eq_loop_complete (suc (suc a)) st wf (omega arith),
)
