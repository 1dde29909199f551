-- ===== src/Symbol/Invariant/Arena.antt =====
-- Adding to the arenas and changing the innermost scope: the invariant, and that the arenas only
-- grow.
use mathlib.Core.Path.{subst}
use cs.Prelude.{
  sym, ℕ, ◌≡◌, refl, ◌∙◌, ◌<◌, ◌≤◌, ◌⊎◌, inl, inr, List, [], ◌∷◌, ◌++◌, String, length, get_elem?,
  length-append, get_elem?-append-inv, get_elem?-append_left, arith,
}
use cs.Exec.Rules.{After, returns, stops}
use cs.Symbol.{Scope, Stab, StabType, StabVar, on_innermost, stab_resolve_var, resolve_failure}
use cs.Symbol.Names.{Known, Known-mono}
use cs.Symbol.Invariant.{All_map, Refs, IsStab, IsScope-mono, Refs_mono}

-- The arenas only grow, and what they hold stays.
pub record Grows (s t : Stab) : Type 0 where
  pub vars : length s.vars ≤ length t.vars
  pub types : length s.types ≤ length t.types
  pub keeps_vars : (i : ℕ) → i < length s.vars → get_elem? t.vars i ≡ get_elem? s.vars i
  pub keeps_types : (i : ℕ) → i < length s.types → get_elem? t.types i ≡ get_elem? s.types i

pub Grows-refl : (s : Stab) → Grows s s
Grows-refl s = record {
  vars = omega arith;
  types = omega arith;
  keeps_vars = λ i h. refl;
  keeps_types = λ i h. refl;
}

pub Grows-trans : {s t u : Stab} → Grows s t → Grows t u → Grows s u
Grows-trans g h = record {
  vars = omega arith;
  types = omega arith;
  keeps_vars = λ i lt. h.keeps_vars i (omega arith) ∙ g.keeps_vars i lt;
  keeps_types = λ i lt. h.keeps_types i (omega arith) ∙ g.keeps_types i lt;
}

-- The scopes around the innermost one.
abbrev pub outer : List Scope → List Scope
outer [] = []
outer (sc ∷ chain) = chain

-- What a variable's name means after an operation: what it meant before, or a new variable.
abbrev pub Shifted : Stab → Stab → String → Type 0
Shifted s t q =
    (stab_resolve_var t q ≡ stab_resolve_var s q)
    ⊎ ((length s.vars ≤ stab_resolve_var t q) × (stab_resolve_var t q < length t.vars))

-- What an operation that returned left behind. Only the innermost scope may have changed. An
-- arena of 2 ^ 64 - 1 variables or more would give a variable the index of a failed resolution.
pub record Leaves (s t : Stab) : Type 0 where
  pub good : IsStab t
  pub grows : Grows s t
  pub depth : length t.chain ≡ length s.chain
  pub around : outer t.chain ≡ outer s.chain
  pub shifts : length t.vars ≤ resolve_failure → (q : String) → Shifted s t q

pub Leaves-refl : {s : Stab} → IsStab s → Leaves s s
Leaves-refl {s} h = record {
  good = h;
  grows = Grows-refl s;
  depth = refl;
  around = refl;
  shifts = λ _ q. inl refl;
}

pub Leaves-trans : {s t u : Stab} → Leaves s t → Leaves t u → Leaves s u
Leaves-trans {s} {t} {u} g h = record {
  good = h.good;
  grows = Grows-trans g.grows h.grows;
  depth = h.depth ∙ g.depth;
  around = h.around ∙ g.around;
  shifts = λ fits q. join q (h.shifts fits q) (g.shifts (omega (arith, h.grows.vars)) q);
}
  where
    join : (q : String) → Shifted t u q → Shifted s t q → Shifted s u q
    join q (inl e) (inl f) = inl (e ∙ f)
    join q (inl e) (inr k) = inr (omega (arith, h.grows.vars, e), omega (arith, h.grows.vars, e))
    join q (inr k) f = inr (omega (arith, g.grows.vars), k.1)

-- A type added, a variable added, a new innermost scope.
abbrev with_type : Stab → StabType → Stab
with_type st t = record st { types = st.types ++ t ∷ [] }

abbrev with_var : Stab → StabVar → Stab
with_var st v = record st { vars = st.vars ++ v ∷ [] }

pub append-Leaves :
    {st : Stab} (h : IsStab st) (t : StabType)
    → Refs (length st.types) (length st.vars) t.ty
    → Leaves st (with_type st t)
append-Leaves {st} h t r = record {
  good = record {
    scopes =
        All_map st.chain
          (λ sc s.
            IsScope-mono (omega arith) (omega (arith, length-append {0} st.types (t ∷ []))) s)
          h.scopes;
    arena = record {
      builtins = omega (arith, h.arena.builtins, length-append {0} st.types (t ∷ []));
      refs = λ i x e. elim (get_elem?-append-inv st.types t i e) [
        | inl old ↦ h.arena.refs i x old
        | inr (last, same) ↦
            subst (λ (k : ℕ). Refs k (length st.vars) x.ty) (sym last)
              (subst (λ (y : StabType). Refs (length st.types) (length st.vars) y.ty) same r)
      ];
      var_types = λ i v e.
          Known-mono (omega (arith, length-append {0} st.types (t ∷ []))) (h.arena.var_types i v e);
    };
  };
  grows = record {
    vars = omega arith;
    types = omega (arith, length-append {0} st.types (t ∷ []));
    keeps_vars = λ i lt. refl;
    keeps_types = λ i lt. get_elem?-append_left st.types (t ∷ []) i lt;
  };
  depth = refl;
  around = refl;
  shifts = λ _ q. inl (unfold stab_resolve_var in refl);
}

pub push_var-Leaves :
    {st : Stab} (h : IsStab st) (v : StabVar)
    → Known (length st.types) v.type
    → Leaves st (with_var st v)
push_var-Leaves {st} h v k = record {
  good = record {
    scopes =
        All_map st.chain
          (λ sc s. IsScope-mono (omega (arith, length-append {0} st.vars (v ∷ []))) (omega arith) s)
          h.scopes;
    arena = record {
      builtins = h.arena.builtins;
      refs = λ i x e.
          Refs_mono i x.ty (omega (arith, length-append {0} st.vars (v ∷ []))) (h.arena.refs i x e);
      var_types = λ i x e. elim (get_elem?-append-inv st.vars v i e) [
        | inl old ↦ h.arena.var_types i x old
        | inr (last, same) ↦ subst (λ (y : StabVar). Known (length st.types) y.type) same k
      ];
    };
  };
  grows = record {
    vars = omega (arith, length-append {0} st.vars (v ∷ []));
    types = omega arith;
    keeps_vars = λ i lt. get_elem?-append_left st.vars (v ∷ []) i lt;
    keeps_types = λ i lt. refl;
  };
  depth = refl;
  around = refl;
  shifts = λ _ q. inl (unfold stab_resolve_var in refl);
}

-- What an action that changes the innermost scope comes to.
pub on_innermost-After :
    (f : Scope → Scope) (st : Stab) {P : Unit {0} → Stab → Type 0}
    → ((sc : Scope) (chain : List Scope)
        → st.chain ≡ sc ∷ chain
        → P tt (record st { chain = f sc ∷ chain }))
    → After P (on_innermost f st)
on_innermost-After f st {P} k = go st.chain refl
  where
    go : (c : List Scope) → st.chain ≡ c → After P (on_innermost f st)
    go [] e = rw e stops
    go (sc ∷ chain) e = rw e (returns (k sc chain e))
