-- ===== src/Symbol/Invariant/Vars.antt =====
-- The invariant through `stab_add_var` of dragon/symbol.c, with all that it changes.
use mathlib.Core.Path.{subst}
use cs.Prelude.{
  ℕ, ◌≡◌, refl, ◌<◌, ◌≤◌, inl, inr, [], ◌∷◌, ◌++◌, List, Option, none, some, String, Bool, length,
  get_elem?, length-append, get_elem?-append_self, arith, str_eq, if◌then◌else◌, Bool-cases,
}
use cs.Prelude.Int.{ℤ, negsuc}
use cs.Exec.Rules.{After, returns, After-bind, After-require}
use cs.Symbol.{Scope, Stab, StabVar, insert_var, resolve_in, stab_resolve_var, resolve_failure}
use cs.Symbol.Names.{Known, hash_insert-Names, lookup-Names}
use cs.Symbol.Types.{stab_add_var, place_var}
use cs.Symbol.Invariant.{All, IsScope, IsStab}
use cs.Symbol.Invariant.Arena.{Shifted, Leaves, push_var-Leaves, on_innermost-After}

-- What `stab_add_var` does: the variable stands at the end of the arena, and its name in the
-- innermost scope.
pub record AddedVar (st : Stab) (name : String) (type : ℕ) (id : ℕ) (u : Stab) : Type 0 where
  pub leaves : Leaves st u
  pub id_eq : id ≡ length st.vars
  pub inside : id < length u.vars
  pub types : u.types ≡ st.types
  pub var : (v : StabVar) × (get_elem? u.vars id ≡ some v) × (v.type ≡ type) × (v.name ≡ name)
  pub chain :
      (sc : Scope) × (rest : List Scope) × (st.chain ≡ sc ∷ rest)
      × (u.chain ≡ insert_var name id sc ∷ rest)

-- `place_var` only reads the table.
place_var-After :
    (type : ℕ) (off : Option ℤ) (flag : Bool) (st : Stab)
    → After (λ r u. u ≡ st) (place_var type off flag st)
unfolding place_var
place_var-After type none flag st = returns refl
place_var-After type (some off) flag st =
    After-require (get_elem? st.types type) st _ (λ t e. returns refl)

abbrev new_var : String → ℕ → ℤ → StabVar
new_var name type base = record {
  type = type;
  name = name;
  disp_offset = negsuc 0;
  stack_base_offset = base;
  captured = Bool.false;
}

-- After an index is inserted under a name in the innermost scope, that name means the index and
-- every other name means what it meant.
pub resolve_var-insert :
    {st : Stab} (h : IsStab st) (u : Stab) (sc : Scope) (rest : List Scope) (name : String) (id : ℕ)
    → st.chain ≡ sc ∷ rest
    → u.chain ≡ insert_var name id sc ∷ rest
    → id < resolve_failure
    → (q : String) → stab_resolve_var u q ≡ (if str_eq q name then id else stab_resolve_var st q)
unfolding resolve_in stab_resolve_var
resolve_var-insert {st} h u sc rest name id e e' lt q =
    let s = subst (All (IsScope (length st.vars) (length st.types))) e h.scopes in
    rw (e, e', lookup-Names s.0.vars name q id) (ground arith)

resolve_var-insert_shifts :
    {st : Stab} (h : IsStab st) (u : Stab) (sc : Scope) (rest : List Scope) (name : String)
    → st.chain ≡ sc ∷ rest
    → u.chain ≡ insert_var name (length st.vars) sc ∷ rest
    → length st.vars < length u.vars
    → length u.vars ≤ resolve_failure
    → (q : String) → Shifted st u q
resolve_var-insert_shifts {st} h u sc rest name e e' new fits q =
    let law = resolve_var-insert h u sc rest name (length st.vars) e e' (omega arith) q in
    elim (Bool-cases (str_eq q name)) [
      | inl t ↦ inr (ground arith, ground arith)
      | inr f ↦ inl (rw f at law)
    ]

named_var-AddedVar :
    {st : Stab} (h : IsStab st) (name : String) (type : ℕ) (v : StabVar) (sc : Scope)
    (rest : List Scope)
    → Known (length st.types) type
    → v.type ≡ type
    → v.name ≡ name
    → st.chain ≡ sc ∷ rest
    → AddedVar st name type
        (length st.vars)
        (record st { vars = st.vars ++ v ∷ []; chain = insert_var name (length st.vars) sc ∷ rest })
named_var-AddedVar {st} h name type v sc rest k t n e =
    let l = push_var-Leaves h v (rw t k) in
    let s = subst (All (IsScope (length (st.vars ++ v ∷ [])) (length st.types))) e l.good.scopes in
    let inside : length st.vars < length (st.vars ++ v ∷ []) =
      omega (arith, length-append {0} st.vars (v ∷ [])) in
    record {
      leaves = record {
        good = record {
          scopes = (
            record {
              vars = hash_insert-Names name (length st.vars) s.0.vars (inl inside);
              funcs = s.0.funcs;
              types = s.0.types;
            },
            s.1,
          );
          arena = l.good.arena;
        };
        grows = record {
          vars = l.grows.vars;
          types = l.grows.types;
          keeps_vars = l.grows.keeps_vars;
          keeps_types = l.grows.keeps_types;
        };
        depth = rw e;
        around = rw e;
        shifts = λ fits q. resolve_var-insert_shifts h _ sc rest name e refl inside fits q;
      };
      id_eq = refl;
      inside = inside;
      types = refl;
      var = (v, get_elem?-append_self st.vars v, t, n);
      chain = (sc, rest, e, refl);
    }

pub stab_add_var-After :
    {st : Stab} (h : IsStab st) (name : String) (type : ℕ) (off : Option ℤ) (flag : Bool)
    → Known (length st.types) type
    → After (λ r u. AddedVar st name type r.0 u) (stab_add_var name type off flag st)
unfolding stab_add_var
stab_add_var-After {st} h name type off flag k =
    After-bind (place_var-After type off flag st) (λ r s e. rw e (
      After-bind {P = λ _ u. AddedVar st name type (length st.vars) u}
        (on_innermost-After (insert_var name (length st.vars))
          (record st { vars = st.vars ++ new_var name type r.0 ∷ [] })
          (λ sc rest c.
            named_var-AddedVar h name type (new_var name type r.0) sc rest k refl refl c))
        (λ _ u a. returns a)))
