-- ===== src/Symbol/Invariant.antt =====
-- What holds of the symbol table between any two operations: the tables of the scopes are valid,
-- and every index that is stored anywhere is in range or marks a failed resolution.
pub mod Arena
pub mod Types
pub mod Vars
pub mod Decls
pub mod Subprograms
pub mod Magic
use mathlib.Core.Path.{subst}
use cs.Prelude.{
  ℕ, zero, suc, ◌+◌, ◌≡◌, refl, ◌<◌, ◌≤◌, ◌⊎◌, inl, inr, List, [], ◌∷◌, ◌++◌, Option, none, some,
  String, length, get_elem?, length-append, arith,
}
use cs.Exec.{Result, ok, stop}
use cs.Symbol.{
  Scope, Stab, StabType, StabVar, ResolvedType, array, func, pointer, record_of, stab_new,
  stab_scope_new, stab_enter, stab_leave, leave_chain, after_leave, resolve_failure,
}
use cs.Symbol.Names.{Known, Names, Known-mono, Names-mono, hash_new-Names}

abbrev pub All {ℓ κ} : {A : Type ℓ} → (A → Type κ) → List A → Type κ
All P [] = Unit
All P (x ∷ xs) = P x × All P xs

pub All-append {ℓ κ} :
    {A : Type ℓ} (P : A → Type κ) (xs ys : List A) → All P xs → All P ys → All P (xs ++ ys)
All-append P [] ys h k = k
All-append P (x ∷ xs) ys h k = (h.0, All-append P xs ys h.1 k)

pub All_map {ℓ κ μ} :
    {A : Type ℓ} {P : A → Type κ} {Q : A → Type μ} (xs : List A)
    → ((a : A) → P a → Q a)
    → All P xs
    → All Q xs
All_map [] f h = tt
All_map (x ∷ xs) f h = (f x h.0, All_map xs f h.1)

-- What a type at index `i` refers to: older types, and variables below `nv`.
abbrev pub Refs : ℕ → ℕ → ResolvedType → Type 0
Refs i nv (array lower upper elt) = Known i elt
Refs i nv (func kind args retty) = All (λ a. a < nv) args × Known i retty
Refs i nv (pointer p) = Known i p
Refs i nv (record_of fields) = All (λ (f : String × ℕ). Known i f.1) fields
Refs i nv _ = Unit

pub record IsScope (nv nt : ℕ) (sc : Scope) : Type 0 where
  pub vars : Names nv sc.vars
  pub funcs : Names nt sc.funcs
  pub types : Names nt sc.types

-- The arenas alone.
pub record IsArena (vars : List StabVar) (types : List StabType) : Type 0 where
  pub builtins : 6 ≤ length types
  pub refs : (i : ℕ) (t : StabType) → get_elem? types i ≡ some t → Refs i (length vars) t.ty
  pub var_types : (i : ℕ) (v : StabVar) → get_elem? vars i ≡ some v → Known (length types) v.type

pub record IsStab (st : Stab) : Type 0 where
  pub scopes : All (IsScope (length st.vars) (length st.types)) st.chain
  pub arena : IsArena st.vars st.types

pub IsScope-mono :
    {nv nt nv' nt' : ℕ} {sc : Scope} → nv ≤ nv' → nt ≤ nt' → IsScope nv nt sc → IsScope nv' nt' sc
IsScope-mono h k s = record {
  vars = Names-mono h s.vars;
  funcs = Names-mono k s.funcs;
  types = Names-mono k s.types;
}

pub Refs_mono : (i : ℕ) {nv nv' : ℕ} (ty : ResolvedType) → nv ≤ nv' → Refs i nv ty → Refs i nv' ty
Refs_mono i (array lower upper elt) h r = r
Refs_mono i (func kind args retty) h r = (All_map args (λ a lt. omega arith) r.0, r.1)
Refs_mono i (pointer p) h r = r
Refs_mono i (record_of fields) h r = r
Refs_mono i _ h r = r

stab_scope_new-IsScope : (nv nt : ℕ) → IsScope nv nt stab_scope_new
unfolding stab_scope_new
stab_scope_new-IsScope nv nt = record {
  vars = hash_new-Names nv _;
  funcs = hash_new-Names nt _;
  types = hash_new-Names nt _;
}

-- The empty symbol table, and entering and leaving a scope.
pub stab_new-IsStab : IsStab stab_new
unfolding stab_new
stab_new-IsStab = record {
  scopes = tt;
  arena = record { builtins = omega arith; refs = basic; var_types = λ i v h. cc };
}
  where
    moved : (x t : StabType) (i : ℕ) → some x ≡ some t → Refs i 0 x.ty → Refs i 0 t.ty
    moved x t i h r = let same : x ≡ t = cc in subst (λ (y : StabType). Refs i 0 y.ty) same r

    basic : (i : ℕ) (t : StabType) → get_elem? stab_new.types i ≡ some t → Refs i 0 t.ty
    basic zero t h = moved _ t 0 h tt
    basic (suc zero) t h = moved _ t 1 h tt
    basic (suc (suc zero)) t h = moved _ t 2 h tt
    basic (suc (suc (suc zero))) t h = moved _ t 3 h tt
    basic (suc (suc (suc (suc zero)))) t h = moved _ t 4 h tt
    basic (suc (suc (suc (suc (suc zero))))) t h = moved _ t 5 h tt
    basic (suc (suc (suc (suc (suc (suc i)))))) t h = cc

pub stab_enter-IsStab : {st : Stab} → IsStab st → IsStab (stab_enter st)
unfolding stab_enter
stab_enter-IsStab {st} h = record {
  scopes = (stab_scope_new-IsScope (length st.vars) (length st.types), h.scopes);
  arena = h.arena;
}

pub stab_leave-IsStab : {st u : Stab} → IsStab st → stab_leave st ≡ ok (tt, u) → IsStab u
unfolding stab_leave
stab_leave-IsStab {st} {u} h e = go st.chain h.scopes e
  where
    go :
        (chain : List Scope)
        → All (IsScope (length st.vars) (length st.types)) chain
        → after_leave st (leave_chain chain) ≡ ok (tt, u)
        → IsStab u
    go [] a e = cc
    go (sc ∷ []) a e = cc
    go (sc ∷ sc' ∷ chain) a e =
        let same : record st { chain = sc' ∷ chain } ≡ u = cc in
        subst IsStab same (record { scopes = a.1; arena = h.arena })
