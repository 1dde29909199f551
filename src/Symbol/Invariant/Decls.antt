-- ===== src/Symbol/Invariant/Decls.antt =====
-- The invariant through the `stab_add_` functions of dragon/symbol.c, and what a declaration
-- leaves behind.
use text.Mathlib.TextPositions.{eq_refl}
use mathlib.Core.Path.{subst}
use cs.Prelude.{
  ℕ, ◌≡◌, refl, ◌∙◌, ◌≤◌, inl, inr, [], ◌∷◌, List, Option, some, String, Bool, length, get_elem?,
  false, not, if◌then◌else◌, arith, Bool-cases, ◌==◌, str_eq, eq_iff,
}
use cs.Prelude.Int.{ℤ}
use cs.Ast.{AstType}
use cs.Exec.{ok}
use cs.Exec.Rules.{
  After, returns, stops, After-bind, After-stop_if, After-mono, After_of_eq, After-intro,
}
use cs.Util.Hash.{hash_lookup}
use cs.Symbol.{
  Scope, Stab, StabVar, stab_resolve_var, resolve_failure, local_in, stab_has_local_var, innermost,
}
use cs.Symbol.Names.{Known, lookup-Names}
use cs.Symbol.Types.{stab_resolve_type}
use cs.Symbol.Decls.{add_names, stab_add_decls}
use cs.Symbol.Invariant.{All, All_map, IsScope, IsStab}
use cs.Symbol.Invariant.Arena.{Leaves, Leaves-refl, Leaves-trans}
use cs.Symbol.Invariant.Vars.{AddedVar, stab_add_var-After, resolve_var-insert}
use cs.Symbol.Invariant.Types.{Resolved, resolve_type-After}

-- The index of a variable that the innermost scope itself declares.
abbrev pub local_var : List Scope → String → ℕ
local_var [] name = resolve_failure
local_var (sc ∷ chain) name = hash_lookup sc.vars name

-- The name means a variable of the type.
pub record Means (u : Stab) (type : ℕ) (name : String) : Type 0 where
  pub var : StabVar
  pub here : get_elem? u.vars (stab_resolve_var u name) ≡ some var
  pub typed : var.type ≡ type

-- No name stands twice.
abbrev pub Distinct : List String → Type 0
Distinct [] = Unit
Distinct (n ∷ names) = All (λ q. str_eq n q ≡ false) names × Distinct names

-- The names were not declared in the innermost scope; now each means a variable of the type, and
-- all other names mean what they meant.
pub record Declared (type : ℕ) (names : List String) (st u : Stab) : Type 0 where
  pub leaves : Leaves st u
  pub new :
      length u.vars ≤ resolve_failure → All (λ n. local_var st.chain n ≡ resolve_failure) names
  pub distinct : length u.vars ≤ resolve_failure → Distinct names
  pub means : length u.vars ≤ resolve_failure → All (Means u type) names
  pub others :
      length u.vars ≤ resolve_failure
      → (q : String) → All (λ n. str_eq q n ≡ false) names
      → stab_resolve_var u q ≡ stab_resolve_var st q

pub has_local_var-After :
    (name : String) (st : Stab)
    → After
        (λ b u. (u ≡ st) × (b ≡ not (local_var st.chain name == resolve_failure)))
        (stab_has_local_var name st)
unfolding stab_has_local_var local_in
has_local_var-After name st = go st.chain
  where
    go :
        (c : List Scope)
        → After
            (λ b u. (u ≡ st) × (b ≡ not (local_var c name == resolve_failure)))
            (local_in (λ sc. sc.vars) name (innermost c) st)
    go [] = stops
    go (sc ∷ chain) = returns (refl, refl)

-- The innermost scope after one more variable.
local_var-AddedVar :
    {st u : Stab} {name : String} {type id : ℕ}
    → IsStab st
    → AddedVar st name type id u
    → (q : String) → local_var u.chain q ≡ (if str_eq q name then id else local_var st.chain q)
local_var-AddedVar {st} {u} {name} {id = id} h a q =
    let (sc, rest, e, e') = a.chain in
    let s = subst (All (IsScope (length st.vars) (length st.types))) e h.scopes in
    rw (e, e') (lookup-Names s.0.vars name q id)

resolve_var-AddedVar :
    {st u : Stab} {name : String} {type id : ℕ}
    → IsStab st
    → AddedVar st name type id u
    → length u.vars ≤ resolve_failure
    → (q : String) → stab_resolve_var u q ≡ (if str_eq q name then id else stab_resolve_var st q)
resolve_var-AddedVar {st} {u} {name} {id = id} h a fits q =
    let (sc, rest, e, e') = a.chain in
    resolve_var-insert h u sc rest name id e e' (omega (arith, a.inside)) q

-- A list of names after its first one.
Declared-cons :
    {st s u : Stab} {type id : ℕ} (var : String) (names : List String)
    → IsStab st
    → local_var st.chain var ≡ resolve_failure
    → AddedVar st var type id s
    → Declared type names s u
    → Declared type (var ∷ names) st u
Declared-cons {st} {s} {u} {type} {id} var names h absent a d = record {
  leaves = Leaves-trans a.leaves d.leaves;
  new = λ fits. (absent, All_map names (λ q e. (before fits q e).1) (d.new fits));
  distinct = λ fits. (distinct_from fits, d.distinct fits);
  means = λ fits. (
    record {
      var = a.var.0;
      here =
          rw
            (
              d.others fits var (distinct_from fits),
              resolves fits var,
              eq_refl var,
              d.leaves.grows.keeps_vars id a.inside,
            )
            (a.var.1);
      typed = a.var.2;
    },
    d.means fits,
  );
  others = λ fits q ne. d.others fits q ne.1 ∙ resolves fits q ∙ rw ne.0;
}
  where
    small : length u.vars ≤ resolve_failure → length s.vars ≤ resolve_failure
    small fits = omega (arith, d.leaves.grows.vars)

    resolves :
        length u.vars ≤ resolve_failure
        → (q : String) → stab_resolve_var s q ≡ (if str_eq q var then id else stab_resolve_var st q)
    resolves fits q = resolve_var-AddedVar h a (small fits) q

    before :
        length u.vars ≤ resolve_failure
        → (q : String) → local_var s.chain q ≡ resolve_failure
        → (str_eq var q ≡ false) × (local_var st.chain q ≡ resolve_failure)
    before fits q e =
        let law = local_var-AddedVar h a q in
        let lt = small fits in
        let inside = a.inside in
        elim (Bool-cases (str_eq q var)) [
          | inl t ↦ absurd (ground arith)
          | inr f ↦ (ground (arith, eq_iff q var, eq_iff var q), ground arith)
        ]

    distinct_from : length u.vars ≤ resolve_failure → All (λ q. str_eq var q ≡ false) names
    distinct_from fits = All_map names (λ q e. (before fits q e).0) (d.new fits)

add_names-After :
    (type : ℕ) (names : List String) (off : Option ℤ) (flag : Bool) (st : Stab)
    → IsStab st
    → Known (length st.types) type
    → After (λ _ u. Declared type names st u) (add_names type names off flag st)
unfolding add_names
add_names-After type [] off flag st h k = returns (record {
  leaves = Leaves-refl h;
  new = λ _. tt;
  distinct = λ _. tt;
  means = λ _. tt;
  others = λ _ q _. refl;
})
add_names-After type (var ∷ names) off flag st h k =
    After-bind (has_local_var-After var st) (λ b s e. After-stop_if b _ s _ (λ f. rw e.0 (
      After-bind (stab_add_var-After h var type off flag k) (λ (id, off') u a.
        After-mono (add_names-After type names off' flag u a.leaves.good (rw a.types k))
          (λ _ w d. Declared-cons var names h (ground arith) a d)))))

-- The type resolved in some table on the way, then the names.
record DeclaredAs (names : List String) (t : AstType) (st u : Stab) : Type 0 where
  type : ℕ
  between : Stab
  eq : stab_resolve_type t "<decls>" st ≡ ok (type, between)
  resolved : Resolved st type between
  declared : Declared type names between u

stab_add_decls-After :
    (names : List String) (t : AstType) (off : Option ℤ) (flag : Bool) (st : Stab)
    → IsStab st
    → After (λ _ u. DeclaredAs names t st u) (stab_add_decls names t off flag st)
unfolding stab_add_decls
stab_add_decls-After names t off flag st h =
    After-bind (After-intro (stab_resolve_type t "<decls>" st) (λ type s eq. eq)) (λ type s eq.
      let r = After_of_eq (resolve_type-After t "<decls>" st h) eq in
      After-mono (add_names-After type names off flag s r.leaves.good r.known)
        (λ _ u d. record { type = type; between = s; eq = eq; resolved = r; declared = d }))

-- What any declaration of names that returns leaves.
pub stab_add_decls-Leaves :
    (names : List String) (t : AstType) (off : Option ℤ) (flag : Bool) (st u : Stab)
    {off' : Option ℤ}
    → IsStab st
    → stab_add_decls names t off flag st ≡ ok (off', u)
    → Leaves st u
stab_add_decls-Leaves names t off flag st u h e =
    let d = After_of_eq (stab_add_decls-After names t off flag st h) e in
    Leaves-trans d.resolved.leaves d.declared.leaves

-- The names stand for variables of the type in the table `u`, were not declared in the innermost
-- scope of `s`, and all other names mean what they mean in `s`.
pub record NamesMean (type : ℕ) (names : List String) (s u : Stab) : Type 0 where
  pub new : All (λ n. local_var s.chain n ≡ resolve_failure) names
  pub distinct : Distinct names
  pub means : All (Means u type) names
  pub others :
      (q : String)
      → All (λ n. str_eq q n ≡ false) names
      → stab_resolve_var u q ≡ stab_resolve_var s q

-- When a declaration of names returns from a well-formed symbol table, with fewer than 2 ^ 64
-- variables made, the table is well formed, its type was resolved, none of the names was declared
-- in the innermost scope then and none stands twice; each name now means a variable of that type,
-- and every other name means what it meant once the type was resolved.
pub stab_add_decls-NamesMean :
    (names : List String) (t : AstType) (off off' : Option ℤ) (flag : Bool) (st u : Stab)
    → IsStab st
    → stab_add_decls names t off flag st ≡ ok (off', u)
    → length u.vars ≤ resolve_failure
    → IsStab u
      × (type : ℕ) × (s : Stab) × (stab_resolve_type t "<decls>" st ≡ ok (type, s))
      × NamesMean type names s u
stab_add_decls-NamesMean names t off off' flag st u h e fits =
    let d = After_of_eq (stab_add_decls-After names t off flag st h) e in
    (
      d.declared.leaves.good,
      d.type,
      d.between,
      d.eq,
      record {
        new = d.declared.new fits;
        distinct = d.declared.distinct fits;
        means = d.declared.means fits;
        others = d.declared.others fits;
      },
    )
