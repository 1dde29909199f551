-- ===== src/Analysis/Accepts/Paths.antt =====
-- Paths of one name, for which `type_of_path` of dragon/analysis.c is known to return.
use mathlib.Core.Option.{map}
use cs.Prelude.{
  ℕ, ◌≡◌, ◌≢◌, refl, ap, ◌∙◌, ◌<◌, ◌≤◌, inl, inr, Bool, true, false, List, [], ◌∷◌, some, length,
  get_elem?-set_self, lt-length_of_get, get_elem?, String, ◌==◌, Option-cases, Bool-cases, arith,
}
use cs.Ast.{ast_path}
use cs.Exec.Total.{returns, Returns-stop_if}
use cs.Symbol.{
  Scope, Stab, StabVar, StabType, stab_has_local_var, stab_resolve_var, resolve_in, resolve_failure,
}
use cs.Analysis.{Acx, on_stab}
use cs.Analysis.Paths.{load_address, load_value, type_of_path}
use cs.Analysis.Keeps.{Keeps, Keeps-trans}
use cs.Analysis.Silent.{on_stab-Silent}
use cs.Analysis.Keeps.Reads.{has_local_var-Reads}
use cs.Analysis.Silent.Paths.{load_address-Silent, load_value-Silent}
use cs.Analysis.Typing.{env_of}
use cs.Analysis.Accepts.Pieces.{
  Ready, Named, Any, Goes, Ends, goes_then, goes_silent, gives, gimme-Goes,
}

-- A variable with a type that is known.
pub var_at :
    (st : Stab) (id : ℕ) {t : ℕ}
    → map (λ (v : StabVar). v.type) (get_elem? st.vars id) ≡ some t
    → (v : StabVar) × (get_elem? st.vars id ≡ some v) × (v.type ≡ t)
var_at st id h = elim (Option-cases (get_elem? st.vars id)) [
  | inl e ↦ absurd (ground arith)
  | inr (v, e) ↦ (v, e, ground arith)
]

chain_of_found :
    (name : String) (chain : List Scope)
    → resolve_in (λ sc. sc.vars) name chain ≢ resolve_failure
    → (sc : Scope) × (rest : List Scope) × (chain ≡ sc ∷ rest)
unfolding resolve_in
chain_of_found name [] h = absurd (h refl)
chain_of_found name (sc ∷ chain) h = (sc, chain, refl)

has_local-Ends :
    (name : String) (a : Acx)
    → stab_resolve_var a.st name ≢ resolve_failure
    → Ends (on_stab (stab_has_local_var name)) a
unfolding stab_resolve_var stab_has_local_var
has_local-Ends name a h = let (sc, rest, e) = chain_of_found name a.st.chain h in rw e (returns tt)

address-Ends :
    (here : Bool) (id : ℕ) (reg : String) (a : Acx) {v : StabVar}
    → get_elem? a.st.vars id ≡ some v
    → Ends (load_address here id reg) a
unfolding load_address
address-Ends true id reg a e = rw e (returns tt)
address-Ends false id reg a {v} e = elim (Bool-cases v.captured) [
  | inl c ↦ rw (e, c, e) (returns tt)
  | inr c ↦
      rw (e, c, get_elem?-set_self a.st.vars id _ (lt-length_of_get a.st.vars id e)) (returns tt)
]

resolve_later :
    {a b : Acx} (name : String)
    → Keeps a b
    → stab_resolve_var b.st name ≡ stab_resolve_var a.st name
unfolding stab_resolve_var
resolve_later name k = ap (resolve_in (λ sc. sc.vars) name) k.chain

value-Ends : (b : Bool) (reg : String) (a : Acx) → Ends (load_value b reg) a
value-Ends true reg a = returns tt
value-Ends false reg a = returns tt

pub type_later :
    {a b : Acx} (t : ℕ) {ty : StabType}
    → Keeps a b
    → get_elem? a.st.types t ≡ some ty
    → get_elem? b.st.types t ≡ some ty
type_later t k e = ap (λ ts. get_elem? ts t) k.types ∙ e

-- Where an index of the arena is found, it is not that of a failure.
pub not_failure : (i n : ℕ) → i < n → n ≤ resolve_failure → (i == resolve_failure) ≡ false
not_failure i n lt fits = ground arith

pub path-Goes :
    (name : String) (b : Bool) (a : Acx) {t : ℕ} {ty : StabType}
    → Ready a
    → (env_of a.st).var name ≡ some t
    → (env_of a.st).type t ≡ some ty
    → Goes (λ r. (r.type ≡ t) × Named r.reg) (type_of_path (ast_path name) b) a
unfolding type_of_path ast_path
path-Goes name b a {t} {ty} ready is_var known =
    let id = stab_resolve_var a.st name in
    let (v, at, is_t) = var_at a.st id is_var in
    let lt = lt-length_of_get a.st.vars id at in
    Returns-stop_if (id == resolve_failure) _ a _ (not_failure id _ lt ready.vars) (
      goes_then (gimme-Goes a ready) (λ reg s₁ low ready₁ k₁.
        let resolves : stab_resolve_var s₁.st name ≢ resolve_failure = λ e.
          let same = resolve_later name k₁ in absurd (omega (arith, lt, ready.vars, e, same)) in
        goes_then {P = Any}
          (goes_silent (on_stab-Silent (has_local_var-Reads name)) ready₁
            (has_local-Ends name s₁ resolves))
          (λ here s₂ _ ready₂ k₂.
            let k : Keeps a s₂ = Keeps-trans k₁ k₂ in
            let (v₂, at₂, _) = var_at s₂.st id (k.var_types id ∙ is_var) in
            goes_then {P = Any}
              (goes_silent (load_address-Silent here id reg.name) ready₂
                (address-Ends here id reg.name s₂ at₂))
              (λ _ s₃ _ ready₃ k₃.
                let k' : Keeps a s₃ = Keeps-trans k k₃ in
                let (v₃, at₃, is_t₃) = var_at s₃.st id (k'.var_types id ∙ is_var) in
                let known₃ : get_elem? s₃.st.types v₃.type ≡ some ty =
                  rw is_t₃ (type_later t k' known) in
                rw (at₃, known₃)
                  (goes_then {P = Any}
                    (goes_silent (load_value-Silent b reg.name) ready₃ (value-Ends b reg.name s₃))
                    (λ _ s₄ _ ready₄ k₄. gives ready₄ (is_t₃, low)))))))

-- A scope that the variable may be found in.
pub chain_of_var :
    (name : String) (st : Stab) {t : ℕ}
    → length st.vars ≤ resolve_failure
    → (env_of st).var name ≡ some t
    → (sc : Scope) × (rest : List Scope) × (st.chain ≡ sc ∷ rest)
unfolding stab_resolve_var
chain_of_var name st fits is_var =
    let (v, at, _) = var_at st (stab_resolve_var st name) is_var in
    let lt = lt-length_of_get st.vars (stab_resolve_var st name) at in
    chain_of_found name st.chain (λ e. absurd (omega (arith, e, lt, fits)))
