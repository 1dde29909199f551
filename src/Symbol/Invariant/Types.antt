-- ===== src/Symbol/Invariant/Types.antt =====
-- The invariant through the `stab_resolve_type` functions of dragon/symbol.c.
use text.Mathlib.TextPositions.{eq_refl}
use cs.Prelude.{
  ℕ, ◌≡◌, refl, ◌<◌, ◌≤◌, inl, inr, [], ◌∷◌, ◌++◌, List, none, String, Bool, length, get_elem?,
  length-append, true, false, if◌then◌else◌, arith, ltb, ◌^◌, Bool-cases, ◌==◌, ap, sym, ◌∙◌, some,
  lt-length_of_get,
}
use cs.Ast.{AstType, DeclsList, no_decls, decls, RecordFields, no_fields, field}
use cs.Exec.{pure, undefined, halt, aborted, ok}
use cs.Exec.Rules.{After, returns, stops, After-bind, After-require, After_of_eq, After-intro}
use cs.Util.Hash.{HashTable, hash_lookup}
use cs.Symbol.{
  Scope, Stab, StabType, StabVar, ResolvedType, array, func, pointer, record_of, resolve_in,
  stab_resolve_type_name, stab_resolve_var, resolve_failure,
}
use cs.Symbol.Names.{Known, Names, Known-mono}
use cs.Symbol.Types.{
  stab_resolve_type, resolve_fields, resolve_args, add_parameters, stab_resolve_complex_type,
  new_type, is_complex, int_bound, atoi,
}
use cs.Symbol.Invariant.{All, All-append, All_map, Refs, IsScope, IsStab}
use cs.Symbol.Invariant.Arena.{Grows, Shifted, Leaves, Leaves-refl, Leaves-trans, append-Leaves}
use cs.Symbol.Invariant.Vars.{AddedVar, resolve_var-insert, stab_add_var-After}

-- What a resolution left, and its index.
pub record Resolved (st : Stab) (id : ℕ) (u : Stab) : Type 0 where
  pub leaves : Leaves st u
  pub known : Known (length u.types) id

pub record ResolvedFields (st : Stab) (fields : List (String × ℕ)) (u : Stab) : Type 0 where
  pub leaves : Leaves st u
  pub known : All (λ (f : String × ℕ). Known (length u.types) f.1) fields

-- The name means a variable that was not there before.
abbrev pub Fresh : Stab → Stab → String → Type 0
Fresh s t q = (length s.vars ≤ stab_resolve_var t q) × (stab_resolve_var t q < length t.vars)

-- Lists of the same length whose elements are related in order.
abbrev pub Matched : {A : Type 0} → (A → ℕ → Type 0) → List A → List ℕ → Type 0
Matched R [] [] = Unit
Matched R (p ∷ ps) (id ∷ ids) = R p id × Matched R ps ids
Matched R _ _ = ⊥

-- The variable of a declared parameter, made between `st` and `u`: it has its name, and the type is
-- what the declared type resolved to on the way.
abbrev pub Parameter : Stab → Stab → String × AstType → ℕ → Type 0
Parameter st u (q, t) id =
    (v : StabVar) × (s : Stab) × (r : Stab) × Leaves st s
    × Leaves r u
    × (get_elem? u.vars id ≡ some v)
    × (v.name ≡ q)
    × (stab_resolve_type t q s ≡ ok (v.type, r))

-- The names of one declaration, each with its type.
abbrev pub with_type : AstType → List String → List (String × AstType)
with_type t [] = []
with_type t (name ∷ names) = (name, t) ∷ with_type t names

-- The declared parameters.
abbrev pub declared_parameters : DeclsList → List (String × AstType)
declared_parameters no_decls = []
declared_parameters (decls names t ds) = with_type t names ++ declared_parameters ds

-- The parameters are entered as new variables, and their names mean these.
pub record ResolvedArgs (names : List String) (ps : List (String × AstType)) (st : Stab)
    (ids : List ℕ) (u : Stab) : Type 0 where
  pub leaves : Leaves st u
  pub entered : Matched (Parameter st u) ps ids
  pub known : All (λ id. id < length u.vars) ids
  pub fresh : length u.vars ≤ resolve_failure → All (Fresh st u) names

-- The names of a parameter list.
abbrev pub parameter_names : DeclsList → List String
parameter_names no_decls = []
parameter_names (decls names t ds) = names ++ parameter_names ds

-- A name that means a new variable still means one after more operations.
pub Fresh_later :
    {s t u : Stab} (q : String)
    → Leaves s t
    → Leaves t u
    → length u.vars ≤ resolve_failure
    → Fresh s t q
    → Fresh s u q
Fresh_later {s} {t} {u} q g h fits f = go (h.shifts fits q)
  where
    go : Shifted t u q → Fresh s u q
    go (inl e) = (omega (arith, e), omega (arith, e, h.grows.vars))
    go (inr k) = (omega (arith, g.grows.vars), k.1)

-- An index that is found in a chain of scopes is known.
pub resolve_in-Known :
    {nv nt n : ℕ} (table : Scope → HashTable String) (name : String) (chain : List Scope)
    → ((sc : Scope) → IsScope nv nt sc → Names n (table sc))
    → All (IsScope nv nt) chain
    → Known n (resolve_in table name chain)
unfolding resolve_in
resolve_in-Known table name [] names h = inr refl
resolve_in-Known {n = n} table name (sc ∷ chain) names h =
    elim (Bool-cases (hash_lookup (table sc) name == resolve_failure)) [
      | inl e ↦ rw e (resolve_in-Known table name chain names h.1)
      | inr e ↦ rw e ((names sc h.0).ids name)
    ]

-- A new type whose parts were resolved last.
new_type-Resolved :
    {st s : Stab} (name : String) (ty : ResolvedType) (size align : ℕ)
    → Leaves st s
    → Refs (length s.types) (length s.vars) ty
    → Resolved st
        (length s.types)
        (record s { types = s.types ++ new_type name ty size align ∷ [] })
new_type-Resolved {st} {s} name ty size align l r =
    let t : StabType = new_type name ty size align in
    record {
      leaves = Leaves-trans l (append-Leaves l.good t r);
      known = inl (omega (arith, length-append {0} s.types (t ∷ [])));
    }

Fresh_before : {s t : Stab} (u : Stab) (q : String) → Leaves s t → Fresh t u q → Fresh s u q
Fresh_before u q g f = (omega (arith, g.grows.vars), f.1)

AddedVar-Fresh :
    {s t u : Stab} {name : String} {type id : ℕ}
    → Leaves s t
    → AddedVar t name type id u
    → length u.vars ≤ resolve_failure
    → Fresh s u name
AddedVar-Fresh {u = u} {name = name} {id = id} g a fits =
    let (sc, rest, e, e') = a.chain in
    let law = resolve_var-insert g.good u sc rest name id e e' (omega (arith, a.inside)) name in
    let means : stab_resolve_var u name ≡ id = rw (eq_refl name) at law in
    (omega (arith, means, a.id_eq, g.grows.vars), omega (arith, means, a.inside))

Matched-append :
    {A : Type 0} (R : A → ℕ → Type 0) (ps qs : List A) (ids more : List ℕ)
    → Matched R ps ids
    → Matched R qs more
    → Matched R (ps ++ qs) (ids ++ more)
Matched-append R [] qs [] more h k = k
Matched-append R [] qs (id ∷ ids) more h k = absurd h
Matched-append R (p ∷ ps) qs [] more h k = absurd h
Matched-append R (p ∷ ps) qs (id ∷ ids) more h k = (h.0, Matched-append R ps qs ids more h.1 k)

Matched_map :
    {A : Type 0} (R S : A → ℕ → Type 0) (ps : List A) (ids : List ℕ)
    → ((p : A) (id : ℕ) → R p id → S p id)
    → Matched R ps ids
    → Matched S ps ids
Matched_map R S [] [] f h = tt
Matched_map R S [] (id ∷ ids) f h = absurd h
Matched_map R S (p ∷ ps) [] f h = absurd h
Matched_map R S (p ∷ ps) (id ∷ ids) f h = (f p id h.0, Matched_map R S ps ids f h.1)

-- Between two tables that lie further apart.
pub Parameters_within :
    {st s u w : Stab} (ps : List (String × AstType)) (ids : List ℕ)
    → Leaves st s
    → Leaves u w
    → Matched (Parameter s u) ps ids
    → Matched (Parameter st w) ps ids
Parameters_within {st} {s} {u} {w} ps ids before after =
    Matched_map (Parameter s u) (Parameter st w) ps ids
      (λ p id (v, x, y, from, to, e, is_name, is_type). (
        v,
        x,
        y,
        Leaves-trans before from,
        Leaves-trans to after,
        after.grows.keeps_vars id (lt-length_of_get u.vars id e) ∙ e,
        is_name,
        is_type,
      ))

add_parameters-After :
    (t : AstType)
    → ((name : String) (st : Stab) → IsStab st → After (Resolved st) (stab_resolve_type t name st))
    → (names : List String) (st : Stab) → IsStab st
    → After
        (ResolvedArgs names (with_type t names) st)
        (add_parameters (stab_resolve_type t) names st)
unfolding add_parameters
add_parameters-After t each [] st h =
    returns (record { leaves = Leaves-refl h; entered = tt; known = tt; fresh = λ _. tt })
add_parameters-After t each (name ∷ names) st h =
    After-bind (After-intro (stab_resolve_type t name st) (λ type s e. e)) (λ type s e.
      let r = After_of_eq (each name st h) e in
      After-bind (stab_add_var-After r.leaves.good name type none false r.known) (λ (id, off) u a.
        After-bind (add_parameters-After t each names u a.leaves.good) (λ ids w more.
          returns (record {
            leaves = Leaves-trans r.leaves (Leaves-trans a.leaves more.leaves);
            entered =
                let (v, here, is_type, is_name) = a.var in
                let before = Leaves-trans r.leaves a.leaves in
                (
                  (
                    v,
                    st,
                    s,
                    Leaves-refl h,
                    Leaves-trans a.leaves more.leaves,
                    more.leaves.grows.keeps_vars id a.inside ∙ here,
                    is_name,
                    e ∙ ap (λ n. ok (n, s)) (sym is_type),
                  ),
                  Parameters_within (with_type t names) ids before (Leaves-refl more.leaves.good)
                      more.entered,
                );
            known = (omega (arith, a.inside, more.leaves.grows.vars), more.known);
            fresh = λ fits. (
              Fresh_later name (Leaves-trans r.leaves a.leaves) more.leaves fits
                  (AddedVar-Fresh r.leaves a (omega (arith, more.leaves.grows.vars))),
              All_map names (λ q f. Fresh_before w q (Leaves-trans r.leaves a.leaves) f)
                  (more.fresh fits),
            );
          }))))

int_bound-After : (s : String) (st : Stab) → After (λ _ u. u ≡ st) (int_bound s st)
unfolding int_bound
int_bound-After s st = go (ltb (atoi s) (2 ^ 31))
  where
    go : (b : Bool) → After (λ _ u. u ≡ st) ((if b then pure (atoi s) else halt undefined) st)
    go true = returns refl
    go false = stops

mutual
  unfolding stab_resolve_type stab_resolve_type_name

  pub resolve_type-After :
      (t : AstType) (name : String) (st : Stab)
      → IsStab st
      → After (Resolved st) (stab_resolve_type t name st)
  resolve_type-After (AstType.ref r) name st h = returns (record {
    leaves = Leaves-refl h;
    known = resolve_in-Known (λ sc. sc.types) r st.chain (λ sc s. s.types) h.scopes;
  })
  resolve_type-After (AstType.pointer t) name st h =
      After-bind (resolve_type-After t name st h)
        (λ p s r. returns (new_type-Resolved name (pointer p) 8 8 r.leaves r.known))
  resolve_type-After (AstType.record_of fs) name st h =
      After-bind (resolve_fields-After fs st h)
        (λ fields s r. returns (new_type-Resolved name (record_of fields) 0 0 r.leaves r.known))
  resolve_type-After (AstType.array lower upper t) name st h =
      After-bind (int_bound-After lower st) (λ lo x same.
        After-bind (int_bound-After upper x) (λ hi y also.
          rw (also, same)
            (After-bind (resolve_type-After t "<array elts>" st h) (λ elt s r.
              After-require (get_elem? s.types elt) s _ (λ et e.
                returns (new_type-Resolved name (array lo hi elt) _ 0 r.leaves r.known))))))
  resolve_type-After (AstType.func kind ds ret) name st h =
      After-bind (resolve_type-After ret "<func ret>" st h) (λ retty s r.
        After-bind (resolve_args-After ds s r.leaves.good) (λ args u a. returns (
          new_type-Resolved name (func kind args retty) 16 16 (Leaves-trans r.leaves a.leaves)
            (a.known, Known-mono a.leaves.grows.types r.known))))
  resolve_type-After _ name st h =
      returns (record { leaves = Leaves-refl h; known = inl (omega (arith, h.arena.builtins)) })

  resolve_fields-After :
      (fs : RecordFields) (st : Stab) → IsStab st → After (ResolvedFields st) (resolve_fields fs st)
  resolve_fields-After no_fields st h = returns (record { leaves = Leaves-refl h; known = tt })
  resolve_fields-After (field name t fs) st h =
      After-bind (resolve_type-After t name st h) (λ id s r.
        After-bind (resolve_fields-After fs s r.leaves.good) (λ rest u m. returns (record {
          leaves = Leaves-trans r.leaves m.leaves;
          known = (Known-mono m.leaves.grows.types r.known, m.known);
        })))

  pub resolve_args-After :
      (ds : DeclsList) (st : Stab)
      → IsStab st
      → After (ResolvedArgs (parameter_names ds) (declared_parameters ds) st) (resolve_args ds st)
  resolve_args-After no_decls st h =
      returns (record { leaves = Leaves-refl h; entered = tt; known = tt; fresh = λ _. tt })
  resolve_args-After (decls names t ds) st h =
      After-bind (add_parameters-After t (resolve_type-After t) names st h) (λ ids s r.
        After-bind (resolve_args-After ds s r.leaves.good) (λ more u m. returns (record {
          leaves = Leaves-trans r.leaves m.leaves;
          entered =
              Matched-append (Parameter st u) (with_type t names) (declared_parameters ds) ids more
                (Parameters_within (with_type t names) ids (Leaves-refl h) m.leaves r.entered)
                (Parameters_within (declared_parameters ds) more r.leaves
                  (Leaves-refl m.leaves.good) m.entered);
          known =
              All-append (λ id. id < length u.vars) ids more
                (All_map ids (λ a lt. omega (arith, m.leaves.grows.vars)) r.known) m.known;
          fresh = λ fits.
              All-append (Fresh st u) names (parameter_names ds)
                (All_map names (λ q f. Fresh_later q r.leaves m.leaves fits f)
                  (r.fresh (omega (arith, m.leaves.grows.vars))))
                (All_map (parameter_names ds) (λ q f. Fresh_before u q r.leaves f) (m.fresh fits));
        })))

-- When resolving a type returns from a well-formed symbol table, the table is well formed, what the
-- arenas held they still hold, and the index is that of a type that is there or of a failed
-- resolution.
pub stab_resolve_type-IsStab :
    (t : AstType) (name : String) (st u : Stab) (id : ℕ)
    → IsStab st
    → stab_resolve_type t name st ≡ ok (id, u)
    → IsStab u × Grows st u × Known (length u.types) id
stab_resolve_type-IsStab t name st u id h e =
    let r = After_of_eq (resolve_type-After t name st h) e in
    (r.leaves.good, r.leaves.grows, r.known)

pub stab_resolve_complex_type-After :
    (name : String) (t : AstType) (st : Stab)
    → IsStab st
    → After (Resolved st) (stab_resolve_complex_type name t st)
unfolding stab_resolve_complex_type
stab_resolve_complex_type-After name t st h =
    if_After (is_complex t) (resolve_type-After t name st h)
  where
    if_After :
        (b : Bool)
        → After (Resolved st) (stab_resolve_type t name st)
        → After (Resolved st) ((if b then stab_resolve_type t name else halt aborted) st)
    if_After true k = k
    if_After false k = stops
