-- ===== src/Symbol/Invariant/Subprograms.antt =====
-- The invariant through `stab_add_func` and `stab_add_type` of
-- dragon/symbol.c, and where the parameters of a subprogram are entered.
use mathlib.Core.Path.{subst}
use text.Mathlib.TextPositions.{eq_refl}
use cs.Prelude.{
  not, ℕ, ◌≡◌, ◌≢◌, refl, sym, ◌∙◌, ◌<◌, ◌≤◌, inl, inr, [], ◌∷◌, List, Option, none, some, String,
  length, get_elem?, arith, length-append, get_elem?-append_self,
}
use cs.Ast.{AstType, Subprogs, DeclsList}
use cs.Exec.{Result, ok}
use cs.Exec.Rules.{After, returns, stops, After-bind, After-stop_if, After_of_eq, After-intro}
use cs.Util.Hash.{HashTable}
use cs.Symbol.{
  Scope, Stab, StabType, func, insert_func, insert_type, stab_resolve_var, stab_resolve_func,
  stab_resolve_type_name, resolve_in, resolve_failure, local_in, stab_has_local_func,
  stab_has_local_type, innermost,
}
use cs.Symbol.Names.{Known, Known-mono, lookup-Names, hash_insert-Names}
use cs.Symbol.Types.{is_complex, stab_resolve_type, stab_resolve_complex_type, new_type}
use cs.Symbol.Decls.{stab_add_func, stab_add_type}
use cs.Symbol.Invariant.{All, All_map, IsScope, IsStab}
use cs.Symbol.Invariant.Arena.{
  Grows, Leaves, Leaves-refl, Leaves-trans, append-Leaves, on_innermost-After,
}
use cs.Symbol.Invariant.Types.{
  resolve_type-After, resolve_args-After, Fresh, Fresh_later, parameter_names, resolve_in-Known,
  Matched, Parameter, Parameters_within, declared_parameters,
}

-- The innermost scope changed in a table other than that of the variables.
rescoped-Leaves :
    {st : Stab} (h : IsStab st) (sc sc' : Scope) (rest : List Scope)
    → st.chain ≡ sc ∷ rest
    → sc'.vars ≡ sc.vars
    → IsScope (length st.vars) (length st.types) sc'
    → Leaves st (record st { chain = sc' ∷ rest })
rescoped-Leaves {st} h sc sc' rest e v ok' = record {
  good = record {
    scopes = (ok', (subst (All (IsScope (length st.vars) (length st.types))) e h.scopes).1);
    arena = h.arena;
  };
  grows = record {
    vars = omega arith;
    types = omega arith;
    keeps_vars = λ i lt. refl;
    keeps_types = λ i lt. refl;
  };
  depth = rw e;
  around = rw e;
  shifts = λ fits q. inl (unfold stab_resolve_var resolve_in in rw (e, v));
}

pub insert_func-Leaves :
    {st : Stab} (h : IsStab st) (sc : Scope) (rest : List Scope) (name : String) (id : ℕ)
    → st.chain ≡ sc ∷ rest
    → Known (length st.types) id
    → Leaves st (record st { chain = insert_func name id sc ∷ rest })
insert_func-Leaves {st} h sc rest name id e k =
    let s = (subst (All (IsScope (length st.vars) (length st.types))) e h.scopes).0 in
    rescoped-Leaves h sc (insert_func name id sc) rest e refl
      (record { vars = s.vars; funcs = hash_insert-Names name id s.funcs k; types = s.types })

insert_type-Leaves :
    {st : Stab} (h : IsStab st) (sc : Scope) (rest : List Scope) (name : String) (id : ℕ)
    → st.chain ≡ sc ∷ rest
    → Known (length st.types) id
    → Leaves st (record st { chain = insert_type name id sc ∷ rest })
insert_type-Leaves {st} h sc rest name id e k =
    let s = (subst (All (IsScope (length st.vars) (length st.types))) e h.scopes).0 in
    rescoped-Leaves h sc (insert_type name id sc) rest e refl
      (record { vars = s.vars; funcs = s.funcs; types = hash_insert-Names name id s.types k })

pub resolve_func-insert :
    {st : Stab} (h : IsStab st) (sc : Scope) (rest : List Scope) (name : String) (id : ℕ)
    → st.chain ≡ sc ∷ rest
    → id < resolve_failure
    → stab_resolve_func (record st { chain = insert_func name id sc ∷ rest }) name ≡ id
unfolding resolve_in stab_resolve_func
resolve_func-insert {st} h sc rest name id e lt =
    let s = subst (All (IsScope (length st.vars) (length st.types))) e h.scopes in
    rw (lookup-Names s.0.funcs name name id, eq_refl name) (ground arith)

-- A subprogram was declared: its name means its type, and every one of its parameters was entered
-- as a new variable into the scope that declares the subprogram.
pub record AddedFunc (name : String) (kind : Subprogs) (ds : DeclsList) (ret : AstType)
    (st u : Stab) : Type 0 where
  pub leaves : Leaves st u
  parameters : length u.vars ≤ resolve_failure → All (Fresh st u) (parameter_names ds)
  args : List ℕ
  retty : ℕ
  type : StabType
  is_func : type.ty ≡ func kind args retty
  means :
      length u.types ≤ resolve_failure → get_elem? u.types (stab_resolve_func u name) ≡ some type
  retty_eq : (s : Stab) × (stab_resolve_type ret "<func ret>" st ≡ ok (retty, s))
  entered : Matched (Parameter st u) (declared_parameters ds) args

-- The type of a subprogram, resolved.
record ResolvedFunc (kind : Subprogs) (ds : DeclsList) (ret : AstType) (st : Stab) (id : ℕ)
    (u : Stab) : Type 0 where
  leaves : Leaves st u
  parameters : length u.vars ≤ resolve_failure → All (Fresh st u) (parameter_names ds)
  args : List ℕ
  retty : ℕ
  type : StabType
  is_func : type.ty ≡ func kind args retty
  here : get_elem? u.types id ≡ some type
  inside : id < length u.types
  retty_eq : (s : Stab) × (stab_resolve_type ret "<func ret>" st ≡ ok (retty, s))
  entered : Matched (Parameter st u) (declared_parameters ds) args

resolve_func-After :
    (kind : Subprogs) (ds : DeclsList) (ret : AstType) (name : String) (st : Stab)
    → IsStab st
    → After
        (ResolvedFunc kind ds ret st)
        (stab_resolve_complex_type name (AstType.func kind ds ret) st)
unfolding stab_resolve_complex_type stab_resolve_type
resolve_func-After kind ds ret name st h =
    After-bind (After-intro (stab_resolve_type ret "<func ret>" st) (λ retty s e. e)) (λ retty s e.
      let r = After_of_eq (resolve_type-After ret "<func ret>" st h) e in
      After-bind (resolve_args-After ds s r.leaves.good) (λ args u a.
        let t : StabType = new_type name (func kind args retty) 16 16 in
        let l = append-Leaves a.leaves.good t (a.known, Known-mono a.leaves.grows.types r.known) in
        returns (record {
          leaves = Leaves-trans r.leaves (Leaves-trans a.leaves l);
          parameters = λ fits.
              All_map (parameter_names ds)
                (λ q f.
                  Fresh_later q (Leaves-trans r.leaves a.leaves) l fits
                    (omega (arith, r.leaves.grows.vars), omega arith))
                (a.fresh fits);
          args = args;
          retty = retty;
          type = t;
          is_func = refl;
          here = get_elem?-append_self u.types t;
          inside = omega (arith, length-append {0} u.types (t ∷ []));
          retty_eq = (s, e);
          entered = Parameters_within (declared_parameters ds) args r.leaves l a.entered;
        })))

local_in-After :
    (table : Scope → HashTable String) (name : String) (o : Option Scope) (st : Stab)
    → After (λ b u. u ≡ st) (local_in table name o st)
unfolding local_in
local_in-After table name none st = stops
local_in-After table name (some sc) st = returns refl

pub stab_add_func-After :
    (name : String) (kind : Subprogs) (ds : DeclsList) (ret : AstType) (st : Stab)
    → IsStab st
    → After
        (λ _ u. AddedFunc name kind ds ret st u)
        (stab_add_func name (AstType.func kind ds ret) st)
unfolding stab_add_func stab_has_local_func
stab_add_func-After name kind ds ret st h =
    After-bind (local_in-After (λ sc. sc.funcs) name (innermost st.chain) st) (λ b s e.
      After-stop_if b _ s _ (λ _. rw e (
        After-bind (resolve_func-After kind ds ret name st h) (λ id u r.
          on_innermost-After (insert_func name id) u (λ sc rest c.
            let l = insert_func-Leaves r.leaves.good sc rest name id c (inl r.inside) in
            record {
              leaves = Leaves-trans r.leaves l;
              parameters = λ fits.
                  All_map (parameter_names ds) (λ q f. Fresh_later q r.leaves l fits f)
                    (r.parameters fits);
              args = r.args;
              retty = r.retty;
              type = r.type;
              is_func = r.is_func;
              means = λ fits.
                  rw (resolve_func-insert r.leaves.good sc rest name id c (omega (arith, r.inside)))
                    r.here;
              retty_eq = r.retty_eq;
              entered =
                  Parameters_within (declared_parameters ds) r.args (Leaves-refl h) l r.entered;
            })))))

-- A type was declared: its name means the index that the type resolved to.
pub record AddedType (name : String) (t : AstType) (st u : Stab) : Type 0 where
  pub leaves : Leaves st u
  id : ℕ
  between : Stab
  resolved : stab_resolve_type t name st ≡ ok (id, between)
  means : id < resolve_failure → stab_resolve_type_name u name ≡ id

resolve_type_name-insert :
    {st : Stab} (h : IsStab st) (sc : Scope) (rest : List Scope) (name : String) (id : ℕ)
    → st.chain ≡ sc ∷ rest
    → id < resolve_failure
    → stab_resolve_type_name (record st { chain = insert_type name id sc ∷ rest }) name ≡ id
unfolding resolve_in stab_resolve_type_name
resolve_type_name-insert {st} h sc rest name id e lt =
    let s = subst (All (IsScope (length st.vars) (length st.types))) e h.scopes in
    rw (lookup-Names s.0.types name name id, eq_refl name) (ground arith)

pub stab_add_type-After :
    (name : String) (t : AstType) (st : Stab)
    → IsStab st
    → After (λ _ u. AddedType name t st u) (stab_add_type name t st)
unfolding stab_add_type stab_has_local_type
stab_add_type-After name t st h =
    After-bind (local_in-After (λ sc. sc.types) name (innermost st.chain) st) (λ b s e.
      After-stop_if b _ s _ (λ _. rw e (
        After-bind (After-intro (stab_resolve_type t name st) (λ id u eq. eq)) (λ id u eq.
          let r = After_of_eq (resolve_type-After t name st h) eq in
          After-stop_if (not (is_complex t)) _ u _ (λ _.
            on_innermost-After (insert_type name id) u (λ sc rest c. record {
              leaves =
                  Leaves-trans r.leaves
                    (insert_type-Leaves r.leaves.good sc rest name id c r.known);
              id = id;
              between = u;
              resolved = eq;
              means = λ lt. resolve_type_name-insert r.leaves.good sc rest name id c lt;
            }))))))

-- When a subprogram is declared in a well-formed table and `stab_add_func` returns, with fewer than
-- 2 ^ 64 types made, the table is well formed, the arenas still hold what they held, and the name
-- means a subprogram's type of this kind. Its return type is what the declared one resolves to, and
-- its parameters are variables for just the declared parameters, in their order: each has the name
-- of its parameter and the type that the declared type resolved to on the way, in a table between
-- the two.
pub stab_add_func-means :
    (name : String) (kind : Subprogs) (ds : DeclsList) (ret : AstType) (st u : Stab)
    → IsStab st
    → stab_add_func name (AstType.func kind ds ret) st ≡ ok (tt, u)
    → length u.types ≤ resolve_failure
    → IsStab u
      × Grows st u
      × (args : List ℕ) × (retty : ℕ) × (type : StabType) × (type.ty ≡ func kind args retty)
      × (get_elem? u.types (stab_resolve_func u name) ≡ some type)
      × ((s : Stab) × (stab_resolve_type ret "<func ret>" st ≡ ok (retty, s)))
      × Matched (Parameter st u) (declared_parameters ds) args
stab_add_func-means name kind ds ret st u h e fits =
    let a = After_of_eq (stab_add_func-After name kind ds ret st h) e in
    (
      a.leaves.good,
      a.leaves.grows,
      a.args,
      a.retty,
      a.type,
      a.is_func,
      a.means fits,
      a.retty_eq,
      a.entered,
    )

-- When a subprogram is declared in a well-formed table and `stab_add_func` returns, with fewer than
-- 2 ^ 64 variables made, the name of each of its parameters means something else afterwards than
-- before, in the scope around the subprogram: a parameter hides the variable of that name there.
pub stab_add_func-hides :
    (name : String) (kind : Subprogs) (ds : DeclsList) (ret : AstType) (st u : Stab)
    → IsStab st
    → stab_add_func name (AstType.func kind ds ret) st ≡ ok (tt, u)
    → length u.vars ≤ resolve_failure
    → All (λ q. stab_resolve_var u q ≢ stab_resolve_var st q) (parameter_names ds)
unfolding stab_resolve_var
stab_add_func-hides name kind ds ret st u h e fits =
    let a = After_of_eq (stab_add_func-After name kind ds ret st h) e in
    All_map (parameter_names ds)
      (λ q f same. elim (resolve_in-Known (λ sc. sc.vars) q st.chain (λ sc s. s.vars) h.scopes) [
        | inl lt ↦ omega (arith, f.0, same)
        | inr bad ↦ omega (arith, f.1, same)
      ])
      (a.parameters fits)

same_index : {x y : ℕ} {s t : Stab} → ◌≡◌ {A = Result (ℕ × Stab)} (ok (x, s)) (ok (y, t)) → x ≡ y
same_index e = cc

-- When a type is declared in a well-formed table, its resolution gives an index that is not that
-- of a failed one, and `stab_add_type` returns, the table is well formed and the name means that
-- index.
stab_add_type-means :
    (name : String) (t : AstType) (st between u : Stab) (id : ℕ)
    → IsStab st
    → stab_resolve_type t name st ≡ ok (id, between)
    → id < resolve_failure
    → stab_add_type name t st ≡ ok (tt, u)
    → IsStab u × (stab_resolve_type_name u name ≡ id)
stab_add_type-means name t st between u id h resolved lt e =
    let a = After_of_eq (stab_add_type-After name t st h) e in
    let same = same_index (sym a.resolved ∙ resolved) in
    (a.leaves.good, a.means (omega arith) ∙ same)
