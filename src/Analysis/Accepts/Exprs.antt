-- ===== src/Analysis/Accepts/Exprs.antt =====
-- That `analyze_expr` of dragon/analysis.c accepts the expressions that it is made to accept.
use cs.Prelude.{
  ℕ, suc, ◌≡◌, refl, ap, sym, ◌∙◌, ◌≤◌, Bool, true, false, not, List, [], ◌∷◌, some, length,
  get_elem?, ◌==◌, arith, String,
}
use cs.Ast.{AstExpr, ExprList}
use cs.Exec.{ok, ◌>>◌}
use cs.Exec.Total.{returns, Returns-mono, Returns-stop_if, Returns-run}
use cs.Symbol.{Stab, StabType, resolve_failure, integer_type_idx}
use cs.Analysis.{Acx, Resu, load, mov_literal, push, emit}
use cs.Analysis.Registers.{num_regs}
use cs.Analysis.Exprs.{analyze_expr, length_exprs, load_if, check_argument, pass_args}
use cs.Analysis.Keeps.{Keeps, type_at}
use cs.Analysis.Silent.Exprs.{load_if-Silent}
use cs.Analysis.Typing.{Env, env_of, env_of-Keeps}
use cs.Analysis.Accepts.{
  Accepted, AcceptedArgs, no_more, argument, literal, variable, operator, sign, pointed, indexed,
  called,
}
use cs.Analysis.Accepts.Pieces.{
  Ready, Any, Goes, Ends, goes_then, goes_silent, gives, prints, gimme-Goes,
}
use cs.Analysis.Accepts.Paths.{path-Goes}
use cs.Analysis.Accepts.Operators.{binary-Goes, unary-Goes}
use cs.Analysis.Accepts.Calls.{Typed, SameType-later, args_count, check-Goes, call_path-Goes}
use cs.Symbol.Equality.Laws.{SameType}
use cs.Symbol.Invariant.{IsStab}

-- A later table in which names and types mean what they meant.
pub record Same (st u : Stab) : Type 0 where
  pub env : env_of u ≡ env_of st
  pub types : u.types ≡ st.types
  pub params : (i : ℕ) → type_at u i ≡ type_at st i

pub Same-Keeps : {st : Stab} {a b : Acx} → Same st a.st → Keeps a b → Same st b.st
Same-Keeps s k = record {
  env = env_of-Keeps k ∙ s.env;
  types = k.types ∙ s.types;
  params = λ i. k.var_types i ∙ s.params i;
}

pub var_in :
    {st u : Stab} (x : String) {t : ℕ}
    → Same st u
    → (env_of st).var x ≡ some t
    → (env_of u).var x ≡ some t
var_in x s e = ap (λ (v : Env). v.var x) s.env ∙ e

pub type_in :
    {st u : Stab} (t : ℕ) {ty : StabType}
    → Same st u
    → (env_of st).type t ≡ some ty
    → get_elem? u.types t ≡ some ty
type_in t s e = ap (λ ts. get_elem? ts t) s.types ∙ e

pub func_in :
    {st u : Stab} (f : String) {ty : StabType}
    → Same st u
    → (env_of st).func f ≡ some ty
    → (env_of u).func f ≡ some ty
func_in f s e = ap (λ (v : Env). v.func f) s.env ∙ e

load_if-Ends : (b : Bool) (reg : String) (a : Acx) → Ends (load_if b reg) a
load_if-Ends true reg a = returns tt
load_if-Ends false reg a = returns tt

pushed :
    (i : ℕ) (r : Resu) (formal t u : ℕ) (a : Acx)
    → Ready a
    → r.type ≡ t
    → type_at a.st formal ≡ some u
    → SameType a.st t u
    → Goes Any (check_argument i r.type formal >> emit (push r.reg.name ∷ [])) a
pushed i r formal t u a ready is_t param same =
    goes_then {P = Any} (check-Goes i r.type u formal a ready param (rw is_t same))
      (λ _ b _ ready' _. prints (push r.reg.name ∷ []) ready' tt)

mutual
  unfolding analyze_expr

  pub expr-Goes :
      {st : Stab} {e : AstExpr} {t : ℕ} (b : Bool) (a : Acx)
      → Ready a
      → Same st a.st
      → Accepted st e t
      → Goes (Typed t) (analyze_expr e b) a
  expr-Goes b a ready same (literal {s}) =
      goes_then (gimme-Goes a ready)
        (λ r c low ready' _. prints (mov_literal r.name s ∷ []) ready' (refl, low))
  expr-Goes b a ready same (variable x {t} v known) =
      path-Goes x b a ready (var_in x same v) (type_in t same known)
  expr-Goes b a ready same (operator {o} {l} {r} {t} is_op h k) =
      goes_then (expr-Goes true a ready same h) (λ x c (is_t, low) ready₁ k₁.
        goes_then (expr-Goes true c ready₁ (Same-Keeps same k₁) k) (λ y d (is_t', low') ready₂ k₂.
          Returns-mono (binary-Goes o x y d ready₂ is_op (is_t ∙ sym is_t') low low')
            (λ z u (typed, ready', kept). ((rw is_t at typed.0, typed.1), ready', kept))))
  expr-Goes b a ready same (sign {o} {e} not_not h) =
      goes_then (expr-Goes true a ready same h)
        (λ r c (bool, low) ready₁ _. unary-Goes o r c ready₁ not_not bool low)
  expr-Goes b a ready same (pointed x {t} {target} {ty} v known ptr) =
      goes_then (path-Goes x false a ready (var_in x same v) (type_in t same known))
        (λ r c (is_t, low) ready₁ k₁.
          let known' : get_elem? c.st.types r.type ≡ some ty =
            rw is_t (type_in t (Same-Keeps same k₁) known) in
          rw (known', ptr) (prints (load r.reg.name r.reg.name ∷ []) ready₁ (refl, low)))
  expr-Goes b a ready same (indexed x {e} {t} {elt} {lower} {upper} {ty} v known arr h) =
      goes_then (path-Goes x false a ready (var_in x same v) (type_in t same known))
        (λ r c (is_t, low) ready₁ k₁.
          let known' : get_elem? c.st.types r.type ≡ some ty =
            rw is_t (type_in t (Same-Keeps same k₁) known) in
          rw (known', arr)
            (goes_then (expr-Goes true c ready₁ (Same-Keeps same k₁) h) (λ i d (int, low') ready₂ _.
              goes_then {P = Any}
                (Returns-stop_if (not (i.type == integer_type_idx)) _ d _ (ground arith)
                  (goes_silent (load_if-Silent b i.reg.name) ready₂ (load_if-Ends b i.reg.name d)))
                (λ _ u _ ready₃ _. gives ready₃ (refl, low')))))
  expr-Goes b a ready same (called f {es} {ty} {kind} {formals} {retty} at pl is_func args) =
      call_path-Goes f (length_exprs es) _ _ a ready (func_in f same at) pl is_func
        (args_count args) (λ c ready₁ k₁. args-Goes 0 c ready₁ (Same-Keeps same k₁) args)

  pub args-Goes :
      {st : Stab} {es : ExprList} {formals : List ℕ} (i : ℕ) (a : Acx)
      → Ready a
      → Same st a.st
      → AcceptedArgs st es formals
      → Goes Any (pass_args es i formals) a
  args-Goes i a ready same no_more = gives ready tt
  args-Goes i a ready same (argument {e} {es} {formal} {t} {u} {formals} h param eq rest) =
      goes_then (expr-Goes true a ready same h) (λ r b (is_t, _) ready₁ k₁.
        let same₁ = Same-Keeps same k₁ in
        goes_then
          (pushed i r formal t u b ready₁ is_t (same₁.params formal ∙ param)
            (SameType-later same₁.types eq))
          (λ _ c _ ready₂ k₂. args-Goes (suc i) c ready₂ (Same-Keeps same₁ k₂) rest))

-- From a pool of fourteen registers and a well-formed symbol table with fewer than 2 ^ 64 variables
-- and types, `analyze_expr` returns on every expression that is made of literals, variables, field-less
-- paths under `^` and `[]`, operators and signs at the types that they are for, and calls with as many
-- arguments as parameters, each of the type of its parameter; and the type it returns is the expression's.
pub analyze_expr-returns :
    (e : AstExpr) (t : ℕ) (b : Bool) (a : Acx)
    → length a.rs.regs_used ≡ num_regs
    → IsStab a.st
    → length a.st.vars ≤ resolve_failure
    → length a.st.types ≤ resolve_failure
    → Accepted a.st e t
    → (r : Resu) × (c : Acx) × (analyze_expr e b a ≡ ok (r, c)) × (r.type ≡ t)
analyze_expr-returns e t b a pool good vars types accepted =
    let ready : Ready a = record { good = good; pool = pool; vars = vars; types = types } in
    let same : Same a.st a.st = record { env = refl; types = refl; params = λ i. refl } in
    let (r, c, returned, h) = Returns-run (expr-Goes b a ready same accepted) in
    (r, c, returned, h.0.0)
