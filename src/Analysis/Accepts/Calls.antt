-- ===== src/Analysis/Accepts/Calls.antt =====
-- Calls of subprograms by `analyze_call` of dragon/analysis.c that are known to return.
use cs.Prelude.{
  ℕ, suc, ◌≡◌, refl, ap, ◌∙◌, not, List, some, length, get_elem?, lt-length_of_get, ◌==◌, arith,
  String,
}
use cs.Ast.{ast_path, ExprList, Subprogs}
use cs.Exec.{Exec}
use cs.Exec.Total.{returns, Returns-stop_if}
use cs.Symbol.{
  Magic, stab_resolve_func, Stab, StabVar, StabType, ResolvedType, plain, resolve_failure,
}
use cs.Symbol.Equality.Laws.{SameType, basic, arrays, named, pointers, stab_types_eq_iff}
use cs.Symbol.Equality.Total.{IsStab-PointersDown}
use cs.Analysis.{Acx, Resu, Reg}
use cs.Analysis.Registers.{save_registers, restore_registers_except}
use cs.Analysis.Exprs.{call_with, call_path, check_argument, length_exprs}
use cs.Analysis.Keeps.{Keeps, Keeps-prints, type_at}
use cs.Analysis.Silent.Exprs.{save-Silent, restore-Silent, check_argument-Silent}
use cs.Analysis.Typing.{env_of}
use cs.Analysis.Accepts.{AcceptedArgs, no_more, argument}
use cs.Analysis.Accepts.Pieces.{
  Ready, Ready-later, Named, Any, Goes, Ends, goes_then, goes_silent, gives, later, gimme-Goes,
}
use cs.Analysis.Accepts.Paths.{var_at, not_failure}

abbrev pub Typed : ℕ → Resu → Type 0
Typed t r = (r.type ≡ t) × Named r.reg

-- The relation of equal types is about the types alone.
pub SameType-later : {st u : Stab} {a b : ℕ} → u.types ≡ st.types → SameType st a b → SameType u a b
SameType-later {u = u} {a = a} {b} k (basic e f g h) =
    basic (ap (λ ts. get_elem? ts a) k ∙ e) (ap (λ ts. get_elem? ts b) k ∙ f) g h
SameType-later {u = u} {a = a} {b} k (arrays lo hi elt e f g h) =
    arrays lo hi elt (ap (λ ts. get_elem? ts a) k ∙ e) (ap (λ ts. get_elem? ts b) k ∙ f) g h
SameType-later {u = u} {a = a} k (named e g h) = named (ap (λ ts. get_elem? ts a) k ∙ e) g h
SameType-later {u = u} {a = a} {b} k (pointers e f g h s) =
    pointers (ap (λ ts. get_elem? ts a) k ∙ e) (ap (λ ts. get_elem? ts b) k ∙ f) g h
      (SameType-later k s)

pub args_count :
    {st : Stab} {es : ExprList} {formals : List ℕ}
    → AcceptedArgs st es formals
    → length_exprs es ≡ length formals
args_count no_more = refl
args_count (argument h p s rest) = ap suc (args_count rest)

-- An argument of the type of its parameter passes without a message.
pub check-Goes :
    (i t u formal : ℕ) (a : Acx)
    → Ready a
    → type_at a.st formal ≡ some u
    → SameType a.st t u
    → Goes Any (check_argument i t formal) a
check-Goes i t u formal a ready param same =
    goes_silent (check_argument-Silent i t formal) ready (ends (var_at a.st formal param))
  where
    ends :
        ((v : StabVar) × (get_elem? a.st.vars formal ≡ some v) × (v.type ≡ u))
        → Ends (check_argument i t formal) a
    ends (v, at, is_u) =
        let equal =
          (stab_types_eq_iff t u a.st (IsStab-PointersDown a.st ready.good ready.types)).1 same in
        unfold check_argument in rw (at, is_u, equal) (returns tt)

save-Ends : (a : Acx) → Ends save_registers a
unfolding save_registers
save-Ends a = returns tt

restore-Ends : (r : Reg) (a : Acx) → Ends (restore_registers_except r) a
unfolding restore_registers_except
restore-Ends r a = returns tt

pub call_with-Goes :
    (name : String) (ty : StabType) (given : ℕ) (pass : List ℕ → Exec Acx (Unit {0})) (a : Acx)
    {kind : Subprogs} {formals : List ℕ} {retty : ℕ}
    → Ready a
    → ty.ty ≡ ResolvedType.func kind formals retty
    → given ≡ length formals
    → ((b : Acx) → Ready b → Keeps a b → Goes Any (pass formals) b)
    → Goes (Typed retty) (call_with name ty given pass) a
unfolding call_with
call_with-Goes name ty given pass a {kind} {formals} {retty} ready is_func count passes =
    goes_then {P = Any} (goes_silent save-Silent ready (save-Ends a)) (λ _ b _ ready₁ k₁.
      rw is_func (
        Returns-stop_if (not (given == length formals)) _ b _ (ground arith) (
          goes_then (passes b ready₁ k₁) (λ _ c _ ready₂ _.
            goes_then (gimme-Goes c ready₂) (λ reg d low ready₃ _.
              let printed = Keeps-prints d _ _ refl in
              later printed (
                goes_then {P = Any}
                  (goes_silent (restore-Silent reg) (Ready-later ready₃ printed ready₃.pool)
                    (restore-Ends reg _))
                  (λ _ u _ ready₄ _. gives ready₄ (refl, low))))))))

pub call_path-Goes :
    (name : String) (given : ℕ) (builtin : Magic → Exec Acx (Unit {0}))
    (pass : List ℕ → Exec Acx (Unit {0})) (a : Acx) {ty : StabType} {kind : Subprogs}
    {formals : List ℕ} {retty : ℕ}
    → Ready a
    → (env_of a.st).func name ≡ some ty
    → ty.magic ≡ plain
    → ty.ty ≡ ResolvedType.func kind formals retty
    → given ≡ length formals
    → ((b : Acx) → Ready b → Keeps a b → Goes Any (pass formals) b)
    → Goes (Typed retty) (call_path (ast_path name) given builtin pass) a
unfolding call_path ast_path
call_path-Goes name given builtin pass a {ty} ready at pl is_func count passes =
    let id = stab_resolve_func a.st name in
    let lt = lt-length_of_get a.st.types id at in
    Returns-stop_if (id == resolve_failure) _ a _ (not_failure id _ lt ready.types)
      (rw (at, pl) (call_with-Goes name ty given pass a ready is_func count passes))
