-- ===== src/Analysis/Accepts/Loops.antt =====
-- The pieces of `analyze_stmt` of dragon/analysis.c that are known to return: assignments, calls, and
-- the scope of a `for`.
use cs.Prelude.{
  ℕ, suc, ◌≡◌, refl, ap, ◌∙◌, ◌⊎◌, inl, inr, Bool, true, false, List, [], ◌∷◌, ◌++◌, some, arith,
  if◌then◌else◌, String,
}
use cs.Ast.{ast_path, AstExpr, ExprList, path, idx, Subprogs, sub_procedure}
use cs.Exec.{Exec, ok, ◌>>=◌, ◌>>◌}
use cs.Exec.Rules.{After_of_eq}
use cs.Exec.Total.{Returns, returns, Returns-bind}
use cs.Symbol.Scoping.{leave_around}
use cs.Symbol.Invariant.Arena.{outer}
use cs.Symbol.{Scope, stab_scope_new, Stab, StabType, ResolvedType, plain, stab_enter, stab_leave}
use cs.Symbol.Equality.Laws.{SameType, stab_types_eq_iff}
use cs.Symbol.Equality.Total.{IsStab-PointersDown}
use cs.Symbol.Invariant.{stab_enter-IsStab}
use cs.Analysis.{
  Acx, Resu, emit, on_stab, next_label, label, jmp, push, with_stab, Op, op, je, inc, store_top,
}
use cs.Analysis.Registers.{reg_takeitback}
use cs.Analysis.Typing.{env_of}
use cs.Analysis.Exprs.{length_exprs, analyze_call}
use cs.Analysis.Stmts.{check_name, check_target, check_assignability, assign_to, enter}
use cs.Analysis.Keeps.{Keeps, Keeps-trans, Keeps-prints}
use cs.Analysis.Keeps.Stmts.{entered, leave-Closes}
use cs.Analysis.Silent.Stmts.{assignability-Silent}
use cs.Analysis.Typing.Pieces.{env_of-entered, relabelled}
use cs.Analysis.Accepts.{is_target, AcceptedArgs}
use cs.Analysis.Accepts.Pieces.{
  Ready, Ready-later, Any, Goes, Ends, goes_then, goes_silent, prints, later, takeback-Goes,
}
use cs.Analysis.Accepts.Calls.{Typed, args_count, call_path-Goes}
use cs.Analysis.Accepts.Exprs.{Same, Same-Keeps, func_in, args-Goes}

-- Where any variable may be assigned to: in the program's body and in a procedure.
abbrev pub Assigns : Acx → Type 0
Assigns a = (a.toplevel ≡ true) ⊎ (a.current_func_type ≡ sub_procedure)

pub Assigns-later : {a b : Acx} → Keeps a b → Assigns a → Assigns b
Assigns-later k (inl e) = inl (k.toplevel ∙ e)
Assigns-later k (inr e) = inr (k.kind ∙ e)

name-Ends :
    (name : String) (a : Acx) → a.current_func_type ≡ sub_procedure → Ends (check_name name) a
unfolding check_name
name-Ends name a e = rw e (returns tt)

target-Ends :
    (e : AstExpr) (a : Acx)
    → is_target e ≡ true
    → a.current_func_type ≡ sub_procedure
    → Ends (check_target e) a
unfolding check_target is_target check_name
target-Ends (path p) a h e = rw e (returns tt)
target-Ends (idx p i) a h e = rw e (returns tt)
target-Ends _ a h e = absurd (ground arith)

pub assignability-Goes :
    (e : AstExpr) (a : Acx)
    → Ready a
    → Assigns a
    → is_target e ≡ true
    → Goes Any (check_assignability e) a
assignability-Goes e a ready assigns target =
    goes_silent (assignability-Silent e) ready (ends assigns)
  where
    ends : Assigns a → Ends (check_assignability e) a
    ends (inl top) = unfold check_assignability in rw top (returns tt)
    ends (inr kind) = unfold check_assignability in go a.toplevel
      where
        go : (b : Bool) → Returns (λ _ _. Unit {0}) (if b then ok (tt, a) else check_target e a)
        go true = returns tt
        go false = target-Ends e a target kind

pub assign_to-Goes :
    (l r : Resu) {t u : ℕ} (a : Acx)
    → Ready a
    → l.type ≡ t
    → r.type ≡ u
    → SameType a.st u t
    → Goes Any (assign_to l r) a
unfolding assign_to
assign_to-Goes l r {t} {u} a ready is_t is_u same =
    let equal =
      (stab_types_eq_iff u t a.st (IsStab-PointersDown a.st ready.good ready.types)).1 same in
    rw (is_t, is_u, equal)
      (let printed = Keeps-prints a _ _ refl in
        later printed (
          goes_then (takeback-Goes r.reg _ (Ready-later ready printed ready.pool))
            (λ _ c _ ready' _. takeback-Goes l.reg c ready')))

pub call-Goes :
    {st : Stab} (f : String) {es : ExprList} {ty : StabType} {kind : Subprogs} {formals : List ℕ}
    {retty : ℕ} (a : Acx)
    → Ready a
    → Same st a.st
    → (env_of st).func f ≡ some ty
    → ty.magic ≡ plain
    → ty.ty ≡ ResolvedType.func kind formals retty
    → AcceptedArgs st es formals
    → Goes (Typed retty) (analyze_call (ast_path f) es) a
unfolding analyze_call
call-Goes f {es} a ready same at pl is_func args =
    call_path-Goes f (length_exprs es) _ _ a ready (func_in f same at) pl is_func (args_count args)
      (λ c ready₁ k₁. args-Goes 0 c ready₁ (Same-Keeps same k₁) args)

-- Inside the scope of a `for`.
entered-Ready : {d : Acx} → Ready d → Ready (entered d)
unfolding stab_enter
entered-Ready ready = record {
  good = stab_enter-IsStab ready.good;
  pool = ready.pool;
  vars = ready.vars;
  types = ready.types;
}

pub Same-entered : {st : Stab} (d : Acx) → Same st d.st → Same st (entered d).st
unfolding stab_enter
Same-entered d same = record {
  env = env_of-entered d ∙ same.env;
  types = same.types;
  params = same.params;
}

-- Leaving the scope again, where there is one around.
leave-Goes :
    (d w : Acx) (sc : Scope) (rest : List Scope)
    → Ready d
    → Ready w
    → Keeps (entered d) w
    → d.st.chain ≡ sc ∷ rest
    → Returns (λ _ c. Unit {0} × Ready c × Keeps d c) (on_stab stab_leave w)
unfolding stab_enter
leave-Goes d w sc rest ready ready' inside e =
    let around : w.st.chain ≡ stab_scope_new ∷ sc ∷ rest =
      inside.chain ∙ ap (λ l. stab_scope_new ∷ l) e in
    let leaves : on_stab stab_leave w
        ≡ ok (tt, record w { st = record w.st { chain = sc ∷ rest } }) =
      ap (with_stab w) (leave_around w.st sc rest (ap outer around)) in
    let kept = After_of_eq (leave-Closes d w inside) leaves in
    rw leaves (returns (tt, Ready-later ready kept ready'.pool, kept))

-- What a `for` does after the tests, over its body.
abbrev pub loop : Resu → Resu → Exec Acx (Unit {0}) → Exec Acx (Unit {0})
loop s e body = enter >> emit (push s.reg.name ∷ []) >> next_label >>= λ l₀. next_label >>= λ l₁.
    emit (label l₀ ∷ op Op.op_cmp s.reg.name e.reg.name ∷ je l₁ ∷ [])
    >> body
    >> emit (inc s.reg.name ∷ store_top s.reg.name ∷ jmp l₀ ∷ label l₁ ∷ [])
    >> reg_takeitback e.reg
    >> reg_takeitback s.reg
    >> on_stab stab_leave

pub loop-Goes :
    (s e : Resu) (body : Exec Acx (Unit {0})) (d : Acx) (sc : Scope) (rest : List Scope)
    → Ready d
    → d.st.chain ≡ sc ∷ rest
    → ((z : Acx) → Ready z → Keeps (entered d) z → Goes Any body z)
    → Goes Any (loop s e body) d
loop-Goes s e body d sc rest ready around h =
    let x : Acx = record (entered d) { ofd = d.ofd ++ push s.reg.name ∷ [] } in
    let inside = Keeps-trans (Keeps-prints (entered d) x (push s.reg.name ∷ []) refl) (
      relabelled x (suc (suc d.label))
        (label d.label ∷ op Op.op_cmp s.reg.name e.reg.name ∷ je (suc d.label) ∷ [])
        (omega arith)) in
    Returns-bind
      (goes_then {P = Any}
        (goes_then {P = Any}
          (goes_then {P = Any} (h _ (Ready-later (entered-Ready ready) inside ready.pool) inside)
            (λ _ w _ r _.
              prints
                (inc s.reg.name ∷ store_top s.reg.name ∷ jmp d.label ∷ label (suc d.label) ∷ []) r
                tt))
          (λ _ w _ r _. takeback-Goes e.reg w r))
        (λ _ w _ r _. takeback-Goes s.reg w r))
      (λ _ w (_, r, k). leave-Goes d w sc rest ready r (Keeps-trans inside k) around)
