-- ===== src/Analysis/Accepts/Builtins.antt =====
-- Calls of the built-ins by `analyze_magic` of dragon/analysis.c that are known to return.
use cs.Prelude.{
  ℕ, zero, suc, ◌≡◌, ◌≢◌, refl, ◌≤◌, true, false, not, [], ◌∷◌, ◌++◌, some, lt-length_of_get, ◌==◌,
  arith, String,
}
use cs.Ast.{ast_path, ExprList}
use cs.Exec.{Exec}
use cs.Exec.Total.{Returns-stop_if}
use cs.Symbol.{
  Stab, StabType, Magic, plain, read, readln, write, writeln, stab_resolve_func, resolve_failure,
  void_type_idx,
}
use cs.Analysis.{Acx, Resu, call, push, add_rsp}
use cs.Prelude.Int.{pos}
use cs.Analysis.Exprs.{
  write_routine, read_routine, write_argument, read_argument, is_lvalue, dispatch_call, call_path,
  magic_args, analyze_call,
}
use cs.Analysis.Keeps.{Keeps, Keeps-prints, Keeps-trans}
use cs.Analysis.Typing.{env_of}
use cs.Analysis.Accepts.{is_operand, Operands, no_operand, operand}
use cs.Analysis.Accepts.Pieces.{
  Ready, Any, Goes, Ready-later, goes_then, later, gives, prints, takeback-Goes,
}
use cs.Analysis.Accepts.Paths.{not_failure}
use cs.Analysis.Accepts.Exprs.{Same, Same-Keeps, func_in, expr-Goes}

writable : (t : ℕ) → t ≤ void_type_idx → (name : String) × (write_routine t ≡ some name)
unfolding write_routine
writable zero h = (_, refl)
writable (suc zero) h = (_, refl)
writable (suc (suc zero)) h = (_, refl)
writable (suc (suc (suc zero))) h = (_, refl)
writable (suc (suc (suc (suc zero)))) h = (_, refl)
writable (suc (suc (suc (suc (suc zero))))) h = (_, refl)
writable (suc (suc (suc (suc (suc (suc n)))))) h = absurd (omega arith)

readable : (t : ℕ) → t ≤ void_type_idx → (name : String) × (read_routine t ≡ some name)
unfolding read_routine
readable zero h = (_, refl)
readable (suc zero) h = (_, refl)
readable (suc (suc zero)) h = (_, refl)
readable (suc (suc (suc zero))) h = (_, refl)
readable (suc (suc (suc (suc zero)))) h = (_, refl)
readable (suc (suc (suc (suc (suc zero))))) h = (_, refl)
readable (suc (suc (suc (suc (suc (suc n)))))) h = absurd (omega arith)

write-Goes : (r : Resu) (a : Acx) → Ready a → r.type ≤ void_type_idx → Goes Any (write_argument r) a
unfolding write_argument
write-Goes r a ready small =
    let (name, e) = writable r.type small in
    let printed = Keeps-prints a _ _ refl in
    rw e (later printed (takeback-Goes r.reg _ (Ready-later ready printed ready.pool)))

read-Goes :
    (which : Magic) (r : Resu) (a : Acx)
    → Ready a
    → r.type ≤ void_type_idx
    → Goes Any (read_argument which r) a
unfolding read_argument
read-Goes which r a ready small =
    let (name, e) = readable r.type small in
    let b : Acx = record a { ofd = a.ofd ++ push r.reg.name ∷ call name ∷ add_rsp (pos 8) ∷ [] } in
    let c : Acx = record b {
      ofd = b.ofd ++ elim which [ readln ↦ call "read_newline@" ∷ [] | _ ↦ [] ];
    } in
    let kept : Keeps a c = Keeps-trans (Keeps-prints a b _ refl) (Keeps-prints b c _ refl) in
    rw e (later kept (takeback-Goes r.reg c (Ready-later ready kept ready.pool)))

operands-Goes :
    {st : Stab} (which : Magic) {es : ExprList} (a : Acx)
    → Ready a
    → Same st a.st
    → Operands st which es
    → Goes Any (magic_args es which) a
unfolding magic_args is_operand
operands-Goes which a ready same no_operand = prints _ ready tt
operands-Goes plain a ready same (operand ok_ h small rest) = absurd (ground arith)
operands-Goes write a ready same (operand ok_ h small rest) =
    goes_then (expr-Goes true a ready same h) (λ r b (is_t, _) ready₁ k₁.
      goes_then (write-Goes r b ready₁ (rw is_t small)) (λ _ c _ ready₂ k₂.
        operands-Goes write c ready₂ (Same-Keeps same (Keeps-trans k₁ k₂)) rest))
operands-Goes writeln a ready same (operand ok_ h small rest) =
    goes_then (expr-Goes true a ready same h) (λ r b (is_t, _) ready₁ k₁.
      goes_then (write-Goes r b ready₁ (rw is_t small)) (λ _ c _ ready₂ k₂.
        operands-Goes writeln c ready₂ (Same-Keeps same (Keeps-trans k₁ k₂)) rest))
operands-Goes read a ready same (operand {e} ok_ h small rest) =
    goes_then
      (Returns-stop_if (not (is_lvalue e)) _ a _ (rw ok_ refl) (expr-Goes false a ready same h))
      (λ r b (is_t, _) ready₁ k₁.
        goes_then (read-Goes read r b ready₁ (rw is_t small)) (λ _ c _ ready₂ k₂.
          operands-Goes read c ready₂ (Same-Keeps same (Keeps-trans k₁ k₂)) rest))
operands-Goes readln a ready same (operand {e} ok_ h small rest) =
    goes_then
      (Returns-stop_if (not (is_lvalue e)) _ a _ (rw ok_ refl) (expr-Goes false a ready same h))
      (λ r b (is_t, _) ready₁ k₁.
        goes_then (read-Goes readln r b ready₁ (rw is_t small)) (λ _ c _ ready₂ k₂.
          operands-Goes readln c ready₂ (Same-Keeps same (Keeps-trans k₁ k₂)) rest))

dispatch-Goes :
    (which : Magic) (builtin : Magic → Exec Acx (Unit {0})) (ordinary : Exec Acx Resu) (a : Acx)
    → which ≢ plain
    → Goes Any (builtin which) a
    → Goes Any (dispatch_call which builtin ordinary) a
dispatch-Goes plain builtin ordinary a ne h = absurd (ne refl)
dispatch-Goes read builtin ordinary a ne h = goes_then h (λ _ c _ ready _. gives ready tt)
dispatch-Goes readln builtin ordinary a ne h = goes_then h (λ _ c _ ready _. gives ready tt)
dispatch-Goes write builtin ordinary a ne h = goes_then h (λ _ c _ ready _. gives ready tt)
dispatch-Goes writeln builtin ordinary a ne h = goes_then h (λ _ c _ ready _. gives ready tt)

pub magic-Goes :
    {st : Stab} (f : String) {es : ExprList} {ty : StabType} (a : Acx)
    → Ready a
    → Same st a.st
    → (env_of st).func f ≡ some ty
    → ty.magic ≢ plain
    → Operands st ty.magic es
    → Goes Any (analyze_call (ast_path f) es) a
unfolding analyze_call call_path ast_path
magic-Goes f {es} {ty} a ready same at is_magic operands =
    let id = stab_resolve_func a.st f in
    let at' = func_in f same at in
    let lt = lt-length_of_get a.st.types id at' in
    Returns-stop_if (id == resolve_failure) _ a _ (not_failure id _ lt ready.types) (
      rw at' (
        dispatch-Goes ty.magic (magic_args es) _ a is_magic
          (operands-Goes ty.magic a ready same operands)))
