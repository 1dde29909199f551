-- ===== src/Analysis/Registers/Bounds.antt =====
-- Registers that are in the pool: what `reg_gimme`, `type_of_path`, `analyze_call` and
-- `analyze_expr` of dragon/analysis.c hand out.
use cs.Prelude.{
  ℕ, ◌≡◌, refl, ◌∙◌, ◌<◌, ◌⊎◌, Bool, true, false, [], ◌∷◌, ◌&&◌, ◌||◌, String, length, List, not,
  arith, inl, inr, ◌==◌,
}
use cs.Token.{Token}
use cs.Ast.{AstPath, AstExpr, app, bin, deref, idx, lit, path, un, addrof}
use cs.Exec.{
  span_err, aborted, unresolved_subprogram, unresolved_variable, unary_sign_of_non_number,
  not_of_non_boolean, ok, Exec, pure, ◌>>=◌,
}
use cs.Exec.Rules.{After, returns, stops, After-bind, After-mono, After_of_eq}
use cs.Symbol.{
  Magic, plain, read, readln, write, writeln, StabType, resolve_failure, integer_type_idx,
  real_type_idx, boolean_type_idx,
}
use cs.Analysis.{Acx, Reg, Resu, Insn, load, mov_literal}
use cs.Analysis.Registers.{num_regs, reg_gimme}
use cs.Analysis.Registers.Pool.{reg_gimme_cases, Fresh, Spilled}
use cs.Analysis.Paths.{type_of_path, but_last}
use cs.Analysis.Exprs.{
  call_with, dispatch_call, call_path, binary, unary, length_exprs, analyze_expr, magic_result,
  path_field, is_not,
}
use cs.Analysis.Keeps.{Moves}
use cs.Analysis.Keeps.Reads.{
  resolve-Reads, resolve_func-Reads, stab_type-Reads, stab_var-Reads, has_local_var-Reads,
}
use cs.Analysis.Silent.{
  Silent, Silent-then, on_stab-Silent, stop_if-Silent, emit-Silent, require-Silent,
}
use cs.Analysis.Silent.Paths.{
  gimme-Silent, load_address-Silent, walk-Silent, load_value-Silent, takeback-Silent,
  type_of_path-Silent,
}
use cs.Analysis.Silent.Exprs.{
  save-Silent, restore-Silent, signature-Silent, called_plain, magic_args-Silent, pass_args-Silent,
  binary_code-Silent, pointee-Silent, element-Silent, load_if-Silent, expr-Silent,
}

-- From a full-sized pool: the value satisfies `P`, and the pool keeps its size.
abbrev pub Hands : {A : Type 0} → (A → Type 0) → Exec Acx A → Type 0
Hands P m =
    (a : Acx)
    → length a.rs.regs_used ≡ num_regs
    → After (λ x b. P x × (length b.rs.regs_used ≡ num_regs)) (m a)

abbrev pub InPool : Reg → Type 0
InPool r = r.which < num_regs

abbrev pub ResultInPool : Resu → Type 0
ResultInPool r = r.reg.which < num_regs

abbrev Any : {A : Type 0} → A → Type 0
Any x = Unit {0}

-- In sequence.
hand_then :
    {A B : Type 0} {P : A → Type 0} {Q : B → Type 0} {m : Exec Acx A} {f : A → Exec Acx B}
    → Hands P m
    → ((x : A) → P x → Hands Q (f x))
    → Hands Q (m >>= f)
hand_then h k a full = After-bind (h a full) (λ x b (p, full'). k x p b full')

silent : {A : Type 0} {m : Exec Acx A} → Moves Silent m → Hands Any m
silent h a full = After-mono (h a) (λ _ b s. (tt, s.same_pool ∙ full))

-- What follows an action whose value does not matter.
past :
    {A B : Type 0} {Q : B → Type 0} {m : Exec Acx A} {f : A → Exec Acx B}
    → Moves Silent m
    → ((x : A) → Hands Q (f x))
    → Hands Q (m >>= f)
past h k = hand_then (silent h) (λ x _. k x)

gives : {A : Type 0} {P : A → Type 0} (x : A) → P x → Hands P (pure {S = Acx} x)
gives x p a full = returns (p, full)

pub gimme-Hands : Hands InPool reg_gimme
gimme-Hands a full =
    let (r, b, e, how) = reg_gimme_cases a in
    rw e (returns (inside r b how, (After_of_eq (gimme-Silent a) e).same_pool ∙ full))
  where
    inside :
        (r : Reg) (b : Acx)
        → Fresh a.rs.regs_used r b.rs.regs_used ⊎ Spilled a r b
        → r.which < num_regs
    inside r b (inl fresh) = omega (arith, fresh.inside)
    inside r b (inr spilled) = spilled.inside

path-Hands : (p : AstPath) (b : Bool) → Hands ResultInPool (type_of_path p b)
unfolding type_of_path
path-Hands p b = past (on_stab-Silent (resolve-Reads p.first)) λ id.
    past (stop_if-Silent (id == resolve_failure) (span_err (unresolved_variable p.first))) λ _.
      hand_then gimme-Hands λ reg inside.
        past (on_stab-Silent (has_local_var-Reads p.first)) λ here.
          past (load_address-Silent here id reg.name) λ _.
            past (on_stab-Silent (stab_var-Reads id)) λ v.
              past (on_stab-Silent (stab_type-Reads v.type)) λ t.
                past (walk-Silent reg.name (but_last p.first p.rest) t.ty) λ _.
                  past (load_value-Silent b reg.name)
                    λ _. gives (record { type = v.type; reg = reg }) inside

call_with-Hands :
    (name : String) (pt : StabType) (given : ℕ) (pass : List ℕ → Exec Acx (Unit {0}))
    → ((formals : List ℕ) → Moves Silent (pass formals))
    → Hands ResultInPool (call_with name pt given pass)
unfolding call_with
call_with-Hands name pt given pass h = past save-Silent λ _.
    past (signature-Silent pt.ty) λ (formals, retty). past (stop_if-Silent _ _) λ _.
      past (h formals) λ _. hand_then gimme-Hands λ reg inside.
        past (emit-Silent _ (called_plain (given == 0) name reg.name))
          λ _. past (restore-Silent reg) λ _. gives (record { type = retty; reg = reg }) inside

dispatch-Hands :
    (which : Magic) (builtin : Magic → Exec Acx (Unit {0})) (ordinary : Exec Acx Resu)
    → ((w : Magic) → Moves Silent (builtin w))
    → Hands ResultInPool ordinary
    → Hands ResultInPool (dispatch_call which builtin ordinary)
dispatch-Hands plain builtin ordinary h k = k
dispatch-Hands read builtin ordinary h k = past (h read) (λ _. gives magic_result (omega arith))
dispatch-Hands readln builtin ordinary h k = past (h readln) (λ _. gives magic_result (omega arith))
dispatch-Hands write builtin ordinary h k = past (h write) (λ _. gives magic_result (omega arith))
dispatch-Hands writeln builtin ordinary h k =
    past (h writeln) (λ _. gives magic_result (omega arith))

call_path-Hands :
    (p : AstPath) (given : ℕ) (builtin : Magic → Exec Acx (Unit {0}))
    (pass : List ℕ → Exec Acx (Unit {0}))
    → ((w : Magic) → Moves Silent (builtin w))
    → ((formals : List ℕ) → Moves Silent (pass formals))
    → Hands ResultInPool (call_path p given builtin pass)
unfolding call_path
call_path-Hands p given builtin pass h k =
    past (stop_if-Silent (not (length p.rest == 0)) aborted) λ _.
      past (on_stab-Silent (resolve_func-Reads p.first)) λ pty.
        past (stop_if-Silent (pty == resolve_failure) (span_err (unresolved_subprogram p.first)))
          λ _.
            past (on_stab-Silent (stab_type-Reads pty))
              λ pt. dispatch-Hands pt.magic builtin _ h (call_with-Hands p.first pt given pass k)

binary-Hands : (o : Token) (l r : Resu) → ResultInPool l → Hands ResultInPool (binary o l r)
unfolding binary
binary-Hands o l r inside =
    past (stop_if-Silent _ _)
      λ _. past (binary_code-Silent o l r) λ _. past (takeback-Silent r.reg) λ _. gives _ inside

unary-Hands : (o : Token) (r : Resu) → ResultInPool r → Hands ResultInPool (unary o r)
unfolding unary
unary-Hands o r inside =
    past
      (stop_if-Silent
        (is_not o && (not (r.type == integer_type_idx) || not (r.type == real_type_idx)))
        (span_err unary_sign_of_non_number))
      λ _.
        past (stop_if-Silent (not (r.type == boolean_type_idx)) (span_err not_of_non_boolean))
          λ _. past (emit-Silent (Insn.not_ r.reg.name ∷ []) refl) λ _. gives r inside

pub expr-Hands : (e : AstExpr) (b : Bool) → Hands ResultInPool (analyze_expr e b)
unfolding analyze_expr
expr-Hands (app p args) b a =
    call_path-Hands p (length_exprs args) _ _ (magic_args-Silent args) (pass_args-Silent args 0) a
expr-Hands (bin o left right) b a =
    hand_then (expr-Hands left true)
      (λ l inside. past (expr-Silent right true) (λ r. binary-Hands o l r inside)) a
expr-Hands (deref e) b a =
    past (require-Silent (path_field e))
      (λ p. hand_then (path-Hands p false) λ r inside.
        past (on_stab-Silent (stab_type-Reads r.type)) λ t. past (pointee-Silent t.ty) λ target.
          past (emit-Silent (load r.reg.name r.reg.name ∷ []) refl)
            λ _. gives (record { type = target; reg = r.reg }) inside)
      a
expr-Hands (idx p e) b a =
    past (type_of_path-Silent p false)
      (λ base. past (on_stab-Silent (stab_type-Reads base.type)) λ t.
        past (element-Silent t.ty) λ _. hand_then (expr-Hands e true) λ i inside.
          past (Silent-then (stop_if-Silent _ _) (λ _. load_if-Silent b i.reg.name))
            λ _. gives _ inside)
      a
expr-Hands (lit s) b a =
    hand_then gimme-Hands
      (λ r inside.
        past (emit-Silent (mov_literal r.name s ∷ []) refl)
          (λ _. gives (record { type = integer_type_idx; reg = r }) inside))
      a
expr-Hands (path p) b a = path-Hands p b a
expr-Hands (un o e) b a = hand_then (expr-Hands e true) (unary-Hands o) a
expr-Hands (addrof e) b a = λ _. stops

-- From a pool of fourteen registers, an expression that is accepted gives its value in a register
-- of the pool, and leaves a pool of fourteen registers.
pub analyze_expr-bounds :
    (e : AstExpr) (b : Bool) (a c : Acx) (r : Resu)
    → length a.rs.regs_used ≡ num_regs
    → analyze_expr e b a ≡ ok (r, c)
    → (r.reg.which < num_regs) × (length c.rs.regs_used ≡ num_regs)
analyze_expr-bounds e b a c r full returned = After_of_eq (expr-Hands e b a full) returned
