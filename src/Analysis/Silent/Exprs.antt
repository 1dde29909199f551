-- ===== src/Analysis/Silent/Exprs.antt =====
-- What `analyze_call` and `analyze_expr` of dragon/analysis.c leave alone.
use cs.Prelude.{
  ℕ, zero, suc, ◌≡◌, arith, refl, ap, List, [], ◌∷◌, ◌++◌, Option, none, some, Bool, true, false,
  not, ◌==◌, String, if◌then◌else◌,
}
use cs.Token.{Token, and_, or_, neq, le, ge, div, mod_, chr}
use cs.Ast.{AstPath, AstExpr, app, bin, deref, idx, lit, path, un, addrof, ExprList, no_exprs, expr}
use cs.Exec.{Exec}
use cs.Exec.Rules.{returns, stops}
use cs.Symbol.{StabType, ResolvedType, Magic, plain, read, readln, write, writeln}
use cs.Prelude.Int.{pos}
use cs.Analysis.{
  Condition, Acx, Reg, Resu, Insn, push_rbp, sub_rsp, blank_line, mov_rbp_rsp, call_subprogram, pop,
  pop_rbp, call,
}
use cs.Analysis.Labels.{all_plain}
use cs.Analysis.Registers.{saved, restored, save_registers, restore_registers_except}
use cs.Analysis.Exprs.{
  write_routine, read_routine, call_routine, write_argument, read_argument, complain,
  check_argument, length_exprs, signature, call_with, dispatch_call, call_path, compare_into,
  binary_code, binary, unary, pointee, element, load_if, analyze_expr, magic_args, pass_args,
  analyze_call, magic_result,
}
use cs.Analysis.Keeps.{append_nil, Moves}
use cs.Analysis.Keeps.Reads.{
  stab_type-Reads, stab_var-Reads, types_eq-Reads, reading, resolve_func-Reads,
}
use cs.Analysis.Silent.{
  silence, Silent, Silent-refl, Silent-prints, Silent-then, pure-Silent, halt-Silent,
  stop_if-Silent, emit-Silent, on_stab-Silent,
}
use cs.Analysis.Silent.Paths.{gimme-Silent, takeback-Silent, type_of_path-Silent}

call_routine-Silent : (o : Option String) (reg : String) → Moves Silent (call_routine o reg)
call_routine-Silent none reg = halt-Silent _
call_routine-Silent (some name) reg = emit-Silent _ refl

pub write_argument-Silent : (r : Resu) → Moves Silent (write_argument r)
unfolding write_argument
write_argument-Silent r =
    Silent-then (call_routine-Silent (write_routine r.type) r.reg.name) (λ _. takeback-Silent r.reg)

read_end_plain :
    (which : Magic) → all_plain (elim which [ readln ↦ call "read_newline@" ∷ [] | _ ↦ [] ]) ≡ true
read_end_plain readln = refl
read_end_plain _ = refl

write_end_plain :
    (which : Magic)
    → all_plain (elim which [ writeln ↦ call "write_newline@" ∷ [] | _ ↦ [] ]) ≡ true
write_end_plain writeln = refl
write_end_plain _ = refl

pub read_argument-Silent : (which : Magic) (r : Resu) → Moves Silent (read_argument which r)
unfolding read_argument
read_argument-Silent which r =
    Silent-then (call_routine-Silent (read_routine r.type) r.reg.name)
      (λ _. Silent-then (emit-Silent _ (read_end_plain which)) (λ _. takeback-Silent r.reg))

pub check_argument-Silent : (i type formal : ℕ) → Moves Silent (check_argument i type formal)
unfolding check_argument
check_argument-Silent i type formal =
    Silent-then (on_stab-Silent (stab_var-Reads formal))
      (λ v. Silent-then (on_stab-Silent (types_eq-Reads type v.type)) complains)
  where
    complains : (b : Bool) → Moves Silent (complain b i)
    complains true = pure-Silent _
    complains false = λ a. returns (
        Silent-prints a _ [] refl refl (
          ap (λ (l : List Insn). record a { ofd = l; mismatches = a.mismatches ++ i ∷ [] })
            (append_nil a.ofd)))

pub signature-Silent : (t : ResolvedType) → Moves Silent (signature t)
signature-Silent (ResolvedType.func kind args retty) = pure-Silent _
signature-Silent _ = halt-Silent _

saved_plain : (k i : ℕ) (regs : List Bool) → all_plain (saved k i regs) ≡ true
unfolding saved
saved_plain zero i regs = refl
saved_plain (suc k) i [] = refl
saved_plain (suc k) i (used ∷ regs) = ground (arith, saved_plain k (suc i) regs)

restored_plain : (k which : ℕ) (regs : List Bool) → all_plain (restored k which regs) ≡ true
unfolding restored
restored_plain zero which regs = refl
restored_plain (suc i) which regs = ground (arith, restored_plain i which regs)

pub save-Silent : Moves Silent save_registers
unfolding save_registers
save-Silent a = emit-Silent _ (saved_plain 6 0 a.rs.regs_used) a

pub restore-Silent : (r : Reg) → Moves Silent (restore_registers_except r)
unfolding restore_registers_except
restore-Silent r a = emit-Silent _ (restored_plain 6 r.which a.rs.regs_used) a

-- The code around a call.
pub called_plain :
    (b : Bool) (name reg : String)
    → all_plain (
        push_rbp
        ∷ (if b then sub_rsp (pos 8) else blank_line)
        ∷ mov_rbp_rsp
        ∷ call_subprogram name
        ∷ pop reg
        ∷ pop_rbp
        ∷ [])
      ≡ true
called_plain true name reg = refl
called_plain false name reg = refl

call_with-Silent :
    (name : String) (pt : StabType) (given : ℕ) (pass : List ℕ → Exec Acx (Unit {0}))
    → ((formals : List ℕ) → Moves Silent (pass formals))
    → Moves Silent (call_with name pt given pass)
unfolding call_with
call_with-Silent name pt given pass h =
    search (silence, called_plain, save-Silent, signature-Silent, gimme-Silent, restore-Silent)
      depth 30

dispatch-Silent :
    (which : Magic) (builtin : Magic → Exec Acx (Unit {0})) (ordinary : Exec Acx Resu)
    → ((w : Magic) → Moves Silent (builtin w))
    → Moves Silent ordinary
    → Moves Silent (dispatch_call which builtin ordinary)
dispatch-Silent plain builtin ordinary h k = k
dispatch-Silent read builtin ordinary h k = Silent-then (h read) (λ _. pure-Silent magic_result)
dispatch-Silent readln builtin ordinary h k = Silent-then (h readln) (λ _. pure-Silent magic_result)
dispatch-Silent write builtin ordinary h k = Silent-then (h write) (λ _. pure-Silent magic_result)
dispatch-Silent writeln builtin ordinary h k =
    Silent-then (h writeln) (λ _. pure-Silent magic_result)

call_path-Silent :
    (p : AstPath) (given : ℕ) (builtin : Magic → Exec Acx (Unit {0}))
    (pass : List ℕ → Exec Acx (Unit {0}))
    → ((w : Magic) → Moves Silent (builtin w))
    → ((formals : List ℕ) → Moves Silent (pass formals))
    → Moves Silent (call_path p given builtin pass)
unfolding call_path
call_path-Silent p given builtin pass h k =
    search (reading, silence, resolve_func-Reads, dispatch-Silent, call_with-Silent) depth 30

compare_into-Silent : (cc' : Condition) (l r : Resu) → Moves Silent (compare_into cc' l r)
compare_into-Silent cc' l r = search silence

if-Silent :
    {A : Type 0} {x y : Exec Acx A} (b : Bool)
    → Moves Silent x
    → Moves Silent y
    → Moves Silent (if b then x else y)
if-Silent true h k = h
if-Silent false h k = k

pub binary_code-Silent : (o : Token) (l r : Resu) → Moves Silent (binary_code o l r)
unfolding binary_code
binary_code-Silent and_ l r = emit-Silent _ refl
binary_code-Silent or_ l r = emit-Silent _ refl
binary_code-Silent neq l r = compare_into-Silent _ l r
binary_code-Silent le l r = compare_into-Silent _ l r
binary_code-Silent ge l r = compare_into-Silent _ l r
binary_code-Silent div l r = emit-Silent _ refl
binary_code-Silent mod_ l r = emit-Silent _ refl
binary_code-Silent (chr c) l r = if-Silent (c == b'=') (compare_into-Silent _ l r) (
    if-Silent (c == b'<') (compare_into-Silent _ l r) (
      if-Silent (c == b'>') (compare_into-Silent _ l r) (
        if-Silent (c == b'/') (emit-Silent _ refl) (
          if-Silent (c == b'+') (emit-Silent _ refl) (
            if-Silent (c == b'-') (emit-Silent _ refl)
              (if-Silent (c == b'*') (emit-Silent _ refl) (halt-Silent _)))))))
binary_code-Silent _ l r = halt-Silent _

pub binary-Silent : (o : Token) (l r : Resu) → Moves Silent (binary o l r)
unfolding binary
binary-Silent o l r = Silent-then (stop_if-Silent (not (l.type == r.type)) _) (λ _.
    Silent-then (binary_code-Silent o l r)
      (λ _. Silent-then (takeback-Silent r.reg) (λ _. pure-Silent _)))

pub unary-Silent : (o : Token) (r : Resu) → Moves Silent (unary o r)
unfolding unary
unary-Silent o r = search silence

pub pointee-Silent : (t : ResolvedType) → Moves Silent (pointee t)
pointee-Silent (ResolvedType.pointer p) = pure-Silent _
pointee-Silent _ = halt-Silent _

pub element-Silent : (t : ResolvedType) → Moves Silent (element t)
element-Silent (ResolvedType.array lower upper elt) = pure-Silent _
element-Silent _ = halt-Silent _

pub load_if-Silent : (b : Bool) (reg : String) → Moves Silent (load_if b reg)
load_if-Silent true reg = emit-Silent _ refl
load_if-Silent false reg = pure-Silent _

mutual
  unfolding analyze_expr

  pub expr-Silent : (e : AstExpr) (b : Bool) → Moves Silent (analyze_expr e b)
  expr-Silent (app p args) b a =
      call_path-Silent p (length_exprs args) _ _ (magic_args-Silent args) (pass_args-Silent args 0)
        a
  expr-Silent (bin o left right) b a =
      Silent-then (expr-Silent left true)
        (λ l. Silent-then (expr-Silent right true) (λ r. binary-Silent o l r)) a
  expr-Silent (deref e) b a =
      search (reading, silence, type_of_path-Silent, pointee-Silent) depth 30
  expr-Silent (idx p e) b a =
      Silent-then (type_of_path-Silent p false)
        (λ base. Silent-then (on_stab-Silent (stab_type-Reads base.type)) (λ t.
          Silent-then (element-Silent t.ty) (λ elt. Silent-then (expr-Silent e true) (λ i.
            Silent-then (Silent-then (stop_if-Silent _ _) (λ _. load_if-Silent b i.reg.name))
              (λ _. pure-Silent _)))))
        a
  expr-Silent (lit s) b a = search (silence, gimme-Silent) depth 30
  expr-Silent (path p) b a = type_of_path-Silent p b a
  expr-Silent (un o e) b a = Silent-then (expr-Silent e true) (unary-Silent o) a
  expr-Silent (addrof e) b a = stops

  pub magic_args-Silent : (es : ExprList) (which : Magic) → Moves Silent (magic_args es which)
  magic_args-Silent no_exprs which a = emit-Silent _ (write_end_plain which) a
  magic_args-Silent (expr e es) plain a = stops
  magic_args-Silent (expr e es) write a =
      Silent-then (expr-Silent e true)
        (λ r. Silent-then (write_argument-Silent r) (λ _. magic_args-Silent es write)) a
  magic_args-Silent (expr e es) writeln a =
      Silent-then (expr-Silent e true)
        (λ r. Silent-then (write_argument-Silent r) (λ _. magic_args-Silent es writeln)) a
  magic_args-Silent (expr e es) read a =
      Silent-then (Silent-then (stop_if-Silent _ _) (λ _. expr-Silent e false))
        (λ r. Silent-then (read_argument-Silent read r) (λ _. magic_args-Silent es read)) a
  magic_args-Silent (expr e es) readln a =
      Silent-then (Silent-then (stop_if-Silent _ _) (λ _. expr-Silent e false))
        (λ r. Silent-then (read_argument-Silent readln r) (λ _. magic_args-Silent es readln)) a

  pub pass_args-Silent :
      (es : ExprList) (i : ℕ) (formals : List ℕ) → Moves Silent (pass_args es i formals)
  pass_args-Silent no_exprs i formals a = returns (Silent-refl a)
  pass_args-Silent (expr e es) i [] a = returns (Silent-refl a)
  pass_args-Silent (expr e es) i (formal ∷ formals) a =
      Silent-then (expr-Silent e true)
        (λ r.
          Silent-then
            (Silent-then (check_argument-Silent i r.type formal) (λ _. emit-Silent _ refl))
            (λ _. pass_args-Silent es (suc i) formals))
        a

pub call-Silent : (p : AstPath) (args : ExprList) → Moves Silent (analyze_call p args)
unfolding analyze_call
call-Silent p args =
    call_path-Silent p (length_exprs args) _ _ (magic_args-Silent args) (pass_args-Silent args 0)
