-- ===== src/Analysis/Exprs.antt =====
-- `analyze_expr`, `analyze_call` and `analyze_magic` of dragon/analysis.c.
use Prim.Native.String.{String}
use cs.Prelude.{
  ℕ, suc, Bool, true, false, not, ◌&&◌, ◌||◌, List, [], ◌∷◌, ◌++◌, Option, none, some, length, ◌==◌,
  if◌then◌else◌,
}
use cs.Prelude.Int.{pos}
use cs.Token.{Token, and_, or_, neq, le, ge, div, mod_, not_, chr, is_relop}
use cs.Ast.{AstPath, AstExpr, app, bin, deref, idx, lit, path, un, addrof, ExprList, no_exprs, expr}
use cs.Exec.{
  span_err, aborted, unresolved_subprogram, unprintable_argument, not_an_lvalue,
  wrong_argument_count, incompatible_operands, unsupported_operator, dereferenced_non_pointer,
  indexed_non_array, non_integer_index, unary_sign_of_non_number, not_of_non_boolean, Exec, ok,
  pure, halt, require, stop_if, ◌>>=◌, ◌>>◌,
}
use cs.Symbol.{
  StabType, ResolvedType, Magic, plain, read, readln, write, writeln, stab_type, stab_var,
  stab_resolve_func, resolve_failure, integer_type_idx, real_type_idx, string_type_idx,
  boolean_type_idx, char_type_idx, void_type_idx,
}
use cs.Symbol.Equality.{stab_types_eq}
use cs.Analysis.{
  Acx, Resu, Insn, Op, Condition, emit, on_stab, load, mov_literal, op, set_cc, movzx, idiv, call,
  call_subprogram, push, pop, push_rbp, pop_rbp, mov_rbp_rsp, blank_line, sub_rsp, add_rsp,
}
use cs.Analysis.Registers.{reg_gimme, reg_takeitback, save_registers, restore_registers_except}
use cs.Analysis.Paths.{type_of_path}

-- The routines of the run-time library that the two `switch`es on the type name.
unfoldable pub write_routine : ℕ → Option String
write_routine t =
    if t == integer_type_idx
    then some "write_integer@"
    else if t == real_type_idx
    then some "write_real@"
    else if t == string_type_idx
    then some "write_string@"
    else if t == boolean_type_idx
    then some "write_bool@"
    else if t == char_type_idx
    then some "write_char@"
    else if t == void_type_idx
    then some "write_void@"
    else none

unfoldable pub read_routine : ℕ → Option String
read_routine t =
    if t == integer_type_idx
    then some "read_integer@"
    else if t == real_type_idx
    then some "read_real@"
    else if t == string_type_idx
    then some "read_string@"
    else if t == boolean_type_idx
    then some "read_bool@"
    else if t == char_type_idx
    then some "read_char@"
    else if t == void_type_idx
    then some "read_void@"
    else none

-- The call of a routine with one argument on the stack.
abbrev pub call_routine : Option String → String → Exec Acx (Unit {0})
call_routine none reg = halt (span_err unprintable_argument)
call_routine (some name) reg = emit (push reg ∷ call name ∷ add_rsp (pos 8) ∷ [])

-- The body of the loop over the arguments of `write` and `writeln`.
unfoldable pub write_argument : Resu → Exec Acx (Unit {0})
unfolding write_routine
write_argument r = do call_routine (write_routine r.type) r.reg.name; reg_takeitback r.reg

-- The end of the body of the loop over the arguments of `read` and `readln`.
unfoldable pub read_argument : Magic → Resu → Exec Acx (Unit {0})
unfolding read_routine
read_argument which r = do
  call_routine (read_routine r.type) r.reg.name
  emit (elim which [ readln ↦ call "read_newline@" ∷ [] | _ ↦ [] ])
  reg_takeitback r.reg

abbrev pub is_lvalue : AstExpr → Bool
is_lvalue (idx p e) = true
is_lvalue (deref e) = true
is_lvalue (path p) = true
is_lvalue _ = false

-- The value of a call of `read` or `write`: type void, and a register without a name.
abbrev pub magic_result : Resu
magic_result = record {
  type = void_type_idx;
  reg = record { name = ""; which = 0; need_restore = false };
}

-- The test of an argument's type against the parameter's, which only prints a message.
abbrev pub complain : Bool → ℕ → Exec Acx (Unit {0})
complain true i acx = pure tt acx
complain false i acx = ok (tt, record acx { mismatches = acx.mismatches ++ i ∷ [] })

unfoldable pub check_argument : ℕ → ℕ → ℕ → Exec Acx (Unit {0})
check_argument i type formal = do
  v ← on_stab (stab_var formal)
  same ← on_stab (stab_types_eq type v.type)
  complain same i

-- `expressions->length`
abbrev pub length_exprs : ExprList → ℕ
length_exprs no_exprs = 0
length_exprs (expr e es) = suc (length_exprs es)

-- The parameters and the return type of what is called.
abbrev pub signature : ResolvedType → Exec Acx (List ℕ × ℕ)
signature (ResolvedType.func kind args retty) = pure (args, retty)
signature _ = halt aborted

-- A call of an ordinary subprogram; `pass` analyses the arguments against the parameters and
-- pushes them.
unfoldable pub call_with : String → StabType → ℕ → (List ℕ → Exec Acx (Unit {0})) → Exec Acx Resu
call_with name pt given pass = do
  save_registers
  (formals, retty) ← signature pt.ty
  stop_if (not (given == length formals)) (span_err wrong_argument_count)
  pass formals
  reg ← reg_gimme
  emit (
      push_rbp
      ∷ (if given == 0 then sub_rsp (pos 8) else blank_line)
      ∷ mov_rbp_rsp
      ∷ call_subprogram name
      ∷ pop reg.name
      ∷ pop_rbp
      ∷ [])
  restore_registers_except reg
  pure (record { type = retty; reg = reg })

-- `analyze_call`, over what it does with the arguments of a built-in and of an ordinary call.
abbrev pub dispatch_call : Magic → (Magic → Exec Acx (Unit {0})) → Exec Acx Resu → Exec Acx Resu
dispatch_call plain builtin ordinary = ordinary
dispatch_call which builtin ordinary = builtin which >> pure magic_result

unfoldable pub call_path :
    AstPath → ℕ → (Magic → Exec Acx (Unit {0})) → (List ℕ → Exec Acx (Unit {0})) → Exec Acx Resu
unfolding call_with
call_path p given builtin pass = do
  stop_if (not (length p.rest == 0)) aborted
  pty ← on_stab (λ st. ok (stab_resolve_func st p.first, st))
  stop_if (pty == resolve_failure) (span_err (unresolved_subprogram p.first))
  pt ← on_stab (stab_type pty)
  dispatch_call pt.magic builtin (call_with p.first pt given pass)

-- `e->deref->path`: the path of the operand, which stands first in the union for these three.
abbrev pub path_field : AstExpr → Option AstPath
path_field (path p) = some p
path_field (idx p e) = some p
path_field (app p es) = some p
path_field _ = none

-- The 8-bit name: the second letter of the register's name and an `l`. A name of less than two
-- letters is read and written past its end.
abbrev pub low_byte : String → Option String
low_byte (String.◌∷◌ c (String.◌∷◌ d s)) = some (String.◌∷◌ d "l")
low_byte _ = none

abbrev pub compare_into : Condition → Resu → Resu → Exec Acx (Unit {0})
compare_into cc l r = do
  emit (op Op.op_cmp l.reg.name r.reg.name ∷ [])
  low ← require (low_byte r.reg.name)
  emit (set_cc cc low ∷ movzx l.reg.name low ∷ [])

abbrev pub arithmetic : Op → Resu → Resu → Exec Acx (Unit {0})
arithmetic o l r = emit (op o l.reg.name r.reg.name ∷ [])

abbrev pub divide_into : String → Resu → Resu → Exec Acx (Unit {0})
divide_into result l r = emit (
    push "rdx"
    ∷ push "rax"
    ∷ idiv l.reg.name r.reg.name
    ∷ Insn.mov l.reg.name result
    ∷ pop "rax"
    ∷ pop "rdx"
    ∷ [])

-- The `switch` on the operator.
unfoldable pub binary_code : Token → Resu → Resu → Exec Acx (Unit {0})
binary_code and_ l r = arithmetic Op.op_and l r
binary_code or_ l r = arithmetic Op.op_or l r
binary_code neq l r = compare_into Condition.ne l r
binary_code le l r = compare_into Condition.le l r
binary_code ge l r = compare_into Condition.ge l r
binary_code div l r = divide_into "rax" l r
binary_code mod_ l r = divide_into "rdx" l r
binary_code (chr c) l r =
    if c == b'='
    then compare_into Condition.e l r
    else if c == b'<'
    then compare_into Condition.l l r
    else if c == b'>'
    then compare_into Condition.g l r
    else if c == b'/'
    then divide_into "rax" l r
    else if c == b'+'
    then arithmetic Op.op_add l r
    else if c == b'-'
    then arithmetic Op.op_sub l r
    else if c == b'*'
    then arithmetic Op.op_imul l r
    else halt (span_err unsupported_operator)
binary_code _ l r = halt (span_err unsupported_operator)

unfoldable pub binary : Token → Resu → Resu → Exec Acx Resu
unfolding binary_code is_relop
binary o l r = do
  stop_if (not (l.type == r.type)) (span_err incompatible_operands)
  binary_code o l r
  reg_takeitback r.reg
  pure (record { type = if is_relop o then boolean_type_idx else l.type; reg = l.reg })

abbrev pub is_not : Token → Bool
is_not not_ = true
is_not _ = false

-- The tests stand in the source in this order, the message of each being the other's.
unfoldable pub unary : Token → Resu → Exec Acx Resu
unary o r = do
  stop_if (is_not o && (not (r.type == integer_type_idx) || not (r.type == real_type_idx)))
      (span_err unary_sign_of_non_number)
  stop_if (not (r.type == boolean_type_idx)) (span_err not_of_non_boolean)
  emit (Insn.not_ r.reg.name ∷ [])
  pure r

abbrev pub pointee : ResolvedType → Exec Acx ℕ
pointee (ResolvedType.pointer p) = pure p
pointee _ = halt (span_err dereferenced_non_pointer)

abbrev pub element : ResolvedType → Exec Acx ℕ
element (ResolvedType.array lower upper elt) = pure elt
element _ = halt (span_err indexed_non_array)

abbrev pub load_if : Bool → String → Exec Acx (Unit {0})
load_if true reg = emit (load reg reg ∷ [])
load_if false reg = pure tt

unfoldable mutual
  pub analyze_expr : AstExpr → Bool → Exec Acx Resu
  analyze_expr (app p args) compute_rvalue acx =
      call_path p (length_exprs args) (λ which. magic_args args which)
        (λ formals. pass_args args 0 formals) acx
  analyze_expr (bin o left right) compute_rvalue acx =
      (analyze_expr left true >>= λ l. analyze_expr right true >>= λ r. binary o l r) acx
  analyze_expr (deref e) compute_rvalue acx =
      (require (path_field e) >>= λ p. type_of_path p false >>= λ r.
      on_stab (stab_type r.type) >>= λ t. pointee t.ty >>= λ target.
      emit (load r.reg.name r.reg.name ∷ []) >> pure (record { type = target; reg = r.reg }))
        acx
  analyze_expr (idx p e) compute_rvalue acx =
      (type_of_path p false >>= λ base. on_stab (stab_type base.type) >>= λ t.
      element t.ty >>= λ elt. analyze_expr e true >>= λ i.
      stop_if (not (i.type == integer_type_idx)) (span_err non_integer_index)
      >> load_if compute_rvalue i.reg.name
      >> pure (record { type = elt; reg = i.reg }))
        acx
  analyze_expr (lit s) compute_rvalue acx =
      (reg_gimme >>= λ r.
      emit (mov_literal r.name s ∷ []) >> pure (record { type = integer_type_idx; reg = r }))
        acx
  analyze_expr (path p) compute_rvalue acx = type_of_path p compute_rvalue acx
  analyze_expr (un o e) compute_rvalue acx = (analyze_expr e true >>= unary o) acx
  analyze_expr (addrof e) compute_rvalue acx = halt aborted acx

  -- `analyze_magic`: the loops over the arguments, and what follows the one of `writeln`.
  pub magic_args : ExprList → Magic → Exec Acx (Unit {0})
  magic_args no_exprs which acx =
      emit (elim which [ writeln ↦ call "write_newline@" ∷ [] | _ ↦ [] ]) acx
  magic_args (expr e es) plain acx = halt aborted acx
  magic_args (expr e es) write acx =
      (analyze_expr e true >>= λ r. write_argument r >> magic_args es write) acx
  magic_args (expr e es) writeln acx =
      (analyze_expr e true >>= λ r. write_argument r >> magic_args es writeln) acx
  magic_args (expr e es) read acx =
      (stop_if (not (is_lvalue e)) (span_err not_an_lvalue) >> analyze_expr e false >>= λ r.
      read_argument read r >> magic_args es read)
        acx
  magic_args (expr e es) readln acx =
      (stop_if (not (is_lvalue e)) (span_err not_an_lvalue) >> analyze_expr e false >>= λ r.
      read_argument readln r >> magic_args es readln)
        acx

  -- The loop over the arguments and the parameters together.
  pub pass_args : ExprList → ℕ → List ℕ → Exec Acx (Unit {0})
  pass_args no_exprs i formals acx = pure tt acx
  pass_args (expr e es) i [] acx = pure tt acx
  pass_args (expr e es) i (formal ∷ formals) acx =
      (analyze_expr e true >>= λ r.
      check_argument i r.type formal >> emit (push r.reg.name ∷ []) >> pass_args es (suc i) formals)
        acx

unfoldable pub analyze_call : AstPath → ExprList → Exec Acx Resu
unfolding analyze_expr call_path
analyze_call p args = call_path p (length_exprs args) (magic_args args) (pass_args args 0)
