-- ===== src/Analysis/Stmts.antt =====
-- `check_assignability` and `analyze_stmt` of dragon/analysis.c.
use cs.Prelude.{String, Bool, true, false, not, [], ◌∷◌, ◌==◌, str_eq, if◌then◌else◌}
use cs.Ast.{
  Subprogs, sub_function, sub_procedure, ast_path, AstExpr, deref, idx, path, AstStmt, assign,
  for_to, ite, proc, stmts, wdo, skip, StmtList, no_stmts, stmt,
}
use cs.Exec.{
  span_err, aborted, undefined, assigned_to_nonlocal, incompatible_assignment,
  for_start_not_integer, for_end_not_integer, for_variable_not_integer, if_not_boolean,
  while_not_boolean, Exec, ok, pure, halt, stop_if, ◌>>=◌, ◌>>◌,
}
use cs.Symbol.{stab_enter, stab_leave, stab_has_local_var, integer_type_idx, boolean_type_idx}
use cs.Symbol.Equality.{stab_types_eq}
use cs.Analysis.{
  Acx, Resu, push, store, label, jmp, je, jne, cmp_one, op, Op, inc, store_top, emit, on_stab,
  next_label,
}
use cs.Analysis.Registers.{reg_takeitback}
use cs.Analysis.Paths.{type_of_path}
use cs.Analysis.Exprs.{analyze_expr, analyze_call}

abbrev pub is_function : Subprogs → Bool
is_function sub_function = true
is_function sub_procedure = false

-- The test that a function assigns to a name of its own scope.
abbrev pub check_local : Subprogs → String → Exec Acx (Unit {0})
check_local sub_procedure name = pure tt
check_local sub_function name = do
  here ← on_stab (stab_has_local_var name)
  stop_if (not here) (span_err assigned_to_nonlocal)

-- An assignment to the name of the subprogram sets its result.
abbrev pub note_result : String → Exec Acx (Unit {0})
note_result name acx = ok (
  tt,
  record acx {
    ret_assigned = if str_eq acx.current_func_name name then true else acx.ret_assigned;
  },
)

-- The end of `check_assignability` for a name.
unfoldable pub check_name : String → Exec Acx (Unit {0})
check_name name acx = (check_local acx.current_func_type name >> note_result name) acx

-- What follows the test of `toplevel`. The path that the source returns is not used. For a
-- dereference the source reads `e->path`, which is not the member that was stored: the name that
-- it gets is no string.
unfoldable pub check_target : AstExpr → Exec Acx (Unit {0})
unfolding check_name
check_target (path p) = check_name p.first
check_target (idx p e) = check_name p.first >> check_name p.first
check_target (deref e) = check_target e >> halt undefined
check_target _ = halt aborted

unfoldable pub check_assignability : AstExpr → Exec Acx (Unit {0})
unfolding check_target
check_assignability e acx = if acx.toplevel then ok (tt, acx) else check_target e acx

-- The code of an assignment once both sides are analysed.
unfoldable pub assign_to : Resu → Resu → Exec Acx (Unit {0})
assign_to l r = do
  same ← on_stab (stab_types_eq r.type l.type)
  stop_if (not same) (span_err incompatible_assignment)
  emit (store l.reg.name r.reg.name ∷ [])
  reg_takeitback r.reg
  reg_takeitback l.reg

-- The tests of the bounds of a `for`, the second only if the first passed.
abbrev pub check_bounds : Resu → Resu → Exec Acx (Unit {0})
check_bounds start end = do
  stop_if (not (start.type == integer_type_idx)) (span_err for_start_not_integer)
  stop_if (not (end.type == integer_type_idx)) (span_err for_end_not_integer)

abbrev pub enter : Exec Acx (Unit {0})
enter acx = ok (tt, record acx { st = stab_enter acx.st })

unfoldable mutual
  pub analyze_stmt : AstStmt → Exec Acx (Unit {0})
  analyze_stmt skip acx = pure tt acx
  analyze_stmt (assign lvalue rvalue) acx =
      (analyze_expr lvalue false >>= λ l.
      check_assignability lvalue >> analyze_expr rvalue true >>= λ r. assign_to l r)
        acx
  analyze_stmt (for_to id start end body) acx =
      (analyze_expr start true >>= λ s. analyze_expr end true >>= λ e.
      check_bounds s e >> type_of_path (ast_path id) false >>= λ i.
      stop_if (not (i.type == integer_type_idx)) (span_err for_variable_not_integer)
      >> enter
      >> emit (push s.reg.name ∷ [])
      >> next_label
      >>= λ l₀. next_label >>= λ l₁.
          emit (label l₀ ∷ op Op.op_cmp s.reg.name e.reg.name ∷ je l₁ ∷ [])
          >> analyze_stmt body
          >> emit (inc s.reg.name ∷ store_top s.reg.name ∷ jmp l₀ ∷ label l₁ ∷ [])
          >> reg_takeitback e.reg
          >> reg_takeitback s.reg
          >> on_stab stab_leave)
        acx
  analyze_stmt (ite cond yes_ no_) acx =
      (analyze_expr cond true >>= λ c.
      stop_if (not (c.type == boolean_type_idx)) (span_err if_not_boolean) >> next_label >>= λ l₀.
      next_label >>= λ l₁.
      emit (cmp_one c.reg.name ∷ jne l₀ ∷ [])
      >> reg_takeitback c.reg
      >> analyze_stmt yes_
      >> emit (jmp l₁ ∷ label l₀ ∷ [])
      >> analyze_stmt no_
      >> emit (label l₁ ∷ []))
        acx
  analyze_stmt (proc name args) acx = (analyze_call name args >>= λ c. reg_takeitback c.reg) acx
  analyze_stmt (stmts ss) acx = analyze_stmts ss acx
  analyze_stmt (wdo cond body) acx =
      (next_label >>= λ l₀. next_label >>= λ l₁.
      emit (label l₀ ∷ []) >> analyze_expr cond true >>= λ c.
      stop_if (not (c.type == boolean_type_idx)) (span_err while_not_boolean)
      >> emit (cmp_one c.reg.name ∷ jne l₁ ∷ [])
      >> reg_takeitback c.reg
      >> analyze_stmt body
      >> emit (jmp l₀ ∷ label l₁ ∷ []))
        acx

  pub analyze_stmts : StmtList → Exec Acx (Unit {0})
  analyze_stmts no_stmts acx = pure tt acx
  analyze_stmts (stmt s ss) acx = (analyze_stmt s >> analyze_stmts ss) acx
