-- ===== src/Tests/Analysis.antt =====
-- Runs of the analysis on small inputs, with the theorems at them.
use cs.Prelude.{ℕ, List, ◌++◌, ◌<◌, ◌≡◌, refl, true, false, [], ◌∷◌, none, ◌≤◌, ◌⊎◌, length, arith}
use cs.Token.{chr}
use cs.Ast.{AstExpr, AstStmt, AstType, lit, bin, path, assign, wdo}
use cs.Exec.{ok}
use cs.Symbol.{resolve_failure, Stab, stab_new, stab_enter}
use cs.Symbol.Decls.{stab_add_decls}
use cs.Analysis.{Acx, Resu, on_stab}
use cs.Analysis.Exprs.{analyze_expr}
use cs.Analysis.Stmts.{analyze_stmt, enter}
use cs.Analysis.Program.{initial_acx}
use cs.Symbol.Invariant.{IsStab}
use cs.Analysis.{RegisterSet, Reg, Insn}
use cs.Analysis.Labels.{definitions, jumps}
use cs.Analysis.Labels.Stmts.{inside, analyze_stmt-labels}
use cs.Analysis.Registers.{num_regs, reg_gimme, reg_takeitback}
use cs.Analysis.Registers.Bounds.{analyze_expr-bounds}
use cs.Analysis.Registers.Pool.{Fresh, Spilled, reg_gimme_cases}
use cs.Analysis.Keeps.{Keeps}
use cs.Analysis.Keeps.Laws.{analyze_stmt-Keeps}
use cs.Analysis.Typing.{env_of, HasType}
use cs.Analysis.Typing.Exprs.{analyze_expr-HasType}
use cs.Analysis.Typing.Pieces.{WellTyped}
use cs.Analysis.Typing.Stmts.{analyze_stmt-WellTyped}
use cs.Symbol.Invariant.{stab_new-IsStab, stab_enter-IsStab}
use cs.Symbol.Invariant.Decls.{stab_add_decls-NamesMean}
use cs.Tests.Runs.{state_of, value_of}
use cs.Tests.Programs.{var_path}

-- A scope with `x : integer`.
abbrev pub table : Stab
table =
    state_of (stab_add_decls ("x" ∷ []) AstType.integer none true (stab_enter stab_new)) stab_new

table_eq :
    stab_add_decls ("x" ∷ []) AstType.integer none true (stab_enter stab_new) ≡ ok (none, table)
unfolding stab_add_decls cs.Symbol.Types.stab_resolve_type stab_enter cs.Util.Hash.lookup_entry
    cs.Symbol.Types.stab_add_var
table_eq = refl

pub table_fits : length table.vars ≤ resolve_failure
unfolding stab_add_decls cs.Symbol.Types.stab_resolve_type stab_enter cs.Util.Hash.lookup_entry
    cs.Symbol.Types.stab_add_var stab_new
table_fits = omega arith

pub table-IsStab : IsStab table
table-IsStab =
    (stab_add_decls-NamesMean ("x" ∷ []) AstType.integer none none true (stab_enter stab_new) table
      (stab_enter-IsStab stab_new-IsStab) table_eq table_fits).0

abbrev pub ready : Acx
ready = record initial_acx { st = table; toplevel = true }

-- `while x <= 9 do x := x + 1`
abbrev pub x : AstExpr
x = path (var_path "x")

abbrev pub loop : AstStmt
loop = wdo (bin (chr b'<') x (lit "9")) (assign x (bin (chr b'+') x (lit "1")))

abbrev after_loop : Acx
after_loop = state_of (analyze_stmt loop ready) ready

loop_returns : analyze_stmt loop ready ≡ ok (tt, after_loop)
unfolding analyze_stmt analyze_expr cs.Analysis.Paths.type_of_path cs.Symbol.stab_resolve_var
    stab_add_decls cs.Symbol.Types.stab_resolve_type stab_enter cs.Util.Hash.lookup_entry
    cs.Symbol.Types.stab_add_var cs.Util.Hash.hash_insert cs.Util.Hash.write_last stab_new reg_gimme
    initial_acx cs.Analysis.Exprs.binary reg_takeitback cs.Analysis.Stmts.check_assignability
    cs.Analysis.Stmts.assign_to cs.Symbol.Equality.stab_types_eq
loop_returns = refl

analyze_stmt-WellTyped_example : WellTyped (env_of ready.st) loop
analyze_stmt-WellTyped_example = analyze_stmt-WellTyped loop ready after_loop loop_returns

analyze_stmt-Keeps_example : Keeps ready after_loop × IsStab after_loop.st
analyze_stmt-Keeps_example = analyze_stmt-Keeps loop ready after_loop table-IsStab loop_returns

analyze_stmt-labels_example :
    (is : List Insn) × (after_loop.ofd ≡ ready.ofd ++ is)
    × ((n : ℕ) → definitions n is ≡ inside ready.label after_loop.label n)
    × ((n : ℕ) → 0 < jumps n is → definitions n is ≡ 1)
analyze_stmt-labels_example = analyze_stmt-labels loop ready after_loop loop_returns

-- `x + 1`
abbrev pub sum : AstExpr
sum = bin (chr b'+') x (lit "1")

abbrev sum_value : Resu
sum_value =
    value_of (analyze_expr sum true ready)
      (record { type = 5; reg = record { name = ""; which = 0; need_restore = false } })

abbrev after_sum : Acx
after_sum = state_of (analyze_expr sum true ready) ready

sum_returns : analyze_expr sum true ready ≡ ok (sum_value, after_sum)
unfolding analyze_expr cs.Analysis.Paths.type_of_path cs.Symbol.stab_resolve_var stab_add_decls
    cs.Symbol.Types.stab_resolve_type stab_enter cs.Util.Hash.lookup_entry
    cs.Symbol.Types.stab_add_var cs.Util.Hash.hash_insert cs.Util.Hash.write_last stab_new reg_gimme
    initial_acx cs.Analysis.Exprs.binary reg_takeitback
sum_returns = refl

analyze_expr-HasType_example : HasType (env_of ready.st) sum sum_value.type
analyze_expr-HasType_example = analyze_expr-HasType sum true ready after_sum sum_value sum_returns

analyze_expr-bounds_example :
    (sum_value.reg.which < num_regs) × (length after_sum.rs.regs_used ≡ num_regs)
unfolding initial_acx
analyze_expr-bounds_example =
    analyze_expr-bounds sum true ready after_sum sum_value refl sum_returns

reg_gimme_cases_example :
    (r : Reg) × (acx : Acx) × (reg_gimme after_sum ≡ ok (r, acx))
    × (Fresh after_sum.rs.regs_used r acx.rs.regs_used ⊎ Spilled after_sum r acx)
reg_gimme_cases_example = reg_gimme_cases after_sum
