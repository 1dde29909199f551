-- ===== src/Tests/Accepting.antt =====
-- A loop and an expression that the analysis is made to accept.
use cs.Prelude.{◌≡◌, ◌≤◌, refl, inl, true, length, arith}
use cs.Token.{chr}
use cs.Ast.{lit, bin}
use cs.Exec.{ok}
use cs.Symbol.{resolve_failure}
use cs.Symbol.Equality.Laws.{SameType, basic}
use cs.Analysis.{Acx, Resu}
use cs.Analysis.Exprs.{analyze_expr}
use cs.Analysis.Stmts.{analyze_stmt}
use cs.Analysis.Registers.{num_regs}
use cs.Analysis.Accepts.{Accepted, AcceptedStmt, literal, variable, operator, assigned, repeated}
use cs.Analysis.Accepts.Exprs.{analyze_expr-returns}
use cs.Analysis.Accepts.Stmts.{analyze_stmt-returns}
use cs.Tests.Analysis.{table, table-IsStab, table_fits, ready, x, sum, loop}

types_fit : length table.types ≤ resolve_failure
unfolding cs.Symbol.Decls.stab_add_decls cs.Symbol.Types.stab_resolve_type cs.Symbol.stab_enter
    cs.Util.Hash.lookup_entry cs.Symbol.Types.stab_add_var cs.Symbol.stab_new
types_fit = omega arith

x_accepted : Accepted table x 0
unfolding cs.Symbol.Decls.stab_add_decls cs.Symbol.Types.stab_resolve_type cs.Symbol.stab_enter
    cs.Util.Hash.lookup_entry cs.Symbol.Types.stab_add_var cs.Symbol.stab_new cs.Ast.ast_path
    cs.Symbol.stab_resolve_var cs.Util.Hash.hash_insert cs.Util.Hash.write_last
x_accepted = variable "x" refl refl

sum_accepted : Accepted table sum 0
unfolding cs.Analysis.Accepts.is_operator cs.Token.is_relop
sum_accepted = operator refl x_accepted literal

integers : SameType table 0 0
unfolding cs.Symbol.Decls.stab_add_decls cs.Symbol.Types.stab_resolve_type cs.Symbol.stab_enter
    cs.Util.Hash.lookup_entry cs.Symbol.Types.stab_add_var cs.Symbol.stab_new
integers = basic refl refl tt refl

loop_accepted : AcceptedStmt table loop
unfolding cs.Analysis.Accepts.is_operator cs.Token.is_relop cs.Analysis.Accepts.is_target
loop_accepted =
    repeated (operator refl x_accepted literal) (assigned refl x_accepted sum_accepted integers)

analyze_expr-returns_example :
    (r : Resu) × (c : Acx) × (analyze_expr sum true ready ≡ ok (r, c)) × (r.type ≡ 0)
unfolding cs.Analysis.Program.initial_acx
analyze_expr-returns_example =
    analyze_expr-returns sum 0 true ready refl table-IsStab table_fits types_fit sum_accepted

analyze_stmt-returns_example :
    (c : Acx) × (analyze_stmt loop ready ≡ ok (tt, c))
    × (c.st.chain ≡ ready.st.chain)
    × (length c.rs.regs_used ≡ num_regs)
unfolding cs.Analysis.Program.initial_acx
analyze_stmt-returns_example =
    analyze_stmt-returns loop ready refl table-IsStab table_fits types_fit (inl refl) loop_accepted
