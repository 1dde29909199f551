-- ===== src/Tests/Subprograms.antt =====
-- Runs of the analysis on subprograms, with the theorems at them.
use cs.Prelude.{inl, List, ◌∷◌, ◌++◌, ◌≡◌, ◌≢◌, refl, false, []}
use cs.Ast.{
  AstType, AstSubdecl, subdecl, sub_function, no_decls, no_subdecls, sub, sub_procedure, stmts,
  no_stmts, lit, path, assign, for_to, AstStmt, stmt, wdo,
}
use cs.Exec.{ok}
use cs.Analysis.{Acx}
use cs.Analysis.Stmts.{analyze_stmt}
use cs.Analysis.Program.{initial_acx, analyze_subprog}
use cs.Analysis.Keeps.Subprogs.{Restored, analyze_subprog-Restored}
use cs.Analysis.Typing.Loops.{analyze_stmt-for_refused}
use cs.Tests.Runs.{state_of}
use cs.Tests.Programs.{var_path}
use cs.Tests.Analysis.{table, table-IsStab}
use cs.Symbol.Invariant.{IsStab}
use cs.Symbol.Scoping.{SameNames}
use cs.Analysis.{Insn, enter_subprogram}
use cs.Analysis.Scopes.Nesting.{analyze_subprog-falls_through}
use cs.Analysis.Scopes.{Later}
use cs.Analysis.Scopes.Subprogs.{analyze_subprog-SameNames}

-- In a function, where `x` is a variable.
abbrev in_function : Acx
in_function = record initial_acx { st = table; toplevel = false; current_func_type = sub_function }

-- `begin while 1 do x := 2 end`
abbrev looping : AstStmt
looping = stmts (stmt (wdo (lit "1") (assign (path (var_path "x")) (lit "2"))) no_stmts)

-- `for x := 1 to 9 do` with that body.
analyze_stmt-for_refused_example :
    analyze_stmt (for_to "x" (lit "1") (lit "9") looping) in_function ≢ ok (tt, in_function)
analyze_stmt-for_refused_example =
    analyze_stmt-for_refused "x" (lit "1") (lit "9") looping in_function in_function (inl tt) refl
      refl

-- `function f: integer; begin f := 1 end`
abbrev one : AstSubdecl
one =
    subdecl (AstType.func sub_function no_decls AstType.integer) "f" [] no_decls no_subdecls
      (assign (path (var_path "f")) (lit "1"))

abbrev after_one : Acx
after_one = state_of (analyze_subprog one in_function) in_function

one_returns : analyze_subprog one in_function ≡ ok (tt, after_one)
unfolding analyze_subprog analyze_stmt cs.Analysis.Exprs.analyze_expr cs.Analysis.Paths.type_of_path
    cs.Symbol.stab_resolve_var cs.Symbol.Decls.stab_add_decls cs.Symbol.Types.stab_resolve_type
    cs.Symbol.stab_enter cs.Util.Hash.lookup_entry cs.Symbol.Types.stab_add_var
    cs.Util.Hash.hash_insert cs.Util.Hash.write_last cs.Symbol.stab_new
    cs.Analysis.Registers.reg_gimme initial_acx cs.Analysis.Registers.reg_takeitback
    cs.Analysis.Stmts.check_assignability cs.Analysis.Stmts.assign_to
    cs.Symbol.Equality.stab_types_eq cs.Analysis.Program.begin_subprog
    cs.Analysis.Program.add_locals cs.Analysis.Program.finish_subprog cs.Symbol.stab_leave
    cs.Analysis.Program.end_subprog cs.Util.Hash.hforeach
one_returns = refl

analyze_subprog-Restored_example : Restored in_function after_one
analyze_subprog-Restored_example = analyze_subprog-Restored one in_function after_one one_returns

analyze_subprog-SameNames_example :
    IsStab after_one.st × SameNames in_function.st after_one.st × Later in_function.st after_one.st
analyze_subprog-SameNames_example =
    analyze_subprog-SameNames one in_function after_one table-IsStab one_returns

-- A procedure that declares the function and does nothing.
abbrev around : AstSubdecl
around =
    subdecl (AstType.func sub_procedure no_decls AstType.void) "p" [] no_decls (sub one no_subdecls)
      (stmts no_stmts)

abbrev after_around : Acx
after_around = state_of (analyze_subprog around in_function) in_function

around_returns : analyze_subprog around in_function ≡ ok (tt, after_around)
unfolding analyze_subprog analyze_stmt cs.Analysis.Exprs.analyze_expr cs.Analysis.Paths.type_of_path
    cs.Symbol.stab_resolve_var cs.Symbol.Decls.stab_add_decls cs.Symbol.Types.stab_resolve_type
    cs.Symbol.stab_enter cs.Util.Hash.lookup_entry cs.Symbol.Types.stab_add_var
    cs.Util.Hash.hash_insert cs.Util.Hash.write_last cs.Symbol.stab_new
    cs.Analysis.Registers.reg_gimme initial_acx cs.Analysis.Registers.reg_takeitback
    cs.Analysis.Stmts.check_assignability cs.Analysis.Stmts.assign_to
    cs.Symbol.Equality.stab_types_eq cs.Analysis.Program.begin_subprog
    cs.Analysis.Program.add_locals cs.Analysis.Program.finish_subprog cs.Symbol.stab_leave
    cs.Analysis.Program.end_subprog cs.Util.Hash.hforeach cs.Symbol.Decls.stab_add_func
    cs.Symbol.Types.stab_resolve_complex_type
around_returns = refl

analyze_subprog-falls_through_example :
    (is : List Insn) × (after_around.ofd
      ≡ in_function.ofd ++ enter_subprogram "p" ∷ enter_subprogram "f" ∷ is)
analyze_subprog-falls_through_example =
    analyze_subprog-falls_through sub_procedure no_decls AstType.void "p" [] no_decls one
      no_subdecls (stmts no_stmts) in_function after_around around_returns
