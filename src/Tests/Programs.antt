-- ===== src/Tests/Programs.antt =====
-- Small programs through `analyze`.
use cs.Prelude.{◌≡◌, refl, length, String, [], ◌∷◌, List}
use cs.Token.{chr}
use cs.Ast.{
  AstProgram, AstPath, no_decls, decls, no_subdecls, sub, subdecl, sub_procedure, AstType, lit, bin,
  path, proc, stmts, stmt, no_stmts, expr, no_exprs, assign,
}
use cs.Exec.{Result, ok, stop}
use cs.Analysis.{Acx, Insn}
use cs.Analysis.Program.{analyze, initial_acx}
use cs.Symbol.Invariant.{IsStab}
use cs.Analysis.Scopes.Program.{analyze-IsStab}
use cs.Analysis.Typing.Programs.{TypedProgram, analyze-TypedProgram}
use cs.Tests.Runs.{state_of}

abbrev pub var_path : String → AstPath
var_path x = record { first = x; rest = [] }

-- var x: integer; begin x := 1 + 2; writeln(x) end.
abbrev pub sums : AstProgram
sums = record {
  name = "sums";
  args = "output" ∷ [];
  types = [];
  decls = decls ("x" ∷ []) AstType.integer no_decls;
  subprogs = no_subdecls;
  body = stmts (
      stmt (assign (path (var_path "x")) (bin (chr b'+') (lit "1") (lit "2")))
        (stmt (proc (var_path "writeln") (expr (path (var_path "x")) no_exprs)) no_stmts));
}

abbrev code_of : Result (Unit {0} × Acx) → List Insn
code_of (ok (_, acx)) = acx.ofd
code_of (stop e) = []

sums_code : List Insn
unfolding analyze
sums_code = code_of (analyze sums)

abbrev after_sums : Acx
after_sums = state_of (analyze sums) initial_acx

sums_accepted : analyze sums ≡ ok (tt, after_sums)
unfolding analyze cs.Analysis.Stmts.analyze_stmt cs.Analysis.Exprs.analyze_expr
    cs.Analysis.Paths.type_of_path cs.Symbol.stab_resolve_var cs.Symbol.Decls.stab_add_decls
    cs.Symbol.Types.stab_resolve_type cs.Symbol.stab_enter cs.Util.Hash.lookup_entry
    cs.Symbol.Types.stab_add_var cs.Util.Hash.hash_insert cs.Util.Hash.write_last cs.Symbol.stab_new
    cs.Analysis.Registers.reg_gimme initial_acx cs.Analysis.Registers.reg_takeitback
    cs.Analysis.Stmts.check_assignability cs.Analysis.Stmts.assign_to
    cs.Symbol.Equality.stab_types_eq cs.Util.Hash.hforeach cs.Analysis.Exprs.binary
    cs.Analysis.Exprs.call_path cs.Analysis.Exprs.analyze_call cs.Symbol.Decls.stab_add_magic_func
    cs.Analysis.Program.do_imports cs.Analysis.Program.add_decl_list
    cs.Analysis.Program.fill_display cs.Symbol.stab_resolve_func cs.Analysis.Exprs.write_argument
sums_accepted = refl

analyze-IsStab_example : IsStab after_sums.st × (length after_sums.st.chain ≡ 1)
analyze-IsStab_example = analyze-IsStab sums after_sums sums_accepted

-- var x: integer; procedure p; begin x := 1 end; begin p; writeln(x) end.
abbrev calls : AstProgram
calls = record {
  name = "calls";
  args = "output" ∷ [];
  types = [];
  decls = decls ("x" ∷ []) AstType.integer no_decls;
  subprogs =
      sub
        (subdecl (AstType.func sub_procedure no_decls AstType.void) "p" [] no_decls no_subdecls
          (assign (path (var_path "x")) (lit "1")))
        no_subdecls;
  body = stmts (
      stmt (proc (var_path "p") no_exprs)
        (stmt (proc (var_path "writeln") (expr (path (var_path "x")) no_exprs)) no_stmts));
}

abbrev after_calls : Acx
after_calls = state_of (analyze calls) initial_acx

calls_accepted : analyze calls ≡ ok (tt, after_calls)
unfolding analyze cs.Analysis.Stmts.analyze_stmt cs.Analysis.Exprs.analyze_expr
    cs.Analysis.Paths.type_of_path cs.Symbol.stab_resolve_var cs.Symbol.Decls.stab_add_decls
    cs.Symbol.Types.stab_resolve_type cs.Symbol.stab_enter cs.Util.Hash.lookup_entry
    cs.Symbol.Types.stab_add_var cs.Util.Hash.hash_insert cs.Util.Hash.write_last cs.Symbol.stab_new
    cs.Analysis.Registers.reg_gimme initial_acx cs.Analysis.Registers.reg_takeitback
    cs.Analysis.Stmts.check_assignability cs.Analysis.Stmts.assign_to
    cs.Symbol.Equality.stab_types_eq cs.Util.Hash.hforeach cs.Analysis.Exprs.binary
    cs.Analysis.Exprs.call_path cs.Analysis.Exprs.analyze_call cs.Symbol.Decls.stab_add_magic_func
    cs.Analysis.Program.do_imports cs.Analysis.Program.add_decl_list
    cs.Analysis.Program.fill_display cs.Symbol.stab_resolve_func cs.Analysis.Exprs.write_argument
    cs.Analysis.Program.analyze_subprog cs.Analysis.Program.begin_subprog
    cs.Analysis.Program.add_locals cs.Analysis.Program.finish_subprog cs.Symbol.stab_leave
    cs.Symbol.Decls.stab_add_func cs.Analysis.Program.capture_loop
    cs.Analysis.Program.restore_display cs.Analysis.Exprs.call_with
    cs.Analysis.Registers.save_registers cs.Analysis.Registers.restore_registers_except
    cs.Symbol.Types.stab_resolve_complex_type cs.Analysis.Program.end_subprog
calls_accepted = refl

analyze-TypedProgram_example : TypedProgram calls
analyze-TypedProgram_example = analyze-TypedProgram calls after_calls calls_accepted
