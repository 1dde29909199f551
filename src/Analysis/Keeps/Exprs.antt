-- ===== src/Analysis/Keeps/Exprs.antt =====
-- What `analyze_call` and `analyze_expr` of dragon/analysis.c leave alone.
use cs.Prelude.{ℕ, String, Bool}
use cs.Token.{Token}
use cs.Ast.{AstPath, AstExpr, ExprList}
use cs.Symbol.{Magic}
use cs.Analysis.{Reg, Resu}
use cs.Analysis.Registers.{save_registers, restore_registers_except}
use cs.Analysis.Exprs.{
  write_argument, read_argument, check_argument, binary_code, load_if, analyze_expr, analyze_call,
}
use cs.Analysis.Keeps.{Keeps, Moves}
use cs.Analysis.Silent.{Silent-Keeps}
use cs.Analysis.Silent.Exprs.{
  write_argument-Silent, read_argument-Silent, check_argument-Silent, save-Silent, restore-Silent,
  binary_code-Silent, load_if-Silent, expr-Silent, call-Silent,
}

pub write_argument-Keeps : (r : Resu) → Moves Keeps (write_argument r)
write_argument-Keeps r = Silent-Keeps _ (write_argument-Silent r)

pub read_argument-Keeps : (which : Magic) (r : Resu) → Moves Keeps (read_argument which r)
read_argument-Keeps which r = Silent-Keeps _ (read_argument-Silent which r)

pub check_argument-Keeps : (i type formal : ℕ) → Moves Keeps (check_argument i type formal)
check_argument-Keeps i type formal = Silent-Keeps _ (check_argument-Silent i type formal)

pub save-Keeps : Moves Keeps save_registers
save-Keeps = Silent-Keeps _ save-Silent

pub restore-Keeps : (r : Reg) → Moves Keeps (restore_registers_except r)
restore-Keeps r = Silent-Keeps _ (restore-Silent r)

pub binary_code-Keeps : (o : Token) (l r : Resu) → Moves Keeps (binary_code o l r)
binary_code-Keeps o l r = Silent-Keeps _ (binary_code-Silent o l r)

pub load_if-Keeps : (b : Bool) (reg : String) → Moves Keeps (load_if b reg)
load_if-Keeps b reg = Silent-Keeps _ (load_if-Silent b reg)

pub expr-Keeps : (e : AstExpr) (b : Bool) → Moves Keeps (analyze_expr e b)
expr-Keeps e b = Silent-Keeps _ (expr-Silent e b)

pub call-Keeps : (p : AstPath) (args : ExprList) → Moves Keeps (analyze_call p args)
call-Keeps p args = Silent-Keeps _ (call-Silent p args)
