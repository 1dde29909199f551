-- ===== src/Analysis/Accepts.antt =====
-- The expressions and statements that `analyze_expr` and `analyze_stmt` of dragon/analysis.c are made
-- to accept, stated apart from them:
-- paths of one name, the operators that have code, and calls of subprograms that are not built in.
pub mod Pieces
pub mod Paths
pub mod Operators
pub mod Calls
pub mod Exprs
pub mod Builtins
pub mod Loops
pub mod Stmts
use cs.Prelude.{
  ℕ, String, ◌≡◌, ◌≢◌, ◌≤◌, Bool, true, false, ◌||◌, ◌==◌, List, [], ◌∷◌, some, if◌then◌else◌,
}
use cs.Token.{Token, and_, or_, neq, le, ge, div, mod_, chr, is_relop}
use cs.Ast.{
  ast_path, AstExpr, app, bin, deref, idx, lit, path, un, ExprList, no_exprs, expr, AstStmt, skip,
  assign, for_to, ite, proc, stmts, wdo, StmtList, no_stmts, stmt, Subprogs,
}
use cs.Symbol.Equality.Laws.{SameType}
use cs.Symbol.{
  Stab, StabType, ResolvedType, Magic, plain, read, readln, write, writeln, void_type_idx,
  integer_type_idx, boolean_type_idx,
}
use cs.Analysis.Exprs.{is_not, is_lvalue}
use cs.Analysis.Keeps.{type_at}
use cs.Analysis.Typing.{Env, env_of}

unfoldable pub is_operator : Token → Bool
is_operator and_ = true
is_operator or_ = true
is_operator neq = true
is_operator le = true
is_operator ge = true
is_operator div = true
is_operator mod_ = true
is_operator (chr c) =
    c == b'=' || c == b'<' || c == b'>' || c == b'/' || c == b'+' || c == b'-' || c == b'*'
is_operator _ = false

-- The expression has this type, and each variable and subprogram in it a type that is known.
mutual
  pub data Accepted (st : Stab) : AstExpr → ℕ → Type 0 where
    literal : {s : String} → Accepted st (lit s) integer_type_idx
    variable :
        (x : String) {t : ℕ} {ty : StabType}
        → (env_of st).var x ≡ some t
        → (env_of st).type t ≡ some ty
        → Accepted st (path (ast_path x)) t
    operator :
        {o : Token} {l r : AstExpr} {t : ℕ}
        → is_operator o ≡ true
        → Accepted st l t
        → Accepted st r t
        → Accepted st (bin o l r) (if is_relop o then boolean_type_idx else t)
    sign :
        {o : Token} {e : AstExpr}
        → is_not o ≡ false
        → Accepted st e boolean_type_idx
        → Accepted st (un o e) boolean_type_idx
    pointed :
        (x : String) {t target : ℕ} {ty : StabType}
        → (env_of st).var x ≡ some t
        → (env_of st).type t ≡ some ty
        → ty.ty ≡ ResolvedType.pointer target
        → Accepted st (deref (path (ast_path x))) target
    indexed :
        (x : String) {e : AstExpr} {t elt lower upper : ℕ} {ty : StabType}
        → (env_of st).var x ≡ some t
        → (env_of st).type t ≡ some ty
        → ty.ty ≡ ResolvedType.array lower upper elt
        → Accepted st e integer_type_idx
        → Accepted st (idx (ast_path x) e) elt
    called :
        (f : String) {es : ExprList} {ty : StabType} {kind : Subprogs} {formals : List ℕ}
        {retty : ℕ}
        → (env_of st).func f ≡ some ty
        → ty.magic ≡ plain
        → ty.ty ≡ ResolvedType.func kind formals retty
        → AcceptedArgs st es formals
        → Accepted st (app (ast_path f) es) retty

  -- As many arguments as parameters, each of the type of its parameter.
  pub data AcceptedArgs (st : Stab) : ExprList → List ℕ → Type 0 where
    no_more : AcceptedArgs st no_exprs []
    argument :
        {e : AstExpr} {es : ExprList} {formal t u : ℕ} {formals : List ℕ}
        → Accepted st e t
        → type_at st formal ≡ some u
        → SameType st t u
        → AcceptedArgs st es formals
        → AcceptedArgs st (expr e es) (formal ∷ formals)

-- A routine of the run-time library that the built-in calls, and what its operands are: for a read
-- they must be places.
unfoldable pub is_operand : Magic → AstExpr → Bool
is_operand read e = is_lvalue e
is_operand readln e = is_lvalue e
is_operand write e = true
is_operand writeln e = true
is_operand plain e = false

-- The built-in types stand first in the table.
pub data Operands (st : Stab) (which : Magic) : ExprList → Type 0 where
  no_operand : Operands st which no_exprs
  operand :
      {e : AstExpr} {es : ExprList} {t : ℕ}
      → is_operand which e ≡ true
      → Accepted st e t
      → t ≤ void_type_idx
      → Operands st which es
      → Operands st which (expr e es)

-- What may stand on the left of an assignment.
unfoldable pub is_target : AstExpr → Bool
is_target (path p) = true
is_target (idx p e) = true
is_target _ = false

mutual
  pub data AcceptedStmt (st : Stab) : AstStmt → Type 0 where
    nothing : AcceptedStmt st skip
    assigned :
        {l r : AstExpr} {t u : ℕ}
        → is_target l ≡ true
        → Accepted st l t
        → Accepted st r u
        → SameType st u t
        → AcceptedStmt st (assign l r)
    counted :
        {id : String} {start end : AstExpr} {body : AstStmt} {ty : StabType}
        → Accepted st start integer_type_idx
        → Accepted st end integer_type_idx
        → (env_of st).var id ≡ some integer_type_idx
        → (env_of st).type integer_type_idx ≡ some ty
        → AcceptedStmt st body
        → AcceptedStmt st (for_to id start end body)
    chosen :
        {cond : AstExpr} {s t : AstStmt}
        → Accepted st cond boolean_type_idx
        → AcceptedStmt st s
        → AcceptedStmt st t
        → AcceptedStmt st (ite cond s t)
    performed :
        (f : String) {es : ExprList} {ty : StabType} {kind : Subprogs} {formals : List ℕ}
        {retty : ℕ}
        → (env_of st).func f ≡ some ty
        → ty.magic ≡ plain
        → ty.ty ≡ ResolvedType.func kind formals retty
        → AcceptedArgs st es formals
        → AcceptedStmt st (proc (ast_path f) es)
    communicated :
        (f : String) {es : ExprList} {ty : StabType}
        → (env_of st).func f ≡ some ty
        → ty.magic ≢ plain
        → Operands st ty.magic es
        → AcceptedStmt st (proc (ast_path f) es)
    block : {ss : StmtList} → AcceptedStmts st ss → AcceptedStmt st (stmts ss)
    repeated :
        {cond : AstExpr} {body : AstStmt}
        → Accepted st cond boolean_type_idx
        → AcceptedStmt st body
        → AcceptedStmt st (wdo cond body)

  pub data AcceptedStmts (st : Stab) : StmtList → Type 0 where
    none_left : AcceptedStmts st no_stmts
    one_more :
        {s : AstStmt} {ss : StmtList}
        → AcceptedStmt st s
        → AcceptedStmts st ss
        → AcceptedStmts st (stmt s ss)
