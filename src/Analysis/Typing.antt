-- ===== src/Analysis/Typing.antt =====
-- A typing relation for the expressions of a program, stated apart from dragon/analysis.c, that
-- the children compare with `analyze_expr` and `analyze_stmt`.
pub mod Calls
pub mod Exprs
pub mod Pieces
pub mod Stmts
pub mod Loops
pub mod Subprograms
pub mod Programs
use mathlib.Core.Path.{subst}
use mathlib.Core.Option.{map}
use cs.Prelude.{
  ℕ, zero, suc, ◌+◌, ◌≡◌, ◌≢◌, refl, ap, sym, ◌∙◌, inl, inr, List, [], ◌∷◌, ◌++◌, Option, none,
  some, Bool, true, false, not, ◌==◌, ==_iff, ◌&&◌, ◌||◌, String, length, get_elem?, arith,
  if◌then◌else◌, Option-cases,
}
use cs.Token.{Token, is_relop}
use cs.Ast.{
  AstPath, AstExpr, app, bin, deref, idx, lit, path, un, addrof, ExprList, no_exprs, expr, Subprogs,
}
use cs.Exec.{Result, ok, stop, Stop, Exec, pure, halt, require, stop_if, continue, ◌>>=◌, ◌>>◌}
use cs.Exec.Rules.{
  After, returns, stops, After-bind, After-require, After-stop_if, After-mono, After_of_eq,
}
use cs.Symbol.{
  Stab, StabVar, StabType, ResolvedType, Magic, plain, read, readln, write, writeln, stab_type,
  stab_var, stab_resolve_var, stab_resolve_func, resolve_in, resolve_failure, integer_type_idx,
  boolean_type_idx, void_type_idx,
}
use cs.Analysis.{push, Acx, Reg, Resu, emit, on_stab}
use cs.Analysis.Registers.{reg_gimme}
use cs.Analysis.Paths.{type_of_path, walk, but_last}
use cs.Analysis.Exprs.{
  is_lvalue, length_exprs, signature, call_with, dispatch_call, call_path, path_field, binary,
  is_not, unary, pointee, element, analyze_expr, magic_args, magic_result, pass_args, analyze_call,
}
use cs.Analysis.Keeps.{
  Keeps-prints, emit-Keeps, type_at, Keeps, Keeps-refl, Keeps-trans, Moves, keep_then,
  on_stab-Keeps, stop_if-Keeps,
}
use cs.Analysis.Keeps.Paths.{
  gimme-Keeps, load_address-Keeps, type_of_path-Keeps, walk-Keeps, load_value-Keeps, takeback-Keeps,
}
use cs.Analysis.Keeps.Reads.{has_local_var-Reads, stab_type-Reads}
use cs.Analysis.Keeps.Exprs.{
  expr-Keeps, save-Keeps, write_argument-Keeps, read_argument-Keeps, binary_code-Keeps,
  check_argument-Keeps, restore-Keeps, load_if-Keeps,
}

-- What names and types mean: the type of a variable, the type of a subprogram, and the types.
pub record Env : Type 0 where
  pub var : String → Option ℕ
  pub func : String → Option StabType
  pub type : ℕ → Option StabType

abbrev pub env_of : Stab → Env
env_of st = record {
  var = λ x. type_at st (stab_resolve_var st x);
  func = λ f. get_elem? st.types (stab_resolve_func st f);
  type = λ i. get_elem? st.types i;
}

-- The type of an expression, and that all expressions of a list have one. The components of a
-- path after the first have no part in its type.
mutual
  pub data HasType (env : Env) : AstExpr → ℕ → Type 0 where
    literal : {s : String} → HasType env (lit s) integer_type_idx
    variable : {p : AstPath} {t : ℕ} → env.var p.first ≡ some t → HasType env (path p) t
    operator :
        {o : Token} {l r : AstExpr} {t : ℕ}
        → HasType env l t
        → HasType env r t
        → HasType env (bin o l r) (if is_relop o then boolean_type_idx else t)
    sign :
        {o : Token} {e : AstExpr}
        → is_not o ≡ false
        → HasType env e boolean_type_idx
        → HasType env (un o e) boolean_type_idx
    pointed :
        {e : AstExpr} {p : AstPath} {t target : ℕ} {ty : StabType}
        → path_field e ≡ some p
        → env.var p.first ≡ some t
        → env.type t ≡ some ty
        → ty.ty ≡ ResolvedType.pointer target
        → HasType env (deref e) target
    indexed :
        {p : AstPath} {e : AstExpr} {t elt lower upper : ℕ} {ty : StabType}
        → env.var p.first ≡ some t
        → env.type t ≡ some ty
        → ty.ty ≡ ResolvedType.array lower upper elt
        → HasType env e integer_type_idx
        → HasType env (idx p e) elt
    called :
        {p : AstPath} {es : ExprList} {ty : StabType} {kind : Subprogs} {formals : List ℕ}
        {retty : ℕ}
        → env.func p.first ≡ some ty
        → ty.magic ≡ plain
        → ty.ty ≡ ResolvedType.func kind formals retty
        → length_exprs es ≡ length formals
        → AllTyped env es
        → HasType env (app p es) retty
    builtin :
        {p : AstPath} {es : ExprList} {ty : StabType}
        → env.func p.first ≡ some ty
        → ty.magic ≢ plain
        → AllTyped env es
        → HasType env (app p es) void_type_idx

  pub data AllTyped (env : Env) : ExprList → Type 0 where
    none_left : AllTyped env no_exprs
    one_more :
        {e : AstExpr} {es : ExprList} {t : ℕ}
        → HasType env e t
        → AllTyped env es
        → AllTyped env (expr e es)

-- What is left alone gives names and types the same meaning.
pub env_of-Keeps : {a b : Acx} → Keeps a b → env_of b.st ≡ env_of a.st
unfolding stab_resolve_var stab_resolve_func
env_of-Keeps {a} {b} k = λ i. record {
  var = λ x. (var_path x) i;
  func = λ f. (func_path f) i;
  type = λ n. get_elem? (k.types i) n;
}
  where
    var_path :
        (x : String)
        → type_at b.st (stab_resolve_var b.st x) ≡ type_at a.st (stab_resolve_var a.st x)
    var_path x = k.var_types _ ∙ ap (λ c. type_at a.st (resolve_in (λ sc. sc.vars) x c)) k.chain

    func_path :
        (f : String)
        → get_elem? b.st.types (stab_resolve_func b.st f)
          ≡ get_elem? a.st.types (stab_resolve_func a.st f)
    func_path f =
        ap (λ ts. get_elem? ts (stab_resolve_func b.st f)) k.types
        ∙ ap (λ c. get_elem? a.st.types (resolve_in (λ sc. sc.funcs) f c)) k.chain
