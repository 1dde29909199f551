-- ===== src/Ast/Make.antt =====
-- The constructors of dragon/ast.c. A variable argument list is the list of what was passed; an
-- argument that is missing or of another type than `va_arg` names is undefined behaviour. A null
-- pointer that is returned is `none`, for which a message is printed.
use cs.Prelude.{ℕ, Option, none, some, String, List, ◌∷◌}
use cs.Token.{Token}
use cs.Ast.{
  Subprogs, AstType, array, boolean, char, integer, real, string, func, pointer, record_of, ref,
  DeclsList, RecordFields, AstPath, AstExpr, app, bin, deref, idx, lit, path, un, addrof, ExprList,
  AstStmt, assign, for_to, ite, proc, stmts, wdo, StmtList, AstTypeDecl, AstSubdecl, subdecl,
  SubdeclList, AstProgram,
}
use cs.Exec.{Result, ok, stop, undefined}

-- The arguments that the constructors are given.
pub data Arg : Type 0 where
  arg_path : AstPath → Arg
  arg_expr : AstExpr → Arg
  arg_exprs : ExprList → Arg
  arg_stmt : AstStmt → Arg
  arg_stmts : StmtList → Arg
  arg_type : AstType → Arg
  arg_decls : DeclsList → Arg
  arg_fields : RecordFields → Arg
  arg_token : Token → Arg
  arg_subprogs : Subprogs → Arg
  arg_string : String → Arg

-- `enum exprs`, `enum stmts` and `enum types`, and any other number.
pub data ExprTag : Type 0 where
  expr_app expr_bin expr_deref expr_idx expr_lit expr_path expr_un expr_addrof : ExprTag
  other : ℕ → ExprTag

pub data StmtTag : Type 0 where
  stmt_assign stmt_for stmt_ite stmt_proc stmt_stmts stmt_wdo : StmtTag
  other : ℕ → StmtTag

pub data TypeTag : Type 0 where
  type_array type_boolean type_char type_function type_integer type_pointer type_real type_record
        type_ref type_string type_void :
      TypeTag
  other : ℕ → TypeTag

unfoldable pub ast_expr : ExprTag → List Arg → Result (Option AstExpr)
ast_expr expr_app (arg_path name ∷ arg_exprs args ∷ more) = ok (some (app name args))
ast_expr expr_bin (arg_expr left ∷ arg_token op ∷ arg_expr right ∷ more) =
    ok (some (bin op left right))
ast_expr expr_deref (arg_expr e ∷ more) = ok (some (deref e))
ast_expr expr_idx (arg_path p ∷ arg_expr e ∷ more) = ok (some (idx p e))
ast_expr expr_lit (arg_string s ∷ more) = ok (some (lit s))
ast_expr expr_path (arg_path p ∷ more) = ok (some (path p))
ast_expr expr_un (arg_token op ∷ arg_expr e ∷ more) = ok (some (un op e))
ast_expr expr_addrof (arg_expr e ∷ more) = ok (some (addrof e))
ast_expr (ExprTag.other tag) args = ok none
ast_expr _ _ = stop undefined

unfoldable pub ast_stmt : StmtTag → List Arg → Result (Option AstStmt)
ast_stmt stmt_assign (arg_expr lvalue ∷ arg_expr rvalue ∷ more) = ok (some (assign lvalue rvalue))
ast_stmt stmt_for (arg_string name ∷ arg_expr start ∷ arg_expr end ∷ arg_stmt body ∷ more) =
    ok (some (for_to name start end body))
ast_stmt stmt_ite (arg_expr cond ∷ arg_stmt yes_ ∷ arg_stmt no_ ∷ more) =
    ok (some (ite cond yes_ no_))
ast_stmt stmt_proc (arg_path name ∷ arg_exprs args ∷ more) = ok (some (proc name args))
ast_stmt stmt_stmts (arg_stmts ss ∷ more) = ok (some (stmts ss))
ast_stmt stmt_wdo (arg_expr cond ∷ arg_stmt body ∷ more) = ok (some (wdo cond body))
ast_stmt (StmtTag.other tag) args = ok none
ast_stmt _ _ = stop undefined

-- There is no case for `TYPE_VOID`.
unfoldable pub ast_type : TypeTag → List Arg → Result (Option AstType)
ast_type type_array (arg_string lower ∷ arg_string upper ∷ arg_type elt ∷ more) =
    ok (some (array lower upper elt))
ast_type type_pointer (arg_type t ∷ more) = ok (some (pointer t))
ast_type type_function (arg_subprogs kind ∷ arg_decls args ∷ arg_type retty ∷ more) =
    ok (some (func kind args retty))
ast_type type_record (arg_fields fields ∷ more) = ok (some (record_of fields))
ast_type type_ref (arg_string name ∷ more) = ok (some (ref name))
ast_type type_integer args = ok (some integer)
ast_type type_real args = ok (some real)
ast_type type_string args = ok (some string)
ast_type type_boolean args = ok (some boolean)
ast_type type_char args = ok (some char)
ast_type type_void args = ok none
ast_type (TypeTag.other tag) args = ok none
ast_type _ _ = stop undefined

unfoldable pub ast_program :
    String → List String → DeclsList → List AstTypeDecl → SubdeclList → AstStmt → AstProgram
ast_program name args vars types subprogs body = record {
  name = name;
  args = args;
  types = types;
  decls = vars;
  subprogs = subprogs;
  body = body;
}

unfoldable pub ast_subprogram_decl :
    AstType → String → SubdeclList → List AstTypeDecl → DeclsList → AstStmt → AstSubdecl
ast_subprogram_decl sig name subprogs types vars body = subdecl sig name types vars subprogs body

unfoldable pub ast_type_decl : String → AstType → AstTypeDecl
ast_type_decl name type = record { name = name; type = type }

-- `struct ast_decls`, which stands in a list of declarations only.
abbrev pub AstDecls : Type 0
AstDecls = List String × AstType

unfoldable pub ast_decls : List String → AstType → AstDecls
ast_decls names type = (names, type)

-- `struct ast_record_field`, likewise.
abbrev pub AstRecordField : Type 0
AstRecordField = String × AstType

unfoldable pub ast_record_field : String → AstType → AstRecordField
ast_record_field name type = (name, type)
