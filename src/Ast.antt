-- ===== src/Ast.antt =====
-- The syntax tree of dragon/ast.h. A struct with a tag and a union is a data type; a null
-- `struct ast_type *` and a null `struct ast_stmt *` are constructors of their own. The lists
-- inside the trees are data types of the same block.
pub mod Make
pub mod Owned
use cs.Prelude.{String, List, [], ◌∷◌, ◌++◌}
use cs.Token.{Token}

pub data Subprogs : Type 0 where
  sub_function sub_procedure : Subprogs

mutual
  -- `struct ast_type`
  pub data AstType : Type 0 where
    array : String → String → AstType → AstType
    boolean char integer real string void : AstType
    func : Subprogs → DeclsList → AstType → AstType
    pointer : AstType → AstType
    record_of : RecordFields → AstType
    ref : String → AstType
    null : AstType

  -- A list of `struct ast_decls`: names and their type.
  pub data DeclsList : Type 0 where
    no_decls : DeclsList
    decls : List String → AstType → DeclsList → DeclsList

  -- A list of `struct ast_record_field`.
  pub data RecordFields : Type 0 where
    no_fields : RecordFields
    field : String → AstType → RecordFields → RecordFields

-- `struct ast_path`: the list of components is never empty, since `ast_path` creates it with one.
pub record AstPath : Type 0 where
  pub first : String
  pub rest : List String

mutual
  -- `struct ast_expr`
  pub data AstExpr : Type 0 where
    app : AstPath → ExprList → AstExpr
    bin : Token → AstExpr → AstExpr → AstExpr
    deref : AstExpr → AstExpr
    idx : AstPath → AstExpr → AstExpr
    lit : String → AstExpr
    path : AstPath → AstExpr
    un : Token → AstExpr → AstExpr
    addrof : AstExpr → AstExpr

  pub data ExprList : Type 0 where
    no_exprs : ExprList
    expr : AstExpr → ExprList → ExprList

mutual
  -- `struct ast_stmt`
  pub data AstStmt : Type 0 where
    assign : AstExpr → AstExpr → AstStmt
    for_to : String → AstExpr → AstExpr → AstStmt → AstStmt
    ite : AstExpr → AstStmt → AstStmt → AstStmt
    proc : AstPath → ExprList → AstStmt
    stmts : StmtList → AstStmt
    wdo : AstExpr → AstStmt → AstStmt
    skip : AstStmt

  pub data StmtList : Type 0 where
    no_stmts : StmtList
    stmt : AstStmt → StmtList → StmtList

-- `struct ast_type_decl`
pub record AstTypeDecl : Type 0 where
  pub name : String
  pub type : AstType

mutual
  -- `struct ast_subdecl`: head, name, types, declarations, subprograms, body.
  pub data AstSubdecl : Type 0 where
    subdecl : AstType → String → List AstTypeDecl → DeclsList → SubdeclList → AstStmt → AstSubdecl

  pub data SubdeclList : Type 0 where
    no_subdecls : SubdeclList
    sub : AstSubdecl → SubdeclList → SubdeclList

-- `struct ast_program`
pub record AstProgram : Type 0 where
  pub name : String
  pub args : List String
  pub types : List AstTypeDecl
  pub decls : DeclsList
  pub subprogs : SubdeclList
  pub body : AstStmt

-- `ast_path` and `ast_path_append` of dragon/ast.c.
unfoldable pub ast_path : String → AstPath
ast_path comp = record { first = comp; rest = [] }

unfoldable pub ast_path_append : AstPath → String → AstPath
ast_path_append p name = record p { rest = p.rest ++ name ∷ [] }
