-- ===== src/Ast/Owned.antt =====
-- The syntax tree of dragon/ast.h as it lies in memory: each struct with the address of its block,
-- and each list with those of its nodes, the first of which is a part of the list. A name is the
-- address of its string. The trees are given back by Ast.Owned.Free.
pub mod Free
pub mod Blocks
pub mod Laws
use cs.Token.{Token}
use cs.Util.List.{Ptr}
use cs.Util.Memory.Containers.{OwnedList}
use cs.Ast.{Subprogs}

-- `struct ast_path`
pub data PathAt : Type 0 where
  null_path : PathAt
  path_at : Ptr → OwnedList Ptr → PathAt

mutual
  -- `struct ast_type`
  pub data TypeAt : Type 0 where
    null_type : TypeAt
    array : Ptr → Ptr → Ptr → TypeAt → TypeAt
    boolean : Ptr → TypeAt
    char : Ptr → TypeAt
    integer : Ptr → TypeAt
    real : Ptr → TypeAt
    string : Ptr → TypeAt
    void : Ptr → TypeAt
    func : Ptr → Subprogs → DeclsListAt → TypeAt → TypeAt
    pointer : Ptr → TypeAt → TypeAt
    record_of : Ptr → FieldListAt → TypeAt
    ref : Ptr → Ptr → TypeAt

  -- `struct ast_decls`
  pub data DeclsAt : Type 0 where
    null_decls : DeclsAt
    decls : Ptr → OwnedList Ptr → TypeAt → DeclsAt

  -- `struct ast_record_field`
  pub data FieldAt : Type 0 where
    null_field : FieldAt
    field : Ptr → Ptr → TypeAt → FieldAt

  -- A list of `struct ast_decls`, and the nodes after its first one.
  pub data DeclsListAt : Type 0 where
    null_decls_list : DeclsListAt
    empty_decls_list : Ptr → DeclsListAt
    decls_list : Ptr → DeclsAt → DeclsNodes → DeclsListAt

  pub data DeclsNodes : Type 0 where
    no_decls_node : DeclsNodes
    decls_node : Ptr → DeclsAt → DeclsNodes → DeclsNodes

  -- A list of `struct ast_record_field`, and the nodes after its first one.
  pub data FieldListAt : Type 0 where
    null_field_list : FieldListAt
    empty_field_list : Ptr → FieldListAt
    field_list : Ptr → FieldAt → FieldNodes → FieldListAt

  pub data FieldNodes : Type 0 where
    no_field_node : FieldNodes
    field_node : Ptr → FieldAt → FieldNodes → FieldNodes

-- `struct ast_type_decl`
pub data TypeDeclAt : Type 0 where
  null_type_decl : TypeDeclAt
  type_decl : Ptr → Ptr → TypeAt → TypeDeclAt

mutual
  -- `struct ast_expr`
  pub data ExprAt : Type 0 where
    null_expr : ExprAt
    app : Ptr → PathAt → ExprListAt → ExprAt
    bin : Ptr → Token → ExprAt → ExprAt → ExprAt
    deref : Ptr → ExprAt → ExprAt
    idx : Ptr → PathAt → ExprAt → ExprAt
    lit : Ptr → Ptr → ExprAt
    path : Ptr → PathAt → ExprAt
    un : Ptr → Token → ExprAt → ExprAt
    addrof : Ptr → ExprAt → ExprAt

  -- A list of `struct ast_expr`, and the nodes after its first one.
  pub data ExprListAt : Type 0 where
    null_expr_list : ExprListAt
    empty_expr_list : Ptr → ExprListAt
    expr_list : Ptr → ExprAt → ExprNodes → ExprListAt

  pub data ExprNodes : Type 0 where
    no_expr_node : ExprNodes
    expr_node : Ptr → ExprAt → ExprNodes → ExprNodes

mutual
  -- `struct ast_stmt`
  pub data StmtAt : Type 0 where
    null_stmt : StmtAt
    assign : Ptr → ExprAt → ExprAt → StmtAt
    for_to : Ptr → Ptr → ExprAt → ExprAt → StmtAt → StmtAt
    ite : Ptr → ExprAt → StmtAt → StmtAt → StmtAt
    proc : Ptr → PathAt → ExprListAt → StmtAt
    stmts : Ptr → StmtListAt → StmtAt
    wdo : Ptr → ExprAt → StmtAt → StmtAt

  -- A list of `struct ast_stmt`, and the nodes after its first one.
  pub data StmtListAt : Type 0 where
    null_stmt_list : StmtListAt
    empty_stmt_list : Ptr → StmtListAt
    stmt_list : Ptr → StmtAt → StmtNodes → StmtListAt

  pub data StmtNodes : Type 0 where
    no_stmt_node : StmtNodes
    stmt_node : Ptr → StmtAt → StmtNodes → StmtNodes

mutual
  -- `struct ast_subdecl`
  pub data SubdeclAt : Type 0 where
    null_subdecl : SubdeclAt
    subdecl :
        Ptr → TypeAt → Ptr → OwnedList TypeDeclAt → DeclsListAt → SubdeclListAt → StmtAt → SubdeclAt

  -- A list of `struct ast_subdecl`, and the nodes after its first one.
  pub data SubdeclListAt : Type 0 where
    null_subdecl_list : SubdeclListAt
    empty_subdecl_list : Ptr → SubdeclListAt
    subdecl_list : Ptr → SubdeclAt → SubdeclNodes → SubdeclListAt

  pub data SubdeclNodes : Type 0 where
    no_subdecl_node : SubdeclNodes
    subdecl_node : Ptr → SubdeclAt → SubdeclNodes → SubdeclNodes

-- `struct ast_program`: name, args, types, decls, subprogs, body.
pub data ProgramAt : Type 0 where
  null_program : ProgramAt
  program :
      Ptr
      → Ptr
      → OwnedList Ptr
      → OwnedList TypeDeclAt
      → DeclsListAt
      → SubdeclListAt
      → StmtAt
      → ProgramAt
