-- ===== src/Ast/Owned/Blocks.antt =====
-- The blocks of a syntax tree: how often an address is that of a struct, a node or a string of it.
use cs.Prelude.{[], ◌∷◌, ◌+◌}
use cs.Util.Memory.{Blocks, name_block, struct_blocks}
use cs.Util.Memory.Containers.{list_blocks}
use cs.Ast.Owned.{
  TypeAt, null_type, array, boolean, char, integer, real, string, void, func, pointer, record_of,
  ref, DeclsAt, null_decls, decls, FieldAt, null_field, field, DeclsListAt, DeclsNodes,
  null_decls_list, empty_decls_list, decls_list, no_decls_node, decls_node, FieldListAt, FieldNodes,
  null_field_list, empty_field_list, field_list, no_field_node, field_node, ExprAt, null_expr, app,
  bin, deref, idx, lit, path, un, addrof, ExprListAt, ExprNodes, null_expr_list, empty_expr_list,
  expr_list, no_expr_node, expr_node, StmtAt, null_stmt, assign, for_to, ite, proc, stmts, wdo,
  StmtListAt, StmtNodes, null_stmt_list, empty_stmt_list, stmt_list, no_stmt_node, stmt_node,
  SubdeclAt, null_subdecl, subdecl, SubdeclListAt, SubdeclNodes, null_subdecl_list,
  empty_subdecl_list, subdecl_list, no_subdecl_node, subdecl_node, PathAt, null_path, path_at,
  TypeDeclAt, null_type_decl, type_decl, ProgramAt, null_program, program,
}

unfoldable pub path_blocks : PathAt → Blocks
path_blocks null_path a = 0
path_blocks (path_at p components) a = struct_blocks p (list_blocks name_block components ∷ []) a

unfoldable mutual
  pub type_blocks : TypeAt → Blocks
  type_blocks null_type a = 0
  type_blocks (array p lower upper elt) a =
      struct_blocks p (name_block lower ∷ name_block upper ∷ type_blocks elt ∷ []) a
  type_blocks (boolean p) a = struct_blocks p [] a
  type_blocks (char p) a = struct_blocks p [] a
  type_blocks (integer p) a = struct_blocks p [] a
  type_blocks (real p) a = struct_blocks p [] a
  type_blocks (string p) a = struct_blocks p [] a
  type_blocks (void p) a = struct_blocks p [] a
  type_blocks (func p kind args retty) a =
      struct_blocks p (type_blocks retty ∷ decls_list_blocks args ∷ []) a
  type_blocks (pointer p t) a = struct_blocks p (type_blocks t ∷ []) a
  type_blocks (record_of p fields) a = struct_blocks p (field_list_blocks fields ∷ []) a
  type_blocks (ref p name) a = struct_blocks p (name_block name ∷ []) a

  pub decls_blocks : DeclsAt → Blocks
  decls_blocks null_decls a = 0
  decls_blocks (decls p names type) a =
      struct_blocks p (type_blocks type ∷ list_blocks name_block names ∷ []) a

  pub field_blocks : FieldAt → Blocks
  field_blocks null_field a = 0
  field_blocks (field p name type) a = struct_blocks p (name_block name ∷ type_blocks type ∷ []) a

  pub decls_list_blocks : DeclsListAt → Blocks
  decls_list_blocks null_decls_list a = 0
  decls_list_blocks (empty_decls_list p) a = struct_blocks p [] a
  decls_list_blocks (decls_list p e rest) a =
      struct_blocks p (decls_node_blocks rest ∷ decls_blocks e ∷ []) a

  pub decls_node_blocks : DeclsNodes → Blocks
  decls_node_blocks no_decls_node a = 0
  decls_node_blocks (decls_node p e rest) a =
      struct_blocks p (decls_blocks e ∷ []) a + decls_node_blocks rest a

  pub field_list_blocks : FieldListAt → Blocks
  field_list_blocks null_field_list a = 0
  field_list_blocks (empty_field_list p) a = struct_blocks p [] a
  field_list_blocks (field_list p e rest) a =
      struct_blocks p (field_node_blocks rest ∷ field_blocks e ∷ []) a

  pub field_node_blocks : FieldNodes → Blocks
  field_node_blocks no_field_node a = 0
  field_node_blocks (field_node p e rest) a =
      struct_blocks p (field_blocks e ∷ []) a + field_node_blocks rest a

unfoldable pub type_decl_blocks : TypeDeclAt → Blocks
type_decl_blocks null_type_decl a = 0
type_decl_blocks (type_decl p name type) a =
    struct_blocks p (name_block name ∷ type_blocks type ∷ []) a

unfoldable mutual
  pub expr_blocks : ExprAt → Blocks
  expr_blocks null_expr a = 0
  expr_blocks (app p name args) a =
      struct_blocks p (expr_list_blocks args ∷ path_blocks name ∷ []) a
  expr_blocks (bin p op left right) a =
      struct_blocks p (expr_blocks left ∷ expr_blocks right ∷ []) a
  expr_blocks (deref p e) a = struct_blocks p (expr_blocks e ∷ []) a
  expr_blocks (idx p q e) a = struct_blocks p (path_blocks q ∷ expr_blocks e ∷ []) a
  expr_blocks (lit p s) a = struct_blocks p (name_block s ∷ []) a
  expr_blocks (path p q) a = struct_blocks p (path_blocks q ∷ []) a
  expr_blocks (un p op e) a = struct_blocks p (expr_blocks e ∷ []) a
  expr_blocks (addrof p e) a = struct_blocks p (expr_blocks e ∷ []) a

  pub expr_list_blocks : ExprListAt → Blocks
  expr_list_blocks null_expr_list a = 0
  expr_list_blocks (empty_expr_list p) a = struct_blocks p [] a
  expr_list_blocks (expr_list p e rest) a =
      struct_blocks p (expr_node_blocks rest ∷ expr_blocks e ∷ []) a

  pub expr_node_blocks : ExprNodes → Blocks
  expr_node_blocks no_expr_node a = 0
  expr_node_blocks (expr_node p e rest) a =
      struct_blocks p (expr_blocks e ∷ []) a + expr_node_blocks rest a

unfoldable mutual
  pub stmt_blocks : StmtAt → Blocks
  stmt_blocks null_stmt a = 0
  stmt_blocks (assign p lvalue rvalue) a =
      struct_blocks p (expr_blocks lvalue ∷ expr_blocks rvalue ∷ []) a
  stmt_blocks (for_to p id start end body) a =
      struct_blocks p (name_block id ∷ expr_blocks start ∷ expr_blocks end ∷ stmt_blocks body ∷ [])
        a
  stmt_blocks (ite p cond yes_ no_) a =
      struct_blocks p (expr_blocks cond ∷ stmt_blocks yes_ ∷ stmt_blocks no_ ∷ []) a
  stmt_blocks (proc p name args) a =
      struct_blocks p (path_blocks name ∷ expr_list_blocks args ∷ []) a
  stmt_blocks (stmts p ss) a = struct_blocks p (stmt_list_blocks ss ∷ []) a
  stmt_blocks (wdo p cond body) a = struct_blocks p (expr_blocks cond ∷ stmt_blocks body ∷ []) a

  pub stmt_list_blocks : StmtListAt → Blocks
  stmt_list_blocks null_stmt_list a = 0
  stmt_list_blocks (empty_stmt_list p) a = struct_blocks p [] a
  stmt_list_blocks (stmt_list p e rest) a =
      struct_blocks p (stmt_node_blocks rest ∷ stmt_blocks e ∷ []) a

  pub stmt_node_blocks : StmtNodes → Blocks
  stmt_node_blocks no_stmt_node a = 0
  stmt_node_blocks (stmt_node p e rest) a =
      struct_blocks p (stmt_blocks e ∷ []) a + stmt_node_blocks rest a

unfoldable mutual
  pub subdecl_blocks : SubdeclAt → Blocks
  subdecl_blocks null_subdecl a = 0
  subdecl_blocks (subdecl p head name types ds subprogs body) a =
      struct_blocks p
        (type_blocks head
          ∷ subdecl_list_blocks subprogs
          ∷ decls_list_blocks ds
          ∷ list_blocks type_decl_blocks types
          ∷ stmt_blocks body
          ∷ name_block name
          ∷ [])
        a

  pub subdecl_list_blocks : SubdeclListAt → Blocks
  subdecl_list_blocks null_subdecl_list a = 0
  subdecl_list_blocks (empty_subdecl_list p) a = struct_blocks p [] a
  subdecl_list_blocks (subdecl_list p e rest) a =
      struct_blocks p (subdecl_node_blocks rest ∷ subdecl_blocks e ∷ []) a

  pub subdecl_node_blocks : SubdeclNodes → Blocks
  subdecl_node_blocks no_subdecl_node a = 0
  subdecl_node_blocks (subdecl_node p e rest) a =
      struct_blocks p (subdecl_blocks e ∷ []) a + subdecl_node_blocks rest a

unfoldable pub program_blocks : ProgramAt → Blocks
program_blocks null_program a = 0
program_blocks (program p name args types ds subprogs body) a =
    struct_blocks p
      (name_block name
        ∷ list_blocks name_block args
        ∷ decls_list_blocks ds
        ∷ list_blocks type_decl_blocks types
        ∷ subdecl_list_blocks subprogs
        ∷ stmt_blocks body
        ∷ [])
      a
