-- ===== src/Ast/Owned/Free.antt =====
-- The destructors of dragon/ast.c. `free_program` and the others print a message on a tag that they do
-- not know, as for the type void, and still give the struct back. A list calls the destructor of its
-- elements; `free_expr_list` is `list_free` on a list of expressions, and so on.
use cs.Prelude.{[], ◌∷◌}
use cs.Exec.{pure, ◌>>◌}
use cs.Util.Memory.{Action, release, free_struct}
use cs.Util.Memory.Containers.{list_free}
use cs.Ast.Owned.{
  TypeAt, null_type, array, boolean, char, integer, real, string, void, func, pointer, record_of,
  ref, DeclsAt, null_decls, decls, FieldAt, null_field, field, DeclsListAt, DeclsNodes,
  null_decls_list, empty_decls_list, decls_list, no_decls_node, decls_node, FieldListAt, FieldNodes,
  null_field_list, empty_field_list, field_list, no_field_node, field_node, ExprAt, null_expr, app,
  bin, deref, idx, lit, path, un, addrof, ExprListAt, ExprNodes, null_expr_list, empty_expr_list,
  expr_list, no_expr_node, expr_node, StmtAt, null_stmt, assign, for_to, ite, proc, stmts, wdo,
  StmtListAt, StmtNodes, null_stmt_list, empty_stmt_list, stmt_list, no_stmt_node, stmt_node,
  SubdeclAt, null_subdecl, subdecl, SubdeclListAt, SubdeclNodes, null_subdecl_list,
  empty_subdecl_list, subdecl_list, no_subdecl_node, subdecl_node, PathAt, null_path, path_at,
  TypeDeclAt, null_type_decl, type_decl, ProgramAt, null_program, program,
}

unfoldable pub free_path : PathAt → Action
unfolding free_struct list_free
free_path null_path = pure tt
free_path (path_at p components) = free_struct p (list_free release components ∷ [])

unfoldable mutual
  unfolding free_struct

  pub free_type : TypeAt → Action
  free_type null_type = pure tt
  free_type (array p lower upper elt) =
      free_struct p (release lower ∷ release upper ∷ free_type elt ∷ [])
  free_type (boolean p) = free_struct p []
  free_type (char p) = free_struct p []
  free_type (integer p) = free_struct p []
  free_type (real p) = free_struct p []
  free_type (string p) = free_struct p []
  free_type (void p) = free_struct p []
  free_type (func p kind args retty) = free_struct p (free_type retty ∷ free_decls_list args ∷ [])
  free_type (pointer p t) = free_struct p (free_type t ∷ [])
  free_type (record_of p fields) = free_struct p (free_field_list fields ∷ [])
  free_type (ref p name) = free_struct p (release name ∷ [])

  pub free_decls : DeclsAt → Action
  free_decls null_decls = pure tt
  free_decls (decls p names type) = free_struct p (free_type type ∷ list_free release names ∷ [])

  pub free_record_field : FieldAt → Action
  free_record_field null_field = pure tt
  free_record_field (field p name type) = free_struct p (release name ∷ free_type type ∷ [])

  pub free_decls_list : DeclsListAt → Action
  free_decls_list null_decls_list = pure tt
  free_decls_list (empty_decls_list p) = free_struct p []
  free_decls_list (decls_list p e rest) = free_struct p (free_decls_nodes rest ∷ free_decls e ∷ [])

  pub free_decls_nodes : DeclsNodes → Action
  free_decls_nodes no_decls_node = pure tt
  free_decls_nodes (decls_node p e rest) =
      free_struct p (free_decls e ∷ []) >> free_decls_nodes rest

  pub free_field_list : FieldListAt → Action
  free_field_list null_field_list = pure tt
  free_field_list (empty_field_list p) = free_struct p []
  free_field_list (field_list p e rest) =
      free_struct p (free_field_nodes rest ∷ free_record_field e ∷ [])

  pub free_field_nodes : FieldNodes → Action
  free_field_nodes no_field_node = pure tt
  free_field_nodes (field_node p e rest) =
      free_struct p (free_record_field e ∷ []) >> free_field_nodes rest

unfoldable pub free_type_decl : TypeDeclAt → Action
unfolding free_struct
free_type_decl null_type_decl = pure tt
free_type_decl (type_decl p name type) = free_struct p (release name ∷ free_type type ∷ [])

unfoldable mutual
  unfolding free_struct

  pub free_expr : ExprAt → Action
  free_expr null_expr = pure tt
  free_expr (app p name args) = free_struct p (free_expr_list args ∷ free_path name ∷ [])
  free_expr (bin p op left right) = free_struct p (free_expr left ∷ free_expr right ∷ [])
  free_expr (deref p e) = free_struct p (free_expr e ∷ [])
  free_expr (idx p q e) = free_struct p (free_path q ∷ free_expr e ∷ [])
  free_expr (lit p s) = free_struct p (release s ∷ [])
  free_expr (path p q) = free_struct p (free_path q ∷ [])
  free_expr (un p op e) = free_struct p (free_expr e ∷ [])
  free_expr (addrof p e) = free_struct p (free_expr e ∷ [])

  pub free_expr_list : ExprListAt → Action
  free_expr_list null_expr_list = pure tt
  free_expr_list (empty_expr_list p) = free_struct p []
  free_expr_list (expr_list p e rest) = free_struct p (free_expr_nodes rest ∷ free_expr e ∷ [])

  pub free_expr_nodes : ExprNodes → Action
  free_expr_nodes no_expr_node = pure tt
  free_expr_nodes (expr_node p e rest) = free_struct p (free_expr e ∷ []) >> free_expr_nodes rest

unfoldable mutual
  unfolding free_struct

  pub free_stmt : StmtAt → Action
  free_stmt null_stmt = pure tt
  free_stmt (assign p lvalue rvalue) = free_struct p (free_expr lvalue ∷ free_expr rvalue ∷ [])
  free_stmt (for_to p id start end body) =
      free_struct p (release id ∷ free_expr start ∷ free_expr end ∷ free_stmt body ∷ [])
  free_stmt (ite p cond yes_ no_) =
      free_struct p (free_expr cond ∷ free_stmt yes_ ∷ free_stmt no_ ∷ [])
  free_stmt (proc p name args) = free_struct p (free_path name ∷ free_expr_list args ∷ [])
  free_stmt (stmts p ss) = free_struct p (free_stmt_list ss ∷ [])
  free_stmt (wdo p cond body) = free_struct p (free_expr cond ∷ free_stmt body ∷ [])

  pub free_stmt_list : StmtListAt → Action
  free_stmt_list null_stmt_list = pure tt
  free_stmt_list (empty_stmt_list p) = free_struct p []
  free_stmt_list (stmt_list p e rest) = free_struct p (free_stmt_nodes rest ∷ free_stmt e ∷ [])

  pub free_stmt_nodes : StmtNodes → Action
  free_stmt_nodes no_stmt_node = pure tt
  free_stmt_nodes (stmt_node p e rest) = free_struct p (free_stmt e ∷ []) >> free_stmt_nodes rest

unfoldable mutual
  unfolding free_struct

  pub free_subprogram_decl : SubdeclAt → Action
  free_subprogram_decl null_subdecl = pure tt
  free_subprogram_decl (subdecl p head name types ds subprogs body) = free_struct p (
      free_type head
      ∷ free_subdecl_list subprogs
      ∷ free_decls_list ds
      ∷ list_free free_type_decl types
      ∷ free_stmt body
      ∷ release name
      ∷ [])

  pub free_subdecl_list : SubdeclListAt → Action
  free_subdecl_list null_subdecl_list = pure tt
  free_subdecl_list (empty_subdecl_list p) = free_struct p []
  free_subdecl_list (subdecl_list p e rest) =
      free_struct p (free_subdecl_nodes rest ∷ free_subprogram_decl e ∷ [])

  pub free_subdecl_nodes : SubdeclNodes → Action
  free_subdecl_nodes no_subdecl_node = pure tt
  free_subdecl_nodes (subdecl_node p e rest) =
      free_struct p (free_subprogram_decl e ∷ []) >> free_subdecl_nodes rest

unfoldable pub free_program : ProgramAt → Action
unfolding free_struct
free_program null_program = pure tt
free_program (program p name args types ds subprogs body) = free_struct p (
    release name
    ∷ list_free release args
    ∷ free_decls_list ds
    ∷ list_free free_type_decl types
    ∷ free_subdecl_list subprogs
    ∷ free_stmt body
    ∷ [])
