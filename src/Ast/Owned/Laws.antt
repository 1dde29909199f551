-- ===== src/Ast/Owned/Laws.antt =====
-- What the destructors of dragon/ast.c give back.
use cs.Util.Memory.Frees.{Frees, Frees-none, Frees-then, no_part, part, struct-Frees, release-Frees}
use cs.Util.Memory.Containers.Laws.{list_free-Frees}
use cs.Ast.Owned.{
  TypeAt, null_type, array, boolean, char, integer, real, string, void, func, pointer, record_of,
  ref, DeclsAt, null_decls, decls, FieldAt, null_field, field, DeclsListAt, DeclsNodes,
  null_decls_list, empty_decls_list, decls_list, no_decls_node, decls_node, FieldListAt, FieldNodes,
  null_field_list, empty_field_list, field_list, no_field_node, field_node, ExprAt, null_expr, app,
  bin, deref, idx, lit, path, un, addrof, ExprListAt, ExprNodes, null_expr_list, empty_expr_list,
  expr_list, no_expr_node, expr_node, StmtAt, null_stmt, assign, for_to, ite, proc, stmts, wdo,
  StmtListAt, StmtNodes, null_stmt_list, empty_stmt_list, stmt_list, no_stmt_node, stmt_node,
  SubdeclAt, null_subdecl, subdecl, SubdeclListAt, SubdeclNodes, null_subdecl_list,
  empty_subdecl_list, subdecl_list, no_subdecl_node, subdecl_node, PathAt, null_path, path_at,
  TypeDeclAt, null_type_decl, type_decl, ProgramAt, null_program, program,
}
use cs.Ast.Owned.Free.{
  free_path, free_type_decl, free_program, free_type, free_decls, free_record_field, free_expr,
  free_stmt, free_subprogram_decl, free_decls_list, free_decls_nodes, free_field_list,
  free_field_nodes, free_expr_list, free_expr_nodes, free_stmt_list, free_stmt_nodes,
  free_subdecl_list, free_subdecl_nodes,
}
use cs.Ast.Owned.Blocks.{
  path_blocks, type_decl_blocks, program_blocks, type_blocks, decls_blocks, field_blocks,
  expr_blocks, stmt_blocks, subdecl_blocks, decls_list_blocks, decls_node_blocks, field_list_blocks,
  field_node_blocks, expr_list_blocks, expr_node_blocks, stmt_list_blocks, stmt_node_blocks,
  subdecl_list_blocks, subdecl_node_blocks,
}

free_path-Frees : (x : PathAt) → Frees (path_blocks x) (free_path x)
unfolding free_path path_blocks
free_path-Frees null_path = Frees-none
free_path-Frees (path_at p components) =
    struct-Frees p (part (list_free-Frees release-Frees components) no_part)

mutual
  unfolding free_type type_blocks

  pub free_type-Frees : (x : TypeAt) → Frees (type_blocks x) (free_type x)
  free_type-Frees null_type = Frees-none
  free_type-Frees (array p lower upper elt) =
      struct-Frees p (
        part (release-Frees lower)
          (part (release-Frees upper) (part (free_type-Frees elt) no_part)))
  free_type-Frees (boolean p) = struct-Frees p no_part
  free_type-Frees (char p) = struct-Frees p no_part
  free_type-Frees (integer p) = struct-Frees p no_part
  free_type-Frees (real p) = struct-Frees p no_part
  free_type-Frees (string p) = struct-Frees p no_part
  free_type-Frees (void p) = struct-Frees p no_part
  free_type-Frees (func p kind args retty) =
      struct-Frees p (part (free_type-Frees retty) (part (free_decls_list-Frees args) no_part))
  free_type-Frees (pointer p t) = struct-Frees p (part (free_type-Frees t) no_part)
  free_type-Frees (record_of p fields) =
      struct-Frees p (part (free_field_list-Frees fields) no_part)
  free_type-Frees (ref p name) = struct-Frees p (part (release-Frees name) no_part)

  pub free_decls-Frees : (x : DeclsAt) → Frees (decls_blocks x) (free_decls x)
  free_decls-Frees null_decls = Frees-none
  free_decls-Frees (decls p names type) =
      struct-Frees p
        (part (free_type-Frees type) (part (list_free-Frees release-Frees names) no_part))

  pub free_record_field-Frees : (x : FieldAt) → Frees (field_blocks x) (free_record_field x)
  free_record_field-Frees null_field = Frees-none
  free_record_field-Frees (field p name type) =
      struct-Frees p (part (release-Frees name) (part (free_type-Frees type) no_part))

  pub free_decls_list-Frees : (es : DeclsListAt) → Frees (decls_list_blocks es) (free_decls_list es)
  free_decls_list-Frees null_decls_list = Frees-none
  free_decls_list-Frees (empty_decls_list p) = struct-Frees p no_part
  free_decls_list-Frees (decls_list p e rest) =
      struct-Frees p (part (free_decls_nodes-Frees rest) (part (free_decls-Frees e) no_part))

  free_decls_nodes-Frees : (es : DeclsNodes) → Frees (decls_node_blocks es) (free_decls_nodes es)
  free_decls_nodes-Frees no_decls_node = Frees-none
  free_decls_nodes-Frees (decls_node p e rest) =
      Frees-then (struct-Frees p (part (free_decls-Frees e) no_part)) (free_decls_nodes-Frees rest)

  pub free_field_list-Frees : (es : FieldListAt) → Frees (field_list_blocks es) (free_field_list es)
  free_field_list-Frees null_field_list = Frees-none
  free_field_list-Frees (empty_field_list p) = struct-Frees p no_part
  free_field_list-Frees (field_list p e rest) =
      struct-Frees p (part (free_field_nodes-Frees rest) (part (free_record_field-Frees e) no_part))

  free_field_nodes-Frees : (es : FieldNodes) → Frees (field_node_blocks es) (free_field_nodes es)
  free_field_nodes-Frees no_field_node = Frees-none
  free_field_nodes-Frees (field_node p e rest) =
      Frees-then (struct-Frees p (part (free_record_field-Frees e) no_part))
        (free_field_nodes-Frees rest)

free_type_decl-Frees : (x : TypeDeclAt) → Frees (type_decl_blocks x) (free_type_decl x)
unfolding free_type_decl type_decl_blocks
free_type_decl-Frees null_type_decl = Frees-none
free_type_decl-Frees (type_decl p name type) =
    struct-Frees p (part (release-Frees name) (part (free_type-Frees type) no_part))

mutual
  unfolding free_expr expr_blocks

  pub free_expr-Frees : (x : ExprAt) → Frees (expr_blocks x) (free_expr x)
  free_expr-Frees null_expr = Frees-none
  free_expr-Frees (app p name args) =
      struct-Frees p (part (free_expr_list-Frees args) (part (free_path-Frees name) no_part))
  free_expr-Frees (bin p op left right) =
      struct-Frees p (part (free_expr-Frees left) (part (free_expr-Frees right) no_part))
  free_expr-Frees (deref p e) = struct-Frees p (part (free_expr-Frees e) no_part)
  free_expr-Frees (idx p q e) =
      struct-Frees p (part (free_path-Frees q) (part (free_expr-Frees e) no_part))
  free_expr-Frees (lit p s) = struct-Frees p (part (release-Frees s) no_part)
  free_expr-Frees (path p q) = struct-Frees p (part (free_path-Frees q) no_part)
  free_expr-Frees (un p op e) = struct-Frees p (part (free_expr-Frees e) no_part)
  free_expr-Frees (addrof p e) = struct-Frees p (part (free_expr-Frees e) no_part)

  pub free_expr_list-Frees : (es : ExprListAt) → Frees (expr_list_blocks es) (free_expr_list es)
  free_expr_list-Frees null_expr_list = Frees-none
  free_expr_list-Frees (empty_expr_list p) = struct-Frees p no_part
  free_expr_list-Frees (expr_list p e rest) =
      struct-Frees p (part (free_expr_nodes-Frees rest) (part (free_expr-Frees e) no_part))

  free_expr_nodes-Frees : (es : ExprNodes) → Frees (expr_node_blocks es) (free_expr_nodes es)
  free_expr_nodes-Frees no_expr_node = Frees-none
  free_expr_nodes-Frees (expr_node p e rest) =
      Frees-then (struct-Frees p (part (free_expr-Frees e) no_part)) (free_expr_nodes-Frees rest)

mutual
  unfolding free_stmt stmt_blocks

  pub free_stmt-Frees : (x : StmtAt) → Frees (stmt_blocks x) (free_stmt x)
  free_stmt-Frees null_stmt = Frees-none
  free_stmt-Frees (assign p lvalue rvalue) =
      struct-Frees p (part (free_expr-Frees lvalue) (part (free_expr-Frees rvalue) no_part))
  free_stmt-Frees (for_to p id start end body) = struct-Frees p (
      part (release-Frees id) (
        part (free_expr-Frees start)
          (part (free_expr-Frees end) (part (free_stmt-Frees body) no_part))))
  free_stmt-Frees (ite p cond yes_ no_) = struct-Frees p (
      part (free_expr-Frees cond)
        (part (free_stmt-Frees yes_) (part (free_stmt-Frees no_) no_part)))
  free_stmt-Frees (proc p name args) =
      struct-Frees p (part (free_path-Frees name) (part (free_expr_list-Frees args) no_part))
  free_stmt-Frees (stmts p ss) = struct-Frees p (part (free_stmt_list-Frees ss) no_part)
  free_stmt-Frees (wdo p cond body) =
      struct-Frees p (part (free_expr-Frees cond) (part (free_stmt-Frees body) no_part))

  pub free_stmt_list-Frees : (es : StmtListAt) → Frees (stmt_list_blocks es) (free_stmt_list es)
  free_stmt_list-Frees null_stmt_list = Frees-none
  free_stmt_list-Frees (empty_stmt_list p) = struct-Frees p no_part
  free_stmt_list-Frees (stmt_list p e rest) =
      struct-Frees p (part (free_stmt_nodes-Frees rest) (part (free_stmt-Frees e) no_part))

  free_stmt_nodes-Frees : (es : StmtNodes) → Frees (stmt_node_blocks es) (free_stmt_nodes es)
  free_stmt_nodes-Frees no_stmt_node = Frees-none
  free_stmt_nodes-Frees (stmt_node p e rest) =
      Frees-then (struct-Frees p (part (free_stmt-Frees e) no_part)) (free_stmt_nodes-Frees rest)

mutual
  unfolding free_subprogram_decl subdecl_blocks

  pub free_subprogram_decl-Frees :
      (x : SubdeclAt) → Frees (subdecl_blocks x) (free_subprogram_decl x)
  free_subprogram_decl-Frees null_subdecl = Frees-none
  free_subprogram_decl-Frees (subdecl p head name types ds subprogs body) = struct-Frees p (
      part (free_type-Frees head) (
        part (free_subdecl_list-Frees subprogs) (
          part (free_decls_list-Frees ds) (
            part (list_free-Frees free_type_decl-Frees types)
              (part (free_stmt-Frees body) (part (release-Frees name) no_part))))))

  pub free_subdecl_list-Frees :
      (es : SubdeclListAt) → Frees (subdecl_list_blocks es) (free_subdecl_list es)
  free_subdecl_list-Frees null_subdecl_list = Frees-none
  free_subdecl_list-Frees (empty_subdecl_list p) = struct-Frees p no_part
  free_subdecl_list-Frees (subdecl_list p e rest) =
      struct-Frees p
        (part (free_subdecl_nodes-Frees rest) (part (free_subprogram_decl-Frees e) no_part))

  free_subdecl_nodes-Frees :
      (es : SubdeclNodes) → Frees (subdecl_node_blocks es) (free_subdecl_nodes es)
  free_subdecl_nodes-Frees no_subdecl_node = Frees-none
  free_subdecl_nodes-Frees (subdecl_node p e rest) =
      Frees-then (struct-Frees p (part (free_subprogram_decl-Frees e) no_part))
        (free_subdecl_nodes-Frees rest)

pub free_program-Frees : (x : ProgramAt) → Frees (program_blocks x) (free_program x)
unfolding free_program program_blocks
free_program-Frees null_program = Frees-none
free_program-Frees (program p name args types ds subprogs body) = struct-Frees p (
    part (release-Frees name) (
      part (list_free-Frees release-Frees args) (
        part (free_decls_list-Frees ds) (
          part (list_free-Frees free_type_decl-Frees types)
            (part (free_subdecl_list-Frees subprogs) (part (free_stmt-Frees body) no_part))))))
