-- ===== src/Print/Trees.antt =====
-- The pretty printers of dragon/ast.c, at an indentation.
use cs.Prelude.{ℕ, ◌+◌, String, List, [], ◌∷◌, ◌++◌, none}
use cs.Ast.{
  sub_function, sub_procedure, AstType, array, boolean, char, integer, real, string, void, func,
  pointer, record_of, ref, null, DeclsList, no_decls, decls, RecordFields, no_fields, field,
  AstPath, AstExpr, app, bin, deref, idx, lit, path, un, addrof, ExprList, no_exprs, expr, AstStmt,
  assign, for_to, ite, proc, stmts, wdo, skip, StmtList, no_stmts, stmt, AstSubdecl, subdecl,
  SubdeclList, no_subdecls, sub, AstProgram,
}
use cs.Print.{spaces, text, newline, Output, puts, print_token}

-- `INDSZ`
abbrev pub indsz : ℕ
indsz = 2

-- `INDENT; puts(s);`
abbrev pub line : ℕ → String → Output
line indent s = spaces indent ∷ puts s

-- `` printf("`%s`\n", name) `` after `INDENT`.
abbrev pub quoted_line : ℕ → String → Output
quoted_line indent name = spaces indent ∷ text "`" ∷ text name ∷ puts "`"

-- The components after the first, each after a dot.
unfoldable pub print_rest : List String → Output
print_rest [] = []
print_rest (n ∷ rest) = text "." ∷ text n ∷ print_rest rest

unfoldable pub print_path : AstPath → ℕ → Output
unfolding print_rest
print_path p indent = spaces indent ∷ text p.first ∷ print_rest p.rest

unfoldable mutual
  pub print_expr : AstExpr → ℕ → Output
  print_expr (app name args) indent =
      spaces indent
      ∷ text "APPLY `"
      ∷ (print_path name 0
          ++ puts "`"
          ++ line indent "TO ARGS:"
          ++ print_exprs args (indent + indsz))
  print_expr (bin op left right) indent =
      spaces indent
      ∷ text "BINOP "
      ∷ (print_token op none
          ++ line (indent + indsz) "LEFT:"
          ++ print_expr left (indent + indsz + indsz)
          ++ line (indent + indsz) "RIGHT:"
          ++ print_expr right (indent + indsz + indsz))
  print_expr (deref e) indent =
      line indent "DEREF:" ++ print_expr e (indent + indsz) ++ newline ∷ []
  print_expr (idx p e) indent =
      spaces indent
      ∷ text "INDEX `"
      ∷ (print_path p 0 ++ puts "` WITH:" ++ print_expr e (indent + indsz))
  print_expr (lit s) indent = spaces indent ∷ text "LIT `" ∷ text s ∷ puts "`"
  print_expr (path p) indent = spaces indent ∷ (print_path p 0 ++ newline ∷ [])
  print_expr (un op e) indent =
      spaces indent
      ∷ text "UNARY "
      ∷ (print_token op none ++ puts ":" ++ print_expr e (indent + indsz))
  print_expr (addrof e) indent = line indent "ADDRESS OF:" ++ print_expr e (indent + indsz)

  -- The loop over arguments.
  pub print_exprs : ExprList → ℕ → Output
  print_exprs no_exprs indent = []
  print_exprs (expr e es) indent = print_expr e indent ++ print_exprs es indent

-- The end of the line of a call, and its arguments.
unfoldable pub print_args : ExprList → ℕ → Output
unfolding print_expr
print_args no_exprs indent = puts "`"
print_args (expr e es) indent = puts "` WITH:" ++ print_exprs (expr e es) (indent + indsz)

unfoldable mutual
  unfolding print_args

  pub print_stmt : AstStmt → ℕ → Output
  print_stmt skip indent = []
  print_stmt (assign lvalue rvalue) indent =
      line indent "ASSIGN"
      ++ print_expr lvalue (indent + indsz)
      ++ line indent "TO"
      ++ print_expr rvalue (indent + indsz)
  print_stmt (ite cond yes_ no_) indent =
      line indent "IF FOLLOWING IS TRUE:"
      ++ print_expr cond (indent + indsz)
      ++ line indent "THEN:"
      ++ print_stmt yes_ (indent + indsz)
      ++ line indent "OTHERWISE:"
      ++ print_stmt no_ (indent + indsz)
  print_stmt (stmts ss) indent = print_stmts ss indent
  print_stmt (proc name args) indent =
      spaces indent ∷ text "APPLY `" ∷ (print_path name 0 ++ print_args args indent)
  print_stmt (wdo cond body) indent =
      line indent "WHILE THE FOLLOWING IS TRUE:"
      ++ print_expr cond (indent + indsz)
      ++ line indent "DO:"
      ++ print_stmt body (indent + indsz)
  print_stmt (for_to variable start end body) indent =
      spaces indent
      ∷ text "FOR `"
      ∷ text variable
      ∷ (puts "` STARTING AT:"
          ++ print_expr start (indent + indsz)
          ++ line indent "AND GOING TO:"
          ++ print_expr end (indent + indsz)
          ++ line indent "DO:"
          ++ print_stmt body (indent + indsz))

  -- The loop over statements.
  pub print_stmts : StmtList → ℕ → Output
  print_stmts no_stmts indent = []
  print_stmts (stmt s ss) indent = print_stmt s indent ++ print_stmts ss indent

-- The loop over names.
unfoldable pub print_names : List String → ℕ → Output
print_names [] indent = []
print_names (n ∷ names) indent = quoted_line indent n ++ print_names names indent

-- A type without a case in the `switch` prints its indentation, and a message on stderr.
unfoldable mutual
  unfolding print_names

  pub print_type : AstType → ℕ → Output
  print_type null indent = []
  print_type integer indent = line indent "INTEGER"
  print_type real indent = line indent "REAL"
  print_type string indent = line indent "STRING"
  print_type boolean indent = line indent "BOOLEAN"
  print_type char indent = line indent "CHAR"
  print_type (array lower upper elt) indent =
      spaces indent
      ∷ text "ARRAY [`"
      ∷ text lower
      ∷ text "` .. `"
      ∷ text upper
      ∷ (puts "`] OF:" ++ print_type elt (indent + indsz))
  print_type (pointer t) indent = line indent "POINTER TO:" ++ print_type t (indent + indsz)
  print_type (ref name) indent = spaces indent ∷ text "REFERENCE `" ∷ text name ∷ text "`" ∷ []
  print_type (func sub_function args retty) indent =
      line indent "FUNCTION WITH ARGUMENTS:"
      ++ print_decls_list args (indent + indsz)
      ++ line indent "RETURNING:"
      ++ print_type retty (indent + indsz)
  print_type (func sub_procedure args retty) indent =
      line indent "PROCEDURE WITH ARGUMENTS:" ++ print_decls_list args (indent + indsz)
  print_type (record_of fields) indent =
      line indent "RECORD WITH FIELDS:" ++ print_fields fields (indent + indsz)
  print_type void indent = spaces indent ∷ []

  -- The loop over `print_decls`.
  pub print_decls_list : DeclsList → ℕ → Output
  print_decls_list no_decls indent = []
  print_decls_list (decls names type rest) indent =
      line indent "DECLARATION WITH TYPE:"
      ++ print_type type (indent + indsz)
      ++ line indent "OF NAMES:"
      ++ print_names names (indent + indsz)
      ++ print_decls_list rest indent

  -- The loop over `print_record_field`.
  pub print_fields : RecordFields → ℕ → Output
  print_fields no_fields indent = []
  print_fields (field name type rest) indent =
      spaces indent
      ∷ text "FIELD `"
      ∷ text name
      ∷ (puts "` WITH TYPE:" ++ print_type type (indent + indsz) ++ print_fields rest indent)

unfoldable mutual
  unfolding print_type print_stmt

  -- Neither the name nor the types of a subprogram are printed.
  pub print_subprogram_decl : AstSubdecl → ℕ → Output
  print_subprogram_decl (subdecl head name types vars subprogs body) indent =
      print_type head indent
      ++ line indent "WITH SUBPROGRAMS:"
      ++ print_subprograms subprogs (indent + indsz)
      ++ line indent "AND VARIABLES"
      ++ print_decls_list vars (indent + indsz)
      ++ line indent "DOES:"
      ++ print_stmt body (indent + indsz)

  -- The loop over subprograms.
  pub print_subprograms : SubdeclList → ℕ → Output
  print_subprograms no_subdecls indent = []
  print_subprograms (sub d rest) indent =
      print_subprogram_decl d indent ++ print_subprograms rest indent

unfoldable pub print_program : AstProgram → ℕ → Output
unfolding print_subprogram_decl
print_program p indent =
    spaces indent
    ∷ text "PROGRAM `"
    ∷ text p.name
    ∷ (puts "` WITH ARGS:"
        ++ print_names p.args (indent + indsz)
        ++ line indent "AND VARIABLES:"
        ++ print_decls_list p.decls (indent + indsz)
        ++ line indent "AND SUBPROGRAMS:"
        ++ print_subprograms p.subprogs (indent + indsz)
        ++ line indent "DOES:"
        ++ print_stmt p.body (indent + indsz))
