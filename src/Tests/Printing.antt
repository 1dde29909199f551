-- ===== src/Tests/Printing.antt =====
-- The printers and the constructors of nodes at small trees.
use cs.Prelude.{◌≡◌, ◌⊎◌, refl, [], ◌∷◌, some, none}
use cs.Token.{not_, type_, chr}
use cs.Ast.{AstExpr, AstStmt, AstType, un, bin, lit, path, assign, DeclsList, no_decls}
use cs.Ast.Make.{
  ast_expr, ast_stmt, ast_type, expr_bin, stmt_assign, type_void, arg_expr, arg_token,
}
use cs.Exec.{ok}
use cs.Print.{Piece, spaces, text, newline, Output, print_token}
use cs.Print.Trees.{print_expr, print_decls_list}
use cs.Print.Tokens.{Unnamed, print_token-injective}
use cs.Tests.Programs.{var_path}

-- `not x`: the operator ends its line, so the colon stands at the beginning of the next one.
negation :
    print_expr (un not_ (path (var_path "x"))) 2
    ≡ spaces 2
      ∷ text "UNARY "
      ∷ text "NOT"
      ∷ newline
      ∷ text ":"
      ∷ newline
      ∷ spaces 4
      ∷ spaces 0
      ∷ text "x"
      ∷ newline
      ∷ []
unfolding print_expr print_token cs.Print.Trees.print_path
negation = refl

-- `x : t`: the name of a type leaves its line open.
named_type :
    print_decls_list (DeclsList.decls ("x" ∷ []) (AstType.ref "t") no_decls) 0
    ≡ spaces 0
      ∷ text "DECLARATION WITH TYPE:"
      ∷ newline
      ∷ spaces 2
      ∷ text "REFERENCE `"
      ∷ text "t"
      ∷ text "`"
      ∷ spaces 0
      ∷ text "OF NAMES:"
      ∷ newline
      ∷ spaces 2
      ∷ text "`"
      ∷ text "x"
      ∷ text "`"
      ∷ newline
      ∷ []
unfolding print_decls_list
named_type = refl

nothing_printed : print_token type_ (some "") ≡ print_token (chr b'!') (some "")
unfolding print_token cs.Print.char_name
nothing_printed = refl

print_token-injective_example : (type_ ≡ chr b'!') ⊎ (Unnamed type_ × Unnamed (chr b'!'))
print_token-injective_example = print_token-injective type_ (chr b'!') "" "" nothing_printed

abbrev sum : AstExpr
sum = bin (chr b'+') (path (var_path "x")) (lit "1")

abbrev step : AstStmt
step = assign (path (var_path "x")) sum

made :
    (ast_expr expr_bin
        (arg_expr (path (var_path "x")) ∷ arg_token (chr b'+') ∷ arg_expr (lit "1") ∷ [])
      ≡ ok (some sum))
    × (ast_stmt stmt_assign (arg_expr (path (var_path "x")) ∷ arg_expr sum ∷ []) ≡ ok (some step))
    × (ast_type type_void [] ≡ ok none)
unfolding ast_expr ast_stmt ast_type
made = (refl, refl, refl)
