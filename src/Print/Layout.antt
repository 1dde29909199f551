-- ===== src/Print/Layout.antt =====
-- How the output of the printers of dragon/ast.c is laid out in lines.
use cs.Prelude.{
  ℕ, ◌+◌, ◌≤◌, String, Bool, true, false, Option, none, some, List, [], ◌∷◌, ◌++◌, arith,
}
use cs.Token.{Token, id, num}
use cs.Ast.{
  sub_function, sub_procedure, AstType, array, boolean, char, integer, real, string, void, func,
  pointer, record_of, ref, null, DeclsList, no_decls, decls, RecordFields, no_fields, field,
  AstPath, AstExpr, app, bin, deref, idx, lit, path, un, addrof, ExprList, no_exprs, expr, AstStmt,
  assign, for_to, ite, proc, stmts, wdo, skip, StmtList, no_stmts, stmt,
}
use cs.Print.{spaces, text, newline, unreadable, Output, name_line, token_name, print_token}
use cs.Print.Trees.{
  indsz, line, print_rest, print_path, print_expr, print_exprs, print_args, print_stmt, print_stmts,
  print_names, print_type, print_decls_list, print_fields,
}

-- `Laid n a ps b`: a line that begins in `ps` is empty, is a single `:`, or is indented by `n` or
-- more. `a` and `b` tell whether a line begins before and after `ps`. Nothing is asked of what
-- follows a read through null.
pub data Laid (n : ℕ) : Bool → Output → Bool → Type 0 where
  done : {a : Bool} → Laid n a [] a
  indented :
      {k : ℕ} {ps : Output} {b : Bool} → n ≤ k → Laid n false ps b → Laid n true (spaces k ∷ ps) b
  blank : {ps : Output} {b : Bool} → Laid n true ps b → Laid n true (newline ∷ ps) b
  colon : {ps : Output} {b : Bool} → Laid n true ps b → Laid n true (text ":" ∷ newline ∷ ps) b
  gap : {k : ℕ} {ps : Output} {b : Bool} → Laid n false ps b → Laid n false (spaces k ∷ ps) b
  word : {s : String} {ps : Output} {b : Bool} → Laid n false ps b → Laid n false (text s ∷ ps) b
  end_line : {ps : Output} {b : Bool} → Laid n true ps b → Laid n false (newline ∷ ps) b
  lost : {ps : Output} {a b : Bool} → Laid n a (unreadable ∷ ps) b

module _ {n : ℕ} where
  infixl 5 ◌▹◌
  ◌▹◌ : {a b c : Bool} {ps qs : Output} → Laid n a ps b → Laid n b qs c → Laid n a (ps ++ qs) c
  done ▹ k = k
  indented le h ▹ k = indented le (h ▹ k)
  blank h ▹ k = blank (h ▹ k)
  colon h ▹ k = colon (h ▹ k)
  gap h ▹ k = gap (h ▹ k)
  word h ▹ k = word (h ▹ k)
  end_line h ▹ k = end_line (h ▹ k)
  lost ▹ k = lost

  -- An indentation, at the beginning of a line or inside one.
  at_indent :
      (a : Bool) {k : ℕ} {ps : Output} {b : Bool}
      → n ≤ k
      → Laid n false ps b
      → Laid n a (spaces k ∷ ps) b
  at_indent true le h = indented le h
  at_indent false le h = gap h

  puts-Laid : (s : String) → Laid n false (text s ∷ newline ∷ []) true
  puts-Laid s = word (end_line done)

  line-Laid : (a : Bool) {k : ℕ} (s : String) → n ≤ k → Laid n a (line k s) true
  line-Laid a s le = at_indent a le (puts-Laid s)

  print_rest-Laid : (names : List String) → Laid n false (print_rest names) false
  unfolding print_rest
  print_rest-Laid [] = done
  print_rest-Laid (x ∷ names) = word (word (print_rest-Laid names))

  print_path-Laid : (p : AstPath) (k : ℕ) → Laid n false (print_path p k) false
  unfolding print_path
  print_path-Laid p k = gap (word (print_rest-Laid p.rest))

  name_line-Laid : (o : Option String) → (b : Bool) × Laid n false (name_line o) b
  name_line-Laid none = (false, done)
  name_line-Laid (some s) = (true, puts-Laid s)

  print_token-Laid : (t : Token) → (b : Bool) × Laid n false (print_token t none) b
  unfolding print_token token_name
  print_token-Laid id = (true, lost)
  print_token-Laid num = (true, lost)
  print_token-Laid t = name_line-Laid (token_name t)

  colon-Laid : (a : Bool) → Laid n a (text ":" ∷ newline ∷ []) true
  colon-Laid true = colon done
  colon-Laid false = puts-Laid ":"

mutual
  unfolding print_expr

  expr-Laid : {n : ℕ} (e : AstExpr) (a : Bool) (k : ℕ) → n ≤ k → Laid n a (print_expr e k) true
  expr-Laid (app p args) a k le = at_indent a le (
      word (
        print_path-Laid p 0
        ▹ puts-Laid "`"
        ▹ line-Laid true "TO ARGS:" le
        ▹ exprs-Laid args (k + indsz) (omega arith)))
  expr-Laid (bin o left right) a k le =
      let (b, h) = print_token-Laid o in
      at_indent a le (
        word (
          h
          ▹ line-Laid b "LEFT:" (omega arith)
          ▹ expr-Laid left true (k + indsz + indsz) (omega arith)
          ▹ line-Laid true "RIGHT:" (omega arith)
          ▹ expr-Laid right true (k + indsz + indsz) (omega arith)))
  expr-Laid (deref e) a k le =
      line-Laid a "DEREF:" le ▹ expr-Laid e true (k + indsz) (omega arith) ▹ blank done
  expr-Laid (idx p e) a k le = at_indent a le (
      word (print_path-Laid p 0 ▹ puts-Laid "` WITH:" ▹ expr-Laid e true (k + indsz) (omega arith)))
  expr-Laid (lit s) a k le = at_indent a le (word (word (puts-Laid "`")))
  expr-Laid (path p) a k le = at_indent a le (print_path-Laid p 0 ▹ end_line done)
  expr-Laid (un o e) a k le =
      let (b, h) = print_token-Laid o in
      at_indent a le (word (h ▹ colon-Laid b ▹ expr-Laid e true (k + indsz) (omega arith)))
  expr-Laid (addrof e) a k le =
      line-Laid a "ADDRESS OF:" le ▹ expr-Laid e true (k + indsz) (omega arith)

  exprs-Laid : {n : ℕ} (es : ExprList) (k : ℕ) → n ≤ k → Laid n true (print_exprs es k) true
  exprs-Laid no_exprs k le = done
  exprs-Laid (expr e es) k le = expr-Laid e true k le ▹ exprs-Laid es k le

args-Laid : {n : ℕ} (es : ExprList) (k : ℕ) → n ≤ k → Laid n false (print_args es k) true
unfolding print_args
args-Laid no_exprs k le = puts-Laid "`"
args-Laid (expr e es) k le = puts-Laid "` WITH:" ▹ exprs-Laid (expr e es) (k + indsz) (omega arith)

mutual
  unfolding print_stmt

  stmt-Laid : {n : ℕ} (s : AstStmt) (k : ℕ) → n ≤ k → Laid n true (print_stmt s k) true
  stmt-Laid skip k le = done
  stmt-Laid (assign lvalue rvalue) k le =
      line-Laid true "ASSIGN" le
      ▹ expr-Laid lvalue true (k + indsz) (omega arith)
      ▹ line-Laid true "TO" le
      ▹ expr-Laid rvalue true (k + indsz) (omega arith)
  stmt-Laid (ite cond yes_ no_) k le =
      line-Laid true "IF FOLLOWING IS TRUE:" le
      ▹ expr-Laid cond true (k + indsz) (omega arith)
      ▹ line-Laid true "THEN:" le
      ▹ stmt-Laid yes_ (k + indsz) (omega arith)
      ▹ line-Laid true "OTHERWISE:" le
      ▹ stmt-Laid no_ (k + indsz) (omega arith)
  stmt-Laid (stmts ss) k le = stmts-Laid ss k le
  stmt-Laid (proc name args) k le =
      indented le (word (print_path-Laid name 0 ▹ args-Laid args k le))
  stmt-Laid (wdo cond body) k le =
      line-Laid true "WHILE THE FOLLOWING IS TRUE:" le
      ▹ expr-Laid cond true (k + indsz) (omega arith)
      ▹ line-Laid true "DO:" le
      ▹ stmt-Laid body (k + indsz) (omega arith)
  stmt-Laid (for_to variable start end body) k le = indented le (
      word (
        word (
          puts-Laid "` STARTING AT:"
          ▹ expr-Laid start true (k + indsz) (omega arith)
          ▹ line-Laid true "AND GOING TO:" le
          ▹ expr-Laid end true (k + indsz) (omega arith)
          ▹ line-Laid true "DO:" le
          ▹ stmt-Laid body (k + indsz) (omega arith))))

  stmts-Laid : {n : ℕ} (ss : StmtList) (k : ℕ) → n ≤ k → Laid n true (print_stmts ss k) true
  stmts-Laid no_stmts k le = done
  stmts-Laid (stmt s ss) k le = stmt-Laid s k le ▹ stmts-Laid ss k le

names-Laid : {n : ℕ} (names : List String) (k : ℕ) → n ≤ k → Laid n true (print_names names k) true
unfolding print_names
names-Laid [] k le = done
names-Laid (x ∷ names) k le = indented le (word (word (puts-Laid "`"))) ▹ names-Laid names k le

-- Laid out from the beginning of a line or from inside one, with a line left open or not.
abbrev Lays : ℕ → Output → Type 0
Lays n ps = (a : Bool) → (b : Bool) × Laid n a ps b

deeper : {n k : ℕ} → n ≤ k → n ≤ k + indsz
deeper le = omega arith

mutual
  unfolding print_type

  type-Lays : {n : ℕ} (t : AstType) (k : ℕ) → n ≤ k → Lays n (print_type t k)
  type-Lays null k le a = (a, done)
  type-Lays integer k le a = (true, line-Laid a "INTEGER" le)
  type-Lays real k le a = (true, line-Laid a "REAL" le)
  type-Lays string k le a = (true, line-Laid a "STRING" le)
  type-Lays boolean k le a = (true, line-Laid a "BOOLEAN" le)
  type-Lays char k le a = (true, line-Laid a "CHAR" le)
  type-Lays (array lower upper elt) k le a =
      let (b, h) = type-Lays elt (k + indsz) (deeper le) true in
      (b, at_indent a le (word (word (word (word (puts-Laid "`] OF:" ▹ h))))))
  type-Lays (pointer t) k le a =
      let (b, h) = type-Lays t (k + indsz) (deeper le) true in (b, line-Laid a "POINTER TO:" le ▹ h)
  type-Lays (ref name) k le a = (false, at_indent a le (word (word (word done))))
  type-Lays (func sub_function args retty) k le a =
      let (b, h) = decls-Lays args (k + indsz) (deeper le) true in
      let (c, r) = type-Lays retty (k + indsz) (deeper le) true in
      (c, line-Laid a "FUNCTION WITH ARGUMENTS:" le ▹ h ▹ line-Laid b "RETURNING:" le ▹ r)
  type-Lays (func sub_procedure args retty) k le a =
      let (b, h) = decls-Lays args (k + indsz) (deeper le) true in
      (b, line-Laid a "PROCEDURE WITH ARGUMENTS:" le ▹ h)
  type-Lays (record_of fields) k le a =
      let (b, h) = fields-Lays fields (k + indsz) (deeper le) true in
      (b, line-Laid a "RECORD WITH FIELDS:" le ▹ h)
  type-Lays void k le a = (false, at_indent a le done)

  decls-Lays : {n : ℕ} (ds : DeclsList) (k : ℕ) → n ≤ k → Lays n (print_decls_list ds k)
  decls-Lays no_decls k le a = (a, done)
  decls-Lays (decls names type rest) k le a =
      let (b, h) = type-Lays type (k + indsz) (deeper le) true in
      let (c, r) = decls-Lays rest k le true in
      (
        c,
        line-Laid a "DECLARATION WITH TYPE:" le
            ▹ h
            ▹ line-Laid b "OF NAMES:" le
            ▹ names-Laid names (k + indsz) (deeper le)
            ▹ r,
      )

  fields-Lays : {n : ℕ} (fs : RecordFields) (k : ℕ) → n ≤ k → Lays n (print_fields fs k)
  fields-Lays no_fields k le a = (a, done)
  fields-Lays (field name type rest) k le a =
      let (b, h) = type-Lays type (k + indsz) (deeper le) true in
      let (c, r) = fields-Lays rest k le b in
      (c, at_indent a le (word (word (puts-Laid "` WITH TYPE:" ▹ h ▹ r))))

-- `Subprograms n ps`: subprograms that are printed at `n`. The signature of each has no line that
-- is indented by less than `n`, its headings stand at `n`, its variables and its body have no line
-- that is indented by less than two more, and its own subprograms are printed so at two more.
pub data Subprograms : ℕ → Output → Type 0 where
  no_more : {n : ℕ} → Subprograms n []
  one :
      {n : ℕ} {head inner vars body rest : Output} {b c : Bool}
      → Laid n true head b
      → Subprograms (n + 2) inner
      → Laid (n + 2) true vars c
      → Laid (n + 2) true body true
      → Subprograms n rest
      → Subprograms n (
          (head
            ++ line n "WITH SUBPROGRAMS:"
            ++ inner
            ++ line n "AND VARIABLES"
            ++ vars
            ++ line n "DOES:"
            ++ body)
          ++ rest)

-- A program that is printed at `n`: its headings stand at `n`, its arguments, its variables and its
-- body have no line that is indented by less than two more, and its subprograms are printed at two
-- more.
pub data Program (n : ℕ) (name : String) : Output → Type 0 where
  program :
      {args vars subs body : Output} {c : Bool}
      → Laid (n + 2) true args true
      → Laid (n + 2) true vars c
      → Subprograms (n + 2) subs
      → Laid (n + 2) true body true
      → Program n name (
          spaces n
          ∷ text "PROGRAM `"
          ∷ text name
          ∷ (text "` WITH ARGS:" ∷ newline ∷ args
              ++ line n "AND VARIABLES:"
              ++ vars
              ++ line n "AND SUBPROGRAMS:"
              ++ subs
              ++ line n "DOES:"
              ++ body))
