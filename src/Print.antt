-- ===== src/Print.antt =====
-- `print_token` of dragon/token.c, and what the printers write.
--
-- The output is the list of the pieces that are written, in order. The message on stderr for an
-- unknown token is not kept.

pub mod Trees
pub mod Layout
pub mod Tokens
use cs.Prelude.{ℕ, String, Option, none, some, List, [], ◌∷◌, ◌++◌, ◌==◌, if◌then◌else◌}
use cs.Token.{
  Token, eof, div, boolean, string, char, for_, to_, mod_, and_, or_, not_, function, procedure,
  tbegin, end, integer, real, array, of_, program, neq, le, ge, dotdot, assignop, do_, else_, if_,
  then_, var, while_, id, num, chr,
}

-- `unreadable` is a read through a null pointer.
pub data Piece : Type 0 where
  spaces : ℕ → Piece
  text : String → Piece
  newline : Piece
  unreadable : Piece

abbrev pub Output : Type 0
Output = List Piece

abbrev pub puts : String → Output
puts s = text s ∷ newline ∷ []

-- The cases of the `switch` for characters.
unfoldable pub char_name : ℕ → Option String
char_name c =
    if c == b'='
    then some "EQ"
    else if c == b'<'
    then some "LT"
    else if c == b'>'
    then some "GT"
    else if c == b'+'
    then some "PLUS"
    else if c == b'-'
    then some "MINUS"
    else if c == b'*'
    then some "STAR"
    else if c == b'/'
    then some "SLASH"
    else if c == b'('
    then some "LPAREN"
    else if c == b')'
    then some "RPAREN"
    else if c == b'['
    then some "LBRACKET"
    else if c == b']'
    then some "RBRACKET"
    else if c == b','
    then some "COMMA"
    else if c == b'.'
    then some "DOT"
    else if c == b':'
    then some "COLON"
    else if c == b';'
    then some "SEMI"
    else if c == b'@'
    then some "AT"
    else if c == b'^'
    then some "CARET"
    else none

-- The other cases that print a fixed name.
unfoldable pub token_name : Token → Option String
unfolding char_name
token_name eof = some "EOF"
token_name div = some "DIV"
token_name boolean = some "BOOLEAN"
token_name string = some "STRING"
token_name char = some "CHAR"
token_name for_ = some "FOR"
token_name to_ = some "TO"
token_name mod_ = some "MOD"
token_name and_ = some "AND"
token_name or_ = some "OR"
token_name not_ = some "NOT"
token_name function = some "FUNCTION"
token_name procedure = some "PROCEDURE"
token_name tbegin = some "TBEGIN"
token_name end = some "END"
token_name integer = some "INTEGER"
token_name real = some "REAL"
token_name array = some "ARRAY"
token_name of_ = some "OF"
token_name program = some "PROGRAM"
token_name neq = some "NEQ"
token_name le = some "LE"
token_name ge = some "GE"
token_name dotdot = some "DOTDOT"
token_name assignop = some "ASSIGNOP"
token_name do_ = some "DO"
token_name else_ = some "ELSE"
token_name if_ = some "IF"
token_name then_ = some "THEN"
token_name var = some "VAR"
token_name while_ = some "WHILE"
token_name (chr c) = char_name c
token_name _ = none

abbrev pub name_line : Option String → Output
name_line none = []
name_line (some s) = puts s

-- `printf("ID(%s)\n", val->name)`
abbrev pub value_line : String → Option String → Output
value_line kind none = unreadable ∷ []
value_line kind (some name) = text kind ∷ text name ∷ puts ")"

-- The second argument is `val->name`, and nothing where `val` is null.
unfoldable pub print_token : Token → Option String → Output
unfolding token_name
print_token id val = value_line "ID(" val
print_token num val = value_line "NUM(" val
print_token t val = name_line (token_name t)
