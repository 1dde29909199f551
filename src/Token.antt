-- ===== src/Token.antt =====
-- The tokens of dragon/parser.y, as dragon/token.c and dragon/ast.c use them: the named tokens of
-- the `%token` lines and the characters that stand for themselves.
use cs.Prelude.{ℕ, Bool, true, false, ◌==◌, ◌||◌}

-- `enum yytokentype`, with `chr c` for a character and `eof` for 0.
pub data Token : Type 0 where
  eof : Token
  and_ array boolean char div do_ else_ end for_ function id if_ integer mod_ not_ num of_ or_ :
      Token
  procedure program real record_ string tbegin then_ to_ type_ var while_ : Token
  neq dotdot assignop le ge : Token
  chr : ℕ → Token

-- `is_relop` of dragon/ast.c.
unfoldable pub is_relop : Token → Bool
is_relop neq = true
is_relop le = true
is_relop ge = true
is_relop (chr c) = c == b'<' || c == b'>' || c == b'='
is_relop _ = false
