-- ===== src/Print/Tokens.antt =====
-- `print_token` of dragon/token.c is injective on the tokens that it knows.
use mathlib.Core.Option.{some-injective}
use cs.Prelude.{
  ℕ, ◌≡◌, refl, sym, ap, ◌∙◌, ◌⊎◌, inl, inr, String, str_eq, Option, none, some, List, [], ◌∷◌,
  if◌then◌else◌, arith,
}
use cs.Token.{
  Token, eof, div, boolean, string, char, for_, to_, mod_, and_, or_, not_, function, procedure,
  tbegin, end, integer, real, array, of_, program, neq, le, ge, dotdot, assignop, do_, else_, if_,
  then_, var, while_, id, num, record_, type_, chr,
}
use cs.Print.{text, Output, char_name, print_token}

-- A reader of the names.
abbrev names : List (String × Token)
names =
    ("EOF", eof)
    ∷ ("DIV", div)
    ∷ ("BOOLEAN", boolean)
    ∷ ("STRING", string)
    ∷ ("CHAR", char)
    ∷ ("FOR", for_)
    ∷ ("TO", to_)
    ∷ ("MOD", mod_)
    ∷ ("AND", and_)
    ∷ ("OR", or_)
    ∷ ("NOT", not_)
    ∷ ("FUNCTION", function)
    ∷ ("PROCEDURE", procedure)
    ∷ ("TBEGIN", tbegin)
    ∷ ("END", end)
    ∷ ("INTEGER", integer)
    ∷ ("REAL", real)
    ∷ ("ARRAY", array)
    ∷ ("OF", of_)
    ∷ ("PROGRAM", program)
    ∷ ("NEQ", neq)
    ∷ ("LE", le)
    ∷ ("GE", ge)
    ∷ ("DOTDOT", dotdot)
    ∷ ("ASSIGNOP", assignop)
    ∷ ("DO", do_)
    ∷ ("ELSE", else_)
    ∷ ("IF", if_)
    ∷ ("THEN", then_)
    ∷ ("VAR", var)
    ∷ ("WHILE", while_)
    ∷ ("EQ", chr b'=')
    ∷ ("LT", chr b'<')
    ∷ ("GT", chr b'>')
    ∷ ("PLUS", chr b'+')
    ∷ ("MINUS", chr b'-')
    ∷ ("STAR", chr b'*')
    ∷ ("SLASH", chr b'/')
    ∷ ("LPAREN", chr b'(')
    ∷ ("RPAREN", chr b')')
    ∷ ("LBRACKET", chr b'[')
    ∷ ("RBRACKET", chr b']')
    ∷ ("COMMA", chr b',')
    ∷ ("DOT", chr b'.')
    ∷ ("COLON", chr b':')
    ∷ ("SEMI", chr b';')
    ∷ ("AT", chr b'@')
    ∷ ("CARET", chr b'^')
    ∷ ("ID(", id)
    ∷ ("NUM(", num)
    ∷ []

read_name : String → List (String × Token) → Option Token
read_name s [] = none
read_name s ((name, t) ∷ more) =
    let rest = read_name s more in if str_eq name s then some t else rest

read_line : Output → Option Token
unfolding read_name
read_line (text s ∷ ps) = read_name s names
read_line _ = none

-- The tokens that `print_token` does not know: two keywords, and every other character.
pub data Unnamed : Token → Type 0 where
  record_keyword : Unnamed record_
  type_keyword : Unnamed type_
  other_character : {c : ℕ} → char_name c ≡ none → Unnamed (chr c)

read-char :
    (c : ℕ) (n : String)
    → (read_line (print_token (chr c) (some n)) ≡ some (chr c)) ⊎ (char_name c ≡ none)
unfolding read_line print_token char_name
read-char c n = ground arith

read-print_token :
    (t : Token) (n : String) → (read_line (print_token t (some n)) ≡ some t) ⊎ Unnamed t
unfolding read_line print_token
read-print_token (chr c) n = elim (read-char c n) [
  | inl e ↦ inl e
  | inr e ↦ inr (other_character e)
]
read-print_token record_ n = inr record_keyword
read-print_token type_ n = inr type_keyword
read-print_token _ n = inl refl

print-Unnamed : (t : Token) (n : String) → Unnamed t → print_token t (some n) ≡ []
unfolding print_token
print-Unnamed t n record_keyword = refl
print-Unnamed t n type_keyword = refl
print-Unnamed t n (other_character e) = rw e refl

read-nothing : (p q : Output) {t : Token} → p ≡ q → q ≡ [] → read_line p ≡ some t → ⊥
unfolding read_line
read-nothing p q e f h = cc

-- Two tokens for which `print_token` prints the same, whatever their values, are the same token or
-- are both unknown to it: the keywords RECORD and TYPE and the characters that have no case.
pub print_token-injective :
    (t u : Token) (n m : String)
    → print_token t (some n) ≡ print_token u (some m)
    → (t ≡ u) ⊎ (Unnamed t × Unnamed u)
print_token-injective t u n m same = elim (read-print_token t n) [
  | inl known ↦ elim (read-print_token u m) [
    | inl known' ↦ inl (some-injective _ _ (sym known ∙ ap read_line same ∙ known'))
    | inr x ↦ absurd (read-nothing _ _ same (print-Unnamed u m x) known)
  ]
  | inr x ↦ elim (read-print_token u m) [
    | inl known' ↦ absurd (read-nothing _ _ (sym same) (print-Unnamed t n x) known')
    | inr y ↦ inr (x, y)
  ]
]
