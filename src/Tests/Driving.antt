-- ===== src/Tests/Driving.antt =====
-- The driver with a parser that knows one source.
use cs.Prelude.{◌≡◌, refl, [], ◌∷◌, List, String, ◌==◌, some, none, Option, if◌then◌else◌}
use cs.Token.{Token}
use cs.Ast.{AstProgram}
use cs.Driver.{Bytes, defaults, parse_flags, main, exited}
use cs.Driver.Flags.{with_letters, parse_flags-letters}
use cs.Driver.Phases.{main-syntax_error}
use cs.Tests.Programs.{sums}

abbrev lex : Bytes → List (Token × Option String)
lex source = []

-- The source `s` is the program.
abbrev parse : Bytes → Option AstProgram
parse [] = none
parse (c ∷ rest) = if c == b's' then some sums else none

parse_flags-letters_example :
    parse_flags (b'p' ∷ b'N' ∷ b'p' ∷ []) defaults
    ≡ some (with_letters (b'p' ∷ b'N' ∷ b'p' ∷ []) defaults)
parse_flags-letters_example = parse_flags-letters (b'p' ∷ b'N' ∷ b'p' ∷ []) defaults

abbrev read_file : Bytes → Option Bytes
read_file name = some name

main-syntax_error_example :
    (main lex parse read_file ((1 ∷ []) ∷ []) ≡ exited 0)
    × (main lex parse read_file ((b'-' ∷ b'p' ∷ []) ∷ (1 ∷ []) ∷ []) ≡ exited 0)
main-syntax_error_example =
    main-syntax_error lex parse read_file (b'p' ∷ []) (1 ∷ []) (1 ∷ []) refl refl refl

-- No arguments, and a flag that is not known.
usage : main lex parse read_file [] ≡ exited 1
unfolding main
usage = refl

unknown : main lex parse read_file ((b'-' ∷ b'x' ∷ []) ∷ (b's' ∷ []) ∷ []) ≡ exited 1
unfolding main
unknown = refl
