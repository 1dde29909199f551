-- ===== src/Driver.antt =====
-- `main` of dragon/main.c and `compile_input` of dragon/driver.c.
--
-- What flex and bison generate is a parameter: `lex` gives the tokens that `yylex` returns before
-- the end of the input, with their names, and `parse` the tree of `yyparse`, or nothing where it
-- does not return 0. So are the files: `read_file` is `open`, `lseek` and `mmap`, and gives nothing
-- where one of them fails. The parts of the output that come before the assembly are `printed`.

pub mod Cleanup
pub mod Flags
pub mod Phases
use cs.Prelude.{
  ℕ, suc, String, Bool, true, false, Option, none, some, List, [], ◌∷◌, ◌++◌, ◌==◌, length, ltb,
  if◌then◌else◌,
}
use cs.Token.{Token}
use cs.Ast.{AstProgram}
use cs.Exec.{Result, ok, stop, Stop, span_err, aborted, undefined}
use cs.Analysis.{Acx}
use cs.Analysis.Program.{analyze}
use cs.Print.{Output, puts, print_token}
use cs.Print.Trees.{print_program}

-- Characters of a file or an argument.
abbrev pub Bytes : Type 0
Bytes = List ℕ

-- A field for each bit of `options`.
pub record Options : Type 0 where
  pub dump_tokens : Bool
  pub dump_ast : Bool
  pub no_parse : Bool
  pub no_analysis : Bool
  pub no_codegen : Bool
  pub dump_ir : Bool

-- `options` and `yydebug`.
pub record Settings : Type 0 where
  pub options : Options
  pub yydebug : Bool

abbrev pub defaults : Settings
defaults = record {
  options = record {
    dump_tokens = false;
    dump_ast = false;
    no_parse = false;
    no_analysis = false;
    no_codegen = false;
    dump_ir = false;
  };
  yydebug = false;
}

pub data Flag : Type 0 where
  l p i n N C d : Flag

-- The cases of the `switch`.
unfoldable pub flag_of : ℕ → Option Flag
flag_of c =
    if c == b'l'
    then some l
    else if c == b'p'
    then some p
    else if c == b'i'
    then some i
    else if c == b'n'
    then some n
    else if c == b'N'
    then some N
    else if c == b'C'
    then some C
    else if c == b'd'
    then some d
    else none

unfoldable pub set_flag : Flag → Settings → Settings
set_flag l s = record s { options = record s.options { dump_tokens = true } }
set_flag p s = record s { options = record s.options { dump_ast = true } }
set_flag i s = record s { options = record s.options { dump_ir = true } }
set_flag n s = record s { options = record s.options { no_parse = true } }
set_flag N s = record s { options = record s.options { no_analysis = true } }
set_flag C s = record s { options = record s.options { no_codegen = true } }
set_flag d s = record s { yydebug = true }

-- An unknown flag exits.
abbrev pub known_flag : Option Flag → (Flag → Option Settings) → Option Settings
known_flag none next = none
known_flag (some f) next = next f

-- The loop over the characters of the flags.
unfoldable pub parse_flags : Bytes → Settings → Option Settings
unfolding flag_of set_flag
parse_flags [] s = some s
parse_flags (c ∷ rest) s = known_flag (flag_of c) (λ f. parse_flags rest (set_flag f s))

-- What `compile_input` prints before the analysis, and the analysis if it is reached.
pub record Compiled : Type 0 where
  pub printed : Output
  pub analysis : Option (Result (Unit {0} × Acx))

pub data Exit : Type 0 where
  exited : ℕ → Exit
  died : Stop → Exit

module _ (lex : Bytes → List (Token × Option String)) (parse : Bytes → Option AstProgram) where
  -- The loop over the tokens.
  unfoldable pub print_tokens : List (Token × Option String) → Output
  print_tokens [] = print_token Token.eof none
  print_tokens ((t, val) ∷ ts) = print_token t val ++ print_tokens ts

  unfoldable pub dump_lexer : Options → Bytes → Output
  unfolding print_tokens
  dump_lexer o source =
      if o.dump_tokens then print_tokens (lex source) ++ puts "-- done dumping tokens --" else []

  unfoldable pub dump_tree : Options → AstProgram → Output
  dump_tree o program =
      if o.dump_ast then print_program program 0 ++ puts "-- done dumping ast --" else []

  -- What follows a parse.
  unfoldable pub after_parse : Options → Output → Option AstProgram → Compiled
  unfolding dump_tree
  after_parse o before none = record { printed = before; analysis = none }
  after_parse o before (some program) = record {
    printed = before ++ dump_tree o program;
    analysis = if o.no_analysis then none else some (analyze program);
  }

  unfoldable pub compile_input : Bytes → Options → Compiled
  unfolding dump_lexer after_parse
  compile_input source o =
      let before = dump_lexer o source in
      if o.no_parse
      then record { printed = before; analysis = none }
      else after_parse o before (parse source)

  -- How the process ends once `compile_input` was called: `span_err` exits with 1.
  abbrev pub status : Option (Result (Unit {0} × Acx)) → Exit
  status none = exited 0
  status (some (ok r)) = exited 0
  status (some (stop (span_err m))) = exited 1
  status (some (stop e)) = died e

  unfoldable pub run : Bytes → Option Settings → Exit
  unfolding compile_input
  run source none = exited 1
  run source (some s) = status (compile_input source s.options).analysis

  -- The loop starts behind the first character of the argument, whatever it is; an argument without
  -- characters is read past its end.
  unfoldable pub start : Bytes → Bytes → Exit
  unfolding run parse_flags
  start source [] = died undefined
  start source (dash ∷ flags) = run source (parse_flags flags defaults)

  module _ (read_file : Bytes → Option Bytes) where
    -- The last argument is the file, and options are only read where there are two.
    abbrev pub last_arg : Bytes → List Bytes → Bytes
    last_arg a [] = a
    last_arg a (b ∷ args) = last_arg b args

    unfoldable pub with_file : List Bytes → Option Bytes → Exit
    unfolding start
    with_file args none = exited 1
    with_file (flags ∷ file ∷ []) (some source) = start source flags
    with_file args (some source) = run source (some defaults)

    -- `argv` without the name of the program.
    unfoldable pub main : List Bytes → Exit
    unfolding with_file
    main [] = exited 1
    main (a ∷ args) = with_file (a ∷ args) (read_file (last_arg a args))
