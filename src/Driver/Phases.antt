-- ===== src/Driver/Phases.antt =====
-- How `main` of dragon/main.c ends where the parser refuses the source.
use cs.Prelude.{◌≡◌, refl, inl, inr, String, true, Option, none, some, List, [], ◌∷◌, Bool-cases}
use cs.Token.{Token}
use cs.Ast.{AstProgram}
use cs.Driver.{Bytes, Options, defaults, exited, status, compile_input, main}
use cs.Driver.Flags.{all_known, with_letters, parse_flags-letters}

module _ (lex : Bytes → List (Token × Option String)) (parse : Bytes → Option AstProgram) where
  refused_status :
      (source : Bytes) (o : Options)
      → parse source ≡ none
      → status lex parse (compile_input lex parse source o).analysis ≡ exited 0
  unfolding compile_input
  refused_status source o refused = elim (Bool-cases o.no_parse) [
    | inl e ↦ rw e refl
    | inr e ↦ rw (e, refused) refl
  ]

  -- Whatever letters of the usage line are its flags, `main` ends with status 0 on a file that can
  -- be read and that the parser refuses.
  pub main-syntax_error :
      (read_file : Bytes → Option Bytes) (flags file source : Bytes)
      → read_file file ≡ some source
      → parse source ≡ none
      → all_known flags ≡ true
      → (main lex parse read_file (file ∷ []) ≡ exited 0)
        × (main lex parse read_file ((b'-' ∷ flags) ∷ file ∷ []) ≡ exited 0)
  unfolding main
  main-syntax_error read_file flags file source read refused known = rw read (
    refused_status source defaults.options refused,
    rw (parse_flags-letters flags defaults, known)
        (refused_status source (with_letters flags defaults).options refused),
  )
