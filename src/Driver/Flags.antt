-- ===== src/Driver/Flags.antt =====
-- The flags that `main` of dragon/main.c reads.
use cs.Prelude.{
  Option-cases, ℕ, ◌≡◌, refl, ◌∙◌, ap, Bool, true, false, ◌||◌, ◌&&◌, none, some, [], ◌∷◌, arith,
  ◌==◌, if◌then◌else◌, inl, inr,
}
use cs.Driver.{Bytes, Settings, Flag, l, p, i, n, N, C, d, flag_of, set_flag, parse_flags}

abbrev pub occurs : ℕ → Bytes → Bool
occurs f [] = false
occurs f (c ∷ rest) = (c == f) || occurs f rest

-- The letters of the usage line.
abbrev is_known : ℕ → Bool
is_known c =
    (c == b'l')
    || (c == b'p')
    || (c == b'i')
    || (c == b'n')
    || (c == b'N')
    || (c == b'C')
    || (c == b'd')

abbrev pub all_known : Bytes → Bool
all_known [] = true
all_known (c ∷ rest) = is_known c && all_known rest

-- What is set once the letters were read: what was set, and what has its letter among them.
abbrev pub with_letters : Bytes → Settings → Settings
with_letters cs s = record {
  options = record {
    dump_tokens = s.options.dump_tokens || occurs b'l' cs;
    dump_ast = s.options.dump_ast || occurs b'p' cs;
    no_parse = s.options.no_parse || occurs b'n' cs;
    no_analysis = s.options.no_analysis || occurs b'N' cs;
    no_codegen = s.options.no_codegen || occurs b'C' cs;
    dump_ir = s.options.dump_ir || occurs b'i' cs;
  };
  yydebug = s.yydebug || occurs b'd' cs;
}

abbrev letter : Flag → ℕ
letter l = b'l'
letter p = b'p'
letter i = b'i'
letter n = b'n'
letter N = b'N'
letter C = b'C'
letter d = b'd'

flag_of-letter : (f : Flag) → flag_of (letter f) ≡ some f
unfolding flag_of
flag_of-letter l = refl
flag_of-letter p = refl
flag_of-letter i = refl
flag_of-letter n = refl
flag_of-letter N = refl
flag_of-letter C = refl
flag_of-letter d = refl

letter-known : (f : Flag) → is_known (letter f) ≡ true
letter-known l = refl
letter-known p = refl
letter-known i = refl
letter-known n = refl
letter-known N = refl
letter-known C = refl
letter-known d = refl

letter_of_flag : (c : ℕ) (f : Flag) → flag_of c ≡ some f → c ≡ letter f
unfolding flag_of
letter_of_flag c l h = ground arith
letter_of_flag c p h = ground arith
letter_of_flag c i h = ground arith
letter_of_flag c n h = ground arith
letter_of_flag c N h = ground arith
letter_of_flag c C h = ground arith
letter_of_flag c d h = ground arith

unknown_of_none : (c : ℕ) → flag_of c ≡ none → is_known c ≡ false
unfolding flag_of
unknown_of_none c h = ground arith

with_letters-set :
    (f : Flag) (rest : Bytes) (s : Settings)
    → with_letters rest (set_flag f s) ≡ with_letters (letter f ∷ rest) s
unfolding set_flag
with_letters-set l rest s = ground arith
with_letters-set p rest s = ground arith
with_letters-set i rest s = ground arith
with_letters-set n rest s = ground arith
with_letters-set N rest s = ground arith
with_letters-set C rest s = ground arith
with_letters-set d rest s = ground arith

-- Reading flags succeeds if each is a known letter, and then sets what has its letter among them:
-- neither their order nor how often one stands there matters.
pub parse_flags-letters :
    (flags : Bytes) (s : Settings)
    → parse_flags flags s ≡ (if all_known flags then some (with_letters flags s) else none)
unfolding parse_flags
parse_flags-letters [] s = ground arith
parse_flags-letters (c ∷ rest) s = elim (Option-cases (flag_of c)) [
  | inl h ↦ rw (h, unknown_of_none c h) refl
  | inr (f, h) ↦
      rw (letter_of_flag c f h, flag_of-letter f, letter-known f)
        (parse_flags-letters rest (set_flag f s)
          ∙ ap (λ t. if all_known rest then some t else none) (with_letters-set f rest s))
]
