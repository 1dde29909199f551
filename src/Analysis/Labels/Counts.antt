-- ===== src/Analysis/Labels/Counts.antt =====
-- Labels and jumps of code that is put together.
use cs.Prelude.{ℕ, ◌+◌, ◌≡◌, refl, true, List, [], ◌∷◌, ◌++◌, arith}
use cs.Analysis.{Insn}
use cs.Analysis.Labels.{defines, targets, definitions, jumps, is_plain, all_plain}

pub definitions-append :
    (n : ℕ) (xs ys : List Insn) → definitions n (xs ++ ys) ≡ definitions n xs + definitions n ys
definitions-append n [] ys = omega arith
definitions-append n (i ∷ xs) ys = omega (arith, definitions-append n xs ys)

pub jumps-append : (n : ℕ) (xs ys : List Insn) → jumps n (xs ++ ys) ≡ jumps n xs + jumps n ys
jumps-append n [] ys = omega arith
jumps-append n (i ∷ xs) ys = omega (arith, jumps-append n xs ys)

plain-defines : (n : ℕ) (i : Insn) → is_plain i ≡ true → defines n i ≡ 0
plain-defines n (Insn.label m) h = cc
plain-defines n _ h = refl

plain-targets : (n : ℕ) (i : Insn) → is_plain i ≡ true → targets n i ≡ 0
plain-targets n (Insn.je m) h = cc
plain-targets n (Insn.jne m) h = cc
plain-targets n (Insn.jmp m) h = cc
plain-targets n _ h = refl

pub plain-definitions : (n : ℕ) (is : List Insn) → all_plain is ≡ true → definitions n is ≡ 0
plain-definitions n [] h = refl
plain-definitions n (i ∷ is) h = ground (arith, plain-defines n i, plain-definitions n is)

pub plain-jumps : (n : ℕ) (is : List Insn) → all_plain is ≡ true → jumps n is ≡ 0
plain-jumps n [] h = refl
plain-jumps n (i ∷ is) h = ground (arith, plain-targets n i, plain-jumps n is)
