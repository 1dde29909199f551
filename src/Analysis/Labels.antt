-- ===== src/Analysis/Labels.antt =====
-- The labels and the jumps of the code that dragon/analysis.c prints.
pub mod Counts
pub mod Stmts
use cs.Prelude.{ℕ, suc, ◌+◌, ◌≡◌, Bool, true, false, not, ◌&&◌, List, [], ◌∷◌, ◌==◌, if◌then◌else◌}
use cs.Analysis.{Insn, label, je, jne, jmp}

-- The label that an instruction is, or the one that it jumps to: 1 where it is `n`.
abbrev pub defines : ℕ → Insn → ℕ
defines n (label m) = if m == n then 1 else 0
defines n _ = 0

abbrev pub targets : ℕ → Insn → ℕ
targets n (je m) = if m == n then 1 else 0
targets n (jne m) = if m == n then 1 else 0
targets n (jmp m) = if m == n then 1 else 0
targets n _ = 0

-- How often `n` is defined, and how many jumps go to it.
abbrev pub definitions : ℕ → List Insn → ℕ
definitions n [] = 0
definitions n (i ∷ is) = defines n i + definitions n is

abbrev pub jumps : ℕ → List Insn → ℕ
jumps n [] = 0
jumps n (i ∷ is) = targets n i + jumps n is

-- Neither a label nor a jump to one.
abbrev pub is_plain : Insn → Bool
is_plain (label m) = false
is_plain (je m) = false
is_plain (jne m) = false
is_plain (jmp m) = false
is_plain _ = true

abbrev pub all_plain : List Insn → Bool
all_plain [] = true
all_plain (i ∷ is) = is_plain i && all_plain is
