-- ===== src/Analysis/Registers.antt =====
-- The register pool of dragon/analysis.c.
pub mod Pool
pub mod Bounds
pub mod Stack
use cs.Prelude.{
  ℕ, zero, suc, ◌+◌, ◌-◌, ◌%◌, String, Bool, true, false, not, ◌&&◌, List, [], ◌∷◌, ◌++◌, Option,
  none, some, get_or, set, replicate, ◌==◌, if◌then◌else◌,
}
use cs.Exec.{Exec, ok, ◌>>=◌, ◌>>◌, pure, modify}
use cs.Analysis.{Acx, RegisterSet, Reg, Insn, push, pop, emit}

-- `NUM_REGS`
abbrev pub num_regs : ℕ
num_regs = 14

-- `REGS`
abbrev pub reg_names : List String
reg_names =
    "rbx" ∷ "rcx" ∷ "r8" ∷ "r9" ∷ "r10" ∷ "r11" ∷ "r12" ∷ "r13" ∷ "r14" ∷ "r15" ∷ "rdx" ∷ "rsi"
    ∷ "rax" ∷ "rdi" ∷ []

abbrev pub reg_name : ℕ → String
reg_name i = get_or reg_names i ""

unfoldable pub reg_init : RegisterSet
reg_init = record { overflow = 6; regs_used = replicate num_regs false }

-- The loop of `reg_gimme`: the first register that is not in use.
unfoldable pub first_free : ℕ → List Bool → Option ℕ
first_free i [] = none
first_free i (used ∷ regs) = if used then first_free (suc i) regs else some i

-- The name of a register that is used twice is `REGS[ret.need_restore]`, that is `REGS[1]`.
spill : Acx → Reg
spill acx = record { name = reg_name 1; which = acx.rs.overflow % num_regs; need_restore = true }

give : Option ℕ → Exec Acx Reg
unfolding spill
give (some i) acx = ok (
  record { name = reg_name i; which = i; need_restore = false },
  record acx {
    rs = record { overflow = acx.rs.overflow; regs_used = set acx.rs.regs_used i true };
  },
)
give none acx = ok (
  spill acx,
  record acx {
    rs = record { overflow = suc acx.rs.overflow; regs_used = acx.rs.regs_used };
    ofd = acx.ofd ++ push (reg_name 1) ∷ [];
  },
)

unfoldable pub reg_gimme : Exec Acx Reg
unfolding first_free give
reg_gimme acx = give (first_free 0 acx.rs.regs_used) acx

-- `overflow` is decremented only where `reg_gimme` incremented it.
take_back : Bool → Reg → Exec Acx (Unit {0})
take_back false reg acx = ok (
  tt,
  record acx {
    rs = record { overflow = acx.rs.overflow; regs_used = set acx.rs.regs_used reg.which false };
  },
)
take_back true reg acx = ok (
  tt,
  record acx {
    rs = record { overflow = acx.rs.overflow - 1; regs_used = acx.rs.regs_used };
    ofd = acx.ofd ++ pop reg.name ∷ [];
  },
)

unfoldable pub reg_takeitback : Reg → Exec Acx (Unit {0})
unfolding take_back
reg_takeitback reg acx = take_back reg.need_restore reg acx

-- The registers below `n` that are in use, from 0 up.
unfoldable pub saved : ℕ → ℕ → List Bool → List Insn
saved zero i regs = []
saved (suc n) i [] = []
saved (suc n) i (used ∷ regs) =
    let rest = saved n (suc i) regs in if used then push (reg_name i) ∷ rest else rest

unfoldable pub save_registers : Exec Acx (Unit {0})
unfolding saved
save_registers acx = emit (saved 6 0 acx.rs.regs_used) acx

-- The loop of `restore_registers_except` from register `n - 1` down to 0.
unfoldable pub restored : ℕ → ℕ → List Bool → List Insn
restored zero which regs = []
restored (suc i) which regs =
    let rest = restored i which regs in
    if get_or regs i false && not (i == which) then pop (reg_name i) ∷ rest else rest

unfoldable pub restore_registers_except : Reg → Exec Acx (Unit {0})
unfolding restored
restore_registers_except r acx = emit (restored 6 r.which acx.rs.regs_used) acx
