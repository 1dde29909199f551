-- ===== src/Analysis.antt =====
-- The state of the semantic analysis and code generation, dragon/analysis.h, and the instructions
-- that dragon/analysis.c prints.
--
-- `ofd` lists what was printed, one value for each line of assembly. The messages on stderr are
-- not kept, but for the one that lets the analysis go on: `mismatches` lists the positions of the
-- arguments that it complained about.
pub mod Labels
pub mod Registers
pub mod Paths
pub mod Exprs
pub mod Stmts
pub mod Program
pub mod Keeps
pub mod Silent
pub mod Scopes
pub mod Accepts
pub mod Typing
use cs.Prelude.{ℕ, suc, String, Bool, List, [], ◌∷◌, ◌++◌}
use cs.Prelude.Int.{ℤ}
use cs.Ast.{Subprogs}
use cs.Exec.{Result, ok, stop, Exec, continue, ◌>>=◌, modify}
use cs.Symbol.{Stab}

-- The operations that are printed as `op dest, src`.
pub data Op : Type 0 where
  op_and op_or op_cmp op_add op_sub op_imul : Op

-- The condition codes after `set`.
pub data Condition : Type 0 where
  e ne l g le ge : Condition

pub data Insn : Type 0 where
  push pop : String → Insn
  -- `mov r, [display@ + n]` and `mov [display@ + n], r`
  load_display store_display : String → ℤ → Insn
  -- `push [display@ + n]`, printed with no line end, and `mov [display@ + n], rbp+m`
  push_display : ℤ → Insn
  set_display : ℤ → ℤ → Insn
  -- `lea r, [rbp+n]` and `mov r, [rbp + n]`
  lea_local load_local : String → ℤ → Insn
  -- `mov r, [s]`, `mov [r], s`, `mov r, s`, `mov r, literal`
  load store mov : String → String → Insn
  mov_literal : String → String → Insn
  add_const : String → ℕ → Insn
  op : Op → String → String → Insn
  set_cc : Condition → String → Insn
  movzx : String → String → Insn
  -- `mov rax, l`, `cdq`, `idiv r`
  idiv : String → String → Insn
  not_ inc : String → Insn
  -- `mov [rsp], r`, `mov [rbp], r`
  store_top store_result : String → Insn
  -- `cmp r, 1`
  cmp_one : String → Insn
  call : String → Insn
  -- `call f@`
  call_subprogram : String → Insn
  push_rbp pop_rbp mov_rbp_rsp blank_line : Insn
  -- `sub rsp, n` and `add rsp, n`
  sub_rsp add_rsp : ℤ → Insn
  label je jne jmp : ℕ → Insn
  -- `global f@`, `f@:`
  enter_subprogram : String → Insn
  ret : Insn
  -- the fixed lines before the code, before the main program and at its end
  prologue main_label exit_program : Insn

-- `struct register_set`
pub record RegisterSet : Type 0 where
  pub overflow : ℕ
  pub regs_used : List Bool

-- `struct acx`
pub record Acx : Type 0 where
  pub rs : RegisterSet
  pub st : Stab
  pub disp_offset : ℕ
  pub ofd : List Insn
  pub mismatches : List ℕ
  pub toplevel : Bool
  pub current_func_type : Subprogs
  pub ret_assigned : Bool
  pub current_func_name : String
  pub label : ℕ

-- `struct reg`
pub record Reg : Type 0 where
  pub name : String
  pub which : ℕ
  pub need_restore : Bool

-- `struct resu`
pub record Resu : Type 0 where
  pub type : ℕ
  pub reg : Reg

-- `fprintf(acx->ofd, …)`
abbrev pub emit : List Insn → Exec Acx (Unit {0})
emit is acx = ok (tt, record acx { ofd = acx.ofd ++ is })

-- An operation of the symbol table.
abbrev pub with_stab {ℓ} : {A : Type ℓ} → Acx → Result (A × Stab) → Result (A × Acx)
with_stab acx (ok (a, st)) = ok (a, record acx { st = st })
with_stab acx (stop x) = stop x

abbrev pub on_stab : {A : Type 0} → Exec Stab A → Exec Acx A
on_stab m acx = with_stab acx (m acx.st)

-- `acx->label++`
abbrev pub next_label : Exec Acx ℕ
next_label acx = ok (acx.label, record acx { label = suc acx.label })
