-- ===== src/Analysis/Program.antt =====
-- `analyze_subprog` and `analyze` of dragon/analysis.c.
use mathlib.Core.List.{reverse}
use cs.Prelude.{
  ℕ, suc, ◌+◌, ◌*◌, String, Bool, true, false, not, ◌&&◌, List, [], ◌∷◌, ◌++◌, Option, none, some,
  str_eq, if◌then◌else◌,
}
use cs.Prelude.Int.{ℤ, pos, ◌-ℤ◌}
use cs.Util.Hash.{Bucket, hforeach}
use cs.Ast.{
  Subprogs, sub_procedure, AstType, DeclsList, no_decls, decls, AstTypeDecl, AstStmt, AstSubdecl,
  subdecl, SubdeclList, no_subdecls, sub, AstProgram,
}
use cs.Exec.{
  Result, span_err, undefined, no_such_library, return_not_assigned, Exec, ok, pure, halt, require,
  stop_if, ◌>>=◌, ◌>>◌,
}
use cs.Symbol.{
  Scope, Stab, StabVar, read, readln, write, writeln, stab_new, stab_enter, stab_leave, stab_var,
  innermost,
}
use cs.Symbol.Types.{stab_add_var, stab_resolve_type}
use cs.Symbol.Decls.{stab_add_decls, stab_add_func, stab_add_magic_func, stab_add_type}
use cs.Analysis.{
  Acx, Insn, pop, push_display, set_display, store_display, load_local, store_result, lea_local,
  sub_rsp, add_rsp, enter_subprogram, ret, prologue, main_label, exit_program, emit, on_stab,
}
use cs.Analysis.Registers.{reg_init, reg_gimme, reg_takeitback}
use cs.Analysis.Paths.{times_align}
use cs.Analysis.Stmts.{is_function, analyze_stmt, enter}

unfoldable pub register_input : Exec Acx (Unit {0})
register_input = on_stab (stab_add_magic_func readln) >> on_stab (stab_add_magic_func read)

unfoldable pub register_output : Exec Acx (Unit {0})
register_output = on_stab (stab_add_magic_func writeln) >> on_stab (stab_add_magic_func write)

unfoldable pub do_import : String → Exec Acx (Unit {0})
unfolding register_input register_output
do_import name =
    if str_eq name "input"
    then register_input
    else if str_eq name "output"
    then register_output
    else halt (span_err (no_such_library name))

unfoldable pub do_imports : List String → Exec Acx (Unit {0})
unfolding do_import
do_imports [] acx = pure tt acx
do_imports (name ∷ names) acx = (do_import name >> do_imports names) acx

-- The loops over type declarations and over variable declarations.
unfoldable pub add_types : List AstTypeDecl → Exec Stab (Unit {0})
unfolding stab_add_type
add_types [] st = pure tt st
add_types (t ∷ types) st = (stab_add_type t.name t.type >> add_types types) st

unfoldable pub add_decl_list : DeclsList → Option ℤ → Bool → Exec Stab (Option ℤ)
unfolding stab_add_decls
add_decl_list no_decls off arguments st = pure off st
add_decl_list (decls names t ds) off arguments st =
    (stab_add_decls names t off arguments >>= λ off'. add_decl_list ds off' arguments) st

-- `args->length`: the number of declarations, each of which may have many names.
abbrev pub length_decls : DeclsList → ℕ
length_decls no_decls = 0
length_decls (decls names t ds) = suc (length_decls ds)

-- What `analyze_subprog` sets before it adds the names.
unfoldable pub begin_subprog : String → Subprogs → Exec Acx (Unit {0})
unfolding reg_init
begin_subprog name kind acx = ok (
  tt,
  record acx {
    rs = reg_init;
    current_func_name = name;
    ret_assigned = false;
    current_func_type = kind;
    label = 0;
    ofd = acx.ofd ++ enter_subprogram name ∷ [];
    st = stab_enter acx.st;
  },
)

-- What it restores at the end.
unfoldable pub end_subprog : Acx → Exec Acx (Unit {0})
end_subprog old acx = ok (
  tt,
  record acx {
    current_func_name = old.current_func_name;
    label = old.label;
    ret_assigned = old.ret_assigned;
    current_func_type = old.current_func_type;
    rs = old.rs;
  },
)

-- The names of the innermost scope in the order of `HFOREACH`.
abbrev pub entries_of : Option Scope → Option (Bucket String)
entries_of none = none
entries_of (some sc) = some (hforeach sc.vars)

abbrev pub local_entries : Exec Acx (Bucket String)
local_entries acx = require (entries_of (innermost acx.st.chain)) acx

abbrev pub save_display : StabVar → List Insn
save_display v =
    if v.captured
    then push_display (times_align v.disp_offset)
      ∷ set_display (times_align v.disp_offset) v.stack_base_offset
      ∷ []
    else []

abbrev pub keep_captured : StabVar → List StabVar → List StabVar
keep_captured v vs = if v.captured then v ∷ vs else vs

-- The loop that saves the display slots of the captured variables; these are the result.
unfoldable pub capture_loop : Bucket String → Exec Acx (List StabVar)
capture_loop [] acx = pure [] acx
capture_loop ((name, id) ∷ entries) acx =
    (on_stab (stab_var id) >>= λ v.
    emit (save_display v) >> capture_loop entries >>= λ vs. pure (keep_captured v vs))
      acx

-- `for (i = length - 1; i > 0; i--)`: all but the first, from the last one on.
abbrev pub but_first : List StabVar → List StabVar
but_first [] = []
but_first (v ∷ vs) = vs

unfoldable pub restore_slots : String → List StabVar → List Insn
restore_slots r [] = []
restore_slots r (v ∷ vs) = pop r ∷ store_display r (times_align v.disp_offset) ∷ restore_slots r vs

unfoldable pub restore_display : List StabVar → Exec Acx (Unit {0})
unfolding restore_slots
restore_display captured = do
  r ← reg_gimme
  emit (restore_slots r.name (reverse (but_first captured)))
  reg_takeitback r

abbrev pub check_result : Exec Acx (Unit {0})
check_result acx =
    stop_if (not acx.ret_assigned && is_function acx.current_func_type)
      (span_err (return_not_assigned acx.current_func_name)) acx

-- A function copies its result to the slot of the caller.
abbrev pub copy_result : Bool → ℕ → Exec Acx (Unit {0})
copy_result false slot = pure tt
copy_result true slot = do
  r ← reg_gimme
  v ← on_stab (stab_var slot)
  emit (load_local r.name v.stack_base_offset ∷ store_result r.name ∷ [])
  reg_takeitback r

abbrev pub if_function : ℕ → Exec Acx (Unit {0})
if_function slot acx = copy_result (is_function acx.current_func_type) slot acx

-- The size of the frame, without the slot of the result.
abbrev pub frame_size : Option ℤ → ℤ
frame_size none = pos 0
frame_size (some off) = off -ℤ pos 8

-- The names of a subprogram: types, parameters, variables, and the variable of the result. The
-- result is the index of the latter and `curr_var_offset`.
unfoldable pub add_locals :
    String → AstType → DeclsList → List AstTypeDecl → DeclsList → Exec Stab (ℕ × Option ℤ)
unfolding add_types add_decl_list
add_locals name retty args types ds = do
  add_types types
  _ ← add_decl_list args (some (pos (8 * (length_decls args + 1)))) false
  off ← add_decl_list ds (some (pos 0)) true
  type ← stab_resolve_type retty "<retslot>"
  stab_add_var name type off true

-- The body of a subprogram after its own subprograms, up to leaving its scope.
unfoldable pub finish_subprog : AstStmt → ℕ → Option ℤ → Exec Acx (Unit {0})
unfolding capture_loop restore_display
finish_subprog body slot off = do
  emit (sub_rsp (frame_size off) ∷ [])
  entries ← local_entries
  captured ← capture_loop entries
  analyze_stmt body
  check_result
  restore_display captured
  if_function slot
  emit (add_rsp (frame_size off) ∷ ret ∷ [])
  on_stab stab_leave

unfoldable mutual
  pub analyze_subprog : AstSubdecl → Exec Acx (Unit {0})
  analyze_subprog (subdecl (AstType.func kind args retty) name types ds subprogs body) acx =
      (begin_subprog name kind >> on_stab (add_locals name retty args types ds) >>= λ slot.
      analyze_subprogs subprogs >> finish_subprog body slot.0 slot.1 >> end_subprog acx)
        acx
  analyze_subprog (subdecl _ name types ds subprogs body) acx = halt undefined acx

  -- The loop over the subprograms of a scope.
  pub analyze_subprogs : SubdeclList → Exec Acx (Unit {0})
  analyze_subprogs no_subdecls acx = pure tt acx
  analyze_subprogs (sub d ds) acx =
      (declare_subprog d >> analyze_subprog d >> analyze_subprogs ds) acx

  pub declare_subprog : AstSubdecl → Exec Acx (Unit {0})
  declare_subprog (subdecl head name types ds subprogs body) acx =
      on_stab (stab_add_func name head) acx

-- The loop of `analyze` over the captured global variables.
unfoldable pub fill_display : Bucket String → Exec Acx (Unit {0})
fill_display [] acx = pure tt acx
fill_display ((name, id) ∷ entries) acx =
    (on_stab (stab_var id) >>= λ v.
    (if v.captured
      then (reg_gimme >>= λ r.
          emit (
            lea_local r.name v.stack_base_offset
            ∷ store_display r.name (times_align v.disp_offset)
            ∷ [])
          >> reg_takeitback r)
      else pure tt)
    >> fill_display entries)
      acx

unfoldable pub initial_acx : Acx
unfolding reg_init stab_new
initial_acx = record {
  rs = reg_init;
  st = stab_new;
  disp_offset = 0;
  ofd = [];
  mismatches = [];
  toplevel = false;
  current_func_type = sub_procedure;
  ret_assigned = false;
  current_func_name = "@~unassignable~@";
  label = 0;
}

abbrev pub global_size : Option ℤ → ℤ
global_size none = pos 0
global_size (some off) = off

abbrev pub set_toplevel : Exec Acx (Unit {0})
set_toplevel acx = ok (tt, record acx { toplevel = true })

unfoldable pub analyze : AstProgram → Result (Unit {0} × Acx)
unfolding initial_acx do_imports add_types add_decl_list fill_display analyze_subprog
analyze prog =
    (do
      emit (prologue ∷ [])
      enter
      do_imports prog.args
      on_stab (add_types prog.types)
      off ← on_stab (add_decl_list prog.decls (some (pos 0)) true)
      analyze_subprogs prog.subprogs
      emit (main_label ∷ sub_rsp (global_size off) ∷ [])
      entries ← local_entries
      fill_display entries
      set_toplevel
      analyze_stmt prog.body
      emit (exit_program ∷ []))
      initial_acx
