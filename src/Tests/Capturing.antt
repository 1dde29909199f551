-- ===== src/Tests/Capturing.antt =====
-- Saving and restoring the display slot of one captured variable.
use mathlib.Core.List.{map}
use cs.Prelude.{String, ◌+◌, ◌-◌, ◌≡◌, refl, true, List, [], ◌∷◌, length}
use cs.Util.Hash.{Bucket}
use cs.Exec.{ok}
use cs.Symbol.{StabVar}
use cs.Analysis.{Acx}
use cs.Analysis.Program.{capture_loop, restore_display}
use cs.Analysis.Registers.Stack.{pushes, pops, restore_display-unbalanced}
use cs.Tests.Runs.{state_of}
use cs.Tests.Analysis.{table, ready}

abbrev captured_vars : List StabVar
captured_vars = map (λ (v : StabVar). record v { captured = true }) table.vars

abbrev captured : Acx
captured = record ready { st = record table { vars = captured_vars } }

abbrev entries : Bucket String
entries = ("x", 0) ∷ []

abbrev saved : Acx
saved = state_of (capture_loop entries captured) captured

saved_eq : capture_loop entries captured ≡ ok (captured_vars, saved)
unfolding capture_loop cs.Symbol.Decls.stab_add_decls cs.Symbol.Types.stab_resolve_type
    cs.Symbol.stab_enter cs.Util.Hash.lookup_entry cs.Symbol.Types.stab_add_var cs.Symbol.stab_new
    cs.Analysis.Program.initial_acx
saved_eq = refl

abbrev restored : Acx
restored = state_of (restore_display captured_vars saved) saved

restored_eq : restore_display captured_vars saved ≡ ok (tt, restored)
unfolding restore_display capture_loop cs.Symbol.Decls.stab_add_decls
    cs.Symbol.Types.stab_resolve_type cs.Symbol.stab_enter cs.Util.Hash.lookup_entry
    cs.Symbol.Types.stab_add_var cs.Symbol.stab_new cs.Analysis.Program.initial_acx
    cs.Analysis.Registers.reg_gimme cs.Analysis.Registers.reg_takeitback
restored_eq = refl

restore_display-unbalanced_example :
    (pushes saved.ofd ≡ pushes captured.ofd + length captured_vars)
    × (pops saved.ofd ≡ pops captured.ofd)
    × (pops restored.ofd + pushes saved.ofd
        ≡ pops saved.ofd + pushes restored.ofd + (length captured_vars - 1))
restore_display-unbalanced_example =
    restore_display-unbalanced entries captured_vars captured saved saved restored saved_eq
      restored_eq
