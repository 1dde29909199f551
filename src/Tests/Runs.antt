-- ===== src/Tests/Runs.antt =====
-- The results of runs, with a default for a run that stops.
use cs.Exec.{Result, ok, stop}

abbrev pub state_of : {A S : Type 0} → Result (A × S) → S → S
state_of (ok (a, s)) d = s
state_of (stop e) d = d

abbrev pub value_of : {A S : Type 0} → Result (A × S) → A → A
value_of (ok (a, s)) d = a
value_of (stop e) d = d
