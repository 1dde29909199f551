-- ===== src/Analysis/Keeps/Paths.antt =====
-- What `reg_gimme`, `reg_takeitback` and `type_of_path` of dragon/analysis.c leave alone.
use cs.Prelude.{ℕ, String, List, Bool}
use cs.Ast.{AstPath}
use cs.Symbol.{ResolvedType}
use cs.Analysis.{Reg}
use cs.Analysis.Registers.{reg_gimme, reg_takeitback}
use cs.Analysis.Paths.{load_address, walk, load_value, type_of_path}
use cs.Analysis.Keeps.{Keeps, Moves}
use cs.Analysis.Silent.{Silent-Keeps}
use cs.Analysis.Silent.Paths.{
  gimme-Silent, takeback-Silent, load_address-Silent, walk-Silent, load_value-Silent,
  type_of_path-Silent,
}

pub gimme-Keeps : Moves Keeps reg_gimme
gimme-Keeps = Silent-Keeps _ gimme-Silent

pub takeback-Keeps : (r : Reg) → Moves Keeps (reg_takeitback r)
takeback-Keeps r = Silent-Keeps _ (takeback-Silent r)

pub load_address-Keeps :
    (here : Bool) (id : ℕ) (reg : String) → Moves Keeps (load_address here id reg)
load_address-Keeps here id reg = Silent-Keeps _ (load_address-Silent here id reg)

pub walk-Keeps :
    (reg : String) (names : List String) (t : ResolvedType) → Moves Keeps (walk reg t names)
walk-Keeps reg names t = Silent-Keeps _ (walk-Silent reg names t)

pub load_value-Keeps : (b : Bool) (reg : String) → Moves Keeps (load_value b reg)
load_value-Keeps b reg = Silent-Keeps _ (load_value-Silent b reg)

pub type_of_path-Keeps : (p : AstPath) (b : Bool) → Moves Keeps (type_of_path p b)
type_of_path-Keeps p b = Silent-Keeps _ (type_of_path-Silent p b)
