-- ===== src/Analysis/Keeps/Laws.antt =====
-- What `analyze_expr` and `analyze_stmt` of dragon/analysis.c leave alone when they return.
use mathlib.Core.Path.{subst}
use mathlib.Core.Option.{map}
use cs.Prelude.{ℕ, ◌≡◌, refl, ap, sym, ◌∙◌, Bool, Option, none, some, length, get_elem?}
use cs.Ast.{AstExpr, AstStmt}
use cs.Exec.{ok}
use cs.Exec.Rules.{After_of_eq}
use cs.Symbol.{StabVar}
use cs.Symbol.Names.{Known}
use cs.Symbol.Invariant.{IsStab}
use cs.Analysis.{Acx, Resu}
use cs.Analysis.Exprs.{analyze_expr}
use cs.Analysis.Stmts.{analyze_stmt}
use cs.Analysis.Keeps.{Keeps}
use cs.Analysis.Keeps.Exprs.{expr-Keeps}
use cs.Analysis.Keeps.Stmts.{stmt-Keeps}

-- A known type of a variable that was there with this type.
var_Known :
    (nt : ℕ) (x : Option StabVar) (v : StabVar)
    → ((w : StabVar) → x ≡ some w → Known nt w.type)
    → some v.type ≡ map (λ (w : StabVar). w.type) x
    → Known nt v.type
var_Known nt none v h e = cc
var_Known nt (some w) v h e = let same : w.type ≡ v.type = cc in subst (Known nt) same (h w refl)

pub Keeps-IsStab : {a b : Acx} → Keeps a b → IsStab a.st → IsStab b.st
Keeps-IsStab {a} {b} k h = record {
  scopes = rw (k.chain, k.var_count, k.types) h.scopes;
  arena = record {
    builtins = rw k.types h.arena.builtins;
    refs = λ i t e. rw k.var_count (h.arena.refs i t (rw k.types at e));
    var_types = λ i v e. rw k.types (
        var_Known (length a.st.types) (get_elem? a.st.vars i) v (h.arena.var_types i)
          (ap (map (λ (w : StabVar). w.type)) (sym e) ∙ k.var_types i));
  };
}

-- When `analyze_expr` returns from a state with a well-formed symbol table, the scopes, the types
-- and the types of the variables are as they were, as are `toplevel` and the name and kind of the
-- current subprogram; `ret_assigned` is as it was or set, labels only grew, code was only added at
-- the end, and the symbol table is well formed.
analyze_expr-Keeps :
    (e : AstExpr) (b : Bool) (a c : Acx) (r : Resu)
    → IsStab a.st
    → analyze_expr e b a ≡ ok (r, c)
    → Keeps a c × IsStab c.st
analyze_expr-Keeps e b a c r good h =
    let k = After_of_eq (expr-Keeps e b a) h in (k, Keeps-IsStab k good)

-- When `analyze_stmt` returns from a state with a well-formed symbol table, every scope that it
-- entered is left again: the chain of scopes is as it was, as are the types, the types of the
-- variables, `toplevel` and the name and kind of the current subprogram. `ret_assigned` is as it
-- was or set, labels only grew, code was only added at the end, and the table is well formed.
pub analyze_stmt-Keeps :
    (s : AstStmt) (a c : Acx)
    → IsStab a.st
    → analyze_stmt s a ≡ ok (tt, c)
    → Keeps a c × IsStab c.st
analyze_stmt-Keeps s a c good h = let k = After_of_eq (stmt-Keeps s a) h in (k, Keeps-IsStab k good)
