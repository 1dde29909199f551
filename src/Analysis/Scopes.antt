-- ===== src/Analysis/Scopes.antt =====
-- What the functions of dragon/analysis.c do to the symbol table as a whole: the relation, and the
-- rules to prove it of an action from a well-formed table.
pub mod Locals
pub mod Subprogs
pub mod Program
pub mod Nesting
use mathlib.Core.Path.{subst}
use mathlib.Core.Option.{map}
use cs.Prelude.{ℕ, ◌≡◌, refl, ap, ◌∙◌, ◌<◌, ◌≤◌, List, length, get_elem?, arith}
use cs.Exec.{Result, ok, stop, Exec, ◌>>=◌}
use cs.Exec.Rules.{After, returns, stops, After-bind, After-mono}
use cs.Symbol.{Stab, StabVar, StabType}
use cs.Symbol.Invariant.{IsStab}
use cs.Symbol.Invariant.Arena.{outer, Grows, Leaves}
use cs.Analysis.{Acx, with_stab, on_stab}
use cs.Analysis.Keeps.{Keeps, Moves, type_at}
use cs.Analysis.Keeps.Laws.{Keeps-IsStab}

-- The types stay, and the types of the variables.
pub record Later (s t : Stab) : Type 0 where
  pub vars : length s.vars ≤ length t.vars
  pub types : length s.types ≤ length t.types
  pub var_types : (i : ℕ) → i < length s.vars → type_at t i ≡ type_at s i
  pub keeps_types : (i : ℕ) → i < length s.types → get_elem? t.types i ≡ get_elem? s.types i

-- Such as where the arenas are the same.
pub Later-same : {s t : Stab} → t.vars ≡ s.vars → t.types ≡ s.types → Later s t
Later-same e f = record {
  vars = rw e (omega arith);
  types = rw f (omega arith);
  var_types = λ i _. ap (λ (vs : List StabVar). map (λ (v : StabVar). v.type) (get_elem? vs i)) e;
  keeps_types = λ i _. ap (λ (ts : List StabType). get_elem? ts i) f;
}

pub Later-trans : {s t u : Stab} → Later s t → Later t u → Later s u
Later-trans h k = record {
  vars = omega (arith, h.vars, k.vars);
  types = omega (arith, h.types, k.types);
  var_types = λ i lt. k.var_types i (omega (arith, lt, h.vars)) ∙ h.var_types i lt;
  keeps_types = λ i lt. k.keeps_types i (omega (arith, lt, h.types)) ∙ h.keeps_types i lt;
}

pub Later-Grows : {s t : Stab} → Grows s t → Later s t
Later-Grows g = record {
  vars = g.vars;
  types = g.types;
  var_types = λ i lt. ap (map (λ (v : StabVar). v.type)) (g.keeps_vars i lt);
  keeps_types = g.keeps_types;
}

pub Later-Keeps : {a b : Acx} → Keeps a b → Later a.st b.st
Later-Keeps k = record {
  vars = omega (arith, k.var_count);
  types = rw k.types (omega arith);
  var_types = λ i _. k.var_types i;
  keeps_types = λ i _. ap (λ (ts : List StabType). get_elem? ts i) k.types;
}

-- The table is well formed, has as many scopes as before, and at most the innermost one changed; the
-- types stay.
pub record Held (s t : Stab) : Type 0 where
  pub good : IsStab t
  pub depth : length t.chain ≡ length s.chain
  pub around : outer t.chain ≡ outer s.chain
  pub later : Later s t

pub Held-refl : {s : Stab} → IsStab s → Held s s
Held-refl good = record { good = good; depth = refl; around = refl; later = Later-same refl refl }

pub Held-trans : {s t u : Stab} → Held s t → Held t u → Held s u
Held-trans h k = record {
  good = k.good;
  depth = k.depth ∙ h.depth;
  around = k.around ∙ h.around;
  later = Later-trans h.later k.later;
}

pub Held-of_chain : {s t : Stab} → IsStab t → t.chain ≡ s.chain → Later s t → Held s t
Held-of_chain good e l = record { good = good; depth = ap length e; around = ap outer e; later = l }

pub Held-Leaves : {s t : Stab} → Leaves s t → Held s t
Held-Leaves l = record {
  good = l.good;
  depth = l.depth;
  around = l.around;
  later = Later-Grows l.grows;
}

-- From a well-formed table.
abbrev pub Holds : {A : Type 0} → Exec Acx A → Type 0
Holds m = (a : Acx) → IsStab a.st → After (λ _ b. Held a.st b.st) (m a)

pub held_then :
    {A B : Type 0} {m : Exec Acx A} {f : A → Exec Acx B}
    → Holds m
    → ((x : A) → Holds (f x))
    → Holds (m >>= f)
held_then h k a good =
    After-bind (h a good) (λ x b p. After-mono (k x b p.good) (λ _ c q. Held-trans p q))

pub Holds-Keeps : {A : Type 0} {m : Exec Acx A} → Moves Keeps m → Holds m
Holds-Keeps h a good =
    After-mono (h a) (λ _ b k. Held-of_chain (Keeps-IsStab k good) k.chain (Later-Keeps k))

-- An operation of the symbol table.
pub table_held :
    {A : Type 0} {m : Exec Stab A}
    → ((s : Stab) → IsStab s → After (λ _ u. Leaves s u) (m s))
    → Holds (on_stab m)
table_held {m = m} h a good = go (m a.st) (h a.st good)
  where
    go :
        {A : Type 0} (r : Result (A × Stab))
        → After (λ _ u. Leaves a.st u) r
        → After (λ _ b. Held a.st b.st) (with_stab a r)
    go (ok (x, u)) (returns l) = returns (Held-Leaves l)
    go (stop e) h = stops
