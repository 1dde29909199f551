-- ===== src/Analysis/Silent.antt =====
-- What analysing an expression leaves alone, on top of `Keeps`: labels are neither made nor defined
-- nor jumped to, and the register pool keeps its size. The rules to prove it of the pieces of dragon/analysis.c.
pub mod Paths
pub mod Exprs
pub mod Stmts
use cs.Prelude.{
  ℕ, ◌≡◌, refl, ap, ◌∙◌, List, [], ◌++◌, Option, none, some, Bool, true, false, length, arith,
}
use cs.Exec.{Stop, Result, ok, stop, Exec, pure, halt, require, stop_if, ◌>>=◌}
use cs.Exec.Rules.{After, returns, stops, After-mono}
use cs.Symbol.{Stab}
use cs.Analysis.{Acx, Insn, emit, with_stab, on_stab}
use cs.Analysis.Labels.{definitions, jumps, all_plain}
use cs.Analysis.Labels.Counts.{definitions-append, jumps-append, plain-definitions, plain-jumps}
use cs.Analysis.Keeps.{
  Keeps, Keeps-refl, Keeps-trans, Keeps-prints, Moves, Moves-bind, Reads, on_stab-Keeps,
}

pub record Silent (a b : Acx) : Type 0 where
  pub keeps : Keeps a b
  pub same_pool : length b.rs.regs_used ≡ length a.rs.regs_used
  pub same_label : b.label ≡ a.label
  pub same_definitions : (n : ℕ) → definitions n b.ofd ≡ definitions n a.ofd
  pub same_jumps : (n : ℕ) → jumps n b.ofd ≡ jumps n a.ofd

pub Silent-refl : (a : Acx) → Silent a a
Silent-refl a = record {
  keeps = Keeps-refl a;
  same_pool = refl;
  same_label = refl;
  same_definitions = λ n. refl;
  same_jumps = λ n. refl;
}

pub Silent-trans : {a b c : Acx} → Silent a b → Silent b c → Silent a c
Silent-trans h k = record {
  keeps = Keeps-trans h.keeps k.keeps;
  same_pool = k.same_pool ∙ h.same_pool;
  same_label = k.same_label ∙ h.same_label;
  same_definitions = λ n. k.same_definitions n ∙ h.same_definitions n;
  same_jumps = λ n. k.same_jumps n ∙ h.same_jumps n;
}

plain_definitions :
    (n : ℕ) (xs is : List Insn) → all_plain is ≡ true → definitions n (xs ++ is) ≡ definitions n xs
plain_definitions n xs is h = omega (arith, definitions-append n xs is, plain-definitions n is h)

plain_jumps : (n : ℕ) (xs is : List Insn) → all_plain is ≡ true → jumps n (xs ++ is) ≡ jumps n xs
plain_jumps n xs is h = omega (arith, jumps-append n xs is, plain-jumps n is h)

-- An action that only prints, no label and no jump, and uses registers.
pub Silent-prints :
    (a b : Acx) (is : List Insn)
    → all_plain is ≡ true
    → length b.rs.regs_used ≡ length a.rs.regs_used
    → b ≡ record a { ofd = a.ofd ++ is; rs = b.rs; mismatches = b.mismatches }
    → Silent a b
Silent-prints a b is plain pool e = record {
  keeps = Keeps-prints a b is e;
  same_pool = pool;
  same_label = ap (λ (c : Acx). c.label) e;
  same_definitions =
      λ n. ap (λ (c : Acx). definitions n c.ofd) e ∙ plain_definitions n a.ofd is plain;
  same_jumps = λ n. ap (λ (c : Acx). jumps n c.ofd) e ∙ plain_jumps n a.ofd is plain;
}

-- In sequence.
pub Silent-then :
    {A B : Type 0} {m : Exec Acx A} {f : A → Exec Acx B}
    → Moves Silent m
    → ((x : A) → Moves Silent (f x))
    → Moves Silent (m >>= f)
Silent-then {m = m} {f} h k = Moves-bind m f (λ a b c. Silent-trans) h k

pub pure-Silent : {A : Type 0} (x : A) → Moves Silent (pure {S = Acx} x)
pure-Silent x a = returns (Silent-refl a)

pub halt-Silent : {A : Type 0} (e : Stop) → Moves Silent (halt {S = Acx} {A = A} e)
halt-Silent e a = stops

pub stop_if-Silent : (b : Bool) (e : Stop) → Moves Silent (stop_if b e)
stop_if-Silent true e a = stops
stop_if-Silent false e a = returns (Silent-refl a)

pub require-Silent : {A : Type 0} (o : Option A) → Moves Silent (require {S = Acx} o)
require-Silent none a = stops
require-Silent (some x) a = returns (Silent-refl a)

pub emit-Silent : (is : List Insn) → all_plain is ≡ true → Moves Silent (emit is)
emit-Silent is plain a = returns (Silent-prints a _ is plain refl refl)

pub on_stab-Silent : {A : Type 0} {m : Exec Stab A} → Reads m → Moves Silent (on_stab m)
on_stab-Silent {m = m} h a = go (m a.st) (h a.st)
  where
    go :
        {A : Type 0} (r : Result (A × Stab))
        → After (λ _ u. u ≡ a.st) r
        → After (λ _ b. Silent a b) (with_stab a r)
    go (ok (x, u)) (returns e) = returns (rw e (Silent-refl a))
    go (stop e) h = stops

-- What is silent keeps.
pub Silent-Keeps : {A : Type 0} (m : Exec Acx A) → Moves Silent m → Moves Keeps m
Silent-Keeps m h a = After-mono (h a) (λ _ b s. s.keeps)

pub ruleset silence = (
  Silent-then, pure-Silent, halt-Silent, stop_if-Silent, require-Silent, emit-Silent,
  on_stab-Silent, refl,
)
