-- ===== src/Analysis/Accepts/Pieces.antt =====
-- Actions of dragon/analysis.c that are known to return: the rules, and the registers.
use cs.Prelude.{
  ℕ, zero, suc, ◌≡◌, refl, ap, ◌∙◌, ◌++◌, ◌<◌, ◌≤◌, ◌⊎◌, inl, inr, Bool, true, false, List, [], ◌∷◌,
  Option, none, some, length, get_or, String, Bool-cases, arith, if◌then◌else◌,
}
use cs.Exec.{Result, ok, Exec, continue}
use cs.Exec.Rules.{After_of_eq}
use cs.Exec.Total.{Returns, returns, Returns-bind, Returns-mono, Returns-After}
use cs.Symbol.{resolve_failure}
use cs.Analysis.{Acx, Reg, Insn}
use cs.Analysis.Registers.{num_regs, reg_names, reg_name, reg_gimme, reg_takeitback}
use cs.Analysis.Registers.Pool.{Fresh, Spilled, reg_gimme_cases}
use cs.Analysis.Registers.Bounds.{gimme-Hands}
use cs.Analysis.Exprs.{low_byte}
use cs.Analysis.Keeps.{Keeps, Keeps-prints, Keeps-refl, Keeps-trans, Moves}
use cs.Analysis.Keeps.Laws.{Keeps-IsStab}
use cs.Analysis.Keeps.Paths.{gimme-Keeps}
use cs.Symbol.Invariant.{IsStab}
use cs.Analysis.Silent.{Silent}
use cs.Analysis.Silent.Paths.{takeback-Silent}

-- What is asked of the state: a pool of all registers, and a well-formed symbol table with less
-- indices than the one of a failure.
pub record Ready (a : Acx) : Type 0 where
  pub good : IsStab a.st
  pub pool : length a.rs.regs_used ≡ num_regs
  pub vars : length a.st.vars ≤ resolve_failure
  pub types : length a.st.types ≤ resolve_failure

pub Ready-later : {a b : Acx} → Ready a → Keeps a b → length b.rs.regs_used ≡ num_regs → Ready b
Ready-later r k pool = record {
  good = Keeps-IsStab k r.good;
  pool = pool;
  vars = omega (arith, r.vars, k.var_count);
  types = omega (arith, r.types, ap length k.types);
}

-- The register's name has an 8-bit name.
abbrev pub has_low : Option String → Bool
has_low none = false
has_low (some s) = true

abbrev pub Named : Reg → Type 0
Named r = has_low (low_byte r.name) ≡ true

all_low : List String → Bool
all_low [] = true
all_low (s ∷ ss) = if has_low (low_byte s) then all_low ss else false

low_of_all :
    (ss : List String) (i : ℕ)
    → all_low ss ≡ true
    → i < length ss
    → has_low (low_byte (get_or ss i "")) ≡ true
unfolding all_low
low_of_all [] i h lt = absurd (omega arith)
low_of_all (s ∷ ss) zero h lt = ground arith
low_of_all (s ∷ ss) (suc i) h lt = low_of_all ss i (ground arith) (omega arith)

names_low : all_low reg_names ≡ true
unfolding all_low
names_low = refl

reg_name_low : (i : ℕ) → i < num_regs → has_low (low_byte (reg_name i)) ≡ true
reg_name_low i lt = low_of_all reg_names i names_low lt

-- The action returns, with a value that satisfies `P`, to a state that is ready again.
abbrev pub Goes : {A : Type 0} → (A → Type 0) → Exec Acx A → Acx → Type 0
Goes P m a = Returns (λ x c. P x × Ready c × Keeps a c) (m a)

abbrev pub Any : {A : Type 0} → A → Type 0
Any x = Unit {0}

abbrev pub Ends : {A : Type 0} → Exec Acx A → Acx → Type 0
Ends m a = Returns (λ _ _. Unit {0}) (m a)

-- In sequence.
pub goes_then :
    {A B : Type 0} {P : A → Type 0} {Q : B → Type 0} {r : Result (A × Acx)} {f : A → Exec Acx B}
    {a : Acx}
    → Returns (λ x c. P x × Ready c × Keeps a c) r
    → ((x : A) (b : Acx) → P x → Ready b → Keeps a b → Goes Q (f x) b)
    → Returns (λ y c. Q y × Ready c × Keeps a c) (continue r f)
goes_then h k = Returns-bind h (λ x b (p, ready, kept).
    Returns-mono (k x b p ready kept)
      (λ y c (q, ready', kept'). (q, ready', Keeps-trans kept kept')))

-- After a state that was kept.
pub later :
    {A : Type 0} {P : A → Type 0} {a b : Acx} {r : Result (A × Acx)}
    → Keeps a b
    → Returns (λ x c. P x × Ready c × Keeps b c) r
    → Returns (λ x c. P x × Ready c × Keeps a c) r
later k h = Returns-mono h (λ x c (p, ready, kept). (p, ready, Keeps-trans k kept))

pub goes_silent :
    {A : Type 0} {m : Exec Acx A} {a : Acx} → Moves Silent m → Ready a → Ends m a → Goes Any m a
goes_silent {m = m} {a} s ready ends = Returns-mono (Returns-After ends (s a)) (λ x c (_, silent).
    (tt, Ready-later ready silent.keeps (silent.same_pool ∙ ready.pool), silent.keeps))

pub gives :
    {A : Type 0} {P : A → Type 0} {x : A} {a : Acx} → Ready a → P x → Goes P (λ s. ok (x, s)) a
gives {a = a} ready p = returns (p, ready, Keeps-refl a)

-- Code is printed.
pub prints :
    {A : Type 0} {P : A → Type 0} {x : A} {a : Acx} (is : List Insn)
    → Ready a
    → P x
    → Returns (λ y c. P y × Ready c × Keeps a c) (ok (x, record a { ofd = a.ofd ++ is }))
prints {a = a} is ready p =
    let kept = Keeps-prints a (record a { ofd = a.ofd ++ is }) is refl in
    returns (p, Ready-later ready kept ready.pool, kept)

pub gimme-Goes : (a : Acx) → Ready a → Goes Named reg_gimme a
gimme-Goes a ready =
    let (r, b, e, how) = reg_gimme_cases a in
    let kept = After_of_eq (gimme-Keeps a) e in
    let pool = (After_of_eq (gimme-Hands a ready.pool) e).1 in
    rw e (returns (named r b how, Ready-later ready kept pool, kept))
  where
    named : (r : Reg) (b : Acx) → Fresh a.rs.regs_used r b.rs.regs_used ⊎ Spilled a r b → Named r
    named r b (inl fresh) =
        rw fresh.named (reg_name_low r.which (omega (arith, fresh.inside, ready.pool)))
    named r b (inr spilled) = rw spilled.named (reg_name_low 1 (omega arith))

pub takeback-Goes : (r : Reg) (a : Acx) → Ready a → Goes Any (reg_takeitback r) a
unfolding reg_takeitback
takeback-Goes r a ready =
    goes_silent (takeback-Silent r) ready
      (elim (Bool-cases r.need_restore) [ inl e ↦ rw e (returns tt) | inr e ↦ rw e (returns tt) ])
