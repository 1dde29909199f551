-- ===== src/Analysis/Registers/Pool.antt =====
-- What `reg_gimme` and `reg_takeitback` do to the pool.
use cs.Prelude.{
  ℕ, zero, suc, ◌+◌, ◌-◌, ◌≡◌, refl, ap, ◌<◌, ◌⊎◌, inl, inr, Bool, true, false, List, [], ◌∷◌, ◌++◌,
  Option, none, some, length, length-set, get_or, set, Option-cases, arith,
}
use cs.Exec.{ok, ◌>>=◌}
use cs.Exec.Rules.{After, returns}
use cs.Analysis.{Acx, Reg, Insn, push, pop}
use cs.Analysis.Labels.{all_plain}
use cs.Analysis.Registers.{
  num_regs, reg_name, first_free, spill, give, reg_gimme, take_back, reg_takeitback,
}

-- The first free register: free, in the pool, and with all before it in use.
first_free-some :
    (i : ℕ) (regs : List Bool) {k : ℕ}
    → first_free i regs ≡ some k
    → (j : ℕ) × (k ≡ i + j)
      × (j < length regs)
      × (get_or regs j true ≡ false)
      × ((m : ℕ) → m < j → get_or regs m true ≡ true)
unfolding first_free
first_free-some i [] h = absurd (ground arith)
first_free-some i (false ∷ regs) h =
    (0, ground arith, omega arith, refl, λ m lt. absurd (omega arith))
first_free-some i (true ∷ regs) h =
    let (j, e, lt, free, before) = first_free-some (suc i) regs h in
    (
      suc j,
      omega arith,
      omega arith,
      free,
      λ m. elim m as (λ m. m < suc j → get_or (true ∷ regs) m true ≡ true) [
        | zero ↦ λ _. refl
        | suc m ↦ λ l. before m (omega arith)
      ],
    )

first_free-none :
    (i : ℕ) (regs : List Bool)
    → first_free i regs ≡ none
    → (m : ℕ) → m < length regs
    → get_or regs m true ≡ true
unfolding first_free
first_free-none i [] h m lt = refl
first_free-none i (false ∷ regs) h m lt = absurd (ground arith)
first_free-none i (true ∷ regs) h zero lt = refl
first_free-none i (true ∷ regs) h (suc m) lt = first_free-none (suc i) regs h m (omega arith)

-- Taking a free register: what is known of it and of the pool after.
pub record Fresh (regs : List Bool) (r : Reg) (regs' : List Bool) : Type 0 where
  pub plain : r.need_restore ≡ false
  pub named : r.name ≡ reg_name r.which
  pub inside : r.which < length regs
  pub was_free : get_or regs r.which true ≡ false
  pub lowest : (m : ℕ) → m < r.which → get_or regs m true ≡ true
  pub taken : regs' ≡ set regs r.which true

-- A pool with no free register: the register that is handed out again is saved on the stack.
pub record Spilled (acx : Acx) (r : Reg) (acx' : Acx) : Type 0 where
  pub full : (m : ℕ) → m < length acx.rs.regs_used → get_or acx.rs.regs_used m true ≡ true
  pub restores : r.need_restore ≡ true
  pub named : r.name ≡ reg_name 1
  pub inside : r.which < num_regs
  pub counted : acx'.rs.overflow ≡ suc acx.rs.overflow
  pub same : acx'.rs.regs_used ≡ acx.rs.regs_used
  pub saved : acx'.ofd ≡ acx.ofd ++ push r.name ∷ []

set_back :
    (regs : List Bool) (i : ℕ) → get_or regs i true ≡ false → set (set regs i true) i false ≡ regs
set_back [] i h = refl
set_back (b ∷ regs) zero h = ground arith
set_back (b ∷ regs) (suc i) h = ap (λ l. b ∷ l) (set_back regs i h)

-- `reg_gimme` always returns. It takes the lowest register that is free; only when none is, it
-- hands one out for the second time, with a number of the pool, always under the name of the second
-- register, and pushes the register that it names.
pub reg_gimme_cases :
    (acx : Acx)
    → (r : Reg) × (acx' : Acx) × (reg_gimme acx ≡ ok (r, acx'))
      × (Fresh acx.rs.regs_used r acx'.rs.regs_used ⊎ Spilled acx r acx')
unfolding reg_gimme give spill
reg_gimme_cases acx = elim (Option-cases (first_free 0 acx.rs.regs_used)) [
  | inl e ↦ (
    spill acx,
    record acx {
      rs = record { overflow = suc acx.rs.overflow; regs_used = acx.rs.regs_used };
      ofd = acx.ofd ++ push (reg_name 1) ∷ [];
    },
    rw (e, give),
    inr (record {
      full = first_free-none 0 acx.rs.regs_used e;
      restores = refl;
      named = refl;
      inside = omega arith;
      counted = refl;
      same = refl;
      saved = refl;
    }),
  )
  | inr (k, e) ↦
      let (j, at, lt, free, before) = first_free-some 0 acx.rs.regs_used e in
      let same : k ≡ j = omega arith in
      (
        record { name = reg_name k; which = k; need_restore = false },
        record acx {
          rs = record { overflow = acx.rs.overflow; regs_used = set acx.rs.regs_used k true };
        },
        rw (e, give),
        inl (record {
          plain = refl;
          named = refl;
          inside = omega arith;
          was_free = rw same free;
          lowest = rw same before;
          taken = refl;
        }),
      )
]

-- Giving a register back right after it was taken leaves the pool as it was, in both cases.
takeitback-gimme :
    (acx : Acx)
    → (acx' : Acx) × ((reg_gimme >>= reg_takeitback) acx ≡ ok (tt, acx')) × (acx'.rs ≡ acx.rs)
unfolding reg_gimme give spill reg_takeitback take_back
takeitback-gimme acx = elim (Option-cases (first_free 0 acx.rs.regs_used)) [
  | inl e ↦ (
    record acx {
      rs = record { overflow = suc acx.rs.overflow - 1; regs_used = acx.rs.regs_used };
      ofd = (acx.ofd ++ push (reg_name 1) ∷ []) ++ pop (reg_name 1) ∷ [];
    },
    rw (e, give, reg_takeitback, take_back),
    ap (λ n. record { overflow = n; regs_used = acx.rs.regs_used }) (omega arith),
  )
  | inr (k, e) ↦
      let (j, at, lt, free, before) = first_free-some 0 acx.rs.regs_used e in
      let same : k ≡ j = omega arith in
      let free' : get_or acx.rs.regs_used k true ≡ false = rw same free in
      let back = set_back acx.rs.regs_used k free' in
      (
        record acx {
          rs = record {
            overflow = acx.rs.overflow;
            regs_used = set (set acx.rs.regs_used k true) k false;
          };
        },
        rw (e, give),
        rw back,
      )
]

-- Nothing but the pool and the code changes; no label or jump is printed, and the pool keeps its
-- size.
abbrev pub Prints : Acx → Acx → Type 0
Prints a b =
    (is : List Insn) × (all_plain is ≡ true)
    × (length b.rs.regs_used ≡ length a.rs.regs_used)
    × (b ≡ record a { ofd = a.ofd ++ is; rs = b.rs; mismatches = b.mismatches })

append_nil : (xs : List Insn) → xs ≡ xs ++ []
append_nil [] = refl
append_nil (x ∷ xs) = ap (λ l. x ∷ l) (append_nil xs)

pub reg_gimme-Prints : (a : Acx) → After (λ _ b. Prints a b) (reg_gimme a)
unfolding reg_gimme give
reg_gimme-Prints a = go (first_free 0 a.rs.regs_used)
  where
    go : (o : Option ℕ) → After (λ _ b. Prints a b) (give o a)
    go none = returns (push (reg_name 1) ∷ [], refl, refl, refl)
    go (some i) = returns (
      [],
      refl,
      length-set a.rs.regs_used i true,
      ap
          (λ (l : List Insn). record a {
            ofd = l;
            rs = record { overflow = a.rs.overflow; regs_used = set a.rs.regs_used i true };
          })
          (append_nil a.ofd),
    )

pub reg_takeitback-Prints : (r : Reg) (a : Acx) → After (λ _ b. Prints a b) (reg_takeitback r a)
unfolding reg_takeitback take_back
reg_takeitback-Prints r a = go r.need_restore
  where
    go : (b : Bool) → After (λ _ b. Prints a b) (take_back b r a)
    go true = returns (pop r.name ∷ [], refl, refl, refl)
    go false = returns (
      [],
      refl,
      length-set a.rs.regs_used r.which false,
      ap
          (λ (l : List Insn). record a {
            ofd = l;
            rs = record { overflow = a.rs.overflow; regs_used = set a.rs.regs_used r.which false };
          })
          (append_nil a.ofd),
    )
