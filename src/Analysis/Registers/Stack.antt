-- ===== src/Analysis/Registers/Stack.antt =====
-- The pushes and pops around a subprogram's body: the display slots that the loops of
-- `analyze_subprog` of dragon/analysis.c save and restore.
use mathlib.Core.List.{reverse, reverse_aux}
use cs.Prelude.{
  ℕ, ◌+◌, ◌-◌, ◌≡◌, refl, ap, String, List, [], ◌∷◌, ◌++◌, Option, none, some, length, arith,
  if◌then◌else◌, Bool-cases, inl, inr,
}
use cs.Util.Hash.{Bucket}
use cs.Exec.{ok}
use cs.Exec.Rules.{After, returns, After-bind, After-mono, After_of_eq}
use cs.Symbol.{StabVar}
use cs.Analysis.{Acx, Reg, Insn, push, pop, push_display, push_rbp, pop_rbp}
use cs.Analysis.Registers.{first_free, give, reg_gimme, take_back, reg_takeitback}
use cs.Analysis.Keeps.{append_nil}
use cs.Analysis.Typing.Calls.{var-After}
use cs.Analysis.Program.{
  save_display, keep_captured, but_first, capture_loop, restore_slots, restore_display,
}

-- How many words an instruction pushes, and pops.
abbrev pub puts_on : Insn → ℕ
puts_on (push r) = 1
puts_on (push_display n) = 1
puts_on push_rbp = 1
puts_on _ = 0

abbrev pub takes_off : Insn → ℕ
takes_off (pop r) = 1
takes_off pop_rbp = 1
takes_off _ = 0

unfoldable pub pushes : List Insn → ℕ
pushes [] = 0
pushes (i ∷ is) = puts_on i + pushes is

unfoldable pub pops : List Insn → ℕ
pops [] = 0
pops (i ∷ is) = takes_off i + pops is

pushes-append : (xs ys : List Insn) → pushes (xs ++ ys) ≡ pushes xs + pushes ys
unfolding pushes
pushes-append [] ys = omega arith
pushes-append (i ∷ xs) ys = omega (arith, pushes-append xs ys)

pops-append : (xs ys : List Insn) → pops (xs ++ ys) ≡ pops xs + pops ys
unfolding pops
pops-append [] ys = omega arith
pops-append (i ∷ xs) ys = omega (arith, pops-append xs ys)

-- Taking a register and giving it back.
abbrev spilled : Reg → Insn → List Insn
spilled r i = if r.need_restore then i ∷ [] else []

gimme-code : (a : Acx) → After (λ r b. b.ofd ≡ a.ofd ++ spilled r (push r.name)) (reg_gimme a)
unfolding reg_gimme give
gimme-code a = go (first_free 0 a.rs.regs_used)
  where
    go : (o : Option ℕ) → After (λ r b. b.ofd ≡ a.ofd ++ spilled r (push r.name)) (give o a)
    go none = returns refl
    go (some i) = returns (append_nil a.ofd)

takeback-code :
    (r : Reg) (a : Acx)
    → After (λ _ b. b.ofd ≡ a.ofd ++ spilled r (pop r.name)) (reg_takeitback r a)
unfolding reg_takeitback take_back
takeback-code r a = elim (Bool-cases r.need_restore) [
  | inl e ↦ rw e (returns refl)
  | inr e ↦ rw e (returns (append_nil a.ofd))
]

saved_counts :
    (v : StabVar) (vs : List StabVar)
    → (pushes (save_display v) + length vs ≡ length (keep_captured v vs))
      × (pops (save_display v) ≡ 0)
unfolding pushes pops
saved_counts v vs = elim (Bool-cases v.captured) [
  | inl e ↦ rw e (omega arith, refl)
  | inr e ↦ rw e (omega arith, refl)
]

-- Saving: one push for each captured variable.
capture-pushes :
    (entries : Bucket String) (a : Acx)
    → After
        (λ vs b. (pushes b.ofd ≡ pushes a.ofd + length vs) × (pops b.ofd ≡ pops a.ofd))
        (capture_loop entries a)
unfolding capture_loop pushes pops
capture-pushes [] a = returns (omega arith, refl)
capture-pushes ((name, id) ∷ entries) a = After-bind (var-After id a) (λ v b (same, _).
    let z : Acx = record b { ofd = b.ofd ++ save_display v } in
    After-bind (capture-pushes entries z) (λ vs c (p, q).
      let (m, n) = saved_counts v vs in
      let old : b.ofd ≡ a.ofd = ap (λ (x : Acx). x.ofd) same in
      let pushed = pushes-append b.ofd (save_display v) in
      let popped = pops-append b.ofd (save_display v) in
      returns
        (omega (arith, p, m, pushed, ap pushes old), omega (arith, q, n, popped, ap pops old))))

restored-pops :
    (r : String) (vs : List StabVar)
    → (pops (restore_slots r vs) ≡ length vs) × (pushes (restore_slots r vs) ≡ 0)
unfolding restore_slots pushes pops
restored-pops r [] = (refl, refl)
restored-pops r (v ∷ vs) = let (p, q) = restored-pops r vs in (omega arith, omega arith)

length-reverse_aux :
    {A : Type 0} (xs ys : List A) → length (reverse_aux xs ys) ≡ length xs + length ys
length-reverse_aux [] ys = omega arith
length-reverse_aux (x ∷ xs) ys = omega (arith, length-reverse_aux xs (x ∷ ys))

length-but_first : (vs : List StabVar) → length (reverse (but_first vs)) ≡ length vs - 1
length-but_first [] = refl
length-but_first (v ∷ vs) = omega (arith, length-reverse_aux vs [])

-- A register that was pushed when it was taken is popped when it is given back.
spill_balance :
    (r : Reg)
    → pushes (spilled r (push r.name)) + pushes (spilled r (pop r.name))
      ≡ pops (spilled r (push r.name)) + pops (spilled r (pop r.name))
unfolding pushes pops
spill_balance r = elim (Bool-cases r.need_restore) [ inl e ↦ rw e refl | inr e ↦ rw e refl ]

restore-pops :
    (vs : List StabVar) (c : Acx)
    → After
        (λ _ d. pops d.ofd + pushes c.ofd ≡ pops c.ofd + pushes d.ofd + (length vs - 1))
        (restore_display vs c)
unfolding restore_display
restore-pops vs c = After-bind (gimme-code c) (λ r b e.
    let slots = restore_slots r.name (reverse (but_first vs)) in
    let z : Acx = record b { ofd = b.ofd ++ slots } in
    After-mono (takeback-code r z) (λ _ d f.
      let (p, q) = restored-pops r.name (reverse (but_first vs)) in
      omega (
        arith,
        p,
        length-but_first vs,
        q,
        ap pops e,
        ap pushes e,
        ap pops f,
        ap pushes f,
        pops-append c.ofd (spilled r (push r.name)),
        pushes-append c.ofd (spilled r (push r.name)),
        pops-append b.ofd slots,
        pushes-append b.ofd slots,
        pops-append z.ofd (spilled r (pop r.name)),
        pushes-append z.ofd (spilled r (pop r.name)),
        spill_balance r,
      )))

-- Where `analyze_subprog` saves the display slots of captured variables, it prints a push for each and
-- no pop; where it restores them, it prints one pop less than there are variables, over the pushes that
-- it prints itself: with one captured variable or more, one saved slot is never popped.
pub restore_display-unbalanced :
    (entries : Bucket String) (vs : List StabVar) (a b c d : Acx)
    → capture_loop entries a ≡ ok (vs, b)
    → restore_display vs c ≡ ok (tt, d)
    → (pushes b.ofd ≡ pushes a.ofd + length vs)
      × (pops b.ofd ≡ pops a.ofd)
      × (pops d.ofd + pushes c.ofd ≡ pops c.ofd + pushes d.ofd + (length vs - 1))
restore_display-unbalanced entries vs a b c d saved restored =
    let (p, q) = After_of_eq (capture-pushes entries a) saved in
    (p, q, After_of_eq (restore-pops vs c) restored)
