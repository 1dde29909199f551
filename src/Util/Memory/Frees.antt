-- ===== src/Util/Memory/Frees.antt =====
-- The rules for actions that give blocks back.
use cs.Prelude.{
  ℕ, ◌+◌, ◌==◌, ◌≡◌, ◌≤◌, refl, true, false, List, [], ◌∷◌, arith, if◌then◌else◌, Bool-cases, inl,
  inr, ap, ◌∙◌, ◌↔◌, ◌≢◌,
}
use cs.Exec.{ok, pure, ◌>>◌, undefined, halt, continue}
use cs.Exec.Rules.{After, returns, stops, After-bind, After-mono, After_of_eq}
use cs.Util.List.{Ptr, null}
use cs.Util.Memory.{
  Memory, Action, reads, release, release_after, free_struct, Blocks, no_blocks, block, name_block,
  total, struct_blocks, held,
}

-- What the action takes from the memory, where it returns.
abbrev pub Taken : Blocks → Memory → Memory → Type 0
Taken b h k = (a : Ptr) → held k a + b a ≡ held h a

-- The action gives back exactly these blocks, each as often as it stands there; and it returns from
-- any memory that holds them. The null pointer is no block.
pub record Frees (b : Blocks) (m : Action) : Type 0 where
  pub exact : (h : Memory) → After (λ _ k. Taken b h k) (m h)
  pub enough :
      (h : Memory)
      → h null ≡ false
      → ((a : Ptr) → b a ≤ held h a)
      → (k : Memory) × (m h ≡ ok (tt, k))

pub Frees-none : Frees no_blocks (pure tt)
Frees-none = record { exact = λ h. returns (λ a. omega arith); enough = λ h _ _. (h, refl) }

release-Taken : (p : Ptr) (h : Memory) → After (λ _ k. Taken (name_block p) h k) (release p h)
unfolding release name_block held
release-Taken p h = elim (Bool-cases (p == null)) [
  | inl e ↦ rw e (returns (λ a. omega arith))
  | inr e ↦ elim (Bool-cases (h p)) [
    | inl f ↦ rw (e, f) (returns (λ a. ground arith))
    | inr f ↦ rw (e, f) stops
  ]
]

release-enough :
    (p : Ptr) (h : Memory)
    → ((a : Ptr) → name_block p a ≤ held h a)
    → (k : Memory) × (release p h ≡ ok (tt, k))
unfolding release name_block block held
release-enough p h fits =
    let here = fits p in
    elim (Bool-cases (p == null)) [
      | inl e ↦ (h, rw e refl)
      | inr e ↦
          let alive : h p ≡ true = ground arith in
          ((λ a. if a == p then false else h a), rw (e, alive) refl)
    ]

pub release-Frees : (p : Ptr) → Frees (name_block p) (release p)
release-Frees p = record { exact = release-Taken p; enough = λ h _ fits. release-enough p h fits }

taken-null :
    (h k : Memory) (b : Blocks)
    → h null ≡ false
    → held k null + b null ≡ held h null
    → k null ≡ false
unfolding held
taken-null h k b nothing t = ground arith

-- In sequence.
pub Frees-then :
    {b c : Blocks} {m n : Action} → Frees b m → Frees c n → Frees (λ a. b a + c a) (m >> n)
Frees-then {b} {c} {m} {n} f g = record {
  exact = λ h.
      After-bind (f.exact h) (λ _ k t. After-mono (g.exact k) (λ _ l u a. omega (arith, t a, u a)));
  enough = λ h nothing fits.
      let (k, e) = f.enough h nothing (λ a. omega (arith, fits a)) in
      let t = After_of_eq (f.exact h) e in
      let (l, e') =
        g.enough k (taken-null h k b nothing (t null)) (λ a. omega (arith, t a, fits a)) in
      (l, ap (λ r. continue r (λ _. n)) e ∙ e');
}

-- The same blocks, counted otherwise.
pub Frees-same : {b c : Blocks} {m : Action} → ((a : Ptr) → b a ≡ c a) → Frees b m → Frees c m
Frees-same same f = record {
  exact = λ h. After-mono (f.exact h) (λ _ k t a. omega (arith, t a, same a));
  enough = λ h nothing fits. f.enough h nothing (λ a. omega (arith, fits a, same a));
}

-- The parts of a struct, each with its blocks.
pub data Parts : List Blocks → List Action → Type 0 where
  no_part : Parts [] []
  part :
      {b : Blocks} {m : Action} {bs : List Blocks} {ms : List Action}
      → Frees b m
      → Parts bs ms
      → Parts (b ∷ bs) (m ∷ ms)

-- A read changes nothing, and is defined at a block of the memory.
reads-After :
    {P : Memory → Type 0} (p : Ptr) (m : Action) (h : Memory)
    → After (λ _ k. P k) (m h)
    → After (λ _ k. P k) ((reads p >> m) h)
unfolding reads
reads-After p m h after = elim (Bool-cases (p == null)) [
  | inl e ↦ rw e stops
  | inr e ↦ elim (Bool-cases (h p)) [ inl f ↦ rw (e, f) after | inr f ↦ rw (e, f) stops ]
]

reads-ok : (p : Ptr) (h : Memory) → h null ≡ false → block p p ≤ held h p → reads p h ≡ ok (tt, h)
unfolding reads block held
reads-ok p h nothing fits = ground arith

-- A struct that the action gives back may be read first.
pub reads-Frees : (p : Ptr) (b : Blocks) (m : Action) → 1 ≤ b p → Frees b m → Frees b (reads p >> m)
unfolding block
reads-Frees p b m one f = record {
  exact = λ h. reads-After p m h (f.exact h);
  enough = λ h nothing fits.
      let (k, e) = f.enough h nothing fits in
      let self : (p == p) ≡ true = ground arith in
      let fits' : block p p ≤ held h p = rw self (omega (arith, fits p, one)) in
      (k, ap (λ r. continue r (λ _. m)) (reads-ok p h nothing fits') ∙ e);
}

same_block : (p : Ptr) → (p == null) ≡ false → (a : Ptr) → name_block p a ≡ block p a + 0
unfolding name_block
same_block p e a = rw e (omega arith)

pub self_block : (p : Ptr) (n : ℕ) → 1 ≤ block p p + n
unfolding block
self_block p n = ground arith

release_after-Frees :
    (p : Ptr) {bs : List Blocks} {ms : List Action}
    → (p == null) ≡ false
    → Parts bs ms
    → Frees (struct_blocks p bs) (release_after p ms)
unfolding release_after struct_blocks total
release_after-Frees p nonnull no_part = Frees-same (same_block p nonnull) (release-Frees p)
release_after-Frees p nonnull (part {b} {m} {bs} {ms} f rest) =
    reads-Frees p (struct_blocks p (b ∷ bs)) (m >> release_after p ms) (self_block p _)
      (Frees-same (λ a. omega arith) (Frees-then f (release_after-Frees p nonnull rest)))

-- At null nothing is read, and no memory holds a block there.
null-Frees :
    (p : Ptr) (bs : List Blocks) (m : Action)
    → (p == null) ≡ true
    → Frees (struct_blocks p bs) (reads p >> m)
unfolding reads struct_blocks block held
null-Frees p bs m e = record {
  exact = λ h. rw e stops;
  enough = λ h nothing fits. let here = fits p in absurd (ground arith);
}

-- The struct and what its parts give back.
pub struct-Frees :
    (p : Ptr) {bs : List Blocks} {ms : List Action}
    → Parts bs ms
    → Frees (struct_blocks p bs) (free_struct p ms)
unfolding free_struct struct_blocks
struct-Frees p {bs} {ms} parts = elim (Bool-cases (p == null)) [
  | inl e ↦ null-Frees p bs _ e
  | inr e ↦
      reads-Frees p (struct_blocks p bs) (release_after p ms) (self_block p (total bs p))
        (release_after-Frees p e parts)
]

-- No memory holds a block at null, so an action that never returns gives it back.
pub halt-Frees : Frees (block null) (halt undefined)
unfolding block held
halt-Frees = record {
  exact = λ h. stops;
  enough = λ h nothing fits. let here = fits null in absurd (ground arith);
}

-- Such an action returns exactly from the memories that hold its blocks, and gives back these.
pub Frees-iff :
    {b : Blocks} {m : Action}
    → Frees b m
    → (h : Memory) → h null ≡ false
    → (((k : Memory) × (m h ≡ ok (tt, k))) ↔ ((a : Ptr) → b a ≤ held h a))
      × ((k : Memory) → m h ≡ ok (tt, k) → Taken b h k)
Frees-iff f h nothing = (
  (λ (k, e) a. omega (arith, After_of_eq (f.exact h) e a), f.enough h nothing),
  λ k e. After_of_eq (f.exact h) e,
)

-- Two actions that give the same block back never return one after the other.
pub twice-stops :
    {b c : Blocks} {m n : Action} (a : Ptr) (h k : Memory)
    → Frees b m
    → Frees c n
    → 1 ≤ b a
    → 1 ≤ c a
    → (m >> n) h ≢ ok (tt, k)
unfolding held
twice-stops a h k f g one one' e =
    let t = After_of_eq ((Frees-then f g).exact h) e a in absurd (ground arith)

pub release_self : (p : Ptr) → p ≢ null → 1 ≤ name_block p p
unfolding name_block block
release_self p nonnull = ground arith
