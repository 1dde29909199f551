-- ===== src/Util/List/Loops.antt =====
-- `LFOREACH`, `LFOREACHREV` and `list_last` of dragon/util.h and dragon/util.c against the list of
-- elements.
use mathlib.Core.List.{reverse_aux, reverse}
use mathlib.Core.Path.{subst}
use cs.Prelude.{
  ℕ, suc, ◌+◌, ◌≡◌, ◌≢◌, refl, false, List, [], ◌∷◌, ◌++◌, length, arith, ◌==◌, if◌then◌else◌,
  Bool-cases, inl, inr,
}
use cs.Exec.{ok}
use cs.Util.List.{
  Ptr, null, Heap, Store, load, LinkedList, lforeach_loop, lforeach, lforeachrev_loop, lforeachrev,
  list_last,
}
use cs.Util.List.Chain.{
  Cells, elements, first_of, last_of, At, Linked, nil, cons, IsList, empty, filled, load-ok,
  not_null,
}

-- The elements that are not null.
abbrev pub nonnull : List Ptr → List Ptr
nonnull [] = []
nonnull (e ∷ es) = if e == null then nonnull es else e ∷ nonnull es

pub nonnull-append : (xs ys : List Ptr) → nonnull (xs ++ ys) ≡ nonnull xs ++ nonnull ys
nonnull-append [] ys = refl
nonnull-append (x ∷ xs) ys = ground (arith, nonnull-append xs ys)

lforeach_loop-elements :
    (s : Store) {q p : Ptr} {xs : Cells}
    → Linked s.nodes q p xs
    → lforeach_loop (length xs) (first_of xs q) s ≡ ok (elements xs, s)
unfolding lforeach_loop
lforeach_loop-elements s nil = refl
lforeach_loop-elements s (cons at out rest) = rw (load-ok s at, lforeach_loop-elements s rest) refl

-- `LFOREACH` runs its body on the elements in order, and changes nothing itself.
lforeach-elements :
    (s : Store) (l : LinkedList) (xs : Cells)
    → IsList s.nodes l xs
    → lforeach l s ≡ ok (elements xs, s)
unfolding lforeach
lforeach-elements s l [] (empty at last len) = rw len refl
lforeach-elements s l (c ∷ xs) (filled chain last len) = rw len (lforeach_loop-elements s chain)

-- The loop over a chain, in front of what it gives on the nodes before the chain.
lforeachrev_loop-reverse :
    (s : Store) {q : Ptr} (fuel k : ℕ) (es : List Ptr) {p : Ptr} {xs : Cells}
    → Linked s.nodes q p xs
    → k ≡ length xs + fuel
    → lforeachrev_loop fuel p s ≡ ok (es, s)
    → lforeachrev_loop k (last_of p xs) s ≡ ok (reverse_aux (nonnull (elements xs)) es, s)
unfolding lforeachrev_loop
lforeachrev_loop-reverse s fuel k es nil enough before =
    let same : k ≡ fuel = omega arith in rw same before
lforeachrev_loop-reverse s fuel k es (cons {a} {v} {xs} at out rest) enough before =
    let visit : lforeachrev_loop (suc fuel) a s ≡ ok (if v == null then es else v ∷ es, s) =
      rw (not_null at, at.holds, before) refl in
    let later =
      lforeachrev_loop-reverse s (suc fuel) k (if v == null then es else v ∷ es) rest (omega arith)
        visit in
    elim (Bool-cases (v == null)) [
      | inl e ↦ rw e (
          subst
            (λ b.
              lforeachrev_loop k (last_of a xs) s
              ≡ ok (reverse_aux (nonnull (elements xs)) (if b then es else v ∷ es), s))
            e later)
      | inr e ↦ rw e (
          subst
            (λ b.
              lforeachrev_loop k (last_of a xs) s
              ≡ ok (reverse_aux (nonnull (elements xs)) (if b then es else v ∷ es), s))
            e later)
    ]

-- `LFOREACHREV`, with fuel for one more round than there are nodes, runs its body on the elements
-- that are not null, from the last to the first.
pub lforeachrev-reverse :
    (s : Store) (l : LinkedList) (xs : Cells)
    → IsList s.nodes l xs
    → lforeachrev (suc (suc (length xs))) l s ≡ ok (reverse (nonnull (elements xs)), s)
unfolding lforeachrev lforeachrev_loop load
lforeachrev-reverse s l [] (empty at last len) = rw (last, not_null at, at.holds) refl
lforeachrev-reverse s l (c ∷ xs) (filled chain last len) =
    rw last (lforeachrev_loop-reverse s 2 (suc (suc (length (c ∷ xs)))) [] chain (omega arith) refl)

abbrev pub last_or : Ptr → List Ptr → Ptr
last_or d [] = d
last_or d (e ∷ es) = last_or e es

last-At :
    {h : Heap} {q p a v : Ptr} {xs : Cells}
    → Linked h q p ((a, v) ∷ xs)
    → (a ≢ null) × ((prev : Ptr) × At h (last_of a xs) (last_or v (elements xs)) prev q)
last-At (cons {p} at out nil) = (at.ne_null, (p, at))
last-At (cons at out (cons at' out' s)) = (at.ne_null, (last-At (cons at' out' s)).1)

-- `list_last` gives the last element, and null for an empty list.
list_last-elements :
    (s : Store) (l : LinkedList) (xs : Cells)
    → IsList s.nodes l xs
    → list_last l s ≡ ok (last_or null (elements xs), s)
unfolding list_last
list_last-elements s l [] (empty at last len) = rw (last, not_null at, at.holds) refl
list_last-elements s l (c ∷ xs) (filled chain last len) =
    let (ne, (prev, at)) = last-At chain in
    let ne_test : (l.inner == null) ≡ false = ground arith in
    rw (last, ne_test, not_null at, at.holds) refl
