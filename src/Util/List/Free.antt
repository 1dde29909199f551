-- ===== src/Util/List/Free.antt =====
-- `list_free` of dragon/util.c: which elements are destroyed, and which nodes are given back.
use mathlib.Core.List.{append_assoc, append-nil}
use cs.Prelude.{
  ℕ, zero, suc, ◌≡◌, refl, sym, ◌∙◌, ap, true, false, ◌<◌, none, List, [], ◌∷◌, ◌++◌, length, arith,
  ◌==◌, if◌then◌else◌, Bool-cases, inl, inr,
}
use cs.Exec.{ok}
use cs.Exec.Total.{Returns, returns}
use cs.Util.List.{Ptr, null, Heap, Store, LinkedList, write, node_free, free_elements, list_free}
use cs.Util.List.Chain.{
  Cells, elements, has, first_of, Linked, nil, cons, EqualOff, IsList, empty, filled, free_node-ok,
  not_null, At-other, Linked-write,
}
use cs.Util.List.Loops.{nonnull, nonnull-append}

-- The memory without the nodes `xs`.
release : Heap → Cells → Heap
release h [] = h
release h ((a, v) ∷ xs) = release (write h a none) xs

release-outside : (h : Heap) (xs : Cells) → EqualOff xs h (release h xs)
unfolding release write
release-outside h [] c out = refl
release-outside h ((a, v) ∷ xs) c out = ground (arith, release-outside (write h a none) xs c)

release-none : (h : Heap) (xs : Cells) (c : Ptr) → h c ≡ none → release h xs c ≡ none
unfolding release write
release-none h [] c gone = gone
release-none h ((a, v) ∷ xs) c gone = release-none (write h a none) xs c (ground arith)

release-inside : (h : Heap) (xs : Cells) (c : Ptr) → has c xs ≡ true → release h xs c ≡ none
unfolding release write
release-inside h [] c mem = cc
release-inside h ((a, v) ∷ xs) c mem =
    ground (arith, release-inside (write h a none) xs c, release-none (write h a none) xs c)

-- The state after `if (elt) dtor(elt)`.
after_destroy : Store → Ptr → Store
after_destroy s v = record s {
  destroyed = if v == null then s.destroyed else s.destroyed ++ v ∷ [];
}

destroyed-append :
    (ds : List Ptr) (v : Ptr) (es : List Ptr)
    → (if v == null then ds else ds ++ v ∷ []) ++ es ≡ ds ++ (if v == null then es else v ∷ es)
destroyed-append ds v es = elim (Bool-cases (v == null)) [
  | inl e ↦ rw e refl
  | inr e ↦ rw e (append_assoc ds (v ∷ []) es)
]

node_free-release :
    (fuel : ℕ) (s : Store) {p : Ptr} {xs : Cells}
    → Linked s.nodes null p xs
    → length xs < fuel
    → node_free fuel (first_of xs null) s
      ≡ ok (
        tt,
        record s { nodes = release s.nodes xs; destroyed = s.destroyed ++ nonnull (elements xs) },
      )
unfolding node_free release after_destroy
node_free-release zero s chain enough = elim enough [ ]
node_free-release (suc fuel) s nil enough = rw append-nil refl
node_free-release (suc fuel) s (cons {a} {v} at out nil) enough =
    let called = after_destroy s v in
    rw (not_null at, at.holds, free_node-ok called at)
      (ap (λ d. ok (tt, record { nodes = write s.nodes a none; destroyed = d }))
        (sym (append-nil called.destroyed) ∙ destroyed-append s.destroyed v []))
node_free-release (suc fuel) s (cons {a} {v} at out (cons {a = b} {v = w} {xs} at' out' rest))
      enough =
    let called = after_destroy s v in
    let next = At-other a none at' (ground arith) in
    let self : (a == a) ≡ true = ground arith in
    let chain = Linked-write a none (cons {p = a} at' out' rest) out in
    let later =
      node_free-release fuel (record called { nodes = write s.nodes a none }) chain (omega arith) in
    rw (not_null at, at.holds, free_node-ok called at, not_null at', next.holds, self)
      (later
        ∙ ap
            (λ d.
              ok (
                tt,
                record { nodes = release (write s.nodes a none) ((b, w) ∷ xs); destroyed = d },
              ))
            (destroyed-append s.destroyed v (nonnull (elements ((b, w) ∷ xs)))))

module _ (h : Heap) (a v : Ptr) (xs : Cells) where
  released : (c : Ptr) → has c ((a, v) ∷ xs) ≡ true → write (release h xs) a none c ≡ none
  unfolding write
  released c mem = ground (arith, release-inside h xs c)

  spared : EqualOff ((a, v) ∷ xs) h (write (release h xs) a none)
  unfolding write
  spared c out = ground (arith, release-outside h xs c)

-- The nodes of a list: an empty list has the embedded one.
abbrev pub owned : LinkedList → Cells → Cells
owned l [] = (l.inner, null) ∷ []
owned l (c ∷ xs) = c ∷ xs

-- The order in which `list_free` comes to the elements: the first one last.
abbrev pub first_last : List Ptr → List Ptr
first_last [] = []
first_last (e ∷ es) = es ++ e ∷ []

free_elements-release :
    (s : Store) (l : LinkedList) {v : Ptr} {xs : Cells} (fuel : ℕ)
    → Linked s.nodes null null ((l.inner, v) ∷ xs)
    → length xs < fuel
    → free_elements fuel l s
      ≡ ok (
        tt,
        record s {
          nodes = release s.nodes xs;
          destroyed = s.destroyed ++ nonnull (elements xs ++ v ∷ []);
        },
      )
unfolding free_elements after_destroy
free_elements-release s l {v} {xs} fuel (cons at out rest) enough =
    let kept = release-outside s.nodes xs l.inner out in
    let ds = s.destroyed ++ nonnull (elements xs) in
    rw (not_null at, at.holds, node_free-release fuel s rest enough, kept, at.holds, not_null at)
      (ap (λ d. ok (tt, record { nodes = release s.nodes xs; destroyed = d }))
        (sym (append-nil _)
          ∙ destroyed-append ds v []
          ∙ append_assoc s.destroyed (nonnull (elements xs)) (nonnull (v ∷ []))
          ∙ ap (λ e. s.destroyed ++ e) (sym (nonnull-append (elements xs) (v ∷ [])))))

-- `list_free` on a list returns, with fuel for one more round than there are nodes: `dtor` is
-- called once on each element that is not null, on the first one last; every node of the list is
-- given back, the embedded one with the list, and no other memory is changed.
pub list_free-all :
    (s : Store) (l : LinkedList) (xs : Cells)
    → IsList s.nodes l xs
    → Returns
        (λ _ t.
          ((a : Ptr) → has a (owned l xs) ≡ true → t.nodes a ≡ none)
          × EqualOff (owned l xs) s.nodes t.nodes
          × (t.destroyed ≡ s.destroyed ++ nonnull (first_last (elements xs))))
        (list_free (suc (length xs)) l s)
unfolding list_free release
list_free-all s l [] (empty at last len) =
    rw (len, not_null at, at.holds)
      (returns (
        released s.nodes l.inner null [],
        spared s.nodes l.inner null [],
        sym (append-nil s.destroyed),
      ))
list_free-all s l (c ∷ xs) (filled {v} {xs = ys} (cons at out rest) last len) =
    let inner_kept = release-outside s.nodes ys l.inner out in
    let test : (l.len == 0) ≡ false = ground arith in
    rw
      (
        not_null at,
        test,
        free_elements-release s l (suc (suc (length ys))) (cons at out rest) (omega arith),
        inner_kept,
        at.holds,
        not_null at,
      )
      (returns (released s.nodes l.inner v ys, spared s.nodes l.inner v ys, refl))
