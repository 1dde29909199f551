-- ===== src/Util/List/Pop.antt =====
-- `list_pop` of dragon/util.c against the list of elements.
use cs.Prelude.{
  ◌≡◌, refl, ◌≢◌, sym, ◌∙◌, false, ◌||◌, Option, none, some, [], ◌∷◌, ◌++◌, length, length-append,
  arith, ◌==◌, ◌<◌,
}
use cs.Exec.{stop, undefined, ◌>>=◌}
use cs.Exec.Total.{Returns, returns, Returns-bind, Returns-mono}
use cs.Util.List.{
  Ptr, null, Node, node, Heap, Store, LinkedList, write, list_add, list_pop, load, set_next,
}
use cs.Util.List.Chain.{
  Cells, ◌∉◌, first_of, last_of, At, Linked, nil, cons, IsList, empty, filled, load-ok, set_next-ok,
  free_node-ok, At-other, Linked-write, last_of-snoc, has-append, ne_of_has, IsList-cons,
  IsList-intro, first-ne_null, not_null,
}
use cs.Util.List.Add.{first_of-snoc, Linked-Ends, list_add-Added}

-- A chain of at least one node: the last node and the chain before it.
Linked-unsnoc :
    (xs : Cells) (b w : Ptr) {h : Heap} {q p : Ptr}
    → Linked h q p (xs ++ (b, w) ∷ [])
    → At h b w (last_of p xs) q × (b ∉ xs) × Linked h b p xs
Linked-unsnoc [] b w (cons at out nil) = (at, refl, nil)
Linked-unsnoc ((a, v) ∷ xs) b w {h} {q} {p} (cons at out s) =
    let (end, apart, rest) = Linked-unsnoc xs b w s in
    let split = has-append a xs ((b, w) ∷ []) in
    let at' : At h a v p (first_of xs b) = rw (sym (first_of-snoc xs b w q)) at in
    (end, ground arith, cons at' (ground arith) rest)

write_at : (h : Heap) (p : Ptr) (c : Option Node) → write h p c p ≡ c
unfolding write
write_at h p c = ground arith

-- What `list_pop` leaves of a list with `b` as its last node.
abbrev pub Popped : Cells → Ptr → Ptr → Store → Ptr × LinkedList → Store → Type 0
Popped xs b w s (out, l') t =
    (out ≡ w) × IsList t.nodes l' xs × (t.nodes b ≡ none) × (t.destroyed ≡ s.destroyed)

-- `list_pop` on a list of two elements or more returns the last one, which it does not destroy; the
-- list then stands for the elements before it, and the node of the last one was given back.
pub list_pop-Popped :
    (s : Store) (l : LinkedList) (c : Ptr × Ptr) (xs : Cells) (b w : Ptr)
    → IsList s.nodes l (c ∷ (xs ++ (b, w) ∷ []))
    → Returns (λ r t. Popped (c ∷ xs) b w s r t) (list_pop l s)
unfolding list_pop
list_pop-Popped s l (a, v) xs b w is =
    let (inner, chain, last, len) = IsList-cons is in
    let (end, out, front) = Linked-unsnoc ((a, v) ∷ xs) b w chain in
    let ends = Linked-Ends front in
    let cut = record s {
      nodes = write s.nodes (last_of a xs) (some (node ends.elt ends.prev null));
    } in
    let apart : b ≢ last_of a xs = ne_of_has ((a, v) ∷ xs) out ends.mem in
    let at_last : l.last ≡ b = last ∙ last_of-snoc a xs b w in
    let head_at = first-ne_null chain in
    let test : (l.inner == null || b == null) ≡ false = ground (arith, end.ne_null) in
    let after = Linked-write b none (ends.relinked null) out in
    rw
      (
        at_last,
        test,
        load-ok s end,
        set_next-ok s ends.at null,
        free_node-ok cut (At-other _ _ end apart),
      )
      (returns (
        refl,
        IsList-intro inner after refl (omega (arith, length-append xs ((b, w) ∷ []))),
        write_at _ b none,
        refl,
      ))

-- A first node that is the last one: the write goes through null.
pop_first-undefined :
    (s : Store) (l : LinkedList) {v : Ptr}
    → At s.nodes l.inner v null null
    → l.last ≡ l.inner
    → list_pop l s ≡ stop undefined
unfolding list_pop set_next load
pop_first-undefined s l at last = rw (last, not_null at, at.holds)

-- `list_pop` on a list of fewer than two elements writes through null: its last node, the embedded
-- one, has no predecessor.
pub list_pop-undefined :
    (s : Store) (l : LinkedList) (xs : Cells)
    → IsList s.nodes l xs
    → length xs < 2
    → list_pop l s ≡ stop undefined
list_pop-undefined s l [] (empty at last len) short = pop_first-undefined s l at last
list_pop-undefined s l ((a, v) ∷ []) (filled (cons at out nil) last len) short =
    pop_first-undefined s l at last
list_pop-undefined s l (c ∷ d ∷ xs) is short = absurd (omega arith)

-- Adding to a list that has elements and popping gives back the element that was added, and a list
-- that stands for what it stood for.
pop-add :
    (s : Store) (l : LinkedList) (c : Ptr × Ptr) (xs : Cells) (fresh e : Ptr)
    → IsList s.nodes l (c ∷ xs)
    → fresh ≢ null
    → s.nodes fresh ≡ none
    → Returns (λ r t. Popped (c ∷ xs) fresh e s r t) ((list_add fresh l e >>= list_pop) s)
pop-add s l c xs fresh e is ne unused =
    Returns-bind (list_add-Added s l (c ∷ xs) fresh e is ne unused)
      λ l' t (added, same, destroyed, inner).
        Returns-mono (list_pop-Popped t l' c xs fresh e added)
          λ r u (out, left, gone, kept). (out, left, gone, kept ∙ destroyed)
