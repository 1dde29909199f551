-- ===== src/Util/List/Add.antt =====
-- `list_empty` and `list_add` of dragon/util.c against the list of elements.
use cs.Prelude.{
  suc, ◌≡◌, refl, ◌≢◌, sym, true, false, Option, none, some, [], ◌∷◌, ◌++◌, length, length-append,
  arith, ◌==◌,
}
use cs.Exec.{ok}
use cs.Exec.Total.{Returns, returns}
use cs.Util.List.{
  Ptr, null, Node, node, Heap, Store, LinkedList, write, list_append, add_node, list_add,
}
use cs.Util.List.Chain.{
  Cells, elements, has, ◌∉◌, first_of, last_of, At, Linked, nil, cons, EqualOff, IsList, empty,
  filled, load-ok, set_next-ok, set_prev-ok, set_elt-ok, At-write, At-other, Linked-write,
  not-mem_of_none, elements-append, last_of-snoc, has-append, ne_of_has,
}

pub first_of-snoc : (xs : Cells) (c w q : Ptr) → first_of (xs ++ (c, w) ∷ []) q ≡ first_of xs c
first_of-snoc [] c w q = refl
first_of-snoc (x ∷ xs) c w q = refl

-- A chain that ends at a node and the node.
Linked-snoc :
    {h : Heap} (c w : Ptr) {p : Ptr} {xs : Cells}
    → Linked h c p xs
    → c ∉ xs
    → At h c w (last_of p xs) null
    → Linked h null p (xs ++ (c, w) ∷ [])
Linked-snoc c w nil out end = cons end refl nil
Linked-snoc {h} c w (cons {a} {v} {xs} at fresh s) out end =
    cons (rw (first_of-snoc xs c w null) at) (rw (has-append a xs ((c, w) ∷ [])) (ground arith))
      (Linked-snoc c w s (ground arith) end)

-- The last node of a chain, and the chain once this node leads elsewhere.
pub record Ends (h : Heap) (q p : Ptr) (xs : Cells) (last : Ptr) : Type 0 where
  pub elt : Ptr
  pub prev : Ptr
  pub at : At h last elt prev q
  pub mem : has last xs ≡ true
  pub relinked : (c : Ptr) → Linked (write h last (some (node elt prev c))) c p xs

pub Linked-Ends :
    {h : Heap} {q p a v : Ptr} {xs : Cells}
    → Linked h q p ((a, v) ∷ xs)
    → Ends h q p ((a, v) ∷ xs) (last_of a xs)
Linked-Ends (cons {p} {a} {v} at out nil) = record {
  elt = v;
  prev = p;
  at = at;
  mem = ground arith;
  relinked = λ c. cons (At-write _ a v p c at.ne_null) out nil;
}
Linked-Ends (cons {p} {a} {v} at out (cons {a = b} {v = w} {xs = ys} at' out' s)) =
    let e = Linked-Ends (cons at' out' s) in
    record {
      elt = e.elt;
      prev = e.prev;
      at = e.at;
      mem = ground (arith, e.mem);
      relinked = λ c. cons (At-other _ _ at (ne_of_has ((b, w) ∷ ys) out e.mem)) out (e.relinked c);
    }

-- The cells of a list after an element was added.
abbrev pub with_elt : Ptr → LinkedList → Cells → Ptr → Cells
with_elt fresh l [] e = (l.inner, e) ∷ []
with_elt fresh l (x ∷ xs) e = (x ∷ xs) ++ (fresh, e) ∷ []

pub elements-with_elt :
    (fresh : Ptr) (l : LinkedList) (xs : Cells) (e : Ptr)
    → elements (with_elt fresh l xs e) ≡ elements xs ++ e ∷ []
elements-with_elt fresh l [] e = refl
elements-with_elt fresh l (x ∷ xs) e = elements-append (x ∷ xs) ((fresh, e) ∷ [])

-- Where `list_add` may write.
abbrev pub touched : Ptr → LinkedList → Cells
touched fresh l = (l.last, null) ∷ (fresh, null) ∷ []

abbrev pub Added : Ptr → LinkedList → Cells → Ptr → Store → LinkedList → Store → Type 0
Added fresh l xs e s l' t =
    IsList t.nodes l' (with_elt fresh l xs e)
    × EqualOff (touched fresh l) s.nodes t.nodes
    × (t.destroyed ≡ s.destroyed)
    × (l'.inner ≡ l.inner)

-- Linking a new node behind the last one.
list_append_run :
    (s : Store) {a v b p w : Ptr}
    → At s.nodes a v p null
    → At s.nodes b w null null
    → a ≢ b
    → list_append a b s
      ≡ ok (
        tt,
        record s { nodes = write (write s.nodes a (some (node v p b))) b (some (node w a null)) },
      )
unfolding list_append
list_append_run s {a} {v} {b} {p} at bt ne =
    let linked = record s { nodes = write s.nodes a (some (node v p b)) } in
    let bt' = At-other a (some (node v p b)) bt (λ e. ne (sym e)) in
    rw (load-ok s at, set_next-ok s at b, load-ok linked bt', set_prev-ok linked bt' a)

same_writes :
    (h : Heap) (c d : Ptr) (i j k : Option Node)
    → EqualOff ((d, null) ∷ (c, null) ∷ []) h (write (write (write h c i) d j) c k)
unfolding write
same_writes h c d i j k a out = ground arith

same_write :
    (h : Heap) (fresh : Ptr) (l : LinkedList) (n : Option Node)
    → l.last ≡ l.inner
    → EqualOff (touched fresh l) h (write h l.inner n)
unfolding write
same_write h fresh l n last a out = ground arith

add_node-Added :
    {s : Store} {l : LinkedList} {v : Ptr} {xs : Cells} (fresh e : Ptr)
    → Linked s.nodes null null ((l.inner, v) ∷ xs)
    → l.last ≡ last_of l.inner xs
    → l.len ≡ suc (length xs)
    → fresh ≢ null
    → s.nodes fresh ≡ none
    → Returns (λ l' t. Added fresh l ((l.inner, v) ∷ xs) e s l' t) (add_node fresh l e s)
unfolding add_node
add_node-Added {s} {l} {v} {xs} fresh e chain last len ne unused =
    let cells = (l.inner, v) ∷ xs in
    let out = not-mem_of_none fresh chain unused in
    let made = record s { nodes = write s.nodes fresh (some (node e null null)) } in
    let ends = Linked-Ends (Linked-write fresh (some (node e null null)) chain out) in
    let apart : last_of l.inner xs ≢ fresh = λ q. ne_of_has cells out ends.mem (sym q) in
    rw (last, list_append_run made ends.at (At-write s.nodes fresh e null null ne) apart)
      (returns (
        filled
            (Linked-snoc fresh e (Linked-write fresh _ (ends.relinked fresh) out) out
              (At-write _ fresh e (last_of l.inner xs) null ne))
            (sym (last_of-snoc l.inner xs fresh e))
            (omega (arith, length-append xs ((fresh, e) ∷ []))),
        same_writes s.nodes fresh (last_of l.inner xs) _ _ _,
        refl,
        refl,
      ))

-- `list_add` on a list that is there, given an unused address, returns: the list then stands for
-- the elements it had and the new one at the end, no element was destroyed, and of the memory only
-- the last node and the unused address changed.
pub list_add-Added :
    (s : Store) (l : LinkedList) (xs : Cells) (fresh e : Ptr)
    → IsList s.nodes l xs
    → fresh ≢ null
    → s.nodes fresh ≡ none
    → Returns (λ l' t. Added fresh l xs e s l' t) (list_add fresh l e s)
unfolding list_add
list_add-Added s l xs fresh e (empty at last len) ne unused =
    let zero_test : (l.len == 0) ≡ true = ground arith in
    rw (zero_test, set_elt-ok s at e)
      (returns (
        filled (cons (At-write s.nodes l.inner e null null at.ne_null) refl nil) last (omega arith),
        same_write s.nodes fresh l _ last,
        refl,
        refl,
      ))
list_add-Added s l xs fresh e (filled chain last len) ne unused =
    let test : (l.len == 0) ≡ false = ground arith in
    rw test (add_node-Added fresh e chain last len ne unused)
