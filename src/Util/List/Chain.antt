-- ===== src/Util/List/Chain.antt =====
-- Nodes of dragon/util.c that are linked both ways, and what a list stands for.
use mathlib.Core.Path.{subst}
use cs.Prelude.{
  suc, ◌≡◌, sym, refl, ◌≢◌, ◌∙◌, ap, Bool, true, false, ◌||◌, Option, none, some, List, [], ◌∷◌,
  ◌++◌, length, arith, ◌==◌,
}
use cs.Exec.{ok}
use cs.Util.List.{
  Ptr, null, Node, node, Heap, Store, LinkedList, write, load, set_next, set_prev, set_elt,
  free_node,
}

-- Address and element of each node, in order.
abbrev pub Cells : Type 0
Cells = List (Ptr × Ptr)

abbrev pub elements : Cells → List Ptr
elements [] = []
elements ((a, v) ∷ xs) = v ∷ elements xs

abbrev pub has : Ptr → Cells → Bool
has a [] = false
has a ((p, v) ∷ xs) = (a == p) || has a xs

infix 40 ◌∉◌
abbrev pub ◌∉◌ : Ptr → Cells → Type 0
a ∉ xs = has a xs ≡ false

-- The address of the first node, and of the last one, of a list that may be empty.
abbrev pub first_of : Cells → Ptr → Ptr
first_of [] q = q
first_of ((a, v) ∷ xs) q = a

abbrev pub last_of : Ptr → Cells → Ptr
last_of p [] = p
last_of p ((a, v) ∷ xs) = last_of a xs

-- At `a` stands a node with these fields.
pub record At (h : Heap) (a e p q : Ptr) : Type 0 where
  pub ne_null : a ≢ null
  pub holds : h a ≡ some (node e p q)

-- The nodes `xs` are distinct and linked both ways, from the predecessor `p` to the successor `q`.
pub data Linked (h : Heap) (q : Ptr) : Ptr → Cells → Type 0 where
  nil : {p : Ptr} → Linked h q p []
  cons :
      {p a v : Ptr} {xs : Cells}
      → At h a v p (first_of xs q)
      → a ∉ xs
      → Linked h q a xs
      → Linked h q p ((a, v) ∷ xs)

-- `h` and `g` differ at most at the addresses of `xs`.
abbrev pub EqualOff : Cells → Heap → Heap → Type 0
EqualOff xs h g = (a : Ptr) → a ∉ xs → g a ≡ h a

-- What the list `l` stands for: its nodes `xs`, the first of them embedded; an empty list has the
-- embedded node all the same.
pub data IsList (h : Heap) (l : LinkedList) : Cells → Type 0 where
  empty : At h l.inner null null null → l.last ≡ l.inner → l.len ≡ 0 → IsList h l []
  filled :
      {v : Ptr} {xs : Cells}
      → Linked h null null ((l.inner, v) ∷ xs)
      → l.last ≡ last_of l.inner xs
      → l.len ≡ suc (length xs)
      → IsList h l ((l.inner, v) ∷ xs)

-- Every address of the list is in use: the embedded node's and the others.
abbrev pub footprint : LinkedList → Cells → Cells
footprint l xs = (l.inner, null) ∷ xs

pub not_null : {h : Heap} {a e p q : Ptr} → At h a e p q → (a == null) ≡ false
not_null at = ground (arith, at.ne_null)

module _ (s : Store) {a e p q : Ptr} (at : At s.nodes a e p q) where
  pub load-ok : load a s ≡ ok (node e p q, s)
  unfolding load
  load-ok = rw (not_null at, at.holds)

  pub set_next-ok :
      (r : Ptr) → set_next a r s ≡ ok (tt, record s { nodes = write s.nodes a (some (node e p r)) })
  unfolding set_next
  set_next-ok r = rw load-ok

  pub set_prev-ok :
      (r : Ptr) → set_prev a r s ≡ ok (tt, record s { nodes = write s.nodes a (some (node e r q)) })
  unfolding set_prev
  set_prev-ok r = rw load-ok

  pub set_elt-ok :
      (r : Ptr) → set_elt a r s ≡ ok (tt, record s { nodes = write s.nodes a (some (node r p q)) })
  unfolding set_elt
  set_elt-ok r = rw load-ok

  pub free_node-ok : free_node a s ≡ ok (tt, record s { nodes = write s.nodes a none })
  unfolding free_node
  free_node-ok = rw load-ok

pub At-write : (h : Heap) (c e p q : Ptr) → c ≢ null → At (write h c (some (node e p q))) c e p q
unfolding write
At-write h c e p q ne = record { ne_null = ne; holds = ground arith }

module _ {h : Heap} where
  pub At-other :
      {a e p q : Ptr} (c : Ptr) (n : Option Node) → At h a e p q → a ≢ c → At (write h c n) a e p q
  unfolding write
  At-other c n at ne = record { ne_null = at.ne_null; holds = ground (arith, at.holds) }

module _ {h : Heap} {q : Ptr} where
  -- A change that spares the nodes of a chain leaves it.
  pub Linked-frame :
      {g : Heap} {p : Ptr} {xs : Cells}
      → Linked h q p xs
      → ((a : Ptr) → has a xs ≡ true → g a ≡ h a)
      → Linked g q p xs
  Linked-frame nil same = nil
  Linked-frame (cons {a} at out s) same =
      cons (record { ne_null = at.ne_null; holds = same a (ground arith) ∙ at.holds }) out
        (Linked-frame s λ b i. same b (ground arith))

  pub Linked-write :
      {p : Ptr} {xs : Cells} (c : Ptr) (n : Option Node)
      → Linked h q p xs
      → c ∉ xs
      → Linked (write h c n) q p xs
  unfolding write
  Linked-write c n s out = Linked-frame s (ground arith)

  -- An address that holds no node is not one of the chain.
  pub not-mem_of_none : {p : Ptr} {xs : Cells} (c : Ptr) → Linked h q p xs → h c ≡ none → c ∉ xs
  not-mem_of_none c nil unused = refl
  not-mem_of_none c (cons at out s) unused = ground (arith, at.holds, not-mem_of_none c s unused)

pub elements-append : (xs ys : Cells) → elements (xs ++ ys) ≡ elements xs ++ elements ys
elements-append [] ys = refl
elements-append ((a, v) ∷ xs) ys = ap (λ l. v ∷ l) (elements-append xs ys)

pub has-append : (c : Ptr) (xs ys : Cells) → has c (xs ++ ys) ≡ (has c xs || has c ys)
has-append c [] ys = refl
has-append c ((a, v) ∷ xs) ys = ground (arith, has-append c xs ys)

pub last_of-snoc : (p : Ptr) (xs : Cells) (b w : Ptr) → last_of p (xs ++ (b, w) ∷ []) ≡ b
last_of-snoc p [] b w = refl
last_of-snoc p ((a, v) ∷ xs) b w = last_of-snoc a xs b w

pub ne_of_has : {a b : Ptr} (xs : Cells) → a ∉ xs → has b xs ≡ true → a ≢ b
ne_of_has xs out mem e = cc

pub IsList-cons :
    {h : Heap} {l : LinkedList} {c : Ptr × Ptr} {xs : Cells}
    → IsList h l (c ∷ xs)
    → (c.0 ≡ l.inner)
      × Linked h null null (c ∷ xs)
      × (l.last ≡ last_of c.0 xs)
      × (l.len ≡ suc (length xs))
IsList-cons (filled chain last len) = (refl, chain, last, len)

pub IsList-intro :
    {h : Heap} {l : LinkedList} {a v : Ptr} {xs : Cells}
    → a ≡ l.inner
    → Linked h null null ((a, v) ∷ xs)
    → l.last ≡ last_of a xs
    → l.len ≡ suc (length xs)
    → IsList h l ((a, v) ∷ xs)
IsList-intro {h} {l} {a} {v} {xs} e chain last len =
    subst (λ b. Linked h null null ((b, v) ∷ xs) → l.last ≡ last_of b xs → IsList h l ((b, v) ∷ xs))
      (sym e) (λ chain' last'. filled chain' last' len) chain last

pub first-ne_null : {h : Heap} {q p a v : Ptr} {xs : Cells} → Linked h q p ((a, v) ∷ xs) → a ≢ null
first-ne_null (cons at out s) = at.ne_null
