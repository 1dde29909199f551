-- ===== src/Util/List.antt =====
-- `struct list` of dragon/util.c: a doubly linked list whose first node is a member of the struct,
-- with the loops of dragon/util.h over it.
--
-- `nodes` is the memory that holds nodes. The embedded node `inner` is the first member of its list,
-- so its address is the list's, and a list at `null` is the null pointer; `D` of the list gives that
-- address back. `destroyed` are the elements that `dtor` was called on, in order: a destructor gives
-- back memory of its own. An address that `calloc` returns is an argument, `fresh`.

pub mod Chain
pub mod Add
pub mod Pop
pub mod Loops
pub mod Free
use cs.Prelude.{
  ℕ, zero, suc, ◌-◌, ◌==◌, Bool, not, ◌||◌, Option, none, some, List, [], ◌∷◌, ◌++◌, if◌then◌else◌,
}
use cs.Exec.{stop, aborted, undefined, out_of_fuel, Exec, ok, pure, stop_if, ◌>>=◌, ◌>>◌}

abbrev pub Ptr : Type 0
Ptr = ℕ

abbrev pub null : Ptr
null = 0

-- `struct node`
pub record Node : Type 0 where
  pub elt : Ptr
  pub prev : Ptr
  pub next : Ptr

abbrev pub node : Ptr → Ptr → Ptr → Node
node elt prev next = record { elt = elt; prev = prev; next = next }

abbrev pub Heap : Type 0
Heap = Ptr → Option Node

pub record Store : Type 0 where
  pub nodes : Heap
  pub destroyed : List Ptr

-- `struct list`, without the destructor.
pub record LinkedList : Type 0 where
  pub inner : Ptr
  pub last : Ptr
  pub len : ℕ

unfoldable pub write : Heap → Ptr → Option Node → Heap
write h p c a = if a == p then c else h a

abbrev pub put : Ptr → Option Node → Exec Store (Unit {0})
put p c s = ok (tt, record s { nodes = write s.nodes p c })

abbrev pub found : Option Node → Exec Store Node
found none s = stop undefined
found (some n) s = ok (n, s)

-- `*p`, undefined at null and at an address that holds no node.
unfoldable pub load : Ptr → Exec Store Node
load p s = if p == null then stop undefined else found (s.nodes p) s

unfoldable pub set_next : Ptr → Ptr → Exec Store (Unit {0})
unfolding load
set_next p q = do n ← load p; put p (some (record n { next = q }))

unfoldable pub set_prev : Ptr → Ptr → Exec Store (Unit {0})
unfolding load
set_prev p q = do n ← load p; put p (some (record n { prev = q }))

unfoldable pub set_elt : Ptr → Ptr → Exec Store (Unit {0})
unfolding load
set_elt p e = do n ← load p; put p (some (record n { elt = e }))

-- `D(p)`
unfoldable pub free_node : Ptr → Exec Store (Unit {0})
unfolding load
free_node p = load p >> put p none

-- `if (elt) dtor(elt)`
unfoldable pub destroy : Ptr → Exec Store (Unit {0})
destroy e s =
    ok (tt, record s { destroyed = if e == null then s.destroyed else s.destroyed ++ e ∷ [] })

unfoldable pub list_empty : Ptr → Exec Store LinkedList
list_empty fresh = do
  put fresh (some (node null null null))
  pure (record { inner = fresh; last = fresh; len = 0 })

unfoldable pub list_is_empty : LinkedList → Bool
list_is_empty l = l.len == 0

-- A failed `assert` aborts.
unfoldable pub list_append : Ptr → Ptr → Exec Store (Unit {0})
unfolding load set_next set_prev
list_append a b = do
  na ← load a
  stop_if (not (na.next == null)) aborted
  set_next a b
  nb ← load b
  stop_if (not (nb.prev == null)) aborted
  set_prev b a

-- The branch of `list_add` that makes a node.
unfoldable pub add_node : Ptr → LinkedList → Ptr → Exec Store LinkedList
unfolding list_append
add_node fresh l e = do
  put fresh (some (node e null null))
  list_append l.last fresh
  pure (record l { len = suc l.len; last = fresh })

unfoldable pub list_add : Ptr → LinkedList → Ptr → Exec Store LinkedList
unfolding set_elt add_node
list_add fresh l e s =
    if l.len == 0
    then (set_elt l.inner e >> pure (record l { len = suc l.len })) s
    else add_node fresh l e s

-- `fresh` is not used, since the list is empty.
unfoldable pub list_new : Ptr → Ptr → Exec Store LinkedList
unfolding list_empty list_add
list_new at data_ = list_empty at >>= λ l. list_add null l data_

-- `a->last->next = NULL` is a write through null when the last node has no predecessor. `length` is
-- unsigned, but a list that gets so far has a node before its last.
unfoldable pub list_pop : LinkedList → Exec Store (Ptr × LinkedList)
unfolding load set_next free_node
list_pop l s =
    if l.inner == null || l.last == null
    then ok ((null, l), s)
    else (load l.last >>= λ n.
          set_next n.prev null
          >> free_node l.last
          >> pure (n.elt, record l { last = n.prev; len = l.len - 1 }))
        s

unfoldable pub list_last : LinkedList → Exec Store Ptr
unfolding load
list_last l s =
    if l.inner == null || l.last == null then ok (null, s) else (load l.last >>= λ n. pure n.elt) s

-- Fuel counts the nodes.
unfoldable pub node_free : ℕ → Ptr → Exec Store (Unit {0})
unfolding load destroy free_node
node_free zero a s = stop out_of_fuel
node_free (suc fuel) a s =
    let rest = node_free fuel in
    if a == null
    then ok (tt, s)
    else (load a >>= λ n. destroy n.elt >> free_node a >> λ t.
          if n.next == null
          then ok (tt, t)
          else (load n.next >>= λ p. stop_if (not (p.prev == a)) aborted >> rest n.next) t)
        s

-- The part of `list_free` on a list that has elements.
unfoldable pub free_elements : ℕ → LinkedList → Exec Store (Unit {0})
unfolding load node_free destroy
free_elements fuel l = do n ← load l.inner; node_free fuel n.next; m ← load l.inner; destroy m.elt

unfoldable pub list_free : ℕ → LinkedList → Exec Store (Unit {0})
unfolding free_elements free_node
list_free fuel l s =
    if l.inner == null
    then ok (tt, s)
    else ((if l.len == 0 then pure tt else free_elements fuel l) >> free_node l.inner) s

-- `LFOREACH`: the elements that the body is given. `temp` steps past the last node to null, which
-- the loop does not read.
unfoldable pub lforeach_loop : ℕ → Ptr → Exec Store (List Ptr)
unfolding load
lforeach_loop zero temp = pure []
lforeach_loop (suc n) temp = do t ← load temp; es ← lforeach_loop n t.next; pure (t.elt ∷ es)

unfoldable pub lforeach : LinkedList → Exec Store (List Ptr)
unfolding lforeach_loop
lforeach l = lforeach_loop l.len l.inner

-- `LFOREACHREV`, which leaves out null elements; fuel counts the nodes.
unfoldable pub lforeachrev_loop : ℕ → Ptr → Exec Store (List Ptr)
unfolding load
lforeachrev_loop zero temp s = stop out_of_fuel
lforeachrev_loop (suc fuel) temp s =
    let rest = lforeachrev_loop fuel in
    if temp == null
    then ok ([], s)
    else (load temp >>= λ t. rest t.prev >>= λ es. pure (if t.elt == null then es else t.elt ∷ es))
        s

unfoldable pub lforeachrev : ℕ → LinkedList → Exec Store (List Ptr)
unfolding lforeachrev_loop
lforeachrev fuel l = lforeachrev_loop fuel l.last
