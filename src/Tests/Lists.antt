-- ===== src/Tests/Lists.antt =====
-- The theorems on linked lists at small ones, and a run of the operations.
use cs.Prelude.{◌≡◌, refl, [], ◌∷◌, none, some, ◌==◌, true, false, if◌then◌else◌, arith}
use cs.Exec.{Result, ok, stop, undefined, ◌>>=◌}
use cs.Exec.Total.{Returns}
use cs.Util.List.{
  Ptr, Node, node, Store, LinkedList, list_empty, list_new, list_is_empty, list_add, list_pop,
  list_last, list_free, lforeach, lforeachrev,
}
use cs.Util.List.Chain.{Cells, has, Linked, nil, cons, EqualOff, IsList, filled}
use cs.Util.List.Add.{Added, list_add-Added}
use cs.Util.List.Pop.{Popped, list_pop-Popped, list_pop-undefined}
use cs.Util.List.Loops.{lforeachrev-reverse}
use cs.Util.List.Free.{owned, list_free-all}

-- The elements 7 and 8: a list at 100, whose second node is at 200.
abbrev memory : Store
memory = record {
  nodes =
      λ a. if a == 100 then some (node 7 0 200) else if a == 200 then some (node 8 100 0) else none;
  destroyed = [];
}

abbrev pair : LinkedList
pair = record { inner = 100; last = 200; len = 2 }

abbrev pair_cells : Cells
pair_cells = (100, 7) ∷ (200, 8) ∷ []

second-Linked : Linked memory.nodes 0 100 ((200, 8) ∷ [])
second-Linked = cons (record { ne_null = λ e. omega (arith, e); holds = refl }) refl nil

pair-IsList : IsList memory.nodes pair pair_cells
pair-IsList =
    filled (cons (record { ne_null = λ e. omega (arith, e); holds = refl }) refl second-Linked) refl
      refl

list_add-Added_example :
    Returns (λ l' t. Added 300 pair pair_cells 9 memory l' t) (list_add 300 pair 9 memory)
list_add-Added_example =
    list_add-Added memory pair pair_cells 300 9 pair-IsList (λ e. omega (arith, e)) refl

list_pop-Popped_example :
    Returns (λ r t. Popped ((100, 7) ∷ []) 200 8 memory r t) (list_pop pair memory)
list_pop-Popped_example = list_pop-Popped memory pair (100, 7) [] 200 8 pair-IsList

-- A list of one element.
abbrev one_memory : Store
one_memory = record { nodes = λ a. if a == 100 then some (node 7 0 0) else none; destroyed = [] }

abbrev one : LinkedList
one = record { inner = 100; last = 100; len = 1 }

one-IsList : IsList one_memory.nodes one ((100, 7) ∷ [])
one-IsList =
    filled (cons (record { ne_null = λ e. omega (arith, e); holds = refl }) refl nil) refl refl

list_pop-undefined_example : list_pop one one_memory ≡ stop undefined
list_pop-undefined_example =
    list_pop-undefined one_memory one ((100, 7) ∷ []) one-IsList (omega arith)

lforeachrev-reverse_example : lforeachrev 4 pair memory ≡ ok (8 ∷ 7 ∷ [], memory)
lforeachrev-reverse_example = lforeachrev-reverse memory pair pair_cells pair-IsList

list_free-all_example :
    Returns
      (λ _ t.
        ((a : Ptr) → has a (owned pair pair_cells) ≡ true → t.nodes a ≡ none)
        × EqualOff (owned pair pair_cells) memory.nodes t.nodes
        × (t.destroyed ≡ 8 ∷ 7 ∷ []))
      (list_free 3 pair memory)
list_free-all_example = list_free-all memory pair pair_cells pair-IsList

-- The last element of a list of three, made in an empty memory.
abbrev made : Result (Ptr × Store)
made =
    (list_new 100 7 >>= λ l. list_add 200 l 8 >>= λ l'. list_add 300 l' 9 >>= list_last)
      (record { nodes = λ a. none; destroyed = [] })

abbrev element_of : Result (Ptr × Store) → Ptr
element_of (ok (e, s)) = e
element_of (stop x) = 0

made_last : element_of made ≡ 9
unfolding list_new list_add list_last cs.Util.List.write
made_last = refl

pair_not_empty : list_is_empty pair ≡ false
unfolding list_is_empty
pair_not_empty = refl
