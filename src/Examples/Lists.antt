-- ===== src/Examples/Lists.antt =====
-- The lists at work: a list of two nodes.
use yarc.Base.{
  ℕ, ◌+◌, ◌≡◌, refl, true, false, none, some, List, [], ◌∷◌, ◌++◌, ◌==◌, if◌then◌else◌, ltb, arith,
}
use yarc.LinkedList.Nodes.{
  Heap, pure, ◌>>=◌, null, write, load, store, decouple, set_prev, set_next, delete_node,
  raise_flag,
}
use yarc.LinkedList.Linked.{Cell, node}
use yarc.LinkedList.Insert.{IsList}
use yarc.LinkedList.Added.{Inserted, added-IsList}
use yarc.LinkedList.Removed.{remove-IsList}
use yarc.LinkedList.Found.{find-IsList}
use yarc.LinkedList.{LinkedList, add_tail, add_head, remove, find}
use yarc.Reducer.{ReductionResult, result_none, result_delete, Reduce, reduce_list}
use yarc.Reducer.Survivors.{survivors, reduce_list-Survivors}
use yarc.Reducer.Freed.{at_call, reduce_list-freed}

abbrev cell : ℕ → ℕ → Cell ℕ
cell a v = record { address = a; value = v; delete_flag = null }

abbrev two_heap : Heap ℕ
two_heap = record {
  nodes = λ a.
      if a == 1
      then some (node (cell 1 10) 2 null)
      else if a == 2
      then some (node (cell 2 20) null 1)
      else none;
  next_address = 3;
  flags = λ a. false;
}

abbrev two_list : LinkedList
two_list = record { head = 1; tail = 2; count = 2 }

abbrev two_cells : List (Cell ℕ)
two_cells = cell 1 10 ∷ cell 2 20 ∷ []

two_list-IsList : IsList two_heap two_list two_cells
two_list-IsList = record {
  head_first = refl;
  tail_last = refl;
  counts = refl;
  chain = (refl, (refl, tt));
  distinct = (((λ e. omega (arith, e)), tt), (tt, tt));
  placed = ((λ e. omega (arith, e)), ((λ e. omega (arith, e)), tt));
  below = (omega arith, (omega arith, tt));
  room = omega arith;
}

added-IsList_example :
    Inserted (add_tail 30 two_list two_heap) (two_cells ++ cell 3 30 ∷ [])
    × Inserted (add_head 30 two_list two_heap) (cell 3 30 ∷ two_cells)
added-IsList_example = added-IsList two_heap two_list 30 two_cells two_list-IsList

remove-IsList_example :
    (m : LinkedList) × (g : Heap ℕ) × (remove 2 two_list two_heap ≡ some (m, g))
    × IsList g m (cell 1 10 ∷ [])
remove-IsList_example =
    remove-IsList two_heap two_list (cell 1 10 ∷ []) (cell 2 20) [] two_list-IsList

find-IsList_example :
    (m : LinkedList) × (g : Heap ℕ) × (find (λ v. ltb 15 v) 0 true two_list two_heap
      ≡ some ((20, m), g))
    × IsList g m (cell 1 10 ∷ [])
find-IsList_example =
    find-IsList (λ v. ltb 15 v) 0 true two_heap two_list (cell 1 10 ∷ []) (cell 2 20) []
      two_list-IsList (refl, tt) refl

-- Objects that are done once their value is below 15; the rest of the state counts the calls.
abbrev count_calls : ℕ → ℕ → ReductionResult × ℕ
count_calls v w = (if ltb v 15 then result_delete else result_none, w + 1)

abbrev count_reduce : Reduce ℕ ℕ
count_reduce v l w h = some (((count_calls v w).0, l, (count_calls v w).1), h)

reduce_list-Survivors_example :
    (m : LinkedList) × (g : Heap ℕ) × (reduce_list count_reduce 9 3 two_list 0 two_heap
      ≡ some ((m, 2), g))
    × IsList g m (cell 2 20 ∷ [])
unfolding survivors
reduce_list-Survivors_example =
    reduce_list-Survivors count_calls count_reduce 9 (λ v l w h. refl) 3 two_heap two_list 0
      two_cells two_list-IsList (omega arith)

-- An object that removes the head of the list, which is its own node.
abbrev remove_self : Reduce ℕ ℕ
remove_self v l w = do l' ← remove l.head l; pure (result_none, l', w)

abbrev called_heap : Heap ℕ
called_heap = at_call 9 two_heap (cell 1 10) (cell 2 20 ∷ [])

abbrev removed_heap : Heap ℕ
removed_heap = record {
  nodes = write (write called_heap.nodes 2 (some (node (cell 2 20) null null))) 1 none;
  next_address = 3;
  flags = λ a. if a == 9 then true else called_heap.flags a;
}

remove_self_lem :
    remove_self 10 two_list 0 called_heap
    ≡ some ((result_none, record { head = 2; tail = 2; count = 1 }, 0), removed_heap)
unfolding remove load decouple set_prev set_next delete_node raise_flag store
remove_self_lem = refl

reduce_list-freed_example : reduce_list remove_self 9 2 two_list 0 two_heap ≡ none
reduce_list-freed_example =
    reduce_list-freed remove_self 9 1 two_heap removed_heap two_list 0 (cell 1 10) (cell 2 20 ∷ [])
      (result_none, record { head = 2; tail = 2; count = 1 }, 0) two_list-IsList remove_self_lem
      refl
