-- ===== src/LinkedList.antt =====
-- Source/yarc_linked_list.h: a doubly linked list, with its nodes in a heap.
pub mod Nodes
pub mod Linked
pub mod Insert
pub mod Added
pub mod Removed
pub mod Found
use yarc.Base.{ℕ, zero, suc, ◌+◌, ◌-◌, Bool, true, false, Option, none, some, ◌==◌, if◌then◌else◌}
use yarc.LinkedList.Nodes.{
  Node, Heap, Cmd, pure, ◌>>=◌, ◌>>◌, null, load, new_node, set_next, set_prev, set_links, couple,
  decouple, delete_node,
}

-- A count is that of nodes that are allocated, so that it does not overflow.
pub record LinkedList : Type 0 where
  pub head : ℕ
  pub tail : ℕ
  pub count : ℕ

unfoldable pub empty : LinkedList
empty = record { head = null; tail = null; count = 0 }

module _ {A : Type 0} where
  unfoldable pub insert_after : (after : ℕ) → A → LinkedList → Cmd A LinkedList
  unfolding new_node load set_links couple
  insert_after after value l = do
    node ← new_node value
    if after == null then pure (record { head = node; tail = node; count = l.count + 1 }) else do
      a ← load after
      set_links node a.next after
      couple node
      pure (record l { tail = if a.next == null then node else l.tail; count = l.count + 1 })

  unfoldable pub insert_before : (before : ℕ) → A → LinkedList → Cmd A LinkedList
  unfolding new_node load set_links couple
  insert_before before value l = do
    node ← new_node value
    if before == null then pure (record { head = node; tail = node; count = l.count + 1 }) else do
      b ← load before
      set_links node before b.prev
      couple node
      pure (record l { head = if b.prev == null then node else l.head; count = l.count + 1 })

  unfoldable pub add_tail : A → LinkedList → Cmd A LinkedList
  unfolding insert_after
  add_tail value l = insert_after l.tail value l

  unfoldable pub add_head : A → LinkedList → Cmd A LinkedList
  unfolding insert_before
  add_head value l = insert_before l.head value l

  unfoldable pub remove : (node : ℕ) → LinkedList → Cmd A LinkedList
  unfolding load decouple delete_node
  remove node l = do
    head ← if l.head == node then (do n ← load l.head; pure n.next) else pure l.head
    tail ← if l.tail == node then (do n ← load l.tail; pure n.prev) else pure l.tail
    decouple node
    delete_node node
    pure (record { head = head; tail = tail; count = l.count - 1 })

  -- The loop of RemoveAll runs `count` times.
  unfoldable pub remove_times : ℕ → LinkedList → Cmd A LinkedList
  unfolding remove
  remove_times zero l = pure l
  remove_times (suc n) l = do l' ← remove l.head l; remove_times n l'

  unfoldable pub remove_all : LinkedList → Cmd A LinkedList
  unfolding remove_times
  remove_all l = remove_times l.count l

  -- The loop of Find from a node on, which gives the node that fits, or null.
  unfoldable pub find_loop : (fuel : ℕ) → (predicate : A → Bool) → ℕ → Cmd A ℕ
  unfolding load
  find_loop zero predicate node = λ h. none
  find_loop (suc fuel) predicate node = if node == null then pure null else do
    n ← load node
    elim (predicate n.value) [ true ↦ pure node | false ↦ find_loop fuel predicate n.next ]

  unfoldable pub find :
      (predicate : A → Bool)
      → (not_found_value : A) → (remove_if_found : Bool) → LinkedList
      → Cmd A (A × LinkedList)
  unfolding find_loop remove load
  find predicate not_found_value remove_if_found l = do
    node ← find_loop (l.count + 1) predicate l.head
    if node == null then pure (not_found_value, l) else do
      n ← load node
      if remove_if_found then (do l' ← remove node l; pure (n.value, l')) else pure (n.value, l)

  -- ThreadSafeList::RemoveHead and RemoveTail, with no value where they give null
  unfoldable pub remove_head : LinkedList → Cmd A (Option A × LinkedList)
  unfolding load remove
  remove_head l =
      if l.count == 0
      then pure (none, l)
      else do n ← load l.head; l' ← remove l.head l; pure (some n.value, l')

  unfoldable pub remove_tail : LinkedList → Cmd A (Option A × LinkedList)
  unfolding load remove
  remove_tail l =
      if l.count == 0
      then pure (none, l)
      else do n ← load l.tail; l' ← remove l.tail l; pure (some n.value, l')
