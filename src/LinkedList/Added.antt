-- ===== src/LinkedList/Added.antt =====
-- What AddTail, AddHead, InsertAfter and InsertBefore make of a list.
use yarc.Base.{
  ℕ, ◌+◌, ◌<◌, ◌≡◌, ◌≢◌, refl, sym, ◌∙◌, Option, some, List, [], ◌∷◌, ◌++◌, ◌==◌, if◌then◌else◌,
  ne→==, eq→==, arith, append-nil,
}
use std.Path.{subst}
use yarc.LinkedList.Nodes.{Node, Heap, null, write, load, store, new_node, set_links}
use yarc.LinkedList.Linked.{
  Cell, node, first_or, last_or, Linked, ArePlaced, Linked-write, Linked-left, Linked-right,
  last_or-append, load-cell,
}
use yarc.LinkedList.Linked.Apart.{ArePlaced-left, ArePlaced-right}
use yarc.LinkedList.Insert.{
  IsList, AreBelow-left, AreBelow-right, AreBelow-Misses, new_cell, linked_heap, coupled,
}
use yarc.LinkedList.{LinkedList, insert_after, insert_before, add_tail, add_head}

module _ {A : Type 0} where
  -- The last node of a list.
  load-last :
      (h : Heap A) (prev stop : ℕ) (c : Cell A) (cs : List (Cell A))
      → ArePlaced (c ∷ cs)
      → Linked h.nodes prev (c ∷ cs) stop
      → (n : Node A) × (load (last_or c.address cs) h ≡ some (n, h))
        × (n.next ≡ stop)
        × (last_or c.address cs ≢ null)
  load-last h prev stop c [] p l = (node c stop prev, load-cell h c stop prev p.0 l.0, refl, p.0)
  load-last h prev stop c (c' ∷ cs) p l = load-last h c.address stop c' cs p.1 l.1

  -- The run of an insertion up to Couple, for a node whose neighbours are known.
  abbrev blank_heap : Heap A → A → Heap A
  blank_heap h v = record h {
    nodes = write h.nodes h.next_address (some (node (new_cell h v) null null));
    next_address = h.next_address + 1;
  }

  set_links-new :
      (h : Heap A) (v : A) (next prev : ℕ)
      → 0 < h.next_address
      → set_links h.next_address next prev (blank_heap h v) ≡ some (tt, linked_heap h v next prev)
  unfolding set_links load store
  set_links-new h v next prev room =
      rw (ne→== h.next_address null (omega arith), eq→== h.next_address h.next_address refl)

  -- The new node as a list of its own, where there was none.
  alone :
      (h : Heap A) (l : LinkedList) (v : A)
      → IsList h l []
      → IsList
          (blank_heap h v)
          (record { head = h.next_address; tail = h.next_address; count = l.count + 1 })
          (new_cell h v ∷ [])
  alone h l v i = record {
    head_first = refl;
    tail_last = refl;
    counts = omega (arith, i.counts);
    chain = (rw (eq→== h.next_address h.next_address refl), tt);
    distinct = (tt, tt);
    placed = (omega (arith, i.room), tt);
    below = (omega arith, tt);
    room = omega arith;
  }

  abbrev pub Inserted : Option (LinkedList × Heap A) → List (Cell A) → Type 0
  Inserted o cells = (m : LinkedList) × (g : Heap A) × (o ≡ some (m, g)) × IsList g m cells

  -- Where the list ends and starts then.
  tail_of :
      (l : LinkedList) (q : Cell A) (xs ys : List (Cell A))
      → ArePlaced ys
      → l.tail ≡ last_or null (xs ++ ys)
      → (if first_or null ys == null then q.address else l.tail) ≡ last_or null (xs ++ q ∷ ys)
  tail_of l q xs [] p e = sym (last_or-append null xs (q ∷ []))
  tail_of l q xs (y ∷ ys) p e =
      rw (ne→== y.address null p.0)
        (e ∙ last_or-append null xs (y ∷ ys) ∙ sym (last_or-append null xs (q ∷ y ∷ ys)))

  last-placed : (x : Cell A) (xs : List (Cell A)) → ArePlaced (x ∷ xs) → last_or x.address xs ≢ null
  last-placed x [] p = p.0
  last-placed x (x' ∷ xs) p = last-placed x' xs p.1

  head_of :
      (l : LinkedList) (q : Cell A) (xs ys : List (Cell A))
      → ArePlaced xs
      → l.head ≡ first_or null (xs ++ ys)
      → (if last_or null xs == null then q.address else l.head) ≡ first_or null (xs ++ q ∷ ys)
  head_of l q [] ys p e = refl
  head_of l q (x ∷ xs) ys p e = rw (ne→== (last_or x.address xs) null (last-placed x xs p)) e

  -- InsertAfter.
  pub insert_after-IsList :
      (h : Heap A) (l : LinkedList) (v : A) (xs ys : List (Cell A))
      → (xs ≡ [] → ys ≡ [])
      → IsList h l (xs ++ ys)
      → Inserted (insert_after (last_or null xs) v l h) (xs ++ new_cell h v ∷ ys)
  unfolding insert_after new_node
  insert_after-IsList h l v [] ys none_before i =
      let empty_after = none_before refl in
      let i' : IsList h l [] = rw empty_after at i in
      (_, blank_heap h v, refl, rw empty_after (alone h l v i'))
  insert_after-IsList h l v (c ∷ cs) ys none_before i =
      let xs = c ∷ cs in
      let left = Linked-left h.nodes null xs ys null i.chain in
      let (n, found, next, placed) =
        load-last (blank_heap h v) null (first_or null ys) c cs (ArePlaced-left xs ys i.placed) (
          Linked-write h.nodes h.next_address _ null xs (first_or null ys)
            (AreBelow-Misses h.next_address xs (AreBelow-left h.next_address xs ys i.below))
            left) in
      let (f, run, built) = coupled h l v xs ys i in
      (
        _,
        record h { nodes = f; next_address = h.next_address + 1 },
        rw
            (
              ne→== (last_or null xs) null placed,
              found,
              next,
              set_links-new h v (first_or null ys) (last_or null xs) i.room,
              run,
            )
            refl,
        built
            (record l {
              tail = if first_or null ys == null then h.next_address else l.tail;
              count = l.count + 1;
            })
            i.head_first
            (tail_of l (new_cell h v) xs ys (ArePlaced-right xs ys i.placed) i.tail_last) refl,
      )

  -- InsertBefore.
  pub insert_before-IsList :
      (h : Heap A) (l : LinkedList) (v : A) (xs ys : List (Cell A))
      → (ys ≡ [] → xs ≡ [])
      → IsList h l (xs ++ ys)
      → Inserted (insert_before (first_or null ys) v l h) (xs ++ new_cell h v ∷ ys)
  unfolding insert_before new_node
  insert_before-IsList h l v xs [] none_after i =
      let empty_before = none_after refl in
      let i' : IsList h l [] = rw empty_before at i in
      (_, blank_heap h v, refl, rw empty_before (alone h l v i'))
  insert_before-IsList h l v xs (y ∷ ys) none_after i =
      let right = Linked-right h.nodes null xs (y ∷ ys) null i.chain in
      let placed = ArePlaced-right xs (y ∷ ys) i.placed in
      let misses =
        AreBelow-Misses h.next_address (y ∷ ys)
          (AreBelow-right h.next_address xs (y ∷ ys) i.below) in
      let right' =
        Linked-write h.nodes h.next_address (some (node (new_cell h v) null null)) (last_or null xs)
          (y ∷ ys) null misses right in
      let (f, run, built) = coupled h l v xs (y ∷ ys) i in
      (
        _,
        record h { nodes = f; next_address = h.next_address + 1 },
        rw
            (
              ne→== y.address null placed.0,
              load-cell (blank_heap h v) y (first_or null ys) (last_or null xs) placed.0 right'.0,
              set_links-new h v y.address (last_or null xs) i.room,
              run,
            )
            refl,
        built
            (record l {
              head = if last_or null xs == null then h.next_address else l.head;
              count = l.count + 1;
            })
            (head_of l (new_cell h v) xs (y ∷ ys) (ArePlaced-left xs (y ∷ ys) i.placed)
              i.head_first)
            (i.tail_last
              ∙ last_or-append null xs (y ∷ ys)
              ∙ sym (last_or-append null xs (new_cell h v ∷ y ∷ ys)))
            refl,
      )

  -- AddTail.
  pub add_tail-IsList :
      (h : Heap A) (l : LinkedList) (v : A) (xs : List (Cell A))
      → IsList h l xs
      → Inserted (add_tail v l h) (xs ++ new_cell h v ∷ [])
  unfolding add_tail
  add_tail-IsList h l v xs i =
      let i' : IsList h l (xs ++ []) = rw (append-nil xs) i in
      let added = insert_after-IsList h l v xs [] (λ e. refl) i' in
      subst (λ (a : ℕ). Inserted (insert_after a v l h) (xs ++ new_cell h v ∷ [])) (sym i.tail_last)
        added

  -- AddHead.
  pub add_head-IsList :
      (h : Heap A) (l : LinkedList) (v : A) (ys : List (Cell A))
      → IsList h l ys
      → Inserted (add_head v l h) (new_cell h v ∷ ys)
  unfolding add_head
  add_head-IsList h l v ys i =
      let added = insert_before-IsList h l v [] ys (λ e. refl) i in
      subst (λ (a : ℕ). Inserted (insert_before a v l h) (new_cell h v ∷ ys)) (sym i.head_first)
        added

  -- AddTail puts a new node behind the nodes of a list and AddHead before them: what they leave is
  -- the list of these nodes, linked in both directions, with its head, tail and count.
  pub added-IsList :
      (h : Heap A) (l : LinkedList) (v : A) (cs : List (Cell A))
      → IsList h l cs
      → Inserted (add_tail v l h) (cs ++ new_cell h v ∷ [])
        × Inserted (add_head v l h) (new_cell h v ∷ cs)
  added-IsList h l v cs i = (add_tail-IsList h l v cs i, add_head-IsList h l v cs i)
