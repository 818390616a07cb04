-- ===== src/LinkedList/Removed.antt =====
-- What Remove, RemoveAll and RemoveHead make of a list.
use yarc.Base.{
  ℕ, ◌-◌, ◌≡◌, ◌≢◌, refl, sym, ◌∙◌, Bool, true, none, some, List, [], ◌∷◌, ◌++◌, length, ◌==◌,
  if◌then◌else◌, ne→==, eq→==, arith, length-append, append-nil,
}
use std.Path.{subst}
use yarc.LinkedList.Nodes.{Heap, pure, and_then, null, write, load, store, raise_flag, delete_node}
use yarc.LinkedList.Linked.{
  Cell, node, first_or, last_or, Misses, Linked-write, Linked-left, Linked-right, last_or-append,
  load-cell, Misses-append,
}
use yarc.LinkedList.Linked.Apart.{
  AreApart-sym, AreDistinct-left, AreDistinct-right, AreApart-parts, AreDistinct-append,
  ArePlaced-left, ArePlaced-right, ArePlaced-append,
}
use yarc.LinkedList.Linked.Couple.{Between, decouple-Linked}
use yarc.LinkedList.Insert.{IsList, AreBelow-left, AreBelow-right, AreBelow-append}
use yarc.LinkedList.{LinkedList, remove, remove_times, remove_all, remove_head, remove_tail}

module _ {A : Type 0} where
  -- The node of a list is between its parts.
  cell-Between :
      (h : Heap A) (l : LinkedList) (xs : List (Cell A)) (c : Cell A) (ys : List (Cell A))
      → IsList h l (xs ++ c ∷ ys)
      → Between h.nodes c xs ys
  cell-Between h l xs c ys i =
      let apart = AreApart-parts xs (c ∷ ys) i.distinct in
      let back = AreApart-sym xs (c ∷ ys) apart in
      record {
        placed = (ArePlaced-right xs (c ∷ ys) i.placed).0;
        here = (Linked-right h.nodes null xs (c ∷ ys) null i.chain).0;
        before_placed = ArePlaced-left xs (c ∷ ys) i.placed;
        before_distinct = AreDistinct-left xs (c ∷ ys) i.distinct;
        before_misses = back.0;
        after_placed = (ArePlaced-right xs (c ∷ ys) i.placed).1;
        after_distinct = (AreDistinct-right xs (c ∷ ys) i.distinct).1;
        after_misses = (AreDistinct-right xs (c ∷ ys) i.distinct).0;
        apart = AreApart-sym ys xs back.1;
      }

  last-Misses :
      (a : ℕ) (y : Cell A) (ys : List (Cell A)) → Misses a (y ∷ ys) → last_or y.address ys ≢ a
  last-Misses a y [] m = λ e. m.0 (sym e)
  last-Misses a y (z ∷ ys) m = last-Misses a z ys m.1

  module _ (h : Heap A) (l : LinkedList) (c : Cell A) where
    -- The first commands of Remove find the new head and tail.
    new_head :
        (xs ys : List (Cell A))
        → Between h.nodes c xs ys
        → l.head ≡ first_or null (xs ++ c ∷ ys)
        → (if l.head == c.address
              then (λ g. and_then (load l.head g) (λ n. pure n.next))
              else pure l.head)
            h
          ≡ some (first_or null (xs ++ ys), h)
    new_head [] ys b e =
        rw
          (e, eq→== c.address c.address refl, load-cell h c (first_or null ys) null b.placed b.here)
    new_head (x ∷ xs) ys b e = rw (e, ne→== x.address c.address (λ f. b.before_misses.0 (sym f)))

    new_tail :
        (xs ys : List (Cell A))
        → Between h.nodes c xs ys
        → l.tail ≡ last_or null (xs ++ c ∷ ys)
        → (if l.tail == c.address
              then (λ g. and_then (load l.tail g) (λ n. pure n.prev))
              else pure l.tail)
            h
          ≡ some (last_or null (xs ++ ys), h)
    new_tail xs [] b e =
        rw
          (
            e,
            last_or-append null xs (c ∷ []),
            eq→== c.address c.address refl,
            append-nil xs,
            load-cell h c null (last_or null xs) b.placed b.here,
          )
          refl
    new_tail xs (y ∷ ys) b e =
        rw
          (
            e,
            last_or-append null xs (c ∷ y ∷ ys),
            last_or-append null xs (y ∷ ys),
            ne→== (last_or y.address ys) c.address (last-Misses c.address y ys b.after_misses),
          )
          refl

  -- The destructor.
  delete_node-cell :
      (h : Heap A) (c : Cell A) (next prev : ℕ)
      → c.address ≢ null
      → h.nodes c.address ≡ some (node c next prev)
      → (flags : ℕ → Bool) × (delete_node c.address h
          ≡ some (tt, record h { nodes = write h.nodes c.address none; flags = flags }))
  unfolding delete_node store raise_flag
  delete_node-cell h c next prev placed here = (
    (λ a.
        if c.delete_flag == null
        then h.flags a
        else if a == c.delete_flag
        then true
        else h.flags a),
    rw (load-cell h c next prev placed here) refl,
  )

  -- Remove of any node of a list, be it the head, the tail, both or neither, leaves the list of the
  -- other nodes, linked in both directions, with its head, tail and count.
  pub remove-IsList :
      (h : Heap A) (l : LinkedList) (xs : List (Cell A)) (c : Cell A) (ys : List (Cell A))
      → IsList h l (xs ++ c ∷ ys)
      → (m : LinkedList) × (g : Heap A) × (remove c.address l h ≡ some (m, g))
        × IsList g m (xs ++ ys)
  unfolding remove
  remove-IsList h l xs c ys i =
      let b = cell-Between h l xs c ys i in
      let left = Linked-left h.nodes null xs (c ∷ ys) null i.chain in
      let right = Linked-right h.nodes null xs (c ∷ ys) null i.chain in
      let (f, run, here, chain) = decouple-Linked h c xs ys b c.address c.address left right.1 in
      let (flags, run') =
        delete_node-cell (record h { nodes = f }) c (first_or null ys) (last_or null xs) b.placed
          here in
      let below = i.below in
      (
        record {
          head = first_or null (xs ++ ys);
          tail = last_or null (xs ++ ys);
          count = l.count - 1;
        },
        record h { nodes = write f c.address none; flags = flags },
        rw (new_head h l c xs ys b i.head_first, new_tail h l c xs ys b i.tail_last, run, run')
            refl,
        record {
          head_first = refl;
          tail_last = refl;
          counts = omega (arith, i.counts, length-append xs (c ∷ ys), length-append xs ys);
          chain =
              Linked-write f c.address none null (xs ++ ys) null
                (Misses-append c.address xs ys b.before_misses b.after_misses) chain;
          distinct = AreDistinct-append xs ys b.before_distinct b.after_distinct b.apart;
          placed = ArePlaced-append xs ys b.before_placed b.after_placed;
          below =
              AreBelow-append h.next_address xs ys (AreBelow-left h.next_address xs (c ∷ ys) below)
                (AreBelow-right h.next_address xs (c ∷ ys) below).1;
          room = i.room;
        },
      )

  -- Remove, of the head.
  remove_first :
      (h : Heap A) (l : LinkedList) (c : Cell A) (ys : List (Cell A))
      → IsList h l (c ∷ ys)
      → (m : LinkedList) × (g : Heap A) × (remove l.head l h ≡ some (m, g)) × IsList g m ys
  remove_first h l c ys i =
      subst
        (λ (a : ℕ). (m : LinkedList) × (g : Heap A) × (remove a l h ≡ some (m, g)) × IsList g m ys)
        (sym i.head_first) (remove-IsList h l [] c ys i)

  remove_times-IsList :
      (cs : List (Cell A)) (h : Heap A) (l : LinkedList)
      → IsList h l cs
      → (m : LinkedList) × (g : Heap A) × (remove_times (length cs) l h ≡ some (m, g))
        × IsList g m []
  unfolding remove_times
  remove_times-IsList [] h l i = (l, h, refl, i)
  remove_times-IsList (c ∷ cs) h l i =
      let (l', h', run, i') = remove_first h l c cs i in
      let (m, g, run', done) = remove_times-IsList cs h' l' i' in (m, g, rw run run', done)

  pub remove_all-IsList :
      (h : Heap A) (l : LinkedList) (cs : List (Cell A))
      → IsList h l cs
      → (m : LinkedList) × (g : Heap A) × (remove_all l h ≡ some (m, g)) × IsList g m []
  unfolding remove_all
  remove_all-IsList h l cs i =
      subst
        (λ (n : ℕ).
          (m : LinkedList) × (g : Heap A) × (remove_times n l h ≡ some (m, g)) × IsList g m [])
        (sym i.counts) (remove_times-IsList cs h l i)

  -- RemoveHead gives the first value.
  pub remove_head-IsList :
      (h : Heap A) (l : LinkedList) (c : Cell A) (cs : List (Cell A))
      → IsList h l (c ∷ cs)
      → (m : LinkedList) × (g : Heap A) × (remove_head l h ≡ some ((some c.value, m), g))
        × IsList g m cs
  unfolding remove_head
  remove_head-IsList h l c cs i =
      let (m, g, run, done) = remove_first h l c cs i in
      let found = load-cell h c (first_or null cs) null i.placed.0 i.chain.0 in
      let at_head =
        subst (λ (a : ℕ). load a h ≡ some (node c (first_or null cs) null, h)) (sym i.head_first)
          found in
      (m, g, rw (ne→== l.count 0 (omega (arith, i.counts)), at_head, run) refl, done)

  -- RemoveTail gives the last one.
  pub remove_tail-IsList :
      (h : Heap A) (l : LinkedList) (cs : List (Cell A)) (c : Cell A)
      → IsList h l (cs ++ c ∷ [])
      → (m : LinkedList) × (g : Heap A) × (remove_tail l h ≡ some ((some c.value, m), g))
        × IsList g m cs
  unfolding remove_tail
  remove_tail-IsList h l cs c i =
      let at_tail : l.tail ≡ c.address = i.tail_last ∙ last_or-append null cs (c ∷ []) in
      let placed = (ArePlaced-right cs (c ∷ []) i.placed).0 in
      let found =
        load-cell h c null (last_or null cs) placed
          (Linked-right h.nodes null cs (c ∷ []) null i.chain).0 in
      let found' =
        subst (λ (a : ℕ). load a h ≡ some (node c null (last_or null cs), h)) (sym at_tail) found in
      let (m, g, run, done) = remove-IsList h l cs c [] i in
      let run' = subst (λ (a : ℕ). remove a l h ≡ some (m, g)) (sym at_tail) run in
      (
        m,
        g,
        rw (ne→== l.count 0 (omega (arith, i.counts, length-append cs (c ∷ []))), found', run')
            refl,
        rw (← append-nil cs) done,
      )
