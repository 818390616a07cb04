-- ===== src/LinkedList/Insert.antt =====
-- InsertAfter and InsertBefore put a node into the list that the nodes stand for.
use yarc.Base.{
  ℕ, ◌+◌, ◌<◌, ◌≡◌, refl, sym, Option, some, List, [], ◌∷◌, ◌++◌, length, eq→==, arith,
  length-append,
}
use yarc.LinkedList.Nodes.{Node, Heap, null, write, couple}
use yarc.LinkedList.Linked.{
  Cell, node, first_or, last_or, Linked, Misses, AreDistinct, ArePlaced, Linked-write, Linked-left,
  Linked-right,
}
use yarc.LinkedList.Linked.Apart.{
  AreApart, AreDistinct-left, AreDistinct-right, AreApart-parts, AreDistinct-append, ArePlaced-left,
  ArePlaced-right, ArePlaced-append, AreApart-sym,
}
use yarc.LinkedList.Linked.Couple.{Between, couple-Linked}
use yarc.LinkedList.{LinkedList}

module _ {A : Type 0} where
  abbrev pub AreBelow : ℕ → List (Cell A) → Type 0
  AreBelow n [] = Unit
  AreBelow n (c ∷ cs) = (c.address < n) × AreBelow n cs

  -- The nodes of the list, in order; `new` gives none of their addresses.
  pub record IsList (h : Heap A) (l : LinkedList) (cells : List (Cell A)) : Type 0 where
    pub head_first : l.head ≡ first_or null cells
    pub tail_last : l.tail ≡ last_or null cells
    pub counts : l.count ≡ length cells
    pub chain : Linked h.nodes null cells null
    pub distinct : AreDistinct cells
    pub placed : ArePlaced cells
    pub below : AreBelow h.next_address cells
    pub room : 0 < h.next_address

  pub AreBelow-left : (n : ℕ) (xs ys : List (Cell A)) → AreBelow n (xs ++ ys) → AreBelow n xs
  AreBelow-left n [] ys b = tt
  AreBelow-left n (x ∷ xs) ys b = (b.0, AreBelow-left n xs ys b.1)

  pub AreBelow-right : (n : ℕ) (xs ys : List (Cell A)) → AreBelow n (xs ++ ys) → AreBelow n ys
  AreBelow-right n [] ys b = b
  AreBelow-right n (x ∷ xs) ys b = AreBelow-right n xs ys b.1

  pub AreBelow-append :
      (n : ℕ) (xs ys : List (Cell A)) → AreBelow n xs → AreBelow n ys → AreBelow n (xs ++ ys)
  AreBelow-append n [] ys b c = c
  AreBelow-append n (x ∷ xs) ys b c = (b.0, AreBelow-append n xs ys b.1 c)

  AreBelow-suc : (n : ℕ) (xs : List (Cell A)) → AreBelow n xs → AreBelow (n + 1) xs
  AreBelow-suc n [] b = tt
  AreBelow-suc n (x ∷ xs) b = (omega (arith, b.0), AreBelow-suc n xs b.1)

  pub AreBelow-Misses : (n : ℕ) (xs : List (Cell A)) → AreBelow n xs → Misses n xs
  AreBelow-Misses n [] b = tt
  AreBelow-Misses n (x ∷ xs) b = (omega (arith, b.0), AreBelow-Misses n xs b.1)

  Misses-AreApart : (q : Cell A) (xs : List (Cell A)) → Misses q.address xs → AreApart xs (q ∷ [])
  Misses-AreApart q xs m = AreApart-sym (q ∷ []) xs (m, tt)

  -- The new node between the parts, before its neighbours know of it.
  abbrev pub new_cell : Heap A → A → Cell A
  new_cell h v = record { address = h.next_address; value = v; delete_flag = null }

  abbrev pub linked_heap : Heap A → A → (next prev : ℕ) → Heap A
  linked_heap h v next prev = record h {
    nodes =
        write (write h.nodes h.next_address (some (node (new_cell h v) null null))) h.next_address
          (some (node (new_cell h v) next prev));
    next_address = h.next_address + 1;
  }

  Linked-linked_heap :
      (h : Heap A) (v : A) (next prev from : ℕ) (cs : List (Cell A)) (stop : ℕ)
      → Misses h.next_address cs
      → Linked h.nodes from cs stop
      → Linked (linked_heap h v next prev).nodes from cs stop
  Linked-linked_heap h v next prev from cs stop m l =
      Linked-write _ h.next_address _ from cs stop m
        (Linked-write h.nodes h.next_address _ from cs stop m l)

  linked-Between :
      (h : Heap A) (l : LinkedList) (v : A) (xs ys : List (Cell A))
      → IsList h l (xs ++ ys)
      → Between (linked_heap h v (first_or null ys) (last_or null xs)).nodes (new_cell h v) xs ys
  linked-Between h l v xs ys i = record {
    placed = omega (arith, i.room);
    here = rw (eq→== h.next_address h.next_address refl);
    before_placed = ArePlaced-left xs ys i.placed;
    before_distinct = AreDistinct-left xs ys i.distinct;
    before_misses = AreBelow-Misses h.next_address xs (AreBelow-left h.next_address xs ys i.below);
    after_placed = ArePlaced-right xs ys i.placed;
    after_distinct = AreDistinct-right xs ys i.distinct;
    after_misses = AreBelow-Misses h.next_address ys (AreBelow-right h.next_address xs ys i.below);
    apart = AreApart-parts xs ys i.distinct;
  }

  -- Couple on that node.
  pub coupled :
      (h : Heap A) (l : LinkedList) (v : A) (xs ys : List (Cell A))
      → IsList h l (xs ++ ys)
      → (f : ℕ → Option (Node A)) × (couple h.next_address
            (linked_heap h v (first_or null ys) (last_or null xs))
          ≡ some (tt, record h { nodes = f; next_address = h.next_address + 1 }))
        × ((m : LinkedList)
            → m.head ≡ first_or null (xs ++ new_cell h v ∷ ys)
            → m.tail ≡ last_or null (xs ++ new_cell h v ∷ ys)
            → m.count ≡ l.count + 1
            → IsList
                (record h { nodes = f; next_address = h.next_address + 1 })
                m
                (xs ++ new_cell h v ∷ ys))
  coupled h l v xs ys i =
      let b = linked-Between h l v xs ys i in
      let q = new_cell h v in
      let (f, run, chain) =
        couple-Linked (linked_heap h v (first_or null ys) (last_or null xs)) q xs ys b
          (last_or null xs) (first_or null ys)
          (Linked-linked_heap h v _ _ null xs (first_or null ys) b.before_misses
            (Linked-left h.nodes null xs ys null i.chain))
          (Linked-linked_heap h v _ _ (last_or null xs) ys null b.after_misses
            (Linked-right h.nodes null xs ys null i.chain)) in
      (
        f,
        run,
        λ m first last count. record {
          head_first = first;
          tail_last = last;
          counts = omega (arith, count, i.counts, length-append xs ys, length-append xs (q ∷ ys));
          chain = chain;
          distinct =
              AreDistinct-append xs (q ∷ ys) b.before_distinct (b.after_misses, b.after_distinct)
                (apart_cons xs b.before_misses b.apart);
          placed = ArePlaced-append xs (q ∷ ys) b.before_placed (b.placed, b.after_placed);
          below =
              AreBelow-append (h.next_address + 1) xs (q ∷ ys)
                (AreBelow-suc h.next_address xs (AreBelow-left h.next_address xs ys i.below))
                (
                  omega arith,
                  AreBelow-suc h.next_address ys (AreBelow-right h.next_address xs ys i.below),
                );
          room = omega arith;
        },
      )
    where
      apart_cons :
          (zs : List (Cell A))
          → Misses h.next_address zs
          → AreApart zs ys
          → AreApart zs (new_cell h v ∷ ys)
      apart_cons [] m a = tt
      apart_cons (z ∷ zs) m a = (((λ e. m.0 (sym e)), a.0), apart_cons zs m.1 a.1)
