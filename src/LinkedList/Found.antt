-- ===== src/LinkedList/Found.antt =====
-- What Find gives of a list, and what it leaves of it.
use yarc.Base.{
  ℕ, zero, suc, ◌+◌, ◌<◌, ◌≡◌, ◌≢◌, refl, sym, Bool, true, false, some, List, [], ◌∷◌, ◌++◌, length,
  All, if◌then◌else◌, ne→==, arith, length-append,
}
use std.Path.{subst}
use yarc.LinkedList.Nodes.{Heap, null, load}
use yarc.LinkedList.Linked.{
  Cell, node, first_or, last_or, Linked, ArePlaced, Linked-right, load-cell,
}
use yarc.LinkedList.Linked.Apart.{ArePlaced-right}
use yarc.LinkedList.Insert.{IsList}
use yarc.LinkedList.Removed.{remove-IsList}
use yarc.LinkedList.{LinkedList, find_loop, find}

module _ {A : Type 0} (predicate : A → Bool) where
  -- The loop passes the nodes that do not fit.
  find_loop-found :
      (h : Heap A) (fuel prev : ℕ) (xs : List (Cell A)) (c : Cell A) (ys : List (Cell A))
      → length xs < fuel
      → ArePlaced (xs ++ c ∷ ys)
      → Linked h.nodes prev (xs ++ c ∷ ys) null
      → All (λ x. predicate x.value ≡ false) xs
      → predicate c.value ≡ true
      → find_loop fuel predicate (first_or null (xs ++ c ∷ ys)) h ≡ some (c.address, h)
  unfolding find_loop
  find_loop-found h zero prev xs c ys enough p l misfits fits = absurd (omega (arith, enough))
  find_loop-found h (suc fuel) prev [] c ys enough p l misfits fits =
      rw (ne→== c.address null p.0, load-cell h c (first_or null ys) prev p.0 l.0, fits) refl
  find_loop-found h (suc fuel) prev (x ∷ xs) c ys enough p l misfits fits =
      rw
        (
          ne→== x.address null p.0,
          load-cell h x (first_or null (xs ++ c ∷ ys)) prev p.0 l.0,
          misfits.0,
        )
        (find_loop-found h fuel x.address xs c ys (omega (arith, enough)) p.1 l.1 misfits.1 fits)

  find_loop-absent :
      (h : Heap A) (fuel prev : ℕ) (xs : List (Cell A))
      → length xs < fuel
      → ArePlaced xs
      → Linked h.nodes prev xs null
      → All (λ x. predicate x.value ≡ false) xs
      → find_loop fuel predicate (first_or null xs) h ≡ some (null, h)
  unfolding find_loop
  find_loop-absent h zero prev xs enough p l misfits = absurd (omega (arith, enough))
  find_loop-absent h (suc fuel) prev [] enough p l misfits = refl
  find_loop-absent h (suc fuel) prev (x ∷ xs) enough p l misfits =
      rw (ne→== x.address null p.0, load-cell h x (first_or null xs) prev p.0 l.0, misfits.0)
        (find_loop-absent h fuel x.address xs (omega (arith, enough)) p.1 l.1 misfits.1)

  module _ (default : A) where
    -- Find gives the value of the first node of a list that fits, and leaves the list as it was, or
    -- without this node where it shall be removed.
    pub find-IsList :
        (remove_if_found : Bool) (h : Heap A) (l : LinkedList) (xs : List (Cell A)) (c : Cell A)
        (ys : List (Cell A))
        → IsList h l (xs ++ c ∷ ys)
        → All (λ x. predicate x.value ≡ false) xs
        → predicate c.value ≡ true
        → (m : LinkedList) × (g : Heap A) × (find predicate default remove_if_found l h
            ≡ some ((c.value, m), g))
          × IsList g m (xs ++ (if remove_if_found then ys else c ∷ ys))
    unfolding find
    find-IsList remove_if_found h l xs c ys i misfits fits =
        let enough : length xs < l.count + 1 = omega (arith, i.counts, length-append xs (c ∷ ys)) in
        let placed = (ArePlaced-right xs (c ∷ ys) i.placed).0 in
        let here =
          load-cell h c (first_or null ys) (last_or null xs) placed
            (Linked-right h.nodes null xs (c ∷ ys) null i.chain).0 in
        let found =
          subst (λ (a : ℕ). find_loop (l.count + 1) predicate a h ≡ some (c.address, h))
            (sym i.head_first)
            (find_loop-found h (l.count + 1) null xs c ys enough i.placed i.chain misfits fits) in
        ends remove_if_found placed here found
      where
        ends :
            (r : Bool)
            → c.address ≢ null
            → load c.address h ≡ some (node c (first_or null ys) (last_or null xs), h)
            → find_loop (l.count + 1) predicate l.head h ≡ some (c.address, h)
            → (m : LinkedList) × (g : Heap A) × (find predicate default r l h
                ≡ some ((c.value, m), g))
              × IsList g m (xs ++ (if r then ys else c ∷ ys))
        ends false placed here found = (l, h, rw (found, ne→== c.address null placed, here) refl, i)
        ends true placed here found =
            let (m, g, run, done) = remove-IsList h l xs c ys i in
            (m, g, rw (found, ne→== c.address null placed, here, run) refl, done)

    pub find-absent :
        (remove_if_found : Bool) (h : Heap A) (l : LinkedList) (xs : List (Cell A))
        → IsList h l xs
        → All (λ x. predicate x.value ≡ false) xs
        → find predicate default remove_if_found l h ≡ some ((default, l), h)
    unfolding find
    find-absent remove_if_found h l xs i misfits =
        let enough : length xs < l.count + 1 = omega (arith, i.counts) in
        let absent =
          subst (λ (a : ℕ). find_loop (l.count + 1) predicate a h ≡ some (null, h))
            (sym i.head_first)
            (find_loop-absent h (l.count + 1) null xs enough i.placed i.chain misfits) in
        rw absent refl
