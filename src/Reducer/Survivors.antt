-- ===== src/Reducer/Survivors.antt =====
-- ReduceList keeps the objects that do not ask for their deletion, up to the one that stops it.
use yarc.Base.{
  ℕ, zero, suc, ◌<◌, ◌≡◌, ◌≢◌, ◌⊎◌, refl, sym, ap, ◌∙◌, Bool, true, false, Bool-cases, Option, some,
  List, [], ◌∷◌, ◌++◌, length, All, ◌==◌, if◌then◌else◌, inl, inr, ne→==, eq→==, ==→eq, arith,
  append_assoc,
}
use std.Path.{subst}
use yarc.LinkedList.Nodes.{Node, Heap, pure, and_then, null, write, store}
use yarc.LinkedList.Linked.{Cell, node, first_or, last_or, Linked-right, Linked-same, load-cell}
use yarc.LinkedList.Linked.Apart.{ArePlaced-right}
use yarc.LinkedList.Insert.{IsList}
use yarc.LinkedList.Removed.{remove-IsList}
use yarc.LinkedList.{LinkedList}
use yarc.Reducer.{
  ReductionResult, result_none, result_delete, result_bail, Reduce, set_delete_flag, write_flag,
  write_other_flag, read_flag, is_bail, remove_reduced, go_on, reduce_one, reduce_loop, reduce_list,
}

module _ {A : Type 0} where
  -- The same nodes.
  IsList-same :
      (h g : Heap A) (l : LinkedList) (cs : List (Cell A))
      → ((a : ℕ) → g.nodes a ≡ h.nodes a)
      → g.next_address ≡ h.next_address
      → IsList h l cs
      → IsList g l cs
  IsList-same h g l cs same next i = record {
    head_first = i.head_first;
    tail_last = i.tail_last;
    counts = i.counts;
    chain = Linked-same h.nodes g.nodes null cs null i.chain (everywhere cs);
    distinct = i.distinct;
    placed = i.placed;
    below = rw next i.below;
    room = rw next i.room;
  }
    where
      everywhere : (ds : List (Cell A)) → All (λ d. g.nodes d.address ≡ h.nodes d.address) ds
      everywhere [] = tt
      everywhere (d ∷ ds) = (same d.address, everywhere ds)

  write-same :
      (f : ℕ → Option (Node A)) (a : ℕ) (x y : Option (Node A))
      → f a ≡ y
      → (b : ℕ) → write (write f a x) a y b ≡ f b
  write-same f a x y e b = elim (Bool-cases (b == a)) [
    | inl t ↦ rw t (sym e ∙ ap f (sym (==→eq b a t)))
    | inr t ↦ rw t refl
  ]

module _ {A W : Type 0} (step : A → W → ReductionResult × W) where
  -- What is left of the objects, and of all else.
  unfoldable pub survivors : List (Cell A) → W → List (Cell A) × W
  survivors [] w = ([], w)
  survivors (c ∷ cs) w =
      let r = step c.value w in
      let rest = survivors cs r.1 in
      elim r.0 [
        | result_none ↦ (c ∷ rest.0, rest.1)
        | result_delete ↦ rest
        | result_bail ↦ (c ∷ cs, r.1)
      ]

  module _ (c : Cell A) (cs : List (Cell A)) (w : W) where
    survivors-none :
        (step c.value w).0 ≡ result_none
        → survivors (c ∷ cs) w
          ≡ (c ∷ (survivors cs (step c.value w).1).0, (survivors cs (step c.value w).1).1)
    unfolding survivors
    survivors-none e = rw (survivors, e) refl

    survivors-delete :
        (step c.value w).0 ≡ result_delete → survivors (c ∷ cs) w ≡ survivors cs (step c.value w).1
    unfolding survivors
    survivors-delete e = rw (survivors, e) refl

    survivors-bail :
        (step c.value w).0 ≡ result_bail → survivors (c ∷ cs) w ≡ (c ∷ cs, (step c.value w).1)
    unfolding survivors
    survivors-bail e = rw (survivors, e) refl

  -- Reduce changes neither the list nor its nodes.
  abbrev pub IsQuiet : Reduce A W → Type 0
  IsQuiet reduce =
      (v : A) (l : LinkedList) (w : W) (h : Heap A)
      → reduce v l w h ≡ some (((step v w).0, l, (step v w).1), h)

  module _ (reduce : Reduce A W) (local : ℕ) (quiet : IsQuiet reduce) where
    -- The heap after the call, when the node has its flag again.
    abbrev marked : Heap A → Cell A → (next prev : ℕ) → (flags : ℕ → Bool) → Heap A
    marked h c next prev flags = record h {
      nodes =
          write (write h.nodes c.address (some (record (node c next prev) { delete_flag = local })))
            c.address (some (node c next prev));
      flags = flags;
    }

    reduce_one-marked :
        (h : Heap A) (l : LinkedList) (w : W) (c : Cell A) (next prev : ℕ)
        → c.address ≢ null
        → h.nodes c.address ≡ some (node c next prev)
        → (flags : ℕ → Bool) × (reduce_one reduce local c.address l w h
            ≡ and_then
                (go_on (step c.value w).0 false c.address l (marked h c next prev flags))
                (λ o. pure (o.0, o.1, o.2, (step c.value w).1)))
    unfolding reduce_one set_delete_flag write_flag write_other_flag read_flag store
    reduce_one-marked h l w c next prev placed here =
        let lowered = record h { flags = λ a. if a == local then false else h.flags a } in
        let c' : Cell A = record c { delete_flag = local } in
        let flagged = record lowered {
          nodes = write h.nodes c.address (some (node c' next prev));
        } in
        (
          (λ a.
              if c.delete_flag == null
              then lowered.flags a
              else if a == c.delete_flag
              then false
              else lowered.flags a),
          rw
              (
                load-cell lowered c next prev placed here,
                load-cell lowered c next prev placed here,
                quiet c.value l w flagged,
                load-cell flagged c' next prev placed (rw (eq→== c.address c.address refl) refl),
                eq→== local local refl,
              )
              refl,
        )

    marked-IsList :
        (h : Heap A) (l : LinkedList) (xs : List (Cell A)) (c : Cell A) (cs : List (Cell A))
        (flags : ℕ → Bool)
        → IsList h l (xs ++ c ∷ cs)
        → IsList (marked h c (first_or null cs) (last_or null xs) flags) l (xs ++ c ∷ cs)
    marked-IsList h l xs c cs flags i =
        IsList-same h (marked h c (first_or null cs) (last_or null xs) flags) l (xs ++ c ∷ cs)
          (write-same h.nodes c.address _ _ (Linked-right h.nodes null xs (c ∷ cs) null i.chain).0)
          refl i

    module _ (h : Heap A) (l : LinkedList) (w : W) (xs : List (Cell A)) (c : Cell A)
        (cs : List (Cell A)) (i : IsList h l (xs ++ c ∷ cs)) where
      c-placed : c.address ≢ null
      c-placed = (ArePlaced-right xs (c ∷ cs) i.placed).0

      c-here : h.nodes c.address ≡ some (node c (first_or null cs) (last_or null xs))
      c-here = (Linked-right h.nodes null xs (c ∷ cs) null i.chain).0

      pass-none :
          (step c.value w).0 ≡ result_none
          → (g : Heap A) × (reduce_one reduce local c.address l w h
              ≡ some ((true, first_or null cs, l, (step c.value w).1), g))
            × IsList g l (xs ++ c ∷ cs)
      unfolding go_on is_bail remove_reduced
      pass-none e =
          let (flags, run) =
            reduce_one-marked h l w c (first_or null cs) (last_or null xs) c-placed c-here in
          let g = marked h c (first_or null cs) (last_or null xs) flags in
          let j = marked-IsList h l xs c cs flags i in
          let here = (Linked-right g.nodes null xs (c ∷ cs) null j.chain).0 in
          (g, rw (run, e, load-cell g c (first_or null cs) (last_or null xs) c-placed here) refl, j)

      pass-bail :
          (step c.value w).0 ≡ result_bail
          → (g : Heap A) × (reduce_one reduce local c.address l w h
              ≡ some ((false, null, l, (step c.value w).1), g))
            × IsList g l (xs ++ c ∷ cs)
      unfolding go_on is_bail
      pass-bail e =
          let (flags, run) =
            reduce_one-marked h l w c (first_or null cs) (last_or null xs) c-placed c-here in
          (
            marked h c (first_or null cs) (last_or null xs) flags,
            rw (run, e) refl,
            marked-IsList h l xs c cs flags i,
          )

      pass-delete :
          (step c.value w).0 ≡ result_delete
          → (m : LinkedList) × (g : Heap A) × (reduce_one reduce local c.address l w h
              ≡ some ((true, first_or null cs, m, (step c.value w).1), g))
            × IsList g m (xs ++ cs)
      unfolding go_on is_bail remove_reduced
      pass-delete e =
          let (flags, run) =
            reduce_one-marked h l w c (first_or null cs) (last_or null xs) c-placed c-here in
          let g = marked h c (first_or null cs) (last_or null xs) flags in
          let j = marked-IsList h l xs c cs flags i in
          let here = (Linked-right g.nodes null xs (c ∷ cs) null j.chain).0 in
          let (m, g', run', done) = remove-IsList g l xs c cs j in
          (
            m,
            g',
            rw (run, e, load-cell g c (first_or null cs) (last_or null xs) c-placed here, run')
                refl,
            done,
          )

    result-cases :
        (r : ReductionResult) → (r ≡ result_none) ⊎ (r ≡ result_delete) ⊎ (r ≡ result_bail)
    result-cases result_none = inl refl
    result-cases result_delete = inr (inl refl)
    result-cases result_bail = inr (inr refl)

    reduce_loop-Survivors :
        (fuel : ℕ) (h : Heap A) (l : LinkedList) (w : W) (xs ys : List (Cell A))
        → IsList h l (xs ++ ys)
        → length ys < fuel
        → (m : LinkedList) × (g : Heap A) × (reduce_loop reduce local fuel (first_or null ys) l w h
            ≡ some ((m, (survivors ys w).1), g))
          × IsList g m (xs ++ (survivors ys w).0)
    unfolding reduce_loop survivors
    reduce_loop-Survivors zero h l w xs ys i enough = absurd (omega (arith, enough))
    reduce_loop-Survivors (suc fuel) h l w xs [] i enough = (l, h, refl, i)
    reduce_loop-Survivors (suc fuel) h l w xs (c ∷ cs) i enough =
        let not_null = ne→== c.address null (c-placed h l w xs c cs i) in
        elim (result-cases (step c.value w).0) [
          | inl e ↦
              let (g, run, j) = pass-none h l w xs c cs i e in
              let j' : IsList g l ((xs ++ c ∷ []) ++ cs) = rw (append_assoc xs (c ∷ []) cs) j in
              let (m, g', run', done) =
                reduce_loop-Survivors fuel g l (step c.value w).1 (xs ++ c ∷ []) cs j'
                  (omega (arith, enough)) in
              (
                m,
                g',
                rw (survivors-none c cs w e, not_null, run, run') refl,
                rw (survivors-none c cs w e)
                    (rw (append_assoc xs (c ∷ []) (survivors cs (step c.value w).1).0) at done),
              )
          | inr (inl e) ↦
              let (m, g, run, j) = pass-delete h l w xs c cs i e in
              let (m', g', run', done) =
                reduce_loop-Survivors fuel g m (step c.value w).1 xs cs j (omega (arith, enough)) in
              (
                m',
                g',
                rw (survivors-delete c cs w e, not_null, run, run') refl,
                rw (survivors-delete c cs w e) done,
              )
          | inr (inr e) ↦
              let (g, run, j) = pass-bail h l w xs c cs i e in
              (
                l,
                g,
                rw (survivors-bail c cs w e, not_null, run) refl,
                rw (survivors-bail c cs w e) j,
              )
        ]

    -- ReduceList, where no Reduce changes the list and the fuel exceeds its length, calls Reduce on
    -- the objects in order, up to the one that stops it, and keeps all but those that asked for
    -- their deletion.
    pub reduce_list-Survivors :
        (fuel : ℕ) (h : Heap A) (l : LinkedList) (w : W) (cs : List (Cell A))
        → IsList h l cs
        → length cs < fuel
        → (m : LinkedList) × (g : Heap A) × (reduce_list reduce local fuel l w h
            ≡ some ((m, (survivors cs w).1), g))
          × IsList g m (survivors cs w).0
    unfolding reduce_list
    reduce_list-Survivors fuel h l w cs i enough =
        let (m, g, run, done) = reduce_loop-Survivors fuel h l w [] cs i enough in
        (
          m,
          g,
          subst
              (λ (a : ℕ). reduce_loop reduce local fuel a l w h ≡ some ((m, (survivors cs w).1), g))
              (sym i.head_first) run,
          done,
        )
