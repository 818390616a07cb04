-- ===== src/LinkedList/Linked/Couple.antt =====
-- Couple joins a node to its neighbours, and Decouple joins these to each other.
use yarc.Base.{ℕ, ◌≡◌, ◌≢◌, ◌∙◌, Option, some, List, ◌∷◌, ◌++◌}
use yarc.LinkedList.Nodes.{Node, Heap, null, couple, decouple}
use yarc.LinkedList.Linked.{
  Cell, node, first_or, last_or, Linked, Misses, AreDistinct, ArePlaced, Linked-same, Linked-append,
  load-cell, set_prev-Linked, set_next-Linked,
}
use yarc.LinkedList.Linked.Apart.{AreApart, AreApart-sym, AreApart-same}

-- A node between the two parts of a list, none of them at the address of another.
pub record Between {A : Type 0} (f : ℕ → Option (Node A)) (q : Cell A) (xs ys : List (Cell A))
    : Type 0 where
  pub placed : q.address ≢ null
  pub here : f q.address ≡ some (node q (first_or null ys) (last_or null xs))
  pub before_placed : ArePlaced xs
  pub before_distinct : AreDistinct xs
  pub before_misses : Misses q.address xs
  pub after_placed : ArePlaced ys
  pub after_distinct : AreDistinct ys
  pub after_misses : Misses q.address ys
  pub apart : AreApart xs ys

module _ {A : Type 0} (h : Heap A) (q : Cell A) (xs ys : List (Cell A))
    (b : Between h.nodes q xs ys) where
  -- The parts end in anything where they meet the node.
  pub couple-Linked :
      (prev stop : ℕ)
      → Linked h.nodes null xs stop
      → Linked h.nodes prev ys null
      → (f : ℕ → Option (Node A)) × (couple q.address h ≡ some (tt, record h { nodes = f }))
        × Linked f null (xs ++ q ∷ ys) null
  unfolding couple
  couple-Linked prev stop left right =
      let (f, run, right', same) =
        set_prev-Linked h prev q.address ys b.after_placed b.after_distinct right in
      let still : f q.address ≡ some (node q (first_or null ys) (last_or null xs)) =
        same q.address b.after_misses ∙ b.here in
      let left' =
        Linked-same h.nodes f null xs stop left (AreApart-same h.nodes f xs ys same b.apart) in
      let (g, run', left'', same') =
        set_next-Linked (record h { nodes = f }) q.address stop xs b.before_placed b.before_distinct
          left' in
      (
        g,
        rw (
          load-cell h q (first_or null ys) (last_or null xs) b.placed b.here,
          run,
          load-cell (record h { nodes = f }) q (first_or null ys) (last_or null xs) b.placed still,
          run',
        ),
        Linked-append g null xs (q ∷ ys) null left'' (
          same' q.address b.before_misses ∙ still,
          Linked-same f g q.address ys null right'
              (AreApart-same f g ys xs same' (AreApart-sym xs ys b.apart)),
        ),
      )

  pub decouple-Linked :
      (prev stop : ℕ)
      → Linked h.nodes null xs stop
      → Linked h.nodes prev ys null
      → (f : ℕ → Option (Node A)) × (decouple q.address h ≡ some (tt, record h { nodes = f }))
        × (f q.address ≡ some (node q (first_or null ys) (last_or null xs)))
        × Linked f null (xs ++ ys) null
  unfolding decouple
  decouple-Linked prev stop left right =
      let (f, run, right', same) =
        set_prev-Linked h prev (last_or null xs) ys b.after_placed b.after_distinct right in
      let still : f q.address ≡ some (node q (first_or null ys) (last_or null xs)) =
        same q.address b.after_misses ∙ b.here in
      let left' =
        Linked-same h.nodes f null xs stop left (AreApart-same h.nodes f xs ys same b.apart) in
      let (g, run', left'', same') =
        set_next-Linked (record h { nodes = f }) (first_or null ys) stop xs b.before_placed
          b.before_distinct left' in
      (
        g,
        rw (
          load-cell h q (first_or null ys) (last_or null xs) b.placed b.here,
          run,
          load-cell (record h { nodes = f }) q (first_or null ys) (last_or null xs) b.placed still,
          run',
        ),
        same' q.address b.before_misses ∙ still,
        Linked-append g null xs ys null left'' (
            Linked-same f g (last_or null xs) ys null right'
              (AreApart-same f g ys xs same' (AreApart-sym xs ys b.apart))),
      )
