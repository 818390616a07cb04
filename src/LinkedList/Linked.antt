-- ===== src/LinkedList/Linked.antt =====
-- The nodes of a list: a chain from null to null through distinct addresses.
pub mod Apart
pub mod Couple
use yarc.Base.{
  ℕ, zero, suc, ◌+◌, ◌≤◌, ◌<◌, ◌≡◌, ◌≢◌, refl, sym, ap, ◌∙◌, Bool, true, false, Option, none, some,
  List, [], ◌∷◌, ◌++◌, length, All, ◌==◌, if◌then◌else◌, ne→==, eq→==, arith,
}
use yarc.LinkedList.Nodes.{
  Node, Heap, Cmd, pure, and_then, null, write, load, store, set_next, set_prev, couple, decouple,
}

-- A node of a list, without its links.
pub record Cell (A : Type 0) : Type 0 where
  pub address : ℕ
  pub value : A
  pub delete_flag : ℕ

module _ {A : Type 0} where
  abbrev pub node : Cell A → (next prev : ℕ) → Node A
  node c next prev = record {
    value = c.value;
    next = next;
    prev = prev;
    delete_flag = c.delete_flag;
  }

  abbrev pub first_or : ℕ → List (Cell A) → ℕ
  first_or stop [] = stop
  first_or stop (c ∷ cs) = c.address

  abbrev pub last_or : ℕ → List (Cell A) → ℕ
  last_or prev [] = prev
  last_or prev (c ∷ cs) = last_or c.address cs

  -- A chain of nodes between `prev` and `stop`.
  abbrev pub Linked : (ℕ → Option (Node A)) → ℕ → List (Cell A) → ℕ → Type 0
  Linked f prev [] stop = Unit
  Linked f prev (c ∷ cs) stop =
      (f c.address ≡ some (node c (first_or stop cs) prev)) × Linked f c.address cs stop

  -- No node is at the address.
  abbrev pub Misses : ℕ → List (Cell A) → Type 0
  Misses a [] = Unit
  Misses a (c ∷ cs) = (a ≢ c.address) × Misses a cs

  abbrev pub AreDistinct : List (Cell A) → Type 0
  AreDistinct [] = Unit
  AreDistinct (c ∷ cs) = Misses c.address cs × AreDistinct cs

  -- No address is null.
  abbrev pub ArePlaced : List (Cell A) → Type 0
  ArePlaced [] = Unit
  ArePlaced (c ∷ cs) = (c.address ≢ null) × ArePlaced cs

  abbrev pub SameOutside : List (Cell A) → (f g : ℕ → Option (Node A)) → Type 0
  SameOutside cs f g = (a : ℕ) → Misses a cs → g a ≡ f a

  first_or-append :
      (stop : ℕ) (xs ys : List (Cell A)) → first_or stop (xs ++ ys) ≡ first_or (first_or stop ys) xs
  first_or-append stop [] ys = refl
  first_or-append stop (x ∷ xs) ys = refl

  pub last_or-append :
      (prev : ℕ) (xs ys : List (Cell A)) → last_or prev (xs ++ ys) ≡ last_or (last_or prev xs) ys
  last_or-append prev [] ys = refl
  last_or-append prev (x ∷ xs) ys = last_or-append x.address xs ys

  pub Misses-append :
      (a : ℕ) (xs ys : List (Cell A)) → Misses a xs → Misses a ys → Misses a (xs ++ ys)
  Misses-append a [] ys h k = k
  Misses-append a (x ∷ xs) ys h k = (h.0, Misses-append a xs ys h.1 k)

  pub Misses-left : (a : ℕ) (xs ys : List (Cell A)) → Misses a (xs ++ ys) → Misses a xs
  Misses-left a [] ys h = tt
  Misses-left a (x ∷ xs) ys h = (h.0, Misses-left a xs ys h.1)

  pub Misses-right : (a : ℕ) (xs ys : List (Cell A)) → Misses a (xs ++ ys) → Misses a ys
  Misses-right a [] ys h = h
  Misses-right a (x ∷ xs) ys h = Misses-right a xs ys h.1

  pub Linked-same :
      (f g : ℕ → Option (Node A)) (prev : ℕ) (cs : List (Cell A)) (stop : ℕ)
      → Linked f prev cs stop
      → All (λ c. g c.address ≡ f c.address) cs
      → Linked g prev cs stop
  Linked-same f g prev [] stop h same = tt
  Linked-same f g prev (c ∷ cs) stop h same =
      (same.0 ∙ h.0, Linked-same f g c.address cs stop h.1 same.1)

  -- A change elsewhere.
  pub Linked-write :
      (f : ℕ → Option (Node A)) (a : ℕ) (x : Option (Node A)) (prev : ℕ) (cs : List (Cell A))
      (stop : ℕ)
      → Misses a cs
      → Linked f prev cs stop
      → Linked (write f a x) prev cs stop
  Linked-write f a x prev [] stop out h = tt
  Linked-write f a x prev (c ∷ cs) stop out h = (
    rw (ne→== c.address a (λ e. out.0 (sym e))) h.0,
    Linked-write f a x c.address cs stop out.1 h.1,
  )

  pub Linked-append :
      (f : ℕ → Option (Node A)) (prev : ℕ) (xs ys : List (Cell A)) (stop : ℕ)
      → Linked f prev xs (first_or stop ys)
      → Linked f (last_or prev xs) ys stop
      → Linked f prev (xs ++ ys) stop
  Linked-append f prev [] ys stop h k = k
  Linked-append f prev (x ∷ xs) ys stop h k =
      (rw (first_or-append stop xs ys) h.0, Linked-append f x.address xs ys stop h.1 k)

  pub Linked-left :
      (f : ℕ → Option (Node A)) (prev : ℕ) (xs ys : List (Cell A)) (stop : ℕ)
      → Linked f prev (xs ++ ys) stop
      → Linked f prev xs (first_or stop ys)
  Linked-left f prev [] ys stop h = tt
  Linked-left f prev (x ∷ xs) ys stop h =
      (rw (← first_or-append stop xs ys) h.0, Linked-left f x.address xs ys stop h.1)

  pub Linked-right :
      (f : ℕ → Option (Node A)) (prev : ℕ) (xs ys : List (Cell A)) (stop : ℕ)
      → Linked f prev (xs ++ ys) stop
      → Linked f (last_or prev xs) ys stop
  Linked-right f prev [] ys stop h = h
  Linked-right f prev (x ∷ xs) ys stop h = Linked-right f x.address xs ys stop h.1

  pub load-cell :
      (h : Heap A) (c : Cell A) (next prev : ℕ)
      → c.address ≢ null
      → h.nodes c.address ≡ some (node c next prev)
      → load c.address h ≡ some (node c next prev, h)
  unfolding load
  load-cell h c next prev placed e = rw (ne→== c.address null placed, e)

  -- The first node gets another predecessor.
  pub set_prev-Linked :
      (h : Heap A) (prev prev' : ℕ) (ys : List (Cell A))
      → ArePlaced ys
      → AreDistinct ys
      → Linked h.nodes prev ys null
      → (f : ℕ → Option (Node A)) × ((if first_or null ys == null
              then pure tt
              else set_prev (first_or null ys) prev')
            h
          ≡ some (tt, record h { nodes = f }))
        × Linked f prev' ys null
        × SameOutside ys h.nodes f
  unfolding set_prev store
  set_prev-Linked h prev prev' [] p d l = (h.nodes, refl, tt, λ a out. refl)
  set_prev-Linked h prev prev' (c ∷ cs) p d l = (
    write h.nodes c.address (some (node c (first_or null cs) prev')),
    rw (ne→== c.address null p.0, load-cell h c (first_or null cs) prev p.0 l.0),
    (
      rw (eq→== c.address c.address refl),
      Linked-write h.nodes c.address _ c.address cs null d.0 l.1,
    ),
    λ a out. rw (ne→== a c.address out.0),
  )

  -- The last node gets another successor.
  last-Linked :
      (h : Heap A) (prev next' stop : ℕ) (c : Cell A) (cs : List (Cell A))
      → ArePlaced (c ∷ cs)
      → AreDistinct (c ∷ cs)
      → Linked h.nodes prev (c ∷ cs) stop
      → (f : ℕ → Option (Node A)) × (set_next (last_or c.address cs) next' h
          ≡ some (tt, record h { nodes = f }))
        × Linked f prev (c ∷ cs) next'
        × SameOutside (c ∷ cs) h.nodes f
        × (last_or c.address cs ≢ null)
  unfolding set_next store
  last-Linked h prev next' stop c [] p d l = (
    write h.nodes c.address (some (node c next' prev)),
    rw (load-cell h c stop prev p.0 l.0),
    (rw (eq→== c.address c.address refl), tt),
    (λ a out. rw (ne→== a c.address out.0)),
    p.0,
  )
  last-Linked h prev next' stop c (c' ∷ cs) p d l =
      let (f, run, chain, same, placed) = last-Linked h c.address next' stop c' cs p.1 d.1 l.1 in
      (f, run, (same c.address d.0 ∙ l.0, chain), (λ a out. same a out.1), placed)

  pub set_next-Linked :
      (h : Heap A) (next' stop : ℕ) (xs : List (Cell A))
      → ArePlaced xs
      → AreDistinct xs
      → Linked h.nodes null xs stop
      → (f : ℕ → Option (Node A)) × ((if last_or null xs == null
              then pure tt
              else set_next (last_or null xs) next')
            h
          ≡ some (tt, record h { nodes = f }))
        × Linked f null xs next'
        × SameOutside xs h.nodes f
  set_next-Linked h next' stop [] p d l = (h.nodes, refl, tt, λ a out. refl)
  set_next-Linked h next' stop (c ∷ cs) p d l =
      let (f, run, chain, same, placed) = last-Linked h null next' stop c cs p d l in
      (f, rw (ne→== (last_or c.address cs) null placed) run, chain, same)
