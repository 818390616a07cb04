-- ===== src/LinkedList/Linked/Apart.antt =====
-- Parts of a list at different addresses.
use yarc.Base.{ℕ, ◌≡◌, sym, Option, List, [], ◌∷◌, ◌++◌, All}
use yarc.LinkedList.Nodes.{Node}
use yarc.LinkedList.Linked.{
  Cell, Misses, AreDistinct, ArePlaced, SameOutside, Misses-append, Misses-left, Misses-right,
}

module _ {A : Type 0} where
  abbrev pub AreApart : List (Cell A) → List (Cell A) → Type 0
  AreApart [] ys = Unit
  AreApart (x ∷ xs) ys = Misses x.address ys × AreApart xs ys

  pub AreDistinct-left : (xs ys : List (Cell A)) → AreDistinct (xs ++ ys) → AreDistinct xs
  AreDistinct-left [] ys d = tt
  AreDistinct-left (x ∷ xs) ys d = (Misses-left x.address xs ys d.0, AreDistinct-left xs ys d.1)

  pub AreDistinct-right : (xs ys : List (Cell A)) → AreDistinct (xs ++ ys) → AreDistinct ys
  AreDistinct-right [] ys d = d
  AreDistinct-right (x ∷ xs) ys d = AreDistinct-right xs ys d.1

  pub AreApart-parts : (xs ys : List (Cell A)) → AreDistinct (xs ++ ys) → AreApart xs ys
  AreApart-parts [] ys d = tt
  AreApart-parts (x ∷ xs) ys d = (Misses-right x.address xs ys d.0, AreApart-parts xs ys d.1)

  pub AreDistinct-append :
      (xs ys : List (Cell A))
      → AreDistinct xs
      → AreDistinct ys
      → AreApart xs ys
      → AreDistinct (xs ++ ys)
  AreDistinct-append [] ys d e a = e
  AreDistinct-append (x ∷ xs) ys d e a =
      (Misses-append x.address xs ys d.0 a.0, AreDistinct-append xs ys d.1 e a.1)

  AreApart-nil : (ys : List (Cell A)) → AreApart ys []
  AreApart-nil [] = tt
  AreApart-nil (y ∷ ys) = (tt, AreApart-nil ys)

  AreApart-cons :
      (x : Cell A) (ys xs : List (Cell A))
      → Misses x.address ys
      → AreApart ys xs
      → AreApart ys (x ∷ xs)
  AreApart-cons x [] xs m a = tt
  AreApart-cons x (y ∷ ys) xs m a = (((λ e. m.0 (sym e)), a.0), AreApart-cons x ys xs m.1 a.1)

  pub AreApart-sym : (xs ys : List (Cell A)) → AreApart xs ys → AreApart ys xs
  AreApart-sym [] ys a = AreApart-nil ys
  AreApart-sym (x ∷ xs) ys a = AreApart-cons x ys xs a.0 (AreApart-sym xs ys a.1)

  pub ArePlaced-left : (xs ys : List (Cell A)) → ArePlaced (xs ++ ys) → ArePlaced xs
  ArePlaced-left [] ys p = tt
  ArePlaced-left (x ∷ xs) ys p = (p.0, ArePlaced-left xs ys p.1)

  pub ArePlaced-right : (xs ys : List (Cell A)) → ArePlaced (xs ++ ys) → ArePlaced ys
  ArePlaced-right [] ys p = p
  ArePlaced-right (x ∷ xs) ys p = ArePlaced-right xs ys p.1

  pub ArePlaced-append :
      (xs ys : List (Cell A)) → ArePlaced xs → ArePlaced ys → ArePlaced (xs ++ ys)
  ArePlaced-append [] ys p q = q
  ArePlaced-append (x ∷ xs) ys p q = (p.0, ArePlaced-append xs ys p.1 q)

  -- What a change of `ys` leaves of `xs`.
  pub AreApart-same :
      (f g : ℕ → Option (Node A)) (xs ys : List (Cell A))
      → SameOutside ys f g
      → AreApart xs ys
      → All (λ c. g c.address ≡ f c.address) xs
  AreApart-same f g [] ys same a = tt
  AreApart-same f g (x ∷ xs) ys same a = (same x.address a.0, AreApart-same f g xs ys same a.1)
