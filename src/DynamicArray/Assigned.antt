-- ===== src/DynamicArray/Assigned.antt =====
-- An assigned array has the elements of the other.
use yarc.Base.{
  ℕ, zero, suc, ◌≤◌, ◌<◌, ◌≡◌, refl, ap, ◌∙◌, some, List, [], ◌∷◌, length, get_elem?, lt→ltb, arith,
}
use yarc.DynamicArray.{DynamicArray, at, copy_cells, assign}
use yarc.DynamicArray.Growth.{IsValid, max_size, set_count-IsValid, IsCapacity-le}

module _ {A : Type 0} where
  length-copy_cells : (n : ℕ) (xs ys : List A) → length (copy_cells n xs ys) ≡ length ys
  unfolding copy_cells
  length-copy_cells zero xs ys = refl
  length-copy_cells (suc n) [] ys = refl
  length-copy_cells (suc n) (x ∷ xs) [] = refl
  length-copy_cells (suc n) (x ∷ xs) (y ∷ ys) = ap suc (length-copy_cells n xs ys)

  get_elem?-copy_cells :
      (n : ℕ) (xs ys : List A) (i : ℕ)
      → n ≤ length xs
      → n ≤ length ys
      → i < n
      → get_elem? (copy_cells n xs ys) i ≡ get_elem? xs i
  unfolding copy_cells
  get_elem?-copy_cells zero xs ys i h k l = absurd (omega (arith, l))
  get_elem?-copy_cells (suc n) [] ys i h k l = absurd (omega (arith, h))
  get_elem?-copy_cells (suc n) (x ∷ xs) [] i h k l = absurd (omega (arith, k))
  get_elem?-copy_cells (suc n) (x ∷ xs) (y ∷ ys) zero h k l = refl
  get_elem?-copy_cells (suc n) (x ∷ xs) (y ∷ ys) (suc i) h k l =
      get_elem?-copy_cells n xs ys i (omega (arith, h)) (omega (arith, k)) (omega (arith, l))

  pub assign-IsValid :
      (fresh : ℕ → A) (b a : DynamicArray A)
      → IsValid b
      → IsValid a
      → (c : DynamicArray A) × (assign fresh b a ≡ some c)
        × IsValid c
        × (c.count ≡ b.count)
        × ((i : ℕ) → i < b.count → at c i ≡ at b i)
  unfolding assign at
  assign-IsValid fresh b a vb va =
      let (c, run, vc, counts, kept) = set_count-IsValid fresh b.count a va (capacity_bound b vb) in
      let room : b.count ≤ length c.cells = omega (arith, vc.allocated, vc.within, counts) in
      let held : b.count ≤ length b.cells = omega (arith, vb.allocated, vb.within) in
      (
        record c { cells = copy_cells b.count b.cells c.cells },
        rw (assign, run) refl,
        record {
          capacity = vc.capacity;
          within = vc.within;
          allocated = length-copy_cells b.count b.cells c.cells ∙ vc.allocated;
        },
        counts,
        λ i l.
            rw (lt→ltb i c.count (omega (arith, l, counts)), lt→ltb i b.count l)
              (get_elem?-copy_cells b.count b.cells c.cells i held room l),
      )
    where
      capacity_bound : (d : DynamicArray A) → IsValid d → d.count ≤ max_size
      capacity_bound d v = omega (arith, IsCapacity-le d.size v.capacity, v.within)
