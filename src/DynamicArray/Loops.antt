-- ===== src/DynamicArray/Loops.antt =====
-- Loops that write or read the elements of an array one after the other, by operator[].
use yarc.Base.{
  ℕ, zero, suc, ◌+◌, ◌≤◌, ◌<◌, ◌≡◌, ◌≢◌, refl, ap, sym, ◌∙◌, inl, inr, Option, none, some, List, [],
  ◌∷◌, ltb, ◌==◌, if◌then◌else◌, length, get_elem?, lt→ltb, Bool-cases, ==→eq, arith,
}
use yarc.DynamicArray.{DynamicArray, at}
use yarc.DynamicArray.Growth.{IsValid}

module _ {A : Type 0} where
  unfoldable pub set_elem : List A → ℕ → A → List A
  set_elem [] i x = []
  set_elem (y ∷ ys) zero x = x ∷ ys
  set_elem (y ∷ ys) (suc i) x = y ∷ set_elem ys i x

  -- An assignment through operator[]; `none` where its assertion fails.
  unfoldable pub set_at : DynamicArray A → ℕ → A → Option (DynamicArray A)
  unfolding set_elem
  set_at a i x = if ltb i a.count then some (record a { cells = set_elem a.cells i x }) else none

  -- `n` rounds from `i` on that assign to the elements.
  unfoldable pub write_loop : (ℕ → A) → (n : ℕ) → (i : ℕ) → DynamicArray A → Option (DynamicArray A)
  unfolding set_at
  write_loop value zero i a = some a
  write_loop value (suc n) i a = elim (set_at a i (value i)) [
    | none ↦ none
    | some b ↦ write_loop value n (i + 1) b
  ]

  -- `n` rounds from `i` on that read the elements.
  unfoldable pub read_loop : (n : ℕ) → (i : ℕ) → DynamicArray A → Option (List A)
  unfolding at
  read_loop zero i a = some []
  read_loop (suc n) i a = elim (at a i) [
    | none ↦ none
    | some x ↦ elim (read_loop n (i + 1) a) [ none ↦ none | some xs ↦ some (x ∷ xs) ]
  ]

  unfoldable pub values : (ℕ → A) → (n : ℕ) → (i : ℕ) → List A
  values value zero i = []
  values value (suc n) i = value i ∷ values value n (i + 1)

  pub length-set_elem : (xs : List A) (i : ℕ) (x : A) → length (set_elem xs i x) ≡ length xs
  unfolding set_elem
  length-set_elem [] i x = refl
  length-set_elem (y ∷ ys) zero x = refl
  length-set_elem (y ∷ ys) (suc i) x = ap suc (length-set_elem ys i x)

  pub get_elem?-set_elem :
      (xs : List A) (i : ℕ) (x : A) → i < length xs → get_elem? (set_elem xs i x) i ≡ some x
  unfolding set_elem
  get_elem?-set_elem [] i x h = absurd (omega (arith, h))
  get_elem?-set_elem (y ∷ ys) zero x h = refl
  get_elem?-set_elem (y ∷ ys) (suc i) x h = get_elem?-set_elem ys i x (omega (arith, h))

  pub get_elem?-set_elem-ne :
      (xs : List A) (i j : ℕ) (x : A) → j ≢ i → get_elem? (set_elem xs i x) j ≡ get_elem? xs j
  unfolding set_elem
  get_elem?-set_elem-ne [] i j x ne = refl
  get_elem?-set_elem-ne (y ∷ ys) zero zero x ne = absurd (ne refl)
  get_elem?-set_elem-ne (y ∷ ys) zero (suc j) x ne = refl
  get_elem?-set_elem-ne (y ∷ ys) (suc i) zero x ne = refl
  get_elem?-set_elem-ne (y ∷ ys) (suc i) (suc j) x ne =
      get_elem?-set_elem-ne ys i j x (λ e. ne (ap suc e))

  get_elem?-some : (xs : List A) (i : ℕ) → i < length xs → (x : A) × (get_elem? xs i ≡ some x)
  get_elem?-some [] i h = absurd (omega (arith, h))
  get_elem?-some (x ∷ xs) zero h = (x, refl)
  get_elem?-some (x ∷ xs) (suc i) h = get_elem?-some xs i (omega (arith, h))

  pub at-some : (a : DynamicArray A) (i : ℕ) → IsValid a → i < a.count → (x : A) × (at a i ≡ some x)
  unfolding at
  at-some a i v h =
      let (x, e) = get_elem?-some a.cells i (omega (arith, h, v.within, v.allocated)) in
      (x, rw (lt→ltb i a.count h) e)

  -- What an assignment leaves.
  pub set_at-IsValid :
      (a : DynamicArray A) (i : ℕ) (x : A)
      → IsValid a
      → i < a.count
      → (b : DynamicArray A) × (set_at a i x ≡ some b)
        × IsValid b
        × (b.count ≡ a.count)
        × (at b i ≡ some x)
        × ((j : ℕ) → j ≢ i → at b j ≡ at a j)
  unfolding set_at at
  set_at-IsValid a i x v h = (
    record a { cells = set_elem a.cells i x },
    rw (lt→ltb i a.count h) refl,
    record {
      capacity = v.capacity;
      within = v.within;
      allocated = length-set_elem a.cells i x ∙ v.allocated;
    },
    refl,
    rw (lt→ltb i a.count h)
        (get_elem?-set_elem a.cells i x (omega (arith, h, v.within, v.allocated))),
    λ j ne.
        ap (λ (o : Option A). if ltb j a.count then o else none)
          (get_elem?-set_elem-ne a.cells i j x ne),
  )

  pub write_loop-IsValid :
      (value : ℕ → A) (n i : ℕ) (a : DynamicArray A)
      → IsValid a
      → i + n ≤ a.count
      → (b : DynamicArray A) × (write_loop value n i a ≡ some b)
        × IsValid b
        × (b.count ≡ a.count)
        × ((j : ℕ) → j < i → at b j ≡ at a j)
        × ((j : ℕ) → i ≤ j → j < i + n → at b j ≡ some (value j))
  unfolding write_loop
  write_loop-IsValid value zero i a v fits =
      (a, refl, v, refl, λ j p. refl, λ j p q. absurd (omega (arith, p, q)))
  write_loop-IsValid value (suc n) i a v fits =
      let (b, run, vb, counts, new, old) = set_at-IsValid a i (value i) v (omega (arith, fits)) in
      let (c, run', vc, counts', before, written) =
        write_loop-IsValid value n (i + 1) b vb (omega (arith, fits, counts)) in
      (
        c,
        rw (write_loop, run) run',
        vc,
        counts' ∙ counts,
        λ j p. before j (omega (arith, p)) ∙ old j (omega (arith, p)),
        λ j p q. elim (Bool-cases (j == i)) [
          | inl e ↦
              let same = ==→eq j i e in
              before j (omega (arith, same))
              ∙ ap (at b) same
              ∙ new
              ∙ ap (λ k. some (value k)) (sym same)
          | inr e ↦ written j (ground arith) (omega (arith, q))
        ],
      )

  pub read_loop-values :
      (value : ℕ → A) (n i : ℕ) (a : DynamicArray A)
      → ((j : ℕ) → i ≤ j → j < i + n → at a j ≡ some (value j))
      → read_loop n i a ≡ some (values value n i)
  unfolding read_loop values
  read_loop-values value zero i a same = refl
  read_loop-values value (suc n) i a same =
      let rest =
        read_loop-values value n (i + 1) a
          (λ j p q. same j (omega (arith, p)) (omega (arith, q))) in
      rw (read_loop, same i (omega arith) (omega arith), rest) refl
