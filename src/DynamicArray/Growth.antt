-- ===== src/DynamicArray/Growth.antt =====
-- The sizes that SetCount gives an array, what it keeps of the elements, and where its loop ends.
use native.Mathlib.Nat.{pow-suc, one-le-pow}
use yarc.Base.{
  ℕ, zero, suc, ◌+◌, ◌-◌, ◌*◌, ◌%◌, ◌^◌, ◌≤◌, ◌<◌, ◌≡◌, refl, ap, ◌⊎◌, inl, inr, none, some, ◌++◌,
  ltb, ◌==◌, if◌then◌else◌, u32_mod, length, length-append, arith, Bool-cases, lt→ltb,
  get_elem?-append,
}
use yarc.DynamicArray.{DynamicArray, grow_size, fresh_cells, set_count, at}

abbrev pub max_size : ℕ
max_size = 0x80000000

-- A size in the memory of an array: 0 or a power of two up to 2 ^ 31, here by its distance to it.
abbrev pub IsCapacity : ℕ → Type 0
IsCapacity size = (size ≡ 0) ⊎ ((j : ℕ) × (j < 32) × (size * 2 ^ j ≡ max_size))

pub record IsValid {A : Type 0} (a : DynamicArray A) : Type 0 where
  pub capacity : IsCapacity a.size
  pub within : a.count ≤ a.size
  pub allocated : length a.cells ≡ a.size

double_capacity : (size j : ℕ) → size * 2 ^ suc j ≡ max_size → size * 2 * 2 ^ j ≡ max_size
double_capacity size j h = omega (arith, ap (λ (t : ℕ). size * t) (pow-suc 2 j))

size-le-max : (size j : ℕ) → size * 2 ^ j ≡ max_size → size ≤ max_size
size-le-max size j h = grind (arith, one-le-pow j 2)

pub IsCapacity-le : (size : ℕ) → IsCapacity size → size ≤ max_size
IsCapacity-le size (inl e) = omega (arith, e)
IsCapacity-le size (inr (j, b, e)) = size-le-max size j e

-- From a power of two the loop ends at a power of two with room for the count, and less than twice
-- the room that it needs.
abbrev Grown : ℕ → ℕ → ℕ → Type 0
Grown size n m = IsCapacity m × (n ≤ m) × (size ≤ m) × ((m ≡ size) ⊎ (m < 2 * n))

pub grow_size-Grown :
    (j fuel size n : ℕ)
    → j < fuel
    → j < 32
    → size * 2 ^ j ≡ max_size
    → n ≤ max_size
    → (m : ℕ) × (grow_size fuel size n ≡ some m) × (Grown size n m)
unfolding grow_size
grow_size-Grown j zero size n h b e k = absurd (omega arith)
grow_size-Grown zero (suc fuel) size n h b e k =
    (size, ground arith, (inr (0, omega arith, e), omega arith, omega arith, inl refl))
grow_size-Grown (suc j) (suc fuel) size n h b e k =
    let twice = double_capacity size j e in
    let fits : size * 2 % u32_mod ≡ size * 2 = omega (arith, size-le-max (size * 2) j twice) in
    elim (Bool-cases (ltb size n)) [
      | inl more ↦
          let (m, run, g) =
            grow_size-Grown j fuel (size * 2) n (omega arith) (omega arith) twice k in
          (m, rw (more, fits) run, (g.0, g.1, omega arith, inr (ground arith)))
      | inr done ↦ (size, rw done, (inr (suc j, b, e), ground arith, omega arith, inl refl))
    ]

-- Past 2 ^ 31 the size wraps around to 0 and stays there: the loop never ends.
pub grow_size_hangs :
    (fuel size n : ℕ) → IsCapacity size → max_size < n → grow_size fuel size n ≡ none
unfolding grow_size
grow_size_hangs zero size n c h = refl
grow_size_hangs (suc fuel) size n (inl e) h =
    let stays : size * 2 % u32_mod ≡ 0 = omega arith in
    rw (lt→ltb size n (omega arith), stays) (grow_size_hangs fuel 0 n (inl refl) h)
grow_size_hangs (suc fuel) size n (inr (zero, b, e)) h =
    let wraps : size * 2 % u32_mod ≡ 0 = omega arith in
    rw (lt→ltb size n (omega arith), wraps) (grow_size_hangs fuel 0 n (inl refl) h)
grow_size_hangs (suc fuel) size n (inr (suc j, b, e)) h =
    let twice = double_capacity size j e in
    let small = size-le-max (size * 2) j twice in
    let fits : size * 2 % u32_mod ≡ size * 2 = omega (arith, small) in
    rw (lt→ltb size n (omega arith), fits)
      (grow_size_hangs fuel (size * 2) n (inr (j, omega arith, twice)) h)

-- The size from which SetCount starts to double.
abbrev pub first_size : ℕ → ℕ
first_size size = if size == 0 then 1 else size

first_size-IsCapacity :
    (size : ℕ) → IsCapacity size → (j : ℕ) × (j < 32) × (first_size size * 2 ^ j ≡ max_size)
first_size-IsCapacity size (inl e) = (31, omega arith, ground arith)
first_size-IsCapacity size (inr (j, b, e)) = (j, b, ground arith)

module _ {A : Type 0} (fresh : ℕ → A) where
  pub length-fresh_cells : (i n : ℕ) → length (fresh_cells fresh i n) ≡ n
  unfolding fresh_cells
  length-fresh_cells i zero = refl
  length-fresh_cells i (suc n) = ap suc (length-fresh_cells (i + 1) n)

  -- SetCount up to 2 ^ 31 on a valid array returns a valid array of that count, with the elements
  -- that both counts cover.
  pub set_count-IsValid :
      (n : ℕ) (a : DynamicArray A)
      → IsValid a
      → n ≤ max_size
      → (b : DynamicArray A) × (set_count fresh n a ≡ some b)
        × IsValid b
        × (b.count ≡ n)
        × ((i : ℕ) → i < a.count → i < n → at b i ≡ at a i)
  unfolding set_count at
  set_count-IsValid n a v h = elim (Bool-cases (ltb a.size n)) [
    | inr fits ↦ (
      record a { count = n },
      rw fits,
      record { capacity = v.capacity; within = ground arith; allocated = v.allocated },
      refl,
      λ i p q. rw (lt→ltb i n q, lt→ltb i a.count p),
    )
    | inl more ↦
        let (j, b, e) = first_size-IsCapacity a.size v.capacity in
        let (m, run, g) = grow_size-Grown j 33 (first_size a.size) n (omega arith) b e h in
        let room : a.size ≤ m = ground (arith, g.2) in
        (
          record { cells = a.cells ++ fresh_cells fresh a.size (m - a.size); count = n; size = m },
          rw (more, run),
          record {
            capacity = g.0;
            within = g.1;
            allocated = omega (
              arith,
              length-append a.cells (fresh_cells fresh a.size (m - a.size)),
              length-fresh_cells a.size (m - a.size),
              v.allocated,
            );
          },
          refl,
          λ i p q.
              rw (lt→ltb i n q, lt→ltb i a.count p)
                (get_elem?-append a.cells _ i (omega (arith, v.within, v.allocated))),
        )
  ]

  -- SetCount beyond 2 ^ 31 on a valid array never returns: no number of rounds ends its loop.
  pub set_count_hangs :
      (n : ℕ) (a : DynamicArray A)
      → IsValid a
      → max_size < n
      → (set_count fresh n a ≡ none) × ((fuel : ℕ) → grow_size fuel (first_size a.size) n ≡ none)
  unfolding set_count
  set_count_hangs n a v h =
      let (j, b, e) = first_size-IsCapacity a.size v.capacity in
      let below : a.size < n = ground (arith, size-le-max (first_size a.size) j e) in
      let hangs = λ (fuel : ℕ). grow_size_hangs fuel (first_size a.size) n (inr (j, b, e)) h in
      (rw (lt→ltb a.size n below, hangs 33), hangs)
