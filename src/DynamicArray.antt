-- ===== src/DynamicArray.antt =====
-- Source/yarc_dynamic_array.h: a counted array in a block of memory that grows by doubling.
-- Memory is unbounded: `realloc` never fails.
pub mod Growth
pub mod Assigned
pub mod Loops
use yarc.Base.{
  ℕ, zero, suc, ◌+◌, ◌-◌, ◌*◌, ◌%◌, Option, none, some, List, [], ◌∷◌, ◌++◌, ltb, ◌==◌,
  if◌then◌else◌, u32_mod, get_elem?,
}

-- `data` holds `size` cells, the first `count` of them in use.
pub record DynamicArray (A : Type 0) : Type 0 where
  pub cells : List A
  pub count : ℕ
  pub size : ℕ

-- The loop of SetCount, on `unsigned int`; `none` where the fuel runs out.
unfoldable pub grow_size : ℕ → ℕ → ℕ → Option ℕ
grow_size zero new_size new_count = none
grow_size (suc fuel) new_size new_count =
    let more = grow_size fuel (new_size * 2 % u32_mod) new_count in
    if ltb new_size new_count then more else some new_size

module _ {A : Type 0} where
  unfoldable pub empty : DynamicArray A
  empty = record { cells = []; count = 0; size = 0 }

  -- What `realloc` leaves in the cells from `i` on.
  unfoldable pub fresh_cells : (ℕ → A) → ℕ → ℕ → List A
  fresh_cells fresh i zero = []
  fresh_cells fresh i (suc n) = fresh i ∷ fresh_cells fresh (i + 1) n

  -- SetCount; `none` where its loop does not end.
  unfoldable pub set_count : (ℕ → A) → ℕ → DynamicArray A → Option (DynamicArray A)
  unfolding grow_size fresh_cells
  set_count fresh new_count a =
      if ltb a.size new_count
      then (elim (grow_size 33 (if a.size == 0 then 1 else a.size) new_count) [
        | none ↦ none
        | some new_size ↦ some (record {
          cells = a.cells ++ fresh_cells fresh a.size (new_size - a.size);
          count = new_count;
          size = new_size;
        })
      ])
      else some (record a { count = new_count })

  -- operator[]; `none` where its assertion fails.
  unfoldable pub at : DynamicArray A → ℕ → Option A
  at a i = if ltb i a.count then get_elem? a.cells i else none

  -- The loop of operator=, of `n` rounds, over cells that are there.
  unfoldable pub copy_cells : ℕ → (from to : List A) → List A
  copy_cells zero from to = to
  copy_cells (suc n) [] to = to
  copy_cells (suc n) (x ∷ from) [] = []
  copy_cells (suc n) (x ∷ from) (y ∷ to) = x ∷ copy_cells n from to

  -- operator=; `none` where SetCount does not return.
  unfoldable pub assign :
      (ℕ → A) → (dynamic_array : DynamicArray A) → DynamicArray A → Option (DynamicArray A)
  unfolding set_count copy_cells
  assign fresh dynamic_array a = elim (set_count fresh dynamic_array.count a) [
    | none ↦ none
    | some b ↦
        some (record b { cells = copy_cells dynamic_array.count dynamic_array.cells b.cells })
  ]
