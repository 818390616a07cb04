-- ===== src/Examples/Accessors.antt =====
-- The accessors of arrays and strings at concrete inputs.
use yarc.Base.{ℕ, ◌<◌, ◌≡◌, refl, inr, none, some, [], ◌∷◌, ltb, if◌then◌else◌, ◌+◌, arith}
use yarc.Protocol.Parser.{c_str}
use yarc.DynamicArray.{DynamicArray}
use yarc.DynamicArray.Growth.{IsValid}
use yarc.DynamicArray.Loops.{values}
use yarc.Protocol.Elements.{
  Pointer, deletes, elements_from, array_set_count, array_get_element, array_set_count-kept,
}
use yarc.Protocol.Buffers.{
  set_from_buffer, get_to_buffer, get_value_to_buffer, get_to_buffer-set_from_buffer,
}

abbrev two_cells : (A : Type 0) → A → A → DynamicArray A
two_cells A x y = record { cells = x ∷ y ∷ []; count = 2; size = 2 }

two_cells-IsValid : (A : Type 0) (x y : A) → IsValid (two_cells A x y)
two_cells-IsValid A x y = record {
  capacity = inr (30, omega arith, refl);
  within = omega arith;
  allocated = refl;
}

abbrev pointers : DynamicArray Pointer
pointers = two_cells Pointer (some 5) (some 6)

array_set_count-kept_example :
    (b : DynamicArray Pointer) × (array_set_count (λ i. some 9) 1 pointers
      ≡ some (b, deletes (elements_from pointers 1)))
    × IsValid b
    × (b.count ≡ 1)
    × ((i : ℕ) → i < 1 → array_get_element b i ≡ array_get_element pointers i)
array_set_count-kept_example =
    array_set_count-kept (λ i. some 9) 1 pointers (two_cells-IsValid Pointer (some 5) (some 6))
      (omega arith)

abbrev letters : ℕ → ℕ
letters i = 97 + i

get_to_buffer-set_from_buffer_example :
    (b : DynamicArray ℕ) × (set_from_buffer (λ i. 0) letters 3 (two_cells ℕ 1 2) ≡ some b)
    × (get_to_buffer 8 b ≡ some (if ltb 8 3 then none else some (values letters 3 0, 3)))
    × (get_value_to_buffer 8 b
        ≡ some (if ltb 8 (3 + 1) then none else some (c_str (values letters 3 0))))
get_to_buffer-set_from_buffer_example =
    get_to_buffer-set_from_buffer (λ i. 0) letters 3 8 (two_cells ℕ 1 2) (two_cells-IsValid ℕ 1 2)
      (omega arith)
