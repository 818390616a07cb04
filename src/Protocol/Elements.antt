-- ===== src/Protocol/Elements.antt =====
-- The accessors of ArrayData in Source/yarc_protocol_data.cpp, on the pointers of its array, and
-- what they delete.
use yarc.Base.{
  ℕ, ◌+◌, ◌-◌, ◌≤◌, ◌<◌, ◌≡◌, ◌≢◌, refl, ap, sym, ◌∙◌, ◌⊎◌, inl, inr, Bool, true, false, Option,
  none, some, List, [], ◌∷◌, ltb, leb, if◌then◌else◌, lt→ltb, Bool-cases, arith,
}
use yarc.DynamicArray.{DynamicArray, at, set_count}
use yarc.DynamicArray.Growth.{IsValid, max_size, set_count-IsValid}
use yarc.DynamicArray.Loops.{
  set_at, write_loop, read_loop, values, at-some, set_at-IsValid, write_loop-IsValid,
  read_loop-values,
}

-- A ProtocolData* by a number, or null.
abbrev pub Pointer : Type 0
Pointer = Option ℕ

-- What `delete` of these pointers deletes.
unfoldable pub deletes : List Pointer → List ℕ
deletes [] = []
deletes (none ∷ ps) = deletes ps
deletes (some p ∷ ps) = p ∷ deletes ps

unfoldable pub array_get_element : DynamicArray Pointer → ℕ → Pointer
unfolding at
array_get_element a i = elim (at a i) [ none ↦ none | some p ↦ p ]

-- SetElement: what it returns, the array and what is deleted. It has no value where an assertion
-- fails, as the operations below.
unfoldable pub array_set_element :
    ℕ → Pointer → DynamicArray Pointer → Option (Bool × DynamicArray Pointer × List ℕ)
unfolding array_get_element set_at deletes
array_set_element i protocol_data a =
    if leb a.count i then some (false, a, []) else elim (set_at a i protocol_data) [
      | none ↦ none
      | some b ↦ some (true, b, deletes (array_get_element a i ∷ []))
    ]

-- The part of SetCount behind its first loop, which deletes.
unfoldable pub resize :
    (ℕ → Pointer) → (count : ℕ) → DynamicArray Pointer → Option (DynamicArray Pointer)
unfolding set_count write_loop
resize fresh count a = elim (set_count fresh count a) [
  | none ↦ none
  | some b ↦ write_loop (λ i. none) (count - a.count) a.count b
]

unfoldable pub array_set_count :
    (ℕ → Pointer) → (count : ℕ) → DynamicArray Pointer → Option (DynamicArray Pointer × List ℕ)
unfolding resize read_loop deletes
array_set_count fresh count a = elim (read_loop (a.count - count) count a) [
  | none ↦ none
  | some ps ↦ elim (resize fresh count a) [ none ↦ none | some b ↦ some (b, deletes ps) ]
]

-- Clear, whose loop counts to the signed value of the count.
unfoldable pub array_clear :
    (ℕ → Pointer) → DynamicArray Pointer → Option (DynamicArray Pointer × List ℕ)
unfolding set_count read_loop deletes
array_clear fresh a = elim (read_loop (if ltb a.count max_size then a.count else 0) 0 a) [
  | none ↦ none
  | some ps ↦ elim (set_count fresh 0 a) [ none ↦ none | some b ↦ some (b, deletes ps) ]
]

at-array_get_element :
    (a : DynamicArray Pointer) (i : ℕ)
    → IsValid a
    → i < a.count
    → at a i ≡ some (array_get_element a i)
unfolding array_get_element
at-array_get_element a i v h = let (p, e) = at-some a i v h in rw (array_get_element, e) refl

array_get_element-beyond :
    (a : DynamicArray Pointer) (i : ℕ) → a.count ≤ i → array_get_element a i ≡ none
unfolding array_get_element at
array_get_element-beyond a i h = ground arith

array_get_element-at :
    (a b : DynamicArray Pointer) (i j : ℕ)
    → at b j ≡ at a i
    → array_get_element b j ≡ array_get_element a i
unfolding array_get_element
array_get_element-at a b i j e = ap (λ (o : Option Pointer). elim o [ none ↦ none | some p ↦ p ]) e

array_get_element-null :
    (a : DynamicArray Pointer) (i : ℕ) → at a i ≡ some none → array_get_element a i ≡ none
unfolding array_get_element
array_get_element-null a i e = rw (array_get_element, e) refl

write_nulls-kept :
    (n : ℕ) (a b : DynamicArray Pointer)
    → IsValid b
    → b.count ≡ n
    → ((i : ℕ) → i < a.count → i < n → at b i ≡ at a i)
    → (c : DynamicArray Pointer) × (write_loop (λ i. none) (n - a.count) a.count b ≡ some c)
      × IsValid c
      × (c.count ≡ n)
      × ((i : ℕ) → i < n → array_get_element c i ≡ array_get_element a i)
unfolding write_loop
write_nulls-kept n a b vb counts kept = elim (Bool-cases (ltb n a.count)) [
  | inl less ↦
      let stop : n - a.count ≡ 0 = ground arith in
      (b, rw stop refl, vb, counts, λ i p. array_get_element-at a b i i (kept i (ground arith) p))
  | inr more ↦
      let m = n - a.count in
      let (c, run, vc, counts', before, written) =
        write_loop-IsValid (λ i. none) m a.count b vb (ground arith) in
      (
        c,
        run,
        vc,
        counts' ∙ counts,
        λ i p. elim (Bool-cases (ltb i a.count)) [
          | inl old ↦
              array_get_element-at a c i i (before i (ground arith) ∙ kept i (ground arith) p)
          | inr new ↦
              array_get_element-null c i (written i (ground arith) (ground arith))
              ∙ sym (array_get_element-beyond a i (ground arith))
        ],
      )
]

resize-kept :
    (fresh : ℕ → Pointer) (n : ℕ) (a : DynamicArray Pointer)
    → IsValid a
    → n ≤ max_size
    → (b : DynamicArray Pointer) × (resize fresh n a ≡ some b)
      × IsValid b
      × (b.count ≡ n)
      × ((i : ℕ) → i < n → array_get_element b i ≡ array_get_element a i)
unfolding resize
resize-kept fresh n a v h =
    let (b, run, vb, counts, kept) = set_count-IsValid fresh n a v h in
    let (c, run', vc, counts', same) = write_nulls-kept n a b vb counts kept in
    (c, rw (resize, run) run', vc, counts', same)

-- The pointers of the elements from `i` on.
unfoldable pub elements_from : DynamicArray Pointer → ℕ → List Pointer
unfolding array_get_element values
elements_from a i = values (array_get_element a) (a.count - i) i

read_loop-elements :
    (a : DynamicArray Pointer) (n i : ℕ)
    → IsValid a
    → (n ≡ 0) ⊎ (i + n ≤ a.count)
    → read_loop n i a ≡ some (values (array_get_element a) n i)
unfolding read_loop values
read_loop-elements a n i v (inl e) = rw e refl
read_loop-elements a n i v (inr fits) =
    read_loop-values (array_get_element a) n i a
      (λ j p q. at-array_get_element a j v (omega (arith, fits, q)))

span-cases : (n count : ℕ) → (count - n ≡ 0) ⊎ (n + (count - n) ≤ count)
span-cases n count = elim (Bool-cases (ltb n count)) [
  | inl less ↦ inr (ground arith)
  | inr more ↦ inl (ground arith)
]

-- SetCount of an ArrayData, on a valid array and up to 2 ^ 31, keeps what GetElement gives below
-- the new count, with null for each new element whatever the memory held, and deletes just the
-- elements from the new count on.
pub array_set_count-kept :
    (fresh : ℕ → Pointer) (n : ℕ) (a : DynamicArray Pointer)
    → IsValid a
    → n ≤ max_size
    → (b : DynamicArray Pointer) × (array_set_count fresh n a
        ≡ some (b, deletes (elements_from a n)))
      × IsValid b
      × (b.count ≡ n)
      × ((i : ℕ) → i < n → array_get_element b i ≡ array_get_element a i)
unfolding array_set_count elements_from
array_set_count-kept fresh n a v h =
    let (b, run, vb, counts, same) = resize-kept fresh n a v h in
    let reads = read_loop-elements a (a.count - n) n v (span-cases n a.count) in
    (b, rw (array_set_count, reads, run) refl, vb, counts, same)

-- Clear of an array below 2 ^ 31 empties it and deletes every element.
pub array_clear-empty :
    (fresh : ℕ → Pointer) (a : DynamicArray Pointer)
    → IsValid a
    → a.count < max_size
    → (b : DynamicArray Pointer) × (array_clear fresh a ≡ some (b, deletes (elements_from a 0)))
      × IsValid b
      × (b.count ≡ 0)
unfolding array_clear elements_from
array_clear-empty fresh a v h =
    let (b, run, vb, counts, kept) = set_count-IsValid fresh 0 a v (omega arith) in
    let reads = read_loop-elements a a.count 0 v (inr (omega arith)) in
    let all : a.count - 0 ≡ a.count = omega arith in
    (b, rw (array_clear, lt→ltb a.count max_size h, reads, run, all) refl, vb, counts)

-- SetElement below the count puts the new pointer there and deletes the old one.
pub array_set_element-kept :
    (i : ℕ) (p : Pointer) (a : DynamicArray Pointer)
    → IsValid a
    → i < a.count
    → (b : DynamicArray Pointer) × (array_set_element i p a
        ≡ some (true, b, deletes (array_get_element a i ∷ [])))
      × IsValid b
      × (b.count ≡ a.count)
      × (array_get_element b i ≡ p)
      × ((j : ℕ) → j ≢ i → array_get_element b j ≡ array_get_element a j)
unfolding array_set_element array_get_element
array_set_element-kept i p a v h =
    let (b, run, vb, counts, new, old) = set_at-IsValid a i p v h in
    let inside : leb a.count i ≡ false = ground arith in
    (
      b,
      rw (array_set_element, inside, run) refl,
      vb,
      counts,
      rw (array_get_element, new) refl,
      λ j ne. array_get_element-at a b j j (old j ne),
    )
