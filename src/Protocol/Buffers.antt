-- ===== src/Protocol/Buffers.antt =====
-- The accessors of BlobStringData in Source/yarc_protocol_data.cpp, on its array of bytes.
use yarc.Base.{
  ℕ, zero, suc, ◌+◌, ◌<◌, ◌≡◌, refl, ap, ◌∙◌, true, Option, none, some, Bytes, ltb, if◌then◌else◌,
  length, lt→ltb, inl, inr, Bool-cases, arith,
}
use yarc.Protocol.Parser.{c_str}
use yarc.DynamicArray.{DynamicArray, at, set_count}
use yarc.DynamicArray.Growth.{IsValid, max_size, set_count-IsValid}
use yarc.DynamicArray.Loops.{write_loop, read_loop, values, write_loop-IsValid, read_loop-values}

-- The rounds of a loop over a counter of 32 bits up to the signed value of a count.
unfoldable pub signed_rounds : ℕ → ℕ
signed_rounds count = if ltb count max_size then count else 0

-- A buffer is the bytes behind its address. The operations have no value where an assertion fails or
-- SetCount does not return.
unfoldable pub set_from_buffer :
    (ℕ → ℕ) → (buffer : ℕ → ℕ) → (buffer_size : ℕ) → DynamicArray ℕ → Option (DynamicArray ℕ)
unfolding signed_rounds write_loop
set_from_buffer fresh buffer buffer_size byte_array =
    elim (set_count fresh buffer_size byte_array) [
      | none ↦ none
      | some b ↦ write_loop buffer (signed_rounds b.count) 0 b
    ]

-- GetToBuffer: what it writes to the front of the buffer, where it returns true; `buffer_size`
-- becomes the count.
unfoldable pub get_to_buffer : (buffer_size : ℕ) → DynamicArray ℕ → Option (Option (Bytes × ℕ))
unfolding signed_rounds read_loop
get_to_buffer buffer_size byte_array =
    if ltb buffer_size byte_array.count
    then some none
    else elim (read_loop (signed_rounds byte_array.count) 0 byte_array) [
      | none ↦ none
      | some bs ↦ some (some (bs, byte_array.count))
    ]

-- GetValue
unfoldable pub get_value : DynamicArray ℕ → Option Bytes
unfolding signed_rounds read_loop
get_value byte_array = read_loop (signed_rounds byte_array.count) 0 byte_array

-- GetValue with a buffer: what strcpy writes to it in front of the NUL, where it returns true.
unfoldable pub get_value_to_buffer : (buffer_size : ℕ) → DynamicArray ℕ → Option (Option Bytes)
unfolding get_value c_str
get_value_to_buffer buffer_size byte_array = elim (get_value byte_array) [
  | none ↦ none
  | some byte_array_str ↦
      some
        (if ltb buffer_size (length byte_array_str + 1) then none else some (c_str byte_array_str))
]

length-values : (value : ℕ → ℕ) (n i : ℕ) → length (values value n i) ≡ n
unfolding values
length-values value zero i = refl
length-values value (suc n) i = ap suc (length-values value n (i + 1))

-- An array that holds the first bytes of a buffer, and no others.
pub record Holds (buffer : ℕ → ℕ) (n : ℕ) (a : DynamicArray ℕ) : Type 0 where
  pub valid : IsValid a
  pub counts : a.count ≡ n
  pub held : (i : ℕ) → i < n → at a i ≡ some (buffer i)

pub set_from_buffer-Holds :
    (fresh buffer : ℕ → ℕ) (n : ℕ) (a : DynamicArray ℕ)
    → IsValid a
    → n < max_size
    → (b : DynamicArray ℕ) × (set_from_buffer fresh buffer n a ≡ some b) × Holds buffer n b
unfolding set_from_buffer signed_rounds
set_from_buffer-Holds fresh buffer n a v h =
    let (b, run, vb, counts, kept) = set_count-IsValid fresh n a v (omega (arith, h)) in
    let (c, run', vc, counts', before, written) =
      write_loop-IsValid buffer n 0 b vb (omega (arith, counts)) in
    (
      c,
      rw (set_from_buffer, run, counts, lt→ltb n max_size h) run',
      record {
        valid = vc;
        counts = counts' ∙ counts;
        held = λ i p. written i (omega arith) (omega (arith, p));
      },
    )

get_value-values :
    (buffer : ℕ → ℕ) (n : ℕ) (a : DynamicArray ℕ)
    → Holds buffer n a
    → n < max_size
    → get_value a ≡ some (values buffer n 0)
unfolding get_value signed_rounds
get_value-values buffer n a holds h =
    let small : ltb n max_size ≡ true = lt→ltb n max_size h in
    let rounds : signed_rounds n ≡ n = rw small refl in
    ap (λ k. read_loop (signed_rounds k) 0 a) holds.counts
    ∙ ap (λ k. read_loop k 0 a) rounds
    ∙ read_loop-values buffer n 0 a (λ j p q. holds.held j (omega (arith, q)))

get_to_buffer-get_value :
    (buffer_size : ℕ) (bs : Bytes) (a : DynamicArray ℕ)
    → get_value a ≡ some bs
    → get_to_buffer buffer_size a
      ≡ some (if ltb buffer_size a.count then none else some (bs, a.count))
unfolding get_to_buffer get_value
get_to_buffer-get_value buffer_size bs a e = elim (Bool-cases (ltb buffer_size a.count)) [
  | inl less ↦ rw less refl
  | inr more ↦ rw (more, e) refl
]

-- What SetFromBuffer takes from a buffer, GetToBuffer gives back where the size is no less and
-- refuses otherwise, and GetValue up to the first NUL where there is room for one more; for fewer
-- than 2 ^ 31 bytes and a valid array.
pub get_to_buffer-set_from_buffer :
    (fresh buffer : ℕ → ℕ) (n buffer_size : ℕ) (a : DynamicArray ℕ)
    → IsValid a
    → n < max_size
    → (b : DynamicArray ℕ) × (set_from_buffer fresh buffer n a ≡ some b)
      × (get_to_buffer buffer_size b
          ≡ some (if ltb buffer_size n then none else some (values buffer n 0, n)))
      × (get_value_to_buffer buffer_size b
          ≡ some (if ltb buffer_size (n + 1) then none else some (c_str (values buffer n 0))))
unfolding get_value_to_buffer
get_to_buffer-set_from_buffer fresh buffer n buffer_size a v h =
    let (b, run, holds) = set_from_buffer-Holds fresh buffer n a v h in
    let value = get_value-values buffer n b holds h in
    (
      b,
      run,
      get_to_buffer-get_value buffer_size (values buffer n 0) b value
          ∙ ap (λ k. some (if ltb buffer_size k then none else some (values buffer n 0, k)))
              holds.counts,
      rw (get_value_to_buffer, value, length-values buffer n 0) refl,
    )
