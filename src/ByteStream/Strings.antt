-- ===== src/ByteStream/Strings.antt =====
-- StringStream: what is written is read back, and a read past its end never returns.
use yarc.Base.{
  ℕ, zero, suc, ◌+◌, ◌-◌, ◌<◌, ◌≡◌, refl, ap, true, none, some, [], ◌∷◌, ◌++◌, Bytes, length, drop,
  ne→==, eq→==, arith, length-append, drop-append, append-nil,
}
use yarc.ByteStream.{
  prepend, read_buffer_loop, write_buffer_loop, StringStream, read_rounds, string_stream,
}

read_rounds-all : (bs : Bytes) → read_rounds (length bs) bs ≡ bs
unfolding read_rounds
read_rounds-all [] = refl
read_rounds-all (b ∷ bs) = ap (◌∷◌ b) (read_rounds-all bs)

read_rounds-nil : (n : ℕ) → read_rounds n [] ≡ []
unfolding read_rounds
read_rounds-nil zero = refl
read_rounds-nil (suc n) = refl

drop-all : (bs : Bytes) → drop (length bs) bs ≡ []
drop-all [] = refl
drop-all (b ∷ bs) = drop-all bs

-- The stream when all before the bytes has been read.
abbrev pub at_end_of : Bytes → Bytes → StringStream
at_end_of before bs = record { string_buffer = before ++ bs; read_offset = length before }

write_buffer_loop-string :
    (before bs : Bytes)
    → write_buffer_loop string_stream 2 bs (at_end_of before []) ≡ some (true, at_end_of before bs)
unfolding write_buffer_loop string_stream
write_buffer_loop-string before [] = refl
write_buffer_loop-string before (b ∷ bs) =
    rw (ne→== (suc (length bs)) 0 (omega arith), drop-all bs, append-nil before) refl

read_buffer_loop-string :
    (before bs : Bytes)
    → read_buffer_loop string_stream 2 (length bs) (at_end_of before bs)
      ≡ some (
        some bs,
        record { string_buffer = before ++ bs; read_offset = length before + length bs },
      )
unfolding read_buffer_loop string_stream prepend
read_buffer_loop-string before [] =
    let same : length before + 0 ≡ length before = omega arith in rw same refl
read_buffer_loop-string before (b ∷ bs) =
    let none_left = eq→== (suc (length bs) - suc (length bs)) 0 (omega arith) in
    rw
      (
        ne→== (suc (length bs)) 0 (omega arith),
        drop-append before (b ∷ bs),
        read_rounds-all (b ∷ bs),
        read_rounds-all bs,
        none_left,
        append-nil bs,
      )
      refl

read_buffer_loop-hangs :
    (fuel n : ℕ) (bs : Bytes)
    → 0 < n
    → read_buffer_loop string_stream fuel n (record { string_buffer = bs; read_offset = length bs })
      ≡ none
unfolding read_buffer_loop string_stream prepend
read_buffer_loop-hangs zero n bs pos = refl
read_buffer_loop-hangs (suc fuel) n bs pos =
    let all_left : n - 0 ≡ n = omega arith in
    let stays : length bs + 0 ≡ length bs = omega arith in
    rw
      (
        ne→== n 0 (omega (arith, pos)),
        drop-all bs,
        read_rounds-nil n,
        all_left,
        stays,
        read_buffer_loop-hangs fuel n bs pos,
      )
      refl

-- What WriteBufferNow writes to a StringStream that is read to its end, ReadBufferNow reads back; a
-- further read of a byte or more never returns.
pub read_buffer_loop-write_buffer_loop :
    (before bs : Bytes)
    → (write_buffer_loop string_stream 2 bs (at_end_of before [])
        ≡ some (true, at_end_of before bs))
      × (s : StringStream) × (read_buffer_loop string_stream 2 (length bs) (at_end_of before bs)
          ≡ some (some bs, s))
      × ((fuel n : ℕ) → 0 < n → read_buffer_loop string_stream fuel n s ≡ none)
read_buffer_loop-write_buffer_loop before bs =
    let all = length-append before bs in
    (
      write_buffer_loop-string before bs,
      record { string_buffer = before ++ bs; read_offset = length before + length bs },
      read_buffer_loop-string before bs,
      λ fuel n pos. rw (← all) (read_buffer_loop-hangs fuel n (before ++ bs) pos),
    )
