-- ===== src/Examples/Streams.antt =====
-- Streams at work.
use yarc.Base.{
  ℕ, ◌<◌, ◌≤◌, ◌≡◌, refl, true, Option, none, some, [], ◌∷◌, ◌++◌, Bytes, length, arith,
}
use yarc.Protocol.Reader.{split_bytes}
use yarc.ByteStream.{Stream, read_buffer_loop, write_buffer_loop, StringStream, string_stream}
use yarc.ByteStream.Chunks.{Delivers, Reads, read_buffer_loop-Reads}
use yarc.ByteStream.Strings.{at_end_of, read_buffer_loop-write_buffer_loop}

-- A stream that gives a byte at a time.
abbrev read_one : Bytes → Option Bytes × Bytes
read_one [] = (none, [])
read_one (b ∷ bs) = (some (b ∷ []), bs)

abbrev slow_stream : Stream Bytes
slow_stream = record {
  read_buffer = λ n bs. read_one bs;
  write_buffer = λ bs s. (some (length bs), s);
}

abbrev all : Bytes → Bytes
all bs = bs

slow_stream-Delivers : Delivers slow_stream all
slow_stream-Delivers = record { delivers_some = reads; delivers_none = stops }
  where
    reads :
        (n : ℕ) (s : Bytes)
        → 0 < n
        → 0 < length s
        → (bs : Bytes) × (s' : Bytes) × (read_one s ≡ (some bs, s'))
          × (s ≡ bs ++ s')
          × (0 < length bs)
          × (length bs ≤ n)
    reads n [] pos some_left = absurd (omega (arith, some_left))
    reads n (b ∷ bs) pos some_left = (b ∷ [], bs, refl, refl, omega arith, omega (arith, pos))

    stops : (n : ℕ) (s : Bytes) → 0 < n → s ≡ [] → (s' : Bytes) × (read_one s ≡ (none, s'))
    stops n s pos e = ([], rw e refl)

abbrev three : Bytes
three = 1 ∷ 2 ∷ 3 ∷ []

read_buffer_loop-Reads_example :
    Reads slow_stream all (split_bytes 2 three) (read_buffer_loop slow_stream 3 2 three)
read_buffer_loop-Reads_example =
    read_buffer_loop-Reads slow_stream all slow_stream-Delivers 3 2 three (omega arith)

read_buffer_loop-write_buffer_loop_example :
    (write_buffer_loop string_stream 2 three (at_end_of (9 ∷ []) [])
      ≡ some (true, at_end_of (9 ∷ []) three))
    × (s : StringStream) × (read_buffer_loop string_stream 2
          (length three)
          (at_end_of (9 ∷ []) three)
        ≡ some (some three, s))
    × ((fuel n : ℕ) → 0 < n → read_buffer_loop string_stream fuel n s ≡ none)
read_buffer_loop-write_buffer_loop_example = read_buffer_loop-write_buffer_loop (9 ∷ []) three
