-- ===== src/ByteStream.antt =====
-- Source/yarc_byte_stream: ReadBufferNow and WriteBufferNow on a stream that reads and writes in
-- parts, and StringStream.
pub mod Chunks
pub mod Strings
use yarc.Base.{
  ℕ, zero, suc, ◌+◌, ◌-◌, Bool, true, false, Option, none, some, List, [], ◌∷◌, ◌++◌, Bytes, length,
  take, drop, ◌==◌, if◌then◌else◌,
}

-- ReadBuffer gives the bytes that it read, and WriteBuffer how many it wrote; there is no value where
-- they return -1.
pub record Stream (S : Type 0) : Type 0 where
  pub read_buffer : (buffer_size : ℕ) → S → Option Bytes × S
  pub write_buffer : Bytes → S → Option ℕ × S

module _ {S : Type 0} where
  unfoldable pub prepend : Bytes → Option (Option Bytes × S) → Option (Option Bytes × S)
  prepend bs none = none
  prepend bs (some (none, s)) = some (none, s)
  prepend bs (some (some cs, s)) = some (some (bs ++ cs), s)

  module _ (stream : Stream S) where
    -- The loop of ReadBufferNow: the bytes, or none where it returns false, and the stream. It is on
    -- fuel, since ReadBuffer may read nothing.
    unfoldable pub read_buffer_loop : (fuel : ℕ) → (remaining : ℕ) → S → Option (Option Bytes × S)
    unfolding prepend
    read_buffer_loop zero remaining s = none
    read_buffer_loop (suc fuel) remaining s =
        if remaining == 0
        then some (some [], s)
        else let r = stream.read_buffer remaining s in
          elim r.0 [
            | none ↦ some (none, r.1)
            | some bs ↦ prepend bs (read_buffer_loop fuel (remaining - length bs) r.1)
          ]

    -- The loop of WriteBufferNow, and whether it returns true.
    unfoldable pub write_buffer_loop : (fuel : ℕ) → Bytes → S → Option (Bool × S)
    write_buffer_loop zero buffer s = none
    write_buffer_loop (suc fuel) buffer s =
        if length buffer == 0
        then some (true, s)
        else let r = stream.write_buffer buffer s in
          elim r.0 [
            | none ↦ some (false, r.1)
            | some written ↦ write_buffer_loop fuel (drop written buffer) r.1
          ]

-- StringStream. Its offset does not overflow.
pub record StringStream : Type 0 where
  pub string_buffer : Bytes
  pub read_offset : ℕ

unfoldable pub new_string_stream : Bytes → StringStream
new_string_stream given_string_buffer = record {
  string_buffer = given_string_buffer;
  read_offset = 0;
}

-- The loop of ReadBuffer, of `n` rounds, over the bytes behind the offset.
unfoldable pub read_rounds : ℕ → Bytes → Bytes
read_rounds zero bs = []
read_rounds (suc n) [] = []
read_rounds (suc n) (b ∷ bs) = b ∷ read_rounds n bs

unfoldable pub string_stream : Stream StringStream
unfolding read_rounds
string_stream = record {
  read_buffer = λ n s.
      let bs = read_rounds n (drop s.read_offset s.string_buffer) in
      (some bs, record s { read_offset = s.read_offset + length bs });
  write_buffer = λ bs s. (some (length bs), record s { string_buffer = s.string_buffer ++ bs });
}
