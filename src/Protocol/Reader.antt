-- ===== src/Protocol/Reader.antt =====
-- The reading helpers of ProtocolData, and the state that they share: the bytes that the stream
-- still delivers before it fails, and `errno`.
pub mod Counts
use yarc.Base.{
  ℕ, zero, suc, Bool, true, false, ◌&&◌, ◌||◌, not, Option, none, some, [], ◌∷◌, ◌++◌, reverse,
  Bytes, ◌==◌, if◌then◌else◌, to_u32, drop,
}
use yarc.Protocol.Number.{is_digit, strtol}

-- What the source takes from the C library and the machine: `strtod` with the ERANGE that it may
-- set, the text of `%f`, what `realloc` leaves in a byte that nothing wrote, and the range of
-- `long`, -long_limit to long_limit - 1.
pub record Platform : Type 0 where
  pub strtod : Bytes → ℕ × Bool
  pub format_f : ℕ → Bytes
  pub fresh : ℕ → ℕ
  pub long_limit : ℕ

-- `errno` is true where the variable is not 0.
pub record Input : Type 0 where
  pub bytes : Bytes
  pub errno : Bool

-- `failed` is a return of false. `hung` is a loop of the source that never ends, and `out_of_fuel`
-- has no counterpart there.
pub data Result (A : Type 0) : Type 0 where
  ok : A → Input → Result A
  failed hung out_of_fuel : Result A

abbrev pub Parser : Type 0 → Type 0
Parser A = Input → Result A

abbrev pub pure : {A : Type 0} → A → Parser A
pure a s = ok a s

abbrev pub fail : {A : Type 0} → Parser A
fail s = failed

module _ {A B : Type 0} where
  abbrev pub and_then : Result A → (A → Parser B) → Result B
  and_then (ok a s) k = k a s
  and_then failed k = failed
  and_then hung k = hung
  and_then out_of_fuel k = out_of_fuel

  infixl 5 ◌>>=◌ ◌>>◌
  abbrev pub ◌>>=◌ : Parser A → (A → Parser B) → Parser B
  m >>= k = λ s. and_then (m s) k

  abbrev pub ◌>>◌ : Parser A → Parser B → Parser B
  m >> n = m >>= λ _. n

-- ReadByte, a failure at the end of the stream
unfoldable pub read_byte : Parser ℕ
read_byte s = elim s.bytes [ [] ↦ failed | b ∷ bs ↦ ok b (record s { bytes = bs }) ]

abbrev pub cons_front : ℕ → Option (Bytes × Bytes) → Option (Bytes × Bytes)
cons_front b none = none
cons_front b (some (front, rest)) = some (b ∷ front, rest)

unfoldable pub split_bytes : ℕ → Bytes → Option (Bytes × Bytes)
split_bytes zero bs = some ([], bs)
split_bytes (suc n) [] = none
split_bytes (suc n) (b ∷ bs) = cons_front b (split_bytes n bs)

-- ReadBufferNow
unfoldable pub read_buffer_now : ℕ → Parser Bytes
unfolding split_bytes
read_buffer_now n s = elim (split_bytes n s.bytes) [
  | none ↦ failed
  | some (front, rest) ↦ ok front (record s { bytes = rest })
]

unfoldable pub parse_crlf : Parser (Unit {0})
unfolding read_byte
parse_crlf = do
  cr ← read_byte
  if cr == b'\r' then (do lf ← read_byte; if lf == b'\n' then pure tt else fail) else fail

-- Whether the two newest bytes are CR LF; the newest byte comes first.
unfoldable pub ends_crlf : Bytes → Bool
ends_crlf (lf ∷ cr ∷ _) = cr == b'\r' && lf == b'\n'
ends_crlf _ = false

-- The loop of ParseCRLFTerminatedString; `value` holds the bytes read, the newest first.
unfoldable pub crlf_loop : Bytes → Bytes → Option (Bytes × Bytes)
unfolding ends_crlf
crlf_loop value [] = none
crlf_loop value (b ∷ bs) =
    if ends_crlf (b ∷ value)
    then some (reverse (drop 2 (b ∷ value)), bs)
    else crlf_loop (b ∷ value) bs

unfoldable pub parse_crlf_terminated_string : Parser Bytes
unfolding crlf_loop
parse_crlf_terminated_string s = elim (crlf_loop [] s.bytes) [
  | none ↦ failed
  | some (value, rest) ↦ ok value (record s { bytes = rest })
]

-- What ends the loop of ParseCount: the mark `?`, or another byte behind the buffered ones.
pub data CountText : Type 0 where
  question_mark : CountText
  stopped : (buffer : Bytes) (byte : ℕ) → CountText

-- `room` is sizeof(buffer) - 1 - i, 127 at the start.
unfoldable pub count_loop : (room : ℕ) → (buffer : Bytes) → Parser CountText
unfolding read_byte is_digit
count_loop zero buffer = fail
count_loop (suc room) buffer = do
  byte ← read_byte
  if byte == b'?'
      then pure question_mark
      else if not (is_digit byte) && not (byte == b'-')
      then pure (stopped buffer byte)
      else count_loop room (buffer ++ byte ∷ [])

-- `count` and `streamed`
pub record Count : Type 0 where
  pub count : ℕ
  pub streamed : Bool

-- `errno` after a call that may set it
abbrev pub raise_errno : Bool → Parser (Unit {0})
raise_errno raised s = ok tt (record s { errno = s.errno || raised })

abbrev get_errno : Parser Bool
get_errno s = ok s.errno s

module _ (p : Platform) where
  -- The rest of ParseCount, behind its loop.
  unfoldable pub finish_count : CountText → Parser Count
  unfolding strtol parse_crlf read_byte
  finish_count question_mark = do parse_crlf; pure (record { count = 0; streamed = true })
  finish_count (stopped buffer byte) = do
    let (value, range) = strtol p.long_limit buffer
    raise_errno range
    errno ← get_errno
    if to_u32 value == 0 && errno then fail else if not (byte == b'\r') then fail else do
      lf ← read_byte
      if lf == b'\n' then pure (record { count = to_u32 value; streamed = false }) else fail

  unfoldable pub parse_count : Parser Count
  unfolding count_loop finish_count
  parse_count = do text ← count_loop 127 []; finish_count text
