-- ===== src/Protocol/Reader/Counts.antt =====
-- What the reading helpers do on the texts that the printer writes.
use yarc.Base.{
  ℕ, zero, suc, ◌≤◌, ◌<◌, ◌≡◌, refl, ap, ◌∙◌, true, false, some, [], ◌∷◌, ◌++◌, reverse,
  append_assoc, Bytes, ◌==◌, ◌%◌, ℤ, pos, negsuc, to_u32, u32_mod, arith, All, length, append-nil,
}
use mathlib.Core.List.{reverse-cons}
use yarc.Protocol.Number.{is_digit, decimal, strtol}
use yarc.Protocol.Number.Decimal.{IsDigits, decimal-IsDigits, length-decimal, strtol-decimal}
use yarc.Protocol.Reader.{
  Platform, Input, ok, stopped, read_byte, split_bytes, read_buffer_now, parse_crlf, ends_crlf,
  crlf_loop, parse_crlf_terminated_string, count_loop, finish_count, parse_count,
}

-- A stream that holds `bs`, with `errno` at 0.
abbrev pub input : Bytes → Input
input bs = record { bytes = bs; errno = false }

pub parse_crlf-crlf :
    (rest : Bytes) → parse_crlf (input (b'\r' ∷ b'\n' ∷ rest)) ≡ ok tt (input rest)
unfolding parse_crlf
parse_crlf-crlf rest = refl

split_bytes-append : (bs rest : Bytes) → split_bytes (length bs) (bs ++ rest) ≡ some (bs, rest)
unfolding split_bytes
split_bytes-append [] rest = refl
split_bytes-append (b ∷ bs) rest = rw (split_bytes-append bs rest)

pub read_buffer_now-append :
    (bs rest : Bytes) → read_buffer_now (length bs) (input (bs ++ rest)) ≡ ok bs (input rest)
unfolding read_buffer_now
read_buffer_now-append bs rest = rw (split_bytes-append bs rest, read_buffer_now)

-- A line holds neither a line feed nor a NUL.
abbrev pub IsLine : Bytes → Type 0
IsLine = All (λ b. ((b == b'\n') ≡ false) × ((b == 0) ≡ false))

reverse-step :
    (b : ℕ) (value line : Bytes) → reverse (b ∷ value) ++ line ≡ reverse value ++ b ∷ line
reverse-step b value line = rw (reverse-cons b value) (append_assoc (reverse value) (b ∷ []) line)

crlf_loop-line :
    (value line rest : Bytes)
    → IsLine line
    → crlf_loop value (line ++ b'\r' ∷ b'\n' ∷ rest) ≡ some (reverse value ++ line, rest)
unfolding crlf_loop ends_crlf
crlf_loop-line [] [] rest h = refl
crlf_loop-line (v ∷ value) [] rest h =
    ground (arith, append-nil (reverse (v ∷ value)), reverse-step v value [])
crlf_loop-line [] (b ∷ line) rest h = rw (crlf_loop-line (b ∷ []) line rest h.1)
crlf_loop-line (v ∷ value) (b ∷ line) rest h =
    ground (arith, crlf_loop-line (b ∷ v ∷ value) line rest h.1, reverse-step b (v ∷ value) line)

pub parse_crlf_terminated_string-line :
    (line rest : Bytes)
    → IsLine line
    → parse_crlf_terminated_string (input (line ++ b'\r' ∷ b'\n' ∷ rest)) ≡ ok line (input rest)
unfolding parse_crlf_terminated_string
parse_crlf_terminated_string-line line rest h =
    rw (crlf_loop-line [] line rest h, parse_crlf_terminated_string)

digit_ne : (b : ℕ) → is_digit b ≡ true → (b == b'?') ≡ false
unfolding is_digit
digit_ne b h = ground arith

not_digit : is_digit b'\r' ≡ false
unfolding is_digit
not_digit = refl

strtol_minus_one : (limit : ℕ) → 0 < limit → strtol limit (b'-' ∷ b'1' ∷ []) ≡ (negsuc 0, false)
unfolding strtol
strtol_minus_one limit h = ground arith

count_loop-IsDigits :
    (room : ℕ) (buffer ds rest : Bytes) (byte : ℕ)
    → IsDigits ds
    → length ds < room
    → is_digit byte ≡ false
    → (byte == b'?') ≡ false
    → (byte == b'-') ≡ false
    → count_loop room buffer (input (ds ++ byte ∷ rest))
      ≡ ok (stopped (buffer ++ ds) byte) (input rest)
unfolding count_loop read_byte
count_loop-IsDigits zero buffer ds rest byte h fits d q m = absurd (omega arith)
count_loop-IsDigits (suc room) buffer [] rest byte h fits d q m = rw (q, d, m, append-nil buffer)
count_loop-IsDigits (suc room) buffer (b ∷ ds) rest byte h fits d q m = ground (
  arith,
  digit_ne b,
  append_assoc buffer (b ∷ []) ds,
  count_loop-IsDigits room (buffer ++ b ∷ []) ds rest byte h.1 (omega arith) d q m,
)

module _ (p : Platform) where
  finish_count-value :
      (buffer rest : Bytes) (z : ℤ)
      → strtol p.long_limit buffer ≡ (z, false)
      → finish_count p (stopped buffer b'\r') (input (b'\n' ∷ rest))
        ≡ ok (record { count = to_u32 z; streamed = false }) (input rest)
  unfolding finish_count
  finish_count-value buffer rest z e = rw (e, finish_count) (ground arith)

  pub parse_count-decimal :
      (n : ℕ) (rest : Bytes)
      → n < 0x80000000
      → 0x80000000 ≤ p.long_limit
      → parse_count p (input (decimal n ++ b'\r' ∷ b'\n' ∷ rest))
        ≡ ok (record { count = n; streamed = false }) (input rest)
  unfolding parse_count
  parse_count-decimal n rest h long =
      let loop : count_loop 127 [] (input (decimal n ++ b'\r' ∷ b'\n' ∷ rest))
          ≡ ok (stopped (decimal n) b'\r') (input (b'\n' ∷ rest)) =
        count_loop-IsDigits 127 [] (decimal n) (b'\n' ∷ rest) b'\r' (decimal-IsDigits n)
          (omega (arith, length-decimal n (omega arith))) (not_digit) refl refl in
      let value =
        finish_count-value (decimal n) rest (pos n) (strtol-decimal p.long_limit n (omega arith)) in
      let exact : n % u32_mod ≡ n = omega arith in
      rw (loop, parse_count)
        (value ∙ ap (λ m. ok (record { count = m; streamed = false }) (input rest)) exact)

  pub parse_count-null :
      (rest : Bytes)
      → 0x80000000 ≤ p.long_limit
      → parse_count p (input (b'-' ∷ b'1' ∷ b'\r' ∷ b'\n' ∷ rest))
        ≡ ok (record { count = 0xffffffff; streamed = false }) (input rest)
  unfolding parse_count count_loop read_byte
  parse_count-null rest long =
      finish_count-value (b'-' ∷ b'1' ∷ []) rest (negsuc 0)
        (strtol_minus_one p.long_limit (omega arith))
