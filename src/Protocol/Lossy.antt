-- ===== src/Protocol/Lossy.antt =====
-- Where the Parse methods do not give back what was written.
use yarc.Base.{
  ℕ, ◌+◌, ◌%◌, ◌≤◌, ◌<◌, ◌≡◌, Bool, true, false, some, [], ◌∷◌, ◌++◌, Bytes, length, take, drop,
  arith, length-append, refl, ap, u32_mod, drop-append, lt→ltb, leb, if◌then◌else◌,
}
use yarc.DynamicArray.{fresh_cells}
use yarc.DynamicArray.Growth.{length-fresh_cells}
use yarc.Protocol.Data.{boolean, BlobKind}
use yarc.Protocol.Reader.{Platform, Parser, ok, failed, hung, parse_count}
use yarc.Protocol.Reader.Counts.{input}
use yarc.Protocol.Parser.{append_chunk, parse_boolean, parse_blob}
use yarc.Protocol.Printer.{print_boolean}
use yarc.Protocol.Encoding.{size_limit}
use yarc.Protocol.RoundTrip.Leaves.{set_byte_count-ok}

-- Each boolean that BooleanData::Print writes, false as well as true, is read back as true.
pub parse_boolean-print_boolean :
    (value : Bool) (text rest : Bytes)
    → print_boolean value ≡ some text
    → parse_boolean (input (text ++ rest)) ≡ ok (boolean true) (input rest)
unfolding parse_boolean print_boolean
parse_boolean-print_boolean true text rest e =
    let same : (b't' ∷ b'\r' ∷ b'\n' ∷ []) ≡ text = cc in rw (← same)
parse_boolean-print_boolean false text rest e =
    let same : (b'f' ∷ b'\r' ∷ b'\n' ∷ []) ≡ text = cc in rw (← same)

drop-all : (n : ℕ) (first more : Bytes) → n ≡ length first → drop n (first ++ more) ≡ more
drop-all n first more e = rw e (drop-append first more)

take-all : (n : ℕ) (bs : Bytes) → n ≡ length bs → take n bs ≡ bs
take-all n bs e = rw e (whole bs)
  where
    whole : (cs : Bytes) → take (length cs) cs ≡ cs
    whole [] = refl
    whole (c ∷ cs) = ap (◌∷◌ c) (whole cs)

-- A chunk of a streamed string that has the length of what was read before takes the place of this
-- at the start, with bytes behind it that nothing wrote, while the sum stays below 2 ^ 31.
pub append_chunk-same_length :
    (p : Platform) (first second rest : Bytes)
    → length second ≡ length first
    → length first + length second < size_limit
    → append_chunk p first second (input rest)
      ≡ ok (second ++ fresh_cells p.fresh (length first) (length second)) (input rest)
unfolding append_chunk
append_chunk-same_length p first second rest e small =
    let wraps : (length first + length second) % u32_mod ≡ length first + length second =
      omega arith in
    let cells = fresh_cells p.fresh (length first) (length second) in
    let all : length first + length second ≡ length (second ++ cells) = omega (
      arith,
      e,
      length-append second cells,
      length-fresh_cells p.fresh (length first) (length second),
    ) in
    rw (
      wraps,
      set_byte_count-ok (length first + length second) rest (omega arith),
      drop-all (length second) first cells e,
      take-all (length first + length second) (second ++ cells) all,
    )

-- A count of 0 is read where errno is 0, and refused where an earlier call left an error there.
pub parse_count-zero :
    (p : Platform) (errno : Bool) (rest : Bytes)
    → 0 < p.long_limit
    → parse_count p (record { bytes = b'0' ∷ b'\r' ∷ b'\n' ∷ rest; errno = errno }) ≡ (
        if errno
        then failed
        else ok (record { count = 0; streamed = false }) (record { bytes = rest; errno = false }))
unfolding parse_count
parse_count-zero p true rest long = rw (lt→ltb 0 p.long_limit long)
parse_count-zero p false rest long = rw (lt→ltb 0 p.long_limit long)

-- The count -2, which stands for 2 ^ 32 - 2 bytes, keeps BlobStringData::Parse in a loop for ever,
-- whatever follows.
pub parse_blob-hung :
    (p : Platform) (kind : BlobKind) (chunks : Parser Bytes) (rest : Bytes)
    → 2 ≤ p.long_limit
    → parse_blob p kind chunks (input (b'-' ∷ b'2' ∷ b'\r' ∷ b'\n' ∷ rest)) ≡ hung
unfolding parse_blob
parse_blob-hung p kind chunks rest long = rw (le→leb 2 p.long_limit long)
  where
    le→leb : (a b : ℕ) → a ≤ b → leb a b ≡ true
    le→leb a b h = ground arith
