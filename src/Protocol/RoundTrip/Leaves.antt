-- ===== src/Protocol/RoundTrip/Leaves.antt =====
-- The Parse methods of the classes that hold no other value, on their encoding.
use yarc.Base.{
  ℕ, suc, pos, negsuc, Bool, ◌≤◌, ◌<◌, ◌≡◌, refl, inl, inr, true, false, [], ◌∷◌, ◌++◌, Bytes,
  length, arith, append_assoc, ◌==◌, ℤ, Bool-cases, ne→==,
}
use yarc.DynamicArray.Growth.{grow_size-Grown}
use yarc.Protocol.Data.{
  ArrayKind, MapKind, Trees, Pairs, aggregate, dictionary, no_trees, no_fields, BlobKind,
  SimpleKind, chunk, blob, simple, number, double, big_number,
}
use yarc.Protocol.Number.{is_digit, print_int, decimal}
use yarc.Protocol.Number.Decimal.{IsDigits, decimal-IsDigits, IsLong, strtol-print_int}
use yarc.Protocol.Fields.{settle}
use yarc.Protocol.Reader.{Platform, Parser, ok, pure, and_then, parse_crlf_terminated_string}
use yarc.Protocol.Reader.Counts.{
  input, IsLine, read_buffer_now-append, parse_crlf_terminated_string-line, parse_count-decimal,
  parse_count-null,
}
use yarc.Protocol.Parser.{
  dbl_max, dbl_min, null_count, all_digits, set_byte_count, parse_byte_array_data, parse_simple,
  parse_big_number, parse_number, finish_double, parse_double, parse_chunk, parse_blob, parse_array,
  parse_map,
}
use yarc.Protocol.Printer.{crlf}
use yarc.Protocol.Encoding.Printed.{c_str-line}
use yarc.Protocol.Encoding.{encode_bytes, double_text, size_limit, IsExact}

pub set_byte_count-ok :
    (n : ℕ) (rest : Bytes) → n ≤ size_limit → set_byte_count n (input rest) ≡ ok tt (input rest)
unfolding set_byte_count
set_byte_count-ok n rest h =
    let grown = grow_size-Grown 31 33 1 n (omega arith) (omega arith) refl h in
    rw (grown.1, set_byte_count)

parse_byte_array_data-bytes :
    (bytes rest : Bytes)
    → length bytes < size_limit
    → parse_byte_array_data (length bytes) (input (bytes ++ (crlf ++ rest))) ≡ ok bytes (input rest)
unfolding parse_byte_array_data
parse_byte_array_data-bytes bytes rest h = rw (
  set_byte_count-ok (length bytes) (bytes ++ (crlf ++ rest)) (omega arith),
  parse_byte_array_data,
  read_buffer_now-append bytes (crlf ++ rest),
)

regroup_bytes :
    (bytes rest : Bytes)
    → encode_bytes bytes ++ rest ≡ decimal (length bytes) ++ (crlf ++ (bytes ++ (crlf ++ rest)))
unfolding encode_bytes
regroup_bytes bytes rest = simp append_assoc

regroup_line : (line rest : Bytes) → (line ++ crlf) ++ rest ≡ line ++ (crlf ++ rest)
regroup_line line rest = append_assoc line crlf rest

pub parse_line :
    (line rest : Bytes)
    → IsLine line
    → parse_crlf_terminated_string (input ((line ++ crlf) ++ rest)) ≡ ok line (input rest)
parse_line line rest h = rw (regroup_line line rest) (parse_crlf_terminated_string-line line rest h)

pub parse_simple-line :
    (kind : SimpleKind) (line rest : Bytes)
    → IsLine line
    → parse_simple kind (input ((line ++ crlf) ++ rest)) ≡ ok (simple kind line) (input rest)
unfolding parse_simple
parse_simple-line kind line rest h = rw (parse_line line rest h, parse_simple)

pub parse_big_number-line :
    (line rest : Bytes)
    → IsLine line
    → all_digits line ≡ true
    → parse_big_number (input ((line ++ crlf) ++ rest)) ≡ ok (big_number line) (input rest)
unfolding parse_big_number
parse_big_number-line line rest h d = rw (parse_line line rest h, parse_big_number) (rw d)

module _ (p : Platform) where
  pub parse_number-print_int :
      (z : ℤ) (rest : Bytes)
      → IsLine (print_int z)
      → IsLong p.long_limit z
      → parse_number p (input ((print_int z ++ crlf) ++ rest)) ≡ ok (number z) (input rest)
  unfolding parse_number
  parse_number-print_int z rest h l =
      rw (parse_line (print_int z) rest h, parse_number) (rw (strtol-print_int p.long_limit z l))

  -- What ParseDouble makes of the text of a double.
  double_value :
      (bits : ℕ) (rest : Bytes)
      → IsExact p bits
      → finish_double p (double_text p bits) (input rest) ≡ ok (double bits) (input rest)
  unfolding finish_double double_text
  double_value bits rest (line, inl e) = rw e
  double_value bits rest (line, inr (inl e)) = rw e
  double_value bits rest (line, inr (inr exact)) = elim (Bool-cases (bits == dbl_max)) [
    | inl e ↦ let same : bits ≡ dbl_max = ground arith in rw same
    | inr e ↦ elim (Bool-cases (bits == dbl_min)) [
      | inl m ↦ let same : bits ≡ dbl_min = ground arith in rw same
      | inr m ↦
          let text = c_str-line (p.format_f bits) (rw (e, m) at line.0) in
          rw (e, m, exact.0, exact.1, text, exact.2, finish_double)
    ]
  ]

  pub parse_double-text :
      (bits : ℕ) (rest : Bytes)
      → IsExact p bits
      → parse_double p (input ((double_text p bits ++ crlf) ++ rest))
        ≡ ok (double bits) (input rest)
  unfolding parse_double
  parse_double-text bits rest h =
      rw (parse_line (double_text p bits) rest h.0.0, parse_double) (double_value bits rest h)

  module _ (long : size_limit ≤ p.long_limit) where
    pub parse_blob-bytes :
        (kind : BlobKind) (chunks : Parser Bytes) (bytes rest : Bytes)
        → length bytes < size_limit
        → parse_blob p kind chunks (input (encode_bytes bytes ++ rest))
          ≡ ok (blob kind false bytes) (input rest)
    unfolding parse_blob
    parse_blob-bytes kind chunks bytes rest h =
        let count = parse_count-decimal p (length bytes) (bytes ++ (crlf ++ rest)) h long in
        let body = parse_byte_array_data-bytes bytes rest h in
        rw (regroup_bytes bytes rest)
          (rw (count, parse_blob) (rw (ne→== (length bytes) null_count (omega arith), body)))

    pub parse_blob-null :
        (kind : BlobKind) (chunks : Parser Bytes) (rest : Bytes)
        → parse_blob p kind chunks (input ((b'-' ∷ b'1' ∷ crlf) ++ rest))
          ≡ ok (blob kind true []) (input rest)
    unfolding parse_blob
    parse_blob-null kind chunks rest = rw (parse_count-null p rest long, parse_blob)

    pub parse_chunk-bytes :
        (bytes rest : Bytes)
        → length bytes < size_limit
        → 0 < length bytes
        → parse_chunk p (input (encode_bytes bytes ++ rest))
          ≡ ok (blob chunk false bytes) (input rest)
    unfolding parse_chunk
    parse_chunk-bytes bytes rest h nonempty =
        let count = parse_count-decimal p (length bytes) (bytes ++ (crlf ++ rest)) h long in
        let body = parse_byte_array_data-bytes bytes rest h in
        rw (regroup_bytes bytes rest)
          (rw (count, parse_chunk) (rw (ne→== (length bytes) 0 (omega arith), body)))

    -- An aggregate reads its count, and then its loop runs.
    pub parse_array-count :
        (kind : ArrayKind) (elements : Bool → ℕ → Parser Trees) (n : ℕ) (body rest : Bytes)
        → n < size_limit
        → parse_array p kind elements (input ((decimal n ++ (crlf ++ body)) ++ rest))
          ≡ and_then
              (elements false n (input (body ++ rest)))
              (λ ts. pure (aggregate kind false ts))
    unfolding parse_array
    parse_array-count kind elements n body rest h =
        let count = parse_count-decimal p n (body ++ rest) h long in
        rw (append_assoc (decimal n) (crlf ++ body) rest)
          (rw (count, parse_array) (rw (ne→== n null_count (omega arith))))

    pub parse_array-null :
        (kind : ArrayKind) (elements : Bool → ℕ → Parser Trees) (rest : Bytes)
        → parse_array p kind elements (input ((b'-' ∷ b'1' ∷ crlf) ++ rest))
          ≡ ok (aggregate kind true no_trees) (input rest)
    unfolding parse_array
    parse_array-null kind elements rest = rw (parse_count-null p rest long, parse_array)

    pub parse_map-count :
        (kind : MapKind) (pairs : Bool → ℕ → Parser Pairs) (n : ℕ) (body rest : Bytes)
        → n < size_limit
        → parse_map p kind pairs (input ((decimal n ++ (crlf ++ body)) ++ rest))
          ≡ and_then
              (pairs false n (input (body ++ rest)))
              (λ ps. pure (dictionary kind (settle ps no_fields).0 (settle ps no_fields).1))
    unfolding parse_map
    parse_map-count kind pairs n body rest h =
        let count = parse_count-decimal p n (body ++ rest) h long in
        rw (append_assoc (decimal n) (crlf ++ body) rest) (rw (count, parse_map))

digit-line : (b : ℕ) → is_digit b ≡ true → ((b == b'\n') ≡ false) × ((b == 0) ≡ false)
unfolding is_digit
digit-line b h = ground arith

IsDigits-IsLine : (ds : Bytes) → IsDigits ds → IsLine ds
IsDigits-IsLine [] h = tt
IsDigits-IsLine (b ∷ ds) h = (digit-line b h.0, IsDigits-IsLine ds h.1)

pub print_int-IsLine : (z : ℤ) → IsLine (print_int z)
unfolding print_int
print_int-IsLine (pos n) = IsDigits-IsLine (decimal n) (decimal-IsDigits n)
print_int-IsLine (negsuc n) =
    ((refl, refl), IsDigits-IsLine (decimal (suc n)) (decimal-IsDigits (suc n)))
