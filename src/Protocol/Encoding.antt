-- ===== src/Protocol/Encoding.antt =====
-- The encoding of the protocol, as its definition reads, and the values that the printer writes so.
pub mod Printed
use yarc.Base.{
  ℕ, suc, ◌+◌, ◌≤◌, ◌<◌, ◌≡◌, refl, ◌⊎◌, Bool, true, false, some, [], ◌∷◌, ◌++◌, Bytes, ◌==◌,
  if◌then◌else◌, length, none, IsInt64,
}
use yarc.Protocol.Data.{
  BlobKind, MapKind, Tree, Data, Trees, Pairs, Fields, chunk, bare, attributed, blob, simple,
  number, double, blob_string, boolean, big_number, end_data, null_data, aggregate, dictionary,
  no_trees, more_trees, no_pairs, more_pairs, no_fields, more_fields, discriminant, payload,
}
use yarc.Protocol.Number.{print_int, decimal}
use yarc.Protocol.Number.Decimal.{IsLong}
use yarc.Protocol.Reader.{Platform}
use yarc.Protocol.Reader.Counts.{IsLine}
use yarc.Protocol.Fields.{string_key, bytes_eq}
use yarc.Protocol.Fields.Order.{IsSorted}
use yarc.Protocol.Parser.{dbl_max, dbl_min, all_digits, is_attribute}
use yarc.Protocol.Printer.{crlf, count_trees, count_pairs, count_fields}

-- A length and the bytes.
unfoldable pub encode_bytes : Bytes → Bytes
encode_bytes bytes = decimal (length bytes) ++ (crlf ++ (bytes ++ crlf))

abbrev pub inf : Bytes
inf = b'i' ∷ b'n' ∷ b'f' ∷ []

abbrev pub minus_inf : Bytes
minus_inf = b'-' ∷ b'i' ∷ b'n' ∷ b'f' ∷ []

-- No length below stands for 2 ^ 31 bytes or elements.
abbrev pub size_limit : ℕ
size_limit = 0x80000000

-- A line that fits the buffer of WriteFormat.
abbrev pub IsShortLine : Bytes → Type 0
IsShortLine line = IsLine line × (length line < 1022)

module _ (p : Platform) where
  unfoldable pub double_text : ℕ → Bytes
  double_text bits =
      if bits == dbl_max then inf else if bits == dbl_min then minus_inf else p.format_f bits

  unfoldable mutual
    unfolding encode_bytes double_text discriminant

    pub encode_tree : Tree → Bytes
    encode_tree (bare d) = encode d
    encode_tree (attributed a d) = encode a ++ encode d

    pub encode : Data → Bytes
    encode (blob kind true bytes) = discriminant (blob kind true bytes) ∷ b'-' ∷ b'1' ∷ crlf
    encode (blob kind false bytes) = discriminant (blob kind false bytes) ∷ encode_bytes bytes
    encode (simple kind value) = discriminant (simple kind value) ∷ (value ++ crlf)
    encode (number n) = b':' ∷ (print_int n ++ crlf)
    encode (double bits) = b',' ∷ (double_text bits ++ crlf)
    encode (boolean value) = b'#' ∷ (if value then b't' else b'f') ∷ crlf
    encode (big_number value) = b'<' ∷ (value ++ crlf)
    encode end_data = b'.' ∷ crlf
    encode null_data = b'_' ∷ crlf
    encode (aggregate kind true ts) = discriminant (aggregate kind true ts) ∷ b'-' ∷ b'1' ∷ crlf
    encode (aggregate kind false ts) =
        discriminant (aggregate kind false ts)
        ∷ (decimal (count_trees ts) ++ (crlf ++ encode_trees ts))
    encode (dictionary kind ps fs) =
        discriminant (dictionary kind ps fs)
        ∷ (decimal (count_pairs ps + count_fields fs)
            ++ (crlf ++ (encode_pairs ps ++ encode_fields fs)))

    pub encode_trees : Trees → Bytes
    encode_trees no_trees = []
    encode_trees (more_trees t ts) = encode_tree t ++ encode_trees ts

    pub encode_pairs : Pairs → Bytes
    encode_pairs no_pairs = []
    encode_pairs (more_pairs k v ps) = encode_tree k ++ (encode_tree v ++ encode_pairs ps)

    pub encode_fields : Fields → Bytes
    encode_fields no_fields = []
    encode_fields (more_fields k v fs) =
        (b'$' ∷ encode_bytes k) ++ (encode_tree v ++ encode_fields fs)

  -- A double whose text `%f` prints and `strtod` reads back exactly.
  abbrev pub IsExact : ℕ → Type 0
  IsExact bits =
      IsShortLine (double_text bits)
      × ((bits ≡ dbl_max)
          ⊎ (bits ≡ dbl_min)
          ⊎ ((bytes_eq (p.format_f bits) inf ≡ false)
              × (bytes_eq (p.format_f bits) minus_inf ≡ false)
              × (p.strtod (p.format_f bits) ≡ (bits, false))))

  -- The values whose text is their encoding and reads back as it was: no null value that holds data,
  -- no string with a line feed or a NUL where the protocol ends it by CR LF, no empty chunk, no
  -- false, and a dictionary as MapData::Parse leaves it.
  unfoldable mutual
    pub IsPlainTree : Tree → Type 0
    IsPlainTree (bare d) = IsPlain d × (is_attribute d ≡ false)
    IsPlainTree (attributed a d) = IsPlain a × (is_attribute a ≡ true) × IsPlain d

    pub IsPlain : Data → Type 0
    IsPlain (blob kind true bytes) = (bytes ≡ []) × (kind ≡ chunk → ⊥)
    IsPlain (blob kind false bytes) =
        (length bytes < size_limit) × (kind ≡ chunk → 0 < length bytes)
    IsPlain (simple kind value) = IsShortLine value
    IsPlain (number n) = IsLong p.long_limit n × IsInt64 n
    IsPlain (double bits) = IsExact bits
    IsPlain (boolean value) = value ≡ true
    IsPlain (big_number value) = IsShortLine value × (all_digits value ≡ true)
    IsPlain end_data = Unit
    IsPlain null_data = Unit
    IsPlain (aggregate kind true ts) = ts ≡ no_trees
    IsPlain (aggregate kind false ts) = (count_trees ts < size_limit) × ArePlain ts
    IsPlain (dictionary kind ps fs) =
        (count_pairs ps + count_fields fs < size_limit)
        × ArePlainPairs ps
        × IsSorted fs
        × ArePlainFields fs

    pub ArePlain : Trees → Type 0
    ArePlain no_trees = Unit
    ArePlain (more_trees t ts) = IsPlainTree t × ArePlain ts

    pub ArePlainPairs : Pairs → Type 0
    ArePlainPairs no_pairs = Unit
    ArePlainPairs (more_pairs k v ps) =
        IsPlainTree k × (string_key (payload k) ≡ none) × IsPlainTree v × ArePlainPairs ps

    pub ArePlainFields : Fields → Type 0
    ArePlainFields no_fields = Unit
    ArePlainFields (more_fields k v fs) =
        (length k < size_limit) × IsPlainTree v × ArePlainFields fs
