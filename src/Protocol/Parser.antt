-- ===== src/Protocol/Parser.antt =====
-- ParseTree, ParseDataType and the Parse method of each class.
use yarc.Base.{
  ℕ, zero, suc, ◌+◌, ◌-◌, ◌%◌, Bool, true, false, ◌&&◌, ◌||◌, not, Option, none, some, [], ◌∷◌,
  ◌++◌, Bytes, ltb, ◌==◌, if◌then◌else◌, u32_mod, length, take, drop,
}
use yarc.DynamicArray.{grow_size, fresh_cells}
use yarc.Protocol.Data.{
  BlobKind, SimpleKind, ArrayKind, MapKind, Tree, Data, Trees, Pairs, blob_string, chunk,
  blob_error, verbatim, simple_string, simple_error, array, set_array, push, map_of, attribute,
  bare, attributed, blob, simple, number, double, boolean, big_number, end_data, null_data,
  aggregate, dictionary, no_trees, more_trees, no_pairs, more_pairs, no_fields, payload,
}
use yarc.Protocol.Number.{is_digit, strtol}
use yarc.Protocol.Fields.{bytes_eq, settle}
use yarc.Protocol.Reader.{
  Platform, Parser, ok, hung, out_of_fuel, pure, fail, ◌>>=◌, ◌>>◌, read_byte, read_buffer_now,
  parse_crlf, parse_crlf_terminated_string, parse_count, raise_errno,
}

-- The class that the switch of ParseDataType makes.
pub data Class : Type 0 where
  blob_class : BlobKind → Class
  simple_class : SimpleKind → Class
  number_class double_class boolean_class big_number_class end_class null_class : Class
  array_class : ArrayKind → Class
  map_class : MapKind → Class

unfoldable pub class_of : ℕ → Option Class
class_of byte =
    if byte == b'$'
    then some (blob_class blob_string)
    else if byte == b'+'
    then some (simple_class simple_string)
    else if byte == b'-'
    then some (simple_class simple_error)
    else if byte == b':'
    then some number_class
    else if byte == b'_'
    then some null_class
    else if byte == b','
    then some double_class
    else if byte == b'#'
    then some boolean_class
    else if byte == b'!'
    then some (blob_class blob_error)
    else if byte == b'='
    then some (blob_class verbatim)
    else if byte == b'<'
    then some big_number_class
    else if byte == b'*'
    then some (array_class array)
    else if byte == b'%'
    then some (map_class map_of)
    else if byte == b'~'
    then some (array_class set_array)
    else if byte == b'|'
    then some (map_class attribute)
    else if byte == b'>'
    then some (array_class push)
    else if byte == b'.'
    then some end_class
    else if byte == b';'
    then some (blob_class chunk)
    else none

-- DBL_MAX, and DBL_MIN, the least positive normal number
abbrev pub dbl_max : ℕ
dbl_max = 0x7fefffffffffffff

abbrev pub dbl_min : ℕ
dbl_min = 0x0010000000000000

-- A null value is announced by the count `uint32_t(-1)`.
abbrev pub null_count : ℕ
null_count = 0xffffffff

-- `c_str` stops at the first NUL.
unfoldable pub c_str : Bytes → Bytes
c_str [] = []
c_str (b ∷ bs) = if b == 0 then [] else b ∷ c_str bs

unfoldable pub all_digits : Bytes → Bool
unfolding is_digit
all_digits [] = true
all_digits (b ∷ bs) = is_digit b && all_digits bs

-- Cast<ChunkData>
unfoldable pub as_chunk : Data → Option Bytes
as_chunk (blob chunk _ bytes) = some bytes
as_chunk _ = none

-- Cast<EndData>
unfoldable pub is_end : Data → Bool
is_end end_data = true
is_end _ = false

-- Cast<AttributeData>
unfoldable pub is_attribute : Data → Bool
is_attribute (dictionary attribute _ _) = true
is_attribute _ = false

-- The loop of SetCount on an array of bytes: from any size that the array can have it ends for the
-- same counts as from 1.
unfoldable pub set_byte_count : ℕ → Parser (Unit {0})
unfolding grow_size
set_byte_count count s = elim (grow_size 33 1 count) [ none ↦ hung | some _ ↦ ok tt s ]

unfoldable pub parse_byte_array_data : ℕ → Parser Bytes
unfolding set_byte_count read_buffer_now parse_crlf
parse_byte_array_data count = do
  set_byte_count count
  bytes ← read_buffer_now count
  parse_crlf
  pure bytes

unfoldable pub parse_simple : SimpleKind → Parser Data
unfolding parse_crlf_terminated_string
parse_simple kind = do value ← parse_crlf_terminated_string; pure (simple kind value)

unfoldable pub parse_boolean : Parser Data
unfolding read_byte parse_crlf
parse_boolean = do byte ← read_byte; parse_crlf; pure (boolean (not (byte == 0)))

unfoldable pub parse_big_number : Parser Data
unfolding parse_crlf_terminated_string all_digits
parse_big_number = do
  value ← parse_crlf_terminated_string
  if all_digits value then pure (big_number value) else fail

module _ (p : Platform) where
  unfoldable pub parse_number : Parser Data
  unfolding parse_crlf_terminated_string strtol
  parse_number = do
    text ← parse_crlf_terminated_string
    let (value, range) = strtol p.long_limit text
    raise_errno range
    pure (number value)

  -- The tests of DoubleData::Parse on the text that it read.
  unfoldable pub finish_double : Bytes → Parser Data
  unfolding bytes_eq c_str
  finish_double text =
      if bytes_eq text (b'i' ∷ b'n' ∷ b'f' ∷ [])
      then pure (double dbl_max)
      else if bytes_eq text (b'-' ∷ b'i' ∷ b'n' ∷ b'f' ∷ [])
      then pure (double dbl_min)
      else do let (bits, range) = p.strtod (c_str text); raise_errno range; pure (double bits)

  unfoldable pub parse_double : Parser Data
  unfolding parse_crlf_terminated_string finish_double
  parse_double = do text ← parse_crlf_terminated_string; finish_double text

  unfoldable pub parse_chunk : Parser Data
  unfolding parse_count parse_byte_array_data
  parse_chunk = do
    c ← parse_count p
    if c.streamed
        then fail
        else if c.count == 0
        then pure (blob chunk false [])
        else do bytes ← parse_byte_array_data c.count; pure (blob chunk false bytes)

  -- The body of the loop over chunks: the array takes the sum of the counts, which wraps around, and
  -- `memcpy` writes at its start.
  unfoldable pub append_chunk : Bytes → Bytes → Parser Bytes
  unfolding set_byte_count fresh_cells
  append_chunk bytes piece = do
    set_byte_count ((length bytes + length piece) % u32_mod)
    pure (
        take ((length bytes + length piece) % u32_mod) (
          piece
          ++ drop (length piece) (bytes ++ fresh_cells p.fresh (length bytes) (length piece))))

  -- BlobStringData::Parse; `chunks` is the loop of a streamed string.
  unfoldable pub parse_blob : BlobKind → Parser Bytes → Parser Data
  unfolding parse_count parse_byte_array_data
  parse_blob kind chunks = do
    c ← parse_count p
    if not c.streamed && c.count == null_count
        then pure (blob kind true [])
        else if c.streamed
        then (do bytes ← chunks; pure (blob kind false bytes))
        else do bytes ← parse_byte_array_data c.count; pure (blob kind false bytes)

  -- ArrayData::Parse; `elements` is its loop.
  unfoldable pub parse_array : ArrayKind → (Bool → ℕ → Parser Trees) → Parser Data
  unfolding parse_count
  parse_array kind elements = do
    c ← parse_count p
    if not c.streamed && c.count == null_count
        then pure (aggregate kind true no_trees)
        else do ts ← elements c.streamed c.count; pure (aggregate kind false ts)

  -- MapData::Parse; `pairs` is its first loop.
  unfoldable pub parse_map : MapKind → (Bool → ℕ → Parser Pairs) → Parser Data
  unfolding parse_count settle
  parse_map kind pairs = do
    c ← parse_count p
    ps ← pairs c.streamed c.count
    let (rest, fields) = settle ps no_fields
    pure (dictionary kind rest fields)

  -- The Parse method that ParseDataType calls, given the loops.
  unfoldable pub parse_method :
      (chunks : Parser Bytes) (elements : Bool → ℕ → Parser Trees) (pairs : Bool → ℕ → Parser Pairs)
      → Option Class
      → Parser Data
  unfolding parse_simple parse_number parse_double parse_boolean parse_big_number parse_chunk
      parse_blob parse_array parse_map parse_crlf
  parse_method chunks elements pairs none = fail
  parse_method chunks elements pairs (some (blob_class chunk)) = parse_chunk
  parse_method chunks elements pairs (some (blob_class kind)) = parse_blob kind chunks
  parse_method chunks elements pairs (some (simple_class kind)) = parse_simple kind
  parse_method chunks elements pairs (some number_class) = parse_number
  parse_method chunks elements pairs (some double_class) = parse_double
  parse_method chunks elements pairs (some boolean_class) = parse_boolean
  parse_method chunks elements pairs (some big_number_class) = parse_big_number
  parse_method chunks elements pairs (some end_class) = parse_crlf >> pure end_data
  parse_method chunks elements pairs (some null_class) = parse_crlf >> pure null_data
  parse_method chunks elements pairs (some (array_class kind)) = parse_array kind elements
  parse_method chunks elements pairs (some (map_class kind)) = parse_map kind pairs

  -- The body of the loop over chunks; `more` is the next round.
  unfoldable pub add_chunk : (more : Bytes → Parser Bytes) → Bytes → Option Bytes → Parser Bytes
  unfolding append_chunk
  add_chunk more bytes none = fail
  add_chunk more bytes (some piece) =
      if length piece == 0 then pure bytes else (do bytes' ← append_chunk bytes piece; more bytes')

  -- Each call costs a unit of fuel.
  unfoldable mutual
    unfolding class_of parse_method add_chunk as_chunk is_end is_attribute

    pub parse_tree : ℕ → Parser Tree
    parse_tree zero s = out_of_fuel
    parse_tree (suc fuel) s =
        (do
          d ← parse_data_type fuel
          if is_attribute d
              then (do d' ← parse_data_type fuel; pure (attributed d d'))
              else pure (bare d))
          s

    pub parse_data_type : ℕ → Parser Data
    parse_data_type zero s = out_of_fuel
    parse_data_type (suc fuel) s =
        (do
          byte ← read_byte
          parse_method (parse_chunks fuel []) (parse_trees fuel) (parse_pairs fuel) (class_of byte))
          s

    pub parse_trees : ℕ → (streamed : Bool) → (count : ℕ) → Parser Trees
    parse_trees zero streamed count s = out_of_fuel
    parse_trees (suc fuel) streamed count s =
        let more : Parser Trees = do
          t ← parse_tree fuel
          if streamed && is_end (payload t) then pure no_trees else do
            ts ← parse_trees fuel streamed (if streamed then count else count - 1)
            pure (more_trees t ts)
        in if streamed || ltb 0 count then more s else ok no_trees s

    pub parse_pairs : ℕ → (streamed : Bool) → (count : ℕ) → Parser Pairs
    parse_pairs zero streamed count s = out_of_fuel
    parse_pairs (suc fuel) streamed count s =
        let more : Parser Pairs = do
          k ← parse_tree fuel
          if streamed && is_end (payload k) then pure no_pairs else do
            v ← parse_tree fuel
            ps ← parse_pairs fuel streamed (if streamed then count else count - 1)
            pure (more_pairs k v ps)
        in if streamed || ltb 0 count then more s else ok no_pairs s

    pub parse_chunks : ℕ → Bytes → Parser Bytes
    parse_chunks zero bytes s = out_of_fuel
    parse_chunks (suc fuel) bytes s =
        (do d ← parse_data_type fuel; add_chunk (parse_chunks fuel) bytes (as_chunk d)) s
