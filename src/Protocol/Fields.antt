-- ===== src/Protocol/Fields.antt =====
-- The fields of a MapData: the `std::map` from strings to values, and the pairs whose key is none.
pub mod Order
pub mod Lookup
use yarc.Base.{Bool, true, false, Option, none, some, [], ◌∷◌, Bytes, ltb, ◌==◌, if◌then◌else◌}
use yarc.Protocol.Data.{
  Tree, Data, Pairs, Fields, payload, blob, simple, blob_string, simple_string, no_pairs,
  more_pairs, no_fields, more_fields,
}

unfoldable pub bytes_eq : Bytes → Bytes → Bool
bytes_eq [] [] = true
bytes_eq [] (b ∷ bs) = false
bytes_eq (a ∷ as') [] = false
bytes_eq (a ∷ as') (b ∷ bs) = if a == b then bytes_eq as' bs else false

-- The order of `std::string`.
unfoldable pub bytes_lt : Bytes → Bytes → Bool
bytes_lt [] [] = false
bytes_lt [] (b ∷ bs) = true
bytes_lt (a ∷ as') [] = false
bytes_lt (a ∷ as') (b ∷ bs) = if a == b then bytes_lt as' bs else ltb a b

-- GetField
unfoldable pub get_field : Bytes → Fields → Option Tree
unfolding bytes_eq
get_field key no_fields = none
get_field key (more_fields k v fs) = if bytes_eq k key then some v else get_field key fs

-- `erase` at the key
unfoldable pub erase_field : Bytes → Fields → Fields
unfolding bytes_eq
erase_field key no_fields = no_fields
erase_field key (more_fields k v fs) =
    if bytes_eq k key then fs else more_fields k v (erase_field key fs)

-- `insert` of a key that the map does not hold
unfoldable pub insert_field : Bytes → Tree → Fields → Fields
unfolding bytes_lt
insert_field key v no_fields = more_fields key v no_fields
insert_field key v (more_fields k w fs) =
    if bytes_lt key k
    then more_fields key v (more_fields k w fs)
    else more_fields k w (insert_field key v fs)

-- SetField
unfoldable pub set_field : Bytes → Tree → Fields → Fields
unfolding get_field erase_field insert_field
set_field key v fs = elim (get_field key fs) [
  | none ↦ insert_field key v fs
  | some old ↦ insert_field key v (erase_field key fs)
]

-- The text of a field that is a SimpleStringData or a BlobStringData.
unfoldable pub string_key : Data → Option Bytes
string_key (simple simple_string value) = some value
string_key (blob blob_string null value) = some value
string_key _ = none

-- The second loop of MapData::Parse: a pair with a string for its field goes into the map.
unfoldable pub settle : Pairs → Fields → Pairs × Fields
unfolding string_key set_field
settle no_pairs fs = (no_pairs, fs)
settle (more_pairs k v ps) fs = elim (string_key (payload k)) [
  | some key ↦ settle ps (set_field key v fs)
  | none ↦ let (rest, fs') = settle ps fs in (more_pairs k v rest, fs')
]
