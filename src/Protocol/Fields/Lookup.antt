-- ===== src/Protocol/Fields/Lookup.antt =====
-- GetField after SetField, and what the map of a parsed dictionary holds.
use yarc.Base.{
  ◌≡◌, refl, ◌∙◌, false, Option, none, some, Bytes, if◌then◌else◌, arith, inl, inr, Option-cases,
  ap,
}
use yarc.Protocol.Data.{Tree, Pairs, Fields, payload, no_pairs, more_pairs, no_fields, more_fields}
use yarc.Protocol.Fields.{
  bytes_eq, get_field, erase_field, insert_field, set_field, string_key, settle,
}
use yarc.Protocol.Fields.Order.{
  bytes_eq_refl, eq_of_bytes_eq, get_field-erase_field, IsSorted, set_field-IsSorted,
}

get_field-insert_field :
    (key j : Bytes) (v : Tree) (fs : Fields)
    → get_field key fs ≡ none
    → get_field j (insert_field key v fs) ≡ (if bytes_eq key j then some v else get_field j fs)
unfolding get_field insert_field
get_field-insert_field key j v no_fields absent = refl
get_field-insert_field key j v (more_fields c w fs) absent = ground (
  arith,
  get_field-insert_field key j v fs,
  eq_of_bytes_eq c j,
  eq_of_bytes_eq key j,
  bytes_eq_refl key,
)

get_field-erase_field_ne :
    (key j : Bytes) (fs : Fields)
    → bytes_eq key j ≡ false
    → get_field j (erase_field key fs) ≡ get_field j fs
unfolding get_field erase_field
get_field-erase_field_ne key j no_fields ne = refl
get_field-erase_field_ne key j (more_fields c w fs) ne =
    ground (arith, get_field-erase_field_ne key j fs, eq_of_bytes_eq c key)

-- On a sorted map, GetField after SetField gives the new value at its key, and the old ones
-- elsewhere.
pub get_field-set_field :
    (key j : Bytes) (v : Tree) (fs : Fields)
    → IsSorted fs
    → get_field j (set_field key v fs) ≡ (if bytes_eq key j then some v else get_field j fs)
unfolding set_field
get_field-set_field key j v fs s = elim (Option-cases (get_field key fs)) [
  | inl e ↦ rw (e, set_field) (get_field-insert_field key j v fs e)
  | inr (old, e) ↦
      rw (e, set_field)
        (ground (
          arith,
          get_field-insert_field key j v (erase_field key fs) (get_field-erase_field key fs s),
          get_field-erase_field_ne key j fs,
        ))
]

-- What MapData::Parse puts in the map for `key`: the value of the last pair with that key.
unfoldable pub last_value : Bytes → Pairs → Option Tree → Option Tree
unfolding string_key bytes_eq
last_value key no_pairs found = found
last_value key (more_pairs k v ps) found = last_value key ps (elim (string_key (payload k)) [
  | none ↦ found
  | some key' ↦ if bytes_eq key' key then some v else found
])

-- After the second loop of MapData::Parse on a sorted map, a key has the value of the last pair of
-- that key, or else what the map held before.
pub get_field-settle :
    (key : Bytes) (ps : Pairs) (fs : Fields)
    → IsSorted fs
    → get_field key (settle ps fs).1 ≡ last_value key ps (get_field key fs)
unfolding settle last_value
get_field-settle key no_pairs fs s = refl
get_field-settle key (more_pairs k v ps) fs s = elim (Option-cases (string_key (payload k))) [
  | inl e ↦ rw (e, settle, last_value) (get_field-settle key ps fs s)
  | inr (key', e) ↦
      rw (e, settle, last_value)
        (get_field-settle key ps (set_field key' v fs) (set_field-IsSorted key' v fs s)
          ∙ ap (last_value key ps) (get_field-set_field key' key v fs s))
]
