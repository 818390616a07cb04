-- ===== src/Protocol/Typing/Shapes.antt =====
-- The shape of a parsed value, and that the second loop of MapData::Parse gives it to a map.
use yarc.Base.{◌≡◌, true, false, none, [], Bytes, inl, inr, Bool-cases, Option-cases}
use yarc.Protocol.Data.{
  Tree, Data, Trees, Pairs, Fields, bare, attributed, blob, simple, number, double, boolean,
  big_number, end_data, null_data, aggregate, dictionary, no_trees, more_trees, no_pairs,
  more_pairs, no_fields, more_fields, payload,
}
use yarc.Protocol.Fields.{
  bytes_eq, bytes_lt, get_field, erase_field, insert_field, set_field, string_key, settle,
}
use yarc.Protocol.Fields.Order.{IsSorted}
use yarc.Protocol.Parser.{is_attribute, all_digits}

-- No key of the list is a string.
abbrev pub Keyless : Pairs → Type 0
Keyless no_pairs = Unit
Keyless (more_pairs k v ps) = (string_key (payload k) ≡ none) × Keyless ps

-- An attribute stands in front of a value and nowhere else; what is null is empty; a big number has
-- digits only; a map has its strings as sorted keys of the fields, and only the other keys as pairs.
unfoldable mutual
  pub IsShaped : Tree → Type 0
  IsShaped (bare d) = (is_attribute d ≡ false) × IsShapedData d
  IsShaped (attributed a d) = (is_attribute a ≡ true) × IsShapedData a × IsShapedData d

  pub IsShapedData : Data → Type 0
  IsShapedData (blob kind true bytes) = bytes ≡ []
  IsShapedData (blob kind false bytes) = Unit
  IsShapedData (simple kind value) = Unit
  IsShapedData (number value) = Unit
  IsShapedData (double bits) = Unit
  IsShapedData (boolean value) = Unit
  IsShapedData (big_number value) = all_digits value ≡ true
  IsShapedData end_data = Unit
  IsShapedData null_data = Unit
  IsShapedData (aggregate kind true ts) = ts ≡ no_trees
  IsShapedData (aggregate kind false ts) = AllShaped ts
  IsShapedData (dictionary kind ps fs) = ShapedPairs ps × Keyless ps × IsSorted fs × ShapedFields fs

  pub AllShaped : Trees → Type 0
  AllShaped no_trees = Unit
  AllShaped (more_trees t ts) = IsShaped t × AllShaped ts

  pub ShapedPairs : Pairs → Type 0
  ShapedPairs no_pairs = Unit
  ShapedPairs (more_pairs k v ps) = IsShaped k × IsShaped v × ShapedPairs ps

  pub ShapedFields : Fields → Type 0
  ShapedFields no_fields = Unit
  ShapedFields (more_fields key v fs) = IsShaped v × ShapedFields fs

erase_field-ShapedFields :
    (key : Bytes) (fs : Fields) → ShapedFields fs → ShapedFields (erase_field key fs)
unfolding erase_field IsShaped
erase_field-ShapedFields key no_fields h = tt
erase_field-ShapedFields key (more_fields k v fs) h = elim (Bool-cases (bytes_eq k key)) [
  | inl e ↦ rw e h.1
  | inr e ↦ rw e (h.0, erase_field-ShapedFields key fs h.1)
]

insert_field-ShapedFields :
    (key : Bytes) (v : Tree) (fs : Fields)
    → IsShaped v
    → ShapedFields fs
    → ShapedFields (insert_field key v fs)
unfolding insert_field IsShaped
insert_field-ShapedFields key v no_fields hv h = (hv, tt)
insert_field-ShapedFields key v (more_fields k w fs) hv h = elim (Bool-cases (bytes_lt key k)) [
  | inl e ↦ rw e (hv, h)
  | inr e ↦ rw e (h.0, insert_field-ShapedFields key v fs hv h.1)
]

set_field-ShapedFields :
    (key : Bytes) (v : Tree) (fs : Fields)
    → IsShaped v
    → ShapedFields fs
    → ShapedFields (set_field key v fs)
unfolding set_field
set_field-ShapedFields key v fs hv h = elim (Option-cases (get_field key fs)) [
  | inl e ↦ rw (set_field, e) (insert_field-ShapedFields key v fs hv h)
  | inr (old, e) ↦
      rw (set_field, e)
        (insert_field-ShapedFields key v (erase_field key fs) hv
          (erase_field-ShapedFields key fs h))
]

pub settle-Shaped :
    (ps : Pairs) (fs : Fields)
    → ShapedPairs ps
    → ShapedFields fs
    → ShapedPairs (settle ps fs).0 × Keyless (settle ps fs).0 × ShapedFields (settle ps fs).1
unfolding settle IsShaped
settle-Shaped no_pairs fs hp hf = (tt, tt, hf)
settle-Shaped (more_pairs k v ps) fs hp hf =
    let (rest, keyless, kept) = settle-Shaped ps fs hp.2 hf in
    let moved = λ (key : Bytes).
      settle-Shaped ps (set_field key v fs) hp.2 (set_field-ShapedFields key v fs hp.1 hf) in
    elim (Option-cases (string_key (payload k))) [
      | inl e ↦ rw (settle, e) ((hp.0, hp.1, rest), (e, keyless), kept)
      | inr (key, e) ↦ rw (settle, e) (moved key)
    ]
