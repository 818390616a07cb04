-- ===== src/Protocol/Fields/Order.antt =====
-- The map of a MapData stays in the order of its keys, and takes new keys at their place.
use yarc.Base.{
  ◌≡◌, refl, true, false, none, [], ◌∷◌, Bytes, arith, inl, inr, Bool-cases, Option-cases,
}
use yarc.Protocol.Data.{Tree, Pairs, Fields, payload, no_pairs, more_pairs, no_fields, more_fields}
use yarc.Protocol.Fields.{
  bytes_eq, bytes_lt, get_field, erase_field, insert_field, set_field, string_key, settle,
}

pub bytes_eq_refl : (a : Bytes) → bytes_eq a a ≡ true
unfolding bytes_eq
bytes_eq_refl [] = refl
bytes_eq_refl (x ∷ a) = ground (arith, bytes_eq_refl a)

pub eq_of_bytes_eq : (a b : Bytes) → bytes_eq a b ≡ true → a ≡ b
unfolding bytes_eq
eq_of_bytes_eq [] [] h = refl
eq_of_bytes_eq [] (y ∷ b) h = cc
eq_of_bytes_eq (x ∷ a) [] h = cc
eq_of_bytes_eq (x ∷ a) (y ∷ b) h = ground (arith, eq_of_bytes_eq a b)

pub bytes_eq_of_lt : (a b : Bytes) → bytes_lt a b ≡ true → bytes_eq a b ≡ false
unfolding bytes_eq bytes_lt
bytes_eq_of_lt [] [] h = cc
bytes_eq_of_lt [] (y ∷ b) h = refl
bytes_eq_of_lt (x ∷ a) [] h = cc
bytes_eq_of_lt (x ∷ a) (y ∷ b) h = ground (arith, bytes_eq_of_lt a b)

pub bytes_eq_of_gt : (a b : Bytes) → bytes_lt b a ≡ true → bytes_eq a b ≡ false
unfolding bytes_eq bytes_lt
bytes_eq_of_gt [] [] h = cc
bytes_eq_of_gt [] (y ∷ b) h = refl
bytes_eq_of_gt (x ∷ a) [] h = refl
bytes_eq_of_gt (x ∷ a) (y ∷ b) h = ground (arith, bytes_eq_of_gt a b)

pub bytes_lt_asymm : (a b : Bytes) → bytes_lt a b ≡ true → bytes_lt b a ≡ false
unfolding bytes_lt
bytes_lt_asymm [] [] h = refl
bytes_lt_asymm [] (y ∷ b) h = refl
bytes_lt_asymm (x ∷ a) [] h = cc
bytes_lt_asymm (x ∷ a) (y ∷ b) h = ground (arith, bytes_lt_asymm a b)

pub bytes_lt_trans :
    (a b c : Bytes) → bytes_lt a b ≡ true → bytes_lt b c ≡ true → bytes_lt a c ≡ true
unfolding bytes_lt
bytes_lt_trans [] [] c h k = k
bytes_lt_trans [] (y ∷ b) [] h k = cc
bytes_lt_trans [] (y ∷ b) (z ∷ c) h k = refl
bytes_lt_trans (x ∷ a) [] c h k = cc
bytes_lt_trans (x ∷ a) (y ∷ b) [] h k = cc
bytes_lt_trans (x ∷ a) (y ∷ b) (z ∷ c) h k = ground (arith, bytes_lt_trans a b c)

pub bytes_lt_total :
    (a b : Bytes) → bytes_lt a b ≡ false → bytes_eq b a ≡ false → bytes_lt b a ≡ true
unfolding bytes_lt bytes_eq
bytes_lt_total [] [] h k = cc
bytes_lt_total [] (y ∷ b) h k = cc
bytes_lt_total (x ∷ a) [] h k = refl
bytes_lt_total (x ∷ a) (y ∷ b) h k = ground (arith, bytes_lt_total a b)

-- Every key of the map lies above `key`.
abbrev pub Above : Bytes → Fields → Type 0
Above key no_fields = Unit
Above key (more_fields k v fs) = (bytes_lt key k ≡ true) × Above key fs

-- The keys ascend, so no key stands twice.
abbrev pub IsSorted : Fields → Type 0
IsSorted no_fields = Unit
IsSorted (more_fields k v fs) = Above k fs × IsSorted fs

Above-trans : (a b : Bytes) (fs : Fields) → bytes_lt a b ≡ true → Above b fs → Above a fs
Above-trans a b no_fields h k = tt
Above-trans a b (more_fields c v fs) h k = (bytes_lt_trans a b c h k.0, Above-trans a b fs h k.1)

Above-insert_field :
    (a key : Bytes) (v : Tree) (fs : Fields)
    → bytes_lt a key ≡ true
    → Above a fs
    → Above a (insert_field key v fs)
unfolding insert_field
Above-insert_field a key v no_fields h k = (h, tt)
Above-insert_field a key v (more_fields c w fs) h k =
    ground (arith, Above-insert_field a key v fs h k.1)

Above-erase_field : (a key : Bytes) (fs : Fields) → Above a fs → Above a (erase_field key fs)
unfolding erase_field
Above-erase_field a key no_fields k = tt
Above-erase_field a key (more_fields c w fs) k = ground (arith, Above-erase_field a key fs k.1)

get_field-Above : (key : Bytes) (fs : Fields) → Above key fs → get_field key fs ≡ none
unfolding get_field
get_field-Above key no_fields k = refl
get_field-Above key (more_fields c w fs) k =
    ground (arith, bytes_eq_of_gt c key k.0, get_field-Above key fs k.1)

pub erase_field-IsSorted : (key : Bytes) (fs : Fields) → IsSorted fs → IsSorted (erase_field key fs)
unfolding erase_field
erase_field-IsSorted key no_fields s = tt
erase_field-IsSorted key (more_fields c w fs) s =
    ground (arith, Above-erase_field c key fs s.0, erase_field-IsSorted key fs s.1)

pub get_field-erase_field :
    (key : Bytes) (fs : Fields) → IsSorted fs → get_field key (erase_field key fs) ≡ none
unfolding get_field erase_field
get_field-erase_field key no_fields s = refl
get_field-erase_field key (more_fields c w fs) s = elim (Bool-cases (bytes_eq c key)) [
  | inl e ↦ rw e (get_field-Above key fs (let same = eq_of_bytes_eq c key e in rw same at s.0))
  | inr e ↦ rw (e, e) (get_field-erase_field key fs s.1)
]

insert_field-IsSorted :
    (key : Bytes) (v : Tree) (fs : Fields)
    → get_field key fs ≡ none
    → IsSorted fs
    → IsSorted (insert_field key v fs)
unfolding insert_field get_field
insert_field-IsSorted key v no_fields absent s = (tt, tt)
insert_field-IsSorted key v (more_fields c w fs) absent s = elim (Bool-cases (bytes_lt key c)) [
  | inl e ↦ rw e ((e, Above-trans key c fs e s.0), s)
  | inr e ↦
      ground
        (arith, bytes_lt_total key c, Above-insert_field c key v fs, insert_field-IsSorted key v fs)
]

-- SetField keeps the map in the order of its keys.
pub set_field-IsSorted :
    (key : Bytes) (v : Tree) (fs : Fields) → IsSorted fs → IsSorted (set_field key v fs)
unfolding set_field
set_field-IsSorted key v fs s = elim (Option-cases (get_field key fs)) [
  | inl e ↦ rw (e, set_field) (insert_field-IsSorted key v fs e s)
  | inr (old, e) ↦
      rw (e, set_field)
        (insert_field-IsSorted key v (erase_field key fs) (get_field-erase_field key fs s)
          (erase_field-IsSorted key fs s))
]

-- The second loop of MapData::Parse keeps a map sorted by strictly ascending keys.
pub settle-IsSorted : (ps : Pairs) (fs : Fields) → IsSorted fs → IsSorted (settle ps fs).1
unfolding settle
settle-IsSorted no_pairs fs s = s
settle-IsSorted (more_pairs k v ps) fs s =
    let kept = settle-IsSorted ps fs s in
    let moved =
      λ (key : Bytes). settle-IsSorted ps (set_field key v fs) (set_field-IsSorted key v fs s) in
    elim (Option-cases (string_key (payload k))) [
      | inl e ↦ rw (e, settle, IsSorted) kept
      | inr (key, e) ↦ rw (e, settle, IsSorted) (moved key)
    ]
