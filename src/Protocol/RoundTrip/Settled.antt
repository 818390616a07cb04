-- ===== src/Protocol/RoundTrip/Settled.antt =====
-- The pairs of a printed dictionary settle into the dictionary.
use yarc.Base.{◌≡◌, refl, sym, ap, ◌∙◌, true, false, none, Bytes, arith}
use yarc.Protocol.Data.{
  Tree, Pairs, Fields, bare, blob, blob_string, no_pairs, more_pairs, no_fields, more_fields,
}
use yarc.Protocol.Fields.{bytes_lt, get_field, insert_field, set_field, settle}
use yarc.Protocol.Fields.Order.{bytes_eq_of_lt, bytes_lt_asymm, Above, IsSorted}
use yarc.Protocol.Reader.{Platform}
use yarc.Protocol.Encoding.{IsPlainTree, ArePlainPairs}

unfoldable pub append_pairs : Pairs → Pairs → Pairs
append_pairs no_pairs qs = qs
append_pairs (more_pairs k v ps) qs = more_pairs k v (append_pairs ps qs)

-- The pairs that the printer makes of a map.
unfoldable pub field_pairs : Fields → Pairs
field_pairs no_fields = no_pairs
field_pairs (more_fields k v fs) = more_pairs (bare (blob blob_string false k)) v (field_pairs fs)

append_fields : Fields → Fields → Fields
append_fields no_fields gs = gs
append_fields (more_fields k v fs) gs = more_fields k v (append_fields fs gs)

append_fields_nil : (fs : Fields) → append_fields fs no_fields ≡ fs
unfolding append_fields
append_fields_nil no_fields = refl
append_fields_nil (more_fields k v fs) = ap (more_fields k v) (append_fields_nil fs)

append_fields_assoc :
    (fs gs hs : Fields)
    → append_fields (append_fields fs gs) hs ≡ append_fields fs (append_fields gs hs)
unfolding append_fields
append_fields_assoc no_fields gs hs = refl
append_fields_assoc (more_fields k v fs) gs hs = ap (more_fields k v) (append_fields_assoc fs gs hs)

-- Every key of the map lies below `key`.
abbrev Below : Bytes → Fields → Type 0
Below key no_fields = Unit
Below key (more_fields k v fs) = (bytes_lt k key ≡ true) × Below key fs

-- Every key of `acc` lies below every key of `fs`.
abbrev Before : Fields → Fields → Type 0
Before acc no_fields = Unit
Before acc (more_fields k v fs) = Below k acc × Before acc fs

get_field-Below : (key : Bytes) (fs : Fields) → Below key fs → get_field key fs ≡ none
unfolding get_field
get_field-Below key no_fields h = refl
get_field-Below key (more_fields k v fs) h =
    ground (arith, bytes_eq_of_lt k key h.0, get_field-Below key fs h.1)

insert_field-Below :
    (key : Bytes) (v : Tree) (fs : Fields)
    → Below key fs
    → insert_field key v fs ≡ append_fields fs (more_fields key v no_fields)
unfolding insert_field append_fields
insert_field-Below key v no_fields h = refl
insert_field-Below key v (more_fields k w fs) h =
    ground (arith, bytes_lt_asymm k key h.0, insert_field-Below key v fs h.1)

set_field-Below :
    (key : Bytes) (v : Tree) (fs : Fields)
    → Below key fs
    → set_field key v fs ≡ append_fields fs (more_fields key v no_fields)
unfolding set_field
set_field-Below key v fs h =
    rw (get_field-Below key fs h, set_field) (insert_field-Below key v fs h)

Below-append_fields :
    (key k : Bytes) (v : Tree) (acc : Fields)
    → Below key acc
    → bytes_lt k key ≡ true
    → Below key (append_fields acc (more_fields k v no_fields))
unfolding append_fields
Below-append_fields key k v no_fields h e = (e, tt)
Below-append_fields key k v (more_fields c w acc) h e = (h.0, Below-append_fields key k v acc h.1 e)

Before-append_fields :
    (k : Bytes) (v : Tree) (acc fs : Fields)
    → Above k fs
    → Before acc fs
    → Before (append_fields acc (more_fields k v no_fields)) fs
Before-append_fields k v acc no_fields a b = tt
Before-append_fields k v acc (more_fields c w fs) a b =
    (Below-append_fields c k v acc b.0 a.0, Before-append_fields k v acc fs a.1 b.1)

Before-no_fields : (fs : Fields) → Before no_fields fs
Before-no_fields no_fields = tt
Before-no_fields (more_fields k v fs) = (tt, Before-no_fields fs)

settle-field_pairs :
    (fs acc : Fields)
    → IsSorted fs
    → Before acc fs
    → settle (field_pairs fs) acc ≡ (no_pairs, append_fields acc fs)
unfolding settle field_pairs append_fields
settle-field_pairs no_fields acc s b = ap (λ gs. (no_pairs, gs)) (sym (append_fields_nil acc))
settle-field_pairs (more_fields k v fs) acc s b = rw (set_field-Below k v acc b.0) (
    settle-field_pairs fs _ s.1 (Before-append_fields k v acc fs s.0 b.1)
    ∙ ap (λ gs. (no_pairs, gs)) (append_fields_assoc acc (more_fields k v no_fields) fs))

pub settle-append_pairs :
    (p : Platform) (ps : Pairs) (fs : Fields)
    → ArePlainPairs p ps
    → IsSorted fs
    → settle (append_pairs ps (field_pairs fs)) no_fields ≡ (ps, fs)
unfolding settle append_pairs IsPlainTree append_fields
settle-append_pairs p no_pairs fs h s = settle-field_pairs fs no_fields s (Before-no_fields fs)
settle-append_pairs p (more_pairs k v ps) fs h s =
    rw (h.1, settle) (rw (settle-append_pairs p ps fs h.3 s))
