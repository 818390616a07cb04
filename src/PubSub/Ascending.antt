-- ===== src/PubSub/Ascending.antt =====
-- The map of subscriptions stays in the order of its channels, and what find gives after its changes.
use std.Path.{subst}
use yarc.Base.{
  ◌≡◌, refl, sym, ◌∙◌, true, false, Bool-cases, inl, inr, none, some, List, [], ◌∷◌, Bytes,
  if◌then◌else◌, arith,
}
use yarc.Protocol.Fields.{bytes_eq, bytes_lt}
use yarc.Protocol.Fields.Order.{
  bytes_eq_refl, eq_of_bytes_eq, bytes_eq_of_gt, bytes_lt_trans, bytes_lt_total,
}
use yarc.PubSub.{Subscription, find_subscription, erase_subscription, insert_subscription}

-- Every channel of the map lies above this one.
unfoldable pub Above : Bytes → List Subscription → Type 0
Above channel [] = Unit
Above channel (s ∷ ss) = (bytes_lt channel s.channel ≡ true) × Above channel ss

-- The channels ascend.
unfoldable pub IsAscending : List Subscription → Type 0
IsAscending [] = Unit
IsAscending (s ∷ ss) = Above s.channel ss × IsAscending ss

Above-trans : (a b : Bytes) (ss : List Subscription) → bytes_lt a b ≡ true → Above b ss → Above a ss
unfolding Above
Above-trans a b [] h k = tt
Above-trans a b (s ∷ ss) h k = (bytes_lt_trans a b s.channel h k.0, Above-trans a b ss h k.1)

Above-erase_subscription :
    (a channel : Bytes) (ss : List Subscription)
    → Above a ss
    → Above a (erase_subscription channel ss)
unfolding Above erase_subscription
Above-erase_subscription a channel [] h = tt
Above-erase_subscription a channel (s ∷ ss) h =
    ground (arith, Above-erase_subscription a channel ss h.1)

Above-insert_subscription :
    (a : Bytes) (s : Subscription) (ss : List Subscription)
    → bytes_lt a s.channel ≡ true
    → Above a ss
    → Above a (insert_subscription s ss)
unfolding Above insert_subscription
Above-insert_subscription a s [] h k = (h, tt)
Above-insert_subscription a s (t ∷ ts) h k = ground (arith, Above-insert_subscription a s ts h k.1)

find_subscription-Above :
    (channel : Bytes) (ss : List Subscription)
    → Above channel ss
    → find_subscription channel ss ≡ none
unfolding Above find_subscription
find_subscription-Above channel [] h = refl
find_subscription-Above channel (s ∷ ss) h =
    rw (bytes_eq_of_gt s.channel channel h.0) (find_subscription-Above channel ss h.1)

pub erase_subscription-IsAscending :
    (channel : Bytes) (ss : List Subscription)
    → IsAscending ss
    → IsAscending (erase_subscription channel ss)
unfolding IsAscending erase_subscription
erase_subscription-IsAscending channel [] h = tt
erase_subscription-IsAscending channel (s ∷ ss) h = ground (
  arith,
  Above-erase_subscription s.channel channel ss h.0,
  erase_subscription-IsAscending channel ss h.1,
)

-- Two channels differ where the second is `c` and not the first.
bytes_eq-apart : (a b c : Bytes) → bytes_eq b a ≡ false → bytes_eq b c ≡ true → bytes_eq a c ≡ false
bytes_eq-apart a b c apart same = elim (Bool-cases (bytes_eq a c)) [
  | inr e ↦ e
  | inl e ↦
      let equal = eq_of_bytes_eq b c same ∙ sym (eq_of_bytes_eq a c e) in
      let broken : bytes_eq a a ≡ false = subst (λ (k : Bytes). bytes_eq k a ≡ false) equal apart in
      absurd (let whole = bytes_eq_refl a in cc)
]

pub find_subscription-none :
    (channel : Bytes) (s : Subscription) (ss : List Subscription)
    → find_subscription channel (s ∷ ss) ≡ none
    → (bytes_eq s.channel channel ≡ false) × (find_subscription channel ss ≡ none)
unfolding find_subscription
find_subscription-none channel s ss h = elim (Bool-cases (bytes_eq s.channel channel)) [
  | inl e ↦ absurd (let broken : some s ≡ none = rw e at h in cc)
  | inr e ↦ (e, rw e at h)
]

pub find_subscription-erase_subscription :
    (c channel : Bytes) (ss : List Subscription)
    → IsAscending ss
    → find_subscription c (erase_subscription channel ss)
      ≡ (if bytes_eq channel c then none else find_subscription c ss)
unfolding IsAscending find_subscription erase_subscription
find_subscription-erase_subscription c channel [] h = ground arith
find_subscription-erase_subscription c channel (s ∷ ss) h =
    let rest = find_subscription-erase_subscription c channel ss h.1 in
    elim (Bool-cases (bytes_eq s.channel channel)) [
      | inl e ↦
          let same = eq_of_bytes_eq s.channel channel e in
          elim (Bool-cases (bytes_eq channel c)) [
            | inl f ↦
                let here = eq_of_bytes_eq channel c f in
                let above = subst (λ (k : Bytes). Above k ss) (same ∙ here) h.0 in
                rw (e, f) (find_subscription-Above c ss above)
            | inr f ↦ let other : bytes_eq s.channel c ≡ false = rw same f in rw (e, f, other) refl
          ]
      | inr e ↦ elim (Bool-cases (bytes_eq s.channel c)) [
        | inl g ↦ let other = bytes_eq-apart channel s.channel c e g in rw (e, g, other) refl
        | inr g ↦ rw (e, g) rest
      ]
    ]

pub insert_subscription-IsAscending :
    (s : Subscription) (ss : List Subscription)
    → find_subscription s.channel ss ≡ none
    → IsAscending ss
    → IsAscending (insert_subscription s ss)
unfolding IsAscending Above insert_subscription find_subscription
insert_subscription-IsAscending s [] absent h = (tt, tt)
insert_subscription-IsAscending s (t ∷ ts) absent h =
    elim (Bool-cases (bytes_lt s.channel t.channel)) [
      | inl e ↦ rw e ((e, Above-trans s.channel t.channel ts e h.0), h)
      | inr e ↦ ground (
        arith,
        bytes_lt_total s.channel t.channel,
        Above-insert_subscription t.channel s ts,
        insert_subscription-IsAscending s ts,
      )
    ]

pub find_subscription-insert_subscription :
    (c : Bytes) (s : Subscription) (ss : List Subscription)
    → find_subscription s.channel ss ≡ none
    → find_subscription c (insert_subscription s ss)
      ≡ (if bytes_eq s.channel c then some s else find_subscription c ss)
unfolding find_subscription insert_subscription
find_subscription-insert_subscription c s [] absent = refl
find_subscription-insert_subscription c s (t ∷ ts) absent =
    let (apart, absent') = find_subscription-none s.channel t ts absent in
    let rest = find_subscription-insert_subscription c s ts absent' in
    elim (Bool-cases (bytes_lt s.channel t.channel)) [
      | inl e ↦ rw e refl
      | inr e ↦ elim (Bool-cases (bytes_eq t.channel c)) [
        | inl g ↦ let other = bytes_eq-apart s.channel t.channel c apart g in rw (e, g, other) refl
        | inr g ↦ rw (e, g) rest
      ]
    ]
