-- ===== src/ClusterClient/Slots/Coverage.antt =====
-- What the test of full coverage shows.
use yarc.Base.{
  ℕ, zero, suc, ◌≤◌, ◌≡◌, ◌⊎◌, inl, inr, refl, Bool, true, false, ◌&&◌, ◌||◌, Option, none, some,
  List, [], ◌∷◌, ◌++◌, ltb, leb, length, arith, Bool-cases, length-append,
}
use yarc.ClusterClient.Slots.{
  SlotRange, combine, handles_slot, combine_behind, combine_pair, combine_loop, is_full,
  has_full_slot_coverage,
}

-- A slot in range.
abbrev Has : SlotRange → ℕ → Type 0
Has r slot = (r.min_slot ≤ slot) × (slot ≤ r.max_slot)

handles_slot-cons :
    (r : SlotRange) (rs : List SlotRange) (slot : ℕ)
    → handles_slot (r ∷ rs) slot ≡ true
    → Has r slot ⊎ (handles_slot rs slot ≡ true)
unfolding handles_slot
handles_slot-cons r rs slot h = ground (arith, h)

handles_slot-head :
    (r : SlotRange) (rs : List SlotRange) (slot : ℕ)
    → Has r slot
    → handles_slot (r ∷ rs) slot ≡ true
unfolding handles_slot
handles_slot-head r rs slot h = ground (arith, h.0, h.1)

handles_slot-tail :
    (r : SlotRange) (rs : List SlotRange) (slot : ℕ)
    → handles_slot rs slot ≡ true
    → handles_slot (r ∷ rs) slot ≡ true
unfolding handles_slot
handles_slot-tail r rs slot h = rw h (or-true (leb r.min_slot slot && leb slot r.max_slot))
  where
    or-true : (b : Bool) → (b || true) ≡ true
    or-true true = refl
    or-true false = refl

handles_slot-snoc :
    (rs : List SlotRange) (c : SlotRange) (slot : ℕ)
    → handles_slot (rs ++ c ∷ []) slot ≡ true
    → handles_slot (c ∷ rs) slot ≡ true
handles_slot-snoc [] c slot h = h
handles_slot-snoc (r ∷ rs) c slot h = elim (handles_slot-cons r (rs ++ c ∷ []) slot h) [
  | inl here ↦ handles_slot-tail c (r ∷ rs) slot (handles_slot-head r rs slot here)
  | inr later ↦ elim (handles_slot-cons c rs slot (handles_slot-snoc rs c slot later)) [
    | inl here ↦ handles_slot-head c (r ∷ rs) slot here
    | inr there ↦ handles_slot-tail c (r ∷ rs) slot (handles_slot-tail r rs slot there)
  ]
]

combine-Has :
    (a b c : SlotRange) (slot : ℕ) → combine a b ≡ some c → Has c slot → Has a slot ⊎ Has b slot
unfolding combine
combine-Has a b c slot e h = ground (arith, e, h.0, h.1)

-- A combined range, with the ranges that are left, handles no slot that the ranges did not.
abbrev Within : List SlotRange → ℕ → Option (SlotRange × List SlotRange) → Type 0
Within rs slot none = Unit {0}
Within rs slot (some (c, rest)) = handles_slot (c ∷ rest) slot ≡ true → handles_slot rs slot ≡ true

-- A range in front of both.
skip :
    (r c : SlotRange) (rs rest : List SlotRange) (slot : ℕ)
    → (handles_slot (c ∷ rest) slot ≡ true → handles_slot rs slot ≡ true)
    → handles_slot (c ∷ r ∷ rest) slot ≡ true
    → handles_slot (r ∷ rs) slot ≡ true
skip r c rs rest slot h k = elim (handles_slot-cons c (r ∷ rest) slot k) [
  | inl here ↦ handles_slot-tail r rs slot (h (handles_slot-head c rest slot here))
  | inr there ↦ elim (handles_slot-cons r rest slot there) [
    | inl here ↦ handles_slot-head r rs slot here
    | inr later ↦ handles_slot-tail r rs slot (h (handles_slot-tail c rest slot later))
  ]
]

swap :
    (a b : SlotRange) (rs : List SlotRange) (slot : ℕ)
    → handles_slot (b ∷ a ∷ rs) slot ≡ true
    → handles_slot (a ∷ b ∷ rs) slot ≡ true
swap a b rs slot h = elim (handles_slot-cons b (a ∷ rs) slot h) [
  | inl here ↦ handles_slot-tail a (b ∷ rs) slot (handles_slot-head b rs slot here)
  | inr there ↦ elim (handles_slot-cons a rs slot there) [
    | inl here ↦ handles_slot-head a (b ∷ rs) slot here
    | inr later ↦ handles_slot-tail a (b ∷ rs) slot (handles_slot-tail b rs slot later)
  ]
]

skip_second :
    (a b : SlotRange) (bs : List SlotRange) (slot : ℕ) (o : Option (SlotRange × List SlotRange))
    → Within (a ∷ bs) slot o
    → Within (a ∷ b ∷ bs) slot (elim o [ some (c, rest) ↦ some (c, b ∷ rest) | none ↦ none ])
skip_second a b bs slot none h = tt
skip_second a b bs slot (some (c, rest)) h = λ k. swap a b bs slot (skip b c (a ∷ bs) rest slot h k)

combine_behind-Within :
    (a : SlotRange) (bs : List SlotRange) (slot : ℕ) → Within (a ∷ bs) slot (combine_behind a bs)
unfolding combine_behind
combine_behind-Within a [] slot = tt
combine_behind-Within a (b ∷ bs) slot =
    here_or_later (combine a b) refl (combine_behind-Within a bs slot)
  where
    combined : (c : SlotRange) → combine a b ≡ some c → Within (a ∷ b ∷ bs) slot (some (c, bs))
    combined c e k = elim (handles_slot-cons c bs slot k) [
      | inl here ↦ elim (combine-Has a b c slot e here) [
        | inl at_a ↦ handles_slot-head a (b ∷ bs) slot at_a
        | inr at_b ↦ handles_slot-tail a (b ∷ bs) slot (handles_slot-head b bs slot at_b)
      ]
      | inr later ↦ handles_slot-tail a (b ∷ bs) slot (handles_slot-tail b bs slot later)
    ]

    here_or_later :
        (o : Option SlotRange)
        → combine a b ≡ o
        → Within (a ∷ bs) slot (combine_behind a bs)
        → Within (a ∷ b ∷ bs) slot (elim o [
          | some c ↦ some (c, bs)
          | none ↦ elim (combine_behind a bs) [ some (c, rest) ↦ some (c, b ∷ rest) | none ↦ none ]
        ])
    here_or_later none e later = skip_second a b bs slot (combine_behind a bs) later
    here_or_later (some c) e later = combined c e

combine_pair-Within : (rs : List SlotRange) (slot : ℕ) → Within rs slot (combine_pair rs)
unfolding combine_pair
combine_pair-Within [] slot = tt
combine_pair-Within (a ∷ as') slot =
    first (combine_behind a as') (combine_behind-Within a as' slot) (combine_pair-Within as' slot)
  where
    second :
        (o : Option (SlotRange × List SlotRange))
        → Within as' slot o
        → Within (a ∷ as') slot (elim o [ some (c, rest) ↦ some (c, a ∷ rest) | none ↦ none ])
    second none h = tt
    second (some (c, rest)) h = skip a c as' rest slot h

    first :
        (o : Option (SlotRange × List SlotRange))
        → Within (a ∷ as') slot o
        → Within as' slot (combine_pair as')
        → Within (a ∷ as') slot (elim o [
          | some (c, rest) ↦ some (c, rest)
          | none ↦ elim (combine_pair as') [ some (c, rest) ↦ some (c, a ∷ rest) | none ↦ none ]
        ])
    first none h later = second (combine_pair as') later
    first (some (c, rest)) h later = h

combine_loop-handles_slot :
    (fuel : ℕ) (rs : List SlotRange) (slot : ℕ)
    → handles_slot (combine_loop fuel rs) slot ≡ true
    → handles_slot rs slot ≡ true
unfolding combine_loop
combine_loop-handles_slot zero rs slot h = h
combine_loop-handles_slot (suc fuel) rs slot h = elim (Bool-cases (ltb 1 (length rs))) [
  | inl e ↦
      round (combine_pair rs) (combine_pair-Within rs slot)
        (λ ss. combine_loop-handles_slot fuel ss slot) (rw e at h)
  | inr e ↦ rw e at h
]
  where
    round :
        (o : Option (SlotRange × List SlotRange))
        → Within rs slot o
        → ((ss : List SlotRange)
            → handles_slot (combine_loop fuel ss) slot ≡ true
            → handles_slot ss slot ≡ true)
        → handles_slot
            (elim o [ none ↦ rs | some (c, rest) ↦ combine_loop fuel (rest ++ c ∷ []) ])
            slot
          ≡ true
        → handles_slot rs slot ≡ true
    round none w loop k = k
    round (some (c, rest)) w loop k = w (handles_slot-snoc rest c slot (loop (rest ++ c ∷ []) k))

is_full-handles_slot :
    (rs : List SlotRange) (slot : ℕ)
    → is_full rs ≡ some true
    → slot ≤ 16383
    → handles_slot rs slot ≡ true
unfolding is_full
is_full-handles_slot [] slot h le = absurd (cc)
is_full-handles_slot (r ∷ []) slot h le = handles_slot-head r [] slot (ground (arith, h, le))
is_full-handles_slot (r ∷ s ∷ rs) slot h le = absurd (cc)

-- Where ClusterConfigHasFullSlotCoverage finds full coverage, every slot up to 16383 lies in one of
-- the ranges.
pub has_full_slot_coverage-handles_slot :
    (rs : List SlotRange) (slot : ℕ)
    → has_full_slot_coverage rs ≡ some true
    → slot ≤ 16383
    → handles_slot rs slot ≡ true
unfolding has_full_slot_coverage
has_full_slot_coverage-handles_slot rs slot h le =
    combine_loop-handles_slot (length rs) rs slot
      (is_full-handles_slot (combine_loop (length rs) rs) slot h le)

-- A pair that combines leaves one range less.
abbrev Shorter : List SlotRange → Option (SlotRange × List SlotRange) → Type 0
Shorter rs none = Unit {0}
Shorter rs (some (c, rest)) = suc (suc (length rest)) ≡ length rs

combine_behind-Shorter :
    (a : SlotRange) (bs : List SlotRange) → Shorter (a ∷ bs) (combine_behind a bs)
unfolding combine_behind
combine_behind-Shorter a [] = tt
combine_behind-Shorter a (b ∷ bs) =
    found (combine a b) (combine_behind a bs) (combine_behind-Shorter a bs)
  where
    found :
        (o : Option SlotRange) (later : Option (SlotRange × List SlotRange))
        → Shorter (a ∷ bs) later
        → Shorter (a ∷ b ∷ bs) (elim o [
          | some c ↦ some (c, bs)
          | none ↦ elim later [ some (c, rest) ↦ some (c, b ∷ rest) | none ↦ none ]
        ])
    found (some c) later h = refl
    found none none h = tt
    found none (some (c, rest)) h = omega (arith, h)

combine_pair-Shorter : (rs : List SlotRange) → Shorter rs (combine_pair rs)
unfolding combine_pair
combine_pair-Shorter [] = tt
combine_pair-Shorter (a ∷ as') =
    found (combine_behind a as') (combine_pair as') (combine_behind-Shorter a as')
      (combine_pair-Shorter as')
  where
    found :
        (o later : Option (SlotRange × List SlotRange))
        → Shorter (a ∷ as') o
        → Shorter as' later
        → Shorter (a ∷ as') (elim o [
          | some (c, rest) ↦ some (c, rest)
          | none ↦ elim later [ some (c, rest) ↦ some (c, a ∷ rest) | none ↦ none ]
        ])
    found (some (c, rest)) later h k = h
    found none none h k = tt
    found none (some (c, rest)) h k = omega (arith, k)

combine_loop-ends_from :
    (fuel : ℕ) (rs : List SlotRange)
    → length rs ≤ fuel
    → (length (combine_loop fuel rs) ≤ 1) ⊎ (combine_pair (combine_loop fuel rs) ≡ none)
unfolding combine_loop
combine_loop-ends_from zero rs le = inl (omega arith)
combine_loop-ends_from (suc fuel) rs le = elim (Bool-cases (ltb 1 (length rs))) [
  | inl e ↦ rw e (
      round (combine_pair rs) refl (combine_pair-Shorter rs) (λ ss. combine_loop-ends_from fuel ss))
  | inr e ↦ rw e (inl (ground arith))
]
  where
    round :
        (o : Option (SlotRange × List SlotRange))
        → combine_pair rs ≡ o
        → Shorter rs o
        → ((ss : List SlotRange)
            → length ss ≤ fuel
            → (length (combine_loop fuel ss) ≤ 1) ⊎ (combine_pair (combine_loop fuel ss) ≡ none))
        → (length (elim o [ none ↦ rs | some (c, rest) ↦ combine_loop fuel (rest ++ c ∷ []) ]) ≤ 1)
          ⊎ (combine_pair
                (elim o [ none ↦ rs | some (c, rest) ↦ combine_loop fuel (rest ++ c ∷ []) ])
              ≡ none)
    round none e s loop = inr e
    round (some (c, rest)) e s loop =
        loop (rest ++ c ∷ []) (omega (arith, s, length-append rest (c ∷ [])))

-- As many rounds as there are ranges are enough for the loop of ClusterConfigHasFullSlotCoverage:
-- they leave one range at most, or no two that combine.
pub combine_loop-ends :
    (rs : List SlotRange)
    → (length (combine_loop (length rs) rs) ≤ 1)
      ⊎ (combine_pair (combine_loop (length rs) rs) ≡ none)
combine_loop-ends rs = combine_loop-ends_from (length rs) rs (omega arith)
