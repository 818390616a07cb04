-- ===== src/ClusterClient/Slots.antt =====
-- ClusterNode::SlotRange, HandlesSlot and ClusterConfigHasFullSlotCoverage.
pub mod Coverage
use yarc.Base.{
  ℕ, zero, suc, ◌+◌, Bool, true, false, ◌&&◌, ◌||◌, Option, none, some, List, [], ◌∷◌, ◌++◌, ◌==◌,
  ltb, leb, if◌then◌else◌, length,
}

pub record SlotRange : Type 0 where
  pub min_slot : ℕ
  pub max_slot : ℕ

-- Combine; the sum is an `int`, which does not wrap.
unfoldable pub combine : SlotRange → SlotRange → Option SlotRange
combine a b =
    if a.max_slot + 1 == b.min_slot
    then some (record { min_slot = a.min_slot; max_slot = b.max_slot })
    else if b.max_slot + 1 == a.min_slot
    then some (record { min_slot = b.min_slot; max_slot = a.max_slot })
    else none

unfoldable pub handles_slot : List SlotRange → ℕ → Bool
handles_slot [] slot = false
handles_slot (r ∷ rs) slot = (leb r.min_slot slot && leb slot r.max_slot) || handles_slot rs slot

-- The inner loop: the first range behind `a` that combines with it, and the list without that.
unfoldable pub combine_behind : SlotRange → List SlotRange → Option (SlotRange × List SlotRange)
unfolding combine
combine_behind a [] = none
combine_behind a (b ∷ bs) = elim (combine a b) [
  | some c ↦ some (c, bs)
  | none ↦ elim (combine_behind a bs) [ some (c, rest) ↦ some (c, b ∷ rest) | none ↦ none ]
]

-- The outer loop.
unfoldable pub combine_pair : List SlotRange → Option (SlotRange × List SlotRange)
unfolding combine_behind
combine_pair [] = none
combine_pair (a ∷ as') = elim (combine_behind a as') [
  | some (c, rest) ↦ some (c, rest)
  | none ↦ elim (combine_pair as') [ some (c, rest) ↦ some (c, a ∷ rest) | none ↦ none ]
]

-- The loop around both; a round that combines makes the list shorter by one.
unfoldable pub combine_loop : (fuel : ℕ) → List SlotRange → List SlotRange
unfolding combine_pair
combine_loop zero rs = rs
combine_loop (suc fuel) rs =
    if ltb 1 (length rs)
    then elim (combine_pair rs) [ none ↦ rs | some (c, rest) ↦ combine_loop fuel (rest ++ c ∷ []) ]
    else rs

-- The tests on what the loops leave. There is no value for the empty list, whose head is null.
unfoldable pub is_full : List SlotRange → Option Bool
is_full [] = none
is_full (r ∷ []) = some (r.min_slot == 0 && r.max_slot == 16383)
is_full (r ∷ s ∷ rs) = some false

unfoldable pub has_full_slot_coverage : List SlotRange → Option Bool
unfolding combine_loop is_full
has_full_slot_coverage rs = is_full (combine_loop (length rs) rs)
