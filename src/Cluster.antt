-- ===== src/Cluster.antt =====
-- Source/yarc_cluster.cpp: the set-up of a cluster for tests, and the migration of a slot.
pub mod Covered
pub mod Shares
pub mod Fits
pub mod Migration
pub mod Commands
pub mod Migrated
pub mod Choice
pub mod Ids
use yarc.Base.{
  ℕ, zero, suc, ◌+◌, ◌-◌, ◌*◌, ◌/◌, ◌%◌, Bool, true, false, Option, none, some, List, [], ◌∷◌, ◌++◌,
  Bytes, ◌==◌, ltb, leb, if◌then◌else◌, map,
}
use yarc.Protocol.Data.{Data}
use yarc.Protocol.Number.{print_count}
use yarc.Protocol.Command.{parse_command}

-- The loop that fills a command: the slots that it lists and the slot behind them. `slot++` wraps at 32 bits.
unfoldable pub add_slots_batch : (rounds : ℕ) → (slot max_slot : ℕ) → List ℕ × ℕ
add_slots_batch zero slot max_slot = ([], slot)
add_slots_batch (suc rounds) slot max_slot =
    let rest = add_slots_batch rounds ((slot + 1) % 0x100000000) max_slot in
    if leb slot max_slot then (slot ∷ rest.0, rest.1) else ([], slot)

unfoldable pub slot_words : List ℕ → Bytes
unfolding print_count
slot_words [] = []
slot_words (slot ∷ slots) = b' ' ∷ print_count slot ++ slot_words slots

-- `commandBuffer`, as far as its NUL.
unfoldable pub add_slots_command : List ℕ → Bytes
unfolding slot_words
add_slots_command slots =
    b'C'
    ∷ b'L'
    ∷ b'U'
    ∷ b'S'
    ∷ b'T'
    ∷ b'E'
    ∷ b'R'
    ∷ b' '
    ∷ b'A'
    ∷ b'D'
    ∷ b'D'
    ∷ b'S'
    ∷ b'L'
    ∷ b'O'
    ∷ b'T'
    ∷ b'S'
    ∷ slot_words slots

-- The loop of AddSlots: the slots of each command. There is no value where the rounds end before it does.
unfoldable pub add_slots_loop : (batch_size fuel : ℕ) → (slot max_slot : ℕ) → Option (List (List ℕ))
unfolding add_slots_batch
add_slots_loop batch_size zero slot max_slot = if leb slot max_slot then none else some []
add_slots_loop batch_size (suc fuel) slot max_slot =
    let batch = add_slots_batch batch_size slot max_slot in
    let rest = add_slots_loop batch_size fuel batch.1 max_slot in
    if leb slot max_slot
    then elim rest [ none ↦ none | some batches ↦ some (batch.0 ∷ batches) ]
    else some []

unfoldable pub add_slots : (fuel : ℕ) → (min_slot max_slot : ℕ) → Option (List (List ℕ))
unfolding add_slots_loop
add_slots fuel min_slot max_slot = add_slots_loop 100 fuel min_slot max_slot

-- A call of AddSlots in Setup: the index of the node, and the slots from the first to the last.
pub record Share : Type 0 where
  pub node : ℕ
  pub min_slot : ℕ
  pub max_slot : ℕ

-- Setup, step 6: the loop over the nodes from `i` on, `n` of them, and the base behind it.
unfoldable pub share_slots : (slaves_per_master slots_per_master n i slot_base : ℕ) → List Share × ℕ
share_slots slaves_per_master slots_per_master zero i slot_base = ([], slot_base)
share_slots slaves_per_master slots_per_master (suc n) i slot_base =
    let is_master = i % (1 + slaves_per_master) == 0 in
    let next_base = if is_master then (slot_base + slots_per_master) % 0x100000000 else slot_base in
    let rest = share_slots slaves_per_master slots_per_master n (i + 1) next_base in
    let share : Share = record {
      node = i;
      min_slot = slot_base;
      max_slot = (slot_base + slots_per_master + 0xffffffff) % 0x100000000;
    } in
    (if is_master then share ∷ rest.0 else rest.0, rest.1)

abbrev pub total_slots : ℕ
total_slots = 16384

unfoldable pub distribute_slots : (masters slaves_per_master : ℕ) → List Share
unfolding share_slots
distribute_slots masters slaves_per_master =
    let r =
      share_slots slaves_per_master (total_slots / masters) (masters + slaves_per_master * masters)
        0 0 in
    if ltb r.1 total_slots
    then r.0 ++ record { node = 0; min_slot = r.1; max_slot = total_slots - 1 } ∷ []
    else r.0

-- All the commands of these calls, in order, each with the index of its node.
unfoldable pub add_shares : (fuel : ℕ) → List Share → Option (List (ℕ × List ℕ))
unfolding add_slots
add_shares fuel [] = some []
add_shares fuel (share ∷ shares) =
    let rest = add_shares fuel shares in
    elim (add_slots fuel share.min_slot share.max_slot) [
      | none ↦ none
      | some batches ↦ elim rest [
        | none ↦ none
        | some more ↦ some (map (λ b. (share.node, b)) batches ++ more)
      ]
    ]
