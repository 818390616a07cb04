-- ===== src/Cluster/Choice/Among.antt =====
-- A migration that CreateRandomMigration chooses among all slots.
use yarc.Base.{
  ℕ, zero, suc, ◌+◌, ◌-◌, ◌≤◌, ◌≡◌, ◌≢◌, refl, ap, sym, ◌∙◌, inl, inr, Option, none, some, List,
  Bytes, length, ◌==◌, Option-cases, Bool-cases, arith,
}
use yarc.Protocol.Data.{Tree, Trees, no_trees, more_trees}
use yarc.Protocol.Printer.{count_trees}
use yarc.Protocol.HashSlot.{get_element}
use yarc.ClusterClient.Nodes.{array_elements}
use yarc.Cluster.Migration.{Migration, new_migration}
use yarc.Cluster.Choice.{
  random_number, entry_range, entry_id, find_node_with_id, null_pointer, no_migration,
  still_looking, chosen, other_entry, between, from_entry, create_random_migration,
}
use yarc.Cluster.Choice.Sources.{Serves}

random_number-between :
    (n min max : ℕ) → min ≤ max → (min ≤ random_number n min max) × (random_number n min max ≤ max)
unfolding random_number
random_number-between n min max h = ground arith

module _ (numbers : ℕ → ℕ) (ids : List Bytes) where
  other_entry-ne : (count i fuel k j : ℕ) → other_entry numbers ids count i fuel k ≡ some j → j ≢ i
  unfolding other_entry
  other_entry-ne count i zero k j h = absurd (cc)
  other_entry-ne count i (suc fuel) k j h =
      elim (Bool-cases (random_number (numbers k) 0 (count - 1) == i)) [
        | inl same ↦ other_entry-ne count i fuel (k + 1) j (rw (other_entry, same) at h)
        | inr other ↦
            let here : some (random_number (numbers k) 0 (count - 1)) ≡ some j =
              rw (other_entry, other) at h in
            let same : random_number (numbers k) 0 (count - 1) ≡ j = cc in ground (arith, same)
      ]

  between-chosen :
      (id : Bytes) (o : Option Bytes) (hash_slot : ℕ) (m : Migration)
      → between numbers ids (some id) o hash_slot ≡ chosen m
      → (m.hash_slot ≡ hash_slot) × (find_node_with_id ids id ≡ some m.source_node)
  unfolding between new_migration
  between-chosen id none hash_slot m h = absurd (cc)
  between-chosen id (some id') hash_slot m h = elim (Option-cases (find_node_with_id ids id)) [
    | inl e ↦ absurd (let broken : no_migration ≡ chosen m = rw (between, e) at h in cc)
    | inr (source, e) ↦ elim (Option-cases (find_node_with_id ids id')) [
      | inl f ↦ absurd (let broken : no_migration ≡ chosen m = rw (between, e, f) at h in cc)
      | inr (destination, f) ↦
          let made : chosen (new_migration source destination hash_slot) ≡ chosen m =
            rw (between, e, f) at h in
          let same : new_migration source destination hash_slot ≡ m = cc in
          (
            sym (ap (λ (x : Migration). x.hash_slot) same),
            e ∙ ap (λ (x : Migration). some x.source_node) same,
          )
    ]
  ]

  from_entry-none :
      (fuel : ℕ) (ts : Trees) (i : ℕ) → from_entry numbers ids fuel ts i none ≡ null_pointer
  unfolding from_entry
  from_entry-none fuel ts i = refl

  -- A chosen migration moves a slot of the entry away from the node of the entry.
  from_entry-Serves :
      (fuel : ℕ) (ts : Trees) (i min max : ℕ) (t : Tree) (m : Migration)
      → get_element ts i ≡ some t
      → entry_range t ≡ some (min, max)
      → min ≤ max
      → from_entry numbers ids fuel ts i (some t) ≡ chosen m
      → Serves ids ts m.hash_slot m.source_node
  unfolding from_entry
  from_entry-Serves fuel ts i min max t m at_i range ordered h = elim (Option-cases (entry_id t)) [
    | inl e ↦ absurd (let broken : null_pointer ≡ chosen m = rw (from_entry, range, e) at h in cc)
    | inr (id, e) ↦ elim (Option-cases (other_entry numbers ids (count_trees ts) i fuel 2)) [
      | inl f ↦
          absurd (let broken : still_looking ≡ chosen m = rw (from_entry, range, e, f) at h in cc)
      | inr (j, f) ↦ elim (Option-cases (get_element ts j)) [
        | inl g ↦
            absurd
              (let broken : null_pointer ≡ chosen m = rw (from_entry, range, e, f, g) at h in cc)
        | inr (u, g) ↦
            let slot = random_number (numbers 1) min max in
            let made : between numbers ids (some id) (entry_id u) slot ≡ chosen m =
              rw (from_entry, range, e, f, g) at h in
            let (moved, source) = between-chosen id (entry_id u) slot m made in
            let bounds = random_number-between (numbers 1) min max ordered in
            (
              i,
              t,
              min,
              max,
              at_i,
              range,
              omega (arith, moved, bounds.0),
              omega (arith, moved, bounds.1),
              (id, e, source),
            )
      ]
    ]
  ]

-- Every entry has a range, which is not empty.
unfoldable pub AllOrdered : Trees → Type 0
AllOrdered no_trees = Unit
AllOrdered (more_trees t ts) =
    ((min : ℕ) × (max : ℕ) × (entry_range t ≡ some (min, max)) × (min ≤ max)) × AllOrdered ts

get_element-ordered :
    (ts : Trees) (i : ℕ) (t : Tree)
    → AllOrdered ts
    → get_element ts i ≡ some t
    → (min : ℕ) × (max : ℕ) × (entry_range t ≡ some (min, max)) × (min ≤ max)
unfolding get_element AllOrdered
get_element-ordered no_trees i t ordered h = absurd (cc)
get_element-ordered (more_trees u us) zero t ordered h =
    let same : u ≡ t = cc in
    let (min, max, range, le) = ordered.0 in (min, max, rw (← same) range, le)
get_element-ordered (more_trees u us) (suc i) t ordered h = get_element-ordered us i t ordered.1 h

-- The migration that CreateRandomMigration gives.
pub create_random_migration-Serves :
    (numbers : ℕ → ℕ) (ids : List Bytes) (fuel : ℕ) (response_data : Tree) (ts : Trees)
    (m : Migration)
    → array_elements (some response_data) ≡ some ts
    → AllOrdered ts
    → create_random_migration numbers ids fuel (some response_data) ≡ chosen m
    → Serves ids ts m.hash_slot m.source_node
unfolding create_random_migration
create_random_migration-Serves numbers ids fuel response_data ts m elements ordered h =
    elim (Bool-cases (length ids == 0)) [
      | inl e ↦
          absurd (let broken : no_migration ≡ chosen m = rw (create_random_migration, e) at h in cc)
      | inr e ↦ elim (Bool-cases (count_trees ts == 0)) [
        | inl f ↦ absurd (
            let broken : no_migration ≡ chosen m =
              rw (create_random_migration, e, elements, f) at h in
            cc)
        | inr f ↦
            let i = random_number (numbers 0) 0 (count_trees ts - 1) in
            let run : from_entry numbers ids fuel ts i (get_element ts i) ≡ chosen m =
              rw (create_random_migration, e, elements, f) at h in
            elim (Option-cases (get_element ts i)) [
              | inl g ↦ absurd (
                  let broken : null_pointer ≡ chosen m =
                    rw (from_entry-none numbers ids fuel ts i) at rw g at run in
                  cc)
              | inr (t, g) ↦
                  let (min, max, range, le) = get_element-ordered ts i t ordered g in
                  from_entry-Serves numbers ids fuel ts i min max t m g range le (rw g at run)
            ]
      ]
    ]
