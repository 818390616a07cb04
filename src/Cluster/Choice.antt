-- ===== src/Cluster/Choice.antt =====
-- Cluster: the choice of a migration at random, from the response to CLUSTER SLOTS.
pub mod Sources
pub mod Found
pub mod Chosen
pub mod Among
use yarc.Base.{
  ℕ, zero, suc, ◌+◌, ◌-◌, Bool, true, false, ◌&&◌, Option, none, some, List, [], ◌∷◌, Bytes, ◌==◌,
  ltb, leb, if◌then◌else◌, to_u16, length,
}
use yarc.Protocol.Data.{Tree, Data, Trees, payload, number, no_trees, more_trees}
use yarc.Protocol.Fields.{bytes_eq}
use yarc.Protocol.Parser.{c_str}
use yarc.Protocol.Printer.{count_trees}
use yarc.Protocol.HashSlot.{get_element, blob_value}
use yarc.ClusterClient.Nodes.{array_elements}
use yarc.Cluster.Migration.{Migration, new_migration}

-- RandomNumber, from the number that its floating point gives.
unfoldable pub random_number : (given : ℕ) → (min max : ℕ) → ℕ
random_number given min max =
    let raised = if ltb given min then min else given in if ltb max raised then max else raised

-- FindNodeWithID, on the ids of the nodes, which are C strings: the index of the node.
unfoldable pub find_from : ℕ → List Bytes → Bytes → Option ℕ
unfolding bytes_eq
find_from i [] id = none
find_from i (x ∷ xs) id = if bytes_eq x id then some i else find_from (i + 1) xs id

unfoldable pub find_node_with_id : List Bytes → Bytes → Option ℕ
unfolding find_from c_str
find_node_with_id ids id = find_from 0 ids (c_str id)

-- Cast<NumberData> of an element and its 16 low bits. Here and below there is no value where a null
-- pointer is followed.
unfoldable pub number_value : Option Tree → Option ℕ
number_value none = none
number_value (some t) = elim (payload t) [ number n ↦ some (to_u16 n) | _ ↦ none ]

-- `minHashSlot` and `maxHashSlot` of an entry.
unfoldable pub entry_range : Tree → Option (ℕ × ℕ)
unfolding array_elements number_value get_element
entry_range t = elim (array_elements (some t)) [
  | none ↦ none
  | some entry ↦ elim (number_value (get_element entry 0)) [
    | none ↦ none
    | some min ↦ elim (number_value (get_element entry 1)) [
      | none ↦ none
      | some max ↦ some (min, max)
    ]
  ]
]

-- `addressArrayData`: the third element of an entry as an array, or null.
unfoldable pub entry_address : Tree → Option Trees
unfolding array_elements get_element
entry_address t = elim (array_elements (some t)) [
  | none ↦ none
  | some entry ↦ array_elements (get_element entry 2)
]

-- The id in the address of an entry.
unfoldable pub entry_id : Tree → Option Bytes
unfolding entry_address blob_value get_element
entry_id t = elim (entry_address t) [
  | none ↦ none
  | some address ↦ blob_value (get_element address 2)
]

-- The body of the loop over the entries that looks for the source; `rest` is what the rest of the
-- loop gives.
unfoldable pub source_of : List Bytes → Tree → (rest : Option (Option ℕ)) → Option (Option ℕ)
unfolding entry_address count_trees entry_id find_node_with_id
source_of ids t rest = elim (entry_address t) [
  | none ↦ rest
  | some address ↦
      if ltb (count_trees address) 3
      then rest
      else elim (entry_id t) [ none ↦ none | some id ↦ some (find_node_with_id ids id) ]
]

unfoldable pub find_source : List Bytes → (hash_slot : ℕ) → Trees → Option (Option ℕ)
unfolding entry_range source_of
find_source ids hash_slot no_trees = some none
find_source ids hash_slot (more_trees t ts) =
    let rest = find_source ids hash_slot ts in
    elim (entry_range t) [
      | none ↦ none
      | some range ↦
          if leb range.0 hash_slot && leb hash_slot range.1 then source_of ids t rest else rest
    ]

-- What the choice comes to: a null pointer that is followed, no migration, a migration, or a loop
-- whose rounds have run out.
pub data Choice : Type 0 where
  null_pointer no_migration still_looking : Choice
  chosen : Migration → Choice

-- `numbers k` is what the floating point of RandomNumber gives at its `k`th call from 0.
module _ (numbers : ℕ → ℕ) (ids : List Bytes) where
  -- The loop that looks for a destination.
  unfoldable pub find_destination : (source hash_slot : ℕ) → Trees → (fuel : ℕ) → (k : ℕ) → Choice
  unfolding random_number count_trees get_element entry_id find_node_with_id new_migration
  find_destination source hash_slot ts zero k = still_looking
  find_destination source hash_slot ts (suc fuel) k =
      let rest = find_destination source hash_slot ts fuel (k + 1) in
      elim (get_element ts (random_number (numbers k) 0 (count_trees ts - 1))) [
        | none ↦ null_pointer
        | some t ↦ elim (entry_id t) [
          | none ↦ null_pointer
          | some id ↦ elim (find_node_with_id ids id) [
            | none ↦ rest
            | some j ↦ if j == source then rest else chosen (new_migration source j hash_slot)
          ]
        ]
      ]

  -- CreateRandomMigrationForHashSlot, given the response of the first node where there is one.
  unfoldable pub create_random_migration_for_hash_slot :
      (fuel : ℕ) → (response_data : Option Tree) → (hash_slot : ℕ) → Choice
  unfolding array_elements count_trees find_source find_destination
  create_random_migration_for_hash_slot fuel response_data hash_slot =
      if length ids == 0 then no_migration else elim (array_elements response_data) [
        | none ↦ no_migration
        | some ts ↦
            if count_trees ts == 0 then no_migration else elim (find_source ids hash_slot ts) [
              | none ↦ null_pointer
              | some none ↦ no_migration
              | some (some source) ↦ find_destination source hash_slot ts fuel 0
            ]
      ]

  -- The loop of CreateRandomMigration that looks for another entry, by the calls of RandomNumber from
  -- the `k`th on.
  unfoldable pub other_entry : (count i : ℕ) → (fuel : ℕ) → (k : ℕ) → Option ℕ
  unfolding random_number
  other_entry count i zero k = none
  other_entry count i (suc fuel) k =
      let j = random_number (numbers k) 0 (count - 1) in
      let rest = other_entry count i fuel (k + 1) in if j == i then rest else some j

  -- The end of CreateRandomMigration, from the two ids.
  unfoldable pub between : Option Bytes → (destination_id : Option Bytes) → (hash_slot : ℕ) → Choice
  unfolding find_node_with_id new_migration
  between none destination_id hash_slot = null_pointer
  between (some source_id) none hash_slot = null_pointer
  between (some source_id) (some destination_id) hash_slot =
      elim (find_node_with_id ids source_id) [
        | none ↦ no_migration
        | some source ↦ elim (find_node_with_id ids destination_id) [
          | none ↦ no_migration
          | some destination ↦ chosen (new_migration source destination hash_slot)
        ]
      ]

  -- What the elements `i` and `j` of the response give; the calls 0 and 1 of RandomNumber choose `i`
  -- and the slot.
  unfoldable pub from_entry : (fuel : ℕ) → Trees → (i : ℕ) → Option Tree → Choice
  unfolding entry_range entry_id random_number other_entry between get_element count_trees
  from_entry fuel ts i none = null_pointer
  from_entry fuel ts i (some t) = elim (entry_range t) [
    | none ↦ null_pointer
    | some range ↦ elim (entry_id t) [
      | none ↦ null_pointer
      | some id ↦ elim (other_entry (count_trees ts) i fuel 2) [
        | none ↦ still_looking
        | some j ↦ elim (get_element ts j) [
          | none ↦ null_pointer
          | some u ↦ between (some id) (entry_id u) (random_number (numbers 1) range.0 range.1)
        ]
      ]
    ]
  ]

  -- CreateRandomMigration
  unfoldable pub create_random_migration : (fuel : ℕ) → (response_data : Option Tree) → Choice
  unfolding array_elements count_trees from_entry random_number get_element
  create_random_migration fuel response_data =
      if length ids == 0 then no_migration else elim (array_elements response_data) [
        | none ↦ no_migration
        | some ts ↦
            if count_trees ts == 0
            then no_migration
            else let i = random_number (numbers 0) 0 (count_trees ts - 1) in
              from_entry fuel ts i (get_element ts i)
      ]
