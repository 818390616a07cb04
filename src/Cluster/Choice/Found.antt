-- ===== src/Cluster/Choice/Found.antt =====
-- The source that the first loop of CreateRandomMigrationForHashSlot finds.
use yarc.Base.{
  ℕ, zero, suc, ◌≤◌, ◌≡◌, refl, inl, inr, ◌&&◌, Option, true, false, none, some, List, Bytes, ltb,
  leb, Bool-cases, Option-cases, arith,
}
use yarc.Protocol.Data.{Tree, Trees, no_trees, more_trees}
use yarc.Protocol.Printer.{count_trees}
use yarc.Protocol.HashSlot.{get_element, blob_value}
use yarc.Cluster.Choice.{entry_range, entry_address, entry_id, source_of, find_source}
use yarc.Cluster.Choice.Sources.{AllNamed, Names}

-- An entry has a range and the id of a node.
abbrev pub Listed : List Bytes → Tree → Type 0
Listed ids t = (min : ℕ) × (max : ℕ) × (entry_range t ≡ some (min, max)) × (j : ℕ) × Names ids t j

unfoldable pub AllListed : List Bytes → Trees → Type 0
AllListed ids no_trees = Unit
AllListed ids (more_trees t ts) = Listed ids t × AllListed ids ts

-- Some entry has the slot in its range.
abbrev pub Holds : Trees → (hash_slot : ℕ) → Type 0
Holds ts hash_slot =
    (i : ℕ) × (t : Tree) × (min : ℕ) × (max : ℕ) × (get_element ts i ≡ some t)
    × (entry_range t ≡ some (min, max))
    × (min ≤ hash_slot)
    × (hash_slot ≤ max)

pub AllListed-AllNamed : (ids : List Bytes) (ts : Trees) → AllListed ids ts → AllNamed ts
unfolding AllListed AllNamed
AllListed-AllNamed ids no_trees listed = tt
AllListed-AllNamed ids (more_trees t ts) ((min, max, range, j, (id, e, found)), listed) =
    ((id, e), AllListed-AllNamed ids ts listed)

third_blob-count :
    (address : Trees) (id : Bytes)
    → blob_value (get_element address 2) ≡ some id
    → ltb (count_trees address) 3 ≡ false
unfolding blob_value get_element count_trees
third_blob-count no_trees id h = absurd (cc)
third_blob-count (more_trees t no_trees) id h = absurd (cc)
third_blob-count (more_trees t (more_trees u no_trees)) id h = absurd (cc)
third_blob-count (more_trees t (more_trees u (more_trees v vs))) id h = ground arith

-- An entry with an id has an address of three elements at least.
entry_id-address :
    (t : Tree) (id : Bytes)
    → entry_id t ≡ some id
    → (address : Trees) × (entry_address t ≡ some address) × (ltb (count_trees address) 3 ≡ false)
unfolding entry_id
entry_id-address t id h = elim (Option-cases (entry_address t)) [
  | inl e ↦ absurd (let nothing : none ≡ some id = rw (entry_id, e) at h in cc)
  | inr (address, e) ↦ (address, e, third_blob-count address id (rw (entry_id, e) at h))
]

source_of-named :
    (ids : List Bytes) (t : Tree) (rest : Option (Option ℕ)) (node : ℕ)
    → Names ids t node
    → source_of ids t rest ≡ some (some node)
unfolding source_of
source_of-named ids t rest node (id, e, found) =
    let (address, at_2, enough) = entry_id-address t id e in
    rw (source_of, at_2, enough, e, found) refl

holds_range : (min max slot : ℕ) → min ≤ slot → slot ≤ max → (leb min slot && leb slot max) ≡ true
holds_range min max slot low high = ground arith

-- The loop finds a node where every entry is well-formed and one has the slot.
pub find_source-some :
    (ids : List Bytes) (hash_slot : ℕ) (ts : Trees)
    → AllListed ids ts
    → Holds ts hash_slot
    → (source : ℕ) × (find_source ids hash_slot ts ≡ some (some source))
unfolding find_source get_element AllListed
find_source-some ids hash_slot no_trees listed (i, u, min, max, at_i, range, low, high) =
    absurd (cc)
find_source-some ids hash_slot (more_trees t ts) ((first, last, given, node, names), listed)
      (zero, u, min, max, at_i, range, low, high) =
    let same : t ≡ u = cc in
    let here : entry_range t ≡ some (min, max) = rw same range in
    (
      node,
      rw (find_source, here, holds_range min max hash_slot low high)
          (source_of-named ids t (find_source ids hash_slot ts) node names),
    )
find_source-some ids hash_slot (more_trees t ts) ((first, last, given, node, names), listed)
      (suc i, u, min, max, at_i, range, low, high) =
    elim (Bool-cases (leb first hash_slot && leb hash_slot last)) [
      | inl holds ↦ (
        node,
        rw (find_source, given, holds)
            (source_of-named ids t (find_source ids hash_slot ts) node names),
      )
      | inr other ↦
          let (source, found) =
            find_source-some ids hash_slot ts listed (i, u, min, max, at_i, range, low, high) in
          (source, rw (find_source, given, other) found)
    ]
