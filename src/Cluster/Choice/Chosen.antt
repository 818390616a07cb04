-- ===== src/Cluster/Choice/Chosen.antt =====
-- The migrations that are chosen at random.
use std.Path.{subst}
use yarc.Base.{
  ℕ, zero, suc, ◌+◌, ◌-◌, ◌≤◌, ◌<◌, ◌≡◌, ◌≢◌, ◌⊎◌, refl, ap, sym, ◌∙◌, inl, inr, none, some, List,
  [], ◌∷◌, Bytes, ◌==◌, length, get_elem?, Bool-cases, Option-cases, ==→eq, eq→==, ne→==, arith,
}
use yarc.Protocol.Data.{Tree, Trees, no_trees, more_trees}
use yarc.Protocol.Parser.{c_str}
use yarc.Protocol.Printer.{count_trees}
use yarc.Protocol.HashSlot.{get_element}
use yarc.ClusterClient.Nodes.{array_elements}
use yarc.Cluster.Migration.{new_migration}
use yarc.Cluster.Choice.{
  random_number, find_node_with_id, entry_id, find_source, Choice, chosen, still_looking,
  find_destination, create_random_migration_for_hash_slot,
}
use yarc.Cluster.Choice.Found.{AllListed, Holds, AllListed-AllNamed, find_source-some}
use yarc.Cluster.Choice.Sources.{
  random_number-le, find_node_with_id-some, AllNamed, get_element-named, Names, Serves,
  find_source-Serves,
}

-- The index of the entry that round `k` looks at.
abbrev pub pick : (ℕ → ℕ) → Trees → ℕ → ℕ
pick numbers ts k = random_number (numbers k) 0 (count_trees ts - 1)

-- The entry of round `k` has the id of a node other than the source.
abbrev pub Hits : (ℕ → ℕ) → List Bytes → (source : ℕ) → Trees → ℕ → Type 0
Hits numbers ids source ts k =
    (t : Tree) × (j : ℕ) × (get_element ts (pick numbers ts k) ≡ some t)
    × Names ids t j
    × (j ≢ source)

module _ (numbers : ℕ → ℕ) (ids : List Bytes) (source hash_slot : ℕ) (ts : Trees)
    (named : AllNamed ts) (some_entry : 0 < count_trees ts) where
  -- The loop ends with the node of such an entry.
  abbrev Finds : Choice → Type 0
  Finds choice =
      (k : ℕ) × (h : Hits numbers ids source ts k) × (choice
        ≡ chosen (new_migration source h.1 hash_slot))

  looks_on :
      (fuel k : ℕ) (t : Tree) (id : Bytes)
      → get_element ts (pick numbers ts k) ≡ some t
      → entry_id t ≡ some id
      → (find_node_with_id ids id ≡ none) ⊎ (find_node_with_id ids id ≡ some source)
      → find_destination numbers ids source hash_slot ts (suc fuel) k
        ≡ find_destination numbers ids source hash_slot ts fuel (k + 1)
  unfolding find_destination
  looks_on fuel k t id at_k e (inl absent) = rw (find_destination, at_k, e, absent) refl
  looks_on fuel k t id at_k e (inr same) =
      rw (find_destination, at_k, e, same, eq→== source source refl) refl

  finds_at :
      (fuel k : ℕ) (h : Hits numbers ids source ts k)
      → find_destination numbers ids source hash_slot ts (suc fuel) k
        ≡ chosen (new_migration source h.1 hash_slot)
  unfolding find_destination
  finds_at fuel k (t, j, at_k, (id, e, found), other) =
      rw (find_destination, at_k, e, found, ne→== j source other) refl

  find_destination-zero :
      (k : ℕ) → find_destination numbers ids source hash_slot ts zero k ≡ still_looking
  unfolding find_destination
  find_destination-zero k = refl

  -- What a round comes to.
  round-cases :
      (k : ℕ)
      → Hits numbers ids source ts k
        ⊎ ((t : Tree) × (id : Bytes) × (get_element ts (pick numbers ts k) ≡ some t)
            × (entry_id t ≡ some id)
            × ((find_node_with_id ids id ≡ none) ⊎ (find_node_with_id ids id ≡ some source)))
  round-cases k =
      let below = random_number-le (numbers k) (count_trees ts - 1) in
      let (t, id, at_k, e) =
        get_element-named ts (pick numbers ts k) named (omega (arith, below, some_entry)) in
      elim (Option-cases (find_node_with_id ids id)) [
        | inl absent ↦ inr (t, id, at_k, e, inl absent)
        | inr (j, found) ↦ elim (Bool-cases (j == source)) [
          | inl same ↦ inr (t, id, at_k, e, inr (found ∙ ap some (==→eq j source same)))
          | inr other ↦
              inl (t, j, at_k, (id, e, found), λ same. let equal = eq→== j source same in cc)
        ]
      ]

  misses :
      (k : ℕ) (t : Tree) (id : Bytes)
      → get_element ts (pick numbers ts k) ≡ some t
      → entry_id t ≡ some id
      → (find_node_with_id ids id ≡ none) ⊎ (find_node_with_id ids id ≡ some source)
      → ¬ Hits numbers ids source ts k
  misses k t id at_k e (inl absent) (t', j, at_k', (id', e', found), other) = cc
  misses k t id at_k e (inr same) (t', j, at_k', (id', e', found), other) = other (cc)

  find_destination-Finds :
      (fuel k m : ℕ)
      → k ≤ m
      → m < k + fuel
      → Hits numbers ids source ts m
      → Finds (find_destination numbers ids source hash_slot ts fuel k)
  find_destination-Finds zero k m low high hit = absurd (omega (arith, low, high))
  find_destination-Finds (suc fuel) k m low high hit = elim (round-cases k) [
    | inl here ↦ (k, here, finds_at fuel k here)
    | inr (t, id, at_k, e, not_here) ↦
        let apart : k ≢ m = λ same.
          misses k t id at_k e not_here (subst (Hits numbers ids source ts) (sym same) hit) in
        let (n, h, run) =
          find_destination-Finds fuel (k + 1) m (omega (arith, low, apart)) (omega (arith, high))
            hit in
        (n, h, looks_on fuel k t id at_k e not_here ∙ run)
  ]

  -- Where no round hits, the loop never ends.
  pub find_destination-looks_on :
      ((k : ℕ) → ¬ Hits numbers ids source ts k)
      → (fuel k : ℕ) → find_destination numbers ids source hash_slot ts fuel k ≡ still_looking
  find_destination-looks_on never zero k = find_destination-zero k
  find_destination-looks_on never (suc fuel) k = elim (round-cases k) [
    | inl here ↦ absurd (never k here)
    | inr (t, id, at_k, e, not_here) ↦
        looks_on fuel k t id at_k e not_here ∙ find_destination-looks_on never fuel (k + 1)
  ]

count-some : (ts : Trees) (i : ℕ) (t : Tree) → get_element ts i ≡ some t → 0 < count_trees ts
unfolding get_element count_trees
count-some no_trees i t h = absurd (cc)
count-some (more_trees u us) i t h = omega arith

length-some : (ids : List Bytes) (i : ℕ) (id : Bytes) → get_elem? ids i ≡ some id → 0 < length ids
length-some [] i id h = absurd (cc)
length-some (x ∷ xs) i id h = omega arith

-- The slot goes from a node that an entry with the slot names to another one that an entry names.
abbrev pub Moved :
    (ℕ → ℕ) → List Bytes → (fuel hash_slot source : ℕ) → (response_data : Tree) → Trees → Type 0
Moved numbers ids fuel hash_slot source response_data ts =
    (t : Tree) × (i : ℕ) × (j : ℕ) × (create_random_migration_for_hash_slot numbers ids fuel
        (some response_data) hash_slot
      ≡ chosen (new_migration source j hash_slot))
    × (j ≢ source)
    × Serves ids ts hash_slot source
    × (get_element ts i ≡ some t)
    × Names ids t j

from_source :
    (numbers : ℕ → ℕ) (ids : List Bytes) (fuel m hash_slot source : ℕ) (response_data : Tree)
    (ts : Trees)
    → array_elements (some response_data) ≡ some ts
    → find_source ids hash_slot ts ≡ some (some source)
    → AllNamed ts
    → m < fuel
    → Hits numbers ids source ts m
    → Moved numbers ids fuel hash_slot source response_data ts
unfolding create_random_migration_for_hash_slot
from_source numbers ids fuel m hash_slot source response_data ts elements found named enough hit =
    let serves = find_source-Serves ids hash_slot source ts found in
    let nonempty = count-some ts serves.0 serves.1 serves.4 in
    let nodes =
      length-some ids source (c_str serves.8.0)
        (find_node_with_id-some ids serves.8.0 source serves.8.2) in
    let (k, h, run) =
      find_destination-Finds numbers ids source hash_slot ts named nonempty fuel 0 m (omega arith)
        (omega (arith, enough)) hit in
    (
      h.0,
      pick numbers ts k,
      h.1,
      rw
          (
            create_random_migration_for_hash_slot,
            ne→== (length ids) 0 (omega (arith, nodes)),
            elements,
            ne→== (count_trees ts) 0 (omega (arith, nonempty)),
            found,
          )
          run,
      h.4,
      serves,
      h.2,
      h.3,
    )

-- Round `k` looks at an entry with the id of node `j`.
abbrev pub Looks : (ℕ → ℕ) → List Bytes → Trees → (k j : ℕ) → Type 0
Looks numbers ids ts k j =
    (t : Tree) × (get_element ts (pick numbers ts k) ≡ some t) × Names ids t j

-- From a response in which each entry has a range and the id of a node, and one has the slot in its
-- range, CreateRandomMigrationForHashSlot returns a migration of this slot, within as many rounds
-- as it takes for two random numbers to look at entries of different nodes: from a node that an
-- entry with the slot names, to another one that an entry names.
pub create_random_migration_for_hash_slot-chosen :
    (numbers : ℕ → ℕ) (ids : List Bytes) (fuel m n i j hash_slot : ℕ) (response_data : Tree)
    (ts : Trees)
    → array_elements (some response_data) ≡ some ts
    → AllListed ids ts
    → Holds ts hash_slot
    → m < fuel
    → n < fuel
    → Looks numbers ids ts m i
    → Looks numbers ids ts n j
    → i ≢ j
    → (source : ℕ) × Moved numbers ids fuel hash_slot source response_data ts
create_random_migration_for_hash_slot-chosen numbers ids fuel m n i j hash_slot response_data ts
      elements listed holds enough_m enough_n (t, at_m, t_names) (u, at_n, u_names) apart =
    let (source, found) = find_source-some ids hash_slot ts listed holds in
    let named = AllListed-AllNamed ids ts listed in
    elim (Bool-cases (i == source)) [
      | inr other ↦
          let differs : i ≢ source = λ same. let equal = eq→== i source same in cc in
          (
            source,
            from_source numbers ids fuel m hash_slot source response_data ts elements found named
                enough_m (t, i, at_m, t_names, differs),
          )
      | inl same ↦
          let here : i ≡ source = ==→eq i source same in
          let differs : j ≢ source = λ equal. apart (cc) in
          (
            source,
            from_source numbers ids fuel n hash_slot source response_data ts elements found named
                enough_n (u, j, at_n, u_names, differs),
          )
    ]
