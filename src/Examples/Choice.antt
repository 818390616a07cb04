-- ===== src/Examples/Choice.antt =====
-- The choice of a migration at a concrete response.
use yarc.Base.{ℕ, refl, false, List, [], ◌∷◌, Bytes, arith, pos}
use yarc.Protocol.Data.{
  Tree, Trees, bare, number, blob, blob_string, aggregate, array, no_trees, more_trees,
}
use yarc.Protocol.HashSlot.{get_element}
use yarc.Protocol.Printer.{count_trees}
use yarc.ClusterClient.Nodes.{array_elements}
use yarc.Cluster.Choice.{random_number, entry_range, entry_id, find_node_with_id}
use yarc.Cluster.Choice.Found.{AllListed, Holds}
use yarc.Cluster.Choice.Chosen.{Looks, Moved, create_random_migration_for_hash_slot-chosen}

abbrev one : Tree → Trees
one t = more_trees t no_trees

abbrev entry : (min max : ℕ) → Bytes → Tree
entry min max id = bare (
    aggregate array false (
      more_trees (bare (number (pos min))) (
        more_trees (bare (number (pos max))) (
          one (
            bare (
              aggregate array false (
                more_trees (bare (blob blob_string false (b'h' ∷ []))) (
                  more_trees (bare (number (pos 7000)))
                    (one (bare (blob blob_string false id)))))))))))

abbrev entries : Trees
entries = more_trees (entry 0 99 (b'a' ∷ [])) (one (entry 100 199 (b'b' ∷ [])))

abbrev ids : List Bytes
ids = (b'a' ∷ []) ∷ (b'b' ∷ []) ∷ []

abbrev counting : ℕ → ℕ
counting k = k

listed : AllListed ids entries
unfolding AllListed entry_id entry_range find_node_with_id
listed =
    ((0, 99, refl, 0, (b'a' ∷ [], refl, refl)), ((100, 199, refl, 1, (b'b' ∷ [], refl, refl)), tt))

-- The first slot of the second range.
held : Holds entries 100
unfolding entry_range get_element
held = (1, entry 100 199 (b'b' ∷ []), 100, 199, refl, refl, omega arith, omega arith)

first_round : Looks counting ids entries 0 0
unfolding entry_id find_node_with_id get_element random_number count_trees
first_round = (entry 0 99 (b'a' ∷ []), refl, (b'a' ∷ [], refl, refl))

second_round : Looks counting ids entries 1 1
unfolding entry_id find_node_with_id get_element random_number count_trees
second_round = (entry 100 199 (b'b' ∷ []), refl, (b'b' ∷ [], refl, refl))

create_random_migration_for_hash_slot-chosen_example :
    (source : ℕ) × Moved counting ids 2 100 source (bare (aggregate array false entries)) entries
unfolding array_elements
create_random_migration_for_hash_slot-chosen_example =
    create_random_migration_for_hash_slot-chosen counting ids 2 0 1 0 1 100
      (bare (aggregate array false entries)) entries refl listed held (omega arith) (omega arith)
      first_round second_round (omega arith)
