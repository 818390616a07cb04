-- ===== src/Examples/Cluster.antt =====
-- The theorems of the cluster client at concrete inputs.
use yarc.Base.{ℕ, ◌≡◌, inr, refl, true, false, Option, none, some, List, [], ◌∷◌, Bytes, arith, pos}
use yarc.Protocol.Data.{
  Tree, Data, Trees, bare, number, simple, simple_error, blob, blob_string, aggregate, array,
  no_trees, more_trees,
}
use yarc.Protocol.Fields.{bytes_eq}
use yarc.Protocol.HashSlot.{calc_command_hash_slot}
use yarc.ClusterClient.Slots.{SlotRange, handles_slot, has_full_slot_coverage}
use yarc.ClusterClient.Slots.Coverage.{has_full_slot_coverage-handles_slot}
use yarc.ClusterClient.Nodes.{Address, ClusterNode, all_ranges, process_cluster_config}
use yarc.ClusterClient.Nodes.Config.{lists_slot, process_cluster_config-lists_slot}
use yarc.Reducer.{result_none}
use yarc.ClusterClient.Requests.{
  ClusterClient, config_query_pending, config_stable, config_answered, get_error_code, error_text,
  Reduced, new_request, reduce, respond, state_unsent, state_pending, send_command,
}
use yarc.ClusterClient.Requests.Redirects.{IsRedirect, reduce-redirected_twice}
use yarc.ClusterClient.Stable.{config_answered-stable}

abbrev no_host : Bytes → ℕ → Option Bytes
no_host host port = none

abbrev local_host : Address
local_host = record { hostname = []; ip_address = b'1' ∷ []; port = 6379 }

abbrev range : ℕ → ℕ → SlotRange
range a b = record { min_slot = a; max_slot = b }

abbrev ranges : List SlotRange
ranges = range 8000 16383 ∷ range 0 7999 ∷ []

abbrev nodes : List ClusterNode
nodes = record { address = local_host; slot_range_array = ranges } ∷ []

abbrev entry : ℕ → ℕ → Tree
entry a b = bare (
    aggregate array false (
      more_trees (bare (number (pos a))) (
        more_trees (bare (number (pos b))) (
          more_trees
            (bare (
              aggregate array false (
                more_trees (bare (blob blob_string false (b'1' ∷ [])))
                  (more_trees (bare (number (pos 6379))) no_trees))))
            no_trees))))

abbrev entries : Trees
entries = more_trees (entry 8000 16383) (more_trees (entry 0 7999) no_trees)

abbrev client : ClusterClient
client = record {
  address = local_host;
  client_state = config_query_pending;
  cluster_node_list = record { address = local_host; slot_range_array = [] } ∷ [];
  retry_cluster_config_countdown = 0;
}

abbrev command : Data
command = aggregate array false no_trees

covered : has_full_slot_coverage ranges ≡ some true
unfolding has_full_slot_coverage
covered = refl

has_full_slot_coverage-handles_slot_example : handles_slot ranges 12000 ≡ true
has_full_slot_coverage-handles_slot_example =
    has_full_slot_coverage-handles_slot ranges 12000 covered (omega arith)

handled : handles_slot (all_ranges nodes) 3 ≡ true
unfolding handles_slot all_ranges
handled = refl

process_cluster_config-lists_slot_example :
    handles_slot
      (all_ranges (process_cluster_config no_host (aggregate array false entries) nodes))
      5
    ≡ lists_slot entries 5
process_cluster_config-lists_slot_example =
    process_cluster_config-lists_slot no_host false entries nodes 5

configured :
    config_answered no_host (aggregate array false entries) client
    ≡ some (record client { cluster_node_list = nodes; client_state = config_stable })
unfolding config_answered
configured = refl

config_answered-stable_example :
    (node : ClusterNode) × (handles_slot node.slot_range_array (calc_command_hash_slot command)
      ≡ true)
    × (reduce no_host 0x8000000000000000 nodes (new_request command) ≡ record {
      result = result_none;
      request = record (new_request command) { state = state_pending };
      actions = send_command node ∷ [];
    })
unfolding new_request
config_answered-stable_example =
    config_answered-stable no_host 0x8000000000000000 (aggregate array false entries) client
      (record client { cluster_node_list = nodes; client_state = config_stable })
      (new_request command) configured refl refl

-- The text `MOVED 3 1:6379`
abbrev moved_text : Bytes
moved_text =
    b'M' ∷ b'O' ∷ b'V' ∷ b'E' ∷ b'D' ∷ b' ' ∷ b'3' ∷ b' ' ∷ b'1' ∷ b':' ∷ b'6' ∷ b'3' ∷ b'7' ∷ b'9'
    ∷ []

abbrev moved : Tree
moved = bare (simple simple_error moved_text)

moved_text-IsRedirect : IsRedirect moved_text
unfolding get_error_code bytes_eq
moved_text-IsRedirect = inr (refl, refl)

reduce-redirected_twice_example :
    (d : Reduced) × (reduce no_host 0x8000000000000000 nodes (respond moved (new_request command))
      ≡ d)
    × (d.request.redirect_count ≡ 1)
    × ((reduce no_host 0x8000000000000000 nodes (respond moved d.request)).request.state
        ≡ state_unsent)
    × ((reduce no_host 0x8000000000000000 nodes (respond moved d.request)).request.redirect_count
        ≡ 0)
unfolding new_request error_text
reduce-redirected_twice_example =
    reduce-redirected_twice no_host 0x8000000000000000 nodes moved moved moved_text moved_text
      (new_request command) refl refl refl moved_text-IsRedirect moved_text-IsRedirect
