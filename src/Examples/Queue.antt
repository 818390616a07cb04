-- ===== src/Examples/Queue.antt =====
-- Requests and transactions of a ClusterClient at work.
use yarc.Base.{ℕ, ◌≡◌, refl, true, false, Option, none, some, List, [], ◌∷◌, Bytes, map}
use yarc.Protocol.Data.{
  Data, bare, blob, blob_string, aggregate, array, no_trees, more_trees, simple, simple_string,
}
use yarc.ClusterClient.Slots.{has_full_slot_coverage}
use yarc.ClusterClient.Nodes.{Address, all_ranges}
use yarc.ClusterClient.Requests.{ClusterClient, config_stable, error_text}
use yarc.ClusterClient.Queue.{
  single_request, multi_request, commands_of, calc_hash_slot, Deed,
  cluster_make_transaction_request_async, cluster_update,
}
use yarc.ClusterClient.Queue.Accepted.{
  AllOfSlot, Outcome, cluster_make_transaction_request_async-Outcome,
}
use yarc.ClusterClient.Queue.Served.{
  Job, queued, pending, answered, call, AllPlain, Routed, cluster_update-Routed,
}

abbrev no_host : Bytes → ℕ → Option Bytes
no_host host port = none

abbrev local_host : Address
local_host = record { hostname = []; ip_address = b'1' ∷ []; port = 6379 }

abbrev get_key : Data
get_key = aggregate array false (
    more_trees (bare (blob blob_string false (b'G' ∷ b'E' ∷ b'T' ∷ [])))
      (more_trees (bare (blob blob_string false (b'k' ∷ []))) no_trees))

abbrev stable : ClusterClient
stable = record {
  address = local_host;
  client_state = config_stable;
  cluster_node_list =
      record {
        address = local_host;
        slot_range_array = record { min_slot = 0; max_slot = 16383 } ∷ [];
      }
      ∷ [];
  retry_cluster_config_countdown = 0;
}

abbrev jobs : List Job
jobs =
    record {
      request_data = single_request get_key;
      callback = 1;
      answer = bare (simple simple_string (b'O' ∷ b'K' ∷ []));
    }
    ∷ record {
      request_data = multi_request get_key (get_key ∷ []);
      callback = 2;
      answer = bare (aggregate array false no_trees);
    }
    ∷ []

jobs-AllPlain : AllPlain jobs
unfolding AllPlain AllOfSlot calc_hash_slot commands_of error_text
jobs-AllPlain = (((refl, tt), refl), (((refl, (refl, tt)), refl), tt))

covered : has_full_slot_coverage (all_ranges stable.cluster_node_list) ≡ some true
unfolding has_full_slot_coverage all_ranges
covered = refl

cluster_update-Routed_example :
    (ds : List Deed) × (cluster_update no_host 0x80000000 stable (map queued jobs)
      ≡ (stable, map pending jobs, ds))
    × Routed jobs ds
    × (cluster_update no_host 0x80000000 stable (map answered jobs) ≡ (stable, [], map call jobs))
cluster_update-Routed_example =
    cluster_update-Routed no_host 0x80000000 stable jobs refl covered jobs-AllPlain

cluster_make_transaction_request_async-Outcome_example :
    Outcome
      (get_key ∷ get_key ∷ [])
      5
      []
      (cluster_make_transaction_request_async (get_key ∷ get_key ∷ []) 5 [])
cluster_make_transaction_request_async-Outcome_example =
    cluster_make_transaction_request_async-Outcome (get_key ∷ get_key ∷ []) 5 []
