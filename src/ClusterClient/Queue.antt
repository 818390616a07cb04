-- ===== src/ClusterClient/Queue.antt =====
-- The list of requests of a ClusterClient: single ones and transactions, and the Update that
-- reduces them.
pub mod Accepted
pub mod Served
use yarc.Base.{ℕ, Bool, true, false, Option, List, [], ◌∷◌, ◌++◌, Bytes, ◌==◌, if◌then◌else◌, map}
use yarc.Reducer.{ReductionResult, result_none, result_delete, result_bail}
use yarc.Protocol.Data.{Data}
use yarc.Protocol.HashSlot.{calc_command_hash_slot}
use yarc.ClusterClient.Nodes.{ClusterNode}
use yarc.ClusterClient.Requests.{
  Request, new_request, Action, signal_dirty, send_command, send_asking, call_back, Reduced, reduce,
  ClusterClient, ClientState, config_dirty, config_query_pending, config_stable, config_incomplete,
  signal_cluster_config_dirty, update_config,
}

-- The `requestData` of a SingleRequest, and the `requestDataArray` of a MultiRequest, which is
-- never empty.
pub data RequestData : Type 0 where
  single_request : Data → RequestData
  multi_request : Data → List Data → RequestData

unfoldable pub commands_of : RequestData → List Data
commands_of (single_request d) = d ∷ []
commands_of (multi_request d ds) = d ∷ ds

unfoldable pub first_command : RequestData → Data
first_command (single_request d) = d
first_command (multi_request d ds) = d

-- CalcHashSlot
unfoldable pub calc_hash_slot : RequestData → ℕ
unfolding calc_command_hash_slot
calc_hash_slot (single_request d) = calc_command_hash_slot d
calc_hash_slot (multi_request d ds) = calc_command_hash_slot d

-- An object of the list, with a number for its callback.
pub record Queued : Type 0 where
  pub request_data : RequestData
  pub callback : ℕ
  pub request : Request

unfoldable pub new_queued : RequestData → ℕ → Queued
unfolding first_command new_request
new_queued d callback = record {
  request_data = d;
  callback = callback;
  request = new_request (first_command d);
}

unfoldable pub cluster_make_request_async : Data → ℕ → List Queued → List Queued
unfolding new_queued
cluster_make_request_async d callback list = list ++ new_queued (single_request d) callback ∷ []

-- The loop that looks for a command of another slot, and whether it finds none.
unfoldable pub same_slot_loop : ℕ → List Data → Bool
unfolding calc_command_hash_slot
same_slot_loop hash_slot [] = true
same_slot_loop hash_slot (d ∷ ds) =
    if calc_command_hash_slot d == hash_slot then same_slot_loop hash_slot ds else false

unfoldable pub cluster_make_transaction_request_async :
    List Data → ℕ → List Queued → Bool × List Queued
unfolding cluster_make_request_async same_slot_loop calc_command_hash_slot
cluster_make_transaction_request_async [] callback list = (false, list)
cluster_make_transaction_request_async (d ∷ []) callback list =
    (true, cluster_make_request_async d callback list)
cluster_make_transaction_request_async (d ∷ d' ∷ ds) callback list =
    if same_slot_loop (calc_command_hash_slot d) (d' ∷ ds)
    then (true, list ++ new_queued (multi_request d (d' ∷ ds)) callback ∷ [])
    else (false, list)

-- What an action is done for.
abbrev pub Deed : Type 0
Deed = RequestData × ℕ × Action

unfoldable pub deeds : Queued → List Action → List Deed
deeds q [] = []
deeds q (a ∷ actions) = (q.request_data, q.callback, a) ∷ deeds q actions

-- What follows the Reduce of a request in ReduceList: the requests that stay and what is done, given
-- the same of the rest of the list.
unfoldable pub after_reduce :
    Queued → List Queued → List Queued × List Deed → Reduced → List Queued × List Deed
unfolding deeds
after_reduce q qs rest reduced =
    let done = deeds q reduced.actions in
    elim reduced.result [
      | result_none ↦ (record q { request = reduced.request } ∷ rest.0, done ++ rest.1)
      | result_delete ↦ (rest.0, done ++ rest.1)
      | result_bail ↦ (record q { request = reduced.request } ∷ qs, done)
    ]

-- SignalClusterConfigDirty, where an action asks for it.
unfoldable pub signalled : List Deed → ClusterClient → ClusterClient
unfolding signal_cluster_config_dirty
signalled [] c = c
signalled ((d, callback, signal_dirty) ∷ ds) c = signalled ds (signal_cluster_config_dirty c)
signalled ((d, callback, send_command node) ∷ ds) c = signalled ds c
signalled ((d, callback, send_asking node) ∷ ds) c = signalled ds c
signalled ((d, callback, call_back response) ∷ ds) c = signalled ds c

module _ (getaddrinfo : Bytes → ℕ → Option Bytes) (long_limit : ℕ) where
  -- ReduceList on the requests: what stays in the list, and what is done, in order.
  unfoldable pub reduce_requests : List ClusterNode → List Queued → List Queued × List Deed
  unfolding reduce after_reduce
  reduce_requests nodes [] = ([], [])
  reduce_requests nodes (q ∷ qs) =
      after_reduce q qs (reduce_requests nodes qs) (reduce getaddrinfo long_limit nodes q.request)

  -- The switch of Update.
  unfoldable pub update_in_state :
      ClientState → ClusterClient → List Queued → ClusterClient × List Queued × List Deed
  unfolding reduce_requests signalled update_config
  update_in_state config_stable c request_list =
      let r = reduce_requests c.cluster_node_list request_list in (signalled r.1 c, r.0, r.1)
  update_in_state config_dirty c request_list = (update_config c, request_list, [])
  update_in_state config_query_pending c request_list = (update_config c, request_list, [])
  update_in_state config_incomplete c request_list = (update_config c, request_list, [])

  -- Update, beside the update of the nodes: the client, its requests and what is done.
  unfoldable pub cluster_update :
      ClusterClient → List Queued → ClusterClient × List Queued × List Deed
  unfolding update_in_state
  cluster_update c request_list = update_in_state c.client_state c request_list
