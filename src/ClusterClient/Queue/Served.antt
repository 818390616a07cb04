-- ===== src/ClusterClient/Queue/Served.antt =====
-- What Update of a stable ClusterClient makes of new requests, and of answered ones.
use yarc.Base.{ℕ, ◌≤◌, ◌≡◌, refl, ap, ◌∙◌, true, Option, none, some, List, [], ◌∷◌, Bytes, map}
use yarc.Protocol.Data.{Tree, Data}
use yarc.Protocol.HashSlot.{calc_command_hash_slot, find_command_key}
use yarc.Reducer.{result_none}
use yarc.ClusterClient.Slots.{has_full_slot_coverage, handles_slot}
use yarc.ClusterClient.Slots.Coverage.{has_full_slot_coverage-handles_slot}
use yarc.ClusterClient.Nodes.{ClusterNode, all_ranges, find_cluster_node_for_slot}
use yarc.ClusterClient.Nodes.Config.{find_cluster_node_for_slot-some}
use yarc.ClusterClient.Stable.{calc_key_hash_slot-le}
use yarc.ClusterClient.Requests.{
  Request, new_request, reduce, respond, error_text, finish, state_pending, send_command, call_back,
  ClusterClient, ClientState, config_stable,
}
use yarc.ClusterClient.Queue.{
  RequestData, single_request, multi_request, commands_of, first_command, calc_hash_slot, Queued,
  new_queued, Deed, deeds, after_reduce, reduce_requests, update_in_state, signalled,
  cluster_update,
}
use yarc.ClusterClient.Queue.Accepted.{AllOfSlot}

-- A request, its callback and the response that it gets.
pub record Job : Type 0 where
  pub request_data : RequestData
  pub callback : ℕ
  pub answer : Tree

abbrev pub queued : Job → Queued
queued j = new_queued j.request_data j.callback

unfoldable pub pending : Job → Queued
pending j = record {
  request_data = j.request_data;
  callback = j.callback;
  request = record (new_request (first_command j.request_data)) { state = state_pending };
}

-- The request after the callback of its command.
unfoldable pub answered : Job → Queued
unfolding respond pending
answered j = record (pending j) { request = respond j.answer (pending j).request }

abbrev pub call : Job → Deed
call j = (j.request_data, j.callback, call_back (some j.answer))

-- The commands of a request share its slot, and its answer is no error.
abbrev pub IsPlain : Job → Type 0
IsPlain j =
    AllOfSlot (calc_hash_slot j.request_data) (commands_of j.request_data)
    × (error_text (some j.answer) ≡ none)

unfoldable pub AllPlain : List Job → Type 0
AllPlain [] = Unit
AllPlain (j ∷ js) = IsPlain j × AllPlain js

-- A node for each of the commands.
unfoldable pub HandlesAll : ClusterNode → List Data → Type 0
HandlesAll node [] = Unit
HandlesAll node (d ∷ ds) =
    (handles_slot node.slot_range_array (calc_command_hash_slot d) ≡ true) × HandlesAll node ds

-- Each request goes to a node that handles the slots of all its commands.
unfoldable pub Routed : List Job → List Deed → Type 0
Routed [] [] = Unit
Routed [] (deed ∷ more) = ⊥
Routed (j ∷ js) [] = ⊥
Routed (j ∷ js) (deed ∷ more) =
    (node : ClusterNode) × (deed ≡ (j.request_data, j.callback, send_command node))
    × HandlesAll node (commands_of j.request_data)
    × Routed js more

AllOfSlot-HandlesAll :
    (node : ClusterNode) (slot : ℕ) (ds : List Data)
    → handles_slot node.slot_range_array slot ≡ true
    → AllOfSlot slot ds
    → HandlesAll node ds
unfolding AllOfSlot HandlesAll
AllOfSlot-HandlesAll node slot [] h same = tt
AllOfSlot-HandlesAll node slot (d ∷ ds) h same =
    (ap (handles_slot node.slot_range_array) same.0 ∙ h, AllOfSlot-HandlesAll node slot ds h same.1)

-- The slot of a request is that of its first command.
calc_hash_slot-first :
    (r : RequestData) → calc_hash_slot r ≡ calc_command_hash_slot (first_command r)
unfolding calc_hash_slot first_command
calc_hash_slot-first (single_request d) = refl
calc_hash_slot-first (multi_request d ds) = refl

command_slot-le : (d : Data) → calc_command_hash_slot d ≤ 16383
unfolding calc_command_hash_slot
command_slot-le d = calc_key_hash_slot-le (find_command_key d)

module _ (getaddrinfo : Bytes → ℕ → Option Bytes) (long_limit : ℕ) where
  reduce_requests-nil :
      (nodes : List ClusterNode) → reduce_requests getaddrinfo long_limit nodes [] ≡ ([], [])
  unfolding reduce_requests
  reduce_requests-nil nodes = refl

  reduce-sent :
      (nodes : List ClusterNode) (d : Data) (node : ClusterNode)
      → find_cluster_node_for_slot nodes (calc_command_hash_slot d) ≡ some node
      → reduce getaddrinfo long_limit nodes (new_request d) ≡ record {
        result = result_none;
        request = record (new_request d) { state = state_pending };
        actions = send_command node ∷ [];
      }
  unfolding reduce new_request
  reduce-sent nodes d node found = rw (reduce, found) refl

  reduce-finished :
      (nodes : List ClusterNode) (t : Tree) (r : Request)
      → error_text (some t) ≡ none
      → reduce getaddrinfo long_limit nodes (respond t r) ≡ finish (respond t r)
  unfolding reduce respond
  reduce-finished nodes t r plain = rw (reduce, plain) refl

  reduce_requests-sent :
      (nodes : List ClusterNode) (j : Job) (qs : List Queued) (node : ClusterNode)
      → find_cluster_node_for_slot nodes (calc_command_hash_slot (first_command j.request_data))
        ≡ some node
      → reduce_requests getaddrinfo long_limit nodes (queued j ∷ qs) ≡ (
        pending j ∷ (reduce_requests getaddrinfo long_limit nodes qs).0,
        (j.request_data, j.callback, send_command node)
            ∷ (reduce_requests getaddrinfo long_limit nodes qs).1,
      )
  unfolding reduce_requests after_reduce new_queued pending deeds
  reduce_requests-sent nodes j qs node found =
      ap (after_reduce (queued j) qs (reduce_requests getaddrinfo long_limit nodes qs))
        (reduce-sent nodes (first_command j.request_data) node found)

  reduce_requests-called :
      (nodes : List ClusterNode) (j : Job) (qs : List Queued)
      → error_text (some j.answer) ≡ none
      → reduce_requests getaddrinfo long_limit nodes (answered j ∷ qs) ≡ (
        (reduce_requests getaddrinfo long_limit nodes qs).0,
        call j ∷ (reduce_requests getaddrinfo long_limit nodes qs).1,
      )
  unfolding reduce_requests after_reduce deeds finish answered respond
  reduce_requests-called nodes j qs plain =
      ap (after_reduce (answered j) qs (reduce_requests getaddrinfo long_limit nodes qs))
        (reduce-finished nodes j.answer (pending j).request plain)

  -- What no action of the list asks for.
  signalled-call : (js : List Job) (c : ClusterClient) → signalled (map call js) c ≡ c
  unfolding signalled
  signalled-call [] c = refl
  signalled-call (j ∷ js) c = signalled-call js c

  reduce_requests-answered :
      (nodes : List ClusterNode) (js : List Job)
      → AllPlain js
      → reduce_requests getaddrinfo long_limit nodes (map answered js) ≡ ([], map call js)
  unfolding AllPlain
  reduce_requests-answered nodes [] plain = reduce_requests-nil nodes
  reduce_requests-answered nodes (j ∷ js) plain =
      reduce_requests-called nodes j (map answered js) plain.0.1
      ∙ ap (λ (r : List Queued × List Deed). (r.0, call j ∷ r.1))
          (reduce_requests-answered nodes js plain.1)

  -- What a pass over new requests does.
  abbrev Sends : List ClusterNode → List Job → Type 0
  Sends nodes js =
      (ds : List Deed) × (reduce_requests getaddrinfo long_limit nodes (map queued js)
        ≡ (map pending js, ds))
      × Routed js ds
      × ((c : ClusterClient) → signalled ds c ≡ c)

  reduce_requests-Sends :
      (nodes : List ClusterNode) (js : List Job)
      → has_full_slot_coverage (all_ranges nodes) ≡ some true
      → AllPlain js
      → Sends nodes js
  unfolding AllPlain Routed signalled
  reduce_requests-Sends nodes [] full plain = ([], reduce_requests-nil nodes, tt, λ c. refl)
  reduce_requests-Sends nodes (j ∷ js) full plain =
      let first = first_command j.request_data in
      let covered =
        has_full_slot_coverage-handles_slot (all_ranges nodes) (calc_command_hash_slot first) full
          (command_slot-le first) in
      let (node, found, has) =
        find_cluster_node_for_slot-some nodes (calc_command_hash_slot first) covered in
      let (ds, run, routed, quiet) = reduce_requests-Sends nodes js full plain.1 in
      (
        (j.request_data, j.callback, send_command node) ∷ ds,
        reduce_requests-sent nodes j (map queued js) node found
            ∙ ap
                (λ (r : List Queued × List Deed).
                  (pending j ∷ r.0, (j.request_data, j.callback, send_command node) ∷ r.1))
                run,
        (
          node,
          refl,
          AllOfSlot-HandlesAll node (calc_hash_slot j.request_data) (commands_of j.request_data)
              (ap (handles_slot node.slot_range_array) (calc_hash_slot-first j.request_data) ∙ has)
              plain.0.0,
          routed,
        ),
        quiet,
      )

  cluster_update-stable :
      (c : ClusterClient) (qs rest : List Queued) (ds : List Deed)
      → c.client_state ≡ config_stable
      → reduce_requests getaddrinfo long_limit c.cluster_node_list qs ≡ (rest, ds)
      → signalled ds c ≡ c
      → cluster_update getaddrinfo long_limit c qs ≡ (c, rest, ds)
  unfolding cluster_update update_in_state
  cluster_update-stable c qs rest ds stable run quiet =
      ap (λ (s : ClientState). update_in_state getaddrinfo long_limit s c qs) stable
      ∙ ap (λ (r : List Queued × List Deed). (signalled r.1 c, r.0, r.1)) run
      ∙ ap (λ (c' : ClusterClient). (c', rest, ds)) quiet

  -- In a stable client with full coverage, a call of Update sends each new request, single or
  -- transaction, in order to a node that handles the slots of all its commands and keeps it; when
  -- all are answered without errors, a call of Update gives each callback its response, in order,
  -- and leaves no request.
  pub cluster_update-Routed :
      (c : ClusterClient) (js : List Job)
      → c.client_state ≡ config_stable
      → has_full_slot_coverage (all_ranges c.cluster_node_list) ≡ some true
      → AllPlain js
      → (ds : List Deed) × (cluster_update getaddrinfo long_limit c (map queued js)
          ≡ (c, map pending js, ds))
        × Routed js ds
        × (cluster_update getaddrinfo long_limit c (map answered js) ≡ (c, [], map call js))
  cluster_update-Routed c js stable full plain =
      let (ds, run, routed, quiet) = reduce_requests-Sends c.cluster_node_list js full plain in
      (
        ds,
        cluster_update-stable c (map queued js) (map pending js) ds stable run (quiet c),
        routed,
        cluster_update-stable c (map answered js) [] (map call js) stable
            (reduce_requests-answered c.cluster_node_list js plain) (signalled-call js c),
      )
