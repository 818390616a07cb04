-- ===== src/ClusterClient/Requests.antt =====
-- The state machine of a ClusterClient::Request, and the states of the ClusterClient itself.
pub mod Redirects
use yarc.Base.{
  ℕ, zero, suc, ◌+◌, ◌-◌, ◌%◌, Bool, true, false, ◌&&◌, ◌||◌, Option, none, some, List, [], ◌∷◌,
  ◌++◌, Bytes, ◌==◌, ltb, if◌then◌else◌, length, to_u16,
}
use yarc.Reducer.{ReductionResult, result_none, result_delete, result_bail}
use yarc.Protocol.Data.{Tree, Data, payload, simple, simple_error}
use yarc.Protocol.Fields.{bytes_eq}
use yarc.Protocol.Parser.{c_str}
use yarc.Protocol.Number.{strtol}
use yarc.Protocol.HashSlot.{calc_command_hash_slot}
use yarc.ClusterClient.Slots.{has_full_slot_coverage}
use yarc.ClusterClient.Nodes.{
  Address, ClusterNode, all_ranges, find_cluster_node_for_slot, find_cluster_node_for_address,
  process_cluster_config,
}

-- `find` of a space, and `substr` up to it. The index is cut to 32 bits, so that where there is no
-- space it never equals `npos`, which has 64: then the code is the whole text.
unfoldable pub get_error_code : Bytes → Bytes
get_error_code [] = []
get_error_code (b ∷ bs) = if b == b' ' then [] else b ∷ get_error_code bs

-- `strtok` by spaces and colons: the tokens, of which none is empty.
unfoldable pub tokens : (token : Bytes) → Bytes → List Bytes
tokens token [] = if ltb 0 (length token) then token ∷ [] else []
tokens token (b ∷ bs) =
    if b == b' ' || b == b':'
    then (if ltb 0 (length token) then token ∷ tokens [] bs else tokens [] bs)
    else tokens (token ++ b ∷ []) bs

-- The third token is the address and the fourth the port; `long_limit` bounds the `long` of `atoi`.
unfoldable pub take_tokens : (long_limit : ℕ) → List Bytes → Address → Address
unfolding strtol
take_tokens long_limit (code ∷ slot ∷ ip ∷ []) address = record address { ip_address = ip }
take_tokens long_limit (code ∷ slot ∷ ip ∷ port ∷ more) address = record address {
  ip_address = ip;
  port = to_u16 (strtol long_limit port).0;
}
take_tokens long_limit _ address = address

unfoldable pub parse_redirect_address_and_port : (long_limit : ℕ) → Bytes → Address → Address
unfolding tokens take_tokens c_str
parse_redirect_address_and_port long_limit message address =
    take_tokens long_limit (tokens [] (c_str message)) address

pub data RequestState : Type 0 where
  state_none state_unsent state_pending state_ready : RequestState

-- A SingleRequest has one command, and a MultiRequest several, which share a slot: the first is
-- `command`.
pub record Request : Type 0 where
  pub command : Data
  pub state : RequestState
  pub response_data : Option Tree
  pub redirect_address : Address
  pub redirect_count : ℕ

-- The constructor; Address's names the local host.
unfoldable pub new_request : Data → Request
new_request command = record {
  command = command;
  state = state_unsent;
  response_data = none;
  redirect_address = record {
    hostname = [];
    ip_address = b'1' ∷ b'2' ∷ b'7' ∷ b'.' ∷ b'0' ∷ b'.' ∷ b'0' ∷ b'.' ∷ b'1' ∷ [];
    port = 6379;
  };
  redirect_count = 0;
}

-- What a call of Reduce does besides: the command, or ASKING before it, goes to the client of a
-- node, the configuration is signalled dirty, or the callback gets the response.
pub data Action : Type 0 where
  send_command send_asking : ClusterNode → Action
  signal_dirty : Action
  call_back : Option Tree → Action

pub record Reduced : Type 0 where
  pub result : ReductionResult
  pub request : Request
  pub actions : List Action

-- Cast<SimpleErrorData>
unfoldable pub error_text : Option Tree → Option Bytes
error_text none = none
error_text (some t) = elim (payload t) [ simple simple_error value ↦ some value | _ ↦ none ]

-- The end of the case of a response: the callback gets it.
unfoldable pub finish : Request → Reduced
finish r = record { result = result_delete; request = r; actions = call_back r.response_data ∷ [] }

-- The callback of a command that was sent.
unfoldable pub respond : Tree → Request → Request
respond response_data r = record r { response_data = some response_data; state = state_ready }

-- Where a MOVED or an ASK sends the request; `error_value` is the text of the error.
module _ (getaddrinfo : Bytes → ℕ → Option Bytes) (long_limit : ℕ) (nodes : List ClusterNode) where
  unfoldable pub redirect :
      (result : ReductionResult) (first : List Action) (send : ClusterNode → Action)
      → (error_value : Bytes) → Request
      → Reduced
  unfolding parse_redirect_address_and_port find_cluster_node_for_address
  redirect result first send error_value r =
      let count = r.redirect_count + 1 in
      if count == 2
      then record {
        result = result;
        request = record r { state = state_unsent; redirect_count = 0 };
        actions = first;
      }
      else (let address =
            parse_redirect_address_and_port long_limit error_value r.redirect_address in
          let moved : Request = record r {
            redirect_count = count;
            redirect_address = address;
            response_data = none;
          } in
          elim (find_cluster_node_for_address getaddrinfo nodes address) [
            | none ↦ record {
              result = result;
              request = record moved { state = state_unsent };
              actions = first;
            }
            | some node ↦ record {
              result = result;
              request = record moved { state = state_pending };
              actions = first ++ send node ∷ [];
            }
          ])

  -- HandleError, with no value where it returns false.
  unfoldable pub handle_error : (error_value : Bytes) → Request → Option Reduced
  unfolding redirect get_error_code bytes_eq
  handle_error error_value r =
      if bytes_eq (get_error_code error_value) (b'A' ∷ b'S' ∷ b'K' ∷ [])
      then some (redirect result_none [] send_asking error_value r)
      else if bytes_eq (get_error_code error_value) (b'M' ∷ b'O' ∷ b'V' ∷ b'E' ∷ b'D' ∷ [])
      then some (redirect result_bail (signal_dirty ∷ []) send_command error_value r)
      else none

  unfoldable pub reduce : Request → Reduced
  unfolding find_cluster_node_for_slot calc_command_hash_slot handle_error error_text finish
  reduce r = elim r.state [
    | state_unsent ↦ elim (find_cluster_node_for_slot nodes (calc_command_hash_slot r.command)) [
      | none ↦ record { result = result_bail; request = r; actions = signal_dirty ∷ [] }
      | some node ↦ record {
        result = result_none;
        request = record r { state = state_pending };
        actions = send_command node ∷ [];
      }
    ]
    | state_pending ↦ record { result = result_none; request = r; actions = [] }
    | state_ready ↦ elim (error_text r.response_data) [
      | none ↦ finish r
      | some value ↦ elim (handle_error value r) [ none ↦ finish r | some reduced ↦ reduced ]
    ]
    | state_none ↦ record { result = result_delete; request = r; actions = [] }
  ]

  -- The callback of ASKING, which looks for the node again.
  unfoldable pub asking_answered : Request → Reduced
  unfolding find_cluster_node_for_address
  asking_answered r = elim (find_cluster_node_for_address getaddrinfo nodes r.redirect_address) [
    | none ↦ record {
      result = result_none;
      request = record r { state = state_unsent };
      actions = [];
    }
    | some node ↦ record {
      result = result_none;
      request = record r { state = state_pending };
      actions = send_command node ∷ [];
    }
  ]

pub data ClientState : Type 0 where
  config_dirty config_query_pending config_stable config_incomplete : ClientState

pub record ClusterClient : Type 0 where
  pub address : Address
  pub client_state : ClientState
  pub cluster_node_list : List ClusterNode
  pub retry_cluster_config_countdown : ℕ

unfoldable pub signal_cluster_config_dirty : ClusterClient → ClusterClient
signal_cluster_config_dirty c = elim c.client_state [
  | config_stable ↦ record c { client_state = config_dirty }
  | _ ↦ c
]

-- The switch of Update, without the requests' Reduce in the stable state. In the dirty state the
-- query goes to a node at random, and there is one after the first assignment.
unfoldable pub update_config : ClusterClient → ClusterClient
update_config c = elim c.client_state [
  | config_dirty ↦ record c {
    client_state = config_query_pending;
    cluster_node_list = elim c.cluster_node_list [
      | [] ↦ record { address = c.address; slot_range_array = [] } ∷ []
      | n ∷ ns ↦ n ∷ ns
    ];
  }
  | config_query_pending ↦ c
  | config_stable ↦ c
  | config_incomplete ↦
      if c.retry_cluster_config_countdown == 0
      then record c { client_state = config_dirty }
      else record c { retry_cluster_config_countdown = c.retry_cluster_config_countdown - 1 }
]

-- The callback of the query. There is no value where no node has a slot.
unfoldable pub config_answered :
    (Bytes → ℕ → Option Bytes) → Data → ClusterClient → Option ClusterClient
unfolding process_cluster_config has_full_slot_coverage all_ranges
config_answered getaddrinfo response_data c =
    let nodes = process_cluster_config getaddrinfo response_data c.cluster_node_list in
    elim (has_full_slot_coverage (all_ranges nodes)) [
      | none ↦ none
      | some true ↦ some (record c { cluster_node_list = nodes; client_state = config_stable })
      | some false ↦ some (record c {
        cluster_node_list = nodes;
        client_state = config_incomplete;
        retry_cluster_config_countdown = 32;
      })
    ]
