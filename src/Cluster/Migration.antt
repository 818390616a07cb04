-- ===== src/Cluster/Migration.antt =====
-- Cluster::Migration: the state machine that moves a slot from one node to another.
use yarc.Base.{
  ℕ, ◌-◌, Bool, true, false, Option, none, some, [], ◌∷◌, ◌++◌, Bytes, ◌==◌, ltb, length,
  if◌then◌else◌,
}
use yarc.Protocol.Data.{
  Tree, Data, Trees, no_trees, more_trees, payload, simple, simple_error, is_error,
}
use yarc.Protocol.Number.{decimal}
use yarc.Protocol.Parser.{c_str}
use yarc.Protocol.HashSlot.{blob_value}
use yarc.Protocol.Command.{parse_command}
use yarc.ClusterClient.Nodes.{Address, array_elements}
use yarc.Reducer.{ReductionResult, result_none, result_delete}

pub data State : Type 0 where
  mark_importing mark_migrating migrating_keys waiting unmark wait_for_gossip bail : State

-- The nodes are their indices in `nodeArray`.
pub record Migration : Type 0 where
  pub state : State
  pub source_node : ℕ
  pub destination_node : ℕ
  pub hash_slot : ℕ
  pub gossip_countdown : ℕ

unfoldable pub new_migration : (source_node destination_node hash_slot : ℕ) → Migration
new_migration source_node destination_node hash_slot = record {
  state = mark_importing;
  source_node = source_node;
  destination_node = destination_node;
  hash_slot = hash_slot;
  gossip_countdown = 512;
}

abbrev pub cluster_setslot : Bytes
cluster_setslot =
    b'C' ∷ b'L' ∷ b'U' ∷ b'S' ∷ b'T' ∷ b'E' ∷ b'R' ∷ b' ' ∷ b'S' ∷ b'E' ∷ b'T' ∷ b'S' ∷ b'L' ∷ b'O'
    ∷ b'T' ∷ b' ' ∷ []

abbrev getkeysinslot : Bytes
getkeysinslot =
    b'C' ∷ b'L' ∷ b'U' ∷ b'S' ∷ b'T' ∷ b'E' ∷ b'R' ∷ b' ' ∷ b'G' ∷ b'E' ∷ b'T' ∷ b'K' ∷ b'E' ∷ b'Y'
    ∷ b'S' ∷ b'I' ∷ b'N' ∷ b'S' ∷ b'L' ∷ b'O' ∷ b'T' ∷ b' ' ∷ []

abbrev importing : Bytes
importing = b' ' ∷ b'I' ∷ b'M' ∷ b'P' ∷ b'O' ∷ b'R' ∷ b'T' ∷ b'I' ∷ b'N' ∷ b'G' ∷ b' ' ∷ []

abbrev migrating : Bytes
migrating = b' ' ∷ b'M' ∷ b'I' ∷ b'G' ∷ b'R' ∷ b'A' ∷ b'T' ∷ b'I' ∷ b'N' ∷ b'G' ∷ b' ' ∷ []

abbrev pub to_node : Bytes
to_node = b' ' ∷ b'N' ∷ b'O' ∷ b'D' ∷ b'E' ∷ b' ' ∷ []

abbrev pub migrate : Bytes
migrate = b'M' ∷ b'I' ∷ b'G' ∷ b'R' ∷ b'A' ∷ b'T' ∷ b'E' ∷ b' ' ∷ []

abbrev one_key : Bytes
one_key = b' ' ∷ b'1' ∷ []

abbrev pub no_database : Bytes
no_database = b' ' ∷ b'0' ∷ b' ' ∷ b'5' ∷ b'0' ∷ b'0' ∷ b'0' ∷ []

-- `sprintf` into a buffer of 512 bytes, then ParseCommand; there is no value where the text and its
-- NUL need more.
unfoldable pub sprintf_command : Bytes → Option Data
unfolding parse_command
sprintf_command text = if ltb (length text) 512 then parse_command text else none

-- The texts that Reduce formats. A slot has 16 bits, so that `%d` prints it as it is.
unfoldable pub get_keys_text : Migration → Bytes
unfolding decimal
get_keys_text m = getkeysinslot ++ decimal m.hash_slot ++ one_key

unfoldable pub migrate_text : (address : ℕ → Address) → Migration → (key : Bytes) → Bytes
unfolding decimal c_str
migrate_text address m key =
    migrate
    ++ c_str (address m.destination_node).ip_address
    ++ b' ' ∷ decimal (address m.destination_node).port
    ++ b' ' ∷ c_str key
    ++ no_database

module _ (id : ℕ → Bytes) (m : Migration) where
  unfoldable pub importing_text : Bytes
  unfolding decimal c_str
  importing_text = cluster_setslot ++ decimal m.hash_slot ++ importing ++ c_str (id m.source_node)

  unfoldable pub migrating_text : Bytes
  unfolding decimal c_str
  migrating_text =
      cluster_setslot ++ decimal m.hash_slot ++ migrating ++ c_str (id m.destination_node)

  unfoldable pub node_text : Bytes
  unfolding decimal c_str
  node_text = cluster_setslot ++ decimal m.hash_slot ++ to_node ++ c_str (id m.destination_node)

unfoldable pub in_state : State → Migration → Migration
in_state state m = record m { state = state }

-- Whether a response is a SimpleErrorData
unfoldable pub is_simple_error : Data → Bool
is_simple_error (simple simple_error text) = true
is_simple_error _ = false

-- The callbacks of the requests that mark the slot.
unfoldable pub importing_answered : Tree → Migration → Migration
unfolding is_simple_error in_state
importing_answered response m =
    in_state (if is_simple_error (payload response) then bail else mark_migrating) m

unfoldable pub migrating_answered : Tree → Migration → Migration
unfolding is_error in_state
migrating_answered response m =
    in_state (if is_error (payload response) then bail else migrating_keys) m

-- `request_sync` and `request_async` are MakeRequestSync and MakeRequestAsync of a node's client, on
-- the rest of the state; a response is missing where the request was not served.
module _ {W : Type 0} (request_sync : ℕ → Data → W → Option Tree × W)
    (request_async : ℕ → Data → W → W) (id : ℕ → Bytes) (address : ℕ → Address) where
  abbrev pub Outcome : Type 0
  Outcome = Option (ReductionResult × Migration × W)

  unfoldable pub ask : Option Data → (node : ℕ) → Migration → W → Outcome
  unfolding in_state
  ask none node m w = none
  ask (some d) node m w = some (result_none, in_state waiting m, request_async node d w)

  unfoldable pub migrate_answered : Migration → Option Tree × W → ReductionResult × Migration × W
  unfolding is_error in_state
  migrate_answered m (none, w) = (result_none, in_state bail m, w)
  migrate_answered m (some t, w) =
      (result_none, if is_error (payload t) then in_state bail m else m, w)

  unfoldable pub migrate_key : Option Data → Migration → W → Outcome
  unfolding migrate_answered
  migrate_key none m w = none
  migrate_key (some d) m w = some (migrate_answered m (request_sync m.source_node d w))

  unfoldable pub first_key : Trees → Migration → W → Outcome
  unfolding in_state blob_value sprintf_command migrate_text migrate_key
  first_key no_trees m w = some (result_none, in_state unmark m, w)
  first_key (more_trees t ts) m w = elim (blob_value (some t)) [
    | none ↦ some (result_none, m, w)
    | some key ↦ migrate_key (sprintf_command (migrate_text address m key)) m w
  ]

  unfoldable pub keys_answered : Migration → Option Tree × W → Outcome
  unfolding in_state array_elements first_key
  keys_answered m (none, w) = some (result_none, in_state bail m, w)
  keys_answered m (some t, w) = elim (array_elements (some t)) [
    | none ↦ some (result_none, m, w)
    | some keys ↦ first_key keys m w
  ]

  unfoldable pub get_keys : Option Data → Migration → W → Outcome
  unfolding keys_answered
  get_keys none m w = none
  get_keys (some d) m w = keys_answered m (request_sync m.source_node d w)

  -- Both nodes are told, and what they answer is not looked at.
  unfoldable pub tell_nodes : Option Data → Migration → W → Outcome
  unfolding in_state
  tell_nodes none m w = none
  tell_nodes (some d) m w =
      let w' = (request_sync m.destination_node d w).1 in
      some (result_none, in_state wait_for_gossip m, (request_sync m.source_node d w').1)

  unfoldable pub reduce_in : State → Migration → W → Outcome
  unfolding in_state sprintf_command importing_text migrating_text get_keys_text node_text ask
      get_keys tell_nodes
  reduce_in mark_importing m w = ask (sprintf_command (importing_text id m)) m.destination_node m w
  reduce_in mark_migrating m w = ask (sprintf_command (migrating_text id m)) m.source_node m w
  reduce_in migrating_keys m w = get_keys (sprintf_command (get_keys_text m)) m w
  reduce_in unmark m w = tell_nodes (sprintf_command (node_text id m)) m w
  reduce_in waiting m w = some (result_none, m, w)
  reduce_in wait_for_gossip m w = some (
    result_none,
    if m.gossip_countdown == 0
        then in_state bail m
        else record m { gossip_countdown = m.gossip_countdown - 1 },
    w,
  )
  reduce_in bail m w = some (result_delete, m, w)

  -- Migration::Reduce
  unfoldable pub reduce_migration : Migration → W → Outcome
  unfolding reduce_in
  reduce_migration m w = reduce_in m.state m w
