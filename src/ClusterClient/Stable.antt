-- ===== src/ClusterClient/Stable.antt =====
-- A client whose configuration is stable has a node for every command.
use Prim.Native.Nat.{bit_and}
use yarc.Base.{
  ℕ, ◌+◌, ◌≤◌, ◌≡◌, refl, ap, ◌-◌, ◌||◌, ◌==◌, length, take, drop, Bool, true, false, Option, none,
  some, List, [], ◌∷◌, Bytes, if◌then◌else◌, bit_and-le,
}
use yarc.Protocol.Data.{Data}
use yarc.Protocol.HashSlot.{calc_command_hash_slot, calc_key_hash_slot, find_byte, find_command_key}
use yarc.Protocol.Parser.{c_str}
use yarc.Crc16.{crc16}
use yarc.ClusterClient.Slots.{has_full_slot_coverage, handles_slot}
use yarc.ClusterClient.Slots.Coverage.{has_full_slot_coverage-handles_slot}
use yarc.ClusterClient.Nodes.{
  ClusterNode, find_cluster_node_for_slot, all_ranges, process_cluster_config,
}
use yarc.ClusterClient.Nodes.Config.{find_cluster_node_for_slot-some}
use yarc.Reducer.{result_none}
use yarc.ClusterClient.Requests.{
  ClusterClient, config_stable, config_incomplete, config_answered, Request, state_unsent,
  state_pending, reduce, send_command,
}

if-le : (t : Bool) (x y : ℕ) → x ≤ 16383 → y ≤ 16383 → (if t then x else y) ≤ 16383
if-le true x y h k = h
if-le false x y h k = k

pub calc_key_hash_slot-le : (key : Bytes) → calc_key_hash_slot key ≤ 16383
unfolding calc_key_hash_slot
calc_key_hash_slot-le key_str =
    if-le (s == length key) (bit_and (crc16 key) 16383) _ (bit_and-le (crc16 key) 16383) (
      if-le (e == length key || e == s + 1) (bit_and (crc16 key) 16383) (bit_and (crc16 tag) 16383)
        (bit_and-le (crc16 key) 16383) (bit_and-le (crc16 tag) 16383))
  where
    key : Bytes
    key = c_str key_str

    s : ℕ
    s = find_byte b'{' key

    e : ℕ
    e = s + 1 + find_byte b'}' (drop (s + 1) key)

    tag : Bytes
    tag = take (e - s - 1) (drop (s + 1) key)

-- When the answer of the cluster makes the client stable, some node handles the slot of the command
-- of every unsent request, and Reduce sends the command to it.
pub config_answered-stable :
    (getaddrinfo : Bytes → ℕ → Option Bytes) (long_limit : ℕ) (response_data : Data)
    (c c' : ClusterClient) (r : Request)
    → config_answered getaddrinfo response_data c ≡ some c'
    → c'.client_state ≡ config_stable
    → r.state ≡ state_unsent
    → (node : ClusterNode) × (handles_slot node.slot_range_array (calc_command_hash_slot r.command)
        ≡ true)
      × (reduce getaddrinfo long_limit c'.cluster_node_list r ≡ record {
        result = result_none;
        request = record r { state = state_pending };
        actions = send_command node ∷ [];
      })
unfolding config_answered reduce calc_command_hash_slot
config_answered-stable getaddrinfo long_limit response_data c c' r e stable unsent =
    covered (has_full_slot_coverage (all_ranges nodes)) refl e
  where
    nodes : List ClusterNode
    nodes = process_cluster_config getaddrinfo response_data c.cluster_node_list

    Goal : Type 0
    Goal =
        (node : ClusterNode) × (handles_slot node.slot_range_array
            (calc_command_hash_slot r.command)
          ≡ true)
        × (reduce getaddrinfo long_limit c'.cluster_node_list r ≡ record {
          result = result_none;
          request = record r { state = state_pending };
          actions = send_command node ∷ [];
        })

    sent :
        (node : ClusterNode)
        → find_cluster_node_for_slot nodes (calc_command_hash_slot r.command) ≡ some node
        → reduce getaddrinfo long_limit nodes r ≡ record {
          result = result_none;
          request = record r { state = state_pending };
          actions = send_command node ∷ [];
        }
    sent node found = rw (reduce, unsent, found)

    covered :
        (o : Option Bool)
        → has_full_slot_coverage (all_ranges nodes) ≡ o
        → elim o [
          | none ↦ none
          | some true ↦ some (record c { cluster_node_list = nodes; client_state = config_stable })
          | some false ↦ some (record c {
            cluster_node_list = nodes;
            client_state = config_incomplete;
            retry_cluster_config_countdown = 32;
          })
        ]
          ≡ some c'
        → Goal
    covered none f g = absurd (cc)
    covered (some false) f g =
        let same : record c {
          cluster_node_list = nodes;
          client_state = config_incomplete;
          retry_cluster_config_countdown = 32;
        }
            ≡ c' =
          cc in
        let state : config_incomplete ≡ c'.client_state = ap (λ x. x.client_state) same in
        absurd (cc)
    covered (some true) f g =
        let same : record c { cluster_node_list = nodes; client_state = config_stable } ≡ c' = cc in
        let slot = calc_command_hash_slot r.command in
        let full =
          has_full_slot_coverage-handles_slot (all_ranges nodes) slot f
            (calc_key_hash_slot-le (find_command_key r.command)) in
        let (node, found, has) = find_cluster_node_for_slot-some nodes slot full in
        (node, has, rw (← ap (λ x. x.cluster_node_list) same) (sent node found))
