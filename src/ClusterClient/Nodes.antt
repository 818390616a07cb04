-- ===== src/ClusterClient/Nodes.antt =====
-- The nodes that a ClusterClient knows, and what ProcessClusterConfig makes of them.
pub mod Config
use yarc.Base.{
  ℕ, zero, suc, ◌+◌, Bool, true, false, ◌&&◌, ◌||◌, Option, none, some, List, [], ◌∷◌, ◌++◌, Bytes,
  ◌==◌, ltb, leb, if◌then◌else◌, length, to_u16,
}
use yarc.Protocol.Data.{Tree, Data, Trees, payload, number, aggregate, array, no_trees, more_trees}
use yarc.Protocol.Fields.{bytes_eq}
use yarc.Protocol.Parser.{c_str}
use yarc.Protocol.Printer.{count_trees}
use yarc.Protocol.HashSlot.{get_element, blob_value}
use yarc.ClusterClient.Slots.{SlotRange, handles_slot}

-- The strings are C strings without their terminator.
pub record Address : Type 0 where
  pub hostname : Bytes
  pub ip_address : Bytes
  pub port : ℕ

-- A ClusterNode with the address of its client.
pub record ClusterNode : Type 0 where
  pub address : Address
  pub slot_range_array : List SlotRange

-- Cast<NumberData> of an element and its 16 low bits, or 0
unfoldable pub number_or_zero : Option Tree → ℕ
number_or_zero none = 0
number_or_zero (some t) = elim (payload t) [ number n ↦ to_u16 n | _ ↦ 0 ]

-- Cast<ArrayData> of an element
unfoldable pub array_elements : Option Tree → Option Trees
array_elements none = none
array_elements (some t) = elim (payload t) [ aggregate array null ts ↦ some ts | _ ↦ none ]

-- The address of a node from its array of two elements or more; the constructor of Address names
-- the local host.
unfoldable pub node_address : Trees → Address
unfolding blob_value get_element number_or_zero c_str
node_address ts = record {
  hostname = [];
  ip_address = elim (blob_value (get_element ts 0)) [
    | some value ↦ c_str value
    | none ↦ b'1' ∷ b'2' ∷ b'7' ∷ b'.' ∷ b'0' ∷ b'.' ∷ b'0' ∷ b'.' ∷ b'1' ∷ []
  ];
  port = number_or_zero (get_element ts 1);
}

-- An element of the response: a range of slots, and the address of the node that has it.
unfoldable pub node_info : Tree → Option (SlotRange × Address)
unfolding array_elements get_element count_trees number_or_zero node_address
node_info t = elim (array_elements (some t)) [
  | none ↦ none
  | some info ↦
      if ltb (count_trees info) 3 then none else elim (array_elements (get_element info 2)) [
        | none ↦ none
        | some place ↦
            if ltb (count_trees place) 2
            then none
            else some (
              record {
                min_slot = number_or_zero (get_element info 0);
                max_slot = number_or_zero (get_element info 1);
              },
              node_address place,
            )
      ]
]

-- The first loop: every node loses its ranges.
unfoldable pub clear_ranges : List ClusterNode → List ClusterNode
clear_ranges [] = []
clear_ranges (n ∷ ns) = record n { slot_range_array = [] } ∷ clear_ranges ns

-- The last loop: a node without a range is stale.
unfoldable pub remove_stale : List ClusterNode → List ClusterNode
remove_stale [] = []
remove_stale (n ∷ ns) =
    if length n.slot_range_array == 0 then remove_stale ns else n ∷ remove_stale ns

unfoldable pub find_cluster_node_for_slot : List ClusterNode → ℕ → Option ClusterNode
unfolding handles_slot
find_cluster_node_for_slot [] slot = none
find_cluster_node_for_slot (n ∷ ns) slot =
    if handles_slot n.slot_range_array slot then some n else find_cluster_node_for_slot ns slot

-- The ranges that ClusterConfigHasFullSlotCoverage puts in one list.
unfoldable pub all_ranges : List ClusterNode → List SlotRange
all_ranges [] = []
all_ranges (n ∷ ns) = n.slot_range_array ++ all_ranges ns

-- `getaddrinfo` looks up the address of a host, for a port.
module _ (getaddrinfo : Bytes → ℕ → Option Bytes) where
  -- GetResolvedIPAddress
  unfoldable pub resolved_ip_address : Address → Bytes
  resolved_ip_address a =
      if ltb 0 (length a.hostname)
      then elim (getaddrinfo a.hostname a.port) [ some ip ↦ ip | none ↦ a.ip_address ]
      else a.ip_address

  -- Address::operator==
  unfoldable pub address_eq : Address → Address → Bool
  unfolding resolved_ip_address bytes_eq
  address_eq a b = a.port == b.port && bytes_eq (resolved_ip_address a) (resolved_ip_address b)

  unfoldable pub find_cluster_node_for_address : List ClusterNode → Address → Option ClusterNode
  unfolding address_eq
  find_cluster_node_for_address [] address = none
  find_cluster_node_for_address (n ∷ ns) address =
      if address_eq n.address address then some n else find_cluster_node_for_address ns address

  -- The range goes to the node that FindClusterNodeForAddress finds, or to a new one at the tail.
  unfoldable pub add_range : SlotRange → Address → List ClusterNode → List ClusterNode
  unfolding address_eq
  add_range r address [] = record { address = address; slot_range_array = r ∷ [] } ∷ []
  add_range r address (n ∷ ns) =
      if address_eq n.address address
      then record n { slot_range_array = n.slot_range_array ++ r ∷ [] } ∷ ns
      else n ∷ add_range r address ns

  -- The second loop.
  unfoldable pub add_ranges : Trees → List ClusterNode → List ClusterNode
  unfolding node_info add_range
  add_ranges no_trees ns = ns
  add_ranges (more_trees t ts) ns = elim (node_info t) [
    | none ↦ add_ranges ts ns
    | some (r, address) ↦ add_ranges ts (add_range r address ns)
  ]

  unfoldable pub process_cluster_config : Data → List ClusterNode → List ClusterNode
  unfolding clear_ranges add_ranges remove_stale
  process_cluster_config (aggregate array null ts) ns =
      remove_stale (add_ranges ts (clear_ranges ns))
  process_cluster_config _ ns = ns
