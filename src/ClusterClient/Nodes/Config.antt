-- ===== src/ClusterClient/Nodes/Config.antt =====
-- The nodes handle the slots that the last response of the cluster lists, and no others.
use yarc.Base.{
  ℕ, suc, ◌≡◌, refl, sym, ◌∙◌, Bool, true, false, ◌||◌, ◌&&◌, Option, none, some, List, [], ◌∷◌,
  ◌++◌, Bytes, ◌==◌, leb, if◌then◌else◌, length, arith, ne→==, Bool-cases, inl, inr,
}
use yarc.Protocol.Data.{Trees, aggregate, array, no_trees, more_trees}
use yarc.ClusterClient.Slots.{SlotRange, handles_slot}
use yarc.ClusterClient.Nodes.{
  Address, ClusterNode, node_info, clear_ranges, remove_stale, find_cluster_node_for_slot,
  all_ranges, address_eq, add_range, add_ranges, process_cluster_config,
}

-- The slots of the response.
unfoldable pub lists_slot : Trees → ℕ → Bool
unfolding node_info handles_slot
lists_slot no_trees slot = false
lists_slot (more_trees t ts) slot = elim (node_info t) [
  | none ↦ lists_slot ts slot
  | some (r, address) ↦ handles_slot (r ∷ []) slot || lists_slot ts slot
]

||-assoc : (a b c : Bool) → ((a || b) || c) ≡ (a || (b || c))
||-assoc true b c = refl
||-assoc false b c = refl

||-swap : (a b c : Bool) → (a || (b || c)) ≡ (b || (a || c))
||-swap true true c = refl
||-swap true false c = refl
||-swap false b c = refl

||-false : (a : Bool) → (a || false) ≡ a
||-false true = refl
||-false false = refl

handles_slot-append :
    (rs ss : List SlotRange) (slot : ℕ)
    → handles_slot (rs ++ ss) slot ≡ (handles_slot rs slot || handles_slot ss slot)
unfolding handles_slot
handles_slot-append [] ss slot = refl
handles_slot-append (r ∷ rs) ss slot = rw (handles_slot-append rs ss slot) (
    sym (
      ||-assoc (leb r.min_slot slot && leb slot r.max_slot) (handles_slot rs slot)
        (handles_slot ss slot)))

all_ranges-clear_ranges : (ns : List ClusterNode) → all_ranges (clear_ranges ns) ≡ []
unfolding all_ranges clear_ranges
all_ranges-clear_ranges [] = refl
all_ranges-clear_ranges (n ∷ ns) = all_ranges-clear_ranges ns

all_ranges-remove_stale : (ns : List ClusterNode) → all_ranges (remove_stale ns) ≡ all_ranges ns
unfolding all_ranges remove_stale
all_ranges-remove_stale [] = refl
all_ranges-remove_stale (n ∷ ns) = stale n.slot_range_array refl (all_ranges-remove_stale ns)
  where
    stale :
        (rs : List SlotRange)
        → n.slot_range_array ≡ rs
        → all_ranges (remove_stale ns) ≡ all_ranges ns
        → all_ranges
            (if length n.slot_range_array == 0 then remove_stale ns else n ∷ remove_stale ns)
          ≡ n.slot_range_array ++ all_ranges ns
    stale [] e rest = rw e rest
    stale (r ∷ rs) e rest = rw (e, ne→== (suc (length rs)) 0 (omega arith), rest)

-- Where the ranges of all nodes hold a slot, FindClusterNodeForSlot finds a node that handles it.
pub find_cluster_node_for_slot-some :
    (ns : List ClusterNode) (slot : ℕ)
    → handles_slot (all_ranges ns) slot ≡ true
    → (n : ClusterNode) × (find_cluster_node_for_slot ns slot ≡ some n)
      × (handles_slot n.slot_range_array slot ≡ true)
unfolding all_ranges find_cluster_node_for_slot handles_slot
find_cluster_node_for_slot-some [] slot h = absurd (cc)
find_cluster_node_for_slot-some (n ∷ ns) slot h =
    elim (Bool-cases (handles_slot n.slot_range_array slot)) [
      | inl e ↦ (n, rw e, e)
      | inr e ↦
          let later : handles_slot (all_ranges ns) slot ≡ true =
            rw e at rw (handles_slot-append n.slot_range_array (all_ranges ns) slot) at h in
          let (m, found, has) = find_cluster_node_for_slot-some ns slot later in
          (m, rw (e, found), has)
    ]

module _ (getaddrinfo : Bytes → ℕ → Option Bytes) where
  add_range-handles_slot :
      (r : SlotRange) (address : Address) (ns : List ClusterNode) (slot : ℕ)
      → handles_slot (all_ranges (add_range getaddrinfo r address ns)) slot
        ≡ (handles_slot (r ∷ []) slot || handles_slot (all_ranges ns) slot)
  unfolding all_ranges add_range
  add_range-handles_slot r address [] slot = handles_slot-append (r ∷ []) [] slot
  add_range-handles_slot r address (n ∷ ns) slot =
      elim (Bool-cases (address_eq getaddrinfo n.address address)) [
        | inl e ↦
            rw
              (
                e,
                handles_slot-append (n.slot_range_array ++ r ∷ []) (all_ranges ns) slot,
                handles_slot-append n.slot_range_array (r ∷ []) slot,
                handles_slot-append n.slot_range_array (all_ranges ns) slot,
              )
              (||-assoc (handles_slot n.slot_range_array slot) (handles_slot (r ∷ []) slot)
                  (handles_slot (all_ranges ns) slot)
                ∙ ||-swap (handles_slot n.slot_range_array slot) (handles_slot (r ∷ []) slot)
                    (handles_slot (all_ranges ns) slot))
        | inr e ↦
            rw
              (
                e,
                handles_slot-append n.slot_range_array
                    (all_ranges (add_range getaddrinfo r address ns)) slot,
                add_range-handles_slot r address ns slot,
                handles_slot-append n.slot_range_array (all_ranges ns) slot,
              )
              (||-swap (handles_slot n.slot_range_array slot) (handles_slot (r ∷ []) slot)
                (handles_slot (all_ranges ns) slot))
      ]

  add_ranges-handles_slot :
      (ts : Trees) (ns : List ClusterNode) (slot : ℕ)
      → handles_slot (all_ranges (add_ranges getaddrinfo ts ns)) slot
        ≡ (lists_slot ts slot || handles_slot (all_ranges ns) slot)
  unfolding add_ranges lists_slot
  add_ranges-handles_slot no_trees ns slot = refl
  add_ranges-handles_slot (more_trees t ts) ns slot =
      one (node_info t) (λ ms. add_ranges-handles_slot ts ms slot)
    where
      one :
          (o : Option (SlotRange × Address))
          → ((ms : List ClusterNode)
              → handles_slot (all_ranges (add_ranges getaddrinfo ts ms)) slot
                ≡ (lists_slot ts slot || handles_slot (all_ranges ms) slot))
          → handles_slot
              (all_ranges (elim o [
                | none ↦ add_ranges getaddrinfo ts ns
                | some (r, address) ↦ add_ranges getaddrinfo ts (add_range getaddrinfo r address ns)
              ]))
              slot
            ≡ (elim o [
              | none ↦ lists_slot ts slot
              | some (r, address) ↦ handles_slot (r ∷ []) slot || lists_slot ts slot
            ]
                || handles_slot (all_ranges ns) slot)
      one none rest = rest ns
      one (some (r, address)) rest =
          rw (rest (add_range getaddrinfo r address ns), add_range-handles_slot r address ns slot)
            (||-swap (lists_slot ts slot) (handles_slot (r ∷ []) slot)
                (handles_slot (all_ranges ns) slot)
              ∙ sym (
                  ||-assoc (handles_slot (r ∷ []) slot) (lists_slot ts slot)
                    (handles_slot (all_ranges ns) slot)))

  -- After a response that is an array, the nodes together handle a slot where the response lists
  -- it, and only there, whatever the nodes handled before.
  pub process_cluster_config-lists_slot :
      (null : Bool) (ts : Trees) (ns : List ClusterNode) (slot : ℕ)
      → handles_slot
          (all_ranges (process_cluster_config getaddrinfo (aggregate array null ts) ns))
          slot
        ≡ lists_slot ts slot
  unfolding process_cluster_config handles_slot
  process_cluster_config-lists_slot null ts ns slot =
      rw
        (
          all_ranges-remove_stale (add_ranges getaddrinfo ts (clear_ranges ns)),
          add_ranges-handles_slot ts (clear_ranges ns) slot,
          all_ranges-clear_ranges ns,
        )
        (||-false (lists_slot ts slot))
