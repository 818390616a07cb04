-- ===== src/Cluster/Choice/Sources.antt =====
-- The nodes that the entries of CLUSTER SLOTS name.
use std.Path.{subst}
use yarc.Base.{
  ℕ, zero, suc, ◌+◌, ◌≤◌, ◌<◌, ◌≡◌, ◌⊎◌, refl, ap, inl, inr, ◌&&◌, Option, none, some, List, [],
  ◌∷◌, Bytes, ltb, leb, get_elem?, Bool-cases, Option-cases, leb→le, arith,
}
use yarc.Protocol.Data.{Tree, Trees, no_trees, more_trees}
use yarc.Protocol.Fields.{bytes_eq}
use yarc.Protocol.Fields.Order.{eq_of_bytes_eq}
use yarc.Protocol.Parser.{c_str}
use yarc.Protocol.Printer.{count_trees}
use yarc.Protocol.HashSlot.{get_element}
use yarc.Cluster.Choice.{
  random_number, find_from, find_node_with_id, entry_range, entry_address, entry_id, source_of,
  find_source,
}

pub random_number-le : (n max : ℕ) → random_number n 0 max ≤ max
unfolding random_number
random_number-le n max = ground arith

find_from-some :
    (i : ℕ) (ids : List Bytes) (id : Bytes) (j : ℕ)
    → find_from i ids id ≡ some j
    → (k : ℕ) × (j ≡ i + k) × (get_elem? ids k ≡ some id)
unfolding find_from
find_from-some i [] id j h = absurd (cc)
find_from-some i (x ∷ xs) id j h = elim (Bool-cases (bytes_eq x id)) [
  | inl e ↦
      let here : some i ≡ some j = rw e at h in
      let same : i ≡ j = cc in (0, omega (arith, same), ap some (eq_of_bytes_eq x id e))
  | inr e ↦
      let (k, at_k, found) = find_from-some (i + 1) xs id j (rw e at h) in
      (suc k, omega (arith, at_k), found)
]

-- The id of the node.
pub find_node_with_id-some :
    (ids : List Bytes) (id : Bytes) (j : ℕ)
    → find_node_with_id ids id ≡ some j
    → get_elem? ids j ≡ some (c_str id)
unfolding find_node_with_id
find_node_with_id-some ids id j h =
    let (k, at_k, found) = find_from-some 0 ids (c_str id) j h in
    let same : k ≡ j = omega (arith, at_k) in
    subst (λ (a : ℕ). get_elem? ids a ≡ some (c_str id)) same found

-- Every entry has an id.
unfoldable pub AllNamed : Trees → Type 0
AllNamed no_trees = Unit
AllNamed (more_trees t ts) = ((id : Bytes) × (entry_id t ≡ some id)) × AllNamed ts

pub get_element-named :
    (ts : Trees) (i : ℕ)
    → AllNamed ts
    → i < count_trees ts
    → (t : Tree) × (id : Bytes) × (get_element ts i ≡ some t) × (entry_id t ≡ some id)
unfolding get_element count_trees AllNamed
get_element-named no_trees i named h = absurd (omega (arith, h))
get_element-named (more_trees t ts) zero named h = (t, named.0.0, refl, named.0.1)
get_element-named (more_trees t ts) (suc i) named h =
    get_element-named ts i named.1 (omega (arith, h))

-- An entry with the id of a node.
abbrev pub Names : List Bytes → Tree → ℕ → Type 0
Names ids t j = (id : Bytes) × (entry_id t ≡ some id) × (find_node_with_id ids id ≡ some j)

-- An entry whose range holds the slot has the id of the node.
abbrev pub Serves : List Bytes → Trees → (hash_slot node : ℕ) → Type 0
Serves ids ts hash_slot node =
    (i : ℕ) × (t : Tree) × (min : ℕ) × (max : ℕ) × (get_element ts i ≡ some t)
    × (entry_range t ≡ some (min, max))
    × (min ≤ hash_slot)
    × (hash_slot ≤ max)
    × Names ids t node

Serves-more :
    (ids : List Bytes) (t : Tree) (ts : Trees) (hash_slot node : ℕ)
    → Serves ids ts hash_slot node
    → Serves ids (more_trees t ts) hash_slot node
unfolding get_element
Serves-more ids t ts hash_slot node (i, u, min, max, at_i, range, low, high, names) =
    (suc i, u, min, max, at_i, range, low, high, names)

source_of-Names :
    (ids : List Bytes) (t : Tree) (rest : Option (Option ℕ)) (node : ℕ)
    → source_of ids t rest ≡ some (some node)
    → (rest ≡ some (some node)) ⊎ Names ids t node
unfolding source_of
source_of-Names ids t rest node h = elim (Option-cases (entry_address t)) [
  | inl e ↦ inl (rw (source_of, e) at h)
  | inr (address, e) ↦ elim (Bool-cases (ltb (count_trees address) 3)) [
    | inl few ↦ inl (rw (source_of, e, few) at h)
    | inr enough ↦ elim (Option-cases (entry_id t)) [
      | inl f ↦
          absurd (let nothing : none ≡ some (some node) = rw (source_of, e, enough, f) at h in cc)
      | inr (id, f) ↦
          let found : some (find_node_with_id ids id) ≡ some (some node) =
            rw (source_of, e, enough, f) at h in
          inr (id, f, cc)
    ]
  ]
]

pub find_source-Serves :
    (ids : List Bytes) (hash_slot node : ℕ) (ts : Trees)
    → find_source ids hash_slot ts ≡ some (some node)
    → Serves ids ts hash_slot node
unfolding find_source get_element
find_source-Serves ids hash_slot node no_trees h =
    let nothing : some none ≡ some (some node) = h in absurd (cc)
find_source-Serves ids hash_slot node (more_trees t ts) h = elim (Option-cases (entry_range t)) [
  | inl e ↦ absurd (let nothing : none ≡ some (some node) = rw (find_source, e) at h in cc)
  | inr (range, e) ↦ elim (Bool-cases (leb range.0 hash_slot && leb hash_slot range.1)) [
    | inr other ↦
        Serves-more ids t ts hash_slot node
          (find_source-Serves ids hash_slot node ts (rw (find_source, e, other) at h))
    | inl holds ↦
        let run : source_of ids t (find_source ids hash_slot ts) ≡ some (some node) =
          rw (find_source, e, holds) at h in
        elim (source_of-Names ids t _ node run) [
          | inl later ↦
              Serves-more ids t ts hash_slot node (find_source-Serves ids hash_slot node ts later)
          | inr names ↦ (
            0,
            t,
            range.0,
            range.1,
            refl,
            e,
            leb→le range.0 hash_slot (ground arith),
            leb→le hash_slot range.1 (ground arith),
            names,
          )
        ]
  ]
]
