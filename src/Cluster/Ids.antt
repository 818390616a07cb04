-- ===== src/Cluster/Ids.antt =====
-- Cluster::Setup: the nodes meet (step 4), get the ids that CLUSTER NODES tells (step 5), and become
-- slaves (step 7).
pub mod Lines
pub mod Assigned
use yarc.Base.{
  ℕ, zero, suc, ◌+◌, ◌-◌, ◌%◌, Bool, Option, none, some, List, [], ◌∷◌, ◌++◌, Bytes, ◌==◌, ltb,
  if◌then◌else◌, to_u16, length, drop, get_elem?,
}
use yarc.DynamicArray.Loops.{set_elem}
use yarc.Protocol.Number.{decimal, strtol}
use yarc.Protocol.Parser.{c_str}
use yarc.Protocol.HashSlot.{find_byte}

-- What `std::getline` reads, one after the other, up to each `delim`; `front` is before `bs`.
unfoldable pub getlines : (delim : ℕ) → (front : Bytes) → Bytes → List Bytes
getlines delim front [] = if length front == 0 then [] else front ∷ []
getlines delim front (b ∷ bs) =
    if b == delim then front ∷ getlines delim [] bs else getlines delim (front ++ b ∷ []) bs

-- `nodeId` and `nodeAddr`
unfoldable pub id_and_address : List Bytes → Bytes × Bytes
id_and_address [] = ([], [])
id_and_address (id ∷ []) = (id, [])
id_and_address (id ∷ address ∷ words) = (id, address)

-- The index of the node whose port stands behind the colon of an address, where there is one.
unfoldable pub node_index : (long_limit : ℕ) → Bytes → Option ℕ
unfolding find_byte strtol c_str
node_index long_limit node_addr =
    let i = find_byte b':' node_addr in
    if i == length node_addr
    then none
    else some (
        (to_u16 (strtol long_limit (c_str (drop (i + 1) node_addr))).0 + (0x100000000 - 7000))
        % 0x100000000)

-- The assignment to `id` of an element of `nodeArray`; there is no value where the assertion of
-- operator[] fails.
unfoldable pub set_id : List Bytes → Option ℕ → (id : Bytes) → Option (List Bytes)
unfolding set_elem c_str
set_id ids none id = some ids
set_id ids (some i) id = if ltb i (length ids) then some (set_elem ids i (c_str id)) else none

unfoldable pub read_line : (long_limit : ℕ) → Bytes → List Bytes → Option (List Bytes)
unfolding getlines id_and_address node_index set_id
read_line long_limit line ids =
    let words = id_and_address (getlines b' ' [] line) in
    set_id ids (node_index long_limit words.1) words.0

unfoldable pub read_lines : (long_limit : ℕ) → List Bytes → List Bytes → Option (List Bytes)
unfolding read_line
read_lines long_limit [] ids = some ids
read_lines long_limit (line ∷ lines) ids = elim (read_line long_limit line ids) [
  | none ↦ none
  | some ids' ↦ read_lines long_limit lines ids'
]

-- Step 5, on the text of the response and the ids of the nodes.
unfoldable pub read_ids : (long_limit : ℕ) → (csv_data : Bytes) → List Bytes → Option (List Bytes)
unfolding getlines read_lines
read_ids long_limit csv_data ids = read_lines long_limit (getlines b'\n' [] csv_data) ids

abbrev cluster_replicate : Bytes
cluster_replicate =
    b'C' ∷ b'L' ∷ b'U' ∷ b'S' ∷ b'T' ∷ b'E' ∷ b'R' ∷ b' ' ∷ b'R' ∷ b'E' ∷ b'P' ∷ b'L' ∷ b'I' ∷ b'C'
    ∷ b'A' ∷ b'T' ∷ b'E' ∷ b' ' ∷ []

-- Step 7: the loop over the nodes from `i` on, `n` of them. The commands with the index of the node
-- that each goes to; there is no value where an assertion of operator[] fails.
unfoldable pub replicate_loop :
    (slaves_per_master n i : ℕ) → (ids : List Bytes) → Option (List (ℕ × Bytes))
replicate_loop slaves_per_master zero i ids = some []
replicate_loop slaves_per_master (suc n) i ids =
    let rest = replicate_loop slaves_per_master n (i + 1) ids in
    let r = i % (1 + slaves_per_master) in
    if r == 0 then rest else elim (get_elem? ids (i - r)) [
      | none ↦ none
      | some id ↦ elim rest [ none ↦ none | some more ↦ some ((i, cluster_replicate ++ id) ∷ more) ]
    ]
