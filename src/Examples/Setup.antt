-- ===== src/Examples/Setup.antt =====
-- The set-up of a cluster and a migration at work.
use yarc.Base.{
  ℕ, ◌≡◌, refl, Option, none, some, List, [], ◌∷◌, ◌++◌, Bytes, All, ◌==◌, if◌then◌else◌, arith,
}
use yarc.Protocol.Data.{Tree, Data, bare, simple, simple_string, aggregate}
use yarc.Protocol.HashSlot.{blob_value, get_element}
use yarc.Protocol.Fields.{bytes_eq}
use yarc.ClusterClient.Nodes.{Address}
use yarc.Cluster.{add_slots, distribute_slots, add_shares}
use yarc.Cluster.Covered.{slots_from}
use yarc.Cluster.Shares.{Lists, distribute_slots-Lists}
use yarc.Cluster.Fits.{Fits, add_slots-Fits}
use yarc.Cluster.Migration.{Migration, migrating_keys}
use yarc.Cluster.Migrated.{keys_response}

distribute_slots-Lists_example :
    Lists 1 (add_shares 16384 (distribute_slots 3 1)) (slots_from 16384 0)
distribute_slots-Lists_example =
    distribute_slots-Lists 1 3 16384 (omega arith) (omega arith) (omega arith)

add_slots-Fits_example :
    (batches : List (List ℕ)) × (add_slots 250 0 249 ≡ some batches) × All Fits batches
add_slots-Fits_example = add_slots-Fits 250 250 0 249 (omega arith) refl (omega arith)

-- A server that keeps the keys of one slot, and those that it moved.
abbrev Served : Type 0
Served = List Bytes × List Bytes

abbrev keys : Served → List Bytes
keys w = w.0

abbrev moved : Served → List Bytes
moved w = w.1

-- MIGRATE moves the first key where it names it.
abbrev move_key : (key : Bytes) → (keys moved : List Bytes) → Option Tree × Served
move_key key [] moved = (none, ([], moved))
move_key key (first ∷ rest) moved =
    if bytes_eq key first
    then (some (bare (simple simple_string [])), (rest, moved ++ first ∷ []))
    else (none, (first ∷ rest, moved))

abbrev word_of : Option Bytes → Bytes
word_of none = []
word_of (some word) = word

abbrev named_key : Data → Bytes
named_key (aggregate kind null ts) = word_of (blob_value (get_element ts 3))
named_key d = []

abbrev first_byte : Option Bytes → ℕ
first_byte none = 0
first_byte (some []) = 0
first_byte (some (b ∷ bs)) = b

abbrev letter : ℕ → Data → ℕ
letter i (aggregate kind null ts) = first_byte (blob_value (get_element ts i))
letter i d = 0

-- What the server answers, by the words of a command.
abbrev serve : ℕ → Data → Served → Option Tree × Served
serve node d w =
    if letter 0 d == b'M'
    then move_key (named_key d) w.0 w.1
    else if letter 1 d == b'G'
    then (some (keys_response w.0), w)
    else (none, w)

abbrev serve_later : ℕ → Data → Served → Served
serve_later node d w = w

abbrev host : ℕ → Address
host node = record { hostname = []; ip_address = b'1' ∷ []; port = 7000 }

abbrev node_id : ℕ → Bytes
node_id node = b'a' ∷ []

abbrev moving : Migration
moving = record {
  state = migrating_keys;
  source_node = 0;
  destination_node = 1;
  hash_slot = 5;
  gossip_countdown = 2;
}

a_key : Bytes
a_key = b'x' ∷ []
