-- ===== src/Cluster/Migrated.antt =====
-- A migration moves all the keys of its slot, and ends.
use yarc.Base.{
  ℕ, zero, suc, ◌<◌, ◌≡◌, false, Option, none, some, List, [], ◌∷◌, ◌++◌, Bytes, length,
}
use yarc.Protocol.Data.{
  Tree, Data, bare, blob, blob_string, aggregate, array, no_trees, more_trees, payload, is_error,
}
use yarc.ClusterClient.Nodes.{Address}
use yarc.Reducer.{result_delete}
use yarc.Protocol.Command.Plain.{IsPlainWord}
use yarc.Cluster.Commands.{get_keys_command, node_command, migrate_command}
use yarc.Cluster.Migration.{Migration, get_keys_text, migrate_text, node_text, reduce_migration}

-- A response to GETKEYSINSLOT with a count of 1.
unfoldable pub keys_response : List Bytes → Tree
keys_response [] = bare (aggregate array false no_trees)
keys_response (key ∷ keys) =
    bare (aggregate array false (more_trees (bare (blob blob_string false key)) no_trees))

module _ {W : Type 0} (request_sync : ℕ → Data → W → Option Tree × W)
    (request_async : ℕ → Data → W → W) (id : ℕ → Bytes) (address : ℕ → Address) where
  -- The reductions of a migration, one after the other, up to the one that asks for its deletion.
  unfoldable pub reduce_all : (fuel : ℕ) → Migration → W → Option W
  reduce_all zero m w = none
  reduce_all (suc fuel) m w = elim (reduce_migration request_sync request_async id address m w) [
    | none ↦ none
    | some o ↦ elim o.0 [ result_delete ↦ some o.2 | _ ↦ reduce_all fuel o.1 o.2 ]
  ]

  -- Nodes that answer as Redis does, by the words of a command: the source lists the first key of the
  -- slot, MIGRATE moves the key that it names, and SETSLOT moves none.
  pub record Serves (m : Migration) (keys moved : W → List Bytes) : Type 0 where
    pub lists_key :
        (w : W)
        → request_sync m.source_node (get_keys_command m.hash_slot) w
          ≡ (some (keys_response (keys w)), w)
    pub moves_key :
        (w : W) (key : Bytes) (rest : List Bytes)
        → keys w ≡ key ∷ rest
        → (t : Tree) × (w' : W) × (request_sync m.source_node
              (migrate_command (address m.destination_node) key)
              w
            ≡ (some t, w'))
          × (is_error (payload t) ≡ false)
          × (keys w' ≡ rest)
          × (moved w' ≡ moved w ++ key ∷ [])
    pub keeps_keys :
        (w : W) (node : ℕ)
        → (keys (request_sync node (node_command m.hash_slot (id m.destination_node)) w).1 ≡ keys w)
          × (moved (request_sync node (node_command m.hash_slot (id m.destination_node)) w).1
              ≡ moved w)

  -- The address and the id of the destination are words, and the commands that hold no key fit the
  -- buffer.
  pub record IsReady (m : Migration) : Type 0 where
    pub plain_address : IsPlainWord (address m.destination_node).ip_address
    pub plain_id : IsPlainWord (id m.destination_node)
    pub some_id : 0 < length (id m.destination_node)
    pub fits_get : length (get_keys_text m) < 512
    pub fits_node : length (node_text id m) < 512

  -- A key that is a word, with a command that fits the buffer.
  abbrev pub IsMovable : Migration → Bytes → Type 0
  IsMovable m key = IsPlainWord key × (length (migrate_text address m key) < 512)
