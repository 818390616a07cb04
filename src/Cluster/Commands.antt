-- ===== src/Cluster/Commands.antt =====
-- The commands of a migration by their words.
use yarc.Base.{
  ℕ, ◌<◌, ◌≡◌, All, refl, ap, ◌∙◌, some, List, [], ◌∷◌, ◌++◌, Bytes, length, lt→ltb, append_assoc,
  arith,
}
use yarc.Protocol.Data.{Data}
use yarc.Protocol.Number.{decimal}
use yarc.Protocol.Command.Plain.{
  IsPlainWord, command_of, decimal-IsPlainWord, parse_command-join_words, c_str-plain, join_words,
  EndsInWord, is_plain_word-IsPlainWord,
}
use yarc.ClusterClient.Nodes.{Address}
use yarc.Cluster.Migration.{
  Migration, cluster_setslot, to_node, migrate, no_database, sprintf_command, get_keys_text,
  migrate_text, node_text,
}

-- The words of the commands.
abbrev cluster_word : Bytes
cluster_word = b'C' ∷ b'L' ∷ b'U' ∷ b'S' ∷ b'T' ∷ b'E' ∷ b'R' ∷ []

abbrev setslot_word : Bytes
setslot_word = b'S' ∷ b'E' ∷ b'T' ∷ b'S' ∷ b'L' ∷ b'O' ∷ b'T' ∷ []

abbrev node_word : Bytes
node_word = b'N' ∷ b'O' ∷ b'D' ∷ b'E' ∷ []

abbrev getkeysinslot_word : Bytes
getkeysinslot_word =
    b'G' ∷ b'E' ∷ b'T' ∷ b'K' ∷ b'E' ∷ b'Y' ∷ b'S' ∷ b'I' ∷ b'N' ∷ b'S' ∷ b'L' ∷ b'O' ∷ b'T' ∷ []

abbrev migrate_word : Bytes
migrate_word = b'M' ∷ b'I' ∷ b'G' ∷ b'R' ∷ b'A' ∷ b'T' ∷ b'E' ∷ []

-- CLUSTER GETKEYSINSLOT slot 1
abbrev pub get_keys_command : (slot : ℕ) → Data
get_keys_command slot =
    command_of cluster_word (getkeysinslot_word ∷ decimal slot ∷ (b'1' ∷ []) ∷ [])

-- CLUSTER SETSLOT slot NODE id
abbrev pub node_command : (slot : ℕ) → (id : Bytes) → Data
node_command slot id = command_of cluster_word (setslot_word ∷ decimal slot ∷ node_word ∷ id ∷ [])

-- MIGRATE host port key 0 5000
abbrev pub migrate_command : Address → (key : Bytes) → Data
migrate_command a key =
    command_of migrate_word
      (a.ip_address ∷ decimal a.port ∷ key ∷ (b'0' ∷ []) ∷ (b'5' ∷ b'0' ∷ b'0' ∷ b'0' ∷ []) ∷ [])

-- A text that is a line of plain words, and fits the buffer, becomes the command of these words.
sprintf_command-join_words :
    (text word : Bytes) (words : List Bytes)
    → text ≡ join_words word words
    → IsPlainWord word
    → All IsPlainWord words
    → EndsInWord word words
    → length text < 512
    → sprintf_command text ≡ some (command_of word words)
unfolding sprintf_command
sprintf_command-join_words text word words same h hs last fits =
    let short : length (join_words word words) < 512 = rw (← same) fits in
    let short' : length (join_words word words) < 1024 = omega (arith, short) in
    rw (lt→ltb (length text) 512 fits)
      (rw same (parse_command-join_words word words h hs last short'))

pub get_keys_text-command :
    (m : Migration)
    → length (get_keys_text m) < 512
    → sprintf_command (get_keys_text m) ≡ some (get_keys_command m.hash_slot)
unfolding get_keys_text join_words EndsInWord
get_keys_text-command m fits =
    sprintf_command-join_words (get_keys_text m) cluster_word
      (getkeysinslot_word ∷ decimal m.hash_slot ∷ (b'1' ∷ []) ∷ []) refl
      (is_plain_word-IsPlainWord cluster_word refl)
      (
        is_plain_word-IsPlainWord getkeysinslot_word refl,
        (decimal-IsPlainWord m.hash_slot, (is_plain_word-IsPlainWord (b'1' ∷ []) refl, tt)),
      )
      (omega arith) fits

pub node_text-command :
    (id : ℕ → Bytes) (m : Migration)
    → IsPlainWord (id m.destination_node)
    → 0 < length (id m.destination_node)
    → length (node_text id m) < 512
    → sprintf_command (node_text id m) ≡ some (node_command m.hash_slot (id m.destination_node))
unfolding node_text join_words EndsInWord
node_text-command id m plain some_id fits =
    sprintf_command-join_words (node_text id m) cluster_word
      (setslot_word ∷ decimal m.hash_slot ∷ node_word ∷ id m.destination_node ∷ [])
      (rw (c_str-plain (id m.destination_node) plain) (
        ap (λ bs. cluster_setslot ++ bs)
          (append_assoc (decimal m.hash_slot) to_node (id m.destination_node))))
      (is_plain_word-IsPlainWord cluster_word refl)
      (
        is_plain_word-IsPlainWord setslot_word refl,
        (decimal-IsPlainWord m.hash_slot, (is_plain_word-IsPlainWord node_word refl, (plain, tt))),
      )
      some_id fits

bracketed : (a b c d : Bytes) → a ++ b ++ c ++ d ≡ a ++ (b ++ (c ++ d))
bracketed a b c d = append_assoc (a ++ b) c d ∙ append_assoc a b (c ++ d)

pub migrate_text-command :
    (address : ℕ → Address) (m : Migration) (key : Bytes)
    → IsPlainWord (address m.destination_node).ip_address
    → IsPlainWord key
    → length (migrate_text address m key) < 512
    → sprintf_command (migrate_text address m key)
      ≡ some (migrate_command (address m.destination_node) key)
unfolding migrate_text join_words EndsInWord
migrate_text-command address m key plain plain_key fits =
    let a = address m.destination_node in
    sprintf_command-join_words (migrate_text address m key) migrate_word
      (a.ip_address ∷ decimal a.port ∷ key ∷ (b'0' ∷ []) ∷ (b'5' ∷ b'0' ∷ b'0' ∷ b'0' ∷ []) ∷ [])
      (rw (c_str-plain a.ip_address plain, c_str-plain key plain_key)
        (ap (λ bs. migrate ++ bs)
          (bracketed a.ip_address (b' ' ∷ decimal a.port) (b' ' ∷ key) no_database)))
      (is_plain_word-IsPlainWord migrate_word refl)
      (
        plain,
        (
          decimal-IsPlainWord a.port,
          (
            plain_key,
            (
              is_plain_word-IsPlainWord (b'0' ∷ []) refl,
              (is_plain_word-IsPlainWord (b'5' ∷ b'0' ∷ b'0' ∷ b'0' ∷ []) refl, tt),
            ),
          ),
        ),
      )
      (omega arith) fits
