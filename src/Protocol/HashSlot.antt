-- ===== src/Protocol/HashSlot.antt =====
-- CalcKeyHashSlot, FindCommandKey and CalcCommandHashSlot: the slot that a command is routed by.
pub mod Tags
use Prim.Native.Nat.{bit_and}
use yarc.Base.{
  ℕ, zero, suc, ◌+◌, ◌-◌, Bool, true, false, ◌||◌, Option, none, some, [], ◌∷◌, Bytes, ◌==◌, ltb,
  if◌then◌else◌, length, take, drop,
}
use yarc.Crc16.{crc16}
use yarc.Protocol.Data.{
  Tree, Data, Trees, payload, array, aggregate, blob, blob_string, no_trees, more_trees,
}
use yarc.Protocol.Parser.{c_str}
use yarc.Protocol.Printer.{count_trees}

-- How many bytes stand before the first `ch`: all of them where there is none.
unfoldable pub find_byte : ℕ → Bytes → ℕ
find_byte ch [] = 0
find_byte ch (b ∷ bs) = if b == ch then 0 else suc (find_byte ch bs)

-- `s` and `e` are the indexes of the first `{`, and of the first `}` behind it.
unfoldable pub calc_key_hash_slot : Bytes → ℕ
unfolding c_str find_byte crc16
calc_key_hash_slot key_str =
    let key = c_str key_str in
    let keylen = length key in
    let s = find_byte b'{' key in
    let e = s + 1 + find_byte b'}' (drop (s + 1) key) in
    if s == keylen
    then bit_and (crc16 key) 16383
    else if e == keylen || e == s + 1
    then bit_and (crc16 key) 16383
    else bit_and (crc16 (take (e - s - 1) (drop (s + 1) key))) 16383

-- GetElement
unfoldable pub get_element : Trees → ℕ → Option Tree
get_element no_trees i = none
get_element (more_trees t ts) zero = some t
get_element (more_trees t ts) (suc i) = get_element ts i

-- GetValue of an element that is a BlobStringData
unfoldable pub blob_value : Option Tree → Option Bytes
blob_value none = none
blob_value (some t) = elim (payload t) [ blob blob_string null bytes ↦ some bytes | _ ↦ none ]

unfoldable pub find_command_key : Data → Bytes
unfolding get_element blob_value count_trees
find_command_key (aggregate array null ts) =
    if ltb 1 (count_trees ts)
    then elim (blob_value (get_element ts 1)) [ none ↦ [] | some key ↦ key ]
    else []
find_command_key _ = []

unfoldable pub calc_command_hash_slot : Data → ℕ
unfolding find_command_key calc_key_hash_slot
calc_command_hash_slot command_data = calc_key_hash_slot (find_command_key command_data)
