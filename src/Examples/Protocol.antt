-- ===== src/Examples/Protocol.antt =====
-- The protocol's theorems at concrete inputs.
use Prim.Native.Nat.{bit_and}
use yarc.Base.{ℕ, ◌<◌, ◌≡◌, ◌≢◌, refl, inr, false, some, [], ◌∷◌, ◌++◌, Bytes, pos, negsuc, arith}
use yarc.DynamicArray.{DynamicArray, set_count, at}
use yarc.DynamicArray.Growth.{IsValid, set_count-IsValid}
use yarc.Crc16.{crc16}
use yarc.Crc16.Division.{divide_text, crc16-divide_text}
use yarc.Protocol.Data.{
  discriminant, Tree, Data, Pairs, Fields, bare, number, blob, blob_string, aggregate, array,
  dictionary, map_of, no_trees, more_trees, no_pairs, more_pairs, no_fields, more_fields,
}
use yarc.Protocol.Reader.{Platform, ok, out_of_fuel}
use yarc.Protocol.Reader.Counts.{input}
use yarc.Protocol.Fields.{bytes_lt, get_field, settle}
use yarc.Protocol.Fields.Order.{IsSorted}
use yarc.Protocol.Fields.Lookup.{last_value, get_field-settle}
use yarc.Protocol.Parser.{parse_tree, is_attribute}
use yarc.Protocol.Printer.{print_tree, count_trees, count_pairs, count_fields}
use yarc.Protocol.Encoding.{IsPlainTree}
use yarc.Protocol.RoundTrip.{parse_tree-print_tree}
use yarc.Protocol.Termination.{parse_tree-ne-out_of_fuel}
use yarc.Protocol.Typing.{first_byte, front, parse_tree-IsShaped}
use yarc.Protocol.Typing.Shapes.{IsShaped}
use yarc.Protocol.HashSlot.{calc_key_hash_slot, calc_command_hash_slot}
use yarc.Protocol.HashSlot.Tags.{calc_key_hash_slot-tag}
use yarc.Protocol.Command.{parse_command}
use yarc.Protocol.Command.Words.{join_quoted, HasLastWord, calc_command_hash_slot-parse_command}

abbrev platform : Platform
platform = record {
  strtod = λ text. (0, false);
  format_f = λ bits. b'0' ∷ [];
  fresh = λ i. 0;
  long_limit = 0x8000000000000000;
}

abbrev value : Tree
value = bare (
    aggregate array false (
      more_trees (bare (number (negsuc 4))) (
        more_trees
          (bare (
            dictionary map_of no_pairs (
              more_fields (b'k' ∷ []) (bare (blob blob_string false (b'h' ∷ b'i' ∷ [])))
                no_fields)))
          no_trees)))

abbrev text : Bytes
text =
    b'*' ∷ b'2' ∷ b'\r' ∷ b'\n' ∷ b':' ∷ b'-' ∷ b'5' ∷ b'\r' ∷ b'\n' ∷ b'%' ∷ b'1' ∷ b'\r' ∷ b'\n'
    ∷ b'$' ∷ b'1' ∷ b'\r' ∷ b'\n' ∷ b'k' ∷ b'\r' ∷ b'\n' ∷ b'$' ∷ b'2' ∷ b'\r' ∷ b'\n' ∷ b'h' ∷ b'i'
    ∷ b'\r' ∷ b'\n' ∷ []

printed : print_tree platform value ≡ some text
unfolding print_tree
printed = refl

value-IsPlainTree : IsPlainTree platform value
unfolding IsPlainTree count_trees count_pairs count_fields is_attribute
value-IsPlainTree = (
  (
    omega arith,
    (
      ((omega arith, omega arith), refl),
      (
        (
          (omega arith, tt, (tt, tt), (omega arith, ((omega arith, λ e. omega arith), refl), tt)),
          refl,
        ),
        tt,
      ),
    ),
  ),
  refl,
)

parse_tree-print_tree_example :
    parse_tree platform 200 (input (text ++ b'+' ∷ [])) ≡ ok value (input (b'+' ∷ []))
parse_tree-print_tree_example =
    parse_tree-print_tree platform (omega arith) value text (b'+' ∷ []) 200 value-IsPlainTree
      printed (omega arith)

parse_tree-IsShaped_example :
    IsShaped value × (first_byte (text ++ b'+' ∷ []) ≡ some (discriminant (front value)))
parse_tree-IsShaped_example =
    parse_tree-IsShaped platform 200 (input (text ++ b'+' ∷ [])) (input (b'+' ∷ [])) value (
      parse_tree-print_tree platform (omega arith) value text (b'+' ∷ []) 200 value-IsPlainTree
        printed (omega arith))

parse_tree-ne-out_of_fuel_example : parse_tree platform 100 (input text) ≢ out_of_fuel
parse_tree-ne-out_of_fuel_example =
    parse_tree-ne-out_of_fuel platform 100 (input text) (omega arith)

abbrev fields : Fields
fields =
    more_fields (b'a' ∷ []) (bare (number (pos 1)))
      (more_fields (b'c' ∷ []) (bare (number (pos 3))) no_fields)

fields-IsSorted : IsSorted fields
unfolding bytes_lt
fields-IsSorted = ((refl, tt), (tt, tt))

abbrev pairs : Pairs
pairs = more_pairs (bare (blob blob_string false (b'a' ∷ []))) (bare (number (pos 9))) no_pairs

get_field-settle_example :
    get_field (b'a' ∷ []) (settle pairs fields).1
    ≡ last_value (b'a' ∷ []) pairs (get_field (b'a' ∷ []) fields)
get_field-settle_example = get_field-settle (b'a' ∷ []) pairs fields fields-IsSorted

-- The key `a{bc}d`
calc_key_hash_slot-tag_example :
    calc_key_hash_slot (b'a' ∷ b'{' ∷ b'b' ∷ b'c' ∷ b'}' ∷ b'd' ∷ [])
    ≡ bit_and (crc16 (b'b' ∷ b'c' ∷ [])) 16383
calc_key_hash_slot-tag_example =
    calc_key_hash_slot-tag (b'a' ∷ []) (b'b' ∷ b'c' ∷ []) (b'd' ∷ [])
      ((omega arith, omega arith), tt)
      ((omega arith, omega arith), ((omega arith, omega arith), tt)) (omega arith)

-- The line `"GET" "k y"`
calc_command_hash_slot-parse_command_example :
    (command : Data) × (parse_command (join_quoted (b'G' ∷ []) ((b'k' ∷ []) ∷ [])) ≡ some command)
    × (calc_command_hash_slot command ≡ calc_key_hash_slot (b'k' ∷ []))
unfolding join_quoted HasLastWord
calc_command_hash_slot-parse_command_example =
    calc_command_hash_slot-parse_command (b'G' ∷ []) (b'k' ∷ []) [] ((omega arith, omega arith), tt)
      (((omega arith, omega arith), tt), tt) (omega arith) (omega arith)

crc16-divide_text_example :
    crc16 (b'1' ∷ b'2' ∷ b'3' ∷ []) ≡ divide_text 0 (b'1' ∷ b'2' ∷ b'3' ∷ [])
crc16-divide_text_example = crc16-divide_text (b'1' ∷ b'2' ∷ b'3' ∷ [])

-- An array of one element
abbrev one_cell : DynamicArray ℕ
one_cell = record { cells = 7 ∷ []; count = 1; size = 1 }

one_cell-IsValid : IsValid one_cell
one_cell-IsValid = record {
  capacity = inr (31, omega arith, refl);
  within = omega arith;
  allocated = refl;
}

set_count-IsValid_example :
    (b : DynamicArray ℕ) × (set_count (λ i. 0) 3 one_cell ≡ some b)
    × IsValid b
    × (b.count ≡ 3)
    × ((i : ℕ) → i < 1 → i < 3 → at b i ≡ at one_cell i)
set_count-IsValid_example = set_count-IsValid (λ i. 0) 3 one_cell one_cell-IsValid (omega arith)
