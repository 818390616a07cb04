-- ===== src/Cluster/Fits.antt =====
-- The commands of AddSlots fit their buffers.
use yarc.Base.{
  ℕ, suc, ◌+◌, ◌*◌, ◌%◌, ◌≤◌, ◌<◌, ◌≡◌, refl, false, Bytes, some, List, [], ◌∷◌, length, All,
  lt→ltb, arith, length-append,
}
use yarc.Protocol.Data.{Data, aggregate, array}
use yarc.Protocol.Number.{print_count, decimal}
use yarc.Protocol.Number.Decimal.{length-digits_before}
use yarc.Protocol.Command.{words_loop, word_elements, parse_command}
use yarc.Protocol.Parser.{c_str}
use yarc.Cluster.{total_slots, slot_words, add_slots_command, add_slots}
use yarc.Cluster.Covered.{IsBatch, add_slots-slots_from}

length-print_count : (slot : ℕ) → slot < total_slots → length (print_count slot) ≤ 5
unfolding print_count decimal
length-print_count slot h =
    let same : slot % 0x100000000 ≡ slot = omega (arith, h) in
    let signed = lt→ltb slot 0x80000000 (omega (arith, h)) in
    rw (same, signed) (omega (arith, length-digits_before 4 (suc slot) slot [] (omega (arith, h))))

length-slot_words :
    (slots : List ℕ)
    → All (λ slot. slot < total_slots) slots
    → length (slot_words slots) ≤ 6 * length slots
unfolding slot_words
length-slot_words [] h = omega arith
length-slot_words (slot ∷ slots) h = omega (
  arith,
  length-append (print_count slot) (slot_words slots),
  length-print_count slot h.0,
  length-slot_words slots h.1,
)

-- ParseCommand takes the command, which has 616 characters at most.
abbrev pub Fits : List ℕ → Type 0
Fits b =
    (length (add_slots_command b) ≤ 616)
    × (d : Data) × (parse_command (add_slots_command b) ≡ some d)

parse_command-short :
    (text : Bytes) → length text < 1024 → (d : Data) × (parse_command text ≡ some d)
unfolding parse_command
parse_command-short text h = (
  aggregate array false (word_elements (words_loop false [] (c_str text))),
  rw (lt→ltb (length text) 1024 h) refl,
)

IsBatch-Fits : (b : List ℕ) → IsBatch b → Fits b
unfolding add_slots_command
IsBatch-Fits b h =
    let short = length-add_slots_command b h in
    let (d, parsed) = parse_command-short (add_slots_command b) (omega (arith, short)) in
    (short, d, parsed)
  where
    length-add_slots_command : (c : List ℕ) → IsBatch c → length (add_slots_command c) ≤ 616
    length-add_slots_command c i = omega (arith, length-slot_words c i.1, i.0)

All-Fits : (bs : List (List ℕ)) → All IsBatch bs → All Fits bs
All-Fits [] h = tt
All-Fits (b ∷ bs) h = (IsBatch-Fits b h.0, All-Fits bs h.1)

-- Each command of AddSlots, for slots below 16384, has 616 characters at most, so that the buffers
-- of AddSlots and of ParseCommand hold it, and ParseCommand gives data for it.
pub add_slots-Fits :
    (fuel n a max_slot : ℕ)
    → max_slot < total_slots
    → a + n ≡ max_slot + 1
    → n ≤ fuel
    → (batches : List (List ℕ)) × (add_slots fuel a max_slot ≡ some batches) × All Fits batches
add_slots-Fits fuel n a max_slot small e enough =
    let (batches, run, all, fit) = add_slots-slots_from fuel n a max_slot small e enough in
    (batches, run, All-Fits batches fit)
