-- ===== src/Protocol/Command/Words.antt =====
-- What ParseCommand makes of words that are written in quotes, and where such a command is routed.
use yarc.Base.{
  suc, ◌<◌, ◌≡◌, refl, ap, Bool, true, false, ◌&&◌, some, List, [], ◌∷◌, ◌++◌, Bytes, ◌==◌, length,
  All, lt→ltb, ne→==, append_assoc, append-nil, arith,
}
use yarc.Protocol.Data.{Data, aggregate, array}
use yarc.Protocol.Parser.{c_str}
use yarc.Protocol.HashSlot.{calc_command_hash_slot, calc_key_hash_slot}
use yarc.Protocol.HashSlot.Tags.{Lacks, c_str-append}
use yarc.Protocol.Printer.{count_trees}
use yarc.Protocol.Command.{words_loop, word_elements, parse_command}

-- A word between quotes, and a line of such words with a space between them.
unfoldable pub quote : Bytes → Bytes
quote word = b'"' ∷ (word ++ b'"' ∷ [])

unfoldable pub join_quoted : Bytes → List Bytes → Bytes
unfolding quote
join_quoted word [] = quote word
join_quoted word (next ∷ words) = quote word ++ b' ' ∷ join_quoted next words

&&-false : (b : Bool) → (b && false) ≡ false
&&-false true = refl
&&-false false = refl

-- Behind a quote the loop collects the word, spaces and all, up to the next quote.
words_loop-quoted :
    (word done chs : Bytes)
    → Lacks b'"' word
    → words_loop true done (word ++ b'"' ∷ chs) ≡ words_loop false (done ++ word) chs
unfolding words_loop
words_loop-quoted [] done chs h = rw (append-nil done)
words_loop-quoted (b ∷ bs) done chs h = rw (
  ne→== b b'"' h.0.1,
  &&-false (b == b' '),
  words_loop-quoted bs (done ++ b ∷ []) chs h.1,
  append_assoc done (b ∷ []) bs,
)

-- The words of the line are those that were joined, if the last is not empty.
unfoldable pub HasLastWord : Bytes → List Bytes → Type 0
HasLastWord word [] = 0 < length word
HasLastWord word (next ∷ words) = HasLastWord next words

words_loop-join_quoted :
    (word : Bytes) (words : List Bytes)
    → Lacks b'"' word
    → All (Lacks b'"') words
    → HasLastWord word words
    → words_loop false [] (join_quoted word words) ≡ word ∷ words
unfolding words_loop join_quoted HasLastWord
words_loop-join_quoted word [] h hs last =
    rw (words_loop-quoted word [] [] h, lt→ltb 0 (length word) last)
words_loop-join_quoted word (next ∷ words) h hs last =
    rw
      (
        append_assoc word (b'"' ∷ []) (b' ' ∷ join_quoted next words),
        words_loop-quoted word [] (b' ' ∷ join_quoted next words) h,
      )
      (ap (◌∷◌ word) (words_loop-join_quoted next words hs.0 hs.1 last))

c_str-quote :
    (word rest : Bytes) → Lacks b'"' word → c_str (quote word ++ rest) ≡ quote word ++ c_str rest
unfolding c_str quote
c_str-quote word rest h = rw (
  append_assoc word (b'"' ∷ []) rest,
  append_assoc word (b'"' ∷ []) (c_str rest),
  c_str-append b'"' word (b'"' ∷ rest) h,
)

c_str-join_quoted :
    (word : Bytes) (words : List Bytes)
    → Lacks b'"' word
    → All (Lacks b'"') words
    → c_str (join_quoted word words) ≡ join_quoted word words
unfolding c_str join_quoted quote
c_str-join_quoted word [] h hs = rw (c_str-append b'"' word (b'"' ∷ []) h)
c_str-join_quoted word (next ∷ words) h hs =
    rw (c_str-quote word (b' ' ∷ join_quoted next words) h, c_str-join_quoted next words hs.0 hs.1)

-- A line of quoted words, without quotes or NULs in them and with a last word that is not empty,
-- becomes the array of these words, spaces inside the words kept, if it fits the buffer.
pub parse_command-join_quoted :
    (word : Bytes) (words : List Bytes)
    → Lacks b'"' word
    → All (Lacks b'"') words
    → HasLastWord word words
    → length (join_quoted word words) < 1024
    → parse_command (join_quoted word words)
      ≡ some (aggregate array false (word_elements (word ∷ words)))
unfolding parse_command
parse_command-join_quoted word words h hs last fits = rw (
  lt→ltb (length (join_quoted word words)) 1024 fits,
  c_str-join_quoted word words h hs,
  words_loop-join_quoted word words h hs last,
)

-- A line of quoted words, two at least, none with a quote or a NUL and the last not empty, that
-- fits the buffer, becomes a command that is routed by the slot of its second word.
pub calc_command_hash_slot-parse_command :
    (word key : Bytes) (words : List Bytes)
    → Lacks b'"' word
    → All (Lacks b'"') (key ∷ words)
    → HasLastWord word (key ∷ words)
    → length (join_quoted word (key ∷ words)) < 1024
    → (command : Data) × (parse_command (join_quoted word (key ∷ words)) ≡ some command)
      × (calc_command_hash_slot command ≡ calc_key_hash_slot key)
unfolding calc_command_hash_slot word_elements
calc_command_hash_slot-parse_command word key words h hs last fits = (
  _,
  parse_command-join_quoted word (key ∷ words) h hs last fits,
  rw (lt→ltb 1 (suc (suc (count_trees (word_elements words)))) (omega arith)),
)
