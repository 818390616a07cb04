-- ===== src/Protocol/Command.antt =====
-- ParseCommand: a line of text becomes the array of its words.
pub mod Words
pub mod Plain
use yarc.Base.{
  ℕ, zero, suc, ◌+◌, Bool, true, false, ◌&&◌, not, Option, none, some, List, [], ◌∷◌, ◌++◌, Bytes,
  ◌==◌, ltb, if◌then◌else◌, length,
}
use yarc.Protocol.Data.{
  Data, Trees, bare, blob, blob_string, aggregate, array, no_trees, more_trees,
}
use yarc.Protocol.Parser.{c_str}

-- The loop over the characters of `command`, and what follows it; the word list grows at its tail.
unfoldable pub words_loop : (in_quoted_text : Bool) → (new_word : Bytes) → Bytes → List Bytes
words_loop in_quoted_text new_word [] = if ltb 0 (length new_word) then new_word ∷ [] else []
words_loop in_quoted_text new_word (ch ∷ chs) =
    if ch == b'"'
    then words_loop (not in_quoted_text) new_word chs
    else if ch == b' ' && not in_quoted_text
    then new_word ∷ words_loop in_quoted_text [] chs
    else words_loop in_quoted_text (new_word ++ ch ∷ []) chs

-- The elements of the array of words. `c_str` and `length` go to SetFromBuffer, which copies every
-- byte of the word.
unfoldable pub word_elements : List Bytes → Trees
word_elements [] = no_trees
word_elements (word ∷ words) = more_trees (bare (blob blob_string false word)) (word_elements words)

-- `text` is what `vsprintf` makes of the format and its arguments; it writes past the end of
-- `command` where this and its NUL take more than 1024 bytes, for which the model has no value.
unfoldable pub parse_command : Bytes → Option Data
unfolding words_loop word_elements c_str
parse_command text =
    if ltb (length text) 1024
    then some (aggregate array false (word_elements (words_loop false [] (c_str text))))
    else none
