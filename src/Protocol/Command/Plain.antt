-- ===== src/Protocol/Command/Plain.antt =====
-- What ParseCommand makes of plain words with a space between each two.
use yarc.Base.{
  ℕ, ◌<◌, ◌≤◌, ◌≡◌, ◌≢◌, refl, ap, ◌∙◌, Bool, true, false, ◌&&◌, some, List, [], ◌∷◌, ◌++◌, Bytes,
  ◌==◌, leb→le, if◌then◌else◌, length, length-append, All, lt→ltb, ne→==, append_assoc, append-nil,
  arith,
}
use yarc.Protocol.Data.{Data, aggregate, array}
use yarc.Protocol.Number.{is_digit, decimal}
use yarc.Protocol.Number.Decimal.{IsDigits, decimal-IsDigits}
use yarc.Protocol.Parser.{c_str}
use yarc.Protocol.Command.{words_loop, word_elements, parse_command}

-- A character that ParseCommand takes as it is.
abbrev pub IsPlain : ℕ → Type 0
IsPlain b = (b ≢ b'"') × (b ≢ b' ') × (b ≢ 0)

abbrev pub IsPlainWord : Bytes → Type 0
IsPlainWord = All IsPlain

abbrev is_plain : ℕ → Bool
is_plain b =
    if b == b'"' then false else if b == b' ' then false else if b == 0 then false else true

abbrev pub is_plain_word : Bytes → Bool
is_plain_word [] = true
is_plain_word (b ∷ bs) = is_plain b && is_plain_word bs

pub is_plain_word-IsPlainWord : (bs : Bytes) → is_plain_word bs ≡ true → IsPlainWord bs
is_plain_word-IsPlainWord [] h = tt
is_plain_word-IsPlainWord (b ∷ bs) h =
    ((ground arith, ground arith, ground arith), is_plain_word-IsPlainWord bs (ground arith))

pub c_str-plain : (bs : Bytes) → IsPlainWord bs → c_str bs ≡ bs
unfolding c_str
c_str-plain [] h = refl
c_str-plain (b ∷ bs) h = rw (ne→== b 0 h.0.2, c_str-plain bs h.1) refl

pub words_loop-plain :
    (word bs : Bytes)
    → IsPlainWord bs
    → 0 < length (word ++ bs)
    → words_loop false word bs ≡ (word ++ bs) ∷ []
unfolding words_loop
words_loop-plain word [] h pos =
    let pos' : 0 < length word = omega (arith, pos, length-append word []) in
    rw (lt→ltb 0 (length word) pos', append-nil word) refl
words_loop-plain word (b ∷ bs) h pos =
    let pos' : 0 < length (word ++ b ∷ [] ++ bs) = rw (append_assoc word (b ∷ []) bs) pos in
    rw
      (
        ne→== b b'"' h.0.0,
        ne→== b b' ' h.0.1,
        words_loop-plain (word ++ b ∷ []) bs h.1 pos',
        append_assoc word (b ∷ []) bs,
      )
      refl

-- A line of words with a space between each two.
unfoldable pub join_words : Bytes → List Bytes → Bytes
join_words word [] = word
join_words word (next ∷ words) = word ++ b' ' ∷ join_words next words

unfoldable pub EndsInWord : Bytes → List Bytes → Type 0
EndsInWord word [] = 0 < length word
EndsInWord word (next ∷ words) = EndsInWord next words

words_loop-next :
    (word done chs : Bytes)
    → IsPlainWord word
    → words_loop false done (word ++ b' ' ∷ chs) ≡ (done ++ word) ∷ words_loop false [] chs
unfolding words_loop
words_loop-next [] done chs h = rw (append-nil done) refl
words_loop-next (b ∷ bs) done chs h =
    rw
      (
        ne→== b b'"' h.0.0,
        ne→== b b' ' h.0.1,
        words_loop-next bs (done ++ b ∷ []) chs h.1,
        append_assoc done (b ∷ []) bs,
      )
      refl

words_loop-join_words :
    (word : Bytes) (words : List Bytes)
    → IsPlainWord word
    → All IsPlainWord words
    → EndsInWord word words
    → words_loop false [] (join_words word words) ≡ word ∷ words
unfolding join_words EndsInWord
words_loop-join_words word [] h hs last = words_loop-plain [] word h last
words_loop-join_words word (next ∷ words) h hs last =
    words_loop-next word [] (join_words next words) h
    ∙ ap (◌∷◌ word) (words_loop-join_words next words hs.0 hs.1 last)

c_str-plain_append :
    (word rest : Bytes) → IsPlainWord word → c_str (word ++ rest) ≡ word ++ c_str rest
unfolding c_str
c_str-plain_append [] rest h = refl
c_str-plain_append (b ∷ bs) rest h = rw (ne→== b 0 h.0.2, c_str-plain_append bs rest h.1) refl

c_str-join_words :
    (word : Bytes) (words : List Bytes)
    → IsPlainWord word
    → All IsPlainWord words
    → c_str (join_words word words) ≡ join_words word words
unfolding join_words c_str
c_str-join_words word [] h hs = c_str-plain word h
c_str-join_words word (next ∷ words) h hs =
    c_str-plain_append word (b' ' ∷ join_words next words) h
    ∙ ap (λ bs. word ++ b' ' ∷ bs) (c_str-join_words next words hs.0 hs.1)

-- The array of the words of a command.
abbrev pub command_of : Bytes → List Bytes → Data
command_of word words = aggregate array false (word_elements (word ∷ words))

-- Such a line becomes the array of its words, if the last is not empty and the line fits the buffer.
pub parse_command-join_words :
    (word : Bytes) (words : List Bytes)
    → IsPlainWord word
    → All IsPlainWord words
    → EndsInWord word words
    → length (join_words word words) < 1024
    → parse_command (join_words word words) ≡ some (command_of word words)
unfolding parse_command
parse_command-join_words word words h hs last fits =
    rw
      (
        lt→ltb (length (join_words word words)) 1024 fits,
        c_str-join_words word words h hs,
        words_loop-join_words word words h hs last,
      )
      refl

digit-IsPlain : (b : ℕ) → is_digit b ≡ true → IsPlain b
unfolding is_digit
digit-IsPlain b h =
    let low : 48 ≤ b = leb→le 48 b (ground arith) in
    (omega (arith, low), omega (arith, low), omega (arith, low))

digits-IsPlainWord : (bs : Bytes) → IsDigits bs → IsPlainWord bs
digits-IsPlainWord [] h = tt
digits-IsPlainWord (b ∷ bs) h = (digit-IsPlain b h.0, digits-IsPlainWord bs h.1)

pub decimal-IsPlainWord : (n : ℕ) → IsPlainWord (decimal n)
decimal-IsPlainWord n = digits-IsPlainWord (decimal n) (decimal-IsDigits n)
