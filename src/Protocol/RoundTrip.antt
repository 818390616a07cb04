-- ===== src/Protocol/RoundTrip.antt =====
-- ParseTree reads the encoding of a value back.
pub mod Leaves
mod Settled
use Leaves.{
  parse_simple-line, parse_big_number-line, parse_number-print_int, parse_double-text,
  parse_blob-bytes, parse_blob-null, parse_chunk-bytes, parse_array-count, parse_array-null,
  parse_map-count, print_int-IsLine,
}
use Settled.{append_pairs, field_pairs, settle-append_pairs}
use yarc.Base.{
  ℕ, zero, suc, ◌+◌, ◌-◌, ◌*◌, ◌≤◌, ◌<◌, ◌≡◌, refl, ap, ◌∙◌, true, false, some, [], ◌∷◌, ◌++◌,
  Bytes, length, arith, length-append, append_assoc, lt→ltb,
}
use yarc.Protocol.Data.{
  Tree, Data, Trees, Pairs, Fields, blob_string, chunk, blob_error, verbatim, simple_string,
  simple_error, array, set_array, push, map_of, attribute, bare, attributed, blob, simple, number,
  double, boolean, big_number, end_data, null_data, aggregate, dictionary, no_trees, more_trees,
  no_pairs, more_pairs, no_fields, more_fields, discriminant,
}
use yarc.Protocol.Reader.{Platform, Parser, Result, ok}
use yarc.Protocol.Reader.Counts.{input}
use yarc.Protocol.Parser.{parse_tree, parse_data_type, parse_trees, parse_pairs, parse_chunks}
use yarc.Protocol.Printer.{print_tree, count_trees, count_pairs, count_fields}
use yarc.Protocol.Encoding.{
  encode_bytes, encode_tree, encode, encode_trees, encode_pairs, encode_fields, size_limit,
  IsPlainTree, IsPlain, ArePlain, ArePlainPairs, ArePlainFields,
}
use yarc.Protocol.Encoding.Printed.{encode-cons, print_tree-encode_tree}

length-append_bytes : (xs ys : Bytes) → length (xs ++ ys) ≡ length xs + length ys
length-append_bytes = length-append

ruleset lengths = (arith, length-append_bytes)

module _ (p : Platform) where
  length-encode_pos : (d : Data) → 0 < length (encode p d)
  length-encode_pos d = rw (encode-cons p d) (omega arith)

  length-encode_tree_pos : (t : Tree) → 0 < length (encode_tree p t)
  unfolding encode_tree
  length-encode_tree_pos (bare d) = length-encode_pos d
  length-encode_tree_pos (attributed a d) = omega (lengths, length-encode_pos a)

  module _ (long : size_limit ≤ p.long_limit) where
    -- A key that the printer wrote as a string.
    key_back :
        (k : Bytes) (f : ℕ) (rest : Bytes)
        → length k < size_limit
        → 1 < f
        → parse_tree p f (input ((b'$' ∷ encode_bytes k) ++ rest))
          ≡ ok (bare (blob blob_string false k)) (input rest)
    unfolding parse_tree
    key_back k zero rest h b = absurd (omega arith)
    key_back k (suc zero) rest h b = absurd (omega arith)
    key_back k (suc (suc f)) rest h b =
        rw (parse_blob-bytes p long blob_string (parse_chunks p f []) k rest h)

    mutual
      unfolding parse_tree encode_tree IsPlainTree discriminant count_trees count_pairs count_fields
          append_pairs field_pairs

      tree_back :
          (t : Tree) (f : ℕ) (rest : Bytes)
          → IsPlainTree p t
          → 3 * length (encode_tree p t) + 2 < f
          → parse_tree p f (input (encode_tree p t ++ rest)) ≡ ok t (input rest)
      tree_back t zero rest h b = absurd (omega arith)
      tree_back (bare d) (suc f) rest h b = rw (data_back d f rest h.0 (omega arith), h.1)
      tree_back (attributed a d) (suc f) rest h b = rw (
        append_assoc (encode p a) (encode p d) rest,
        data_back a f (encode p d ++ rest) h.0 (omega lengths),
        h.1,
        data_back d f rest h.2 (omega lengths),
      )

      data_back :
          (d : Data) (f : ℕ) (rest : Bytes)
          → IsPlain p d
          → 3 * length (encode p d) + 1 < f
          → parse_data_type p f (input (encode p d ++ rest)) ≡ ok d (input rest)
      data_back d zero rest h b = absurd (omega arith)
      data_back (blob blob_string true bytes) (suc f) rest h b =
          rw h.0 (parse_blob-null p long blob_string _ rest)
      data_back (blob chunk true bytes) (suc f) rest h b = absurd (h.1 refl)
      data_back (blob blob_error true bytes) (suc f) rest h b =
          rw h.0 (parse_blob-null p long blob_error _ rest)
      data_back (blob verbatim true bytes) (suc f) rest h b =
          rw h.0 (parse_blob-null p long verbatim _ rest)
      data_back (blob blob_string false bytes) (suc f) rest h b =
          parse_blob-bytes p long blob_string _ bytes rest h.0
      data_back (blob chunk false bytes) (suc f) rest h b =
          parse_chunk-bytes p long bytes rest h.0 (h.1 refl)
      data_back (blob blob_error false bytes) (suc f) rest h b =
          parse_blob-bytes p long blob_error _ bytes rest h.0
      data_back (blob verbatim false bytes) (suc f) rest h b =
          parse_blob-bytes p long verbatim _ bytes rest h.0
      data_back (simple simple_string value) (suc f) rest h b =
          parse_simple-line simple_string value rest h.0
      data_back (simple simple_error value) (suc f) rest h b =
          parse_simple-line simple_error value rest h.0
      data_back (number n) (suc f) rest h b =
          parse_number-print_int p n rest (print_int-IsLine n) h.0
      data_back (double bits) (suc f) rest h b = parse_double-text p bits rest h
      data_back (boolean value) (suc f) rest h b = rw h
      data_back (big_number value) (suc f) rest h b = parse_big_number-line value rest h.0.0 h.1
      data_back end_data (suc f) rest h b = refl
      data_back null_data (suc f) rest h b = refl
      data_back (aggregate array true ts) (suc f) rest h b =
          rw h (parse_array-null p long array _ rest)
      data_back (aggregate set_array true ts) (suc f) rest h b =
          rw h (parse_array-null p long set_array _ rest)
      data_back (aggregate push true ts) (suc f) rest h b =
          rw h (parse_array-null p long push _ rest)
      data_back (aggregate array false ts) (suc f) rest h b = rw (
        parse_array-count p long array (parse_trees p f) (count_trees ts) (encode_trees p ts) rest
            h.0,
        trees_back ts f (count_trees ts) rest h.1 refl (omega lengths),
      )
      data_back (aggregate set_array false ts) (suc f) rest h b = rw (
        parse_array-count p long set_array (parse_trees p f) (count_trees ts) (encode_trees p ts)
            rest h.0,
        trees_back ts f (count_trees ts) rest h.1 refl (omega lengths),
      )
      data_back (aggregate push false ts) (suc f) rest h b = rw (
        parse_array-count p long push (parse_trees p f) (count_trees ts) (encode_trees p ts) rest
            h.0,
        trees_back ts f (count_trees ts) rest h.1 refl (omega lengths),
      )
      data_back (dictionary map_of ps fs) (suc f) rest h b = rw (
        parse_map-count p long map_of (parse_pairs p f) (count_pairs ps + count_fields fs)
            (encode_pairs p ps ++ encode_fields p fs) rest h.0,
        append_assoc (encode_pairs p ps) (encode_fields p fs) rest,
        pairs_back ps f (count_pairs ps + count_fields fs) (count_fields fs)
            (3 * length (encode_fields p fs) + 3) (encode_fields p fs ++ rest) rest (field_pairs fs)
            h.1 refl (omega arith) (λ g. fields_back fs g (count_fields fs) rest h.3 refl)
            (omega lengths),
        settle-append_pairs p ps fs h.1 h.2,
      )
      data_back (dictionary attribute ps fs) (suc f) rest h b = rw (
        parse_map-count p long attribute (parse_pairs p f) (count_pairs ps + count_fields fs)
            (encode_pairs p ps ++ encode_fields p fs) rest h.0,
        append_assoc (encode_pairs p ps) (encode_fields p fs) rest,
        pairs_back ps f (count_pairs ps + count_fields fs) (count_fields fs)
            (3 * length (encode_fields p fs) + 3) (encode_fields p fs ++ rest) rest (field_pairs fs)
            h.1 refl (omega arith) (λ g. fields_back fs g (count_fields fs) rest h.3 refl)
            (omega lengths),
        settle-append_pairs p ps fs h.1 h.2,
      )

      trees_back :
          (ts : Trees) (f n : ℕ) (rest : Bytes)
          → ArePlain p ts
          → n ≡ count_trees ts
          → 3 * length (encode_trees p ts) + 3 < f
          → parse_trees p f false n (input (encode_trees p ts ++ rest)) ≡ ok ts (input rest)
      trees_back ts zero n rest h e b = absurd (omega arith)
      trees_back no_trees (suc f) n rest h e b = rw e
      trees_back (more_trees t ts) (suc f) n rest h e b = rw (
        lt→ltb 0 n (omega arith),
        append_assoc (encode_tree p t) (encode_trees p ts) rest,
        tree_back t f (encode_trees p ts ++ rest) h.0 (omega lengths),
        trees_back ts f (n - 1) rest h.1 (omega arith) (omega (lengths, length-encode_tree_pos t)),
      )

      -- The pairs, if what follows them parses as the pairs `qs`.
      pairs_back :
          (ps : Pairs) (f n m bound : ℕ) (tail rest : Bytes) (qs : Pairs)
          → ArePlainPairs p ps
          → n ≡ count_pairs ps + m
          → 3 ≤ bound
          → ((g : ℕ) → bound < g → parse_pairs p g false m (input tail) ≡ ok qs (input rest))
          → 3 * length (encode_pairs p ps) + bound < f
          → parse_pairs p f false n (input (encode_pairs p ps ++ tail))
            ≡ ok (append_pairs ps qs) (input rest)
      pairs_back ps zero n m bound tail rest qs h e small after b = absurd (omega arith)
      pairs_back no_pairs (suc f) n m bound tail rest qs h e small after b =
          let same : n ≡ m = omega arith in rw same (after (suc f) (omega arith))
      pairs_back (more_pairs k v ps) (suc f) n m bound tail rest qs h e small after b = rw (
        lt→ltb 0 n (omega arith),
        append_assoc (encode_tree p k) (encode_tree p v ++ encode_pairs p ps) tail,
        tree_back k f ((encode_tree p v ++ encode_pairs p ps) ++ tail) h.0 (omega lengths),
        append_assoc (encode_tree p v) (encode_pairs p ps) tail,
        tree_back v f (encode_pairs p ps ++ tail) h.2 (omega lengths),
        pairs_back ps f (n - 1) m bound tail rest qs h.3 (omega arith) small after
            (omega (lengths, length-encode_tree_pos k)),
      )

      fields_back :
          (fs : Fields) (f n : ℕ) (rest : Bytes)
          → ArePlainFields p fs
          → n ≡ count_fields fs
          → 3 * length (encode_fields p fs) + 3 < f
          → parse_pairs p f false n (input (encode_fields p fs ++ rest))
            ≡ ok (field_pairs fs) (input rest)
      fields_back fs zero n rest h e b = absurd (omega arith)
      fields_back no_fields (suc f) n rest h e b = rw e
      fields_back (more_fields k v fs) (suc f) n rest h e b =
          let front =
            length-append_bytes (encode_bytes k) (encode_tree p v ++ encode_fields p fs) in
          rw (
            lt→ltb 0 n (omega arith),
            append_assoc (encode_bytes k) (encode_tree p v ++ encode_fields p fs) rest,
            key_back k f ((encode_tree p v ++ encode_fields p fs) ++ rest) h.0 (omega lengths),
            append_assoc (encode_tree p v) (encode_fields p fs) rest,
            tree_back v f (encode_fields p fs ++ rest) h.1 (omega (lengths, front)),
            fields_back fs f (n - 1) rest h.2 (omega arith)
                (omega (lengths, front, length-encode_tree_pos v)),
          )

    -- With fuel above three times the length of the text and 2, ParseTree reads a plain value that
    -- PrintTree wrote off the front of the stream, gives it back as it was, and leaves what
    -- follows, where `long` has 32 bits at least.
    pub parse_tree-print_tree :
        (t : Tree) (text rest : Bytes) (fuel : ℕ)
        → IsPlainTree p t
        → print_tree p t ≡ some text
        → 3 * length text + 2 < fuel
        → parse_tree p fuel (input (text ++ rest)) ≡ ok t (input rest)
    parse_tree-print_tree t text rest fuel h e b =
        let same : encode_tree p t ≡ text = cc (print_tree-encode_tree p t h) in
        rw (← same) (tree_back t fuel rest h (rw (← same) at b))
