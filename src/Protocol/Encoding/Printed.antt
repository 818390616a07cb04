-- ===== src/Protocol/Encoding/Printed.antt =====
-- What PrintTree writes is the encoding.
use mathlib.Core.Path.{ap₂}
use yarc.Base.{
  ℕ, suc, ◌+◌, ◌<◌, ◌≡◌, refl, sym, ap, inl, inr, true, false, some, [], ◌∷◌, ◌++◌, Bytes, ◌==◌,
  length, arith, length-append, append_assoc, drop, Bool-cases, pos, negsuc, ℤ, IsInt64,
}
use yarc.Protocol.Data.{
  Tree, Data, Trees, Pairs, Fields, bare, attributed, blob, simple, number, double, boolean,
  big_number, end_data, null_data, aggregate, dictionary, no_trees, more_trees, no_pairs,
  more_pairs, no_fields, more_fields, discriminant,
}
use yarc.Protocol.Number.{print_int, print_count, decimal}
use yarc.Protocol.Number.Decimal.{length-decimal, print_count-decimal}
use yarc.Protocol.Reader.{Platform}
use yarc.Protocol.Reader.Counts.{IsLine}
use yarc.Protocol.Parser.{c_str, dbl_max, dbl_min}
use yarc.Protocol.Printer.{
  crlf, write_format, count_trees, count_pairs, count_fields, print_blob, print_string,
  print_double, print_tree, print, print_trees, print_pairs, print_fields,
}
use yarc.Protocol.Encoding.{
  encode_bytes, double_text, encode_tree, encode, encode_trees, encode_pairs, encode_fields,
  size_limit, IsShortLine, IsPlainTree, IsPlain, ArePlain, ArePlainPairs, ArePlainFields,
}

write_format-short : (text : Bytes) → length text < 1024 → write_format text ≡ some text
unfolding write_format
write_format-short text h = ground arith

-- A text and CR LF.
write_format-line :
    (text : Bytes) → length text < 1022 → write_format (text ++ crlf) ≡ some (text ++ crlf)
write_format-line text h =
    write_format-short (text ++ crlf) (omega (arith, length-append text crlf))

pub c_str-line : (line : Bytes) → IsLine line → c_str line ≡ line
unfolding c_str
c_str-line [] h = refl
c_str-line (b ∷ bs) h = rw (h.0.1, c_str-line bs h.1)

print_string-line : (line : Bytes) → IsShortLine line → print_string line ≡ some (line ++ crlf)
unfolding print_string
print_string-line line h = rw (c_str-line line h.0, print_string) (write_format-line line h.1)

write_format-number : (n : ℕ) → n < size_limit → write_format (print_count n) ≡ some (decimal n)
write_format-number n h =
    rw (print_count-decimal n h)
      (write_format-short (decimal n) (omega (arith, length-decimal n (omega arith))))

write_format-count :
    (n : ℕ) → n < size_limit → write_format (print_count n ++ crlf) ≡ some (decimal n ++ crlf)
write_format-count n h =
    rw (print_count-decimal n h)
      (write_format-line (decimal n) (omega (arith, length-decimal n (omega arith))))

print_blob-bytes :
    (bytes : Bytes) → length bytes < size_limit → print_blob false bytes ≡ some (encode_bytes bytes)
unfolding print_blob encode_bytes
print_blob-bytes bytes h =
    rw (write_format-count (length bytes) h, print_blob)
      (ap some (append_assoc (decimal (length bytes)) crlf (bytes ++ crlf)))

length-print_int : (z : ℤ) → IsInt64 z → length (print_int z) < 1022
unfolding print_int
length-print_int (pos n) h = omega (arith, length-decimal n (omega arith))
length-print_int (negsuc n) h = omega (arith, length-decimal (suc n) (omega arith))

module _ (p : Platform) where
  print_double-line :
      (bits : ℕ)
      → IsShortLine (double_text p bits)
      → print_double p bits ≡ some (double_text p bits ++ crlf)
  unfolding print_double double_text
  print_double-line bits h = elim (Bool-cases (bits == dbl_max)) [
    | inl e ↦ rw e
    | inr e ↦ elim (Bool-cases (bits == dbl_min)) [
      | inl m ↦ rw (e, m)
      | inr m ↦ rw (e, m) (write_format-line (p.format_f bits) (rw (e, m) at h.1))
    ]
  ]

  abbrev Writes : Data → Type 0
  Writes d = print p d ≡ some (drop 1 (encode p d))

  -- The bytes of a value behind its discriminant.
  pub encode-cons : (d : Data) → encode p d ≡ discriminant d ∷ drop 1 (encode p d)
  unfolding encode discriminant
  encode-cons (blob kind true bytes) = refl
  encode-cons (blob kind false bytes) = refl
  encode-cons (aggregate kind true ts) = refl
  encode-cons (aggregate kind false ts) = refl
  encode-cons _ = refl

  mutual
    unfolding print_tree encode_tree IsPlainTree

    print_tree-plain : (t : Tree) → IsPlainTree p t → print_tree p t ≡ some (encode_tree p t)
    print_tree-plain (bare d) h = rw (print-plain d h.0) (ap some (sym (encode-cons d)))
    print_tree-plain (attributed a d) h =
        rw (print-plain a h.0, print-plain d h.2)
          (ap some (sym (ap₂ ◌++◌ (encode-cons a) (encode-cons d))))

    print-plain : (d : Data) → IsPlain p d → Writes d
    print-plain (blob kind true bytes) h = write_format-short _ (omega arith)
    print-plain (blob kind false bytes) h = print_blob-bytes bytes h.0
    print-plain (simple kind value) h = print_string-line value h
    print-plain (number n) h = write_format-line (print_int n) (length-print_int n h.1)
    print-plain (double bits) h = print_double-line bits h.0
    print-plain (boolean value) h = refl
    print-plain (big_number value) h = print_string-line value h.0
    print-plain end_data h = write_format-short _ (omega arith)
    print-plain null_data h = write_format-short _ (omega arith)
    print-plain (aggregate kind true ts) h = write_format-short _ (omega arith)
    print-plain (aggregate kind false ts) h =
        rw (write_format-number (count_trees ts) h.0, print_trees-plain ts h.1)
    print-plain (dictionary kind ps fs) h =
        rw
          (
            write_format-count (count_pairs ps + count_fields fs) h.0,
            print_pairs-plain ps h.1,
            print_fields-plain fs h.3,
          )
          (ap some (append_assoc (decimal (count_pairs ps + count_fields fs)) crlf _))

    print_trees-plain : (ts : Trees) → ArePlain p ts → print_trees p ts ≡ some (encode_trees p ts)
    print_trees-plain no_trees h = refl
    print_trees-plain (more_trees t ts) h = rw (print_tree-plain t h.0, print_trees-plain ts h.1)

    print_pairs-plain :
        (ps : Pairs) → ArePlainPairs p ps → print_pairs p ps ≡ some (encode_pairs p ps)
    print_pairs-plain no_pairs h = refl
    print_pairs-plain (more_pairs k v ps) h =
        rw (print_tree-plain k h.0, print_tree-plain v h.2, print_pairs-plain ps h.3)

    print_fields-plain :
        (fs : Fields) → ArePlainFields p fs → print_fields p fs ≡ some (encode_fields p fs)
    print_fields-plain no_fields h = refl
    print_fields-plain (more_fields k v fs) h =
        rw (print_blob-bytes k h.0, print_tree-plain v h.1, print_fields-plain fs h.2)

  -- PrintTree writes the encoding of a plain value.
  pub print_tree-encode_tree :
      (t : Tree) → IsPlainTree p t → print_tree p t ≡ some (encode_tree p t)
  print_tree-encode_tree t h = print_tree-plain t h
