-- ===== src/Protocol/Printer.antt =====
-- PrintTree, PrintDataType and the Print method of each class, on a stream that takes every byte, as
-- StringStream does. `none` is a text that does not fit the 1024 bytes of WriteFormat.
use yarc.Base.{
  ℕ, suc, ◌+◌, Bool, true, false, Option, none, some, [], ◌∷◌, ◌++◌, Bytes, ltb, ◌==◌,
  if◌then◌else◌, length,
}
use yarc.Protocol.Data.{
  Tree, Data, Trees, Pairs, Fields, bare, attributed, blob, simple, number, double, blob_string,
  boolean, big_number, end_data, null_data, aggregate, dictionary, no_trees, more_trees, no_pairs,
  more_pairs, no_fields, more_fields, discriminant,
}
use yarc.Protocol.Number.{print_int, print_count}
use yarc.Protocol.Reader.{Platform}
use yarc.Protocol.Parser.{dbl_max, dbl_min, c_str}

abbrev pub crlf : Bytes
crlf = b'\r' ∷ b'\n' ∷ []

-- The bytes written one after another, unless a format overflows.
infixr 5 ◌then_write◌
abbrev pub ◌then_write◌ : Option Bytes → Option Bytes → Option Bytes
none then_write n = none
some bytes then_write none = none
some bytes then_write some more = some (bytes ++ more)

-- WriteFormat of a text, with its terminator in a buffer of 1024 bytes
unfoldable pub write_format : Bytes → Option Bytes
write_format text = if ltb (length text) 1024 then some text else none

unfoldable pub count_trees : Trees → ℕ
count_trees no_trees = 0
count_trees (more_trees t ts) = suc (count_trees ts)

unfoldable pub count_pairs : Pairs → ℕ
count_pairs no_pairs = 0
count_pairs (more_pairs k v ps) = suc (count_pairs ps)

unfoldable pub count_fields : Fields → ℕ
count_fields no_fields = 0
count_fields (more_fields k v fs) = suc (count_fields fs)

-- BlobStringData::Print
unfoldable pub print_blob : Bool → Bytes → Option Bytes
unfolding write_format print_count
print_blob true bytes = write_format (b'-' ∷ b'1' ∷ crlf)
print_blob false bytes =
    write_format (print_count (length bytes) ++ crlf)
    then_write some bytes
    then_write write_format crlf

-- The text of a boolean and of the classes that print one string.
unfoldable pub print_boolean : Bool → Option Bytes
unfolding write_format
print_boolean value = write_format ((if value then b't' else b'f') ∷ crlf)

unfoldable pub print_string : Bytes → Option Bytes
unfolding write_format c_str
print_string value = write_format (c_str value ++ crlf)

module _ (p : Platform) where
  unfoldable pub print_double : ℕ → Option Bytes
  unfolding write_format
  print_double bits =
      if bits == dbl_max
      then write_format (b'i' ∷ b'n' ∷ b'f' ∷ crlf)
      else if bits == dbl_min
      then write_format (b'-' ∷ b'i' ∷ b'n' ∷ b'f' ∷ crlf)
      else write_format (p.format_f bits ++ crlf)

  unfoldable mutual
    unfolding discriminant print_blob print_boolean print_string print_double print_int print_count
        write_format count_trees count_pairs count_fields

    pub print_tree : Tree → Option Bytes
    print_tree (bare d) = some (discriminant d ∷ []) then_write print d
    print_tree (attributed a d) =
        some (discriminant a ∷ [])
        then_write print a
        then_write some (discriminant d ∷ [])
        then_write print d

    -- The Print methods.
    pub print : Data → Option Bytes
    print (blob kind null bytes) = print_blob null bytes
    print (simple kind value) = print_string value
    print (number n) = write_format (print_int n ++ crlf)
    print (double bits) = print_double bits
    print (boolean value) = print_boolean value
    print (big_number value) = print_string value
    print end_data = write_format crlf
    print null_data = write_format crlf
    print (aggregate kind true ts) = write_format (b'-' ∷ b'1' ∷ crlf)
    print (aggregate kind false ts) =
        write_format (print_count (count_trees ts))
        then_write write_format crlf
        then_write print_trees ts
    print (dictionary kind ps fs) =
        write_format (print_count (count_pairs ps + count_fields fs) ++ crlf)
        then_write print_pairs ps
        then_write print_fields fs

    pub print_trees : Trees → Option Bytes
    print_trees no_trees = some []
    print_trees (more_trees t ts) = print_tree t then_write print_trees ts

    pub print_pairs : Pairs → Option Bytes
    print_pairs no_pairs = some []
    print_pairs (more_pairs k v ps) = print_tree k then_write print_tree v then_write print_pairs ps

    pub print_fields : Fields → Option Bytes
    print_fields no_fields = some []
    print_fields (more_fields k v fs) =
        (some (discriminant (blob blob_string false k) ∷ []) then_write print_blob false k)
        then_write print_tree v
        then_write print_fields fs
