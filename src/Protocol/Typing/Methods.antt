-- ===== src/Protocol/Typing/Methods.antt =====
-- What each Parse method gives, given its loops: a shaped value of the class that the first byte
-- names.
use yarc.Base.{ℕ, Bool, true, false, ◌≡◌, refl, ◌&&◌, not, some, [], ◌∷◌, Bytes, ◌==◌}
use yarc.Protocol.Data.{
  BlobKind, SimpleKind, ArrayKind, MapKind, Data, Trees, Pairs, blob_string, chunk, blob_error,
  verbatim, simple_string, simple_error, array, set_array, push, map_of, attribute, no_fields,
  aggregate, dictionary, simple, blob, Fields, no_trees, number, double, discriminant,
}
use yarc.Protocol.Number.{strtol}
use yarc.Protocol.Fields.{bytes_eq}
use yarc.Protocol.Fields.Order.{settle-IsSorted}
use yarc.Protocol.Reader.{
  Platform, Input, Parser, parse_crlf, parse_crlf_terminated_string, read_byte, parse_count,
}
use yarc.Protocol.Parser.{
  Class, blob_class, simple_class, number_class, double_class, boolean_class, big_number_class,
  end_class, null_class, array_class, map_class, null_count, all_digits, parse_byte_array_data,
  parse_simple, parse_boolean, parse_big_number, parse_number, finish_double, parse_double,
  parse_chunk, c_str, parse_blob, parse_array, parse_map, parse_method,
}
use yarc.Protocol.Typing.Runs.{Post, given, refused, Post-if, Post-bind, Post-then}
use yarc.Protocol.Typing.Shapes.{IsShapedData, AllShaped, ShapedPairs, IsShaped, settle-Shaped}
use yarc.Protocol.Typing.Classes.{class_byte}

-- A shaped value of a class.
abbrev pub Gives : Class → Data → Type 0
Gives c d = IsShapedData d × (discriminant d ≡ class_byte c)

simple_byte :
    (kind : SimpleKind) (value : Bytes)
    → discriminant (simple kind value) ≡ class_byte (simple_class kind)
unfolding discriminant class_byte
simple_byte simple_string value = refl
simple_byte simple_error value = refl

blob_byte :
    (kind : BlobKind) (null : Bool) (bytes : Bytes)
    → discriminant (blob kind null bytes) ≡ class_byte (blob_class kind)
unfolding discriminant class_byte
blob_byte blob_string null bytes = refl
blob_byte chunk null bytes = refl
blob_byte blob_error null bytes = refl
blob_byte verbatim null bytes = refl

array_byte :
    (kind : ArrayKind) (null : Bool) (ts : Trees)
    → discriminant (aggregate kind null ts) ≡ class_byte (array_class kind)
unfolding discriminant class_byte
array_byte array null ts = refl
array_byte set_array null ts = refl
array_byte push null ts = refl

map_byte :
    (kind : MapKind) (ps : Pairs) (fs : Fields)
    → discriminant (dictionary kind ps fs) ≡ class_byte (map_class kind)
unfolding discriminant class_byte
map_byte map_of ps fs = refl
map_byte attribute ps fs = refl

parse_simple-Gives :
    (kind : SimpleKind) (s : Input) → Post (Gives (simple_class kind)) (parse_simple kind s)
unfolding parse_simple IsShaped
parse_simple-Gives kind s =
    Post-then (parse_crlf_terminated_string s) _ (λ value t. given (tt, simple_byte kind value))

parse_boolean-Gives : (s : Input) → Post (Gives boolean_class) (parse_boolean s)
unfolding parse_boolean IsShaped discriminant class_byte
parse_boolean-Gives s =
    Post-then (read_byte s) _ (λ byte t. Post-then (parse_crlf t) _ (λ u v. given (tt, refl)))

parse_big_number-Gives : (s : Input) → Post (Gives big_number_class) (parse_big_number s)
unfolding parse_big_number IsShaped discriminant class_byte
parse_big_number-Gives s = Post-then (parse_crlf_terminated_string s) _ (λ value t.
    Post-if (all_digits value) _ _ t (λ digits. given (digits, refl)) (λ other. refused))

module _ (p : Platform) where
  parse_number-Gives : (s : Input) → Post (Gives number_class) (parse_number p s)
  unfolding parse_number IsShaped discriminant class_byte
  parse_number-Gives s =
      Post-then (parse_crlf_terminated_string s) _
        (λ text t. given {a = number (strtol p.long_limit text).0} (tt, refl))

  finish_double-Gives :
      (text : Bytes) (s : Input) → Post (Gives double_class) (finish_double p text s)
  unfolding finish_double IsShaped discriminant class_byte
  finish_double-Gives text s =
      Post-if (bytes_eq text (b'i' ∷ b'n' ∷ b'f' ∷ [])) _ _ s (λ e. given (tt, refl))
        (λ e.
          Post-if (bytes_eq text (b'-' ∷ b'i' ∷ b'n' ∷ b'f' ∷ [])) _ _ s (λ f. given (tt, refl))
            (λ f. given {a = double (p.strtod (c_str text)).0} (tt, refl)))

  parse_double-Gives : (s : Input) → Post (Gives double_class) (parse_double p s)
  unfolding parse_double
  parse_double-Gives s =
      Post-then (parse_crlf_terminated_string s) _ (λ text t. finish_double-Gives text t)

  parse_chunk-Gives : (s : Input) → Post (Gives (blob_class chunk)) (parse_chunk p s)
  unfolding parse_chunk IsShaped
  parse_chunk-Gives s = Post-then (parse_count p s) _ (λ c t.
      Post-if c.streamed _ _ t (λ e. refused)
        (λ e.
          Post-if (c.count == 0) _ _ t (λ f. given (tt, blob_byte chunk false []))
            (λ f.
              Post-then (parse_byte_array_data c.count t) _
                (λ bytes u. given (tt, blob_byte chunk false bytes)))))

  parse_blob-Gives :
      (kind : BlobKind) (chunks : Parser Bytes) (s : Input)
      → Post (Gives (blob_class kind)) (parse_blob p kind chunks s)
  unfolding parse_blob IsShaped
  parse_blob-Gives kind chunks s = Post-then (parse_count p s) _ (λ c t.
      Post-if (not c.streamed && c.count == null_count) _ _ t
        (λ e. given (refl, blob_byte kind true []))
        (λ e.
          Post-if c.streamed _ _ t
            (λ f. Post-then (chunks t) _ (λ bytes u. given (tt, blob_byte kind false bytes)))
            (λ f.
              Post-then (parse_byte_array_data c.count t) _
                (λ bytes u. given (tt, blob_byte kind false bytes)))))

  parse_array-Gives :
      (kind : ArrayKind) (elements : Bool → ℕ → Parser Trees) (s : Input)
      → ((streamed : Bool) (n : ℕ) (t : Input) → Post AllShaped (elements streamed n t))
      → Post (Gives (array_class kind)) (parse_array p kind elements s)
  unfolding parse_array IsShaped
  parse_array-Gives kind elements s shaped = Post-then (parse_count p s) _ (λ c t.
      Post-if (not c.streamed && c.count == null_count) _ _ t
        (λ e. given (refl, array_byte kind true no_trees))
        (λ e.
          Post-bind _ (shaped c.streamed c.count t)
            (λ ts u h. given (h, array_byte kind false ts))))

  parse_map-Gives :
      (kind : MapKind) (pairs : Bool → ℕ → Parser Pairs) (s : Input)
      → ((streamed : Bool) (n : ℕ) (t : Input) → Post ShapedPairs (pairs streamed n t))
      → Post (Gives (map_class kind)) (parse_map p kind pairs s)
  unfolding parse_map IsShaped
  parse_map-Gives kind pairs s shaped = Post-then (parse_count p s) _ (λ c t.
      Post-bind _ (shaped c.streamed c.count t) (λ ps u h.
        let (rest, keyless, fields) = settle-Shaped ps no_fields h tt in
        given ((rest, keyless, settle-IsSorted ps no_fields tt, fields), map_byte kind _ _)))

  -- The Parse method of a class.
  pub parse_method-Gives :
      (chunks : Parser Bytes) (elements : Bool → ℕ → Parser Trees) (pairs : Bool → ℕ → Parser Pairs)
      (c : Class) (s : Input)
      → ((streamed : Bool) (n : ℕ) (t : Input) → Post AllShaped (elements streamed n t))
      → ((streamed : Bool) (n : ℕ) (t : Input) → Post ShapedPairs (pairs streamed n t))
      → Post (Gives c) (parse_method p chunks elements pairs (some c) s)
  unfolding parse_method IsShaped discriminant class_byte
  parse_method-Gives chunks elements pairs (blob_class chunk) s ht hp = parse_chunk-Gives s
  parse_method-Gives chunks elements pairs (blob_class blob_string) s ht hp =
      parse_blob-Gives blob_string chunks s
  parse_method-Gives chunks elements pairs (blob_class blob_error) s ht hp =
      parse_blob-Gives blob_error chunks s
  parse_method-Gives chunks elements pairs (blob_class verbatim) s ht hp =
      parse_blob-Gives verbatim chunks s
  parse_method-Gives chunks elements pairs (simple_class kind) s ht hp = parse_simple-Gives kind s
  parse_method-Gives chunks elements pairs number_class s ht hp = parse_number-Gives s
  parse_method-Gives chunks elements pairs double_class s ht hp = parse_double-Gives s
  parse_method-Gives chunks elements pairs boolean_class s ht hp = parse_boolean-Gives s
  parse_method-Gives chunks elements pairs big_number_class s ht hp = parse_big_number-Gives s
  parse_method-Gives chunks elements pairs end_class s ht hp =
      Post-then (parse_crlf s) _ (λ u t. given (tt, refl))
  parse_method-Gives chunks elements pairs null_class s ht hp =
      Post-then (parse_crlf s) _ (λ u t. given (tt, refl))
  parse_method-Gives chunks elements pairs (array_class kind) s ht hp =
      parse_array-Gives kind elements s ht
  parse_method-Gives chunks elements pairs (map_class kind) s ht hp =
      parse_map-Gives kind pairs s hp
