-- ===== src/Protocol/Termination/Methods.antt =====
-- How much of the stream the Parse methods take, given their loops.
use yarc.Protocol.Termination.Steps.{
  Uses, used, refused, stuck, Uses-if, Uses-bind, Takes, read_byte-Takes, read_buffer_now-Takes,
  parse_crlf_terminated_string-Takes, parse_crlf-Takes, parse_count-Takes,
}
use yarc.Base.{
  ℕ, ◌+◌, ◌%◌, ◌≤◌, Bool, ◌&&◌, not, Option, none, some, [], ◌∷◌, Bytes, length, arith, ◌==◌,
  u32_mod,
}
use yarc.DynamicArray.{grow_size}
use yarc.Protocol.Data.{
  BlobKind, SimpleKind, ArrayKind, MapKind, Trees, Pairs, chunk, blob_string, blob_error, verbatim,
}
use yarc.Protocol.Fields.{bytes_eq}
use yarc.Protocol.Reader.{Platform, Input, Parser, ok, hung}
use yarc.Protocol.Parser.{
  Class, blob_class, simple_class, number_class, double_class, boolean_class, big_number_class,
  end_class, null_class, array_class, map_class, null_count, all_digits, set_byte_count,
  parse_byte_array_data, parse_simple, parse_boolean, parse_big_number, parse_number, finish_double,
  parse_double, parse_chunk, append_chunk, parse_blob, parse_array, parse_map, parse_method,
  add_chunk,
}

grown :
    (o : Option ℕ) (s : Input) → Uses (length s.bytes) 0 (elim o [ none ↦ hung | some _ ↦ ok tt s ])
grown none s = stuck
grown (some m) s = used (omega arith)

set_byte_count-Takes : (n : ℕ) → Takes 0 (set_byte_count n)
unfolding set_byte_count
set_byte_count-Takes n s = grown (grow_size 33 1 n) s

pub parse_byte_array_data-Takes : (n : ℕ) → Takes 0 (parse_byte_array_data n)
unfolding parse_byte_array_data
parse_byte_array_data-Takes n s =
    Uses-bind {j = 0} _ (set_byte_count-Takes n s)
      (λ _ t _.
        Uses-bind {j = 0} _ (read_buffer_now-Takes n t)
          (λ _ u _.
            Uses-bind {j = 0} _ (parse_crlf-Takes u) (λ _ v _. used (omega arith)) (omega arith))
          (omega arith))
      (omega arith)

pub parse_simple-Takes : (kind : SimpleKind) → Takes 0 (parse_simple kind)
unfolding parse_simple
parse_simple-Takes kind s =
    Uses-bind {j = 0} _ (parse_crlf_terminated_string-Takes s) (λ _ t _. used (omega arith))
      (omega arith)

pub parse_boolean-Takes : Takes 0 parse_boolean
unfolding parse_boolean
parse_boolean-Takes s =
    Uses-bind {j = 0} _ (read_byte-Takes s)
      (λ _ t _.
        Uses-bind {j = 0} _ (parse_crlf-Takes t) (λ _ u _. used (omega arith)) (omega arith))
      (omega arith)

pub parse_big_number-Takes : Takes 0 parse_big_number
unfolding parse_big_number
parse_big_number-Takes s =
    Uses-bind {j = 0} _ (parse_crlf_terminated_string-Takes s)
      (λ value t _. Uses-if (all_digits value) _ _ t (used (omega arith)) refused) (omega arith)

module _ (p : Platform) where
  pub parse_number-Takes : Takes 0 (parse_number p)
  unfolding parse_number
  parse_number-Takes s =
      Uses-bind {j = 0} _ (parse_crlf_terminated_string-Takes s) (λ _ t _. used (omega arith))
        (omega arith)

  finish_double-Takes : (text : Bytes) → Takes 0 (finish_double p text)
  unfolding finish_double
  finish_double-Takes text s =
      Uses-if (bytes_eq text (b'i' ∷ b'n' ∷ b'f' ∷ [])) _ _ s (used (omega arith)) (
        Uses-if (bytes_eq text (b'-' ∷ b'i' ∷ b'n' ∷ b'f' ∷ [])) _ _ s (used (omega arith))
          (used (omega arith)))

  pub parse_double-Takes : Takes 0 (parse_double p)
  unfolding parse_double
  parse_double-Takes s =
      Uses-bind {j = 0} _ (parse_crlf_terminated_string-Takes s)
        (λ text t _. finish_double-Takes text t) (omega arith)

  pub parse_chunk-Takes : Takes 0 (parse_chunk p)
  unfolding parse_chunk
  parse_chunk-Takes s =
      Uses-bind {j = 0} _ (parse_count-Takes p s)
        (λ c t _. Uses-if c.streamed _ _ t refused (
          Uses-if (c.count == 0) _ _ t (used (omega arith)) (
            Uses-bind {j = 0} _ (parse_byte_array_data-Takes c.count t)
              (λ _ u _. used (omega arith)) (omega arith))))
        (omega arith)

  pub append_chunk-Takes : (bytes piece : Bytes) → Takes 0 (append_chunk p bytes piece)
  unfolding append_chunk
  append_chunk-Takes bytes piece s =
      Uses-bind {j = 0} _ (set_byte_count-Takes ((length bytes + length piece) % u32_mod) s)
        (λ _ t _. used (omega arith)) (omega arith)

  -- `m` behind a first byte of the rest of the stream.
  abbrev pub TakesBelow : {A : Type 0} → Input → Parser A → Type 0
  TakesBelow s m = (t : Input) → length t.bytes + 1 ≤ length s.bytes → Uses (length t.bytes) 0 (m t)

  pub parse_blob-Uses :
      (kind : BlobKind) (chunks : Parser Bytes) (s : Input)
      → TakesBelow s chunks
      → Uses (length s.bytes) 0 (parse_blob p kind chunks s)
  unfolding parse_blob
  parse_blob-Uses kind chunks s loop =
      Uses-bind {j = 0} _ (parse_count-Takes p s)
        (λ c t h. Uses-if (not c.streamed && c.count == null_count) _ _ t (used (omega arith)) (
          Uses-if c.streamed _ _ t
            (Uses-bind {j = 0} _ (loop t h) (λ _ u _. used (omega arith)) (omega arith))
            (Uses-bind {j = 0} _ (parse_byte_array_data-Takes c.count t)
              (λ _ u _. used (omega arith)) (omega arith))))
        (omega arith)

  pub parse_array-Uses :
      (kind : ArrayKind) (elements : Bool → ℕ → Parser Trees) (s : Input)
      → ((streamed : Bool) (n : ℕ) → TakesBelow s (elements streamed n))
      → Uses (length s.bytes) 0 (parse_array p kind elements s)
  unfolding parse_array
  parse_array-Uses kind elements s loop =
      Uses-bind {j = 0} _ (parse_count-Takes p s)
        (λ c t h. Uses-if (not c.streamed && c.count == null_count) _ _ t (used (omega arith)) (
          Uses-bind {j = 0} _ (loop c.streamed c.count t h) (λ _ u _. used (omega arith))
            (omega arith)))
        (omega arith)

  pub parse_map-Uses :
      (kind : MapKind) (pairs : Bool → ℕ → Parser Pairs) (s : Input)
      → ((streamed : Bool) (n : ℕ) → TakesBelow s (pairs streamed n))
      → Uses (length s.bytes) 0 (parse_map p kind pairs s)
  unfolding parse_map
  parse_map-Uses kind pairs s loop =
      Uses-bind {j = 0} _ (parse_count-Takes p s)
        (λ c t h.
          Uses-bind {j = 0} _ (loop c.streamed c.count t h) (λ _ u _. used (omega arith))
            (omega arith))
        (omega arith)

  pub parse_method-Uses :
      (chunks : Parser Bytes) (elements : Bool → ℕ → Parser Trees) (pairs : Bool → ℕ → Parser Pairs)
      (class : Option Class) (s : Input)
      → TakesBelow s chunks
      → ((streamed : Bool) (n : ℕ) → TakesBelow s (elements streamed n))
      → ((streamed : Bool) (n : ℕ) → TakesBelow s (pairs streamed n))
      → Uses (length s.bytes) 0 (parse_method p chunks elements pairs class s)
  unfolding parse_method
  parse_method-Uses chunks elements pairs none s c e m = refused
  parse_method-Uses chunks elements pairs (some (blob_class blob_string)) s c e m =
      parse_blob-Uses blob_string chunks s c
  parse_method-Uses chunks elements pairs (some (blob_class chunk)) s c e m = parse_chunk-Takes s
  parse_method-Uses chunks elements pairs (some (blob_class blob_error)) s c e m =
      parse_blob-Uses blob_error chunks s c
  parse_method-Uses chunks elements pairs (some (blob_class verbatim)) s c e m =
      parse_blob-Uses verbatim chunks s c
  parse_method-Uses chunks elements pairs (some (simple_class kind)) s c e m =
      parse_simple-Takes kind s
  parse_method-Uses chunks elements pairs (some number_class) s c e m = parse_number-Takes s
  parse_method-Uses chunks elements pairs (some double_class) s c e m = parse_double-Takes s
  parse_method-Uses chunks elements pairs (some boolean_class) s c e m = parse_boolean-Takes s
  parse_method-Uses chunks elements pairs (some big_number_class) s c e m = parse_big_number-Takes s
  parse_method-Uses chunks elements pairs (some end_class) s c e m =
      Uses-bind {j = 0} _ (parse_crlf-Takes s) (λ _ t _. used (omega arith)) (omega arith)
  parse_method-Uses chunks elements pairs (some null_class) s c e m =
      Uses-bind {j = 0} _ (parse_crlf-Takes s) (λ _ t _. used (omega arith)) (omega arith)
  parse_method-Uses chunks elements pairs (some (array_class kind)) s c e m =
      parse_array-Uses kind elements s e
  parse_method-Uses chunks elements pairs (some (map_class kind)) s c e m =
      parse_map-Uses kind pairs s m

  pub add_chunk-Uses :
      (more : Bytes → Parser Bytes) (bytes : Bytes) (o : Option Bytes) (s : Input)
      → ((bytes' : Bytes) (t : Input)
          → length t.bytes ≤ length s.bytes
          → Uses (length t.bytes) 0 (more bytes' t))
      → Uses (length s.bytes) 0 (add_chunk p more bytes o s)
  unfolding add_chunk
  add_chunk-Uses more bytes none s loop = refused
  add_chunk-Uses more bytes (some piece) s loop =
      Uses-if (length piece == 0) _ _ s (used (omega arith)) (
        Uses-bind {j = 0} _ (append_chunk-Takes bytes piece s)
          (λ bytes' t h. loop bytes' t (omega arith)) (omega arith))
