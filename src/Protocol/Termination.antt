-- ===== src/Protocol/Termination.antt =====
-- The fuel of the parser: how much is enough for every input.
mod Steps
mod Methods
use native.Mathlib.Nat.{le_refl}
use Steps.{
  Uses, used, refused, Uses-mono, Uses-out_of_fuel, Uses-if, Uses-cond, Uses-bind, read_byte-Takes,
  parse_crlf-Takes,
}
use Methods.{
  parse_simple-Takes, parse_boolean-Takes, parse_big_number-Takes, parse_number-Takes,
  parse_double-Takes, parse_chunk-Takes, append_chunk-Takes, parse_blob-Uses, parse_array-Uses,
  parse_map-Uses, parse_method-Uses, add_chunk-Uses,
}
use yarc.Base.{
  ℕ, zero, suc, ◌+◌, ◌-◌, ◌*◌, ◌≤◌, ◌<◌, ◌≢◌, Bool, ◌&&◌, ◌||◌, Option, none, some, [], Bytes,
  length, arith, ◌==◌, ltb, if◌then◌else◌,
}
use yarc.Protocol.Data.{chunk, blob_string, blob_error, verbatim, payload, Data}
use yarc.Protocol.Reader.{Platform, Input, Result, Parser, out_of_fuel}
use yarc.Protocol.Parser.{
  Class, blob_class, simple_class, number_class, double_class, boolean_class, big_number_class,
  end_class, null_class, array_class, map_class, class_of, as_chunk, is_end, is_attribute,
  parse_tree, parse_data_type, parse_trees, parse_pairs, parse_chunks,
}

module _ (p : Platform) where
  mutual
    unfolding parse_tree

    tree-Uses :
        (f : ℕ) (s : Input)
        → 3 * length s.bytes + 2 < f
        → Uses (length s.bytes) 1 (parse_tree p f s)
    tree-Uses zero s b = absurd (omega arith)
    tree-Uses (suc f) s b =
        Uses-bind {j = 0} _ (data-Uses f s (omega arith))
          (λ d t h.
            Uses-if (is_attribute d) _ _ t
              (Uses-bind {j = 0} _ (data-Uses f t (omega arith)) (λ _ u _. used (omega arith))
                (omega arith))
              (used (omega arith)))
          (le_refl 1)

    data-Uses :
        (f : ℕ) (s : Input)
        → 3 * length s.bytes + 1 < f
        → Uses (length s.bytes) 1 (parse_data_type p f s)
    data-Uses zero s b = absurd (omega arith)
    data-Uses (suc f) s b =
        Uses-bind {j = 0} _ (read_byte-Takes s)
          (λ byte t h.
            parse_method-Uses p _ _ _ (class_of byte) t (λ u k. chunks-Uses f [] u (omega arith))
              (λ streamed n u k. trees-Uses f streamed n u (omega arith))
              (λ streamed n u k. pairs-Uses f streamed n u (omega arith)))
          (le_refl 1)

    trees-Uses :
        (f : ℕ) (streamed : Bool) (n : ℕ) (s : Input)
        → 3 * length s.bytes + 3 < f
        → Uses (length s.bytes) 0 (parse_trees p f streamed n s)
    trees-Uses zero streamed n s b = absurd (omega arith)
    trees-Uses (suc f) streamed n s b =
        Uses-cond (streamed || ltb 0 n) _ _
          (Uses-bind {j = 0} _ (tree-Uses f s (omega arith))
            (λ t u h. Uses-if (streamed && is_end (payload t)) _ _ u (used (omega arith)) (
              Uses-bind {j = 0} _
                (trees-Uses f streamed (if streamed then n else n - 1) u (omega arith))
                (λ _ v _. used (omega arith)) (omega arith)))
            (omega arith))
          (used (omega arith))

    pairs-Uses :
        (f : ℕ) (streamed : Bool) (n : ℕ) (s : Input)
        → 3 * length s.bytes + 3 < f
        → Uses (length s.bytes) 0 (parse_pairs p f streamed n s)
    pairs-Uses zero streamed n s b = absurd (omega arith)
    pairs-Uses (suc f) streamed n s b =
        Uses-cond (streamed || ltb 0 n) _ _
          (Uses-bind {j = 0} _ (tree-Uses f s (omega arith))
            (λ t u h. Uses-if (streamed && is_end (payload t)) _ _ u (used (omega arith)) (
              Uses-bind {j = 0} _ (tree-Uses f u (omega arith))
                (λ _ v k.
                  Uses-bind {j = 0} _
                    (pairs-Uses f streamed (if streamed then n else n - 1) v (omega arith))
                    (λ _ w _. used (omega arith)) (omega arith))
                (omega arith)))
            (omega arith))
          (used (omega arith))

    chunks-Uses :
        (f : ℕ) (bytes : Bytes) (s : Input)
        → 3 * length s.bytes + 3 < f
        → Uses (length s.bytes) 0 (parse_chunks p f bytes s)
    chunks-Uses zero bytes s b = absurd (omega arith)
    chunks-Uses (suc f) bytes s b =
        Uses-bind {j = 0} _ (data-Uses f s (omega arith))
          (λ d t h.
            add_chunk-Uses p _ bytes (as_chunk d) t
              (λ bytes' u k. chunks-Uses f bytes' u (omega arith)))
          (omega arith)

  -- With fuel above three times the length of the input and 2, the model of ParseTree never runs
  -- out of it: it fails, succeeds, or meets a count for which the loop of the source never ends.
  pub parse_tree-ne-out_of_fuel :
      (fuel : ℕ) (s : Input) → 3 * length s.bytes + 2 < fuel → parse_tree p fuel s ≢ out_of_fuel
  parse_tree-ne-out_of_fuel fuel s b = Uses-out_of_fuel (tree-Uses fuel s b)
