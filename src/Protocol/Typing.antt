-- ===== src/Protocol/Typing.antt =====
-- The shape of what the parser gives.
pub mod Runs
pub mod Shapes
pub mod Classes
pub mod Methods
use Runs.{Post, given, refused, stuck, starved, Post-ok, Post-if, Post-cond, Post-bind, Post-then}
use Shapes.{IsShaped, IsShapedData, AllShaped, ShapedPairs}
use Classes.{class_byte, Announced, class_of-Announced}
use Methods.{Gives, parse_method-Gives}
use std.Path.{subst}
use yarc.Base.{
  ℕ, zero, suc, ◌+◌, ◌-◌, ◌≡◌, refl, ap, sym, ◌∙◌, Bool, ◌&&◌, ◌||◌, Option, none, some, [], ◌∷◌,
  Bytes, ltb, if◌then◌else◌, arith,
}
use yarc.Protocol.Data.{Tree, Data, Trees, Pairs, bare, attributed, discriminant, payload}
use yarc.Protocol.Reader.{Platform, Input, Result, Parser, ok, read_byte}
use yarc.Protocol.Parser.{
  Class, class_of, is_end, is_attribute, parse_method, parse_tree, parse_data_type, parse_trees,
  parse_pairs, parse_chunks,
}

abbrev pub first_byte : Bytes → Option ℕ
first_byte [] = none
first_byte (b ∷ bs) = some b

-- A shaped value whose class the byte names.
abbrev Opens : Option ℕ → Data → Type 0
Opens byte d = IsShapedData d × (byte ≡ some (discriminant d))

first_read :
    (bs : Bytes) (e : Bool)
    → Post (λ byte. first_byte bs ≡ some byte) (read_byte (record { bytes = bs; errno = e }))
unfolding read_byte
first_read [] e = refused
first_read (b ∷ bs) e = given refl

read_byte-first : (s : Input) → Post (λ byte. first_byte s.bytes ≡ some byte) (read_byte s)
read_byte-first s = first_read s.bytes s.errno

Gives-Opens :
    (byte : ℕ) (c : Class) (r : Result Data)
    → class_byte c ≡ byte
    → Post (Gives c) r
    → Post (Opens (some byte)) r
Gives-Opens byte c _ e (given h) = given (h.0, ap some (sym (h.1 ∙ e)))
Gives-Opens byte c _ e refused = refused
Gives-Opens byte c _ e stuck = stuck
Gives-Opens byte c _ e starved = starved

-- The class of the byte, where it has one.
method-Opens :
    (p : Platform) (byte : ℕ) (c : Option Class) (chunks : Parser Bytes)
    (elements : Bool → ℕ → Parser Trees) (pairs : Bool → ℕ → Parser Pairs) (s : Input)
    → Announced byte c
    → ((streamed : Bool) (n : ℕ) (t : Input) → Post AllShaped (elements streamed n t))
    → ((streamed : Bool) (n : ℕ) (t : Input) → Post ShapedPairs (pairs streamed n t))
    → Post (Opens (some byte)) (parse_method p chunks elements pairs c s)
unfolding parse_method
method-Opens p byte none chunks elements pairs s e ht hp = refused
method-Opens p byte (some c) chunks elements pairs s e ht hp =
    Gives-Opens byte c _ e (parse_method-Gives p chunks elements pairs c s ht hp)

-- The value in front: the attribute where there is one.
abbrev pub front : Tree → Data
front (bare d) = d
front (attributed a d) = a

abbrev Reads : Option ℕ → Tree → Type 0
Reads byte t = IsShaped t × (byte ≡ some (discriminant (front t)))

module _ (p : Platform) where
  mutual
    unfolding parse_tree IsShaped

    tree-Reads : (f : ℕ) (s : Input) → Post (Reads (first_byte s.bytes)) (parse_tree p f s)
    tree-Reads zero s = starved
    tree-Reads (suc f) s = Post-bind _ (data-Opens f s) (λ d t h.
        Post-if (is_attribute d) _ _ t
          (λ e. Post-bind _ (data-Opens f t) (λ d' u k. given ((e, h.0, k.0), h.1)))
          (λ e. given ((e, h.0), h.1)))

    data-Opens : (f : ℕ) (s : Input) → Post (Opens (first_byte s.bytes)) (parse_data_type p f s)
    data-Opens zero s = starved
    data-Opens (suc f) s = Post-bind _ (read_byte-first s) (λ byte t h. rw h (
        method-Opens p byte (class_of byte) (parse_chunks p f []) (parse_trees p f)
          (parse_pairs p f) t (class_of-Announced byte)
          (λ streamed n u. trees-AllShaped f streamed n u)
          (λ streamed n u. pairs-Shaped f streamed n u)))

    trees-AllShaped :
        (f : ℕ) (streamed : Bool) (n : ℕ) (s : Input)
        → Post AllShaped (parse_trees p f streamed n s)
    trees-AllShaped zero streamed n s = starved
    trees-AllShaped (suc f) streamed n s =
        Post-cond (streamed || ltb 0 n) _ _
          (Post-bind _ (tree-Reads f s) (λ t u h.
            Post-if (streamed && is_end (payload t)) _ _ u (λ e. given tt)
              (λ e.
                Post-bind _ (trees-AllShaped f streamed (if streamed then n else n - 1) u)
                  (λ ts v k. given (h.0, k)))))
          (given tt)

    pairs-Shaped :
        (f : ℕ) (streamed : Bool) (n : ℕ) (s : Input)
        → Post ShapedPairs (parse_pairs p f streamed n s)
    pairs-Shaped zero streamed n s = starved
    pairs-Shaped (suc f) streamed n s =
        Post-cond (streamed || ltb 0 n) _ _
          (Post-bind _ (tree-Reads f s) (λ t u h.
            Post-if (streamed && is_end (payload t)) _ _ u (λ e. given tt)
              (λ e. Post-bind _ (tree-Reads f u) (λ t' v h'.
                Post-bind _ (pairs-Shaped f streamed (if streamed then n else n - 1) v)
                  (λ ps w k. given (h.0, h'.0, k))))))
          (given tt)

  -- Whatever ParseTree gives is of the class that the first byte announces and well shaped
  -- throughout: an attribute stands only where one may, what is null is empty, a big number has
  -- digits only, and each map has its string keys as sorted fields and the other keys as pairs.
  pub parse_tree-IsShaped :
      (fuel : ℕ) (s s' : Input) (t : Tree)
      → parse_tree p fuel s ≡ ok t s'
      → IsShaped t × (first_byte s.bytes ≡ some (discriminant (front t)))
  parse_tree-IsShaped fuel s s' t run =
      Post-ok
        (subst (λ (r : Result Tree). Post (Reads (first_byte s.bytes)) r) run (tree-Reads fuel s))
