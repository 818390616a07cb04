-- ===== src/Protocol/Typing/Classes.antt =====
-- The bytes that announce the classes.
use yarc.Base.{
  ℕ, ◌≡◌, refl, sym, ◌∙◌, Option, none, some, ◌==◌, ==→eq, Bool-cases, inl, inr, if◌then◌else◌,
}
use yarc.Protocol.Data.{
  blob_string, chunk, blob_error, verbatim, simple_string, simple_error, array, set_array, push,
  map_of, attribute,
}
use yarc.Protocol.Parser.{
  Class, blob_class, simple_class, number_class, double_class, boolean_class, big_number_class,
  end_class, null_class, array_class, map_class, class_of,
}

-- The byte that a class is announced by.
unfoldable pub class_byte : Class → ℕ
class_byte (blob_class blob_string) = b'$'
class_byte (blob_class chunk) = b';'
class_byte (blob_class blob_error) = b'!'
class_byte (blob_class verbatim) = b'='
class_byte (simple_class simple_string) = b'+'
class_byte (simple_class simple_error) = b'-'
class_byte number_class = b':'
class_byte double_class = b','
class_byte boolean_class = b'#'
class_byte big_number_class = b'<'
class_byte end_class = b'.'
class_byte null_class = b'_'
class_byte (array_class array) = b'*'
class_byte (array_class set_array) = b'~'
class_byte (array_class push) = b'>'
class_byte (map_class map_of) = b'%'
class_byte (map_class attribute) = b'|'

-- A class of its own byte.
abbrev pub Announced : ℕ → Option Class → Type 0
Announced byte none = Unit
Announced byte (some c) = class_byte c ≡ byte

Announced-if :
    (byte b : ℕ) (c : Class) (o : Option Class)
    → class_byte c ≡ b
    → Announced byte o
    → Announced byte (if byte == b then some c else o)
Announced-if byte b c o e h = elim (Bool-cases (byte == b)) [
  | inl t ↦ rw t (e ∙ sym (==→eq byte b t))
  | inr t ↦ rw t h
]

pub class_of-Announced : (byte : ℕ) → Announced byte (class_of byte)
unfolding class_of class_byte
class_of-Announced byte = Announced-if byte b'$' (blob_class blob_string) _ refl (
    Announced-if byte b'+' (simple_class simple_string) _ refl (
      Announced-if byte b'-' (simple_class simple_error) _ refl (
        Announced-if byte b':' number_class _ refl (
          Announced-if byte b'_' null_class _ refl (
            Announced-if byte b',' double_class _ refl (
              Announced-if byte b'#' boolean_class _ refl (
                Announced-if byte b'!' (blob_class blob_error) _ refl (
                  Announced-if byte b'=' (blob_class verbatim) _ refl (
                    Announced-if byte b'<' big_number_class _ refl (
                      Announced-if byte b'*' (array_class array) _ refl (
                        Announced-if byte b'%' (map_class map_of) _ refl (
                          Announced-if byte b'~' (array_class set_array) _ refl (
                            Announced-if byte b'|' (map_class attribute) _ refl (
                              Announced-if byte b'>' (array_class push) _ refl (
                                Announced-if byte b'.' end_class _ refl (
                                  Announced-if byte b';' (blob_class chunk) _ refl
                                    tt))))))))))))))))
