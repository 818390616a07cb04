-- ===== src/Protocol/HashSlot/Tags.antt =====
-- What the hash tag of a key does.
use Prim.Native.Nat.{bit_and}
use yarc.Base.{
  ℕ, zero, suc, ◌+◌, ◌-◌, ◌<◌, ◌≡◌, ◌≢◌, refl, [], ◌∷◌, ◌++◌, Bytes, ne→==, eq→==, length, take,
  drop, length-append, take-append, All, arith,
}
use yarc.Crc16.{crc16}
use yarc.Protocol.Parser.{c_str}
use yarc.Protocol.HashSlot.{find_byte, calc_key_hash_slot}

-- The bytes that a C string can hold other than `ch`.
abbrev pub Lacks : ℕ → Bytes → Type 0
Lacks ch bytes = All (λ b. (b ≢ 0) × (b ≢ ch)) bytes

pub c_str-append : (ch : ℕ) (bs rest : Bytes) → Lacks ch bs → c_str (bs ++ rest) ≡ bs ++ c_str rest
unfolding c_str
c_str-append ch [] rest h = refl
c_str-append ch (b ∷ bs) rest h = rw (ne→== b 0 h.0.0, c_str-append ch bs rest h.1)

pub c_str-Lacks : (ch : ℕ) (bs : Bytes) → Lacks ch bs → c_str bs ≡ bs
unfolding c_str
c_str-Lacks ch [] h = refl
c_str-Lacks ch (b ∷ bs) h = rw (ne→== b 0 h.0.0, c_str-Lacks ch bs h.1)

pub find_byte-append :
    (ch : ℕ) (bs rest : Bytes) → Lacks ch bs → find_byte ch (bs ++ ch ∷ rest) ≡ length bs
unfolding find_byte
find_byte-append ch [] rest h = rw (eq→== ch ch refl)
find_byte-append ch (b ∷ bs) rest h = rw (ne→== b ch h.0.1, find_byte-append ch bs rest h.1)

find_byte-Lacks : (ch : ℕ) (bs : Bytes) → Lacks ch bs → find_byte ch bs ≡ length bs
unfolding find_byte
find_byte-Lacks ch [] h = refl
find_byte-Lacks ch (b ∷ bs) h = rw (ne→== b ch h.0.1, find_byte-Lacks ch bs h.1)

pub drop-suc_append : (xs ys : Bytes) (y n : ℕ) → n ≡ suc (length xs) → drop n (xs ++ y ∷ ys) ≡ ys
drop-suc_append xs ys y zero h = absurd (omega arith)
drop-suc_append [] ys y (suc zero) h = refl
drop-suc_append [] ys y (suc (suc n)) h = absurd (omega arith)
drop-suc_append (x ∷ xs) ys y (suc n) h = drop-suc_append xs ys y n (omega arith)

c_str-tagged :
    (front tag rest : Bytes)
    → Lacks b'{' front
    → Lacks b'}' tag
    → c_str (front ++ b'{' ∷ (tag ++ b'}' ∷ rest)) ≡ front ++ b'{' ∷ (tag ++ b'}' ∷ c_str rest)
unfolding c_str
c_str-tagged front tag rest f t =
    rw (
      c_str-append b'{' front (b'{' ∷ (tag ++ b'}' ∷ rest)) f,
      c_str-append b'}' tag (b'}' ∷ rest) t,
    )

length-tagged :
    (front tag rest : Bytes)
    → length (front ++ b'{' ∷ (tag ++ b'}' ∷ rest))
      ≡ length front + 1 + length tag + 1 + length rest
length-tagged front tag rest =
    omega
      (arith, length-append front (b'{' ∷ (tag ++ b'}' ∷ rest)), length-append tag (b'}' ∷ rest))

-- A key with a tag that is not empty, between its first { and the first } behind that, hashes by
-- the tag alone, whatever stands before and behind.
pub calc_key_hash_slot-tag :
    (front tag rest : Bytes)
    → Lacks b'{' front
    → Lacks b'}' tag
    → 0 < length tag
    → calc_key_hash_slot (front ++ b'{' ∷ (tag ++ b'}' ∷ rest)) ≡ bit_and (crc16 tag) 16383
unfolding calc_key_hash_slot
calc_key_hash_slot-tag front tag rest f t pos =
    let r = c_str rest in
    let n = length-tagged front tag r in
    rw
      (
        c_str-tagged front tag rest f t,
        find_byte-append b'{' front (tag ++ b'}' ∷ r) f,
        drop-suc_append front (tag ++ b'}' ∷ r) b'{' (length front + 1) (omega arith),
        find_byte-append b'}' tag r t,
        ne→== (length front) (length (front ++ b'{' ∷ (tag ++ b'}' ∷ r))) (omega (arith, n)),
        ne→== (length front + 1 + length tag) (length (front ++ b'{' ∷ (tag ++ b'}' ∷ r)))
            (omega (arith, n)),
        ne→== (length front + 1 + length tag) (length front + 1) (omega arith),
        inside (length front + 1 + length tag - length front - 1) (omega arith),
      )
      refl
  where
    inside : (n : ℕ) → n ≡ length tag → take n (tag ++ b'}' ∷ c_str rest) ≡ tag
    inside n e = rw e (take-append tag (b'}' ∷ c_str rest))

-- A key without `{` hashes whole.
pub calc_key_hash_slot-whole :
    (key : Bytes) → Lacks b'{' key → calc_key_hash_slot key ≡ bit_and (crc16 key) 16383
unfolding calc_key_hash_slot
calc_key_hash_slot-whole key h =
    rw (c_str-Lacks b'{' key h, find_byte-Lacks b'{' key h, eq→== (length key) (length key) refl)
