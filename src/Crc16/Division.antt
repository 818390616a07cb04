-- ===== src/Crc16/Division.antt =====
-- The checksum as a long division, one bit at a time.
use Prim.Native.Nat.{bit_and, bit_xor}
use yarc.Base.{
  ℕ, ◌+◌, ◌*◌, ◌/◌, ◌%◌, ◌<◌, ◌≡◌, refl, sym, ap, ◌∙◌, [], ◌∷◌, Bytes, get_or, ==_iff, arith,
  bit_and-le,
}
use yarc.Crc16.Table.{crc16tab, divide_bits, all_below-lt, crc16tab-divide_bits}
use yarc.Crc16.Halves.{halves}
use yarc.Crc16.{crc16_step, crc16_loop, crc16}

-- A byte goes into the upper half of the register, and eight bits are divided.
unfoldable pub divide_byte : ℕ → ℕ → ℕ
divide_byte crc byte =
    divide_bits 8 (bit_and (bit_xor (crc / 0x100) byte) 0xff * 0x100 + crc % 0x100)

unfoldable pub divide_text : ℕ → Bytes → ℕ
divide_text crc [] = crc
divide_text crc (b ∷ bs) = divide_text (divide_byte crc b) bs

join : (l l' t t' r : ℕ) → l' ≡ l → t ≡ t' → bit_xor l' t' ≡ r → bit_xor l t ≡ r
join l l' t t' r p q e = ap (λ z. bit_xor z t) (sym p) ∙ ap (bit_xor l') q ∙ e

-- A register of an upper and a lower half.
step_halves :
    (u low : ℕ)
    → u < 0x100
    → low < 0x100
    → bit_xor (low * 0x100) (get_or crc16tab u 0) ≡ divide_bits 8 (u * 0x100 + low)
step_halves u low hu hl =
    let x = u * 0x100 + low in
    let upper : x / 0x100 ≡ u = omega (arith, hl) in
    let lower : x * 0x100 % 0x10000 ≡ low * 0x100 = omega (arith, hl) in
    let divided = (==_iff _ _).0 (all_below-lt 0x10000 _ halves x (omega (arith, hu, hl))) in
    join (low * 0x100) (x * 0x100 % 0x10000) (get_or crc16tab u 0)
      (divide_bits 8 (x / 0x100 * 0x100)) (divide_bits 8 x) lower
      (crc16tab-divide_bits u hu ∙ ap (λ z. divide_bits 8 (z * 0x100)) (sym upper)) divided

crc16_step-divide_byte : (crc byte : ℕ) → crc16_step crc byte ≡ divide_byte crc byte
unfolding crc16_step divide_byte
crc16_step-divide_byte crc byte =
    let u = bit_and (bit_xor (crc / 0x100) byte) 0xff in
    let bound : u < 0x100 = omega (arith, bit_and-le (bit_xor (crc / 0x100) byte) 0xff) in
    let kept : crc * 0x100 % 0x10000 ≡ crc % 0x100 * 0x100 = omega arith in
    ap (λ z. bit_xor z (get_or crc16tab u 0)) kept ∙ step_halves u (crc % 0x100) bound (omega arith)

crc16_loop-divide_text : (bytes : Bytes) (crc : ℕ) → crc16_loop crc bytes ≡ divide_text crc bytes
unfolding crc16_loop divide_text
crc16_loop-divide_text [] crc = refl
crc16_loop-divide_text (b ∷ bs) crc =
    ap (λ z. crc16_loop z bs) (crc16_step-divide_byte crc b)
    ∙ crc16_loop-divide_text bs (divide_byte crc b)

-- The checksum of a text by the table is the remainder of its division by the polynomial one bit at
-- a time, each byte being added to the upper half of the register before its eight bits are
-- divided.
pub crc16-divide_text : (bytes : Bytes) → crc16 bytes ≡ divide_text 0 bytes
unfolding crc16
crc16-divide_text bytes = crc16_loop-divide_text bytes 0
