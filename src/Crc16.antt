-- ===== src/Crc16.antt =====
-- Source/yarc_crc16.cpp: the checksum of a key, by a table of 256 entries.
use Prim.Native.Nat.{bit_and, bit_xor}
use yarc.Base.{
  ℕ, zero, suc, ◌+◌, ◌*◌, ◌/◌, ◌%◌, ◌<◌, ◌≡◌, refl, Bool, true, ◌&&◌, List, [], ◌∷◌, Bytes, get_or,
  ltb, ◌==◌, if◌then◌else◌,
}
use yarc.Crc16.Table.{crc16tab}
pub mod Table
pub mod Halves
pub mod Division

-- One round of the loop: `crc` is a `uint16_t`, and `byte` a `char` of which the mask keeps 8 bits.
unfoldable pub crc16_step : ℕ → ℕ → ℕ
crc16_step crc byte =
    bit_xor (crc * 0x100 % 0x10000) (get_or crc16tab (bit_and (bit_xor (crc / 0x100) byte) 0xff) 0)

unfoldable pub crc16_loop : ℕ → Bytes → ℕ
unfolding crc16_step
crc16_loop crc [] = crc
crc16_loop crc (b ∷ bs) = crc16_loop (crc16_step crc b) bs

unfoldable pub crc16 : Bytes → ℕ
unfolding crc16_loop
crc16 buffer = crc16_loop 0 buffer
