-- ===== src/Crc16/Halves.antt =====
-- The division of a register by bits, upper half and lower half apart.
use Prim.Native.Nat.{bit_xor}
use yarc.Base.{◌*◌, ◌/◌, ◌%◌, ◌≡◌, refl, true, ◌==◌}
use yarc.Crc16.Table.{divide_bits, all_below}

pub halves :
    all_below 0x10000
      (λ x. bit_xor (x * 0x100 % 0x10000) (divide_bits 8 (x / 0x100 * 0x100)) == divide_bits 8 x)
    ≡ true
unfolding all_below divide_bits
halves = refl
