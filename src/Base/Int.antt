-- ===== src/Base/Int.antt =====
-- Signed integers over the native numbers, and the conversions of C between machine widths.
use Prim.Native.Nat.{ℕ, ◌-◌, ◌%◌, ◌<◌}

-- `negsuc n` is -(n + 1).
pub data ℤ : Type 0 where
  pos : ℕ → ℤ
  negsuc : ℕ → ℤ

-- The bounds of `int64_t`, and of the 64-bit `long` of `strtol`.
abbrev pub int64_limit : ℕ
int64_limit = 0x8000000000000000

abbrev pub IsInt64 : ℤ → Type 0
IsInt64 (pos n) = n < int64_limit
IsInt64 (negsuc n) = n < int64_limit

abbrev pub u32_mod : ℕ
u32_mod = 0x100000000

-- `(uint32_t)z`
abbrev pub to_u32 : ℤ → ℕ
to_u32 (pos n) = n % u32_mod
to_u32 (negsuc n) = u32_mod - 1 - n % u32_mod

-- `(uint16_t)z`
abbrev pub to_u16 : ℤ → ℕ
to_u16 (pos n) = n % 0x10000
to_u16 (negsuc n) = 0xffff - n % 0x10000
