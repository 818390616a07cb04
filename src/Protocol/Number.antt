-- ===== src/Protocol/Number.antt =====
-- The decimal numbers of the protocol: what `%d` and `%lld` print, and what `strtol` reads.
pub mod Decimal
use yarc.Base.{
  ℕ, zero, suc, ◌+◌, ◌-◌, ◌*◌, ◌/◌, ◌%◌, ◌≡◌, refl, Bool, true, false, ◌&&◌, ◌||◌, [], ◌∷◌, ◌++◌,
  Bytes, ℤ, pos, negsuc, ltb, leb, ◌==◌, if◌then◌else◌,
}

unfoldable pub is_digit : ℕ → Bool
is_digit b = leb b'0' b && leb b b'9'

unfoldable pub is_space : ℕ → Bool
is_space b = b == b' ' || (leb 9 b && leb b 13)

-- The digits of `n` before `rest`; the fuel is above `n`.
unfoldable pub digits_before : ℕ → ℕ → Bytes → Bytes
digits_before zero n rest = rest
digits_before (suc fuel) n rest =
    let more = digits_before fuel (n / 10) ((b'0' + n % 10) ∷ rest) in
    if ltb n 10 then (b'0' + n) ∷ rest else more

unfoldable pub decimal : ℕ → Bytes
unfolding digits_before
decimal n = digits_before (suc n) n []

-- `%lld`
unfoldable pub print_int : ℤ → Bytes
unfolding decimal
print_int (pos n) = decimal n
print_int (negsuc n) = b'-' ∷ decimal (suc n)

-- `%d` of an `unsigned int`: its bits are read as a signed number.
unfoldable pub print_count : ℕ → Bytes
unfolding decimal
print_count n =
    let n' = n % 0x100000000 in
    if ltb n' 0x80000000 then decimal n' else b'-' ∷ decimal (0x100000000 - n')

unfoldable pub digits_value : ℕ → Bytes → ℕ
unfolding is_digit
digits_value acc [] = acc
digits_value acc (b ∷ bs) = if is_digit b then digits_value (acc * 10 + (b - b'0')) bs else acc

abbrev negate : ℕ → ℤ
negate zero = pos 0
negate (suc n) = negsuc n

-- The value and whether `errno` was set to ERANGE; `long` holds -limit to limit - 1.
abbrev clamp_long : ℕ → Bool → ℕ → ℤ × Bool
clamp_long limit false n = if ltb n limit then (pos n, false) else (pos (limit - 1), true)
clamp_long limit true n = if leb n limit then (negate n, false) else (negate limit, true)

unfoldable pub strtol_signed : ℕ → Bytes → ℤ × Bool
unfolding digits_value
strtol_signed limit [] = (pos 0, false)
strtol_signed limit (b ∷ bs) =
    if b == b'-'
    then clamp_long limit true (digits_value 0 bs)
    else if b == b'+'
    then clamp_long limit false (digits_value 0 bs)
    else clamp_long limit false (digits_value 0 (b ∷ bs))

-- `strtol` in base 10
unfoldable pub strtol : ℕ → Bytes → ℤ × Bool
unfolding strtol_signed is_space
strtol limit [] = (pos 0, false)
strtol limit (b ∷ bs) = if is_space b then strtol limit bs else strtol_signed limit (b ∷ bs)

test_print :
    print_int (negsuc 1204) ++ print_count 0xffffffff
    ≡ b'-' ∷ b'1' ∷ b'2' ∷ b'0' ∷ b'5' ∷ b'-' ∷ b'1' ∷ []
unfolding print_int print_count
test_print = refl

test_strtol : strtol 0x8000000000000000 (b' ' ∷ b'-' ∷ b'4' ∷ b'0' ∷ b'x' ∷ []) ≡ (negsuc 39, false)
unfolding strtol
test_strtol = refl
