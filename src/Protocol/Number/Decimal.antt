-- ===== src/Protocol/Number/Decimal.antt =====
-- The digits that the printer writes are those that `strtol` reads back.
use native.Mathlib.Nat.{pow-suc}
use yarc.Base.{
  ℕ, zero, suc, ◌+◌, ◌*◌, ◌/◌, ◌%◌, ◌^◌, ◌≤◌, ◌<◌, ◌≡◌, refl, true, false, [], ◌∷◌, inl, inr, Bytes,
  ℤ, pos, negsuc, ltb, arith, All, length, Bool-cases,
}
use yarc.Protocol.Number.{
  is_digit, is_space, digits_before, decimal, print_int, print_count, digits_value, strtol_signed,
  strtol,
}

abbrev pub IsDigits : Bytes → Type 0
IsDigits = All (λ b. is_digit b ≡ true)

is_digit-add : (d : ℕ) → d < 10 → is_digit (b'0' + d) ≡ true
unfolding is_digit
is_digit-add d h = ground arith

pub digits_before-IsDigits :
    (fuel n : ℕ) (rest : Bytes) → IsDigits rest → IsDigits (digits_before fuel n rest)
unfolding digits_before
digits_before-IsDigits zero n rest h = h
digits_before-IsDigits (suc fuel) n rest h = elim (Bool-cases (ltb n 10)) [
  | inl e ↦ rw e (is_digit-add n (ground arith), h)
  | inr e ↦ rw e (digits_before-IsDigits fuel (n / 10) _ (is_digit-add (n % 10) (omega arith), h))
]

digits_value-digit :
    (acc d m : ℕ) (rest : Bytes)
    → d < 10
    → acc * 10 + d ≡ m
    → digits_value acc ((b'0' + d) ∷ rest) ≡ digits_value m rest
unfolding digits_value
digits_value-digit acc d m rest h e = ground (arith, is_digit-add d)

pub digits_value-digits_before :
    (fuel n : ℕ) (rest : Bytes)
    → n < fuel
    → digits_value 0 (digits_before fuel n rest) ≡ digits_value n rest
unfolding digits_before
digits_value-digits_before zero n rest h = absurd (omega arith)
digits_value-digits_before (suc fuel) n rest h = elim (Bool-cases (ltb n 10)) [
  | inl e ↦ rw e (digits_value-digit 0 n n rest (ground arith) (omega arith))
  | inr e ↦
      rw (e, digits_value-digits_before fuel (n / 10) ((b'0' + n % 10) ∷ rest) (ground arith))
        (digits_value-digit (n / 10) (n % 10) n rest (omega arith) (omega arith))
]

pub length-digits_before :
    (k fuel n : ℕ) (rest : Bytes)
    → n < 10 ^ suc k
    → length (digits_before fuel n rest) ≤ suc k + length rest
unfolding digits_before
length-digits_before k zero n rest h = omega arith
length-digits_before zero (suc fuel) n rest h = ground arith
length-digits_before (suc k) (suc fuel) n rest h =
    ground
      (arith, pow-suc 10 (suc k), length-digits_before k fuel (n / 10) ((b'0' + n % 10) ∷ rest))

-- A number below 10 ^ 19, such as the absolute value of an `int64_t`, has at most 19 digits.
pub length-decimal : (n : ℕ) → n < 10 ^ 19 → length (decimal n) ≤ 19
unfolding decimal
length-decimal n h = omega (arith, length-digits_before 18 (suc n) n [] h)

pub decimal-IsDigits : (n : ℕ) → IsDigits (decimal n)
unfolding decimal
decimal-IsDigits n = digits_before-IsDigits (suc n) n [] tt

pub digits_value-decimal : (n : ℕ) → digits_value 0 (decimal n) ≡ n
unfolding decimal digits_value
digits_value-decimal n = digits_value-digits_before (suc n) n [] (omega arith)

-- A text that begins with a digit has neither a sign nor a space in front.
strtol-IsDigits :
    (limit : ℕ) (ds : Bytes)
    → IsDigits ds
    → digits_value 0 ds < limit
    → strtol limit ds ≡ (pos (digits_value 0 ds), false)
unfolding strtol strtol_signed is_digit is_space digits_value
strtol-IsDigits limit [] h fits = refl
strtol-IsDigits limit (b ∷ bs) h fits = ground arith

pub strtol-decimal : (limit n : ℕ) → n < limit → strtol limit (decimal n) ≡ (pos n, false)
strtol-decimal limit n h =
    let value = digits_value-decimal n in
    rw (strtol-IsDigits limit (decimal n) (decimal-IsDigits n) (omega (arith, value)), value)

-- The range of `long`.
abbrev pub IsLong : ℕ → ℤ → Type 0
IsLong limit (pos n) = n < limit
IsLong limit (negsuc n) = n < limit

pub strtol-print_int :
    (limit : ℕ) (z : ℤ) → IsLong limit z → strtol limit (print_int z) ≡ (z, false)
unfolding print_int strtol strtol_signed is_space
strtol-print_int limit (pos n) h = strtol-decimal limit n h
strtol-print_int limit (negsuc n) h = ground (arith, digits_value-decimal (suc n))

pub print_count-decimal : (n : ℕ) → n < 0x80000000 → print_count n ≡ decimal n
unfolding print_count
print_count-decimal n h = ground arith
