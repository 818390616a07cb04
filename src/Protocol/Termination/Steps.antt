-- ===== src/Protocol/Termination/Steps.antt =====
-- How much of the stream a step of the parser takes.
use native.Mathlib.Nat.{le_refl}
use yarc.Base.{
  ℕ, suc, ◌+◌, ◌≤◌, ◌≢◌, Bool, true, false, Option, none, some, [], ◌∷◌, Bytes, length, arith,
  if◌then◌else◌, ◌==◌, zero, not, ◌&&◌, ◌||◌, ◌++◌, to_u32, ℤ,
}
use yarc.Protocol.Number.{is_digit, strtol}
use yarc.Protocol.Reader.{
  Platform, Input, Result, Parser, ok, failed, hung, out_of_fuel, and_then, CountText,
  question_mark, stopped, read_byte, cons_front, split_bytes, read_buffer_now, parse_crlf,
  crlf_loop, parse_crlf_terminated_string, count_loop, finish_count, parse_count,
}

-- A run on `n` bytes that succeeds takes at least `k` of them; no run is out of fuel.
pub data Uses {A : Type 0} (n k : ℕ) : Result A → Type 0 where
  used : {a : A} {s : Input} → length s.bytes + k ≤ n → Uses n k (ok a s)
  refused : Uses n k failed
  stuck : Uses n k hung

pub Uses-mono : {A : Type 0} {n m k j : ℕ} {r : Result A} → Uses n k r → n + j ≤ m + k → Uses m j r
Uses-mono (used h) le = used (omega arith)
Uses-mono refused le = refused
Uses-mono stuck le = stuck

module _ {A : Type 0} {n k : ℕ} where
  pub Uses-out_of_fuel : {r : Result A} → Uses n k r → r ≢ out_of_fuel
  Uses-out_of_fuel (used h) = cc
  Uses-out_of_fuel refused = cc
  Uses-out_of_fuel stuck = cc

  pub Uses-if :
      (b : Bool) (x y : Parser A) (s : Input)
      → Uses n k (x s)
      → Uses n k (y s)
      → Uses n k ((if b then x else y) s)
  Uses-if true x y s hx hy = hx
  Uses-if false x y s hx hy = hy

  pub Uses-cond :
      (b : Bool) (x y : Result A) → Uses n k x → Uses n k y → Uses n k (if b then x else y)
  Uses-cond true x y hx hy = hx
  Uses-cond false x y hx hy = hy

  pub Uses-bind :
      {B : Type 0} {i j : ℕ} {r : Result A} (f : A → Parser B)
      → Uses n k r
      → ((a : A) (s : Input) → length s.bytes + k ≤ n → Uses (length s.bytes) j (f a s))
      → i ≤ k + j
      → Uses n i (and_then r f)
  Uses-bind f (used h) next le = Uses-mono (next _ _ h) (omega arith)
  Uses-bind f refused next le = refused
  Uses-bind f stuck next le = stuck

-- Of all bytes that the stream holds.
abbrev pub Takes : {A : Type 0} → ℕ → Parser A → Type 0
Takes k m = (s : Input) → Uses (length s.bytes) k (m s)

-- The same for bytes at hand.
byte_takes :
    (bs : Bytes) (e : Bool) → Uses (length bs) 1 (read_byte (record { bytes = bs; errno = e }))
unfolding read_byte
byte_takes [] e = refused
byte_takes (b ∷ bs) e = used (omega arith)

pub read_byte-Takes : Takes 1 read_byte
read_byte-Takes s = byte_takes s.bytes s.errno

abbrev Splits : ℕ → ℕ → Option (Bytes × Bytes) → Type 0
Splits n k none = Unit {0}
Splits n k (some (front, rest)) = length rest + k ≤ n

split_bytes-Splits : (n : ℕ) (bs : Bytes) → Splits (length bs) 0 (split_bytes n bs)
unfolding split_bytes
split_bytes-Splits zero bs = omega arith
split_bytes-Splits (suc n) [] = tt
split_bytes-Splits (suc n) (b ∷ bs) = consed (split_bytes n bs) (split_bytes-Splits n bs)
  where
    consed :
        (o : Option (Bytes × Bytes))
        → Splits (length bs) 0 o
        → Splits (suc (length bs)) 0 (cons_front b o)
    consed none h = tt
    consed (some (front, rest)) h = omega arith

crlf_loop-Splits : (value bs : Bytes) → Splits (length bs) 1 (crlf_loop value bs)
unfolding crlf_loop
crlf_loop-Splits value [] = tt
crlf_loop-Splits value (b ∷ bs) = ground (arith, crlf_loop-Splits (b ∷ value) bs)

delivered :
    {n k : ℕ} (e : Bool) (o : Option (Bytes × Bytes))
    → Splits n k o
    → Uses n k (elim o [
      | none ↦ failed
      | some (front, rest) ↦ ok front (record { bytes = rest; errno = e })
    ])
delivered e none h = refused
delivered e (some (front, rest)) h = used h

pub read_buffer_now-Takes : (n : ℕ) → Takes 0 (read_buffer_now n)
unfolding read_buffer_now
read_buffer_now-Takes n s = delivered s.errno (split_bytes n s.bytes) (split_bytes-Splits n s.bytes)

pub parse_crlf_terminated_string-Takes : Takes 1 parse_crlf_terminated_string
unfolding parse_crlf_terminated_string
parse_crlf_terminated_string-Takes s =
    delivered s.errno (crlf_loop [] s.bytes) (crlf_loop-Splits [] s.bytes)

pub parse_crlf-Takes : Takes 2 parse_crlf
unfolding parse_crlf
parse_crlf-Takes s =
    Uses-bind _ (read_byte-Takes s)
      (λ cr t h.
        Uses-if (cr == b'\r') _ _ t
          (Uses-bind {j = 0} _ (read_byte-Takes t)
            (λ lf u k. Uses-if (lf == b'\n') _ _ u (used (omega arith)) refused) (le_refl 1))
          refused)
      (le_refl 2)

count_loop-Takes : (room : ℕ) (buffer : Bytes) → Takes 1 (count_loop room buffer)
unfolding count_loop
count_loop-Takes zero buffer s = refused
count_loop-Takes (suc room) buffer s =
    Uses-bind {j = 0} _ (read_byte-Takes s)
      (λ byte t h. Uses-if (byte == b'?') _ _ t (used (omega arith)) (
        Uses-if (not (is_digit byte) && not (byte == b'-')) _ _ t (used (omega arith))
          (Uses-mono (count_loop-Takes room (buffer ++ byte ∷ []) t) (omega arith))))
      (le_refl 1)

module _ (p : Platform) where
  finish_count-Takes : (text : CountText) → Takes 0 (finish_count p text)
  unfolding finish_count
  finish_count-Takes question_mark s =
      Uses-bind {j = 0} _ (parse_crlf-Takes s) (λ u t h. used (omega arith)) (omega arith)
  finish_count-Takes (stopped buffer byte) s =
      Uses-if (to_u32 value == 0 && (s.errno || range)) _ _ (record s { errno = s.errno || range })
        refused
        (Uses-if (not (byte == b'\r')) _ _ (record s { errno = s.errno || range }) refused
          (Uses-bind {j = 0} _ (read_byte-Takes (record s { errno = s.errno || range }))
            (λ lf t h. Uses-if (lf == b'\n') _ _ t (used (omega arith)) refused) (omega arith)))
    where
      value : ℤ
      value = (strtol p.long_limit buffer).0

      range : Bool
      range = (strtol p.long_limit buffer).1

  pub parse_count-Takes : Takes 1 (parse_count p)
  unfolding parse_count
  parse_count-Takes s =
      Uses-bind _ (count_loop-Takes 127 [] s) (λ text t h. finish_count-Takes text t) (le_refl 1)
