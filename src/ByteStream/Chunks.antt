-- ===== src/ByteStream/Chunks.antt =====
-- ReadBufferNow reads the same bytes whatever the parts in which they come.
use yarc.Base.{
  ℕ, zero, suc, ◌+◌, ◌-◌, ◌≤◌, ◌<◌, ◌≡◌, ◌⊎◌, refl, ap, ◌∙◌, Option, inl, inr, none, some, [], ◌∷◌,
  ◌++◌, Bytes, length, ne→==, arith,
}
use yarc.Protocol.Reader.{cons_front, split_bytes}
use yarc.ByteStream.{Stream, prepend, read_buffer_loop}

-- `bs` before what is read.
unfoldable pub put_front : Bytes → Option (Bytes × Bytes) → Option (Bytes × Bytes)
put_front bs none = none
put_front bs (some (front, rest)) = some (bs ++ front, rest)

put_front-nil : (o : Option (Bytes × Bytes)) → o ≡ put_front [] o
unfolding put_front
put_front-nil none = refl
put_front-nil (some (front, rest)) = refl

cons_front-put_front :
    (b : ℕ) (bs : Bytes) (o : Option (Bytes × Bytes))
    → cons_front b (put_front bs o) ≡ put_front (b ∷ bs) o
unfolding put_front
cons_front-put_front b bs none = refl
cons_front-put_front b bs (some (front, rest)) = refl

bytes-cases : (bs : Bytes) → (bs ≡ []) ⊎ (0 < length bs)
bytes-cases [] = inl refl
bytes-cases (b ∷ bs) = inr (omega arith)

split_bytes-more :
    (bs : Bytes) (m : ℕ) (cs : Bytes)
    → split_bytes (length bs + m) (bs ++ cs) ≡ put_front bs (split_bytes m cs)
unfolding split_bytes
split_bytes-more [] m cs =
    let same : 0 + m ≡ m = omega arith in rw same (put_front-nil (split_bytes m cs))
split_bytes-more (b ∷ bs) m cs =
    let shift : suc (length bs) + m ≡ suc (length bs + m) = omega arith in
    rw (shift, split_bytes-more bs m cs) (cons_front-put_front b bs (split_bytes m cs))

module _ {S : Type 0} (stream : Stream S) (view : S → Bytes) where
  -- A stream that delivers the bytes of its view before it fails, some at a time.
  pub record Delivers : Type 0 where
    pub delivers_some :
        (n : ℕ) (s : S)
        → 0 < n
        → 0 < length (view s)
        → (bs : Bytes) × (s' : S) × (stream.read_buffer n s ≡ (some bs, s'))
          × (view s ≡ bs ++ view s')
          × (0 < length bs)
          × (length bs ≤ n)
    pub delivers_none :
        (n : ℕ) (s : S) → 0 < n → view s ≡ [] → (s' : S) × (stream.read_buffer n s ≡ (none, s'))

  -- What a split of the view says of a read.
  abbrev pub Reads : Option (Bytes × Bytes) → Option (Option Bytes × S) → Type 0
  Reads none o = (s' : S) × (o ≡ some (none, s'))
  Reads (some (front, rest)) o = (s' : S) × (o ≡ some (some front, s')) × (view s' ≡ rest)

  Reads-prepend :
      (bs : Bytes) (split : Option (Bytes × Bytes)) (o : Option (Option Bytes × S))
      → Reads split o
      → Reads (put_front bs split) (prepend bs o)
  unfolding put_front prepend
  Reads-prepend bs none o r = (r.0, rw r.1 refl)
  Reads-prepend bs (some (front, rest)) o r = (r.0, rw r.1 refl, r.2)

  loop-none :
      (fuel n : ℕ) (s s' : S)
      → 0 < n
      → stream.read_buffer n s ≡ (none, s')
      → read_buffer_loop stream (suc fuel) n s ≡ some (none, s')
  unfolding read_buffer_loop
  loop-none fuel n s s' pos e =
      rw (read_buffer_loop, ne→== n 0 (omega (arith, pos)), e)
        (ap {B = Option (Option Bytes × S)} (λ (o : Option Bytes × S). some (none, o.1)) e)

  loop-some :
      (fuel n : ℕ) (s s' : S) (bs : Bytes)
      → 0 < n
      → stream.read_buffer n s ≡ (some bs, s')
      → read_buffer_loop stream (suc fuel) n s
        ≡ prepend bs (read_buffer_loop stream fuel (n - length bs) s')
  unfolding read_buffer_loop
  loop-some fuel n s s' bs pos e =
      rw (read_buffer_loop, ne→== n 0 (omega (arith, pos)), e)
        (ap
          (λ (o : Option Bytes × S). prepend bs (read_buffer_loop stream fuel (n - length bs) o.1))
          e)

  Reads-zero :
      (fuel : ℕ) (s : S) → Reads (split_bytes 0 (view s)) (read_buffer_loop stream (suc fuel) 0 s)
  unfolding read_buffer_loop split_bytes
  Reads-zero fuel s = (s, refl, refl)

  split_bytes-nil : (n : ℕ) → split_bytes (suc n) [] ≡ none
  unfolding split_bytes
  split_bytes-nil n = refl

  module _ (delivers : Delivers) where
    -- ReadBufferNow on a stream that delivers bytes in parts of any length and then fails, with
    -- more rounds than bytes asked for, gives what a split of all these bytes gives, the parser's
    -- view of a stream: the bytes in order with the others left in the stream, or a failure where
    -- there are too few.
    pub read_buffer_loop-Reads :
        (fuel n : ℕ) (s : S)
        → n < fuel
        → Reads (split_bytes n (view s)) (read_buffer_loop stream fuel n s)
    read_buffer_loop-Reads zero n s enough = absurd (omega (arith, enough))
    read_buffer_loop-Reads (suc fuel) zero s enough = Reads-zero fuel s
    read_buffer_loop-Reads (suc fuel) (suc n) s enough = elim (bytes-cases (view s)) [
      | inl e ↦
          let (s', run) = delivers.delivers_none (suc n) s (omega arith) e in
          rw (e, split_bytes-nil n, loop-none fuel (suc n) s s' (omega arith) run) (s', refl)
      | inr pos ↦
          let (bs, s', run, parts, forward, fits) =
            delivers.delivers_some (suc n) s (omega arith) pos in
          let m = suc n - length bs in
          let whole : suc n ≡ length bs + m = omega (arith, fits) in
          let split : split_bytes (suc n) (view s) ≡ put_front bs (split_bytes m (view s')) =
            ap (split_bytes (suc n)) parts
            ∙ ap (λ z. split_bytes z (bs ++ view s')) whole
            ∙ split_bytes-more bs m (view s') in
          let rest = read_buffer_loop-Reads fuel m s' (omega (arith, forward, enough)) in
          rw (split, loop-some fuel (suc n) s s' bs (omega arith) run) (Reads-prepend bs _ _ rest)
    ]
