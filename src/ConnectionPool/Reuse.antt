-- ===== src/ConnectionPool/Reuse.antt =====
-- A stream is used again for the address that it is connected to, the oldest first.
use yarc.Base.{
  ◌≡◌, refl, sym, Option, none, some, List, [], ◌∷◌, ◌++◌, Bytes, All, Bool-cases, inl, inr,
}
use yarc.Protocol.Fields.{bytes_eq}
use yarc.Protocol.Fields.Order.{eq_of_bytes_eq, bytes_eq_refl}
use yarc.ConnectionPool.{
  find_streams, remove_first, checkout_socket_stream, add_last, checkin_socket_stream,
}

module _ {Stream : Type 0} (address_of : Stream → Bytes) where
  -- Every stream stands at its address.
  abbrev pub IsValid : List (Bytes × List Stream) → Type 0
  IsValid [] = Unit
  IsValid ((key, streams) ∷ entries) = All (λ s. address_of s ≡ key) streams × IsValid entries

  All-snoc :
      (key : Bytes) (streams : List Stream) (s : Stream)
      → All (λ x. address_of x ≡ key) streams
      → address_of s ≡ key
      → All (λ x. address_of x ≡ key) (streams ++ s ∷ [])
  All-snoc key [] s h e = (e, tt)
  All-snoc key (x ∷ xs) s h e = (h.0, All-snoc key xs s h.1 e)

  add_last-IsValid :
      (s : Stream) (pool : List (Bytes × List Stream))
      → IsValid pool
      → IsValid (add_last address_of (address_of s) s pool)
  unfolding add_last
  add_last-IsValid s [] v = ((refl, tt), tt)
  add_last-IsValid s ((key, streams) ∷ entries) v =
      elim (Bool-cases (bytes_eq key (address_of s))) [
        | inl e ↦ rw e (All-snoc key streams s v.0 (sym (eq_of_bytes_eq key (address_of s) e)), v.1)
        | inr e ↦ rw e (v.0, add_last-IsValid s entries v.1)
      ]

  remove_first-IsValid :
      (address : Bytes) (pool : List (Bytes × List Stream))
      → IsValid pool
      → IsValid (remove_first address_of address pool)
  unfolding remove_first
  remove_first-IsValid address [] v = tt
  remove_first-IsValid address ((key, []) ∷ entries) v = elim (Bool-cases (bytes_eq key address)) [
    | inl e ↦ rw e v
    | inr e ↦ rw e (v.0, remove_first-IsValid address entries v.1)
  ]
  remove_first-IsValid address ((key, s ∷ streams) ∷ entries) v =
      elim (Bool-cases (bytes_eq key address)) [
        | inl e ↦ rw e (v.0.1, v.1)
        | inr e ↦ rw e (v.0, remove_first-IsValid address entries v.1)
      ]

  find_streams-All :
      (address : Bytes) (pool : List (Bytes × List Stream))
      → IsValid pool
      → All (λ s. address_of s ≡ address) (find_streams address_of address pool)
  unfolding find_streams
  find_streams-All address [] v = tt
  find_streams-All address ((key, streams) ∷ entries) v = elim (Bool-cases (bytes_eq key address)) [
    | inl e ↦ let same = eq_of_bytes_eq key address e in rw e (rw same at v.0)
    | inr e ↦ rw e (find_streams-All address entries v.1)
  ]

  find_streams-add_last :
      (address : Bytes) (s : Stream) (pool : List (Bytes × List Stream))
      → find_streams address_of address (add_last address_of address s pool)
        ≡ find_streams address_of address pool ++ s ∷ []
  unfolding find_streams add_last
  find_streams-add_last address s [] = rw (bytes_eq_refl address)
  find_streams-add_last address s ((key, streams) ∷ entries) =
      elim (Bool-cases (bytes_eq key address)) [
        | inl e ↦ rw (e, e)
        | inr e ↦ rw (e, e) (find_streams-add_last address s entries)
      ]

  abbrev pub IsAt : Bytes → Option Stream → Type 0
  IsAt address none = Unit
  IsAt address (some s) = address_of s ≡ address

  -- In a pool where every stream stands at its address, a checkout gives a stream of the address
  -- that was asked for, if the new connection has it, and leaves every stream at its address.
  pub checkout_socket_stream-IsValid :
      (connected : Option Stream) (address : Bytes) (pool : List (Bytes × List Stream))
      → IsAt address connected
      → IsValid pool
      → IsAt address (checkout_socket_stream address_of connected address pool).0
        × IsValid (checkout_socket_stream address_of connected address pool).1
  unfolding checkout_socket_stream
  checkout_socket_stream-IsValid connected address pool c v =
      taken (find_streams address_of address pool) (find_streams-All address pool v)
    where
      taken :
          (streams : List Stream)
          → All (λ s. address_of s ≡ address) streams
          → IsAt address
              (elim streams as (λ x. Option Stream × List (Bytes × List Stream)) [
                | [] ↦ (connected, pool)
                | s ∷ rest ↦ (some s, remove_first address_of address pool)
              ]).0
            × IsValid
                (elim streams as (λ x. Option Stream × List (Bytes × List Stream)) [
                  | [] ↦ (connected, pool)
                  | s ∷ rest ↦ (some s, remove_first address_of address pool)
                ]).1
      taken [] h = (c, v)
      taken (s ∷ rest) h = (h.0, remove_first-IsValid address pool v)

  -- A checkin leaves every stream at its address, where they stood so before.
  pub checkin_socket_stream-IsValid :
      (s : Stream) (pool : List (Bytes × List Stream))
      → IsValid pool
      → IsValid (checkin_socket_stream address_of s pool)
  unfolding checkin_socket_stream
  checkin_socket_stream-IsValid s pool v = add_last-IsValid s pool v

  abbrev pub first_or : Stream → List Stream → Stream
  first_or s [] = s
  first_or s (x ∷ xs) = x

  -- After a checkin, a checkout for the address of that stream gives the oldest stream that waits
  -- for it: this one where no other did.
  pub checkout_socket_stream-checkin_socket_stream :
      (connected : Option Stream) (s : Stream) (pool : List (Bytes × List Stream))
      → (checkout_socket_stream address_of connected
          (address_of s)
          (checkin_socket_stream address_of s pool)).0
        ≡ some (first_or s (find_streams address_of (address_of s) pool))
  unfolding checkout_socket_stream checkin_socket_stream
  checkout_socket_stream-checkin_socket_stream connected s pool =
      rw (checkout_socket_stream, find_streams-add_last (address_of s) s pool)
        (oldest (find_streams address_of (address_of s) pool))
    where
      left : List (Bytes × List Stream)
      left = remove_first address_of (address_of s) (add_last address_of (address_of s) s pool)

      oldest :
          (streams : List Stream)
          → (elim (streams ++ s ∷ []) as (λ x. Option Stream × List (Bytes × List Stream)) [
            | [] ↦ (connected, add_last address_of (address_of s) s pool)
            | x ∷ rest ↦ (some x, left)
          ]).0
            ≡ some (first_or s streams)
      oldest [] = refl
      oldest (x ∷ xs) = refl
