-- ===== src/ConnectionPool.antt =====
-- Source/yarc_connection_pool.h and .cpp: streams that wait to be used again, by address.
pub mod Reuse
use yarc.Base.{ℕ, Bool, true, false, Option, none, some, List, [], ◌∷◌, ◌++◌, Bytes, if◌then◌else◌}
use yarc.Protocol.Fields.{bytes_eq}

-- The `socketStreamMap`, from the text of an address and its port to the streams that were checked
-- in, the oldest first. `address_of` is GetIPAddressAndPort of a stream's address.
module _ {Stream : Type 0} (address_of : Stream → Bytes) where
  -- `find`, with no streams where the map has no entry.
  unfoldable pub find_streams : Bytes → List (Bytes × List Stream) → List Stream
  unfolding bytes_eq
  find_streams address [] = []
  find_streams address ((key, streams) ∷ entries) =
      if bytes_eq key address then streams else find_streams address entries

  -- The entry loses its first stream.
  unfoldable pub remove_first : Bytes → List (Bytes × List Stream) → List (Bytes × List Stream)
  unfolding bytes_eq
  remove_first address [] = []
  remove_first address ((key, []) ∷ entries) =
      if bytes_eq key address then (key, []) ∷ entries else (key, []) ∷ remove_first address entries
  remove_first address ((key, s ∷ streams) ∷ entries) =
      if bytes_eq key address
      then (key, streams) ∷ entries
      else (key, s ∷ streams) ∷ remove_first address entries

  -- CheckoutSocketStream; `connected` is the new stream, if its Connect succeeds.
  unfoldable pub checkout_socket_stream :
      (connected : Option Stream)
      → Bytes
      → List (Bytes × List Stream)
      → Option Stream × List (Bytes × List Stream)
  unfolding find_streams remove_first
  checkout_socket_stream connected address pool = elim (find_streams address pool) [
    | [] ↦ (connected, pool)
    | s ∷ streams ↦ (some s, remove_first address pool)
  ]

  -- The entry of an address gets a stream at its end, and there is an entry where there was none.
  unfoldable pub add_last : Bytes → Stream → List (Bytes × List Stream) → List (Bytes × List Stream)
  unfolding bytes_eq
  add_last address s [] = (address, s ∷ []) ∷ []
  add_last address s ((key, streams) ∷ entries) =
      if bytes_eq key address
      then (key, streams ++ s ∷ []) ∷ entries
      else (key, streams) ∷ add_last address s entries

  -- CheckinSocketStream
  unfoldable pub checkin_socket_stream :
      Stream → List (Bytes × List Stream) → List (Bytes × List Stream)
  unfolding add_last
  checkin_socket_stream s pool = add_last (address_of s) s pool
