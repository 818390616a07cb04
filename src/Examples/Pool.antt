-- ===== src/Examples/Pool.antt =====
-- The theorems of the connection pool at concrete inputs: a stream is a number at one address.
use yarc.Base.{ℕ, ◌≡◌, none, some, List, [], ◌∷◌, Bytes}
use yarc.ConnectionPool.{find_streams, checkout_socket_stream, checkin_socket_stream}
use yarc.ConnectionPool.Reuse.{first_or, checkout_socket_stream-checkin_socket_stream}

abbrev home : ℕ → Bytes
home stream = b'1' ∷ b':' ∷ b'6' ∷ []

abbrev pool : List (Bytes × List ℕ)
pool = ((b'1' ∷ b':' ∷ b'6' ∷ []), 4 ∷ []) ∷ []

checkout_socket_stream-checkin_socket_stream_example :
    (checkout_socket_stream home none (home 5) (checkin_socket_stream home 5 pool)).0
    ≡ some (first_or home 5 (find_streams home (home 5) pool))
checkout_socket_stream-checkin_socket_stream_example =
    checkout_socket_stream-checkin_socket_stream home none 5 pool
