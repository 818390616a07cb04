-- ===== src/SocketStream.antt =====
-- SocketStream of Source/yarc_socket_stream.cpp: a stream on a socket, which Connect opens.
pub mod Calls
pub mod Incoming
pub mod Opened
use yarc.Base.{
  ℕ, zero, suc, ◌+◌, ◌-◌, Bool, true, false, ◌&&◌, not, Option, none, some, List, [], ◌∷◌, ◌++◌,
  Bytes, length, ltb, leb, ◌==◌, if◌then◌else◌,
}
use yarc.ClusterClient.Nodes.{Address}
use yarc.ByteStream.{Stream}
use yarc.SocketStream.Calls.{Selected, System, select_error, excepted, writable, no_event}

-- `sock` is none where the source has INVALID_SOCKET.
pub record SocketStream : Type 0 where
  pub sock : Option ℕ
  pub address : Address
  pub last_socket_read_write_time : ℕ

unfoldable pub new_socket_stream : Address → SocketStream
new_socket_stream address = record {
  sock = none;
  address = address;
  last_socket_read_write_time = 0;
}

unfoldable pub is_connected : SocketStream → Bool
is_connected st = elim st.sock [ none ↦ false | some s ↦ true ]

module _ (sys : System) (windows : Bool) where
  open sys use {W}

  -- Disconnect, which always returns true
  unfoldable pub disconnect_sock : Option ℕ → W → W
  disconnect_sock none w = w
  disconnect_sock (some s) w = sys.close s w

  unfoldable pub disconnect : SocketStream → W → SocketStream × W
  unfolding disconnect_sock
  disconnect st w = (record st { sock = none }, disconnect_sock st.sock w)

  -- What a round of the loop of Connect does with the answer of `select`.
  unfoldable pub selected : (rest : Option (Bool × W)) → Selected × W → Option (Bool × W)
  selected rest (select_error, w) = some (false, w)
  selected rest (excepted, w) = some (false, w)
  selected rest (writable, w) = some (true, w)
  selected rest (no_event, w) = rest

  -- The loop of Connect, which waits for the socket to become writable: whether it does before the
  -- time is out. Times are in ticks of the clock.
  unfoldable pub poll : (timeout start : ℕ) → (fuel : ℕ) → (elapsed : ℕ) → ℕ → W → Option (Bool × W)
  unfolding selected
  poll timeout start zero elapsed s w = none
  poll timeout start (suc fuel) elapsed s w =
      let r = sys.select s w in
      let rest = poll timeout start fuel (sys.clock r.1 - start) s r.1 in
      if leb elapsed timeout then selected rest r else some (false, w)

  -- What follows the call of `connect` on a socket that does not block.
  unfoldable pub blocking_again : ℕ → Option (Bool × W) → Option (Bool × W)
  blocking_again s none = none
  blocking_again s (some (false, w)) = some (false, w)
  blocking_again s (some (true, w)) = some (sys.ioctl false s w)

  unfoldable pub wait_connected : (fuel timeout : ℕ) → ℕ → Bool × W → Option (Bool × W)
  unfolding poll blocking_again
  wait_connected fuel timeout s (true, w) = some (false, w)
  wait_connected fuel timeout s (false, w) =
      if (if windows then not (sys.would_block w) else sys.would_block w)
      then some (false, w)
      else blocking_again s (poll timeout (sys.clock w) fuel 0 s w)

  unfoldable pub connect_non_blocking :
      (fuel timeout : ℕ) → Address → ℕ → Bool × W → Option (Bool × W)
  unfolding wait_connected
  connect_non_blocking fuel timeout address s (false, w) = some (false, w)
  connect_non_blocking fuel timeout address s (true, w) =
      wait_connected fuel timeout s (sys.connect address s w)

  -- The body of Connect on a new socket; there is no timeout where it is negative.
  unfoldable pub connect_sock :
      (fuel : ℕ) → (timeout : Option ℕ) → Address → ℕ → W → Option (Bool × W)
  unfolding connect_non_blocking
  connect_sock fuel none address s w = some (sys.connect address s w)
  connect_sock fuel (some timeout) address s w =
      connect_non_blocking fuel timeout address s (sys.ioctl true s w)

  -- The end of Connect: Disconnect, where it failed.
  unfoldable pub finish_connect :
      SocketStream → Option (Bool × W) → Option (Bool × SocketStream × W)
  unfolding disconnect
  finish_connect st none = none
  finish_connect st (some (true, w)) = some (true, st, w)
  finish_connect st (some (false, w)) =
      let closed = disconnect st w in some (false, closed.0, closed.1)

  unfoldable pub connect_opened :
      (fuel : ℕ)
      → (timeout : Option ℕ) → SocketStream
      → Option ℕ × W
      → Option (Bool × SocketStream × W)
  unfolding connect_sock finish_connect
  connect_opened fuel timeout st (none, w) =
      finish_connect (record st { sock = none }) (some (false, w))
  connect_opened fuel timeout st (some s, w) =
      finish_connect (record st { sock = some s }) (connect_sock fuel timeout st.address s w)

  unfoldable pub connect_closed :
      (fuel : ℕ)
      → (timeout : Option ℕ) → SocketStream
      → Option ℕ
      → W
      → Option (Bool × SocketStream × W)
  unfolding connect_opened finish_connect
  connect_closed fuel timeout st (some s) w = finish_connect st (some (false, w))
  connect_closed fuel timeout st none w = connect_opened fuel timeout st (sys.socket w)

  unfoldable pub connect :
      (fuel : ℕ)
      → (timeout : Option ℕ) → Address
      → SocketStream
      → W
      → Option (Bool × SocketStream × W)
  unfolding connect_closed
  connect fuel timeout given_address st w =
      connect_closed fuel timeout (record st { address = given_address }) st.sock w

  -- ReadBuffer: `recv` that fails, or on Linux finds the connection closed, makes the socket invalid
  -- without closing it.
  unfoldable pub received : SocketStream → Option Bytes × W → Option Bytes × SocketStream × W
  received st (none, w) = (none, record st { sock = none }, w)
  received st (some [], w) =
      if windows then (some [], st, w) else (none, record st { sock = none }, w)
  received st (some (b ∷ bs), w) =
      (some (b ∷ bs), record st { last_socket_read_write_time = sys.clock w }, w)

  unfoldable pub read_sock : ℕ → SocketStream → Option ℕ → W → Option Bytes × SocketStream × W
  unfolding received
  read_sock buffer_size st none w = (none, st, w)
  read_sock buffer_size st (some s) w = received st (sys.recv buffer_size s w)

  -- WriteBuffer
  unfoldable pub sent : SocketStream → Option ℕ × W → Option ℕ × SocketStream × W
  sent st (none, w) = (none, record st { sock = none }, w)
  sent st (some n, w) =
      (some n, if ltb 0 n then record st { last_socket_read_write_time = sys.clock w } else st, w)

  unfoldable pub write_sock : Bytes → SocketStream → Option ℕ → W → Option ℕ × SocketStream × W
  unfolding sent
  write_sock buffer st none w = (none, st, w)
  write_sock buffer st (some s) w = sent st (sys.send buffer s w)

  unfoldable pub socket_stream : Stream (SocketStream × W)
  unfolding read_sock write_sock
  socket_stream = record {
    read_buffer = λ n s. let r = read_sock n s.0 s.0.sock s.1 in (r.0, (r.1, r.2));
    write_buffer = λ bs s. let r = write_sock bs s.0 s.0.sock s.1 in (r.0, (r.1, r.2));
  }
