-- ===== src/Examples/Sockets.antt =====
-- A SocketStream at work on a small system.
use yarc.Base.{
  ℕ, zero, suc, ◌<◌, ◌≤◌, ◌≡◌, refl, inl, inr, ◌≢◌, ap, true, false, Option, none, some, List, [],
  ◌∷◌, ◌++◌, Bytes, length, arith,
}
use yarc.Protocol.Reader.{split_bytes}
use yarc.ByteStream.{read_buffer_loop}
use yarc.ByteStream.Chunks.{Reads}
use yarc.ClusterClient.Nodes.{Address}
use yarc.SocketStream.Calls.{System, Ledger, Selected, writable, no_event, handles}
use yarc.SocketStream.Incoming.{Recv, arriving, socket_stream-Reads}
use yarc.SocketStream.Opened.{Passes, Enough, Connects, connect-Connects}
use yarc.SocketStream.{SocketStream, new_socket_stream, connect, socket_stream}

-- The open sockets, the time and the bytes that come in.
record Machine : Type 0 where
  sockets : List ℕ
  time : ℕ
  arrived : Bytes

abbrev all_but_last : List ℕ → List ℕ
all_but_last [] = []
all_but_last (x ∷ xs) = xs

abbrev recv_one : Bytes → Machine → Option Bytes × Machine
recv_one [] w = (none, w)
recv_one (b ∷ bs) w = (some (b ∷ []), record w { arrived = bs })

-- A socket becomes writable after the second round.
abbrev answer : ℕ → Selected
answer zero = no_event
answer (suc t) = writable

abbrev machine : System
machine = record {
  W = Machine;
  socket = λ w. (some 7, record w { sockets = 7 ∷ w.sockets });
  close = λ s w. record w { sockets = all_but_last w.sockets };
  ioctl = λ b s w. (true, w);
  connect = λ a s w. (false, w);
  would_block = λ w. true;
  select = λ s w. (answer w.time, record w { time = suc w.time });
  clock = λ w. w.time;
  recv = λ n s w. recv_one w.arrived w;
  send = λ bs s w. (some (length bs), w);
}

machine_ledger : Ledger machine
unfolding handles
machine_ledger = record {
  opens = λ w. w.sockets;
  opens-socket = λ w. refl;
  opens-close = λ s w xs e. ap all_but_last e;
  opens-ioctl = λ b s w. refl;
  opens-connect = λ a s w. refl;
  opens-select = λ s w. refl;
}

machine_recv : Recv machine
machine_recv = record {
  incoming = λ s w. w.arrived;
  recv_some = λ n s w pos there. reads n w.arrived w refl pos there;
  recv_end = λ n s w pos over. (w, inl (rw over refl));
}
  where
    reads :
        (n : ℕ) (bs : Bytes) (w : Machine)
        → w.arrived ≡ bs
        → 0 < n
        → 0 < length bs
        → (b : ℕ) × (cs : Bytes) × (w' : Machine) × (recv_one bs w ≡ (some (b ∷ cs), w'))
          × (bs ≡ (b ∷ cs) ++ w'.arrived)
          × (length (b ∷ cs) ≤ n)
    reads n [] w e pos there = absurd (omega (arith, there))
    reads n (b ∷ bs) w e pos there =
        (b, [], record w { arrived = bs }, refl, refl, omega (arith, pos))

abbrev idle : Machine
idle = record { sockets = 3 ∷ []; time = 0; arrived = 1 ∷ 2 ∷ 3 ∷ [] }

abbrev local_host : Address
local_host = record { hostname = []; ip_address = b'1' ∷ b'2' ∷ b'7' ∷ []; port = 6379 }

-- Two rounds at most.
machine_answers : Enough machine 5 (some 3)
unfolding Passes
machine_answers = λ s w. (2, omega arith, inr (inl writes))
  where
    writes : writable ≢ no_event
    writes h = cc

connect-Connects_example :
    Connects machine true machine_ledger local_host
      (3 ∷ [])
      (connect machine true 5 (some 3) local_host (new_socket_stream local_host) idle)
unfolding handles machine_ledger new_socket_stream
connect-Connects_example =
    connect-Connects machine true machine_ledger 5 (some 3) machine_answers local_host
      (new_socket_stream local_host) idle (3 ∷ []) refl

abbrev online : SocketStream
online = record { sock = some 3; address = local_host; last_socket_read_write_time = 0 }

socket_stream-Reads_example :
    Reads
      (socket_stream machine false)
      (arriving machine machine_recv)
      (split_bytes 2 (arriving machine machine_recv (online, idle)))
      (read_buffer_loop (socket_stream machine false) 4 2 (online, idle))
socket_stream-Reads_example =
    socket_stream-Reads machine machine_recv 4 2 (online, idle) (omega arith)
