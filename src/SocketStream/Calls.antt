-- ===== src/SocketStream/Calls.antt =====
-- What the operating system gives to a SocketStream.
use yarc.Base.{ℕ, ◌≡◌, Bool, Option, none, some, List, [], ◌∷◌, ◌++◌, Bytes}
use yarc.ClusterClient.Nodes.{Address}

-- What `select` says of a socket.
pub data Selected : Type 0 where
  select_error excepted writable no_event : Selected

-- The calls, on the state of the system. `socket`, `recv` and `send` have no value where they return
-- -1, the others say whether they succeed; `would_block` is the test of the error that they leave.
pub record System : Type 1 where
  pub W : Type 0
  pub socket : W → Option ℕ × W
  pub close : ℕ → W → W
  pub ioctl : (non_blocking : Bool) → ℕ → W → Bool × W
  pub connect : Address → ℕ → W → Bool × W
  pub would_block : W → Bool
  pub select : ℕ → W → Selected × W
  pub clock : W → ℕ
  pub recv : (buffer_size : ℕ) → ℕ → W → Option Bytes × W
  pub send : Bytes → ℕ → W → Option ℕ × W

unfoldable pub handles : Option ℕ → List ℕ
handles none = []
handles (some s) = s ∷ []

-- What the calls do to the sockets that are open, the last one first.
pub record Ledger (sys : System) : Type 0 where
  pub opens : sys.W → List ℕ
  pub opens-socket : (w : sys.W) → opens (sys.socket w).1 ≡ handles (sys.socket w).0 ++ opens w
  pub opens-close :
      (s : ℕ) (w : sys.W) (xs : List ℕ) → opens w ≡ s ∷ xs → opens (sys.close s w) ≡ xs
  pub opens-ioctl : (b : Bool) (s : ℕ) (w : sys.W) → opens (sys.ioctl b s w).1 ≡ opens w
  pub opens-connect : (a : Address) (s : ℕ) (w : sys.W) → opens (sys.connect a s w).1 ≡ opens w
  pub opens-select : (s : ℕ) (w : sys.W) → opens (sys.select s w).1 ≡ opens w
