-- ===== src/SocketStream/Incoming.antt =====
-- ReadBufferNow on a SocketStream of Linux reads what comes in on the socket.
use yarc.Base.{
  ℕ, ◌≤◌, ◌<◌, ◌≡◌, ◌⊎◌, refl, ap, sym, ◌∙◌, false, Option, inl, inr, none, some, [], ◌∷◌, ◌++◌,
  Bytes, length, arith,
}
use yarc.Protocol.Reader.{split_bytes}
use yarc.ByteStream.{read_buffer_loop}
use yarc.ByteStream.Chunks.{Delivers, Reads, read_buffer_loop-Reads}
use yarc.SocketStream.Calls.{System}
use yarc.SocketStream.{SocketStream, received, read_sock, socket_stream}

-- What `recv` reads of the bytes that the other side sends before it closes the connection: at least
-- one while there are some, and then none, or an error.
pub record Recv (sys : System) : Type 0 where
  pub incoming : ℕ → sys.W → Bytes
  pub recv_some :
      (n s : ℕ) (w : sys.W)
      → 0 < n
      → 0 < length (incoming s w)
      → (b : ℕ) × (bs : Bytes) × (w' : sys.W) × (sys.recv n s w ≡ (some (b ∷ bs), w'))
        × (incoming s w ≡ (b ∷ bs) ++ incoming s w')
        × (length (b ∷ bs) ≤ n)
  pub recv_end :
      (n s : ℕ) (w : sys.W)
      → 0 < n
      → incoming s w ≡ []
      → (w' : sys.W) × ((sys.recv n s w ≡ (none, w')) ⊎ (sys.recv n s w ≡ (some [], w')))

module _ (sys : System) (recv : Recv sys) where
  open sys use {W}

  unfoldable pub incoming_of : Option ℕ → W → Bytes
  incoming_of none w = []
  incoming_of (some s) w = recv.incoming s w

  unfoldable pub arriving : SocketStream × W → Bytes
  unfolding incoming_of
  arriving (st, w) = incoming_of st.sock w

  abbrev ReadsSome : ℕ → SocketStream → Option ℕ → W → Type 0
  ReadsSome n st sock w =
      (bs : Bytes) × (s' : SocketStream × W) × (read_sock sys false n st sock w
        ≡ (some bs, s'.0, s'.1))
      × (incoming_of sock w ≡ bs ++ arriving s')
      × (0 < length bs)
      × (length bs ≤ n)

  read_sock-some :
      (n : ℕ) (st : SocketStream) (sock : Option ℕ) (w : W)
      → st.sock ≡ sock
      → 0 < n
      → 0 < length (incoming_of sock w)
      → ReadsSome n st sock w
  unfolding read_sock received incoming_of arriving
  read_sock-some n st none w same pos there = absurd (omega (arith, there))
  read_sock-some n st (some s) w same pos there =
      let (b, bs, w', run, parts, fits) = recv.recv_some n s w pos there in
      let st' : SocketStream = record st { last_socket_read_write_time = sys.clock w' } in
      (
        b ∷ bs,
        (st', w'),
        rw run refl,
        parts ∙ ap (λ (o : Option ℕ). (b ∷ bs) ++ incoming_of o w') (sym same),
        omega arith,
        fits,
      )

  read_sock-none :
      (n : ℕ) (st : SocketStream) (sock : Option ℕ) (w : W)
      → 0 < n
      → incoming_of sock w ≡ []
      → (s' : SocketStream × W) × (read_sock sys false n st sock w ≡ (none, s'.0, s'.1))
  unfolding read_sock received incoming_of
  read_sock-none n st none w pos over = ((st, w), refl)
  read_sock-none n st (some s) w pos over =
      let (w', answer) = recv.recv_end n s w pos over in
      (
        (record st { sock = none }, w'),
        elim answer [ inl run ↦ rw run refl | inr run ↦ rw run refl ],
      )

  socket_stream-some :
      (n : ℕ) (s s' : SocketStream × W) (o : Option Bytes)
      → read_sock sys false n s.0 s.0.sock s.1 ≡ (o, s'.0, s'.1)
      → (socket_stream sys false).read_buffer n s ≡ (o, s')
  unfolding socket_stream
  socket_stream-some n s s' o run =
      ap (λ (r : Option Bytes × SocketStream × W). (r.0, (r.1, r.2))) run

  socket_stream-Delivers : Delivers (socket_stream sys false) arriving
  unfolding arriving
  socket_stream-Delivers = record {
    delivers_some = λ n s pos there.
        let (bs, s', run, parts, forward, fits) =
          read_sock-some n s.0 s.0.sock s.1 refl pos there in
        (bs, s', socket_stream-some n s s' (some bs) run, parts, forward, fits);
    delivers_none = λ n s pos over.
        let (s', run) = read_sock-none n s.0 s.0.sock s.1 pos over in
        (s', socket_stream-some n s s' none run);
  }

  -- On Linux, ReadBufferNow of a SocketStream, with more rounds than bytes asked for, gives what a
  -- split of the bytes that come in on its socket gives, or fails where there are too few or no
  -- socket is open.
  pub socket_stream-Reads :
      (fuel n : ℕ) (s : SocketStream × W)
      → n < fuel
      → Reads
          (socket_stream sys false)
          arriving
          (split_bytes n (arriving s))
          (read_buffer_loop (socket_stream sys false) fuel n s)
  socket_stream-Reads fuel n s enough =
      read_buffer_loop-Reads (socket_stream sys false) arriving socket_stream-Delivers fuel n s
        enough
