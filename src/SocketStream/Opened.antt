-- ===== src/SocketStream/Opened.antt =====
-- Connect opens one socket or none, and its loop ends.
use yarc.Base.{
  ℕ, zero, suc, ◌-◌, ◌<◌, ◌≡◌, ◌≢◌, ◌⊎◌, refl, ap, ◌∙◌, Bool, true, false, not, Option, inl, inr,
  none, some, List, ◌∷◌, ◌++◌, leb, leb→le, Bool-cases, if◌then◌else◌, arith,
}
use yarc.ClusterClient.Nodes.{Address}
use yarc.SocketStream.Calls.{
  Selected, System, Ledger, select_error, excepted, writable, no_event, handles,
}
use yarc.SocketStream.{
  SocketStream, is_connected, disconnect_sock, disconnect, selected, poll, blocking_again,
  wait_connected, connect_non_blocking, connect_sock, finish_connect, connect_opened,
  connect_closed, connect,
}

-- Within `n` calls of `select` on a socket one gives an answer, or at their end the clock has passed
-- the timeout, counted from `start`.
unfoldable pub Passes : (sys : System) → (timeout start s n : ℕ) → sys.W → Type 0
Passes sys timeout start s zero w = timeout < sys.clock w - start
Passes sys timeout start s (suc n) w =
    ((sys.select s w).0 ≢ no_event) ⊎ Passes sys timeout start s n (sys.select s w).1

-- A wait on a socket is over in fewer rounds than the fuel has, whenever it begins; without a timeout
-- there is no wait.
abbrev pub Enough : System → ℕ → Option ℕ → Type 0
Enough sys fuel none = Unit
Enough sys fuel (some timeout) =
    (s : ℕ) (w : sys.W) → (n : ℕ) × (n < fuel) × Passes sys timeout (sys.clock w) s n w

module _ (sys : System) (windows : Bool) (ledger : Ledger sys) where
  open sys use {W}
  open ledger use {opens}

  -- A run that ends with the sockets `ys` open.
  abbrev Ends : Option (Bool × W) → List ℕ → Type 0
  Ends o ys = (ok : Bool) × (w : W) × (o ≡ some (ok, w)) × (opens w ≡ ys)

  selected-Ends :
      (rest : Option (Bool × W)) (r : Selected × W) (ys : List ℕ)
      → opens r.1 ≡ ys
      → Ends rest ys
      → Ends (selected sys windows rest r) ys
  unfolding selected
  selected-Ends rest (select_error, w) ys e ends = (false, w, refl, e)
  selected-Ends rest (excepted, w) ys e ends = (false, w, refl, e)
  selected-Ends rest (writable, w) ys e ends = (true, w, refl, e)
  selected-Ends rest (no_event, w) ys e ends = ends

  answered-Ends :
      (rest : Option (Bool × W)) (r : Selected × W) (ys : List ℕ)
      → r.0 ≢ no_event
      → opens r.1 ≡ ys
      → Ends (selected sys windows rest r) ys
  unfolding selected
  answered-Ends rest (select_error, w) ys answered e = (false, w, refl, e)
  answered-Ends rest (excepted, w) ys answered e = (false, w, refl, e)
  answered-Ends rest (writable, w) ys answered e = (true, w, refl, e)
  answered-Ends rest (no_event, w) ys answered e = absurd (answered refl)

  poll-Ends :
      (timeout start n fuel elapsed s : ℕ) (w : W) (ys : List ℕ)
      → n < fuel
      → Passes sys timeout start s n w
      → elapsed ≡ sys.clock w - start
      → opens w ≡ ys
      → Ends (poll sys windows timeout start fuel elapsed s w) ys
  unfolding poll Passes
  poll-Ends timeout start n zero elapsed s w ys enough passes now e = absurd (omega (arith, enough))
  poll-Ends timeout start zero (suc fuel) elapsed s w ys enough passes now e =
      elim (Bool-cases (leb elapsed timeout)) [
        | inr late ↦ rw late (false, w, refl, e)
        | inl early ↦
            let bound = leb→le elapsed timeout early in absurd (omega (arith, now, bound, passes))
      ]
  poll-Ends timeout start (suc n) (suc fuel) elapsed s w ys enough passes now e =
      elim (Bool-cases (leb elapsed timeout)) [
        | inr late ↦ rw late (false, w, refl, e)
        | inl early ↦
            let r = sys.select s w in
            let kept = ledger.opens-select s w ∙ e in
            rw early (elim passes [
              | inl answered ↦ answered-Ends _ r ys answered kept
              | inr later ↦ selected-Ends _ r ys kept (
                  poll-Ends timeout start n fuel (sys.clock r.1 - start) s r.1 ys
                    (omega (arith, enough)) later refl kept)
            ])
      ]

  blocking_again-Ends :
      (s : ℕ) (o : Option (Bool × W)) (ys : List ℕ)
      → Ends o ys
      → Ends (blocking_again sys windows s o) ys
  unfolding blocking_again
  blocking_again-Ends s o ys (false, w, run, e) = rw run (false, w, refl, e)
  blocking_again-Ends s o ys (true, w, run, e) =
      let r = sys.ioctl false s w in rw run (r.0, r.1, refl, ledger.opens-ioctl false s w ∙ e)

  module _ (fuel : ℕ) where
    wait_connected-Ends :
        (timeout s : ℕ) (r : Bool × W) (ys : List ℕ)
        → Enough sys fuel (some timeout)
        → opens r.1 ≡ ys
        → Ends (wait_connected sys windows fuel timeout s r) ys
    unfolding wait_connected
    wait_connected-Ends timeout s (true, w) ys enough e = (false, w, refl, e)
    wait_connected-Ends timeout s (false, w) ys enough e =
        elim (Bool-cases (if windows then not (sys.would_block w) else sys.would_block w)) [
          | inl refused ↦ rw refused (false, w, refl, e)
          | inr begun ↦
              let (n, rounds, passes) = enough s w in
              rw begun (
                blocking_again-Ends s _ ys
                  (poll-Ends timeout (sys.clock w) n fuel 0 s w ys rounds passes (omega arith) e))
        ]

    connect_non_blocking-Ends :
        (timeout : ℕ) (address : Address) (s : ℕ) (r : Bool × W) (ys : List ℕ)
        → Enough sys fuel (some timeout)
        → opens r.1 ≡ ys
        → Ends (connect_non_blocking sys windows fuel timeout address s r) ys
    unfolding connect_non_blocking
    connect_non_blocking-Ends timeout address s (false, w) ys enough e = (false, w, refl, e)
    connect_non_blocking-Ends timeout address s (true, w) ys enough e =
        wait_connected-Ends timeout s (sys.connect address s w) ys enough
          (ledger.opens-connect address s w ∙ e)

    connect_sock-Ends :
        (timeout : Option ℕ) (address : Address) (s : ℕ) (w : W) (ys : List ℕ)
        → Enough sys fuel timeout
        → opens w ≡ ys
        → Ends (connect_sock sys windows fuel timeout address s w) ys
    unfolding connect_sock
    connect_sock-Ends none address s w ys enough e =
        let r = sys.connect address s w in (r.0, r.1, refl, ledger.opens-connect address s w ∙ e)
    connect_sock-Ends (some timeout) address s w ys enough e =
        connect_non_blocking-Ends timeout address s (sys.ioctl true s w) ys enough
          (ledger.opens-ioctl true s w ∙ e)

  -- The end of Connect, with the sockets `xs` open besides the one of the stream.
  abbrev pub Connects : Address → List ℕ → Option (Bool × SocketStream × W) → Type 0
  Connects address xs o =
      (ok : Bool) × (st : SocketStream) × (w : W) × (o ≡ some (ok, st, w))
      × (is_connected st ≡ ok)
      × (st.address ≡ address)
      × (opens w ≡ handles st.sock ++ xs)

  disconnect_sock-opens :
      (sock : Option ℕ) (w : W) (xs : List ℕ)
      → opens w ≡ handles sock ++ xs
      → opens (disconnect_sock sys windows sock w) ≡ xs
  unfolding disconnect_sock handles
  disconnect_sock-opens none w xs e = e
  disconnect_sock-opens (some s) w xs e = ledger.opens-close s w xs e

  fail-Connects :
      (st : SocketStream) (w : W) (xs : List ℕ)
      → opens w ≡ handles st.sock ++ xs
      → Connects st.address xs (finish_connect sys windows st (some (false, w)))
  unfolding finish_connect disconnect is_connected handles
  fail-Connects st w xs e = (
    false,
    record st { sock = none },
    disconnect_sock sys windows st.sock w,
    refl,
    refl,
    refl,
    disconnect_sock-opens st.sock w xs e,
  )

  finish_connect-Connects :
      (st : SocketStream) (s : ℕ) (o : Option (Bool × W)) (xs : List ℕ)
      → Ends o (s ∷ xs)
      → Connects st.address xs (finish_connect sys windows (record st { sock = some s }) o)
  unfolding finish_connect is_connected handles
  finish_connect-Connects st s o xs (true, w, run, e) =
      rw run (true, record st { sock = some s }, w, refl, refl, refl, e)
  finish_connect-Connects st s o xs (false, w, run, e) =
      rw run (fail-Connects (record st { sock = some s }) w xs e)

  module _ (fuel : ℕ) (timeout : Option ℕ) (enough : Enough sys fuel timeout) where
    connect_opened-Connects :
        (st : SocketStream) (r : Option ℕ × W) (xs : List ℕ)
        → opens r.1 ≡ handles r.0 ++ xs
        → Connects st.address xs (connect_opened sys windows fuel timeout st r)
    unfolding connect_opened handles
    connect_opened-Connects st (none, w) xs e = fail-Connects (record st { sock = none }) w xs e
    connect_opened-Connects st (some s, w) xs e =
        finish_connect-Connects st s _ xs
          (connect_sock-Ends fuel timeout st.address s w (s ∷ xs) enough e)

    connect_closed-Connects :
        (st : SocketStream) (sock : Option ℕ) (w : W) (xs : List ℕ)
        → st.sock ≡ sock
        → opens w ≡ handles sock ++ xs
        → Connects st.address xs (connect_closed sys windows fuel timeout st sock w)
    unfolding connect_closed handles
    connect_closed-Connects st none w xs same e =
        connect_opened-Connects st (sys.socket w) xs
          (ledger.opens-socket w ∙ ap (λ ys. handles (sys.socket w).0 ++ ys) e)
    connect_closed-Connects st (some s) w xs same e = fail-Connects st w xs (rw same e)

    -- Connect returns without a timeout, and with one if from every state fewer calls of select
    -- than the fuel give an answer on the socket or take the clock past the timeout. The stream
    -- then has the new address and is connected just where Connect returns true, and the sockets
    -- that are open are those of before with the one of the stream, so that none is lost.
    pub connect-Connects :
        (address : Address) (st : SocketStream) (w : W) (xs : List ℕ)
        → opens w ≡ handles st.sock ++ xs
        → Connects address xs (connect sys windows fuel timeout address st w)
    unfolding connect
    connect-Connects address st w xs e =
        connect_closed-Connects (record st { address = address }) st.sock w xs refl e
