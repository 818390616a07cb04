-- ===== src/SimpleClient/Steps.antt =====
-- The whole steps of a client, one after the other: a call of MakeRequestAsync, a round of a loop or
-- a pass of CancelAsyncRequest, of which none begins before the one before it is over. Threads splits
-- the rounds that the application and ThreadFunc may run at the same time.
use yarc.Base.{
  ℕ, zero, suc, ◌+◌, ◌≡◌, refl, inl, inr, Bool, true, false, ◌&&◌, not, some, ltb, if◌then◌else◌,
  length, Bool-cases,
}
use yarc.Protocol.Data.{Tree}
use yarc.SimpleClient.{
  Client, Callback, make_request_async, send_one, receive, serve_one, deliver_one, purge,
  cancel_pass,
}
use yarc.SimpleClient.Update.{
  World, send_loop, serve_loop, deliver_loop, pump, update_running, update_thread, update_connected,
  update_socket, update,
}

pub data Step (c : Client) : Client → Type 0 where
  made : (d : Tree) (f : Callback) (own : Bool) → Step c (make_request_async d f own c).1
  was_sent : Step c (send_one c)
  received : (t : Tree) → Step c (receive t c)
  was_served : ltb 0 c.served_request_list_semaphore ≡ true → Step c (serve_one c)
  delivered : (callback : Bool) → Step c (deliver_one callback c)
  purged : (running : Bool) → Step c (purge running c)
  cancelled : {c' : Client} (id : ℕ) → cancel_pass id c ≡ some c' → Step c c'
  -- the connection's and the thread's pointers, and the time of the last attempt
  status :
      (waiting socket_stream thread : Bool)
      → Step c (record c { waiting = waiting; socket_stream = socket_stream; thread = thread })
  -- a request of another client
  counted : Step c (record c { next_request_id = c.next_request_id + 1 })

pub data Steps (c : Client) : Client → Type 0 where
  here : Steps c c
  there : {d e : Client} → Steps c d → Step d e → Steps c e

pub Steps-trans : {c d e : Client} → Steps c d → Steps d e → Steps c e
Steps-trans before here = before
Steps-trans before (there after s) = there (Steps-trans before after) s

one : {c d : Client} → Step c d → Steps c d
one s = there here s

send_loop-Steps : (n : ℕ) (c : Client) → Steps c (send_loop n c)
unfolding send_loop
send_loop-Steps zero c = here
send_loop-Steps (suc n) c = Steps-trans (one was_sent) (send_loop-Steps n (send_one c))

deliver_loop-Steps : (callback : Bool) (n : ℕ) (c : Client) → Steps c (deliver_loop callback n c)
unfolding deliver_loop
deliver_loop-Steps callback zero c = here
deliver_loop-Steps callback (suc n) c =
    Steps-trans (one (delivered callback)) (deliver_loop-Steps callback n (deliver_one callback c))

&&-fst : (a b : Bool) → (a && b) ≡ true → a ≡ true
&&-fst true b h = refl
&&-fst false b h = absurd (cc)

&&-snd : (a b : Bool) → (a && b) ≡ true → b ≡ true
&&-snd true b h = h
&&-snd false b h = absurd (cc)

serve_loop-Steps : (n : ℕ) (c : Client) → Steps c (serve_loop n c)
unfolding serve_loop
serve_loop-Steps zero c = here
serve_loop-Steps (suc n) c = elim (Bool-cases test) [
  | inl e ↦ rw e (
      Steps-trans (one (was_served (&&-snd (ltb 0 c.num_requests_in_flight) _ e)))
        (serve_loop-Steps n (serve_one c)))
  | inr e ↦ rw e here
]
  where
    test : Bool
    test = ltb 0 c.num_requests_in_flight && ltb 0 c.served_request_list_semaphore

module _ (w : World) where
  pump-Steps : (c : Client) → Steps c (pump w c)
  unfolding pump
  pump-Steps c = Steps-trans (send_loop-Steps (length c.unsent_request_list) c) (
      Steps-trans (serve_loop-Steps sent.served_request_list_semaphore sent)
        (deliver_loop-Steps w.push_callback (length served.message_list) served))
    where
      sent : Client
      sent = send_loop (length c.unsent_request_list) c

      served : Client
      served = serve_loop sent.served_request_list_semaphore sent

  choose :
      (b : Bool) {c : Client} (x y : Bool × Client)
      → Steps c x.1
      → Steps c y.1
      → Steps c (if b then x else y).1
  choose true x y hx hy = hx
  choose false x y hx hy = hy

  update_running-Steps : (c : Client) → Steps c (update_running w c).1
  unfolding update_running
  update_running-Steps c =
      choose w.running _ _ (pump-Steps c) (one (status c.waiting c.socket_stream false))

  update_thread-Steps : (c : Client) → Steps c (update_thread w c).1
  unfolding update_thread
  update_thread-Steps c = choose c.thread _ _ (update_running-Steps c) (
      choose w.spawned _ _
        (Steps-trans (one (status c.waiting c.socket_stream true))
          (update_running-Steps (record c { thread = true })))
        here)

  update_connected-Steps : (c : Client) → Steps c (update_connected w c).1
  unfolding update_connected
  update_connected-Steps c = choose w.connected _ _ (update_thread-Steps c) (one (purged w.running))

  module _ (reenters : (c : Client) → Steps c (w.post_connect c)) where
    after_connect : (c : Client) → Steps c (if w.connected then w.post_connect c else c)
    after_connect c = elim (Bool-cases w.connected) [
      | inl e ↦ rw e (reenters c)
      | inr e ↦ rw e here
    ]

    update_socket-Steps : (c : Client) → Steps c (update_socket w c).1
    unfolding update_socket
    update_socket-Steps c = choose c.socket_stream _ _ (update_connected-Steps c) (
        choose w.checkout _ _
          (Steps-trans (one (status c.waiting true c.thread)) (
            Steps-trans (after_connect (record c { socket_stream = true })) (
              update_connected-Steps (
                if w.connected
                then w.post_connect (record c { socket_stream = true })
                else record c { socket_stream = true }))))
          (one (status true c.socket_stream c.thread)))

    -- A call of Update, which no other thread interrupts, is a sequence of such steps, if the
    -- callback on a new connection is.
    pub update-Steps : (c : Client) → Steps c (update w c).1
    unfolding update
    update-Steps c = choose (c.waiting && not w.retry_elapsed) _ _ here (
        Steps-trans (one (status false c.socket_stream c.thread))
          (update_socket-Steps (record c { waiting = false })))
