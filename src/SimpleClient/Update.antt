-- ===== src/SimpleClient/Update.antt =====
-- Update and Flush of SimpleClient, from the rounds of their loops.
use yarc.Base.{
  ℕ, zero, suc, Bool, true, false, ◌&&◌, not, Option, none, some, List, [], ◌∷◌, ltb, if◌then◌else◌,
  length,
}
use yarc.SimpleClient.{Client, send_one, serve_one, deliver_one, purge}

-- What a call of Update finds around it: whether the wait between connection attempts is over, the
-- pool gives a stream, the stream is connected, the thread can be spawned and is still running,
-- whether a callback for pushed data is registered, and what the callback on a new connection does.
pub record World : Type 0 where
  pub retry_elapsed : Bool
  pub checkout : Bool
  pub connected : Bool
  pub spawned : Bool
  pub running : Bool
  pub push_callback : Bool
  pub post_connect : Client → Client

-- The loops. Each has a round for every element of its list, or count of the semaphore, at its
-- start, where no other thread adds to these.
unfoldable pub send_loop : ℕ → Client → Client
unfolding send_one
send_loop zero c = c
send_loop (suc n) c = send_loop n (send_one c)

unfoldable pub serve_loop : ℕ → Client → Client
unfolding serve_one
serve_loop zero c = c
serve_loop (suc n) c =
    if ltb 0 c.num_requests_in_flight && ltb 0 c.served_request_list_semaphore
    then serve_loop n (serve_one c)
    else c

unfoldable pub deliver_loop : Bool → ℕ → Client → Client
unfolding deliver_one
deliver_loop push_callback zero c = c
deliver_loop push_callback (suc n) c = deliver_loop push_callback n (deliver_one push_callback c)

-- The part of Update behind its early returns.
unfoldable pub pump : World → Client → Client
unfolding send_loop serve_loop deliver_loop
pump w c =
    let sent = send_loop (length c.unsent_request_list) c in
    let served = serve_loop sent.served_request_list_semaphore sent in
    deliver_loop w.push_callback (length served.message_list) served

unfoldable pub update_running : World → Client → Bool × Client
unfolding pump
update_running w c = if w.running then (true, pump w c) else (false, record c { thread = false })

unfoldable pub update_thread : World → Client → Bool × Client
unfolding update_running
update_thread w c =
    if c.thread
    then update_running w c
    else if w.spawned
    then update_running w (record c { thread = true })
    else (false, c)

unfoldable pub update_connected : World → Client → Bool × Client
unfolding update_thread purge
update_connected w c = if w.connected then update_thread w c else (false, purge w.running c)

unfoldable pub update_socket : World → Client → Bool × Client
unfolding update_connected
update_socket w c =
    if c.socket_stream
    then update_connected w c
    else if w.checkout
    then (let c' : Client = record c { socket_stream = true } in
        update_connected w (if w.connected then w.post_connect c' else c'))
    else (false, record c { waiting = true })

unfoldable pub update : World → Client → Bool × Client
unfolding update_socket
update w c =
    if c.waiting && not w.retry_elapsed
    then (false, c)
    else update_socket w (record c { waiting = false })

-- The rounds of Flush: each finds a world, and whether the time is over after its call of Update.
-- There is no value where the rounds end before the loop does.
unfoldable pub flush : List (World × Bool) → Client → Option Bool
unfolding update
flush [] c = if ltb 0 c.num_requests_in_flight then none else some true
flush ((w, time_out) ∷ later) c =
    let rest = flush later (update w c).1 in
    if ltb 0 c.num_requests_in_flight then (if time_out then some false else rest) else some true
