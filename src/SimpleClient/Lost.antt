-- ===== src/SimpleClient/Lost.antt =====
-- Requests that a lost connection takes away stay counted as in flight.
use yarc.Base.{
  ℕ, suc, ◌+◌, ◌≤◌, ◌<◌, ◌≡◌, ◌≢◌, refl, arith, Bool, true, false, some, List, [], ◌∷◌, length,
  length-append, lt→ltb, Bool-cases, inl, inr,
}
use yarc.Protocol.Data.{Tree, payload}
use yarc.SimpleClient.{
  Request, Client, make_request_async, send_head, send_one, serve_head, serve_one, deliver_head,
  deliver_one, answer_head, receive, is_message, purge,
}
use yarc.SimpleClient.Steps.{
  Step, made, was_sent, received, was_served, delivered, purged, cancelled, status, counted, Steps,
  here, there, update-Steps,
}
use yarc.SimpleClient.Update.{World, update, flush}
use yarc.SimpleClient.Invariant.{IsValid, held}
use yarc.SimpleClient.Invariant.Cancel.{cancel_pass-some}

-- At least `k` of the requests in flight are in no list.
abbrev HasLost : ℕ → Client → Type 0
HasLost k c = held c + k ≤ c.num_requests_in_flight

module _ (k : ℕ) where
  send_head-HasLost :
      (us : List Request) (c : Client)
      → c.unsent_request_list ≡ us
      → HasLost k c
      → HasLost k (send_head us c)
  unfolding send_head
  send_head-HasLost [] c e h = h
  send_head-HasLost (r ∷ rs) c e h =
      let count : length c.unsent_request_list ≡ suc (length rs) = rw e in
      omega (arith, length-append c.sent_request_list (r ∷ []))

  answer_head-HasLost :
      (t : Tree) (ss : List Request) (c : Client)
      → c.sent_request_list ≡ ss
      → HasLost k c
      → HasLost k (answer_head t ss c)
  unfolding answer_head
  answer_head-HasLost t [] c e h = h
  answer_head-HasLost t (r ∷ rs) c e h =
      let count : length c.sent_request_list ≡ suc (length rs) = rw e in
      omega (arith, length-append c.served_request_list (record r { response_data = some t } ∷ []))

  receive-HasLost : (t : Tree) (c : Client) → HasLost k c → HasLost k (receive t c)
  unfolding receive
  receive-HasLost t c h = elim (Bool-cases (is_message (payload t))) [
    | inl e ↦ rw e h
    | inr e ↦ rw e (answer_head-HasLost t c.sent_request_list c refl h)
  ]

  serve_head-HasLost :
      (ss : List Request) (c : Client)
      → c.served_request_list ≡ ss
      → HasLost k c
      → HasLost k (serve_head ss c)
  unfolding serve_head
  serve_head-HasLost [] c e h = h
  serve_head-HasLost (r ∷ rs) c e h =
      let count : length c.served_request_list ≡ suc (length rs) = rw e in omega arith

  deliver_head-HasLost :
      (b : Bool) (ms : List Tree) (c : Client) → HasLost k c → HasLost k (deliver_head b ms c)
  unfolding deliver_head
  deliver_head-HasLost b [] c h = h
  deliver_head-HasLost b (m ∷ ms) c h = h

  Step-HasLost : {c d : Client} → Step c d → HasLost k c → HasLost k d
  unfolding send_one serve_one deliver_one make_request_async purge
  Step-HasLost {c = c} (made d f own) h = omega (arith, length-append c.unsent_request_list)
  Step-HasLost {c = c} was_sent h = send_head-HasLost c.unsent_request_list c refl h
  Step-HasLost {c = c} (received t) h = receive-HasLost t c h
  Step-HasLost {c = c} (was_served some_served) h =
      serve_head-HasLost c.served_request_list c refl h
  Step-HasLost {c = c} (delivered b) h = deliver_head-HasLost b c.message_list c h
  Step-HasLost {c = c} (purged running) h = omega arith
  Step-HasLost {c = c} (cancelled id e) h = (cancel_pass-some id c _ e).1 k h
  Step-HasLost (status waiting socket_stream thread) h = h
  Step-HasLost counted h = h

  Steps-HasLost : {c d : Client} → Steps c d → HasLost k c → HasLost k d
  Steps-HasLost here h = h
  Steps-HasLost (there steps s) h = Step-HasLost s (Steps-HasLost steps h)

-- When a valid client loses its connection, the count of requests in flight is never again below
-- the number of requests that were sent and not answered by then.
pub purge-Lost :
    (running : Bool) (c d : Client)
    → IsValid c
    → Steps (purge running c) d
    → length c.sent_request_list ≤ d.num_requests_in_flight
unfolding purge
purge-Lost running c d v steps =
    let lost : HasLost (length c.sent_request_list) d =
      Steps-HasLost (length c.sent_request_list) steps (omega (arith, v.in_flight)) in
    omega arith

abbrev Reenters : List (World × Bool) → Type 0
Reenters [] = Unit
Reenters ((w, time_out) ∷ later) = ((c : Client) → Steps c (w.post_connect c)) × Reenters later

flush-HasLost :
    (rounds : List (World × Bool)) (c : Client)
    → Reenters rounds
    → HasLost 1 c
    → flush rounds c ≢ some true
unfolding flush
flush-HasLost [] c r h = rw (lt→ltb 0 c.num_requests_in_flight (omega arith)) cc
flush-HasLost ((w, true) ∷ later) c r h = rw (lt→ltb 0 c.num_requests_in_flight (omega arith)) cc
flush-HasLost ((w, false) ∷ later) c r h =
    rw (lt→ltb 0 c.num_requests_in_flight (omega arith))
      (flush-HasLost later (update w c).1 r.1 (Steps-HasLost 1 (update-Steps w r.0 c) h))

-- Flush never returns true again, however many rounds it makes and whatever steps were taken in
-- between, once a valid client loses its connection with a request sent and not answered.
pub flush-purge :
    (running : Bool) (c d : Client) (rounds : List (World × Bool))
    → IsValid c
    → 0 < length c.sent_request_list
    → Steps (purge running c) d
    → Reenters rounds
    → flush rounds d ≢ some true
unfolding purge
flush-purge running c d rounds v pos steps r =
    flush-HasLost rounds d r (Steps-HasLost 1 steps (omega (arith, v.in_flight)))
