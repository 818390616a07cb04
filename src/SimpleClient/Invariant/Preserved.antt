-- ===== src/SimpleClient/Invariant/Preserved.antt =====
-- Every whole step of a client keeps the invariant.
use yarc.Base.{◌+◌, refl, arith, ltb→lt}
use yarc.SimpleClient.{Client, send_one, serve_one, deliver_one}
use yarc.SimpleClient.Steps.{
  Step, made, was_sent, received, was_served, delivered, purged, cancelled, status, counted, Steps,
  here, there,
}
use yarc.SimpleClient.Update.{World, update}
use yarc.SimpleClient.Steps.{update-Steps}
use yarc.SimpleClient.Invariant.{
  IsValid, make_request_async-IsValid, send_head-IsValid, receive-IsValid, serve_head-IsValid,
  deliver_head-IsValid, purge-IsValid, elsewhere, Ascends-raise,
}
use yarc.SimpleClient.Invariant.Cancel.{cancel_pass-some}

Step-IsValid : {c d : Client} → Step c d → IsValid c → IsValid d
unfolding send_one serve_one deliver_one
Step-IsValid {c = c} (made d f own) v = make_request_async-IsValid d f own c v
Step-IsValid {c = c} was_sent v = send_head-IsValid c.unsent_request_list c refl v
Step-IsValid {c = c} (received t) v = receive-IsValid t c v
Step-IsValid {c = c} (was_served some_served) v =
    serve_head-IsValid c.served_request_list c refl
      (ltb→lt 0 c.served_request_list_semaphore some_served) v
Step-IsValid {c = c} (delivered b) v = deliver_head-IsValid b c.message_list c v
Step-IsValid {c = c} (purged running) v = purge-IsValid running c v
Step-IsValid {c = c} (cancelled id e) v = (cancel_pass-some id c _ e).0 v
Step-IsValid {c = c} (status waiting socket_stream thread) v =
    elsewhere c waiting socket_stream thread c.message_list c.push_calls v
Step-IsValid {c = c} counted v = record {
  served_below = v.served_below;
  sent_below = v.sent_below;
  served_ascends = v.served_ascends;
  sent_ascends = v.sent_ascends;
  unsent_ascends =
      Ascends-raise v.sent_below c.next_request_id (c.next_request_id + 1) c.unsent_request_list
        (omega arith) v.unsent_ascends;
  semaphore_counts = v.semaphore_counts;
  in_flight = v.in_flight;
}

-- A client stays valid in a sequence of whole steps.
pub Steps-IsValid : {c d : Client} → Steps c d → IsValid c → IsValid d
Steps-IsValid here v = v
Steps-IsValid (there steps s) v = Step-IsValid s (Steps-IsValid steps v)

-- A call of Update keeps a client valid, if the callback on a new connection does nothing but
-- steps.
pub update-IsValid :
    (w : World)
    → ((c : Client) → Steps c (w.post_connect c))
    → (c : Client) → IsValid c
    → IsValid (update w c).1
update-IsValid w reenters c v = Steps-IsValid (update-Steps w reenters c) v
