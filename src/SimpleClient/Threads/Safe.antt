-- ===== src/SimpleClient/Threads/Safe.antt =====
-- The threads of a client keep its lists and its semaphore consistent.
use yarc.Base.{
  ℕ, suc, ◌≤◌, ◌<◌, ◌≡◌, refl, Bool, true, false, List, [], ◌∷◌, ◌++◌, length, length-append,
  ltb→lt, arith,
}
use yarc.Protocol.Data.{Tree}
use yarc.SimpleClient.{Request, Client, send_one, deliver_one}
use yarc.SimpleClient.Invariant.{Ascends, Ascends-weaken, Ascends-snoc}
use yarc.SimpleClient.Threads.{
  Reception, parsing, took, added, Threads, start, decrement, pop_served, add_message, set_response,
  add_served, increment, Move, made, was_sent, decremented, popped, delivered, purged,
  cancelled_unsent, silenced_sent, silenced_served, counted, status, got_message, got_response,
  was_added, incremented, Moves, here, there,
}
use yarc.SimpleClient.Threads.Consistent.{
  one_if, IsConsistent, start-IsConsistent, made-IsConsistent, send_head-IsConsistent, elsewhere,
  deliver_head-IsConsistent, purge-IsConsistent,
}
use yarc.SimpleClient.Threads.Silenced.{
  cancelled_unsent-IsConsistent, silenced_sent-IsConsistent, silenced_served-IsConsistent,
  counted-IsConsistent,
}

decrement-IsConsistent :
    (p : Reception) (c : Client)
    → 0 < c.served_request_list_semaphore
    → IsConsistent c p false
    → IsConsistent (decrement c) p true
unfolding decrement
decrement-IsConsistent p c pos v = record {
  served_below = v.served_below;
  taken_below = v.taken_below;
  sent_below = v.sent_below;
  served_ascends = v.served_ascends;
  taken_ascends = v.taken_ascends;
  sent_ascends = v.sent_ascends;
  unsent_ascends = v.unsent_ascends;
  semaphore_counts = omega (arith, pos, v.semaphore_counts);
  in_flight = v.in_flight;
}

-- RemoveHead behind a Decrement finds a request.
pop_served-IsConsistent :
    (p : Reception) (ss : List Request) (c : Client)
    → c.served_request_list ≡ ss
    → IsConsistent c p true
    → IsConsistent (pop_served ss c) p false
unfolding pop_served
pop_served-IsConsistent p [] c e v =
    let none_served : length c.served_request_list ≡ 0 = rw e in
    absurd (omega (arith, none_served, v.semaphore_counts))
pop_served-IsConsistent p (r ∷ rs) c e v =
    let order : Ascends 0 (r ∷ rs) v.served_below = rw e at v.served_ascends in
    let some_served : length c.served_request_list ≡ suc (length rs) = rw e in
    record {
      served_below = v.served_below;
      taken_below = v.taken_below;
      sent_below = v.sent_below;
      served_ascends = Ascends-weaken (suc r.request_id) 0 v.served_below rs (omega arith) order.1;
      taken_ascends = v.taken_ascends;
      sent_ascends = v.sent_ascends;
      unsent_ascends = v.unsent_ascends;
      semaphore_counts = omega (arith, some_served, v.semaphore_counts);
      in_flight = omega (arith, some_served, v.in_flight);
    }

got_response-IsConsistent :
    (t : Tree) (r : Request) (rs : List Request) (serving : Bool) (c : Client)
    → c.sent_request_list ≡ r ∷ rs
    → IsConsistent c parsing serving
    → IsConsistent (record c { sent_request_list = rs }) (took (set_response t r)) serving
unfolding set_response
got_response-IsConsistent t r rs serving c e v =
    let order : Ascends v.taken_below (r ∷ rs) v.sent_below = rw e at v.sent_ascends in
    let count : length c.sent_request_list ≡ suc (length rs) = rw e in
    record {
      served_below = v.served_below;
      taken_below = suc r.request_id;
      sent_below = v.sent_below;
      served_ascends = v.served_ascends;
      taken_ascends = (omega (arith, order.0, v.taken_ascends), omega arith);
      sent_ascends = order.1;
      unsent_ascends = v.unsent_ascends;
      semaphore_counts = v.semaphore_counts;
      in_flight = omega (arith, count, v.in_flight);
    }

add_served-IsConsistent :
    (r : Request) (serving : Bool) (c : Client)
    → IsConsistent c (took r) serving
    → IsConsistent (add_served r c) added serving
unfolding add_served
add_served-IsConsistent r serving c v =
    let more = length-append c.served_request_list (r ∷ []) in
    record {
      served_below = suc r.request_id;
      taken_below = v.taken_below;
      sent_below = v.sent_below;
      served_ascends =
          Ascends-snoc 0 v.served_below c.served_request_list r v.served_ascends v.taken_ascends.0;
      taken_ascends = v.taken_ascends.1;
      sent_ascends = v.sent_ascends;
      unsent_ascends = v.unsent_ascends;
      semaphore_counts = omega (arith, more, v.semaphore_counts);
      in_flight = omega (arith, more, v.in_flight);
    }

increment-IsConsistent :
    (serving : Bool) (c : Client)
    → IsConsistent c added serving
    → IsConsistent (increment c) parsing serving
unfolding increment
increment-IsConsistent serving c v = record {
  served_below = v.served_below;
  taken_below = v.taken_below;
  sent_below = v.sent_below;
  served_ascends = v.served_ascends;
  taken_ascends = v.taken_ascends;
  sent_ascends = v.sent_ascends;
  unsent_ascends = v.unsent_ascends;
  semaphore_counts = omega (arith, v.semaphore_counts);
  in_flight = v.in_flight;
}

abbrev pub AreConsistent : Threads → Type 0
AreConsistent s = IsConsistent s.client s.reception s.serving

Move-AreConsistent : {s t : Threads} → Move s t → AreConsistent s → AreConsistent t
unfolding send_one deliver_one add_message
Move-AreConsistent {s = s} (made d f own) v =
    made-IsConsistent s.reception s.serving d f own s.client v
Move-AreConsistent {s = s} was_sent v =
    send_head-IsConsistent s.reception s.serving s.client.unsent_request_list s.client refl v
Move-AreConsistent {s = s} (decremented idle some_served) v =
    decrement-IsConsistent s.reception s.client
      (ltb→lt 0 s.client.served_request_list_semaphore some_served) (rw idle at v)
Move-AreConsistent {s = s} (popped busy) v =
    pop_served-IsConsistent s.reception s.client.served_request_list s.client refl (rw busy at v)
Move-AreConsistent {s = s} (delivered callback) v =
    deliver_head-IsConsistent s.reception s.serving callback s.client.message_list s.client v
Move-AreConsistent {s = s} (purged running idle) v =
    purge-IsConsistent s.reception s.serving running s.client v
Move-AreConsistent {s = s} (cancelled_unsent id rs e) v =
    cancelled_unsent-IsConsistent s.reception s.serving id rs s.client e v
Move-AreConsistent {s = s} (silenced_sent id rs e) v =
    silenced_sent-IsConsistent s.reception s.serving id rs s.client e v
Move-AreConsistent {s = s} (silenced_served id rs e) v =
    silenced_served-IsConsistent s.reception s.serving id rs s.client e v
Move-AreConsistent {s = s} counted v = counted-IsConsistent s.reception s.serving s.client v
Move-AreConsistent {s = s} (status waiting socket_stream thread) v =
    elsewhere s.reception s.serving s.client waiting socket_stream thread s.client.message_list
      s.client.push_calls v
Move-AreConsistent {s = s} (got_message t idle message) v =
    elsewhere s.reception s.serving s.client s.client.waiting s.client.socket_stream s.client.thread
      (s.client.message_list ++ t ∷ []) s.client.push_calls v
Move-AreConsistent {s = s} (got_response t r rs idle response e) v =
    got_response-IsConsistent t r rs s.serving s.client e (rw idle at v)
Move-AreConsistent {s = s} (was_added r e) v =
    add_served-IsConsistent r s.serving s.client (rw e at v)
Move-AreConsistent {s = s} (incremented e) v = increment-IsConsistent s.serving s.client (rw e at v)

serving_lem :
    (s : Threads) → AreConsistent s → one_if s.serving ≤ length s.client.served_request_list
serving_lem s v = omega (arith, v.semaphore_counts)

-- In every state that the thread of the application and that of ThreadFunc reach from a new client,
-- in any order of their single operations on its lists and its semaphore and where only one thread
-- of the application uses the client: the requests stand in the order in which they were made, the
-- one that ThreadFunc holds between two lists included, the semaphore counts the served requests
-- but for an Increment to come and a Decrement whose request is not taken yet, the requests in
-- flight are all that the client holds at least, and a Decrement that succeeded finds a request in
-- the served list.
pub Moves-AreConsistent :
    (next : ℕ) {s : Threads}
    → Moves (start next) s
    → AreConsistent s × (one_if s.serving ≤ length s.client.served_request_list)
unfolding start
Moves-AreConsistent next moves = let v = kept moves in (v, serving_lem _ v)
  where
    kept : {s : Threads} → Moves (start next) s → AreConsistent s
    kept here = start-IsConsistent next
    kept (there moves m) = Move-AreConsistent m (kept moves)
