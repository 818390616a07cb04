-- ===== src/SimpleClient/Invariant.antt =====
-- What holds of a client's lists at every time.
pub mod Cancel
pub mod Preserved
use yarc.Base.{
  ℕ, zero, suc, ◌+◌, ◌-◌, ◌≤◌, ◌<◌, ◌≡◌, refl, Bool, true, false, ◌&&◌, not, Option, none, some,
  List, [], ◌∷◌, ◌++◌, ltb, ltb→lt, if◌then◌else◌, length, length-append, arith, ◌==◌, Bool-cases,
  Option-cases, inl, inr,
}
use yarc.Protocol.Data.{Tree, payload}
use yarc.SimpleClient.{
  Request, Client, Callback, new_client, make_request_async, send_head, send_one, answer_head,
  receive, serve_head, serve_one, deliver_head, deliver_one, purge, cancel_pass, remove_request,
  silence_request, is_message,
}
use yarc.SimpleClient.Steps.{
  Step, made, was_sent, received, was_served, delivered, purged, cancelled, status, counted, Steps,
  here, there,
}

-- The ids ascend from `lo` and stay below `hi`.
abbrev pub Ascends : ℕ → List Request → ℕ → Type 0
Ascends lo [] hi = lo ≤ hi
Ascends lo (r ∷ rs) hi = (lo ≤ r.request_id) × Ascends (suc r.request_id) rs hi

pub Ascends-le : (lo hi : ℕ) (rs : List Request) → Ascends lo rs hi → lo ≤ hi
Ascends-le lo hi [] h = h
Ascends-le lo hi (r ∷ rs) h = omega (arith, Ascends-le (suc r.request_id) hi rs h.1)

pub Ascends-weaken :
    (lo lo' hi : ℕ) (rs : List Request) → lo' ≤ lo → Ascends lo rs hi → Ascends lo' rs hi
Ascends-weaken lo lo' hi [] le h = omega arith
Ascends-weaken lo lo' hi (r ∷ rs) le h = (omega arith, h.1)

pub Ascends-raise :
    (lo hi hi' : ℕ) (rs : List Request) → hi ≤ hi' → Ascends lo rs hi → Ascends lo rs hi'
Ascends-raise lo hi hi' [] le h = omega arith
Ascends-raise lo hi hi' (r ∷ rs) le h = (h.0, Ascends-raise (suc r.request_id) hi hi' rs le h.1)

pub Ascends-snoc :
    (lo hi : ℕ) (rs : List Request) (r : Request)
    → Ascends lo rs hi
    → hi ≤ r.request_id
    → Ascends lo (rs ++ r ∷ []) (suc r.request_id)
Ascends-snoc lo hi [] r h le = (omega arith, omega arith)
Ascends-snoc lo hi (x ∷ xs) r h le = (h.0, Ascends-snoc (suc x.request_id) hi xs r h.1 le)

-- What is in the lists.
abbrev pub held : Client → ℕ
held c = length c.served_request_list + length c.sent_request_list + length c.unsent_request_list

-- The requests stand in the order in which they were made, the served ones first and the unsent
-- ones last; the semaphore counts the served ones, and the requests in flight are all of these at
-- least.
pub record IsValid (c : Client) : Type 0 where
  pub served_below : ℕ
  pub sent_below : ℕ
  pub served_ascends : Ascends 0 c.served_request_list served_below
  pub sent_ascends : Ascends served_below c.sent_request_list sent_below
  pub unsent_ascends : Ascends sent_below c.unsent_request_list c.next_request_id
  pub semaphore_counts : c.served_request_list_semaphore ≡ length c.served_request_list
  pub in_flight : held c ≤ c.num_requests_in_flight

pub new_client-IsValid : (next : ℕ) → IsValid (new_client next)
unfolding new_client
new_client-IsValid next = record {
  served_below = 0;
  sent_below = 0;
  served_ascends = omega arith;
  sent_ascends = omega arith;
  unsent_ascends = omega arith;
  semaphore_counts = refl;
  in_flight = omega arith;
}

pub make_request_async-IsValid :
    (d : Tree) (f : Callback) (own : Bool) (c : Client)
    → IsValid c
    → IsValid (make_request_async d f own c).1
unfolding make_request_async
make_request_async-IsValid d f own c v = record {
  served_below = v.served_below;
  sent_below = v.sent_below;
  served_ascends = v.served_ascends;
  sent_ascends = v.sent_ascends;
  unsent_ascends =
      Ascends-raise v.sent_below (suc c.next_request_id) (c.next_request_id + 1) _ (omega arith) (
        Ascends-snoc v.sent_below c.next_request_id c.unsent_request_list _ v.unsent_ascends
          (omega arith));
  semaphore_counts = v.semaphore_counts;
  in_flight = omega (arith, length-append c.unsent_request_list, v.in_flight);
}

pub send_head-IsValid :
    (us : List Request) (c : Client)
    → c.unsent_request_list ≡ us
    → IsValid c
    → IsValid (send_head us c)
unfolding send_head
send_head-IsValid [] c e v = v
send_head-IsValid (r ∷ rs) c e v =
    let order : Ascends v.sent_below (r ∷ rs) c.next_request_id = rw e at v.unsent_ascends in
    let count : held c
        ≡ length c.served_request_list + length c.sent_request_list + suc (length rs) =
      rw e in
    record {
      served_below = v.served_below;
      sent_below = suc r.request_id;
      served_ascends = v.served_ascends;
      sent_ascends =
          Ascends-snoc v.served_below v.sent_below c.sent_request_list r v.sent_ascends order.0;
      unsent_ascends = order.1;
      semaphore_counts = v.semaphore_counts;
      in_flight = omega (arith, length-append c.sent_request_list (r ∷ []), v.in_flight, count);
    }

answer_head-IsValid :
    (t : Tree) (ss : List Request) (c : Client)
    → c.sent_request_list ≡ ss
    → IsValid c
    → IsValid (answer_head t ss c)
unfolding answer_head
answer_head-IsValid t [] c e v = v
answer_head-IsValid t (r ∷ rs) c e v =
    let order : Ascends v.served_below (r ∷ rs) v.sent_below = rw e at v.sent_ascends in
    let count : held c
        ≡ length c.served_request_list + suc (length rs) + length c.unsent_request_list =
      rw e in
    let more = length-append c.served_request_list (record r { response_data = some t } ∷ []) in
    record {
      served_below = suc r.request_id;
      sent_below = v.sent_below;
      served_ascends =
          Ascends-snoc 0 v.served_below c.served_request_list (record r { response_data = some t })
            v.served_ascends order.0;
      sent_ascends = order.1;
      unsent_ascends = v.unsent_ascends;
      semaphore_counts = omega (arith, more, v.semaphore_counts);
      in_flight = omega (arith, more, v.in_flight, count);
    }

-- What the other fields hold makes no difference.
pub elsewhere :
    (c : Client) (waiting socket_stream thread : Bool) (ms pushed : List Tree)
    → IsValid c
    → IsValid (record c {
      waiting = waiting;
      socket_stream = socket_stream;
      thread = thread;
      message_list = ms;
      push_calls = pushed;
    })
elsewhere c waiting socket_stream thread ms pushed v = record {
  served_below = v.served_below;
  sent_below = v.sent_below;
  served_ascends = v.served_ascends;
  sent_ascends = v.sent_ascends;
  unsent_ascends = v.unsent_ascends;
  semaphore_counts = v.semaphore_counts;
  in_flight = v.in_flight;
}

pub receive-IsValid : (t : Tree) (c : Client) → IsValid c → IsValid (receive t c)
unfolding receive
receive-IsValid t c v = elim (Bool-cases (is_message (payload t))) [
  | inl e ↦
      rw e
        (elsewhere c c.waiting c.socket_stream c.thread (c.message_list ++ t ∷ []) c.push_calls v)
  | inr e ↦ rw e (answer_head-IsValid t c.sent_request_list c refl v)
]

pub serve_head-IsValid :
    (ss : List Request) (c : Client)
    → c.served_request_list ≡ ss
    → 0 < c.served_request_list_semaphore
    → IsValid c
    → IsValid (serve_head ss c)
unfolding serve_head
serve_head-IsValid [] c e pos v =
    let none_served : length c.served_request_list ≡ 0 = rw e in
    absurd (omega (arith, v.semaphore_counts))
serve_head-IsValid (r ∷ rs) c e pos v =
    let order : Ascends 0 (r ∷ rs) v.served_below = rw e at v.served_ascends in
    let some_served : length c.served_request_list ≡ suc (length rs) = rw e in
    record {
      served_below = v.served_below;
      sent_below = v.sent_below;
      served_ascends = Ascends-weaken (suc r.request_id) 0 v.served_below rs (omega arith) order.1;
      sent_ascends = v.sent_ascends;
      unsent_ascends = v.unsent_ascends;
      semaphore_counts = omega (arith, v.semaphore_counts);
      in_flight = omega (arith, v.in_flight);
    }

pub deliver_head-IsValid :
    (b : Bool) (ms : List Tree) (c : Client) → IsValid c → IsValid (deliver_head b ms c)
unfolding deliver_head
deliver_head-IsValid b [] c v = v
deliver_head-IsValid b (m ∷ ms) c v = elsewhere c c.waiting c.socket_stream c.thread ms _ v

pub purge-IsValid : (running : Bool) (c : Client) → IsValid c → IsValid (purge running c)
unfolding purge
purge-IsValid running c v = record {
  served_below = v.served_below;
  sent_below = v.sent_below;
  served_ascends = v.served_ascends;
  sent_ascends = Ascends-le v.served_below v.sent_below c.sent_request_list v.sent_ascends;
  unsent_ascends = v.unsent_ascends;
  semaphore_counts = v.semaphore_counts;
  in_flight = omega (arith, v.in_flight);
}
