-- ===== src/SimpleClient/Threads/Consistent.antt =====
-- What holds of a client between any two steps of its threads.
use yarc.Base.{
  ℕ, suc, ◌+◌, ◌≤◌, ◌≡◌, refl, Bool, true, false, List, [], ◌∷◌, length, length-append, arith,
}
use yarc.Protocol.Data.{Tree}
use yarc.SimpleClient.{
  Request, Client, Callback, make_request_async, send_head, deliver_head, purge,
}
use yarc.SimpleClient.Invariant.{Ascends, Ascends-le, Ascends-raise, Ascends-snoc}
use yarc.SimpleClient.Threads.{Reception, parsing, took, added, start}

-- The request that ThreadFunc holds, and whether it still owes an Increment.
abbrev pub in_hand : Reception → List Request
in_hand (took r) = r ∷ []
in_hand _ = []

abbrev pub owed : Reception → ℕ
owed added = 1
owed _ = 0

abbrev pub one_if : Bool → ℕ
one_if true = 1
one_if false = 0

-- The requests stand in the order in which they were made: the served ones, the one that ThreadFunc
-- holds, the sent and the unsent ones. The semaphore counts the served ones but for an Increment to
-- come and a Decrement whose request is not taken yet, and the requests in flight are all of these
-- at least.
pub record IsConsistent (c : Client) (reception : Reception) (serving : Bool) : Type 0 where
  pub served_below : ℕ
  pub taken_below : ℕ
  pub sent_below : ℕ
  pub served_ascends : Ascends 0 c.served_request_list served_below
  pub taken_ascends : Ascends served_below (in_hand reception) taken_below
  pub sent_ascends : Ascends taken_below c.sent_request_list sent_below
  pub unsent_ascends : Ascends sent_below c.unsent_request_list c.next_request_id
  pub semaphore_counts :
      c.served_request_list_semaphore + owed reception + one_if serving
      ≡ length c.served_request_list
  pub in_flight :
      length c.served_request_list
        + length (in_hand reception)
        + length c.sent_request_list
        + length c.unsent_request_list
      ≤ c.num_requests_in_flight

pub start-IsConsistent : (next : ℕ) → IsConsistent (start next).client parsing false
unfolding start
start-IsConsistent next = record {
  served_below = 0;
  taken_below = 0;
  sent_below = 0;
  served_ascends = omega arith;
  taken_ascends = omega arith;
  sent_ascends = omega arith;
  unsent_ascends = omega arith;
  semaphore_counts = refl;
  in_flight = omega arith;
}

module _ (p : Reception) (b : Bool) where
  pub made-IsConsistent :
      (d : Tree) (f : Callback) (own : Bool) (c : Client)
      → IsConsistent c p b
      → IsConsistent (make_request_async d f own c).1 p b
  unfolding make_request_async
  made-IsConsistent d f own c v = record {
    served_below = v.served_below;
    taken_below = v.taken_below;
    sent_below = v.sent_below;
    served_ascends = v.served_ascends;
    taken_ascends = v.taken_ascends;
    sent_ascends = v.sent_ascends;
    unsent_ascends =
        Ascends-raise v.sent_below (suc c.next_request_id) (c.next_request_id + 1) _ (omega arith) (
          Ascends-snoc v.sent_below c.next_request_id c.unsent_request_list _ v.unsent_ascends
            (omega arith));
    semaphore_counts = v.semaphore_counts;
    in_flight = omega (arith, length-append c.unsent_request_list, v.in_flight);
  }

  pub send_head-IsConsistent :
      (us : List Request) (c : Client)
      → c.unsent_request_list ≡ us
      → IsConsistent c p b
      → IsConsistent (send_head us c) p b
  unfolding send_head
  send_head-IsConsistent [] c e v = v
  send_head-IsConsistent (r ∷ rs) c e v =
      let order : Ascends v.sent_below (r ∷ rs) c.next_request_id = rw e at v.unsent_ascends in
      let count : length c.unsent_request_list ≡ suc (length rs) = rw e in
      record {
        served_below = v.served_below;
        taken_below = v.taken_below;
        sent_below = suc r.request_id;
        served_ascends = v.served_ascends;
        taken_ascends = v.taken_ascends;
        sent_ascends =
            Ascends-snoc v.taken_below v.sent_below c.sent_request_list r v.sent_ascends order.0;
        unsent_ascends = order.1;
        semaphore_counts = v.semaphore_counts;
        in_flight = omega (arith, length-append c.sent_request_list (r ∷ []), v.in_flight, count);
      }

  -- What the other fields hold makes no difference.
  pub elsewhere :
      (c : Client) (waiting socket_stream thread : Bool) (ms pushed : List Tree)
      → IsConsistent c p b
      → IsConsistent
          (record c {
            waiting = waiting;
            socket_stream = socket_stream;
            thread = thread;
            message_list = ms;
            push_calls = pushed;
          })
          p
          b
  elsewhere c waiting socket_stream thread ms pushed v = record {
    served_below = v.served_below;
    taken_below = v.taken_below;
    sent_below = v.sent_below;
    served_ascends = v.served_ascends;
    taken_ascends = v.taken_ascends;
    sent_ascends = v.sent_ascends;
    unsent_ascends = v.unsent_ascends;
    semaphore_counts = v.semaphore_counts;
    in_flight = v.in_flight;
  }

  pub deliver_head-IsConsistent :
      (callback : Bool) (ms : List Tree) (c : Client)
      → IsConsistent c p b
      → IsConsistent (deliver_head callback ms c) p b
  unfolding deliver_head
  deliver_head-IsConsistent callback [] c v = v
  deliver_head-IsConsistent callback (m ∷ ms) c v =
      elsewhere c c.waiting c.socket_stream c.thread ms _ v

  pub purge-IsConsistent :
      (running : Bool) (c : Client) → IsConsistent c p b → IsConsistent (purge running c) p b
  unfolding purge
  purge-IsConsistent running c v = record {
    served_below = v.served_below;
    taken_below = v.taken_below;
    sent_below = v.sent_below;
    served_ascends = v.served_ascends;
    taken_ascends = v.taken_ascends;
    sent_ascends = Ascends-le v.taken_below v.sent_below c.sent_request_list v.sent_ascends;
    unsent_ascends = v.unsent_ascends;
    semaphore_counts = v.semaphore_counts;
    in_flight = omega (arith, v.in_flight);
  }
