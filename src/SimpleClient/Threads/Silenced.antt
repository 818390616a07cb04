-- ===== src/SimpleClient/Threads/Silenced.antt =====
-- CancelAsyncRequest and the counter of the ids beside the other thread.
use yarc.Base.{ℕ, ◌+◌, ◌-◌, ◌≡◌, Bool, some, List, arith}
use yarc.SimpleClient.{Request, Client, remove_request, silence_request}
use yarc.SimpleClient.Invariant.{Ascends-raise}
use yarc.SimpleClient.Invariant.Cancel.{remove_request-some, silence_request-some}
use yarc.SimpleClient.Threads.{Reception}
use yarc.SimpleClient.Threads.Consistent.{IsConsistent}

module _ (p : Reception) (b : Bool) where
  pub cancelled_unsent-IsConsistent :
      (id : ℕ) (rs : List Request) (c : Client)
      → remove_request id c.unsent_request_list ≡ some rs
      → IsConsistent c p b
      → IsConsistent
          (record c {
            unsent_request_list = rs;
            num_requests_in_flight = c.num_requests_in_flight - 1;
          })
          p
          b
  cancelled_unsent-IsConsistent id rs c e v =
      let h = remove_request-some id c.unsent_request_list rs e in
      record {
        served_below = v.served_below;
        taken_below = v.taken_below;
        sent_below = v.sent_below;
        served_ascends = v.served_ascends;
        taken_ascends = v.taken_ascends;
        sent_ascends = v.sent_ascends;
        unsent_ascends = h.0 _ _ v.unsent_ascends;
        semaphore_counts = v.semaphore_counts;
        in_flight = omega (arith, h.1, v.in_flight);
      }

  pub silenced_sent-IsConsistent :
      (id : ℕ) (rs : List Request) (c : Client)
      → silence_request id c.sent_request_list ≡ some rs
      → IsConsistent c p b
      → IsConsistent (record c { sent_request_list = rs }) p b
  silenced_sent-IsConsistent id rs c e v =
      let h = silence_request-some id c.sent_request_list rs e in
      record {
        served_below = v.served_below;
        taken_below = v.taken_below;
        sent_below = v.sent_below;
        served_ascends = v.served_ascends;
        taken_ascends = v.taken_ascends;
        sent_ascends = h.0 _ _ v.sent_ascends;
        unsent_ascends = v.unsent_ascends;
        semaphore_counts = v.semaphore_counts;
        in_flight = omega (arith, h.1, v.in_flight);
      }

  pub silenced_served-IsConsistent :
      (id : ℕ) (rs : List Request) (c : Client)
      → silence_request id c.served_request_list ≡ some rs
      → IsConsistent c p b
      → IsConsistent (record c { served_request_list = rs }) p b
  silenced_served-IsConsistent id rs c e v =
      let h = silence_request-some id c.served_request_list rs e in
      record {
        served_below = v.served_below;
        taken_below = v.taken_below;
        sent_below = v.sent_below;
        served_ascends = h.0 _ _ v.served_ascends;
        taken_ascends = v.taken_ascends;
        sent_ascends = v.sent_ascends;
        unsent_ascends = v.unsent_ascends;
        semaphore_counts = omega (arith, h.1, v.semaphore_counts);
        in_flight = omega (arith, h.1, v.in_flight);
      }

  pub counted-IsConsistent :
      (c : Client)
      → IsConsistent c p b
      → IsConsistent (record c { next_request_id = c.next_request_id + 1 }) p b
  counted-IsConsistent c v = record {
    served_below = v.served_below;
    taken_below = v.taken_below;
    sent_below = v.sent_below;
    served_ascends = v.served_ascends;
    taken_ascends = v.taken_ascends;
    sent_ascends = v.sent_ascends;
    unsent_ascends =
        Ascends-raise v.sent_below c.next_request_id (c.next_request_id + 1) c.unsent_request_list
          (omega arith) v.unsent_ascends;
    semaphore_counts = v.semaphore_counts;
    in_flight = v.in_flight;
  }
