-- ===== src/SimpleClient/Threads.antt =====
-- The two threads of a client: the one of the application, which makes, sends, serves and cancels
-- requests, and the one that runs ThreadFunc. A step is one operation on what both use: the lists of
-- sent and served requests and of messages, each with its lock, and the semaphore. The count of the
-- requests in flight, the counter of the ids, the list of unsent requests and the callbacks are the
-- application's alone, so that what it does with them is part of a step; they have no lock, and only
-- one thread of the application may use the client.
pub mod Consistent
pub mod Silenced
pub mod Safe
use yarc.Base.{ℕ, ◌+◌, ◌-◌, ◌≡◌, refl, Bool, true, false, some, List, [], ◌∷◌, ◌++◌, ltb}
use yarc.Protocol.Data.{Tree, payload}
use yarc.SimpleClient.{
  Client, Request, Callback, make_request_async, send_one, deliver_one, is_message, purge,
  answer_head, serve_head, new_client, remove_request, silence_request,
}

-- Where ThreadFunc is: before ParseTree returns, with a request that is in no list, or behind
-- AddTail to the served list and before Increment.
pub data Reception : Type 0 where
  parsing : Reception
  took : Request → Reception
  added : Reception

-- `serving` says that Update is behind Decrement and before RemoveHead of the served list.
pub record Threads : Type 0 where
  pub client : Client
  pub reception : Reception
  pub serving : Bool

-- The parts of a round of ThreadFunc.
unfoldable pub add_message : Tree → Client → Client
add_message server_data c = record c { message_list = c.message_list ++ server_data ∷ [] }

unfoldable pub set_response : Tree → Request → Request
set_response server_data r = record r { response_data = some server_data }

unfoldable pub add_served : Request → Client → Client
add_served r c = record c { served_request_list = c.served_request_list ++ r ∷ [] }

unfoldable pub increment : Client → Client
increment c = record c { served_request_list_semaphore = c.served_request_list_semaphore + 1 }

-- The parts of a round of the loop of Update that serves.
unfoldable pub decrement : Client → Client
decrement c = record c { served_request_list_semaphore = c.served_request_list_semaphore - 1 }

unfoldable pub pop_served : (served : List Request) → Client → Client
pop_served [] c = c
pop_served (r ∷ rs) c = record c {
  served_request_list = rs;
  num_requests_in_flight = c.num_requests_in_flight - 1;
  calls = c.calls ++ (r.callback, r.response_data) ∷ [];
}

-- One after the other they are the whole rounds.
increment-add_served :
    (server_data : Tree) (r : Request) (rs : List Request) (c : Client)
    → increment (add_served (set_response server_data r) (record c { sent_request_list = rs }))
      ≡ answer_head server_data (r ∷ rs) c
unfolding increment add_served set_response answer_head
increment-add_served server_data r rs c = refl

pop_served-decrement :
    (served : List Request) (c : Client) → pop_served served (decrement c) ≡ serve_head served c
unfolding pop_served decrement serve_head
pop_served-decrement [] c = refl
pop_served-decrement (r ∷ rs) c = refl

unfoldable pub start : (next : ℕ) → Threads
unfolding new_client
start next = record { client = new_client next; reception = parsing; serving = false }

pub data Move (s : Threads) : Threads → Type 0 where
  -- the application's thread
  made :
      (d : Tree) (f : Callback) (own : Bool)
      → Move s (record s { client = (make_request_async d f own s.client).1 })
  was_sent : Move s (record s { client = send_one s.client })
  decremented :
      s.serving ≡ false
      → ltb 0 s.client.served_request_list_semaphore ≡ true
      → Move s (record s { client = decrement s.client; serving = true })
  popped :
      s.serving ≡ true
      → Move s
          (record s { client = pop_served s.client.served_request_list s.client; serving = false })
  delivered : (callback : Bool) → Move s (record s { client = deliver_one callback s.client })
  -- which waits for the other one to exit
  purged :
      (running : Bool)
      → s.reception ≡ parsing
      → Move s (record s { client = purge running s.client })
  -- each list is searched under its own lock
  cancelled_unsent :
      (id : ℕ) (rs : List Request)
      → remove_request id s.client.unsent_request_list ≡ some rs
      → Move s (record s {
        client = record s.client {
          unsent_request_list = rs;
          num_requests_in_flight = s.client.num_requests_in_flight - 1;
        };
      })
  silenced_sent :
      (id : ℕ) (rs : List Request)
      → silence_request id s.client.sent_request_list ≡ some rs
      → Move s (record s { client = record s.client { sent_request_list = rs } })
  silenced_served :
      (id : ℕ) (rs : List Request)
      → silence_request id s.client.served_request_list ≡ some rs
      → Move s (record s { client = record s.client { served_request_list = rs } })
  -- a request of another client
  counted :
      Move s
        (record s { client = record s.client { next_request_id = s.client.next_request_id + 1 } })
  -- the connection's and the thread's pointers, and the time of the last attempt
  status :
      (waiting socket_stream thread : Bool)
      → Move s (record s {
        client = record s.client {
          waiting = waiting;
          socket_stream = socket_stream;
          thread = thread;
        };
      })
  -- the thread of ThreadFunc
  got_message :
      (t : Tree)
      → s.reception ≡ parsing
      → is_message (payload t) ≡ true
      → Move s (record s { client = add_message t s.client })
  got_response :
      (t : Tree) (r : Request) (rs : List Request)
      → s.reception ≡ parsing
      → is_message (payload t) ≡ false
      → s.client.sent_request_list ≡ r ∷ rs
      → Move s (record s {
        client = record s.client { sent_request_list = rs };
        reception = took (set_response t r);
      })
  was_added :
      (r : Request)
      → s.reception ≡ took r
      → Move s (record s { client = add_served r s.client; reception = added })
  incremented :
      s.reception ≡ added → Move s (record s { client = increment s.client; reception = parsing })

pub data Moves (s : Threads) : Threads → Type 0 where
  here : Moves s s
  there : {t u : Threads} → Moves s t → Move t u → Moves s u
