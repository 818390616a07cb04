-- ===== src/SimpleClient.antt =====
-- Source/yarc_simple_client.h and .cpp: the requests of a client on their way through its lists.
pub mod Update
pub mod Steps
pub mod Threads
pub mod Invariant
pub mod Lost
pub mod Cancelled
pub mod SyncTransaction
pub mod Matching
pub mod Round
pub mod Transactions
use yarc.Base.{
  ℕ, zero, suc, ◌+◌, ◌-◌, Bool, true, false, ◌&&◌, ◌||◌, not, Option, none, some, List, [], ◌∷◌,
  ◌++◌, Bytes, ◌==◌, ltb, if◌then◌else◌, length,
}
use yarc.Protocol.Data.{Tree, Data, payload, aggregate, push, array, blob, blob_string}
use yarc.Protocol.Fields.{bytes_eq}
use yarc.Protocol.Printer.{count_trees}
use yarc.Protocol.HashSlot.{get_element, blob_value}

-- A callback says whether the client is to delete what it was given.
abbrev pub Callback : Type 0
Callback = Option Tree → Bool

-- The default of MakeRequestAsync, which CancelAsyncRequest puts in place of a callback.
abbrev pub delete_response : Callback
delete_response response = true

pub record Request : Type 0 where
  pub request_data : Tree
  pub response_data : Option Tree
  pub callback : Callback
  pub owns_request_data_mem : Bool
  pub owns_response_data_mem : Bool
  pub request_id : ℕ

-- `waiting` says that `lastFailedConnectionAttemptTime` is not 0, `socket_stream` and `thread` that
-- the pointer is not null; `next_request_id` is the static counter, which all clients share. Three
-- fields record what the client did: `printed` the requests written to the socket, `calls` and
-- `push_calls` the calls of callbacks, in order.
pub record Client : Type 0 where
  pub waiting : Bool
  pub socket_stream : Bool
  pub thread : Bool
  pub unsent_request_list : List Request
  pub sent_request_list : List Request
  pub served_request_list : List Request
  pub message_list : List Tree
  pub served_request_list_semaphore : ℕ
  pub num_requests_in_flight : ℕ
  pub next_request_id : ℕ
  pub printed : List Tree
  pub calls : List (Callback × Option Tree)
  pub push_calls : List Tree

-- The constructor, where `next` requests were made before.
unfoldable pub new_client : (next : ℕ) → Client
new_client next = record {
  waiting = false;
  socket_stream = false;
  thread = false;
  unsent_request_list = [];
  sent_request_list = [];
  served_request_list = [];
  message_list = [];
  served_request_list_semaphore = 0;
  num_requests_in_flight = 0;
  next_request_id = next;
  printed = [];
  calls = [];
  push_calls = [];
}

-- MakeRequestAsync returns the new request's id.
unfoldable pub make_request_async : Tree → Callback → (delete_data : Bool) → Client → ℕ × Client
make_request_async request_data callback delete_data c = (
  c.next_request_id,
  record c {
    num_requests_in_flight = c.num_requests_in_flight + 1;
    next_request_id = c.next_request_id + 1;
    unsent_request_list =
        c.unsent_request_list
        ++ record {
          request_data = request_data;
          response_data = none;
          callback = callback;
          owns_request_data_mem = delete_data;
          owns_response_data_mem = false;
          request_id = c.next_request_id;
        }
          ∷ [];
  },
)

-- A round of the loop of Update that flushes the unsent requests.
unfoldable pub send_head : (unsent : List Request) → Client → Client
send_head [] c = c
send_head (r ∷ rs) c = record c {
  unsent_request_list = rs;
  sent_request_list = c.sent_request_list ++ r ∷ [];
  printed = c.printed ++ r.request_data ∷ [];
}

unfoldable pub send_one : Client → Client
unfolding send_head
send_one c = send_head c.unsent_request_list c

-- Whether ThreadFunc takes what it parsed for a message: a push, or the message of RESP1.
unfoldable pub is_message : Data → Bool
unfolding bytes_eq get_element blob_value count_trees
is_message (aggregate push null ts) = true
is_message (aggregate array null ts) =
    ltb 0 (count_trees ts) && elim (blob_value (get_element ts 0)) [
      | none ↦ false
      | some value ↦ bytes_eq value (b'm' ∷ b'e' ∷ b's' ∷ b's' ∷ b'a' ∷ b'g' ∷ b'e' ∷ [])
    ]
is_message _ = false

-- The response goes to the oldest sent request.
unfoldable pub answer_head : Tree → (sent : List Request) → Client → Client
answer_head server_data [] c = c
answer_head server_data (r ∷ rs) c = record c {
  sent_request_list = rs;
  served_request_list = c.served_request_list ++ record r { response_data = some server_data } ∷ [];
  served_request_list_semaphore = c.served_request_list_semaphore + 1;
}

-- A round of the loop of ThreadFunc, for what ParseTree gave.
unfoldable pub receive : Tree → Client → Client
unfolding is_message answer_head
receive server_data c =
    if is_message (payload server_data)
    then record c { message_list = c.message_list ++ server_data ∷ [] }
    else answer_head server_data c.sent_request_list c

-- A round of the loop of Update that serves a request, behind its tests; the semaphore is not 0.
unfoldable pub serve_head : (served : List Request) → Client → Client
serve_head [] c = record c { served_request_list_semaphore = c.served_request_list_semaphore - 1 }
serve_head (r ∷ rs) c = record c {
  served_request_list_semaphore = c.served_request_list_semaphore - 1;
  served_request_list = rs;
  num_requests_in_flight = c.num_requests_in_flight - 1;
  calls = c.calls ++ (r.callback, r.response_data) ∷ [];
}

unfoldable pub serve_one : Client → Client
unfolding serve_head
serve_one c = serve_head c.served_request_list c

-- A round of the loop of Update that hands out the messages; `push_callback` says whether one is
-- registered.
unfoldable pub deliver_head : (push_callback : Bool) (messages : List Tree) → Client → Client
deliver_head push_callback [] c = c
deliver_head push_callback (m ∷ ms) c = record c {
  message_list = ms;
  push_calls = if push_callback then c.push_calls ++ m ∷ [] else c.push_calls;
}

unfoldable pub deliver_one : (push_callback : Bool) → Client → Client
unfolding deliver_head
deliver_one push_callback c = deliver_head push_callback c.message_list c

-- Update's purge where the connection is lost.
unfoldable pub purge : (running : Bool) → Client → Client
purge running c = record c {
  thread = c.thread && not running;
  socket_stream = false;
  sent_request_list = [];
}

-- Find with the predicate of CancelAsyncRequest, which takes the request out of its list, or puts
-- the default in place of its callback.
unfoldable pub remove_request : ℕ → List Request → Option (List Request)
remove_request id [] = none
remove_request id (r ∷ rs) =
    if r.request_id == id
    then some rs
    else elim (remove_request id rs) [ none ↦ none | some rs' ↦ some (r ∷ rs') ]

unfoldable pub silence_request : ℕ → List Request → Option (List Request)
silence_request id [] = none
silence_request id (r ∷ rs) =
    if r.request_id == id
    then some (record r { callback = delete_response } ∷ rs)
    else elim (silence_request id rs) [ none ↦ none | some rs' ↦ some (r ∷ rs') ]

-- A pass over the lists.
unfoldable pub cancel_pass : ℕ → Client → Option Client
unfolding remove_request silence_request
cancel_pass id c = elim (remove_request id c.unsent_request_list) [
  | some rs ↦
      some (record c {
        unsent_request_list = rs;
        num_requests_in_flight = c.num_requests_in_flight - 1;
      })
  | none ↦ elim (silence_request id c.sent_request_list) [
    | some rs ↦ some (record c { sent_request_list = rs })
    | none ↦ elim (silence_request id c.served_request_list) [
      | some rs ↦ some (record c { served_request_list = rs })
      | none ↦ none
    ]
  ]
]

-- CancelAsyncRequest; `meanwhile` is what other threads do while it sleeps.
unfoldable pub cancel_async_request : (meanwhile : Client → Client) → ℕ → Client → Bool × Client
unfolding cancel_pass
cancel_async_request meanwhile id c = elim (cancel_pass id c) [
  | some c' ↦ (true, c')
  | none ↦ elim (cancel_pass id (meanwhile c)) [
    | some c' ↦ (true, c')
    | none ↦ (false, meanwhile (meanwhile c))
  ]
]
