-- ===== src/SimpleClient/Round.antt =====
-- A call of Update on a client that is connected, as a whole.
use yarc.Base.{
  ℕ, ◌+◌, ◌≡◌, refl, Bool, true, false, ◌&&◌, not, List, [], ◌∷◌, ◌++◌, map, length, if◌then◌else◌,
  append-nil, append_assoc,
}
use yarc.Protocol.Data.{Tree}
use yarc.SimpleClient.{Request, Client, deliver_one, deliver_head}
use yarc.SimpleClient.Update.{
  World, deliver_loop, pump, update_running, update_thread, update_connected, update_socket, update,
}
use yarc.SimpleClient.Matching.{send_all, serve_all}

-- The messages that the callback for pushed data gets.
abbrev pub delivered_messages : Bool → List Tree → List Tree
delivered_messages push_callback ms = if push_callback then ms else []

deliver_all :
    (b : Bool) (ms : List Tree) (c : Client)
    → deliver_loop b (length ms) (record c { message_list = ms })
      ≡ record c { message_list = []; push_calls = c.push_calls ++ delivered_messages b ms }
unfolding deliver_loop deliver_one deliver_head
deliver_all true [] c = rw (append-nil c.push_calls) refl
deliver_all false [] c = rw (append-nil c.push_calls) refl
deliver_all true (m ∷ ms) c =
    rw
      (
        deliver_all true ms (record c { push_calls = c.push_calls ++ m ∷ [] }),
        append_assoc c.push_calls (m ∷ []) ms,
      )
      refl
deliver_all false (m ∷ ms) c = deliver_all false ms c

-- A connected client with `us` unsent, `ss` served and `ms` as messages.
abbrev pub loaded : List Request → List Request → List Tree → (more : ℕ) → Client → Client
loaded us ss ms more c = record c {
  socket_stream = true;
  thread = true;
  unsent_request_list = us;
  served_request_list = ss;
  served_request_list_semaphore = length ss;
  num_requests_in_flight = length ss + more;
  message_list = ms;
}

-- What is left of it.
abbrev pub unloaded : Bool → List Request → List Request → List Tree → (more : ℕ) → Client → Client
unloaded push_callback us ss ms more c = record c {
  socket_stream = true;
  thread = true;
  unsent_request_list = [];
  sent_request_list = c.sent_request_list ++ us;
  printed = c.printed ++ map (λ r. r.request_data) us;
  served_request_list = [];
  served_request_list_semaphore = 0;
  num_requests_in_flight = more;
  calls = c.calls ++ map (λ r. (r.callback, r.response_data)) ss;
  message_list = [];
  push_calls = c.push_calls ++ delivered_messages push_callback ms;
}

pump-loaded :
    (w : World) (us ss : List Request) (ms : List Tree) (more : ℕ) (c : Client)
    → pump w (loaded us ss ms more c) ≡ unloaded w.push_callback us ss ms more c
unfolding pump
pump-loaded w us ss ms more c =
    let sent : Client = record c {
      socket_stream = true;
      thread = true;
      unsent_request_list = [];
      sent_request_list = c.sent_request_list ++ us;
      printed = c.printed ++ map (λ r. r.request_data) us;
      message_list = ms;
    } in
    let served : Client = record sent {
      served_request_list = [];
      served_request_list_semaphore = 0;
      num_requests_in_flight = more;
      calls = c.calls ++ map (λ r. (r.callback, r.response_data)) ss;
    } in
    rw
      (
        send_all us (loaded us ss ms more c),
        serve_all ss more sent,
        deliver_all w.push_callback ms served,
      )
      refl

-- A call of Update on a connected client whose reception thread is running, that does not wait to
-- connect again and in which no other thread interferes, sends all unsent requests in order, calls
-- the callback of each served request with its response, in order, takes these from the requests in
-- flight, hands out all messages, in order, where a callback is registered and drops them where
-- none is, and returns true.
pub update-loaded :
    (w : World) (us ss : List Request) (ms : List Tree) (more : ℕ) (c : Client)
    → (c.waiting && not w.retry_elapsed) ≡ false
    → w.connected ≡ true
    → w.running ≡ true
    → update w (loaded us ss ms more c)
      ≡ (true, unloaded w.push_callback us ss ms more (record c { waiting = false }))
unfolding update update_socket update_connected update_thread update_running
update-loaded w us ss ms more c due connected running =
    rw (due, connected, running, pump-loaded w us ss ms more (record c { waiting = false })) refl
