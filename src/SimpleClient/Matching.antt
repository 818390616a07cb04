-- ===== src/SimpleClient/Matching.antt =====
-- The responses of the server reach the callbacks of the requests that they answer.
use yarc.Base.{
  ℕ, suc, ◌+◌, ◌-◌, ◌≡◌, refl, ap, sym, arith, false, some, List, [], ◌∷◌, ◌++◌, map, length,
  append-nil, append_assoc, lt→ltb,
}
use yarc.Protocol.Data.{Tree, payload}
use yarc.SimpleClient.{
  Request, Client, send_one, send_head, receive, answer_head, is_message, serve_one, serve_head,
}
use yarc.SimpleClient.Update.{send_loop, serve_loop}

-- The requests with their responses, in order.
unfoldable pub answered : List Request → List Tree → List Request
answered [] ts = []
answered (r ∷ rs) [] = []
answered (r ∷ rs) (t ∷ ts) = record r { response_data = some t } ∷ answered rs ts

unfoldable pub receive_all : List Tree → Client → Client
unfolding receive
receive_all [] c = c
receive_all (t ∷ ts) c = receive_all ts (receive t c)

abbrev AreResponses : List Tree → Type 0
AreResponses [] = Unit
AreResponses (t ∷ ts) = (is_message (payload t) ≡ false) × AreResponses ts

-- The loop of Update sends every unsent request, oldest first.
pub send_all :
    (us : List Request) (c : Client)
    → send_loop (length us) (record c { unsent_request_list = us }) ≡ record c {
      unsent_request_list = [];
      sent_request_list = c.sent_request_list ++ us;
      printed = c.printed ++ map (λ r. r.request_data) us;
    }
unfolding send_loop send_one send_head
send_all [] c = rw (append-nil c.sent_request_list, append-nil c.printed)
send_all (r ∷ rs) c = rw (
  send_all rs (record c {
    sent_request_list = c.sent_request_list ++ r ∷ [];
    printed = c.printed ++ r.request_data ∷ [];
  }),
  append_assoc c.sent_request_list (r ∷ []) rs,
  append_assoc c.printed (r.request_data ∷ []) (map (λ r. r.request_data) rs),
)

-- As many responses as sent requests answer these in order.
receive_all-answered :
    (ss : List Request) (ts : List Tree) (c : Client)
    → length ss ≡ length ts
    → AreResponses ts
    → receive_all ts (record c { sent_request_list = ss }) ≡ record c {
      sent_request_list = [];
      served_request_list = c.served_request_list ++ answered ss ts;
      served_request_list_semaphore = c.served_request_list_semaphore + length ts;
    }
unfolding receive_all receive answer_head answered
receive_all-answered [] [] c e h =
    let still : c.served_request_list_semaphore + 0 ≡ c.served_request_list_semaphore =
      omega arith in
    rw (append-nil c.served_request_list, still)
receive_all-answered [] (t ∷ ts) c e h = absurd (omega arith)
receive_all-answered (r ∷ rs) [] c e h = absurd (omega arith)
receive_all-answered (r ∷ rs) (t ∷ ts) c e h =
    let c' : Client = record c {
      served_request_list = c.served_request_list ++ record r { response_data = some t } ∷ [];
      served_request_list_semaphore = c.served_request_list_semaphore + 1;
    } in
    let count : c.served_request_list_semaphore + 1 + length ts
        ≡ c.served_request_list_semaphore + suc (length ts) =
      omega arith in
    rw (
      h.0,
      receive_all-answered rs ts c' (omega arith) h.1,
      append_assoc c.served_request_list (record r { response_data = some t } ∷ [])
          (answered rs ts),
      count,
    )

-- The loop of Update that serves calls the callback of every served request.
pub serve_all :
    (ss : List Request) (more : ℕ) (c : Client)
    → serve_loop (length ss) (record c {
      served_request_list = ss;
      served_request_list_semaphore = length ss;
      num_requests_in_flight = length ss + more;
    })
      ≡ record c {
        served_request_list = [];
        served_request_list_semaphore = 0;
        num_requests_in_flight = more;
        calls = c.calls ++ map (λ r. (r.callback, r.response_data)) ss;
      }
unfolding serve_loop serve_one serve_head
serve_all [] more c =
    let none_left : 0 + more ≡ more = omega arith in rw (append-nil c.calls, none_left)
serve_all (r ∷ rs) more c =
    let c' : Client = record c { calls = c.calls ++ (r.callback, r.response_data) ∷ [] } in
    let down : suc (length rs) - 1 ≡ length rs = omega arith in
    let down' : suc (length rs) + more - 1 ≡ length rs + more = omega arith in
    rw (
      lt→ltb 0 (suc (length rs) + more) (omega arith),
      lt→ltb 0 (suc (length rs)) (omega arith),
      down,
      down',
      serve_all rs more c',
      append_assoc c.calls ((r.callback, r.response_data) ∷ [])
          (map (λ r. (r.callback, r.response_data)) rs),
    )

serve_all_counted :
    (ss : List Request) (n count flight : ℕ) (c : Client)
    → n ≡ length ss
    → count ≡ length ss
    → flight ≡ length ss + 0
    → serve_loop n (record c {
      served_request_list = ss;
      served_request_list_semaphore = count;
      num_requests_in_flight = flight;
    })
      ≡ record c {
        served_request_list = [];
        served_request_list_semaphore = 0;
        num_requests_in_flight = 0;
        calls = c.calls ++ map (λ r. (r.callback, r.response_data)) ss;
      }
serve_all_counted ss n count flight c e f g = rw (e, f, g) (serve_all ss 0 c)

length-answered :
    (us : List Request) (ts : List Tree)
    → length us ≡ length ts
    → length (answered us ts) ≡ length us
unfolding answered
length-answered [] ts e = refl
length-answered (r ∷ rs) [] e = absurd (omega arith)
length-answered (r ∷ rs) (t ∷ ts) e = ap suc (length-answered rs ts (omega arith))

-- A client that holds nothing but unsent requests sends them all in order; after one response for
-- each, in order and none of them a message, it calls the callback of each request with the
-- response of the same place, and holds nothing.
pub serve_loop-answered :
    (us : List Request) (ts : List Tree) (c : Client)
    → length us ≡ length ts
    → AreResponses ts
    → serve_loop (length us) (
        receive_all ts (
          send_loop (length us) (record c {
            unsent_request_list = us;
            sent_request_list = [];
            served_request_list = [];
            served_request_list_semaphore = 0;
            num_requests_in_flight = length us;
          })))
      ≡ record c {
        unsent_request_list = [];
        sent_request_list = [];
        served_request_list = [];
        served_request_list_semaphore = 0;
        num_requests_in_flight = 0;
        printed = c.printed ++ map (λ r. r.request_data) us;
        calls = c.calls ++ map (λ r. (r.callback, r.response_data)) (answered us ts);
      }
serve_loop-answered us ts c e h =
    let start : Client = record c {
      sent_request_list = [];
      served_request_list = [];
      served_request_list_semaphore = 0;
      num_requests_in_flight = length us;
    } in
    let sent : Client = record start {
      unsent_request_list = [];
      printed = c.printed ++ map (λ r. r.request_data) us;
    } in
    let same : length (answered us ts) ≡ length us = length-answered us ts e in
    rw (send_all us start, receive_all-answered us ts sent e h)
      (serve_all_counted (answered us ts) (length us) (0 + length ts) (length us) sent (sym same)
        (omega (arith, same)) (omega (arith, same)))
