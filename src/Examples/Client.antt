-- ===== src/Examples/Client.antt =====
-- The theorems of the simple client at concrete inputs.
use yarc.Base.{
  ◌+◌, ℕ, ◌≡◌, ◌≢◌, refl, true, false, none, some, [], ◌∷◌, ◌++◌, map, length, arith, pos,
}
use yarc.Protocol.Data.{Tree, bare, number}
use yarc.SimpleClient.{
  Request, Client, new_client, make_request_async, send_one, purge, delete_response, is_message,
}
use yarc.SimpleClient.Update.{World, update, flush, send_loop, serve_loop}
use yarc.SimpleClient.Steps.{Steps, here, there, made, was_sent}
use yarc.SimpleClient.Transactions.{
  make_transaction_request_async, word_command, numbered, transaction, data_of,
  make_transaction_request_async-send_loop,
}
use yarc.SimpleClient.Invariant.{IsValid, new_client-IsValid}
use yarc.SimpleClient.Invariant.Preserved.{Steps-IsValid, update-IsValid}
use yarc.SimpleClient.Matching.{answered, receive_all, serve_loop-answered}
use yarc.SimpleClient.Lost.{flush-purge}
use yarc.SimpleClient.Round.{loaded, unloaded, update-loaded}

abbrev ping : Tree
ping = bare (number (pos 1))

abbrev request : ℕ → Request
request id = record {
  request_data = ping;
  response_data = none;
  callback = delete_response;
  owns_request_data_mem = true;
  owns_response_data_mem = false;
  request_id = id;
}

abbrev fresh : Client
fresh = new_client 5

-- A connected client in a world where nothing fails
abbrev world : World
world = record {
  retry_elapsed = true;
  checkout = true;
  connected = true;
  spawned = true;
  running = true;
  push_callback = false;
  post_connect = λ c. c;
}

abbrev asked : Client
asked = (make_request_async ping delete_response true fresh).1

abbrev waiting_for_answer : Client
waiting_for_answer = send_one asked

asked-Steps : Steps fresh waiting_for_answer
asked-Steps = there (there here (made ping delete_response true)) was_sent

serve_loop-answered_example :
    serve_loop 2 (
      receive_all (bare (number (pos 7)) ∷ bare (number (pos 8)) ∷ []) (
        send_loop 2 (record fresh {
          unsent_request_list = request 0 ∷ request 1 ∷ [];
          sent_request_list = [];
          served_request_list = [];
          served_request_list_semaphore = 0;
          num_requests_in_flight = 2;
        })))
    ≡ record fresh {
      unsent_request_list = [];
      sent_request_list = [];
      served_request_list = [];
      served_request_list_semaphore = 0;
      num_requests_in_flight = 0;
      printed = fresh.printed ++ map (λ r. r.request_data) (request 0 ∷ request 1 ∷ []);
      calls =
          fresh.calls
          ++ map
              (λ r. (r.callback, r.response_data))
              (answered
                (request 0 ∷ request 1 ∷ [])
                (bare (number (pos 7)) ∷ bare (number (pos 8)) ∷ []));
    }
unfolding is_message
serve_loop-answered_example =
    serve_loop-answered (request 0 ∷ request 1 ∷ [])
      (bare (number (pos 7)) ∷ bare (number (pos 8)) ∷ []) fresh refl (refl, (refl, tt))

update-IsValid_example : IsValid (update world fresh).1
update-IsValid_example = update-IsValid world (λ c. here) fresh (new_client-IsValid 5)

one_sent : length (waiting_for_answer.sent_request_list) ≡ 1
unfolding send_one make_request_async new_client
one_sent = refl

flush-purge_example :
    flush ((world, false) ∷ (world, false) ∷ []) (purge true waiting_for_answer) ≢ some true
flush-purge_example =
    flush-purge true waiting_for_answer (purge true waiting_for_answer)
      ((world, false) ∷ (world, false) ∷ []) (Steps-IsValid asked-Steps (new_client-IsValid 5))
      (omega (arith, one_sent)) here ((λ c. here), ((λ c. here), tt))

make_transaction_request_async-send_loop_example :
    (c' : Client) × (make_transaction_request_async
        (word_command (b'G' ∷ []) ∷ [])
        delete_response
        fresh
      ≡ some c')
    × (c'.unsent_request_list
        ≡ [] ++ numbered 5 (transaction (word_command (b'G' ∷ []) ∷ []) delete_response))
    × (c'.num_requests_in_flight ≡ 0 + (1 + 2))
    × ((send_loop (length c'.unsent_request_list) c').printed
        ≡ []
          ++ (data_of []
              ++ word_command (b'M' ∷ b'U' ∷ b'L' ∷ b'T' ∷ b'I' ∷ [])
                ∷ (word_command (b'G' ∷ []) ∷ []
                    ++ word_command (b'E' ∷ b'X' ∷ b'E' ∷ b'C' ∷ []) ∷ [])))
unfolding new_client
make_transaction_request_async-send_loop_example =
    make_transaction_request_async-send_loop (word_command (b'G' ∷ []) ∷ []) delete_response fresh

-- A served request with its response and one that is not sent.
update-loaded_example :
    update world (loaded (request 7 ∷ []) (request 6 ∷ []) (ping ∷ []) 1 fresh) ≡ (
      true,
      unloaded false
          (request 7 ∷ [])
          (request 6 ∷ [])
          (ping ∷ [])
          1
          (record fresh { waiting = false }),
    )
unfolding new_client
update-loaded_example =
    update-loaded world (request 7 ∷ []) (request 6 ∷ []) (ping ∷ []) 1 fresh refl refl refl
