-- ===== src/Examples/Threads.antt =====
-- The threads of a client at work.
use yarc.Base.{◌≤◌, refl, true, false, none, [], length, pos}
use yarc.Protocol.Data.{Tree, bare, number}
use yarc.SimpleClient.{
  Request, make_request_async, send_one, new_client, delete_response, is_message,
}
use yarc.SimpleClient.Threads.{
  Threads, parsing, took, added, start, set_response, add_served, increment, decrement, made,
  was_sent, got_response, was_added, incremented, decremented, Moves, here, there,
}
use yarc.SimpleClient.Threads.Consistent.{one_if}
use yarc.SimpleClient.Threads.Safe.{AreConsistent, Moves-AreConsistent}

abbrev ping : Tree
ping = bare (number (pos 1))

abbrev reply : Tree
reply = bare (number (pos 2))

abbrev request : Request
request = record {
  request_data = ping;
  response_data = none;
  callback = delete_response;
  owns_request_data_mem = true;
  owns_response_data_mem = false;
  request_id = 5;
}

abbrev asked : Threads
asked = record (start 5) {
  client = (make_request_async ping delete_response true (start 5).client).1;
}

abbrev sent : Threads
sent = record asked { client = send_one asked.client }

abbrev taken : Threads
taken = record sent {
  client = record sent.client { sent_request_list = [] };
  reception = took (set_response reply request);
}

abbrev in_list : Threads
in_list = record taken {
  client = add_served (set_response reply request) taken.client;
  reception = added;
}

abbrev announced : Threads
announced = record in_list { client = increment in_list.client; reception = parsing }

abbrev serving : Threads
serving = record announced { client = decrement announced.client; serving = true }

run : Moves (start 5) serving
unfolding start make_request_async send_one new_client is_message increment add_served
run =
    there
      (there
        (there
          (there (there (there here (made ping delete_response true)) was_sent)
            (got_response reply request [] refl refl refl))
          (was_added (set_response reply request) refl))
        (incremented refl))
      (decremented refl refl)

Moves-AreConsistent_example :
    AreConsistent serving × (one_if serving.serving ≤ length serving.client.served_request_list)
Moves-AreConsistent_example = Moves-AreConsistent 5 run
