-- ===== src/Examples/Cancel.antt =====
-- CancelAsyncRequest of a request that was not sent.
use yarc.Base.{true}
use yarc.Protocol.Data.{bare, null_data}
use yarc.SimpleClient.{
  Client, delete_response, new_client, make_request_async, cancel_async_request,
}
use yarc.SimpleClient.Invariant.{IsValid, new_client-IsValid, make_request_async-IsValid}
use yarc.SimpleClient.Cancelled.{Outcome, cancel_async_request-Outcome}

abbrev sleep : Client → Client
sleep c = c

sleep-IsValid : (c : Client) → IsValid c → IsValid (sleep c)
sleep-IsValid c v = v

made-IsValid : IsValid (make_request_async (bare null_data) delete_response true (new_client 1)).1
made-IsValid =
    make_request_async-IsValid (bare null_data) delete_response true (new_client 1)
      (new_client-IsValid 1)

cancel_async_request-Outcome_example :
    Outcome sleep 1 (make_request_async (bare null_data) delete_response true (new_client 1)).1 (
      cancel_async_request sleep 1
        (make_request_async (bare null_data) delete_response true (new_client 1)).1)
cancel_async_request-Outcome_example =
    cancel_async_request-Outcome sleep 1
      (make_request_async (bare null_data) delete_response true (new_client 1)).1 made-IsValid
      made-IsValid
