-- ===== src/PubSub.antt =====
-- Source/yarc_pubsub.cpp: the map of subscriptions, on top of two clients.
pub mod Requests
pub mod Ascending
pub mod Dispatch
use yarc.Base.{
  ℕ, zero, suc, ◌+◌, Bool, true, false, not, Option, none, some, List, [], ◌∷◌, ◌++◌, Bytes, ◌==◌,
  ltb, if◌then◌else◌, map,
}
use yarc.Protocol.Data.{
  Tree, Data, Trees, bare, blob, blob_string, aggregate, array, push, no_trees, more_trees, payload,
}
use yarc.Protocol.Fields.{bytes_eq, bytes_lt}
use yarc.Protocol.Parser.{c_str}
use yarc.Protocol.Printer.{count_trees}
use yarc.Protocol.HashSlot.{get_element, blob_value}
use yarc.Protocol.Command.{parse_command}
use yarc.SimpleClient.{Callback, Client, delete_response, make_request_async}

-- An entry of the SubscriptionMap. The map is the list of its entries in the order of the channels,
-- none of which holds a NUL, as they come from C strings.
pub record Subscription : Type 0 where
  pub channel : Bytes
  pub callback : Callback
  pub subscribed : Bool

unfoldable pub find_subscription : Bytes → List Subscription → Option Subscription
unfolding bytes_eq
find_subscription channel [] = none
find_subscription channel (s ∷ ss) =
    if bytes_eq s.channel channel then some s else find_subscription channel ss

unfoldable pub erase_subscription : Bytes → List Subscription → List Subscription
unfolding bytes_eq
erase_subscription channel [] = []
erase_subscription channel (s ∷ ss) =
    if bytes_eq s.channel channel then ss else s ∷ erase_subscription channel ss

-- `insert` of a channel that the map does not hold
unfoldable pub insert_subscription : Subscription → List Subscription → List Subscription
unfolding bytes_lt
insert_subscription s [] = s ∷ []
insert_subscription s (t ∷ ts) =
    if bytes_lt s.channel t.channel then s ∷ t ∷ ts else t ∷ insert_subscription s ts

-- Subscribe, which always returns true
unfoldable pub subscribe : Bytes → Callback → List Subscription → List Subscription
unfolding c_str erase_subscription insert_subscription
subscribe channel callback ss =
    insert_subscription
      (record { channel = c_str channel; callback = callback; subscribed = false })
      (erase_subscription (c_str channel) ss)

-- What `SUBSCRIBE %s` and `UNSUBSCRIBE %s` give.
unfoldable pub subscribe_text : Bytes → Bytes
unfolding c_str
subscribe_text channel =
    b'S' ∷ b'U' ∷ b'B' ∷ b'S' ∷ b'C' ∷ b'R' ∷ b'I' ∷ b'B' ∷ b'E' ∷ b' ' ∷ c_str channel

unfoldable pub unsubscribe_text : Bytes → Bytes
unfolding c_str
unsubscribe_text channel =
    b'U'
    ∷ b'N'
    ∷ b'S'
    ∷ b'U'
    ∷ b'B'
    ∷ b'S'
    ∷ b'C'
    ∷ b'R'
    ∷ b'I'
    ∷ b'B'
    ∷ b'E'
    ∷ b' '
    ∷ c_str channel

-- Unsubscribe: `request_sync` is MakeRequestSync of the input client. There is no value where the
-- command does not fit the buffer of ParseCommand.
unfoldable pub unsubscribe :
    (request_sync : Data → Client → Option Tree × Client)
    → Bytes
    → List Subscription
    → Client
    → Option (Bool × List Subscription × Client)
unfolding find_subscription erase_subscription parse_command unsubscribe_text c_str
unsubscribe request_sync channel ss input_client = elim (find_subscription (c_str channel) ss) [
  | none ↦ some (false, ss, input_client)
  | some s ↦ elim (parse_command (unsubscribe_text channel)) [
    | none ↦ none
    | some d ↦
        let r = request_sync d input_client in
        some (elim r.0 [ none ↦ false | some t ↦ true ], erase_subscription (c_str channel) ss, r.1)
  ]
]

-- Publish, which returns the id of the request as a Boolean.
unfoldable pub publish : Bytes → (publish_data : Tree) → (output_client : Client) → Bool × Client
unfolding c_str make_request_async
publish channel publish_data output_client =
    let command : Data = aggregate array false (
      more_trees
        (bare (blob blob_string false (b'P' ∷ b'U' ∷ b'B' ∷ b'L' ∷ b'I' ∷ b'S' ∷ b'H' ∷ [])))
        (more_trees (bare (blob blob_string false (c_str channel)))
          (more_trees publish_data no_trees))) in
    let r = make_request_async (bare command) delete_response true output_client in
    (not (r.0 == 0), r.1)

-- The callback that DispatchPubSubMessage finds for the elements of a message.
unfoldable pub find_callback : List Subscription → Trees → Option Callback
unfolding count_trees blob_value get_element find_subscription
find_callback ss ts =
    if ltb (count_trees ts) 2 then none else elim (blob_value (get_element ts 1)) [
      | none ↦ none
      | some channel ↦ elim (find_subscription channel ss) [
        | none ↦ none
        | some s ↦ some s.callback
      ]
    ]

-- DispatchPubSubMessage: the callback that is called, and whether the client is to delete the message.
unfoldable pub dispatch_data : List Subscription → Data → Option Callback
unfolding find_callback
dispatch_data ss (aggregate array null ts) = find_callback ss ts
dispatch_data ss d = none

unfoldable pub dispatch_pub_sub_message : List Subscription → Tree → Option Callback × Bool
unfolding dispatch_data
dispatch_pub_sub_message ss message =
    let called = dispatch_data ss (payload message) in
    (called, elim called [ none ↦ true | some callback ↦ callback (some message) ])

-- The loop of Update, before it updates the clients.
unfoldable pub update_one : Subscription → Client → Option (Subscription × Client)
unfolding parse_command subscribe_text make_request_async
update_one s input_client =
    if s.subscribed
    then some (s, input_client)
    else elim (parse_command (subscribe_text s.channel)) [
      | none ↦ none
      | some d ↦ some (
        record s { subscribed = true },
        (make_request_async (bare d) delete_response true input_client).1,
      )
    ]

unfoldable pub update_loop : List Subscription → Client → Option (List Subscription × Client)
unfolding update_one
update_loop [] input_client = some ([], input_client)
update_loop (s ∷ ss) input_client = elim (update_one s input_client) [
  | none ↦ none
  | some o ↦ elim (update_loop ss o.1) [ none ↦ none | some p ↦ some (o.0 ∷ p.0, p.1) ]
]

-- Resubscribe, after the input client has connected
unfoldable pub resubscribe : List Subscription → List Subscription
resubscribe [] = []
resubscribe (s ∷ ss) = record s { subscribed = false } ∷ resubscribe ss
