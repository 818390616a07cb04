-- ===== src/PubSub/Dispatch.antt =====
-- Whom DispatchPubSubMessage calls after Subscribe and Unsubscribe.
use std.Path.{subst}
use yarc.Base.{
  ◌≡◌, refl, sym, ap, ◌∙◌, Bool, true, false, Bool-cases, Option-cases, inl, inr, Option, none,
  some, List, [], ◌∷◌, Bytes, if◌then◌else◌, arith, suc, ltb,
}
use yarc.Protocol.Data.{Tree, Data, Trees, bare, blob, blob_string, aggregate, array, more_trees}
use yarc.Protocol.Fields.{bytes_eq}
use yarc.Protocol.Fields.Order.{bytes_eq_refl}
use yarc.Protocol.Parser.{c_str}
use yarc.Protocol.Printer.{count_trees}
use yarc.Protocol.HashSlot.{get_element, blob_value}
use yarc.Protocol.Command.{parse_command}
use yarc.SimpleClient.{Callback, Client}
use yarc.PubSub.{
  Subscription, find_subscription, erase_subscription, subscribe, unsubscribe, unsubscribe_text,
  find_callback, dispatch_data, dispatch_pub_sub_message,
}
use yarc.PubSub.Ascending.{
  IsAscending, find_subscription-none, erase_subscription-IsAscending,
  find_subscription-erase_subscription, insert_subscription-IsAscending,
  find_subscription-insert_subscription,
}

-- A message on a channel, as Redis sends it to a subscriber.
abbrev pub on_channel : Bytes → Tree → Trees → Tree
on_channel channel kind rest = bare (
    aggregate array false
      (more_trees kind (more_trees (bare (blob blob_string false channel)) rest)))

callback_of : Option Subscription → Option Callback
callback_of none = none
callback_of (some s) = some s.callback

dispatch-on_channel :
    (ss : List Subscription) (channel : Bytes) (kind : Tree) (rest : Trees)
    → (dispatch_pub_sub_message ss (on_channel channel kind rest)).0
      ≡ callback_of (find_subscription channel ss)
unfolding dispatch_pub_sub_message dispatch_data find_callback blob_value get_element count_trees
    callback_of
dispatch-on_channel ss channel kind rest =
    let many : ltb (suc (suc (count_trees rest))) 2 ≡ false = ground arith in
    elim (Option-cases (find_subscription channel ss)) [
      | inl e ↦ rw (find_callback, many, e) refl
      | inr (s, e) ↦ rw (find_callback, many, e) refl
    ]

callback_of-if :
    (t : Bool) (o p : Option Subscription)
    → callback_of (if t then o else p) ≡ (if t then callback_of o else callback_of p)
callback_of-if true o p = refl
callback_of-if false o p = refl

erase_subscription-absent :
    (channel : Bytes) (ss : List Subscription)
    → find_subscription channel ss ≡ none
    → erase_subscription channel ss ≡ ss
unfolding erase_subscription
erase_subscription-absent channel [] h = refl
erase_subscription-absent channel (s ∷ ss) h =
    let (apart, absent) = find_subscription-none channel s ss h in
    rw apart
      (ap (λ (rest : List Subscription). s ∷ rest) (erase_subscription-absent channel ss absent))

-- Unsubscribe erases the channel, where it returns and whatever it returns.
unsubscribe-erase_subscription :
    (request_sync : Data → Client → Option Tree × Client) (channel : Bytes)
    (ss ss' : List Subscription) (client client' : Client) (ok : Bool)
    → unsubscribe request_sync channel ss client ≡ some (ok, ss', client')
    → erase_subscription (c_str channel) ss ≡ ss'
unfolding unsubscribe
unsubscribe-erase_subscription request_sync channel ss ss' client client' ok h =
    elim (Option-cases (find_subscription (c_str channel) ss)) [
      | inl e ↦
          let run : some (false, ss, client) ≡ some (ok, ss', client') = rw (unsubscribe, e) at h in
          let same : (false, ss, client) ≡ (ok, ss', client') = cc in
          erase_subscription-absent (c_str channel) ss e
          ∙ ap (λ (r : Bool × List Subscription × Client). r.1) same
      | inr (s, e) ↦ elim (Option-cases (parse_command (unsubscribe_text channel))) [
        | inl f ↦
            absurd (let broken : none ≡ some (ok, ss', client') = rw (unsubscribe, e, f) at h in cc)
        | inr (d, f) ↦
            let r = request_sync d client in
            let run : some (
              elim r.0 [ none ↦ false | some t ↦ true ],
              erase_subscription (c_str channel) ss,
              r.1,
            )
                ≡ some (ok, ss', client') =
              rw (unsubscribe, e, f) at h in
            ap (λ (o : Option (Bool × List Subscription × Client)). erased o) run
      ]
    ]
  where
    erased : Option (Bool × List Subscription × Client) → List Subscription
    erased none = []
    erased (some r) = r.1

subscribe-found :
    (channel : Bytes) (callback : Callback) (c : Bytes) (ss : List Subscription)
    → IsAscending ss
    → IsAscending (subscribe channel callback ss)
      × (callback_of (find_subscription c (subscribe channel callback ss)) ≡ (
          if bytes_eq (c_str channel) c
          then some callback
          else callback_of (find_subscription c ss)))
unfolding subscribe callback_of
subscribe-found channel callback c ss h =
    let ch = c_str channel in
    let s : Subscription = record { channel = ch; callback = callback; subscribed = false } in
    let less = find_subscription-erase_subscription ch ch ss h in
    let absent : find_subscription ch (erase_subscription ch ss) ≡ none =
      rw (bytes_eq_refl ch) at less in
    let added = find_subscription-insert_subscription c s (erase_subscription ch ss) absent in
    let others = find_subscription-erase_subscription c ch ss h in
    (
      insert_subscription-IsAscending s (erase_subscription ch ss) absent
          (erase_subscription-IsAscending ch ss h),
      elim (Bool-cases (bytes_eq ch c)) [
        | inl e ↦ rw e (rw e at (ap callback_of added))
        | inr e ↦ rw e (rw e at (ap callback_of added) ∙ rw e at (ap callback_of others))
      ],
    )

-- In a map in the order of its channels, which Subscribe and Unsubscribe keep, a message on a
-- channel calls the callback of the last Subscribe to it; after an Unsubscribe that returns,
-- whatever the server says to it, a message on the channel calls none; on other channels nothing
-- changes.
pub dispatch_pub_sub_message-subscribe :
    (ss ss' : List Subscription) (channel : Bytes) (callback : Callback) (c : Bytes) (kind : Tree)
    (rest : Trees) (request_sync : Data → Client → Option Tree × Client) (client client' : Client)
    (ok : Bool)
    → IsAscending ss
    → unsubscribe request_sync channel ss client ≡ some (ok, ss', client')
    → IsAscending (subscribe channel callback ss)
      × IsAscending ss'
      × ((dispatch_pub_sub_message (subscribe channel callback ss) (on_channel c kind rest)).0 ≡ (
          if bytes_eq (c_str channel) c
          then some callback
          else (dispatch_pub_sub_message ss (on_channel c kind rest)).0))
      × ((dispatch_pub_sub_message ss' (on_channel c kind rest)).0 ≡ (
          if bytes_eq (c_str channel) c
          then none
          else (dispatch_pub_sub_message ss (on_channel c kind rest)).0))
unfolding callback_of
dispatch_pub_sub_message-subscribe ss ss' channel callback c kind rest request_sync client client'
      ok h gone =
    let ch = c_str channel in
    let erased =
      unsubscribe-erase_subscription request_sync channel ss ss' client client' ok gone in
    let sorted = erase_subscription-IsAscending ch ss h in
    let (ascending, found) = subscribe-found channel callback c ss h in
    let before = dispatch-on_channel ss c kind rest in
    let less = find_subscription-erase_subscription c ch ss h in
    (
      ascending,
      subst IsAscending erased sorted,
      dispatch-on_channel (subscribe channel callback ss) c kind rest
          ∙ found
          ∙ ap (λ (o : Option Callback). if bytes_eq ch c then some callback else o) (sym before),
      dispatch-on_channel ss' c kind rest
          ∙ ap (λ (map : List Subscription). callback_of (find_subscription c map)) (sym erased)
          ∙ ap callback_of less
          ∙ callback_of-if (bytes_eq ch c) none (find_subscription c ss)
          ∙ ap (λ (o : Option Callback). if bytes_eq ch c then none else o) (sym before),
    )
