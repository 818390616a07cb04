-- ===== src/Examples/Messages.antt =====
-- Subscriptions at work.
use yarc.Base.{
  ℕ, ◌≡◌, Bool, true, false, refl, Option, none, some, List, [], ◌∷◌, All, arith, if◌then◌else◌,
}
use yarc.SimpleClient.{Client, new_client, delete_response}
use yarc.Protocol.Data.{Tree, Data, bare, null_data, no_trees}
use yarc.Protocol.Fields.{bytes_eq, bytes_lt}
use yarc.Protocol.Parser.{c_str}
use yarc.PubSub.{
  Subscription, update_loop, resubscribe, subscribe, unsubscribe, dispatch_pub_sub_message,
}
use yarc.PubSub.Ascending.{IsAscending, Above}
use yarc.PubSub.Dispatch.{on_channel, dispatch_pub_sub_message-subscribe}
use yarc.PubSub.Requests.{IsChannel, Asks, marked, all_asked, update_loop-resubscribe}

abbrev entry : ℕ → Bool → Subscription
entry name subscribed = record {
  channel = name ∷ [];
  callback = delete_response;
  subscribed = subscribed;
}

abbrev entries : List Subscription
entries = entry b'a' true ∷ entry b'b' false ∷ []

entries-IsChannel : All (λ s. IsChannel s.channel) entries
entries-IsChannel = (
  (
    (((λ e. omega (arith, e)), (λ e. omega (arith, e)), (λ e. omega (arith, e))), tt),
    omega arith,
    omega arith,
  ),
  (
    (
      (((λ e. omega (arith, e)), (λ e. omega (arith, e)), (λ e. omega (arith, e))), tt),
      omega arith,
      omega arith,
    ),
    tt,
  ),
)

update_loop-resubscribe_example :
    Asks (resubscribe entries) (new_client 1) (marked entries) (all_asked entries)
    × ((c' : Client) → update_loop (marked entries) c' ≡ some (marked entries, c'))
update_loop-resubscribe_example = update_loop-resubscribe entries (new_client 1) entries-IsChannel

abbrev refuses : Data → Client → Option Tree × Client
refuses d c = (none, c)

entries-IsAscending : IsAscending entries
unfolding IsAscending Above bytes_lt
entries-IsAscending = ((refl, tt), (tt, tt))

gone :
    unsubscribe refuses (b'b' ∷ []) entries (new_client 1)
    ≡ some (false, entry b'a' true ∷ [], new_client 1)
unfolding unsubscribe
gone = refl

abbrev message : Tree
message = on_channel (b'b' ∷ []) (bare null_data) no_trees

dispatch_pub_sub_message-subscribe_example :
    IsAscending (subscribe (b'b' ∷ []) delete_response entries)
    × IsAscending (entry b'a' true ∷ [])
    × ((dispatch_pub_sub_message (subscribe (b'b' ∷ []) delete_response entries) message).0 ≡ (
        if bytes_eq (c_str (b'b' ∷ [])) (b'b' ∷ [])
        then some delete_response
        else (dispatch_pub_sub_message entries message).0))
    × ((dispatch_pub_sub_message (entry b'a' true ∷ []) message).0 ≡ (
        if bytes_eq (c_str (b'b' ∷ [])) (b'b' ∷ [])
        then none
        else (dispatch_pub_sub_message entries message).0))
dispatch_pub_sub_message-subscribe_example =
    dispatch_pub_sub_message-subscribe entries (entry b'a' true ∷ []) (b'b' ∷ []) delete_response
      (b'b' ∷ []) (bare null_data) no_trees refuses (new_client 1) (new_client 1) false
      entries-IsAscending gone
