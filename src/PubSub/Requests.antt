-- ===== src/PubSub/Requests.antt =====
-- What PubSub asks of the server, and whom it calls.
use yarc.Base.{
  ◌+◌, ◌<◌, ◌≡◌, refl, sym, ap, ◌∙◌, true, false, Bool-cases, inl, inr, some, List, [], ◌∷◌, ◌++◌,
  Bytes, length, All, if◌then◌else◌, arith, append_assoc, append-nil, lt→ltb,
}
use yarc.Protocol.Data.{Tree, Data, bare, blob, blob_string, aggregate, array, no_trees, more_trees}
use yarc.Protocol.Parser.{c_str}
use yarc.Protocol.Command.{words_loop, word_elements, parse_command}
use yarc.Protocol.Command.Plain.{IsPlain, c_str-plain, words_loop-plain}
use yarc.SimpleClient.{Client, Request, delete_response, make_request_async}
use yarc.PubSub.{Subscription, subscribe_text, update_one, update_loop, resubscribe}

-- A channel that is a word, not empty, and fits the buffer with its command.
abbrev pub IsChannel : Bytes → Type 0
IsChannel channel = All IsPlain channel × (0 < length channel) × (length channel < 1014)

-- The command for a channel.
abbrev pub subscribe_data : Bytes → Data
subscribe_data channel = aggregate array false (
    more_trees
      (bare (
        blob blob_string false (b'S' ∷ b'U' ∷ b'B' ∷ b'S' ∷ b'C' ∷ b'R' ∷ b'I' ∷ b'B' ∷ b'E' ∷ [])))
      (more_trees (bare (blob blob_string false channel)) no_trees))

parse_command-subscribe_text :
    (channel : Bytes)
    → IsChannel channel
    → parse_command (subscribe_text channel) ≡ some (subscribe_data channel)
unfolding parse_command subscribe_text word_elements words_loop c_str
parse_command-subscribe_text channel h =
    let fits =
      lt→ltb
        (length (b'S' ∷ b'U' ∷ b'B' ∷ b'S' ∷ b'C' ∷ b'R' ∷ b'I' ∷ b'B' ∷ b'E' ∷ b' ' ∷ channel))
        1024 (omega (arith, h.2)) in
    rw (c_str-plain channel h.0, c_str-plain channel h.0, fits, words_loop-plain [] channel h.0 h.1)
      refl

-- What the loop asks for.
abbrev pub asked : List Subscription → List Tree
asked [] = []
asked (s ∷ ss) = if s.subscribed then asked ss else bare (subscribe_data s.channel) ∷ asked ss

abbrev pub all_asked : List Subscription → List Tree
all_asked [] = []
all_asked (s ∷ ss) = bare (subscribe_data s.channel) ∷ all_asked ss

abbrev pub marked : List Subscription → List Subscription
marked [] = []
marked (s ∷ ss) = record s { subscribed = true } ∷ marked ss

abbrev pub unsent_data : List Request → List Tree
unsent_data [] = []
unsent_data (r ∷ rs) = r.request_data ∷ unsent_data rs

unsent_data-append :
    (rs qs : List Request) → unsent_data (rs ++ qs) ≡ unsent_data rs ++ unsent_data qs
unsent_data-append [] qs = refl
unsent_data-append (r ∷ rs) qs = ap (◌∷◌ r.request_data) (unsent_data-append rs qs)

abbrev pub Asks : List Subscription → Client → List Subscription → List Tree → Type 0
Asks ss c ss' trees =
    (c' : Client) × (update_loop ss c ≡ some (ss', c'))
    × (unsent_data c'.unsent_request_list ≡ unsent_data c.unsent_request_list ++ trees)
    × (c'.num_requests_in_flight ≡ c.num_requests_in_flight + length trees)

update_loop-nil : (c : Client) → update_loop [] c ≡ some ([], c)
unfolding update_loop
update_loop-nil c = refl

update_loop-cons :
    (s s' : Subscription) (ss ss' : List Subscription) (c c' c'' : Client)
    → update_one s c ≡ some (s', c')
    → update_loop ss c' ≡ some (ss', c'')
    → update_loop (s ∷ ss) c ≡ some (s' ∷ ss', c'')
unfolding update_loop
update_loop-cons s s' ss ss' c c' c'' e f = rw (update_loop, e, f) refl

update_one-done :
    (s : Subscription) (c : Client)
    → s.subscribed ≡ true
    → update_one s c ≡ some (record s { subscribed = true }, c)
unfolding update_one
update_one-done s c e = rw (update_one, e) refl

abbrev asking : Subscription → Client → Client
asking s c = (make_request_async (bare (subscribe_data s.channel)) delete_response true c).1

update_one-asked :
    (s : Subscription) (c : Client)
    → s.subscribed ≡ false
    → IsChannel s.channel
    → update_one s c ≡ some (record s { subscribed = true }, asking s c)
unfolding update_one
update_one-asked s c e h = rw (update_one, e, parse_command-subscribe_text s.channel h) refl

asks_last :
    (s : Subscription) (c : Client)
    → unsent_data (asking s c).unsent_request_list
      ≡ unsent_data c.unsent_request_list ++ bare (subscribe_data s.channel) ∷ []
unfolding make_request_async
asks_last s c = unsent_data-append c.unsent_request_list _

counts_one :
    (s : Subscription) (c : Client)
    → (asking s c).num_requests_in_flight ≡ c.num_requests_in_flight + 1
unfolding make_request_async
counts_one s c = refl

update_loop-Asks :
    (ss : List Subscription) (c : Client)
    → All (λ s. IsChannel s.channel) ss
    → Asks ss c (marked ss) (asked ss)
update_loop-Asks [] c h =
    (c, update_loop-nil c, sym (append-nil (unsent_data c.unsent_request_list)), omega arith)
update_loop-Asks (s ∷ ss) c h = elim (Bool-cases s.subscribed) [
  | inl e ↦
      let (c', run, unsent, count) = update_loop-Asks ss c h.1 in
      (c', update_loop-cons s _ ss _ c c c' (update_one-done s c e) run, rw e unsent, rw e count)
  | inr e ↦
      let (c', run, unsent, count) = update_loop-Asks ss (asking s c) h.1 in
      (
        c',
        update_loop-cons s _ ss _ c (asking s c) c' (update_one-asked s c e h.0) run,
        unsent
            ∙ rw (asks_last s c, e)
                (append_assoc (unsent_data c.unsent_request_list)
                  (bare (subscribe_data s.channel) ∷ []) (asked ss)),
        rw e (omega (arith, count, counts_one s c)),
      )
]

IsChannel-resubscribe :
    (ss : List Subscription)
    → All (λ s. IsChannel s.channel) ss
    → All (λ s. IsChannel s.channel) (resubscribe ss)
unfolding resubscribe
IsChannel-resubscribe [] h = tt
IsChannel-resubscribe (s ∷ ss) h = (h.0, IsChannel-resubscribe ss h.1)

IsChannel-marked :
    (ss : List Subscription)
    → All (λ s. IsChannel s.channel) ss
    → All (λ s. IsChannel s.channel) (marked ss)
IsChannel-marked [] h = tt
IsChannel-marked (s ∷ ss) h = (h.0, IsChannel-marked ss h.1)

asked-resubscribe : (ss : List Subscription) → asked (resubscribe ss) ≡ all_asked ss
unfolding resubscribe
asked-resubscribe [] = refl
asked-resubscribe (s ∷ ss) = ap (◌∷◌ (bare (subscribe_data s.channel))) (asked-resubscribe ss)

marked-resubscribe : (ss : List Subscription) → marked (resubscribe ss) ≡ marked ss
unfolding resubscribe
marked-resubscribe [] = refl
marked-resubscribe (s ∷ ss) = ap (◌∷◌ (record s { subscribed = true })) (marked-resubscribe ss)

-- A loop over what is marked.
update_loop-marked :
    (ss : List Subscription) (c : Client) → update_loop (marked ss) c ≡ some (marked ss, c)
update_loop-marked [] c = update_loop-nil c
update_loop-marked (s ∷ ss) c =
    update_loop-cons (record s { subscribed = true }) _ (marked ss) (marked ss) c c c
      (update_one-done (record s { subscribed = true }) c refl) (update_loop-marked ss c)

-- After Resubscribe, the loop of Update puts a SUBSCRIBE command for each channel of the map, in
-- order, behind the unsent requests and marks all channels, and the loop then asks for nothing
-- more, if each channel is a word without quotes and NULs that fits the buffer with its command.
pub update_loop-resubscribe :
    (ss : List Subscription) (c : Client)
    → All (λ s. IsChannel s.channel) ss
    → Asks (resubscribe ss) c (marked ss) (all_asked ss)
      × ((c' : Client) → update_loop (marked ss) c' ≡ some (marked ss, c'))
update_loop-resubscribe ss c h =
    let asks = update_loop-Asks (resubscribe ss) c (IsChannel-resubscribe ss h) in
    (rw (marked-resubscribe ss, asked-resubscribe ss) at asks, update_loop-marked ss)
