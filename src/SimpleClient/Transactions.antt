-- ===== src/SimpleClient/Transactions.antt =====
-- MakeTransactionRequestAsync: a transaction is the requests between MULTI and EXEC.
use yarc.Base.{
  ℕ, suc, ◌+◌, ◌≡◌, refl, sym, ap, ◌∙◌, true, false, Option, none, some, List, [], ◌∷◌, ◌++◌, Bytes,
  length, map, arith, append_assoc, append-nil, length-append,
}
use yarc.Protocol.Data.{Tree, bare, blob, blob_string, aggregate, array, no_trees, more_trees}
use yarc.Protocol.Parser.{c_str}
use yarc.Protocol.Command.{words_loop, word_elements, parse_command}
use yarc.SimpleClient.{
  Callback, Client, Request, delete_response, make_request_async, send_head, send_one,
}
use yarc.SimpleClient.Update.{send_loop}

-- The loop over the requests, which are deleted in any case: `deleteData` is not passed on.
unfoldable pub make_requests : List Tree → Client → Client
unfolding make_request_async
make_requests [] c = c
make_requests (d ∷ ds) c = make_requests ds (make_request_async d delete_response true c).1

-- A request by a text.
unfoldable pub make_text_request : Bytes → Callback → Client → Option Client
unfolding parse_command make_request_async
make_text_request text callback c = elim (parse_command text) [
  | none ↦ none
  | some d ↦ some (make_request_async (bare d) callback true c).1
]

unfoldable pub make_transaction_request_async : List Tree → Callback → Client → Option Client
unfolding make_text_request make_requests
make_transaction_request_async request_data callback c =
    elim (make_text_request (b'M' ∷ b'U' ∷ b'L' ∷ b'T' ∷ b'I' ∷ []) delete_response c) [
      | none ↦ none
      | some c' ↦
          make_text_request (b'E' ∷ b'X' ∷ b'E' ∷ b'C' ∷ []) callback
            (make_requests request_data c')
    ]

abbrev pub word_command : Bytes → Tree
word_command word =
    bare (aggregate array false (more_trees (bare (blob blob_string false word)) no_trees))

-- Requests with consecutive ids.
abbrev pub numbered : ℕ → List (Tree × Callback) → List Request
numbered id [] = []
numbered id (r ∷ rs) =
    record {
      request_data = r.0;
      response_data = none;
      callback = r.1;
      owns_request_data_mem = true;
      owns_response_data_mem = false;
      request_id = id;
    }
    ∷ numbered (id + 1) rs

-- What a transaction consists of.
abbrev pub transaction : List Tree → Callback → List (Tree × Callback)
transaction ds callback =
    (word_command (b'M' ∷ b'U' ∷ b'L' ∷ b'T' ∷ b'I' ∷ []), delete_response)
    ∷ (map (λ d. (d, delete_response)) ds
        ++ (word_command (b'E' ∷ b'X' ∷ b'E' ∷ b'C' ∷ []), callback) ∷ [])

-- A client with more requests.
abbrev with_requests : Client → List (Tree × Callback) → Client
with_requests c rs = record c {
  num_requests_in_flight = c.num_requests_in_flight + length rs;
  next_request_id = c.next_request_id + length rs;
  unsent_request_list = c.unsent_request_list ++ numbered c.next_request_id rs;
}

numbered-append :
    (id : ℕ) (rs qs : List (Tree × Callback))
    → numbered id (rs ++ qs) ≡ numbered id rs ++ numbered (id + length rs) qs
numbered-append id [] qs = let same : id + 0 ≡ id = omega arith in rw same refl
numbered-append id (r ∷ rs) qs =
    let shift : id + suc (length rs) ≡ id + 1 + length rs = omega arith in
    rw (numbered-append (id + 1) rs qs, shift) refl

-- Clients that differ in what a request changes.
same_client :
    (c : Client) (unsent unsent' : List Request) (count count' id id' : ℕ)
    → unsent ≡ unsent'
    → count ≡ count'
    → id ≡ id'
    → record c {
      unsent_request_list = unsent;
      num_requests_in_flight = count;
      next_request_id = id;
    }
      ≡ record c {
        unsent_request_list = unsent';
        num_requests_in_flight = count';
        next_request_id = id';
      }
same_client c unsent unsent' count count' id id' e f g = rw (e, f, g) refl

with_requests-append :
    (c : Client) (rs qs : List (Tree × Callback))
    → with_requests (with_requests c rs) qs ≡ with_requests c (rs ++ qs)
with_requests-append c rs qs =
    same_client c _ _ _ _ _ _
      (append_assoc c.unsent_request_list (numbered c.next_request_id rs)
          (numbered (c.next_request_id + length rs) qs)
        ∙ ap (λ (xs : List Request). c.unsent_request_list ++ xs)
            (sym (numbered-append c.next_request_id rs qs)))
      (omega (arith, length-append rs qs)) (omega (arith, length-append rs qs))

with_requests-nil : (c : Client) → with_requests c [] ≡ c
with_requests-nil c =
    same_client c _ c.unsent_request_list _ c.num_requests_in_flight _ c.next_request_id
      (append-nil c.unsent_request_list) (omega arith) (omega arith)

make_request-with_requests :
    (d : Tree) (f : Callback) (c : Client)
    → (make_request_async d f true c).1 ≡ with_requests c ((d, f) ∷ [])
unfolding make_request_async
make_request-with_requests d f c = refl

make_requests-with_requests :
    (ds : List Tree) (c : Client)
    → make_requests ds c ≡ with_requests c (map (λ d. (d, delete_response)) ds)
unfolding make_requests make_request_async
make_requests-with_requests [] c = sym (with_requests-nil c)
make_requests-with_requests (d ∷ ds) c =
    make_requests-with_requests ds (with_requests c ((d, delete_response) ∷ []))
    ∙ with_requests-append c ((d, delete_response) ∷ []) (map (λ d. (d, delete_response)) ds)

make_transaction_request_async-with_requests :
    (ds : List Tree) (callback : Callback) (c : Client)
    → make_transaction_request_async ds callback c
      ≡ some (with_requests c (transaction ds callback))
unfolding make_transaction_request_async make_text_request parse_command words_loop word_elements
    c_str make_request_async
make_transaction_request_async-with_requests ds callback c =
    let multi : Tree × Callback =
      (word_command (b'M' ∷ b'U' ∷ b'L' ∷ b'T' ∷ b'I' ∷ []), delete_response) in
    let middle : List (Tree × Callback) = map (λ (d : Tree). (d, delete_response)) ds in
    let exec : Tree × Callback = (word_command (b'E' ∷ b'X' ∷ b'E' ∷ b'C' ∷ []), callback) in
    let c' = with_requests c (multi ∷ []) in
    ap (λ (c'' : Client). some (with_requests c'' (exec ∷ []))) (make_requests-with_requests ds c')
    ∙ ap {B = Option Client} some (
        with_requests-append c' middle (exec ∷ [])
        ∙ with_requests-append c (multi ∷ []) (middle ++ exec ∷ []))

abbrev pub data_of : List Request → List Tree
data_of [] = []
data_of (r ∷ rs) = r.request_data ∷ data_of rs

data_of-append : (rs qs : List Request) → data_of (rs ++ qs) ≡ data_of rs ++ data_of qs
data_of-append [] qs = refl
data_of-append (r ∷ rs) qs = ap (◌∷◌ r.request_data) (data_of-append rs qs)

-- The loop of Update that sends prints what is unsent, in order.
send_loop-printed :
    (rs : List Request) (c : Client)
    → c.unsent_request_list ≡ rs
    → (send_loop (length rs) c).printed ≡ c.printed ++ data_of rs
unfolding send_loop send_one send_head
send_loop-printed [] c e = sym (append-nil c.printed)
send_loop-printed (r ∷ rs) c e = rw e (
    send_loop-printed rs (send_head (r ∷ rs) c) refl
    ∙ append_assoc c.printed (r.request_data ∷ []) (data_of rs))

data_of-between :
    (id : ℕ) (ds : List Tree) (d : Tree) (f : Callback)
    → data_of (numbered id (map (λ x. (x, delete_response)) ds ++ (d, f) ∷ [])) ≡ ds ++ d ∷ []
data_of-between id [] d f = refl
data_of-between id (x ∷ ds) d f = ap (◌∷◌ x) (data_of-between (id + 1) ds d f)

length-between :
    (ds : List Tree) (r : Tree × Callback)
    → length (map (λ (x : Tree). (x, delete_response)) ds ++ r ∷ []) ≡ length ds + 1
length-between [] r = omega arith
length-between (d ∷ ds) r = omega (arith, length-between ds r)

-- MakeTransactionRequestAsync puts MULTI, the given requests in order and EXEC behind the unsent
-- requests, with consecutive ids and the callback at EXEC alone, and counts them as in flight; the
-- loop of Update that sends what is unsent then prints them in this order with nothing between.
pub make_transaction_request_async-send_loop :
    (ds : List Tree) (callback : Callback) (c : Client)
    → (c' : Client) × (make_transaction_request_async ds callback c ≡ some c')
      × (c'.unsent_request_list
          ≡ c.unsent_request_list ++ numbered c.next_request_id (transaction ds callback))
      × (c'.num_requests_in_flight ≡ c.num_requests_in_flight + (length ds + 2))
      × ((send_loop (length c'.unsent_request_list) c').printed
          ≡ c.printed
            ++ (data_of c.unsent_request_list
                ++ word_command (b'M' ∷ b'U' ∷ b'L' ∷ b'T' ∷ b'I' ∷ [])
                  ∷ (ds ++ word_command (b'E' ∷ b'X' ∷ b'E' ∷ b'C' ∷ []) ∷ [])))
make_transaction_request_async-send_loop ds callback c =
    let rs = transaction ds callback in
    let c' = with_requests c rs in
    let between =
      data_of-between (c.next_request_id + 1) ds (word_command (b'E' ∷ b'X' ∷ b'E' ∷ b'C' ∷ []))
        callback in
    let unsent = data_of-append c.unsent_request_list (numbered c.next_request_id rs) in
    (
      c',
      make_transaction_request_async-with_requests ds callback c,
      refl,
      omega (arith, length-between ds (word_command (b'E' ∷ b'X' ∷ b'E' ∷ b'C' ∷ []), callback)),
      send_loop-printed c'.unsent_request_list c' refl
          ∙ ap (λ (xs : List Tree). c.printed ++ xs) (unsent ∙ rw between refl),
    )
