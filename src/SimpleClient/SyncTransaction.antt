-- ===== src/SimpleClient/SyncTransaction.antt =====
-- MakeTransactionRequestSync, which opens with EXEC and whose loop stays at the first request.
use yarc.Base.{
  ℕ, zero, suc, ◌≡◌, refl, Bool, true, false, Option, none, some, List, [], ◌∷◌, if◌then◌else◌,
}
use yarc.Protocol.Data.{Tree, Data, bare, payload, simple, simple_error}
use yarc.Protocol.Command.{parse_command}
use yarc.SimpleClient.Transactions.{word_command}

-- Cast<SimpleErrorData>
unfoldable pub is_simple_error : Data → Bool
is_simple_error (simple simple_error value) = true
is_simple_error _ = false

-- What is returned, the response and the state behind it.
abbrev pub Returned : Type 0 → Type 0
Returned S = Bool × Option Tree × S

-- `request_sync` is MakeRequestSync, and `discard` the DISCARD behind an error.
module _ {S : Type 0} (request_sync : Tree → S → Option Tree × S) (discard : S → S) where
  -- The loop over the requests, which never counts `i`.
  unfoldable pub send_first : (fuel : ℕ) → Tree → S → Option (Returned S)
  unfolding is_simple_error
  send_first zero d s = none
  send_first (suc fuel) d s =
      let r = request_sync d s in
      let rest = send_first fuel d r.1 in
      elim r.0 [
        | none ↦ some (false, none, r.1)
        | some t ↦ if is_simple_error (payload t) then some (true, some t, discard r.1) else rest
      ]

  -- The last EXEC.
  unfoldable pub exec_sync : Tree → S → Returned S
  exec_sync exec s =
      let r = request_sync exec s in
      elim r.0 [ none ↦ (false, none, r.1) | some t ↦ (true, some t, r.1) ]

  unfoldable pub send_requests : (fuel : ℕ) → (exec : Tree) → List Tree → S → Option (Returned S)
  unfolding send_first exec_sync
  send_requests fuel exec [] s = some (exec_sync exec s)
  send_requests fuel exec (d ∷ ds) s = send_first fuel d s

  -- There is no value where the rounds end before the loop does.
  unfoldable pub make_transaction_request_sync :
      (fuel : ℕ) → (request_data_array : List Tree) → S → Option (Returned S)
  unfolding parse_command is_simple_error send_requests
  make_transaction_request_sync fuel request_data_array s =
      elim (parse_command (b'E' ∷ b'X' ∷ b'E' ∷ b'C' ∷ [])) [
        | none ↦ none
        | some exec ↦
            let r = request_sync (bare exec) s in
            elim r.0 [
              | none ↦ some (false, none, r.1)
              | some t ↦
                  if is_simple_error (payload t)
                  then some (true, some t, r.1)
                  else send_requests fuel (bare exec) request_data_array r.1
            ]
      ]

  module _
      (answered : (d : Tree) (s : S)
        → (t : Tree) × (s' : S) × (request_sync d s ≡ (some t, s'))
          × (is_simple_error (payload t) ≡ false)) where
    send_first-none : (fuel : ℕ) (d : Tree) (s : S) → send_first fuel d s ≡ none
    unfolding send_first
    send_first-none zero d s = refl
    send_first-none (suc fuel) d s =
        let (t, s', run, fine) = answered d s in
        rw (send_first, run, fine) (send_first-none fuel d (request_sync d s).1)

    -- Where every request is answered without an error, a transaction that is not empty never
    -- returns.
    pub make_transaction_request_sync-none :
        (fuel : ℕ) (d : Tree) (ds : List Tree) (s : S)
        → make_transaction_request_sync fuel (d ∷ ds) s ≡ none
    unfolding make_transaction_request_sync send_requests
    make_transaction_request_sync-none fuel d ds s =
        let exec = word_command (b'E' ∷ b'X' ∷ b'E' ∷ b'C' ∷ []) in
        let (t, s', run, fine) = answered exec s in
        rw (make_transaction_request_sync, run, fine)
          (send_first-none fuel d (request_sync exec s).1)
