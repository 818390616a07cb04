-- ===== src/SimpleClient/Cancelled.antt =====
-- What CancelAsyncRequest leaves of a request.
use yarc.Base.{
  ℕ, suc, ◌-◌, ◌≤◌, ◌<◌, ◌≡◌, ◌≢◌, ◌⊎◌, refl, inl, inr, Bool, true, false, Option, none, some, List,
  [], ◌∷◌, ◌==◌, All, Bool-cases, ==→eq, eq→==, arith,
}
use yarc.SimpleClient.{
  Request, Client, delete_response, remove_request, silence_request, cancel_pass,
  cancel_async_request,
}
use yarc.SimpleClient.Invariant.{Ascends, Ascends-le, IsValid}

-- No request of this id has a callback other than the default.
abbrev pub IsSilent : ℕ → List Request → Type 0
IsSilent id = All (λ (r : Request). (r.request_id ≢ id) ⊎ (r.callback ≡ delete_response))

pub record IsCancelled (id : ℕ) (c : Client) : Type 0 where
  pub unsent_silent : IsSilent id c.unsent_request_list
  pub sent_silent : IsSilent id c.sent_request_list
  pub served_silent : IsSilent id c.served_request_list

Ascends-above : (id lo hi : ℕ) (rs : List Request) → Ascends lo rs hi → id < lo → IsSilent id rs
Ascends-above id lo hi [] h below = tt
Ascends-above id lo hi (r ∷ rs) h below = (
  inl (omega (arith, h.0, below)),
  Ascends-above id (suc r.request_id) hi rs h.1 (omega (arith, h.0, below)),
)

Ascends-below : (id lo hi : ℕ) (rs : List Request) → Ascends lo rs hi → hi ≤ id → IsSilent id rs
Ascends-below id lo hi [] h above = tt
Ascends-below id lo hi (r ∷ rs) h above = (
  inl (omega (arith, Ascends-le (suc r.request_id) hi rs h.1, above)),
  Ascends-below id (suc r.request_id) hi rs h.1 above,
)

-- What a search for the id makes of a list.
abbrev Found : (id lo hi : ℕ) → List Request → Option (List Request) → Type 0
Found id lo hi rs none = IsSilent id rs
Found id lo hi rs (some rs') = IsSilent id rs' × (lo ≤ id) × (id < hi)

consed :
    (id lo hi : ℕ) (r : Request) (rs : List Request) (o : Option (List Request))
    → (r.request_id == id) ≡ false
    → lo ≤ r.request_id
    → Found id (suc r.request_id) hi rs o
    → Found id lo hi (r ∷ rs) (elim o [ none ↦ none | some rs' ↦ some (r ∷ rs') ])
consed id lo hi r rs none other low h = (inl (λ e. let same = eq→== _ _ e in cc), h)
consed id lo hi r rs (some rs') other low h =
    ((inl (λ e. let same = eq→== _ _ e in cc), h.0), omega (arith, low, h.1), h.2)

remove_request-Found :
    (id lo hi : ℕ) (rs : List Request) → Ascends lo rs hi → Found id lo hi rs (remove_request id rs)
unfolding remove_request
remove_request-Found id lo hi [] h = tt
remove_request-Found id lo hi (r ∷ rs) h = elim (Bool-cases (r.request_id == id)) [
  | inl e ↦
      let same = ==→eq r.request_id id e in
      let le = Ascends-le (suc r.request_id) hi rs h.1 in
      rw e (
        Ascends-above id (suc r.request_id) hi rs h.1 (omega (arith, same)),
        omega (arith, same, h.0),
        omega (arith, same, le),
      )
  | inr e ↦ rw e (
      consed id lo hi r rs (remove_request id rs) e h.0
        (remove_request-Found id (suc r.request_id) hi rs h.1))
]

silence_request-Found :
    (id lo hi : ℕ) (rs : List Request)
    → Ascends lo rs hi
    → Found id lo hi rs (silence_request id rs)
unfolding silence_request
silence_request-Found id lo hi [] h = tt
silence_request-Found id lo hi (r ∷ rs) h = elim (Bool-cases (r.request_id == id)) [
  | inl e ↦
      let same = ==→eq r.request_id id e in
      let le = Ascends-le (suc r.request_id) hi rs h.1 in
      rw e (
        (inr refl, Ascends-above id (suc r.request_id) hi rs h.1 (omega (arith, same))),
        omega (arith, same, h.0),
        omega (arith, same, le),
      )
  | inr e ↦ rw e (
      consed id lo hi r rs (silence_request id rs) e h.0
        (silence_request-Found id (suc r.request_id) hi rs h.1))
]

-- A pass that succeeds cancels the request; one that fails found none.
abbrev Passed : ℕ → Client → Option Client → Type 0
Passed id c none = IsCancelled id c
Passed id c (some d) = IsCancelled id d

cancel_pass-Passed : (id : ℕ) (c : Client) → IsValid c → Passed id c (cancel_pass id c)
unfolding cancel_pass
cancel_pass-Passed id c v =
    in_unsent (remove_request id c.unsent_request_list) (
      remove_request-Found id v.sent_below c.next_request_id c.unsent_request_list v.unsent_ascends)
  where
    sent_le : v.served_below ≤ v.sent_below
    sent_le = Ascends-le v.served_below v.sent_below c.sent_request_list v.sent_ascends

    in_served :
        (o : Option (List Request))
        → IsSilent id c.unsent_request_list
        → IsSilent id c.sent_request_list
        → Found id 0 v.served_below c.served_request_list o
        → Passed id c
            (elim o [ some rs ↦ some (record c { served_request_list = rs }) | none ↦ none ])
    in_served none hu hs h = record { unsent_silent = hu; sent_silent = hs; served_silent = h }
    in_served (some rs) hu hs h = record {
      unsent_silent = hu;
      sent_silent = hs;
      served_silent = h.0;
    }

    in_sent :
        (o : Option (List Request))
        → IsSilent id c.unsent_request_list
        → Found id v.served_below v.sent_below c.sent_request_list o
        → Passed id c (elim o [
          | some rs ↦ some (record c { sent_request_list = rs })
          | none ↦ elim (silence_request id c.served_request_list) [
            | some rs ↦ some (record c { served_request_list = rs })
            | none ↦ none
          ]
        ])
    in_sent none hu h =
        in_served (silence_request id c.served_request_list) hu h
          (silence_request-Found id 0 v.served_below c.served_request_list v.served_ascends)
    in_sent (some rs) hu h = record {
      unsent_silent = hu;
      sent_silent = h.0;
      served_silent = Ascends-below id 0 v.served_below c.served_request_list v.served_ascends h.1;
    }

    in_unsent :
        (o : Option (List Request))
        → Found id v.sent_below c.next_request_id c.unsent_request_list o
        → Passed id c (elim o [
          | some rs ↦ some (record c {
            unsent_request_list = rs;
            num_requests_in_flight = c.num_requests_in_flight - 1;
          })
          | none ↦ elim (silence_request id c.sent_request_list) [
            | some rs ↦ some (record c { sent_request_list = rs })
            | none ↦ elim (silence_request id c.served_request_list) [
              | some rs ↦ some (record c { served_request_list = rs })
              | none ↦ none
            ]
          ]
        ])
    in_unsent none h =
        in_sent (silence_request id c.sent_request_list) h
          (silence_request-Found id v.served_below v.sent_below c.sent_request_list v.sent_ascends)
    in_unsent (some rs) h = record {
      unsent_silent = h.0;
      sent_silent =
          Ascends-below id v.served_below v.sent_below c.sent_request_list v.sent_ascends h.1;
      served_silent =
          Ascends-below id 0 v.served_below c.served_request_list v.served_ascends
            (omega (arith, sent_le, h.1));
    }

-- The outcome of CancelAsyncRequest.
abbrev pub Outcome : (Client → Client) → ℕ → Client → Bool × Client → Type 0
Outcome meanwhile id c (true, d) = IsCancelled id d
Outcome meanwhile id c (false, d) =
    IsCancelled id c × IsCancelled id (meanwhile c) × (d ≡ meanwhile (meanwhile c))

-- On a client that is valid at both passes, CancelAsyncRequest that returns true leaves no request
-- of the id with a callback other than the default in any list; where it returns false, there was
-- none at either pass, and the client is what the other threads made of it.
pub cancel_async_request-Outcome :
    (meanwhile : Client → Client) (id : ℕ) (c : Client)
    → IsValid c
    → IsValid (meanwhile c)
    → Outcome meanwhile id c (cancel_async_request meanwhile id c)
unfolding cancel_async_request
cancel_async_request-Outcome meanwhile id c v v' =
    first (cancel_pass id c) (cancel_pass-Passed id c v)
  where
    second :
        (o : Option Client)
        → IsCancelled id c
        → Passed id (meanwhile c) o
        → Outcome meanwhile id c
            (elim o [ some c' ↦ (true, c') | none ↦ (false, meanwhile (meanwhile c)) ])
    second none h k = (h, k, refl)
    second (some d) h k = k

    first :
        (o : Option Client)
        → Passed id c o
        → Outcome meanwhile id c (elim o [
          | some c' ↦ (true, c')
          | none ↦ elim (cancel_pass id (meanwhile c)) [
            | some c' ↦ (true, c')
            | none ↦ (false, meanwhile (meanwhile c))
          ]
        ])
    first none h = second (cancel_pass id (meanwhile c)) h (cancel_pass-Passed id (meanwhile c) v')
    first (some d) h = h
