-- ===== src/SimpleClient/Invariant/Cancel.antt =====
-- CancelAsyncRequest leaves the order of the requests, and the number of the silenced ones.
use yarc.Base.{
  ℕ, suc, ◌+◌, ◌-◌, ◌≤◌, ◌≡◌, refl, ap, Option, none, some, List, [], ◌∷◌, length, arith, ◌==◌,
  Bool-cases, inl, inr,
}
use yarc.SimpleClient.{Request, Client, cancel_pass, remove_request, silence_request}
use yarc.SimpleClient.Invariant.{Ascends, Ascends-weaken, held, IsValid}

-- What a search that succeeds makes of a list.
abbrev Keeps : (ℕ → ℕ) → List Request → Option (List Request) → Type 0
Keeps shrink rs none = Unit {0}
Keeps shrink rs (some rs') =
    ((lo hi : ℕ) → Ascends lo rs hi → Ascends lo rs' hi) × (shrink (length rs') ≡ length rs)

abbrev same : ℕ → ℕ
same n = n

remove_request-Keeps : (id : ℕ) (rs : List Request) → Keeps suc rs (remove_request id rs)
unfolding remove_request
remove_request-Keeps id [] = tt
remove_request-Keeps id (r ∷ rs) = elim (Bool-cases (r.request_id == id)) [
  | inl e ↦
      rw e (λ lo hi h. Ascends-weaken (suc r.request_id) lo hi rs (omega (arith, h.0)) h.1, refl)
  | inr e ↦ rw e (consed (remove_request id rs) (remove_request-Keeps id rs))
]
  where
    consed :
        (o : Option (List Request))
        → Keeps suc rs o
        → Keeps suc (r ∷ rs) (elim o [ none ↦ none | some rs' ↦ some (r ∷ rs') ])
    consed none h = tt
    consed (some rs') h = (λ lo hi k. (k.0, h.0 _ _ k.1), ap suc h.1)

silence_request-Keeps : (id : ℕ) (rs : List Request) → Keeps same rs (silence_request id rs)
unfolding silence_request
silence_request-Keeps id [] = tt
silence_request-Keeps id (r ∷ rs) = elim (Bool-cases (r.request_id == id)) [
  | inl e ↦ rw e (λ lo hi h. h, refl)
  | inr e ↦ rw e (consed (silence_request id rs) (silence_request-Keeps id rs))
]
  where
    consed :
        (o : Option (List Request))
        → Keeps same rs o
        → Keeps same (r ∷ rs) (elim o [ none ↦ none | some rs' ↦ some (r ∷ rs') ])
    consed none h = tt
    consed (some rs') h = (λ lo hi k. (k.0, h.0 _ _ k.1), ap suc h.1)

-- Where a pass succeeds.
abbrev CancelsInto : Client → Option Client → Type 0
CancelsInto c none = Unit {0}
CancelsInto c (some d) =
    (IsValid c → IsValid d)
    × ((k : ℕ) → held c + k ≤ c.num_requests_in_flight → held d + k ≤ d.num_requests_in_flight)

cancel_pass-CancelsInto : (id : ℕ) (c : Client) → CancelsInto c (cancel_pass id c)
unfolding cancel_pass
cancel_pass-CancelsInto id c =
    unsent (remove_request id c.unsent_request_list) (remove_request-Keeps id c.unsent_request_list)
  where
    in_served :
        (o : Option (List Request))
        → Keeps same c.served_request_list o
        → CancelsInto c
            (elim o [ some rs ↦ some (record c { served_request_list = rs }) | none ↦ none ])
    in_served none h = tt
    in_served (some rs) h = (
      λ v. record {
        served_below = v.served_below;
        sent_below = v.sent_below;
        served_ascends = h.0 _ _ v.served_ascends;
        sent_ascends = v.sent_ascends;
        unsent_ascends = v.unsent_ascends;
        semaphore_counts = omega (arith, h.1, v.semaphore_counts);
        in_flight = omega (arith, h.1, v.in_flight);
      },
      λ k le. omega (arith, h.1),
    )

    in_sent :
        (o : Option (List Request))
        → Keeps same c.sent_request_list o
        → CancelsInto c (elim o [
          | some rs ↦ some (record c { sent_request_list = rs })
          | none ↦ elim (silence_request id c.served_request_list) [
            | some rs ↦ some (record c { served_request_list = rs })
            | none ↦ none
          ]
        ])
    in_sent none h =
        in_served (silence_request id c.served_request_list)
          (silence_request-Keeps id c.served_request_list)
    in_sent (some rs) h = (
      λ v. record {
        served_below = v.served_below;
        sent_below = v.sent_below;
        served_ascends = v.served_ascends;
        sent_ascends = h.0 _ _ v.sent_ascends;
        unsent_ascends = v.unsent_ascends;
        semaphore_counts = v.semaphore_counts;
        in_flight = omega (arith, h.1, v.in_flight);
      },
      λ k le. omega (arith, h.1),
    )

    unsent :
        (o : Option (List Request))
        → Keeps suc c.unsent_request_list o
        → CancelsInto c (elim o [
          | some rs ↦ some (record c {
            unsent_request_list = rs;
            num_requests_in_flight = c.num_requests_in_flight - 1;
          })
          | none ↦ elim (silence_request id c.sent_request_list) [
            | some rs ↦ some (record c { sent_request_list = rs })
            | none ↦ elim (silence_request id c.served_request_list) [
              | some rs ↦ some (record c { served_request_list = rs })
              | none ↦ none
            ]
          ]
        ])
    unsent none h =
        in_sent (silence_request id c.sent_request_list)
          (silence_request-Keeps id c.sent_request_list)
    unsent (some rs) h = (
      λ v. record {
        served_below = v.served_below;
        sent_below = v.sent_below;
        served_ascends = v.served_ascends;
        sent_ascends = v.sent_ascends;
        unsent_ascends = h.0 _ _ v.unsent_ascends;
        semaphore_counts = v.semaphore_counts;
        in_flight = omega (arith, h.1, v.in_flight);
      },
      λ k le. omega (arith, h.1),
    )

pub cancel_pass-some :
    (id : ℕ) (c d : Client)
    → cancel_pass id c ≡ some d
    → (IsValid c → IsValid d)
      × ((k : ℕ) → held c + k ≤ c.num_requests_in_flight → held d + k ≤ d.num_requests_in_flight)
cancel_pass-some id c d e = let h = cancel_pass-CancelsInto id c in rw e at h

-- A search that succeeds keeps the order and takes one request away, or none.
pub remove_request-some :
    (id : ℕ) (rs rs' : List Request)
    → remove_request id rs ≡ some rs'
    → ((lo hi : ℕ) → Ascends lo rs hi → Ascends lo rs' hi) × (suc (length rs') ≡ length rs)
remove_request-some id rs rs' e = let h = remove_request-Keeps id rs in rw e at h

pub silence_request-some :
    (id : ℕ) (rs rs' : List Request)
    → silence_request id rs ≡ some rs'
    → ((lo hi : ℕ) → Ascends lo rs hi → Ascends lo rs' hi) × (length rs' ≡ length rs)
silence_request-some id rs rs' e = let h = silence_request-Keeps id rs in rw e at h
