-- ===== src/ClusterClient/Queue/Accepted.antt =====
-- Which transactions MakeTransactionRequestAsync of a ClusterClient takes.
use yarc.Base.{
  ℕ, ◌≡◌, ◌≢◌, ◌⊎◌, refl, inl, inr, Bool, true, false, List, [], ◌∷◌, ◌++◌, ◌==◌, Bool-cases, ==→eq,
  eq→==,
}
use yarc.Protocol.Data.{Data}
use yarc.Protocol.HashSlot.{calc_command_hash_slot}
use yarc.ClusterClient.Queue.{
  RequestData, single_request, multi_request, commands_of, calc_hash_slot, Queued, new_queued,
  cluster_make_request_async, same_slot_loop, cluster_make_transaction_request_async,
}

-- All commands have this slot.
unfoldable pub AllOfSlot : ℕ → List Data → Type 0
AllOfSlot slot [] = Unit
AllOfSlot slot (d ∷ ds) = (calc_command_hash_slot d ≡ slot) × AllOfSlot slot ds

-- Some command has another slot.
unfoldable pub SomeOfOther : ℕ → List Data → Type 0
SomeOfOther slot [] = ⊥
SomeOfOther slot (d ∷ ds) = (calc_command_hash_slot d ≢ slot) ⊎ SomeOfOther slot ds

same_slot_loop-AllOfSlot :
    (slot : ℕ) (ds : List Data) → same_slot_loop slot ds ≡ true → AllOfSlot slot ds
unfolding same_slot_loop AllOfSlot
same_slot_loop-AllOfSlot slot [] h = tt
same_slot_loop-AllOfSlot slot (d ∷ ds) h = elim (Bool-cases (calc_command_hash_slot d == slot)) [
  | inl e ↦ (==→eq _ _ e, same_slot_loop-AllOfSlot slot ds (rw e at h))
  | inr e ↦ absurd (let broken : false ≡ true = rw e at h in cc)
]

same_slot_loop-SomeOfOther :
    (slot : ℕ) (ds : List Data) → same_slot_loop slot ds ≡ false → SomeOfOther slot ds
unfolding same_slot_loop SomeOfOther
same_slot_loop-SomeOfOther slot [] h = absurd (cc)
same_slot_loop-SomeOfOther slot (d ∷ ds) h = elim (Bool-cases (calc_command_hash_slot d == slot)) [
  | inl e ↦ inr (same_slot_loop-SomeOfOther slot ds (rw e at h))
  | inr e ↦ inl (λ same. let equal = eq→== _ _ same in cc)
]

-- What becomes of the commands: a request with all of them, which share its slot, or nothing.
abbrev pub Outcome : List Data → ℕ → List Queued → Bool × List Queued → Type 0
Outcome ds callback list (true, list') =
    (r : RequestData) × (list' ≡ list ++ new_queued r callback ∷ [])
    × (commands_of r ≡ ds)
    × AllOfSlot (calc_hash_slot r) ds
Outcome [] callback list (false, list') = list' ≡ list
Outcome (d ∷ ds) callback list (false, list') =
    (list' ≡ list) × SomeOfOther (calc_command_hash_slot d) ds

-- In a cluster client, MakeTransactionRequestAsync puts all commands behind the other requests as
-- one of their slot and returns true, or returns false, for no commands or where one has another
-- slot than the first, and leaves the list as it was.
pub cluster_make_transaction_request_async-Outcome :
    (ds : List Data) (callback : ℕ) (list : List Queued)
    → Outcome ds callback list (cluster_make_transaction_request_async ds callback list)
unfolding cluster_make_transaction_request_async cluster_make_request_async commands_of
    calc_hash_slot AllOfSlot
cluster_make_transaction_request_async-Outcome [] callback list = refl
cluster_make_transaction_request_async-Outcome (d ∷ []) callback list =
    (single_request d, refl, refl, (refl, tt))
cluster_make_transaction_request_async-Outcome (d ∷ d' ∷ ds) callback list =
    elim (Bool-cases (same_slot_loop (calc_command_hash_slot d) (d' ∷ ds))) [
      | inl e ↦
          rw e
            (multi_request d (d' ∷ ds), refl, refl, (refl, same_slot_loop-AllOfSlot _ (d' ∷ ds) e))
      | inr e ↦ rw e (refl, same_slot_loop-SomeOfOther _ (d' ∷ ds) e)
    ]
