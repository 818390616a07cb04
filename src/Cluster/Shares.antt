-- ===== src/Cluster/Shares.antt =====
-- The shares of the masters cover all slots.
use native.Mathlib.Nat.{
  mod-eq_of_lt, add-mod, add-mod_right, div-mul-le_self, le-div_iff_mul-le, mul-zero, mul-suc,
  suc-mul,
}
use yarc.Base.{
  ℕ, zero, suc, ◌+◌, ◌-◌, ◌*◌, ◌/◌, ◌%◌, ◌≤◌, ◌<◌, ◌≡◌, refl, sym, ap, ◌∙◌, Option, some, List, [],
  ◌∷◌, ◌++◌, All, Bool-cases, inl, inr, ltb, ltb→lt, if◌then◌else◌, map, arith, append_assoc,
  append-nil, ne→==,
}
use yarc.Cluster.{Share, total_slots, share_slots, distribute_slots, add_shares}
use yarc.Cluster.Covered.{slots_from, slots_from-append, joined, IsBatch, add_slots-slots_from}

abbrev pub slots_of : List (ℕ × List ℕ) → List ℕ
slots_of [] = []
slots_of (c ∷ cs) = c.1 ++ slots_of cs

slots_of-append : (cs ds : List (ℕ × List ℕ)) → slots_of (cs ++ ds) ≡ slots_of cs ++ slots_of ds
slots_of-append [] ds = refl
slots_of-append (c ∷ cs) ds =
    rw (slots_of-append cs ds, append_assoc c.1 (slots_of cs) (slots_of ds)) refl

slots_of-map : (node : ℕ) (bs : List (List ℕ)) → slots_of (map (λ b. (node, b)) bs) ≡ joined bs
slots_of-map node [] = refl
slots_of-map node (b ∷ bs) = ap (λ (xs : List ℕ). b ++ xs) (slots_of-map node bs)

All-append : {A : Type 0} (P : A → Type 0) (xs ys : List A) → All P xs → All P ys → All P (xs ++ ys)
All-append P [] ys h k = k
All-append P (x ∷ xs) ys h k = (h.0, All-append P xs ys h.1 k)

mod-offset : (i t d : ℕ) → i % d ≡ 0 → t < d → (i + t) % d ≡ t
mod-offset i t d m small =
    let none_over : 0 + t ≡ t = omega arith in
    add-mod i t d ∙ rw (m, mod-eq_of_lt small, none_over) (mod-eq_of_lt small)

module _ (slaves_per_master : ℕ) where
  -- A command for a master.
  abbrev pub IsCommand : ℕ × List ℕ → Type 0
  IsCommand c = (c.0 % (1 + slaves_per_master) ≡ 0) × IsBatch c.1

  -- Commands for masters that list the slots, each once and in order.
  abbrev pub Lists : Option (List (ℕ × List ℕ)) → List ℕ → Type 0
  Lists o slots =
      (commands : List (ℕ × List ℕ)) × (o ≡ some commands)
      × (slots_of commands ≡ slots)
      × All IsCommand commands

  All-map :
      (node : ℕ) (bs : List (List ℕ))
      → node % (1 + slaves_per_master) ≡ 0
      → All IsBatch bs
      → All IsCommand (map (λ b. (node, b)) bs)
  All-map node [] m h = tt
  All-map node (b ∷ bs) m h = ((m, h.0), All-map node bs m h.1)

  Lists-cons :
      (fuel n : ℕ) (share : Share) (shares : List Share) (slots : List ℕ)
      → share.node % (1 + slaves_per_master) ≡ 0
      → share.max_slot < total_slots
      → share.min_slot + n ≡ share.max_slot + 1
      → n ≤ fuel
      → Lists (add_shares fuel shares) slots
      → Lists (add_shares fuel (share ∷ shares)) (slots_from n share.min_slot ++ slots)
  unfolding add_shares
  Lists-cons fuel n share shares slots m small e enough l =
      let (batches, run, all, fit) =
        add_slots-slots_from fuel n share.min_slot share.max_slot small e enough in
      let (more, run', all', fit') = l in
      (
        map (λ b. (share.node, b)) batches ++ more,
        rw (add_shares, run, run') refl,
        rw
            (
              slots_of-append (map (λ b. (share.node, b)) batches) more,
              slots_of-map share.node batches,
              all,
              all',
            )
            refl,
        All-append IsCommand (map (λ b. (share.node, b)) batches) more
            (All-map share.node batches m fit) fit',
      )

  module _ (slots_per_master : ℕ) where
    -- The nodes of `k` masters, and their slots.
    abbrev nodes_of : ℕ → ℕ
    nodes_of zero = 0
    nodes_of (suc k) = suc (slaves_per_master + nodes_of k)

    abbrev share_of : ℕ → ℕ
    share_of zero = 0
    share_of (suc k) = slots_per_master + share_of k

    share_slots-slaves :
        (u t r i base : ℕ)
        → i % (1 + slaves_per_master) ≡ 0
        → 0 < t
        → t + u ≡ 1 + slaves_per_master
        → share_slots slaves_per_master slots_per_master (u + r) (i + t) base
          ≡ share_slots slaves_per_master slots_per_master r (i + (1 + slaves_per_master)) base
    unfolding share_slots
    share_slots-slaves zero t r i base m pos e =
        let all_passed : t ≡ 1 + slaves_per_master = omega (arith, e) in
        let none_left : zero + r ≡ r = omega arith in rw (all_passed, none_left) refl
    share_slots-slaves (suc u) t r i base m pos e =
        let small : t < 1 + slaves_per_master = omega (arith, e) in
        let index = mod-offset i t (1 + slaves_per_master) m small in
        let split : suc u + r ≡ suc (u + r) = omega arith in
        let step : i + t + 1 ≡ i + (t + 1) = omega arith in
        rw (split, index, ne→== t 0 (omega (arith, pos)), step)
          (share_slots-slaves u (t + 1) r i base m (omega arith) (omega (arith, e)))

    -- A master with its slaves.
    share_slots-master :
        (r i base : ℕ)
        → i % (1 + slaves_per_master) ≡ 0
        → base + slots_per_master ≤ total_slots
        → share_slots slaves_per_master slots_per_master (suc (slaves_per_master + r)) i base ≡ (
          record {
            node = i;
            min_slot = base;
            max_slot = (base + slots_per_master + 0xffffffff) % 0x100000000;
          }
              ∷ (share_slots slaves_per_master slots_per_master r
                  (i + (1 + slaves_per_master))
                  (base + slots_per_master)).0,
          (share_slots slaves_per_master slots_per_master r
              (i + (1 + slaves_per_master))
              (base + slots_per_master)).1,
        )
    unfolding share_slots
    share_slots-master r i base m small =
        let next : (base + slots_per_master) % 0x100000000 ≡ base + slots_per_master =
          omega (arith, small) in
        rw
          (
            m,
            next,
            share_slots-slaves slaves_per_master 1 r i (base + slots_per_master) m (omega arith)
                refl,
          )
          refl

    share_slots-zero :
        (i base : ℕ) → share_slots slaves_per_master slots_per_master zero i base ≡ ([], base)
    unfolding share_slots
    share_slots-zero i base = refl

    share_slots-Lists :
        (fuel k i base : ℕ) (extra : List Share) (slots : List ℕ)
        → i % (1 + slaves_per_master) ≡ 0
        → base + share_of k ≤ total_slots
        → 0 < slots_per_master
        → slots_per_master ≤ fuel
        → Lists (add_shares fuel extra) slots
        → ((share_slots slaves_per_master slots_per_master (nodes_of k) i base).1
            ≡ base + share_of k)
          × Lists
              (add_shares fuel
                ((share_slots slaves_per_master slots_per_master (nodes_of k) i base).0 ++ extra))
              (slots_from (share_of k) base ++ slots)
    unfolding slots_from
    share_slots-Lists fuel zero i base extra slots m small pos enough l =
        (rw (share_slots-zero i base) (omega arith), rw (share_slots-zero i base) l)
    share_slots-Lists fuel (suc k) i base extra slots m small pos enough l =
        let d = 1 + slaves_per_master in
        let next : (i + d) % d ≡ 0 = add-mod_right i d ∙ m in
        let (end, rest) =
          share_slots-Lists fuel k (i + d) (base + slots_per_master) extra slots next
            (omega (arith, small)) pos enough l in
        let last : (base + slots_per_master + 0xffffffff) % 0x100000000 + 1
            ≡ base + slots_per_master =
          omega (arith, pos, small) in
        let run = share_slots-master (nodes_of k) i base m (omega (arith, small)) in
        (
          rw run (end ∙ omega arith),
          rw
              (
                run,
                slots_from-append slots_per_master (share_of k) base,
                append_assoc (slots_from slots_per_master base)
                    (slots_from (share_of k) (base + slots_per_master)) slots,
              )
              (Lists-cons fuel slots_per_master _ _ _ m (omega (arith, last, small))
                (omega (arith, last)) enough rest),
        )

    nodes_of-eq : (k : ℕ) → nodes_of k ≡ k + slaves_per_master * k
    nodes_of-eq zero = omega (arith, mul-zero slaves_per_master)
    nodes_of-eq (suc k) = omega (arith, nodes_of-eq k, mul-suc slaves_per_master k)

    share_of-eq : (k : ℕ) → share_of k ≡ slots_per_master * k
    share_of-eq zero = omega (arith, mul-zero slots_per_master)
    share_of-eq (suc k) = omega (arith, share_of-eq k, mul-suc slots_per_master k)

  -- The share that is left for the first node.
  left_over : ℕ → List Share
  left_over b =
      if ltb b total_slots
      then record { node = 0; min_slot = b; max_slot = total_slots - 1 } ∷ []
      else []

  left_over-Lists :
      (fuel b : ℕ)
      → b ≤ total_slots
      → total_slots ≤ fuel
      → Lists (add_shares fuel (left_over b)) (slots_from (total_slots - b) b)
  unfolding left_over add_shares slots_from
  left_over-Lists fuel b small enough = elim (Bool-cases (ltb b total_slots)) [
    | inl e ↦
        let first : 0 % (1 + slaves_per_master) ≡ 0 = mod-eq_of_lt (omega arith) in
        let below = ltb→lt b total_slots e in
        rw (e, ← append-nil (slots_from (total_slots - b) b))
          (Lists-cons fuel (total_slots - b)
            (record { node = 0; min_slot = b; max_slot = total_slots - 1 }) [] [] first
            (omega arith) (omega (arith, below)) (omega (arith, enough)) ([], refl, refl, tt))
    | inr e ↦
        let none_left : total_slots - b ≡ 0 = ground (arith, e, small) in
        rw (e, none_left) ([], refl, refl, tt)
  ]

  distribute_slots-left_over :
      (masters : ℕ)
      → let r =
          share_slots slaves_per_master
            (total_slots / masters)
            (masters + slaves_per_master * masters)
            0
            0 in
        distribute_slots masters slaves_per_master ≡ r.0 ++ left_over r.1
  unfolding distribute_slots left_over
  distribute_slots-left_over masters =
      let r =
        share_slots slaves_per_master (total_slots / masters)
          (masters + slaves_per_master * masters) 0 0 in
      elim (Bool-cases (ltb r.1 total_slots)) [
        | inl e ↦ rw e refl
        | inr e ↦ rw (e, append-nil r.0) refl
      ]

  -- For one master to 16384, the commands by which Setup gives out the slots go to masters only and
  -- list each slot from 0 to 16383 exactly once, in ascending order, a hundred at most in a
  -- command.
  pub distribute_slots-Lists :
      (masters fuel : ℕ)
      → 0 < masters
      → masters ≤ total_slots
      → total_slots ≤ fuel
      → Lists
          (add_shares fuel (distribute_slots masters slaves_per_master))
          (slots_from total_slots 0)
  distribute_slots-Lists masters fuel pos small enough =
      let per = total_slots / masters in
      let fits = div-mul-le_self total_slots masters in
      let some_each : 1 ≤ per =
        (le-div_iff_mul-le pos).1 (omega (arith, small, suc-mul 0 masters)) in
      let b = share_of per masters in
      let b_small : b ≤ total_slots = omega (arith, share_of-eq per masters, fits) in
      let first : 0 % (1 + slaves_per_master) ≡ 0 = mod-eq_of_lt (omega arith) in
      let (end, lists) =
        share_slots-Lists per fuel masters 0 0 (left_over b) (slots_from (total_slots - b) b) first
          (omega (arith, b_small)) some_each (omega (arith, fits, enough))
          (left_over-Lists fuel b b_small enough) in
      let start : 0 + b ≡ b = omega arith in
      let parts : b + (total_slots - b) ≡ total_slots = omega (arith, b_small) in
      let whole = rw (parts, start) at (slots_from-append b (total_slots - b) 0) in
      let count = sym (nodes_of-eq per masters) in
      rw (distribute_slots-left_over masters, whole, count, end, start) lists
