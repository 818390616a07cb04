-- ===== src/Cluster/Covered.antt =====
-- The slots that Setup gives to the masters.
use yarc.Base.{
  ℕ, zero, suc, ◌+◌, ◌%◌, ◌≤◌, ◌<◌, ◌≡◌, refl, ap, true, false, some, List, [], ◌∷◌, ◌++◌, length,
  All, leb, arith,
}
use yarc.Cluster.{total_slots, add_slots_batch, add_slots_loop, add_slots}

-- `n` slots from `a` on.
unfoldable pub slots_from : (n a : ℕ) → List ℕ
slots_from zero a = []
slots_from (suc n) a = a ∷ slots_from n (a + 1)

pub slots_from-append : (m n a : ℕ) → slots_from (m + n) a ≡ slots_from m a ++ slots_from n (a + m)
unfolding slots_from
slots_from-append zero n a =
    let none_here : zero + n ≡ n = omega arith in
    let same : a + zero ≡ a = omega arith in rw (none_here, same) refl
slots_from-append (suc m) n a =
    let shift : a + 1 + m ≡ a + suc m = omega arith in
    let split : suc m + n ≡ suc (m + n) = omega arith in
    rw (split, slots_from-append m n (a + 1), shift) refl

abbrev pub joined : List (List ℕ) → List ℕ
joined [] = []
joined (b ∷ bs) = b ++ joined bs

-- What one command may list.
abbrev pub IsBatch : List ℕ → Type 0
IsBatch b = (length b ≤ 100) × All (λ slot. slot < total_slots) b

length-slots_from : (n a : ℕ) → length (slots_from n a) ≡ n
unfolding slots_from
length-slots_from zero a = refl
length-slots_from (suc n) a = ap suc (length-slots_from n (a + 1))

slots_from-below : (n a limit : ℕ) → a + n ≤ limit → All (λ slot. slot < limit) (slots_from n a)
unfolding slots_from
slots_from-below zero a limit h = tt
slots_from-below (suc n) a limit h =
    (omega (arith, h), slots_from-below n (a + 1) limit (omega (arith, h)))

add-zero : (a : ℕ) → a + zero ≡ a
add-zero a = omega arith

add-suc : (a k : ℕ) → a + suc k ≡ a + 1 + k
add-suc a k = omega arith

done : (a max_slot : ℕ) → a + zero ≡ max_slot + 1 → leb a max_slot ≡ false
done a max_slot e = ground (arith, e)

-- A batch lists the next slots.
add_slots_batch-slots_from :
    (rounds n a max_slot : ℕ)
    → max_slot < total_slots
    → a + n ≡ max_slot + 1
    → (k : ℕ) × (n' : ℕ) × (add_slots_batch rounds a max_slot ≡ (slots_from k a, a + k))
      × (k + n' ≡ n)
      × (k ≤ rounds)
      × (0 < rounds → 0 < n → 0 < k)
unfolding add_slots_batch slots_from
add_slots_batch-slots_from zero n a max_slot small e =
    (0, n, rw ((add-zero a)) refl, omega arith, omega arith, λ p q. p)
add_slots_batch-slots_from (suc rounds) zero a max_slot small e =
    (0, 0, rw (done a max_slot e, add-zero a) refl, refl, omega arith, λ p q. q)
add_slots_batch-slots_from (suc rounds) (suc n) a max_slot small e =
    let (k, n', run, sum, few, some_left) =
      add_slots_batch-slots_from rounds n (a + 1) max_slot small (omega (arith, e)) in
    let more : leb a max_slot ≡ true = ground (arith, e) in
    let next : (a + 1) % 0x100000000 ≡ a + 1 = omega (arith, e, small) in
    (
      suc k,
      n',
      rw (next, run, more, add-suc a k) refl,
      omega (arith, sum),
      omega (arith, few),
      λ p q. omega arith,
    )

add_slots_loop-more :
    (batch_size fuel slot max_slot : ℕ) (batch : List ℕ × ℕ) (batches : List (List ℕ))
    → leb slot max_slot ≡ true
    → add_slots_batch batch_size slot max_slot ≡ batch
    → add_slots_loop batch_size fuel batch.1 max_slot ≡ some batches
    → add_slots_loop batch_size (suc fuel) slot max_slot ≡ some (batch.0 ∷ batches)
unfolding add_slots_loop
add_slots_loop-more batch_size fuel slot max_slot batch batches more e run =
    let run' : add_slots_loop batch_size fuel (add_slots_batch batch_size slot max_slot).1 max_slot
        ≡ some batches =
      rw e run in
    rw (more, run') (ap (λ (b : List ℕ × ℕ). some (b.0 ∷ batches)) e)

-- AddSlots lists each slot once, in order.
add_slots_loop-slots_from :
    (batch_size fuel n a max_slot : ℕ)
    → max_slot < total_slots
    → a + n ≡ max_slot + 1
    → n ≤ fuel
    → 0 < batch_size
    → batch_size ≤ 100
    → (batches : List (List ℕ)) × (add_slots_loop batch_size fuel a max_slot ≡ some batches)
      × (joined batches ≡ slots_from n a)
      × All (IsBatch) batches
unfolding add_slots_loop slots_from
add_slots_loop-slots_from size zero zero a max_slot small e enough sized small_size =
    ([], rw (done a max_slot e) refl, refl, tt)
add_slots_loop-slots_from size zero (suc n) a max_slot small e enough sized small_size =
    absurd (omega (arith, enough))
add_slots_loop-slots_from size (suc fuel) zero a max_slot small e enough sized small_size =
    ([], rw (done a max_slot e) refl, refl, tt)
add_slots_loop-slots_from size (suc fuel) (suc n) a max_slot small e enough sized small_size =
    let (k, n', run, sum, few, progress) =
      add_slots_batch-slots_from size (suc n) a max_slot small e in
    let forward = progress sized (omega arith) in
    let (batches, run', all, fit) =
      add_slots_loop-slots_from size fuel n' (a + k) max_slot small (omega (arith, e, sum))
        (omega (arith, sum, enough, forward)) sized small_size in
    let more : leb a max_slot ≡ true = ground (arith, e) in
    (
      slots_from k a ∷ batches,
      add_slots_loop-more size fuel a max_slot (slots_from k a, a + k) batches more run run',
      rw (all, ← slots_from-append k n' a, sum) refl,
      (
        (
          omega (arith, length-slots_from k a, few, small_size),
          slots_from-below k a total_slots (omega (arith, e, sum, small)),
        ),
        fit,
      ),
    )

pub add_slots-slots_from :
    (fuel n a max_slot : ℕ)
    → max_slot < total_slots
    → a + n ≡ max_slot + 1
    → n ≤ fuel
    → (batches : List (List ℕ)) × (add_slots fuel a max_slot ≡ some batches)
      × (joined batches ≡ slots_from n a)
      × All (IsBatch) batches
unfolding add_slots
add_slots-slots_from fuel n a max_slot small e enough =
    add_slots_loop-slots_from 100 fuel n a max_slot small e enough (omega arith) (omega arith)
