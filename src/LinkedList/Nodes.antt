-- ===== src/LinkedList/Nodes.antt =====
-- LinkedList::Node: nodes at addresses, and commands that read and write them.
use yarc.Base.{ℕ, ◌+◌, Bool, true, Option, none, some, ◌==◌, if◌then◌else◌}

abbrev pub null : ℕ
null = 0

-- `delete_flag` is the address of a Boolean, or null.
pub record Node (A : Type 0) : Type 0 where
  pub value : A
  pub next : ℕ
  pub prev : ℕ
  pub delete_flag : ℕ

-- The nodes, the next address that `new` gives, which is used for nothing else, and the Booleans to
-- which delete flags point.
pub record Heap (A : Type 0) : Type 0 where
  pub nodes : ℕ → Option (Node A)
  pub next_address : ℕ
  pub flags : ℕ → Bool

-- There is no value where a command reads or writes a node that is not there.
abbrev pub Cmd : Type 0 → Type 0 → Type 0
Cmd A B = Heap A → Option (B × Heap A)

module _ {A B : Type 0} where
  abbrev pub pure : B → Cmd A B
  pure b h = some (b, h)

  abbrev pub and_then : {C : Type 0} → Option (B × Heap A) → (B → Cmd A C) → Option (C × Heap A)
  and_then none k = none
  and_then (some (b, h)) k = k b h

  infixl 5 ◌>>=◌ ◌>>◌
  abbrev pub ◌>>=◌ : {C : Type 0} → Cmd A B → (B → Cmd A C) → Cmd A C
  m >>= k = λ h. and_then (m h) k

  abbrev pub ◌>>◌ : {C : Type 0} → Cmd A B → Cmd A C → Cmd A C
  m >> n = m >>= λ _. n

module _ {A : Type 0} where
  -- `c` at the address `p`
  abbrev pub write : (ℕ → Option (Node A)) → ℕ → Option (Node A) → ℕ → Option (Node A)
  write f p c q = if q == p then c else f q

  unfoldable pub load : ℕ → Cmd A (Node A)
  load p h = if p == null then none else elim (h.nodes p) [ none ↦ none | some n ↦ some (n, h) ]

  unfoldable pub store : ℕ → Option (Node A) → Cmd A (Unit {0})
  store p c h = some (tt, record h { nodes = write h.nodes p c })

  -- The constructor
  unfoldable pub new_node : A → Cmd A ℕ
  new_node value h = some (
    h.next_address,
    record h {
      nodes =
          write h.nodes h.next_address
            (some (record { value = value; next = null; prev = null; delete_flag = null }));
      next_address = h.next_address + 1;
    },
  )

  unfoldable pub set_next : ℕ → ℕ → Cmd A (Unit {0})
  unfolding load store
  set_next p q = do n ← load p; store p (some (record n { next = q }))

  unfoldable pub set_prev : ℕ → ℕ → Cmd A (Unit {0})
  unfolding load store
  set_prev p q = do n ← load p; store p (some (record n { prev = q }))

  unfoldable pub set_links : (p next prev : ℕ) → Cmd A (Unit {0})
  unfolding load store
  set_links p next prev = do n ← load p; store p (some (record n { next = next; prev = prev }))

  -- Couple
  unfoldable pub couple : ℕ → Cmd A (Unit {0})
  unfolding load set_next set_prev
  couple p = do
    n ← load p
    if n.next == null then pure tt else set_prev n.next p
    n' ← load p
    if n'.prev == null then pure tt else set_next n'.prev p

  -- Decouple
  unfoldable pub decouple : ℕ → Cmd A (Unit {0})
  unfolding load set_next set_prev
  decouple p = do
    n ← load p
    if n.next == null then pure tt else set_prev n.next n.prev
    n' ← load p
    if n'.prev == null then pure tt else set_next n'.prev n'.next

  unfoldable pub raise_flag : ℕ → Cmd A (Unit {0})
  raise_flag flag h = some (
    tt,
    record h {
      flags = λ a. if flag == null then h.flags a else if a == flag then true else h.flags a;
    },
  )

  -- The destructor, which raises the flag, and the memory
  unfoldable pub delete_node : ℕ → Cmd A (Unit {0})
  unfolding load raise_flag store
  delete_node p = do n ← load p; raise_flag n.delete_flag; store p none
