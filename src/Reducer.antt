-- ===== src/Reducer.antt =====
-- Source/yarc_reducer.cpp: ReduceList, on a list of objects whose Reduce may change the list.
pub mod Survivors
pub mod Freed
use yarc.Base.{ℕ, zero, suc, ◌+◌, Bool, true, false, ◌||◌, Option, none, some, ◌==◌, if◌then◌else◌}
use yarc.LinkedList.Nodes.{Node, Heap, Cmd, pure, ◌>>=◌, ◌>>◌, null, load, store}
use yarc.LinkedList.{LinkedList, remove}

pub data ReductionResult : Type 0 where
  result_none result_delete result_bail : ReductionResult

-- A virtual Reduce: on an object, the list it stands in, and what else there is.
abbrev pub Reduce : (A W : Type 0) → Type 0
Reduce A W = A → LinkedList → W → Cmd A (ReductionResult × LinkedList × W)

unfoldable pub is_bail : ReductionResult → Bool
is_bail result_none = false
is_bail result_delete = false
is_bail result_bail = true

module _ {A : Type 0} where
  unfoldable pub set_delete_flag : ℕ → ℕ → Cmd A (Unit {0})
  unfolding load store
  set_delete_flag p flag = do n ← load p; store p (some (record n { delete_flag = flag }))

  -- `*flag = b`
  unfoldable pub write_flag : ℕ → Bool → Cmd A (Unit {0})
  write_flag flag b h = some (tt, record h { flags = λ a. if a == flag then b else h.flags a })

  -- The same, if it is not null
  unfoldable pub write_other_flag : ℕ → Bool → Cmd A (Unit {0})
  write_other_flag flag b h = some (
    tt,
    record h {
      flags = λ a. if flag == null then h.flags a else if a == flag then b else h.flags a;
    },
  )

  unfoldable pub read_flag : ℕ → Cmd A Bool
  read_flag flag h = some (h.flags flag, h)

  unfoldable pub remove_reduced : ReductionResult → (node : ℕ) → LinkedList → Cmd A LinkedList
  unfolding remove
  remove_reduced result_none node l = pure l
  remove_reduced result_delete node l = remove node l
  remove_reduced result_bail node l = pure l

  -- What follows the call: whether the loop goes on, and with what node and list.
  unfoldable pub go_on :
      ReductionResult → (deleted : Bool) → (node : ℕ) → LinkedList → Cmd A (Bool × ℕ × LinkedList)
  unfolding is_bail load remove_reduced
  go_on result deleted node l =
      if is_bail result || deleted
      then pure (false, null, l)
      else do n ← load node; l' ← remove_reduced result node l; pure (true, n.next, l')

module _ {A W : Type 0} (reduce : Reduce A W) (local : ℕ) where
  -- One pass of the loop. `local` is the address of the pass's own flag.
  unfoldable pub reduce_one : (node : ℕ) → LinkedList → W → Cmd A (Bool × ℕ × LinkedList × W)
  unfolding load set_delete_flag write_flag write_other_flag read_flag go_on
  reduce_one node l w = do
    write_flag local false
    n ← load node
    set_delete_flag node local
    r ← reduce n.value l w
    set_delete_flag node n.delete_flag
    deleted ← read_flag local
    write_other_flag n.delete_flag deleted
    o ← go_on r.0 deleted node r.1
    pure (o.0, o.1, o.2, r.2)

  -- The loop is on fuel, as Reduce may add to the list.
  unfoldable pub reduce_loop : (fuel : ℕ) → (node : ℕ) → LinkedList → W → Cmd A (LinkedList × W)
  unfolding reduce_one
  reduce_loop zero node l w = λ h. none
  reduce_loop (suc fuel) node l w = if node == null then pure (l, w) else do
    o ← reduce_one node l w
    elim o.0 [ true ↦ reduce_loop fuel o.1 o.2 o.3 | false ↦ pure (o.2, o.3) ]

  unfoldable pub reduce_list : (fuel : ℕ) → LinkedList → W → Cmd A (LinkedList × W)
  unfolding reduce_loop
  reduce_list fuel l w = reduce_loop fuel l.head l w
