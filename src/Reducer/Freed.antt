-- ===== src/Reducer/Freed.antt =====
-- ReduceList on an object whose Reduce removes its own node: the flag is put back into a freed node.
use yarc.Base.{
  ℕ, suc, ◌≡◌, refl, sym, false, Bool-cases, none, some, List, ◌∷◌, ◌==◌, if◌then◌else◌, inl, inr,
  ne→==,
}
use std.Path.{subst}
use yarc.LinkedList.Nodes.{Heap, null, write, load, store}
use yarc.LinkedList.Linked.{Cell, node, first_or, load-cell}
use yarc.LinkedList.Insert.{IsList}
use yarc.LinkedList.{LinkedList}
use yarc.Reducer.{
  ReductionResult, Reduce, set_delete_flag, write_flag, reduce_one, reduce_loop, reduce_list,
}

module _ {A : Type 0} where
  load-none : (h : Heap A) (p : ℕ) → h.nodes p ≡ none → load p h ≡ none
  unfolding load
  load-none h p e = elim (Bool-cases (p == null)) [ inl t ↦ rw t refl | inr t ↦ rw (t, e) refl ]

  -- The heap when Reduce is called on the first node.
  abbrev pub at_call : (local : ℕ) → Heap A → Cell A → List (Cell A) → Heap A
  at_call local h c cs = record h {
    nodes =
        write h.nodes c.address
          (some (record (node c (first_or null cs) null) { delete_flag = local }));
    flags = λ a. if a == local then false else h.flags a;
  }

module _ {A W : Type 0} (reduce : Reduce A W) (local : ℕ) where
  -- Where Reduce on the first object of a list frees its node, ReduceList goes on to write to that
  -- node, which has no result.
  pub reduce_list-freed :
      (fuel : ℕ) (h g : Heap A) (l : LinkedList) (w : W) (c : Cell A) (cs : List (Cell A))
      (r : ReductionResult × LinkedList × W)
      → IsList h l (c ∷ cs)
      → reduce c.value l w (at_call local h c cs) ≡ some (r, g)
      → g.nodes c.address ≡ none
      → reduce_list reduce local (suc fuel) l w h ≡ none
  unfolding reduce_list reduce_loop reduce_one set_delete_flag write_flag store
  reduce_list-freed fuel h g l w c cs r i reduced freed =
      let lowered = record h { flags = λ a. if a == local then false else h.flags a } in
      let found = load-cell lowered c (first_or null cs) null i.placed.0 i.chain.0 in
      subst (λ (a : ℕ). reduce_loop reduce local (suc fuel) a l w h ≡ none) (sym i.head_first)
        (rw (ne→== c.address null i.placed.0, found, found, reduced, load-none g c.address freed)
          refl)
