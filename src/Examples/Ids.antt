-- ===== src/Examples/Ids.antt =====
-- The ids of two nodes.
use yarc.Base.{ℕ, ◌≡◌, some, List, [], ◌∷◌, Bytes, length, arith}
use yarc.Cluster.Ids.{read_ids}
use yarc.Cluster.Ids.Lines.{Entry, IsEntry, text}
use yarc.Cluster.Ids.Assigned.{AreEntries, NoneOf, AreApart, HaveIds, read_ids-HaveIds}

abbrev entry : ℕ → ℕ → Entry
entry node id = record {
  node = node;
  id = id ∷ [];
  ip = b'h' ∷ [];
  bus = b'1' ∷ [];
  more = b'x' ∷ [];
}

abbrev entries : List Entry
entries = entry 1 b'b' ∷ entry 0 b'a' ∷ []

entry_one : IsEntry 0x80000000 2 (entry 1 b'b')
entry_one = record {
  there = omega arith;
  port = omega arith;
  long = omega arith;
  id_word = ((omega arith, omega arith), tt);
  id_line = ((omega arith, omega arith), tt);
  ip_word = ((omega arith, omega arith), tt);
  ip_line = ((omega arith, omega arith), tt);
  ip_front = ((omega arith, omega arith), tt);
  bus_word = ((omega arith, omega arith), tt);
  bus_line = ((omega arith, omega arith), tt);
  more_line = ((omega arith, omega arith), tt);
}

entry_zero : IsEntry 0x80000000 2 (entry 0 b'a')
entry_zero = record {
  there = omega arith;
  port = omega arith;
  long = omega arith;
  id_word = ((omega arith, omega arith), tt);
  id_line = ((omega arith, omega arith), tt);
  ip_word = ((omega arith, omega arith), tt);
  ip_line = ((omega arith, omega arith), tt);
  ip_front = ((omega arith, omega arith), tt);
  bus_word = ((omega arith, omega arith), tt);
  bus_line = ((omega arith, omega arith), tt);
  more_line = ((omega arith, omega arith), tt);
}

read_ids-HaveIds_example :
    (ids : List Bytes) × (read_ids 0x80000000 (text entries) ([] ∷ [] ∷ []) ≡ some ids)
    × (length ids ≡ 2)
    × HaveIds entries ids
unfolding AreEntries AreApart NoneOf
read_ids-HaveIds_example =
    read_ids-HaveIds 0x80000000 entries ([] ∷ [] ∷ []) (entry_one, (entry_zero, tt))
      ((omega arith, tt), (tt, tt))
