-- ===== src/Cluster/Ids/Assigned.antt =====
-- Every node gets the id that the cluster has for its port.
use std.Path.{subst}
use yarc.Base.{ℕ, ◌≡◌, ◌≢◌, refl, sym, ◌∙◌, some, List, [], ◌∷◌, Bytes, length, get_elem?}
use yarc.DynamicArray.Loops.{set_elem, length-set_elem, get_elem?-set_elem, get_elem?-set_elem-ne}
use yarc.Cluster.Ids.{getlines, read_lines, read_ids}
use yarc.Cluster.Ids.Lines.{
  Entry, line, text, IsEntry, getlines-append, line-Lacks, read_line-line, read_nothing,
}

-- The ids that the entries give one after the other.
unfoldable assign : List Entry → List Bytes → List Bytes
unfolding set_elem
assign [] ids = ids
assign (e ∷ es) ids = assign es (set_elem ids e.node e.id)

unfoldable pub AreEntries : (limit count : ℕ) → List Entry → Type 0
AreEntries limit count [] = Unit
AreEntries limit count (e ∷ es) = IsEntry limit count e × AreEntries limit count es

read_ids-assign :
    (limit : ℕ) (es : List Entry) (ids : List Bytes)
    → AreEntries limit (length ids) es
    → read_lines limit (getlines b'\n' [] (text es)) ids ≡ some (assign es ids)
unfolding read_lines text AreEntries assign
read_ids-assign limit [] ids h = read_nothing limit ids
read_ids-assign limit (e ∷ es) ids h =
    let first = getlines-append b'\n' [] (line e) (text es) (line-Lacks limit (length ids) e h.0) in
    let same = length-set_elem ids e.node e.id in
    let rest =
      read_ids-assign limit es (set_elem ids e.node e.id)
        (subst (λ (n : ℕ). AreEntries limit n es) (sym same) h.1) in
    rw (first, read_lines, read_line-line limit e ids h.0) rest

-- No entry is of this node.
unfoldable pub NoneOf : ℕ → List Entry → Type 0
NoneOf node [] = Unit
NoneOf node (e ∷ es) = (e.node ≢ node) × NoneOf node es

unfoldable pub AreApart : List Entry → Type 0
AreApart [] = Unit
AreApart (e ∷ es) = NoneOf e.node es × AreApart es

-- Each node of an entry has its id.
unfoldable pub HaveIds : List Entry → List Bytes → Type 0
HaveIds [] ids = Unit
HaveIds (e ∷ es) ids = (get_elem? ids e.node ≡ some e.id) × HaveIds es ids

assign-NoneOf :
    (node : ℕ) (es : List Entry) (ids : List Bytes)
    → NoneOf node es
    → get_elem? (assign es ids) node ≡ get_elem? ids node
unfolding assign NoneOf
assign-NoneOf node [] ids h = refl
assign-NoneOf node (e ∷ es) ids h =
    assign-NoneOf node es (set_elem ids e.node e.id) h.1
    ∙ get_elem?-set_elem-ne ids e.node node e.id (λ same. h.0 (sym same))

assign-HaveIds :
    (limit : ℕ) (es : List Entry) (ids : List Bytes)
    → AreEntries limit (length ids) es
    → AreApart es
    → HaveIds es (assign es ids)
unfolding assign AreEntries AreApart HaveIds
assign-HaveIds limit [] ids h apart = tt
assign-HaveIds limit (e ∷ es) ids h apart =
    let same = length-set_elem ids e.node e.id in
    let kept = subst (λ (n : ℕ). AreEntries limit n es) (sym same) h.1 in
    (
      assign-NoneOf e.node es (set_elem ids e.node e.id) apart.0
          ∙ get_elem?-set_elem ids e.node e.id h.0.there,
      assign-HaveIds limit es (set_elem ids e.node e.id) kept apart.1,
    )

length-assign : (es : List Entry) (ids : List Bytes) → length (assign es ids) ≡ length ids
unfolding assign
length-assign [] ids = refl
length-assign (e ∷ es) ids =
    length-assign es (set_elem ids e.node e.id) ∙ length-set_elem ids e.node e.id

-- From a text of CLUSTER NODES, with a line of words for each entry, a port that belongs to a node
-- of the array and no two entries of one node, step 5 of Setup gives each of these nodes the id of
-- its entry, in whatever order they come.
pub read_ids-HaveIds :
    (limit : ℕ) (es : List Entry) (ids : List Bytes)
    → AreEntries limit (length ids) es
    → AreApart es
    → (ids' : List Bytes) × (read_ids limit (text es) ids ≡ some ids')
      × (length ids' ≡ length ids)
      × HaveIds es ids'
unfolding read_ids
read_ids-HaveIds limit es ids h apart = (
  assign es ids,
  read_ids-assign limit es ids h,
  length-assign es ids,
  assign-HaveIds limit es ids h apart,
)
