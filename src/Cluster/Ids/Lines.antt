-- ===== src/Cluster/Ids/Lines.antt =====
-- What the text of CLUSTER NODES says, line by line.
use yarc.Base.{
  ℕ, ◌+◌, ◌*◌, ◌-◌, ◌%◌, ◌<◌, ◌≡◌, ◌≢◌, refl, ap, ◌∙◌, false, some, List, [], ◌∷◌, ◌++◌, Bytes,
  length, ne→==, eq→==, lt→ltb, append_assoc, append-nil, length-append, arith, pos,
}
use yarc.DynamicArray.Loops.{set_elem}
use yarc.Protocol.Number.{is_digit, is_space, decimal, digits_value, strtol, strtol_signed}
use yarc.Protocol.Number.Decimal.{IsDigits, decimal-IsDigits, digits_value-decimal}
use yarc.Protocol.HashSlot.Tags.{Lacks, find_byte-append, drop-suc_append, c_str-Lacks}
use yarc.Cluster.Ids.{getlines, id_and_address, node_index, set_id, read_line, read_lines}

-- A text up to the next delimiter.
pub getlines-append :
    (delim : ℕ) (front bs rest : Bytes)
    → Lacks delim bs
    → getlines delim front (bs ++ delim ∷ rest) ≡ (front ++ bs) ∷ getlines delim [] rest
unfolding getlines
getlines-append delim front [] rest h = rw (eq→== delim delim refl, append-nil front) refl
getlines-append delim front (b ∷ bs) rest h =
    rw
      (
        ne→== b delim h.0.1,
        getlines-append delim (front ++ b ∷ []) bs rest h.1,
        append_assoc front (b ∷ []) bs,
      )
      refl

-- What CLUSTER NODES tells of a node: its id, and its address with the port; `bus` is the port of
-- the cluster's bus and `more` the other words.
pub record Entry : Type 0 where
  pub node : ℕ
  pub id : Bytes
  pub ip : Bytes
  pub bus : Bytes
  pub more : Bytes

unfoldable pub address_text : Entry → Bytes
unfolding decimal
address_text e = e.ip ++ b':' ∷ (decimal (7000 + e.node) ++ b'@' ∷ e.bus)

unfoldable pub line : Entry → Bytes
unfolding address_text
line e = e.id ++ b' ' ∷ (address_text e ++ b' ' ∷ e.more)

unfoldable pub text : List Entry → Bytes
unfolding line
text [] = []
text (e ∷ es) = line e ++ b'\n' ∷ text es

digits_value-append :
    (acc : ℕ) (ds rest : Bytes)
    → IsDigits ds
    → digits_value acc (ds ++ b'@' ∷ rest) ≡ digits_value acc ds
unfolding digits_value is_digit
digits_value-append acc [] rest h = refl
digits_value-append acc (d ∷ ds) rest h =
    ground (arith, digits_value-append (acc * 10 + (d - b'0')) ds rest h.1)

strtol-digits :
    (limit : ℕ) (ds rest : Bytes)
    → IsDigits ds
    → digits_value 0 ds < limit
    → (strtol limit (ds ++ b'@' ∷ rest)).0 ≡ pos (digits_value 0 ds)
unfolding strtol strtol_signed is_digit is_space digits_value
strtol-digits limit [] rest h fits = ground arith
strtol-digits limit (d ∷ ds) rest h fits =
    ground (arith, digits_value-append (d - b'0') ds rest h.1)

-- `atoi` stops at the `@`.
strtol-append :
    (limit n : ℕ) (rest : Bytes) → n < limit → (strtol limit (decimal n ++ b'@' ∷ rest)).0 ≡ pos n
strtol-append limit n rest h =
    let value = digits_value-decimal n in
    strtol-digits limit (decimal n) rest (decimal-IsDigits n) (omega (arith, value, h))
    ∙ ap pos value

-- No text has a NUL, a line break, or a space or colon where one would split it.
pub record IsEntry (limit count : ℕ) (e : Entry) : Type 0 where
  pub there : e.node < count
  pub port : 7000 + e.node < 0x10000
  pub long : 7000 + e.node < limit
  pub id_word : Lacks b' ' e.id
  pub id_line : Lacks b'\n' e.id
  pub ip_word : Lacks b' ' e.ip
  pub ip_line : Lacks b'\n' e.ip
  pub ip_front : Lacks b':' e.ip
  pub bus_word : Lacks b' ' e.bus
  pub bus_line : Lacks b'\n' e.bus
  pub more_line : Lacks b'\n' e.more

Lacks-append : (ch : ℕ) (xs ys : Bytes) → Lacks ch xs → Lacks ch ys → Lacks ch (xs ++ ys)
Lacks-append ch [] ys h k = k
Lacks-append ch (x ∷ xs) ys h k = (h.0, Lacks-append ch xs ys h.1 k)

IsDigits-Lacks : (ch : ℕ) (ds : Bytes) → is_digit ch ≡ false → IsDigits ds → Lacks ch ds
unfolding is_digit
IsDigits-Lacks ch [] other h = tt
IsDigits-Lacks ch (d ∷ ds) other h = ((ground arith, ground arith), IsDigits-Lacks ch ds other h.1)

port_text-Lacks :
    (ch : ℕ) (e : Entry)
    → is_digit ch ≡ false
    → b'@' ≢ ch
    → Lacks ch e.bus
    → Lacks ch (decimal (7000 + e.node) ++ b'@' ∷ e.bus)
port_text-Lacks ch e other at bus =
    Lacks-append ch (decimal (7000 + e.node)) (b'@' ∷ e.bus)
      (IsDigits-Lacks ch (decimal (7000 + e.node)) other (decimal-IsDigits (7000 + e.node)))
      ((omega arith, at), bus)

address_text-Lacks :
    (ch : ℕ) (e : Entry)
    → is_digit ch ≡ false
    → b'@' ≢ ch
    → b':' ≢ ch
    → Lacks ch e.ip
    → Lacks ch e.bus
    → Lacks ch (address_text e)
unfolding address_text
address_text-Lacks ch e other at colon ip bus =
    Lacks-append ch e.ip (b':' ∷ (decimal (7000 + e.node) ++ b'@' ∷ e.bus)) ip
      ((omega arith, colon), port_text-Lacks ch e other at bus)

pub line-Lacks : (limit count : ℕ) (e : Entry) → IsEntry limit count e → Lacks b'\n' (line e)
unfolding line is_digit
line-Lacks limit count e h =
    Lacks-append b'\n' e.id (b' ' ∷ (address_text e ++ b' ' ∷ e.more)) h.id_line (
      (omega arith, omega arith),
      Lacks-append b'\n' (address_text e) (b' ' ∷ e.more)
          (address_text-Lacks b'\n' e refl (omega arith) (omega arith) h.ip_line h.bus_line)
          ((omega arith, omega arith), h.more_line),
    )

node_index-address_text :
    (limit count : ℕ) (e : Entry)
    → IsEntry limit count e
    → node_index limit (address_text e) ≡ some e.node
unfolding node_index address_text is_digit
node_index-address_text limit count e h =
    let port = decimal (7000 + e.node) ++ b'@' ∷ e.bus in
    let whole = length-append e.ip (b':' ∷ port) in
    let found = find_byte-append b':' e.ip port h.ip_front in
    let behind = drop-suc_append e.ip port b':' (length e.ip + 1) (omega arith) in
    let clean = c_str-Lacks b' ' port (port_text-Lacks b' ' e refl (omega arith) h.bus_word) in
    let number = strtol-append limit (7000 + e.node) e.bus h.long in
    let index : ((7000 + e.node) % 0x10000 + (0x100000000 - 7000)) % 0x100000000 ≡ e.node =
      omega (arith, h.port) in
    rw
      (
        node_index,
        found,
        ne→== (length e.ip) (length (e.ip ++ b':' ∷ port)) (omega (arith, whole)),
        behind,
        clean,
        number,
      )
      (ap some index)

space_no_digit : is_digit b' ' ≡ false
unfolding is_digit
space_no_digit = refl

pub read_nothing :
    (limit : ℕ) (ids : List Bytes) → read_lines limit (getlines b'\n' [] []) ids ≡ some ids
unfolding read_lines getlines
read_nothing limit ids = refl

pub read_line-line :
    (limit : ℕ) (e : Entry) (ids : List Bytes)
    → IsEntry limit (length ids) e
    → read_line limit (line e) ids ≡ some (set_elem ids e.node e.id)
unfolding read_line id_and_address line set_id
read_line-line limit e ids h =
    let first = getlines-append b' ' [] e.id (address_text e ++ b' ' ∷ e.more) h.id_word in
    let second =
      getlines-append b' ' [] (address_text e) e.more (
        address_text-Lacks b' ' e space_no_digit (omega arith) (omega arith) h.ip_word
          h.bus_word) in
    let index = node_index-address_text limit (length ids) e h in
    let id = c_str-Lacks b' ' e.id h.id_word in
    rw (read_line, first, second, index, lt→ltb e.node (length ids) h.there, id) refl
