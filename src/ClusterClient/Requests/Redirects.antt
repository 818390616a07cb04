-- ===== src/ClusterClient/Requests/Redirects.antt =====
-- How a request follows the redirections of the cluster.
use yarc.Base.{
  ℕ, zero, suc, ◌+◌, ◌/◌, ◌%◌, ◌≤◌, ◌<◌, ◌≡◌, ◌≢◌, refl, ap, true, false, Option, none, some, List,
  [], ◌∷◌, ◌++◌, Bytes, ◌==◌, ne→==, ltb, lt→ltb, length, arith, append-nil, append_assoc, All,
  Bool-cases, inl, inr, ◌⊎◌,
}
use yarc.Protocol.Data.{Tree}
use yarc.Protocol.Fields.{bytes_eq}
use yarc.Protocol.Parser.{c_str}
use yarc.Protocol.Number.{decimal, digits_before, is_digit}
use yarc.Protocol.Number.Decimal.{IsDigits, decimal-IsDigits, strtol-decimal}
use yarc.ClusterClient.Nodes.{Address, ClusterNode, find_cluster_node_for_address}
use yarc.Reducer.{ReductionResult, result_none, result_bail}
use yarc.ClusterClient.Requests.{
  tokens, parse_redirect_address_and_port, Request, Reduced, Action, state_unsent, state_pending,
  send_asking, send_command, signal_dirty, redirect, handle_error, get_error_code, error_text,
  reduce, respond,
}

abbrev pub IsTokenByte : ℕ → Type 0
IsTokenByte b = (b ≢ 0) × (b ≢ b' ') × (b ≢ b':')

-- A token: bytes of a C string that are no separators, one at least.
abbrev pub IsToken : Bytes → Type 0
IsToken token = All IsTokenByte token × (0 < length token)

tokens-append :
    (token w : Bytes) (rest : Bytes)
    → All IsTokenByte w
    → tokens token (w ++ rest) ≡ tokens (token ++ w) rest
unfolding tokens
tokens-append token [] rest h = rw (append-nil token)
tokens-append token (b ∷ bs) rest h = rw (
  ne→== b b' ' h.0.1,
  ne→== b b':' h.0.2,
  tokens-append (token ++ b ∷ []) bs rest h.1,
  append_assoc token (b ∷ []) bs,
)

-- The text of a MOVED or an ASK.
abbrev pub redirect_text : (code slot ip : Bytes) → (port : ℕ) → Bytes
redirect_text code slot ip port = code ++ b' ' ∷ (slot ++ b' ' ∷ (ip ++ b':' ∷ decimal port))

tokens-IsToken :
    (w : Bytes) (ch : ℕ) (rest : Bytes)
    → IsToken w
    → (ch ≡ b' ') ⊎ (ch ≡ b':')
    → tokens [] (w ++ ch ∷ rest) ≡ w ∷ tokens [] rest
unfolding tokens
tokens-IsToken w ch rest h (inl e) =
    rw (tokens-append [] w (ch ∷ rest) h.0, e, lt→ltb 0 (length w) h.1)
tokens-IsToken w ch rest h (inr e) =
    rw (tokens-append [] w (ch ∷ rest) h.0, e, lt→ltb 0 (length w) h.1)

c_str-IsToken : (w rest : Bytes) → All IsTokenByte w → c_str (w ++ rest) ≡ w ++ c_str rest
unfolding c_str
c_str-IsToken [] rest h = refl
c_str-IsToken (b ∷ bs) rest h = rw (ne→== b 0 h.0.0, c_str-IsToken bs rest h.1)

is_digit-IsTokenByte : (b : ℕ) → is_digit b ≡ true → IsTokenByte b
unfolding is_digit
is_digit-IsTokenByte b h = (ground (arith, h), ground (arith, h), ground (arith, h))

decimal-IsToken : (n : ℕ) → All IsTokenByte (decimal n)
decimal-IsToken n = digits (decimal n) (decimal-IsDigits n)
  where
    digits : (ds : Bytes) → IsDigits ds → All IsTokenByte ds
    digits [] h = tt
    digits (b ∷ bs) h = (is_digit-IsTokenByte b h.0, digits bs h.1)

length-digits_before-le :
    (fuel n : ℕ) (rest : Bytes) → length rest ≤ length (digits_before fuel n rest)
unfolding digits_before
length-digits_before-le zero n rest = omega arith
length-digits_before-le (suc fuel) n rest = elim (Bool-cases (ltb n 10)) [
  | inl e ↦ rw e (omega arith)
  | inr e ↦
      rw e
        (let h = length-digits_before-le fuel (n / 10) ((b'0' + n % 10) ∷ rest) in omega (arith, h))
]

length-decimal_pos : (n : ℕ) → 0 < length (decimal n)
unfolding decimal
length-decimal_pos n = elim (Bool-cases (ltb n 10)) [
  | inl e ↦ rw e (omega arith)
  | inr e ↦
      rw e (let h = length-digits_before-le n (n / 10) ((b'0' + n % 10) ∷ []) in omega (arith, h))
]

c_str-redirect_text :
    (code slot ip : Bytes) (port : ℕ)
    → All IsTokenByte code
    → All IsTokenByte slot
    → All IsTokenByte ip
    → c_str (redirect_text code slot ip port) ≡ redirect_text code slot ip port
unfolding c_str
c_str-redirect_text code slot ip port c s i =
    let last : c_str (decimal port) ≡ decimal port =
      cc (c_str-IsToken (decimal port) [] (decimal-IsToken port), append-nil (decimal port)) in
    rw (
      c_str-IsToken code (b' ' ∷ (slot ++ b' ' ∷ (ip ++ b':' ∷ decimal port))) c,
      c_str-IsToken slot (b' ' ∷ (ip ++ b':' ∷ decimal port)) s,
      c_str-IsToken ip (b':' ∷ decimal port) i,
      last,
    )

tokens-decimal : (n : ℕ) → tokens [] (decimal n) ≡ decimal n ∷ []
unfolding tokens
tokens-decimal n =
    let whole : tokens [] (decimal n ++ []) ≡ tokens (decimal n) [] =
      tokens-append [] (decimal n) [] (decimal-IsToken n) in
    let last : tokens (decimal n) [] ≡ decimal n ∷ [] =
      rw (lt→ltb 0 (length (decimal n)) (length-decimal_pos n)) in
    cc (append-nil (decimal n))

-- The text of a redirection, of three tokens and a 16-bit port, sets the address and the port that
-- it names, where `long` holds the port.
pub parse_redirect_address_and_port-redirect_text :
    (long_limit : ℕ) (code slot ip : Bytes) (port : ℕ) (address : Address)
    → IsToken code
    → IsToken slot
    → IsToken ip
    → port < 0x10000
    → 0x10000 ≤ long_limit
    → parse_redirect_address_and_port long_limit (redirect_text code slot ip port) address
      ≡ record address { ip_address = ip; port = port }
unfolding parse_redirect_address_and_port
parse_redirect_address_and_port-redirect_text long_limit code slot ip port address c s i small
      long =
    rw (
      c_str-redirect_text code slot ip port c.0 s.0 i.0,
      tokens-IsToken code b' ' (slot ++ b' ' ∷ (ip ++ b':' ∷ decimal port)) c (inl refl),
      tokens-IsToken slot b' ' (ip ++ b':' ∷ decimal port) s (inl refl),
      tokens-IsToken ip b':' (decimal port) i (inr refl),
      tokens-decimal port,
      strtol-decimal long_limit port (omega arith),
      port_fits,
    )
  where
    port_fits : port % 0x10000 ≡ port
    port_fits = omega arith

-- The errors that HandleError handles.
abbrev pub IsRedirect : Bytes → Type 0
IsRedirect value =
    (bytes_eq (get_error_code value) (b'A' ∷ b'S' ∷ b'K' ∷ []) ≡ true)
    ⊎ ((bytes_eq (get_error_code value) (b'A' ∷ b'S' ∷ b'K' ∷ []) ≡ false)
        × (bytes_eq (get_error_code value) (b'M' ∷ b'O' ∷ b'V' ∷ b'E' ∷ b'D' ∷ []) ≡ true))

module _ (getaddrinfo : Bytes → ℕ → Option Bytes) (long_limit : ℕ) (nodes : List ClusterNode) where
  -- The first redirection counts 1, and the second leaves the request to be routed by its slot.
  redirect-first :
      (result : ReductionResult) (first : List Action) (send : ClusterNode → Action) (value : Bytes)
      (r : Request)
      → r.redirect_count ≡ 0
      → (redirect getaddrinfo long_limit nodes result first send value r).request.redirect_count ≡ 1
  unfolding redirect
  redirect-first result first send value r h =
      let still : (r.redirect_count + 1 == 2) ≡ false =
        ne→== (r.redirect_count + 1) 2 (omega arith) in
      rw still (
        placed (
          find_cluster_node_for_address getaddrinfo nodes
            (parse_redirect_address_and_port long_limit value r.redirect_address)))
    where
      moved : Request
      moved = record r {
        redirect_count = r.redirect_count + 1;
        redirect_address = parse_redirect_address_and_port long_limit value r.redirect_address;
        response_data = none;
      }

      placed :
          (o : Option ClusterNode)
          → (elim o as (λ x. Reduced) [
            | none ↦ record {
              result = result;
              request = record moved { state = state_unsent };
              actions = first;
            }
            | some node ↦ record {
              result = result;
              request = record moved { state = state_pending };
              actions = first ++ send node ∷ [];
            }
          ]).request.redirect_count
            ≡ 1
      placed none = omega arith
      placed (some node) = omega arith

  redirect-second :
      (result : ReductionResult) (first : List Action) (send : ClusterNode → Action) (value : Bytes)
      (r : Request)
      → r.redirect_count ≡ 1
      → redirect getaddrinfo long_limit nodes result first send value r ≡ record {
        result = result;
        request = record r { state = state_unsent; redirect_count = 0 };
        actions = first;
      }
  unfolding redirect
  redirect-second result first send value r h = rw h

  abbrev to_asking : Request → Bytes → Reduced
  to_asking r value = redirect getaddrinfo long_limit nodes result_none [] send_asking value r

  abbrev to_moved : Request → Bytes → Reduced
  to_moved r value =
      redirect getaddrinfo long_limit nodes result_bail (signal_dirty ∷ []) send_command value r

  handle_error-first :
      (value : Bytes) (r : Request)
      → IsRedirect value
      → r.redirect_count ≡ 0
      → (d : Reduced) × (handle_error getaddrinfo long_limit nodes value r ≡ some d)
        × (d.request.redirect_count ≡ 1)
  unfolding handle_error
  handle_error-first value r (inl ask) h =
      (to_asking r value, rw ask, redirect-first _ _ _ value r h)
  handle_error-first value r (inr (not_ask, moved)) h =
      (to_moved r value, rw (not_ask, moved), redirect-first _ _ _ value r h)

  handle_error-second :
      (value : Bytes) (r : Request)
      → IsRedirect value
      → r.redirect_count ≡ 1
      → (d : Reduced) × (handle_error getaddrinfo long_limit nodes value r ≡ some d)
        × (d.request ≡ record r { state = state_unsent; redirect_count = 0 })
  unfolding handle_error
  handle_error-second value r (inl ask) h =
      (to_asking r value, rw ask, ap (λ d. d.request) (redirect-second _ _ _ value r h))
  handle_error-second value r (inr (not_ask, moved)) h =
      (to_moved r value, rw (not_ask, moved), ap (λ d. d.request) (redirect-second _ _ _ value r h))

  reduce-respond :
      (t : Tree) (value : Bytes) (r : Request) (d : Reduced)
      → error_text (some t) ≡ some value
      → handle_error getaddrinfo long_limit nodes value (respond t r) ≡ some d
      → reduce getaddrinfo long_limit nodes (respond t r) ≡ d
  unfolding respond reduce
  reduce-respond t value r d e f = rw (reduce, e, f)

  -- Two redirections in a row, however they are mixed of MOVED and ASK, send a request with a count
  -- of 0 back to be routed by its slot with a count of 0; after the first the count is 1.
  pub reduce-redirected_twice :
      (t u : Tree) (first second : Bytes) (r : Request)
      → r.redirect_count ≡ 0
      → error_text (some t) ≡ some first
      → error_text (some u) ≡ some second
      → IsRedirect first
      → IsRedirect second
      → (d : Reduced) × (reduce getaddrinfo long_limit nodes (respond t r) ≡ d)
        × (d.request.redirect_count ≡ 1)
        × ((reduce getaddrinfo long_limit nodes (respond u d.request)).request.state ≡ state_unsent)
        × ((reduce getaddrinfo long_limit nodes (respond u d.request)).request.redirect_count ≡ 0)
  unfolding respond
  reduce-redirected_twice t u first second r zero_count e f is_first is_second =
      let (d, ran, one) = handle_error-first first (respond t r) is_first zero_count in
      let (d', ran', back) = handle_error-second second (respond u d.request) is_second one in
      let reduced = reduce-respond u second d.request d' f ran' in
      (d, reduce-respond t first r d e ran, one, rw (reduced, back), rw (reduced, back))
