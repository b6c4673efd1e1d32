-- ===== src/Smq/Address.antt =====
-- Addresses as text: string_addr, parse_addr and msg_is_from_relay of smqueue/smnet.cpp, over the resolver
-- of the C library.
use smqueue.Prelude.{
  ℕ, ◌≤◌, ◌≡◌, refl, Bool, true, false, not, ◌||◌, ◌&&◌, List, [], ◌∷◌, ◌++◌, Option, none, some,
  Str, All, codes, str_eq, split_at, length, ltb, ◌==◌, if◌then◌else◌, arith,
}

-- getnameinfo with a port, and inet_ntop; `none` is an error.
pub record Names : Type 0 where
  pub getnameinfo : Str → Option (Str × Str)
  pub inet_ntop : Str → Option Str

-- The text of what getnameinfo gave, or else inet_ntop, or else of nothing.
abbrev named : Option (Str × Str) → Option Str → Str
named (some (host, port)) o = host ++ b':' ∷ port
named none (some host) = host ++ codes ":0"
named none none = codes "0:0"

-- SMnet::string_addr with a port; an address of no bytes is not looked up.
unfoldable pub string_addr : Names → Str → Str
string_addr names [] = codes "0:0"
string_addr names (c ∷ a) = named (names.getnameinfo (c ∷ a)) (names.inet_ntop (c ∷ a))

-- An address of getaddrinfo, and whether it is one for datagrams.
pub record Resolved : Type 0 where
  pub address : Str
  pub is_datagram : Bool

-- The loop of parse_addr over the addresses, behind the one that was taken: the only address for
-- datagrams that has at most `maxlen` bytes.
unfoldable pub pick_address : ℕ → Option Str → List Resolved → Option Str
pick_address maxlen seen [] = seen
pick_address maxlen seen (r ∷ rs) =
    let rest = pick_address maxlen seen rs in
    let taken = pick_address maxlen (some r.address) rs in
    if ltb maxlen (length r.address) || not r.is_datagram
    then rest
    else elim seen [ none ↦ taken | some a ↦ none ]

abbrev picked : ℕ → Option (List Resolved) → Option Str
picked maxlen none = none
picked maxlen (some rs) = pick_address maxlen none rs

abbrev looked_up : (Str → Str → Option (List Resolved)) → Bool → ℕ → Option (Str × Str) → Option Str
looked_up getaddrinfo is_empty maxlen none = none
looked_up getaddrinfo is_empty maxlen (some (host, port)) =
    if is_empty then some [] else picked maxlen (getaddrinfo host port)

-- SMnet::parse_addr, with getaddrinfo for a host and a port; `none` is its error.
unfoldable pub parse_addr : (Str → Str → Option (List Resolved)) → Str → ℕ → Option Str
unfolding split_at pick_address str_eq
parse_addr getaddrinfo text maxlen =
    looked_up getaddrinfo (str_eq (codes "0:0") text) maxlen (split_at b':' text)

-- SMnet::msg_is_from_relay for a relay with an address; the addresses are compared byte by byte.
unfoldable pub msg_is_from_relay : (Str → Str → Option (List Resolved)) → Str → Str → Str → Bool
unfolding str_eq
msg_is_from_relay getaddrinfo srcaddr relay_ip relay_port =
    if length relay_ip == 0
    then false
    else elim (getaddrinfo relay_ip relay_port) [ none ↦ false | some rs ↦ any rs ]
  where
    any : List Resolved → Bool
    any [] = false
    any (r ∷ rs) = (length r.address == length srcaddr && str_eq r.address srcaddr) || any rs

split_at-append :
    (c : ℕ) (s r : Str) → All (λ d. (d == c) ≡ false) s → split_at c (s ++ c ∷ r) ≡ some (s, r)
unfolding split_at
split_at-append c [] r h = rw (self c) refl
  where
    self : (c : ℕ) → (c == c) ≡ true
    self c = ground arith
split_at-append c (d ∷ s) r h = rw (h.0, split_at-append c s r h.1) refl

-- An address of at most so many bytes that is printed as a host without a colon and a port, which the
-- resolver gives for them as its only address for datagrams, is read as it was.
pub parse_addr-string_addr :
    (names : Names) (getaddrinfo : Str → Str → Option (List Resolved)) (c : ℕ) (a host port : Str)
    (maxlen : ℕ)
    → names.getnameinfo (c ∷ a) ≡ some (host, port)
    → All (λ d. (d == b':') ≡ false) host
    → str_eq (codes "0:0") (host ++ b':' ∷ port) ≡ false
    → getaddrinfo host port ≡ some (record { address = c ∷ a; is_datagram = true } ∷ [])
    → length (c ∷ a) ≤ maxlen
    → parse_addr getaddrinfo (string_addr names (c ∷ a)) maxlen ≡ some (c ∷ a)
unfolding parse_addr string_addr pick_address
parse_addr-string_addr names getaddrinfo c a host port maxlen e h z k l =
    rw (e, z, split_at-append b':' host port h, k, fits l) refl
  where
    fits : {n m : ℕ} → n ≤ m → ltb m n ≡ false
    fits l = ground arith
