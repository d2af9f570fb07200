-- ===== src/Sockets/Answers.antt =====
-- What the system answers for an address, without `tcp_connect` (src/network/tcp_scanner.cpp), and what its
-- attempts make of that.
use bye_bye_vpn.Common.{
  ℕ, Bool, true, false, ◌&&◌, ◌||◌, List, [], ◌∷◌, ◌++◌, none, some, ◌≡◌, refl, arith, ◌==◌, any,
}
use bye_bye_vpn.Sockets.Connect.{
  inet, inet6, unknown, is_inet, is_inet6, Network, Address, Selected, timed_out, exception,
  writable, Attempt, no_socket, connected, refused, expired, other, attempt, order, of_family,
  is_would_block_error, is_refused_error,
}

abbrev is_writable_with : ℕ → Selected → Bool
is_writable_with e (writable err) = err == e
is_writable_with e _ = false

abbrev is_exception_with : ℕ → Selected → Bool
is_exception_with e (exception err) = err == e
is_exception_with e _ = false

abbrev is_timed_out : Selected → Bool
is_timed_out timed_out = true
is_timed_out _ = false

-- Does select find what is asked for, after connect said EINPROGRESS (115) or EWOULDBLOCK (11)?
unfoldable pub later : (Selected → Bool) → Network → ℕ → ℕ → ℕ → Bool
later test net timeout_ms s err = (err == 115 || err == 11) && test (net.select s timeout_ms)

-- The connection is there at once, or select finds the socket writable with SO_ERROR 0.
unfoldable pub accepts : Network → ℕ → Address → Bool
unfolding later
accepts net timeout_ms a = elim (net.socket a) [
  | none ↦ false
  | some s ↦ elim (net.connect s a) [
    | none ↦ true
    | some err ↦ later (is_writable_with 0) net timeout_ms s err
  ]
]

-- ECONNREFUSED (111) at once, or as the SO_ERROR of a socket that select finds.
unfoldable pub refuses : Network → ℕ → Address → Bool
unfolding later
refuses net timeout_ms a = elim (net.socket a) [
  | none ↦ false
  | some s ↦ elim (net.connect s a) [
    | none ↦ false
    | some err ↦
        err == 111
        || later (is_writable_with 111) net timeout_ms s err
        || later (is_exception_with 111) net timeout_ms s err
  ]
]

-- select waits in vain until the time is up.
unfoldable pub keeps_silent : Network → ℕ → Address → Bool
unfolding later
keeps_silent net timeout_ms a = elim (net.socket a) [
  | none ↦ false
  | some s ↦ elim (net.connect s a) [
    | none ↦ false
    | some err ↦ later is_timed_out net timeout_ms s err
  ]
]

-- The sockets that there are for these addresses.
unfoldable pub sockets : Network → List Address → List ℕ
sockets net [] = []
sockets net (a ∷ rest) = elim (net.socket a) [
  | none ↦ sockets net rest
  | some s ↦ s ∷ sockets net rest
]

unfoldable pub ipv4_of : List Address → List Address
ipv4_of [] = []
ipv4_of (a ∷ rest) = elim a.family [
  | inet ↦ a ∷ ipv4_of rest
  | inet6 ↦ ipv4_of rest
  | unknown ↦ ipv4_of rest
]

unfoldable pub ipv6_of : List Address → List Address
ipv6_of [] = []
ipv6_of (a ∷ rest) = elim a.family [
  | inet ↦ ipv6_of rest
  | inet6 ↦ a ∷ ipv6_of rest
  | unknown ↦ ipv6_of rest
]

-- IPv4 first, and nothing but IPv4 and IPv6.
unfoldable pub preferred : List Address → List Address
unfolding ipv4_of ipv6_of
preferred addresses = ipv4_of addresses ++ ipv6_of addresses

abbrev pub is_connected : Attempt → Bool
is_connected (connected s) = true
is_connected _ = false

abbrev pub was_refused : Attempt → Bool
was_refused (refused s) = true
was_refused _ = false

abbrev pub was_expired : Attempt → Bool
was_expired (expired s) = true
was_expired _ = false

-- The socket that an attempt opened.
abbrev pub socket_of : Attempt → List ℕ
socket_of no_socket = []
socket_of (connected s) = s ∷ []
socket_of (refused s) = s ∷ []
socket_of (expired s) = s ∷ []
socket_of (other s) = s ∷ []

unfoldable pub opened : Network → ℕ → List Address → List ℕ
opened net timeout_ms [] = []
opened net timeout_ms (a ∷ rest) =
    socket_of (attempt net timeout_ms a) ++ opened net timeout_ms rest

abbrev pub some_attempt : (Attempt → Bool) → Network → ℕ → List Address → Bool
some_attempt p net timeout_ms addresses = any (λ a. p (attempt net timeout_ms a)) addresses

pub some_attempt_lem :
    (p : Attempt → Bool) (q : Address → Bool) (net : Network) (timeout_ms : ℕ)
    → ((a : Address) → p (attempt net timeout_ms a) ≡ q a)
    → (l : List Address) → some_attempt p net timeout_ms l ≡ any q l
some_attempt_lem p q net timeout_ms same [] = refl
some_attempt_lem p q net timeout_ms same (a ∷ l) =
    rw (same a, some_attempt_lem p q net timeout_ms same l) refl

module _ (net : Network) (timeout_ms : ℕ) (a : Address) where
  pub attempt-accepts : is_connected (attempt net timeout_ms a) ≡ accepts net timeout_ms a
  unfolding accepts later attempt is_would_block_error is_refused_error
  attempt-accepts = ground arith

  pub attempt-refuses : was_refused (attempt net timeout_ms a) ≡ refuses net timeout_ms a
  unfolding refuses later attempt is_would_block_error is_refused_error
  attempt-refuses = ground arith

  pub attempt-keeps_silent : was_expired (attempt net timeout_ms a) ≡ keeps_silent net timeout_ms a
  unfolding keeps_silent later attempt is_would_block_error is_refused_error
  attempt-keeps_silent = ground arith

  pub attempt-connected :
      (s : ℕ)
      → net.socket a ≡ some s
      → accepts net timeout_ms a ≡ true
      → attempt net timeout_ms a ≡ connected s
  unfolding accepts later attempt is_would_block_error is_refused_error
  attempt-connected s owns h = ground (arith, owns, h)

  socket_of-attempt :
      (rest : List ℕ)
      → socket_of (attempt net timeout_ms a) ++ rest
        ≡ elim (net.socket a) [ none ↦ rest | some s ↦ s ∷ rest ]
  unfolding attempt is_would_block_error is_refused_error
  socket_of-attempt rest = ground arith

pub opened-sockets :
    (net : Network) (timeout_ms : ℕ) (l : List Address) → opened net timeout_ms l ≡ sockets net l
unfolding opened sockets
opened-sockets net timeout_ms [] = refl
opened-sockets net timeout_ms (a ∷ l) =
    rw (opened-sockets net timeout_ms l, socket_of-attempt net timeout_ms a (sockets net l)) refl

of_family-ipv4_of : (l : List Address) → of_family is_inet l ≡ ipv4_of l
unfolding of_family ipv4_of
of_family-ipv4_of [] = refl
of_family-ipv4_of (a ∷ l) = ground (arith, of_family-ipv4_of l)

of_family-ipv6_of : (l : List Address) → of_family is_inet6 l ≡ ipv6_of l
unfolding of_family ipv6_of
of_family-ipv6_of [] = refl
of_family-ipv6_of (a ∷ l) = ground (arith, of_family-ipv6_of l)

pub order-preferred : (l : List Address) → order l ≡ preferred l
unfolding order preferred
order-preferred l = rw (of_family-ipv4_of l, of_family-ipv6_of l) refl
