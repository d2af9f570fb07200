-- ===== src/Sockets/Connect.antt =====
-- src/network/tcp_scanner.cpp: `tcp_connect`. The system calls are given, as the record Network; the open
-- sockets are counted, so that a socket that is left open shows.
use bye_bye_vpn.Common.{
  ℕ, Bool, true, false, ◌||◌, List, [], ◌∷◌, ◌++◌, Option, none, some, ◌==◌, if◌then◌else◌, Bytes,
  text,
}

pub data AddressFamily : Type 0 where
  inet inet6 unknown : AddressFamily

-- An entry of the list of getaddrinfo.
pub record Address : Type 0 where
  pub family : AddressFamily
  pub addr : Bytes

-- What `select` leaves in its sets, and what getsockopt(SO_ERROR) then gives.
pub data Selected : Type 0 where
  failed : Selected
  timed_out : Selected
  exception : ℕ → Selected
  writable : ℕ → Selected
  neither : Selected

-- The system for one address after the other; `connect` is 0 or errno, and a socket is a number.
pub record Network : Type 0 where
  pub getaddrinfo : Bytes → ℕ → Option (List Address)
  pub socket : Address → Option ℕ
  pub connect : ℕ → Address → Option ℕ
  pub select : ℕ → ℕ → Selected

-- ECONNREFUSED and EINPROGRESS; WSAECONNREFUSED and WSAEWOULDBLOCK are names for the first and for
-- EWOULDBLOCK.
abbrev pub econnrefused : ℕ
econnrefused = 111

abbrev pub einprogress : ℕ
einprogress = 115

abbrev pub ewouldblock : ℕ
ewouldblock = 11

unfoldable pub is_would_block_error : ℕ → Bool
is_would_block_error err = err == einprogress || err == ewouldblock

unfoldable pub is_refused_error : ℕ → Bool
is_refused_error err = err == econnrefused

abbrev pub is_inet : AddressFamily → Bool
is_inet inet = true
is_inet _ = false

abbrev pub is_inet6 : AddressFamily → Bool
is_inet6 inet6 = true
is_inet6 _ = false

unfoldable pub of_family : (AddressFamily → Bool) → List Address → List Address
of_family p [] = []
of_family p (a ∷ rest) = if p a.family then a ∷ of_family p rest else of_family p rest

-- `ordered`
unfoldable pub order : List Address → List Address
unfolding of_family
order addresses = of_family is_inet addresses ++ of_family is_inet6 addresses

-- What one address came to: the socket is kept, or it is closed and may leave a mark.
pub data Attempt : Type 0 where
  no_socket : Attempt
  connected : ℕ → Attempt
  refused : ℕ → Attempt
  expired : ℕ → Attempt
  other : ℕ → Attempt

abbrev closed_with : ℕ → ℕ → Attempt
closed_with s se = if is_refused_error se then refused s else other s

-- The body of the loop up to closesocket.
unfoldable pub attempt : Network → ℕ → Address → Attempt
unfolding is_would_block_error is_refused_error
attempt net timeout_ms a = elim (net.socket a) [
  | none ↦ no_socket
  | some s ↦ elim (net.connect s a) [
    | none ↦ connected s
    | some werr ↦ elim (is_would_block_error werr) [
      | false ↦ closed_with s werr
      | true ↦ elim (net.select s timeout_ms) [
        | failed ↦ other s
        | timed_out ↦ expired s
        | exception se ↦ closed_with s se
        | writable se ↦ if se == 0 then connected s else closed_with s se
        | neither ↦ other s
      ]
    ]
  ]
]

-- The result: the socket or INVALID_SOCKET, `err`, and the sockets that were closed.
pub record Connection : Type 0 where
  pub socket : Option ℕ
  pub err : Bytes
  pub closed : List ℕ

-- The loop over `ordered`, with saw_refused, saw_timeout and what was closed.
unfoldable pub try_all : Network → ℕ → Bool → Bool → List ℕ → List Address → Connection
unfolding attempt
try_all net timeout_ms saw_refused saw_timeout closed [] = record {
  socket = none;
  err =
      if saw_refused then text "refused" else if saw_timeout then text "timeout" else text "other";
  closed = closed;
}
try_all net timeout_ms saw_refused saw_timeout closed (a ∷ rest) = elim (attempt net timeout_ms a) [
  | no_socket ↦ try_all net timeout_ms saw_refused saw_timeout closed rest
  | connected s ↦ record { socket = some s; err = []; closed = closed }
  | refused s ↦ try_all net timeout_ms true saw_timeout (closed ++ s ∷ []) rest
  | expired s ↦ try_all net timeout_ms saw_refused true (closed ++ s ∷ []) rest
  | other s ↦ try_all net timeout_ms saw_refused saw_timeout (closed ++ s ∷ []) rest
]

unfoldable pub tcp_connect : Network → Bytes → ℕ → ℕ → Connection
unfolding order try_all
tcp_connect net host port timeout_ms = elim (net.getaddrinfo host port) [
  | none ↦ record { socket = none; err = text "dns"; closed = [] }
  | some addresses ↦ try_all net timeout_ms false false [] (order addresses)
]
