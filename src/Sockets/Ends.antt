-- ===== src/Sockets/Ends.antt =====
-- How the attempts of `tcp_connect` end, and that none leaves a socket open.
use bye_bye_vpn.Common.{
  ℕ, Bool, true, false, ◌||◌, List, [], ◌∷◌, ◌++◌, none, some, ◌≡◌, refl, arith, ◌∙◌, if◌then◌else◌,
  any, Bytes, text, append_assoc, append-nil,
}
use bye_bye_vpn.Sockets.Connect.{
  Network, Address, Attempt, no_socket, connected, refused, expired, other, attempt, try_all,
  tcp_connect,
}
use bye_bye_vpn.Sockets.Answers.{
  accepts, refuses, keeps_silent, sockets, preferred, is_connected, was_refused, was_expired,
  opened, some_attempt, some_attempt_lem, attempt-accepts, attempt-refuses, attempt-keeps_silent,
  attempt-connected, opened-sockets, order-preferred,
}

abbrev pub error_text : Bool → Bool → Bytes
error_text saw_refused saw_timeout =
    if saw_refused then text "refused" else if saw_timeout then text "timeout" else text "other"

abbrev FailsWith : Network → ℕ → List Address → Type 0
FailsWith net timeout_ms addresses =
    (saw_refused saw_timeout : Bool) (closed : List ℕ)
    → try_all net timeout_ms saw_refused saw_timeout closed addresses ≡ record {
      socket = none;
      err =
          error_text (saw_refused || some_attempt was_refused net timeout_ms addresses)
            (saw_timeout || some_attempt was_expired net timeout_ms addresses);
      closed = closed ++ opened net timeout_ms addresses;
    }

failed_step :
    (net : Network) (timeout_ms : ℕ) (a : Address) (rest : List Address) (x : Attempt)
    → attempt net timeout_ms a ≡ x
    → is_connected x ≡ false
    → FailsWith net timeout_ms rest
    → FailsWith net timeout_ms (a ∷ rest)
unfolding try_all opened
failed_step net timeout_ms a rest no_socket e h ih sr st closed =
    rw (e, try_all, opened, ih sr st closed)
failed_step net timeout_ms a rest (connected s) e h ih sr st closed = absurd (ground (arith, h))
failed_step net timeout_ms a rest (refused s) e h ih true st closed = rw (
  e,
  try_all,
  opened,
  ih true st (closed ++ s ∷ []),
  append_assoc closed (s ∷ []) (opened net timeout_ms rest),
)
failed_step net timeout_ms a rest (refused s) e h ih false st closed = rw (
  e,
  try_all,
  opened,
  ih true st (closed ++ s ∷ []),
  append_assoc closed (s ∷ []) (opened net timeout_ms rest),
)
failed_step net timeout_ms a rest (expired s) e h ih sr true closed = rw (
  e,
  try_all,
  opened,
  ih sr true (closed ++ s ∷ []),
  append_assoc closed (s ∷ []) (opened net timeout_ms rest),
)
failed_step net timeout_ms a rest (expired s) e h ih sr false closed = rw (
  e,
  try_all,
  opened,
  ih sr true (closed ++ s ∷ []),
  append_assoc closed (s ∷ []) (opened net timeout_ms rest),
)
failed_step net timeout_ms a rest (other s) e h ih sr st closed = rw (
  e,
  try_all,
  opened,
  ih sr st (closed ++ s ∷ []),
  append_assoc closed (s ∷ []) (opened net timeout_ms rest),
)

try_all-FailsWith :
    (net : Network) (timeout_ms : ℕ) (addresses : List Address)
    → some_attempt is_connected net timeout_ms addresses ≡ false
    → FailsWith net timeout_ms addresses
unfolding try_all opened
try_all-FailsWith net timeout_ms [] h true st closed = rw (append-nil closed)
try_all-FailsWith net timeout_ms [] h false true closed = rw (append-nil closed)
try_all-FailsWith net timeout_ms [] h false false closed = rw (append-nil closed)
try_all-FailsWith net timeout_ms (a ∷ rest) h sr st closed =
    let (first, more) : (is_connected (attempt net timeout_ms a) ≡ false)
        × (some_attempt is_connected net timeout_ms rest ≡ false) =
      ground (arith, h) in
    failed_step net timeout_ms a rest (attempt net timeout_ms a) refl first
      (try_all-FailsWith net timeout_ms rest more) sr st closed

-- When the name resolves and no address accepts, every socket there was is closed, IPv4 first, and the error is
-- "refused" if some address refused, else "timeout" if some kept silent until the time was up, else "other".
pub tcp_connect-failed :
    (net : Network) (host : Bytes) (port timeout_ms : ℕ) (addresses : List Address)
    → net.getaddrinfo host port ≡ some addresses
    → any (accepts net timeout_ms) (preferred addresses) ≡ false
    → tcp_connect net host port timeout_ms ≡ record {
      socket = none;
      err =
          error_text
            (any (refuses net timeout_ms) (preferred addresses))
            (any (keeps_silent net timeout_ms) (preferred addresses));
      closed = sockets net (preferred addresses);
    }
unfolding tcp_connect
tcp_connect-failed net host port timeout_ms addresses found h =
    let l = preferred addresses in
    let none_accepts =
      some_attempt_lem is_connected (accepts net timeout_ms) net timeout_ms
        (attempt-accepts net timeout_ms) l in
    rw (
      found,
      tcp_connect,
      order-preferred addresses,
      try_all-FailsWith net timeout_ms l (none_accepts ∙ h) false false [],
      some_attempt_lem was_refused (refuses net timeout_ms) net timeout_ms
          (attempt-refuses net timeout_ms) l,
      some_attempt_lem was_expired (keeps_silent net timeout_ms) net timeout_ms
          (attempt-keeps_silent net timeout_ms) l,
      opened-sockets net timeout_ms l,
    )

connected_step :
    (net : Network) (timeout_ms : ℕ) (b a : Address) (before after : List Address) (s : ℕ)
    (x : Attempt)
    → attempt net timeout_ms b ≡ x
    → is_connected x ≡ false
    → ((sr st : Bool) (closed : List ℕ)
        → try_all net timeout_ms sr st closed (before ++ a ∷ after)
          ≡ record { socket = some s; err = []; closed = closed ++ opened net timeout_ms before })
    → (sr st : Bool) (closed : List ℕ)
    → try_all net timeout_ms sr st closed (b ∷ (before ++ a ∷ after))
      ≡ record { socket = some s; err = []; closed = closed ++ opened net timeout_ms (b ∷ before) }
unfolding try_all opened
connected_step net timeout_ms b a before after s no_socket e h ih sr st closed =
    rw (e, try_all, opened, ih sr st closed)
connected_step net timeout_ms b a before after s (connected t) e h ih sr st closed =
    absurd (ground (arith, h))
connected_step net timeout_ms b a before after s (refused t) e h ih sr st closed = rw (
  e,
  try_all,
  opened,
  ih true st (closed ++ t ∷ []),
  append_assoc closed (t ∷ []) (opened net timeout_ms before),
)
connected_step net timeout_ms b a before after s (expired t) e h ih sr st closed = rw (
  e,
  try_all,
  opened,
  ih sr true (closed ++ t ∷ []),
  append_assoc closed (t ∷ []) (opened net timeout_ms before),
)
connected_step net timeout_ms b a before after s (other t) e h ih sr st closed = rw (
  e,
  try_all,
  opened,
  ih sr st (closed ++ t ∷ []),
  append_assoc closed (t ∷ []) (opened net timeout_ms before),
)

try_all-connected :
    (net : Network) (timeout_ms : ℕ) (before after : List Address) (a : Address) (s : ℕ)
    → some_attempt is_connected net timeout_ms before ≡ false
    → attempt net timeout_ms a ≡ connected s
    → (sr st : Bool) (closed : List ℕ)
    → try_all net timeout_ms sr st closed (before ++ a ∷ after)
      ≡ record { socket = some s; err = []; closed = closed ++ opened net timeout_ms before }
unfolding try_all opened
try_all-connected net timeout_ms [] after a s h e sr st closed = rw (e, try_all, append-nil closed)
try_all-connected net timeout_ms (b ∷ before) after a s h e sr st closed =
    let (first, more) : (is_connected (attempt net timeout_ms b) ≡ false)
        × (some_attempt is_connected net timeout_ms before ≡ false) =
      ground (arith, h) in
    connected_step net timeout_ms b a before after s (attempt net timeout_ms b) refl first
      (try_all-connected net timeout_ms before after a s more e) sr st closed

-- When the name resolves, the socket is that of the first address that accepts, IPv4 first; the sockets of those
-- before it are closed and no other.
pub tcp_connect-connected :
    (net : Network) (host : Bytes) (port timeout_ms : ℕ) (addresses before after : List Address)
    (a : Address) (s : ℕ)
    → net.getaddrinfo host port ≡ some addresses
    → preferred addresses ≡ before ++ a ∷ after
    → any (accepts net timeout_ms) before ≡ false
    → accepts net timeout_ms a ≡ true
    → net.socket a ≡ some s
    → tcp_connect net host port timeout_ms
      ≡ record { socket = some s; err = []; closed = sockets net before }
unfolding tcp_connect
tcp_connect-connected net host port timeout_ms addresses before after a s found ordered h e owns =
    let none_accepts =
      some_attempt_lem is_connected (accepts net timeout_ms) net timeout_ms
        (attempt-accepts net timeout_ms) before in
    rw (
      found,
      tcp_connect,
      order-preferred addresses,
      ordered,
      try_all-connected net timeout_ms before after a s (none_accepts ∙ h)
          (attempt-connected net timeout_ms a s owns e) false false [],
      opened-sockets net timeout_ms before,
    )
