-- ===== src/Udp.antt =====
-- src/network/udp_scanner.cpp and src/network/vpn_probes.cpp: one datagram and its answer, and the handshakes
-- that are sent. The system calls, the clock and RAND_bytes are given.
pub mod Errors
pub mod Packets
use bye_bye_vpn.Common.{
  ℕ, ◌+◌, min, Bool, true, false, ◌||◌, List, [], ◌∷◌, ◌++◌, Option, none, some, ◌⊎◌, inl, inr,
  ◌==◌, ltb, leb_ℤ, ℤ, pos, if◌then◌else◌, length, is_empty, take, drop, replicate, find_if, Bytes,
  text, to_string,
}
use bye_bye_vpn.Text.{hex_s}
use bye_bye_vpn.Report.{UdpResult}
use bye_bye_vpn.Sockets.Connect.{Address, is_inet, is_inet6}

-- What the calls of one probe return; an error is its errno.
pub record UdpSystem : Type 0 where
  pub getaddrinfo : Option (List Address)
  pub socket : Address → Bool
  pub connect : Address → Option ℕ
  pub send : Bytes → ℤ
  pub recv : ℕ ⊎ Bytes
  pub elapsed_ms : ℕ

-- errno of Linux; WSAETIMEDOUT and WSAECONNRESET are names for two of them.
abbrev eintr : ℕ
eintr = 4

abbrev eagain : ℕ
eagain = 11

abbrev einval : ℕ
einval = 22

abbrev econnreset : ℕ
econnreset = 104

abbrev etimedout : ℕ
etimedout = 110

abbrev econnrefused : ℕ
econnrefused = 111

unfoldable pub is_timeout_error : ℕ → Bool
is_timeout_error err =
    err == eagain || err == eintr || err == einval || err == etimedout || err == 0

unfoldable pub is_port_unreachable : ℕ → Bool
is_port_unreachable err = err == econnrefused || err == econnreset

-- `werr`
unfoldable pub normalize_error : ℕ → ℕ
normalize_error err =
    if err == eagain || err == eintr || err == einval
    then etimedout
    else if err == econnrefused
    then econnreset
    else err

unfoldable pub recv_error : ℕ → Bytes
unfolding is_timeout_error is_port_unreachable
recv_error werr =
    if is_timeout_error werr
    then text "no-reply / filtered"
    else if is_port_unreachable werr
    then text "ICMP port-unreachable (port closed)"
    else text "wsa " ++ to_string werr

-- `chosen`: the first IPv4 address, or else the first of IPv6.
unfoldable pub choose : List Address → Option Address
choose addresses = elim (find_if (λ a. is_inet a.family) addresses) [
  | some a ↦ some a
  | none ↦ find_if (λ a. is_inet6 a.family) addresses
]

abbrev udp_error : Bytes → ℕ → UdpResult
udp_error err ms = record { responded = false; bytes = 0; reply_hex = []; ms = ms; err = err }

-- What came back, at most the 2048 bytes of the buffer.
unfoldable pub udp_answer : ℕ ⊎ Bytes → ℕ → UdpResult
unfolding normalize_error recv_error
udp_answer (inl err) ms = udp_error (recv_error (normalize_error err)) ms
udp_answer (inr datagram) ms =
    let got = take 2048 datagram in
    record {
      responded = true;
      bytes = length got;
      reply_hex = if ltb 0 (length got) then hex_s (take (min 32 (length got)) got) true else [];
      ms = ms;
      err = [];
    }

-- With the chosen address.
unfoldable pub exchange : UdpSystem → Bytes → Address → UdpResult
unfolding udp_answer
exchange sys payload chosen =
    if sys.socket chosen
    then elim (sys.connect chosen) [
      | some err ↦ udp_error (text "connect " ++ to_string err) 0
      | none ↦
          if leb_ℤ (sys.send payload) (pos 0)
          then udp_error (text "send") 0
          else udp_answer sys.recv sys.elapsed_ms
    ]
    else udp_error (text "socket") 0

unfoldable pub udp_probe : UdpSystem → Bytes → UdpResult
unfolding choose exchange
udp_probe sys payload = elim sys.getaddrinfo [
  | none ↦ udp_error (text "dns") 0
  | some addresses ↦ elim (choose addresses) [
    | none ↦ udp_error (text "dns") 0
    | some chosen ↦ exchange sys payload chosen
  ]
]

-- kWireGuardPacketSize, kWireGuardRandomOffset, kWireGuardRandomSize, kMaxJunkPrefixLen
abbrev pub packet_size : ℕ
packet_size = 148

abbrev pub random_offset : ℕ
random_offset = 4

abbrev pub random_size : ℕ
random_size = 140

abbrev pub max_junk_prefix_len : ℕ
max_junk_prefix_len = 64

-- Bytes written into a buffer at an offset.
unfoldable pub write_at : ℕ → Bytes → Bytes → Bytes
write_at offset bytes pkt = take offset pkt ++ (bytes ++ drop (offset + length bytes) pkt)

-- RAND_bytes: for a call and a size, the bytes; `none` is a failure, and so is a size of 0.
abbrev pub Random : Type 0
Random = ℕ → ℕ → Option Bytes

unfoldable pub fill_random : Random → ℕ → ℕ → Option Bytes
fill_random rand call size = if size == 0 then none else rand call size

unfoldable pub wireguard_packet : Random → Option Bytes
unfolding write_at fill_random
wireguard_packet rand = elim (fill_random rand 0 random_size) [
  | none ↦ none
  | some bytes ↦ some (write_at random_offset bytes (write_at 0 (1 ∷ []) (replicate packet_size 0)))
]

-- The junk prefix; none of it when its length is 0.
unfoldable pub junk_prefix : Random → ℕ → Option Bytes
unfolding fill_random
junk_prefix rand junk_len = if ltb 0 junk_len then fill_random rand 0 junk_len else some []

unfoldable pub amneziawg_packet : Random → ℕ → Option Bytes
unfolding junk_prefix write_at fill_random
amneziawg_packet rand junk_prefix_len =
    let junk_len = min junk_prefix_len max_junk_prefix_len in
    elim (junk_prefix rand junk_len) [
      | none ↦ none
      | some junk ↦ elim (fill_random rand 1 random_size) [
        | none ↦ none
        | some bytes ↦
            let typed =
              write_at junk_len (1 ∷ []) (write_at 0 junk (replicate (junk_len + packet_size) 0)) in
            some (write_at (junk_len + random_offset) bytes typed)
      ]
    ]

unfoldable pub wireguard_probe : Random → UdpSystem → UdpResult
unfolding wireguard_packet udp_probe
wireguard_probe rand sys = elim (wireguard_packet rand) [
  | none ↦ udp_error (text "rng") 0
  | some pkt ↦ udp_probe sys pkt
]

unfoldable pub amneziawg_probe : Random → UdpSystem → ℕ → UdpResult
unfolding amneziawg_packet udp_probe
amneziawg_probe rand sys junk_prefix_len = elim (amneziawg_packet rand junk_prefix_len) [
  | none ↦ udp_error (text "rng") 0
  | some pkt ↦ udp_probe sys pkt
]
