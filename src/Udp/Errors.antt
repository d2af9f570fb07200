-- ===== src/Udp/Errors.antt =====
-- How a UDP probe ends.
use bye_bye_vpn.Common.{
  ℕ, false, [], ◌∷◌, ◌++◌, ◌⊎◌, inl, inr, ◌≡◌, refl, arith, is_empty, Bytes, text, to_string,
  Bool-cases, Option-cases, leb_ℤ, pos, ◌≤◌, length-take,
}
use bye_bye_vpn.Report.{UdpResult}
use bye_bye_vpn.Sockets.Connect.{Address}
use bye_bye_vpn.Udp.{
  UdpSystem, is_timeout_error, is_port_unreachable, normalize_error, recv_error, choose, udp_answer,
  exchange, udp_probe, udp_error,
}

-- Exactly one of an answer and an error; without an answer there are no bytes, with one at most 2048.
abbrev pub IsEnded : UdpResult → Type 0
IsEnded r =
    (r.responded ≡ is_empty r.err)
    × ((r.responded ≡ false → (r.bytes ≡ 0) × (r.reply_hex ≡ [])) × (r.bytes ≤ 2048))

error-IsEnded : (err : Bytes) (ms : ℕ) → is_empty err ≡ false → IsEnded (udp_error err ms)
error-IsEnded [] ms h = absurd (ground (arith, h))
error-IsEnded (c ∷ err) ms h = (refl, (λ r. (refl, refl), omega arith))

recv_error-filled : (werr : ℕ) → is_empty (recv_error werr) ≡ false
unfolding recv_error text
recv_error-filled werr = elim (Bool-cases (is_timeout_error werr)) [
  | inl a ↦ rw (a, recv_error)
  | inr a ↦ elim (Bool-cases (is_port_unreachable werr)) [
    | inl b ↦ rw (a, b, recv_error)
    | inr b ↦ rw (a, b, recv_error)
  ]
]

udp_answer-IsEnded : (r : ℕ ⊎ Bytes) (ms : ℕ) → IsEnded (udp_answer r ms)
unfolding udp_answer
udp_answer-IsEnded (inl err) ms =
    error-IsEnded (recv_error (normalize_error err)) ms (recv_error-filled (normalize_error err))
udp_answer-IsEnded (inr datagram) ms =
    (refl, (λ r. absurd (ground (arith, r)), omega (arith, length-take 2048 datagram)))

exchange-IsEnded :
    (sys : UdpSystem) (payload : Bytes) (chosen : Address) → IsEnded (exchange sys payload chosen)
unfolding exchange text
exchange-IsEnded sys payload chosen = elim (Bool-cases (sys.socket chosen)) [
  | inr a ↦ rw (a, exchange) (error-IsEnded (text "socket") 0 refl)
  | inl a ↦ elim (Option-cases (sys.connect chosen)) [
    | inr (err, b) ↦ rw (a, b, exchange) (error-IsEnded (text "connect " ++ to_string err) 0 refl)
    | inl b ↦ elim (Bool-cases (leb_ℤ (sys.send payload) (pos 0))) [
      | inl c ↦ rw (a, b, c, exchange) (error-IsEnded (text "send") 0 refl)
      | inr c ↦ rw (a, b, c, exchange) (udp_answer-IsEnded sys.recv sys.elapsed_ms)
    ]
  ]
]

-- Whatever the system does, a probe has either an answer, of at most 2048 bytes, or an error text.
pub udp_probe-IsEnded : (sys : UdpSystem) (payload : Bytes) → IsEnded (udp_probe sys payload)
unfolding udp_probe text
udp_probe-IsEnded sys payload = elim (Option-cases sys.getaddrinfo) [
  | inl a ↦ rw (a, udp_probe) (error-IsEnded (text "dns") 0 refl)
  | inr (addresses, a) ↦ elim (Option-cases (choose addresses)) [
    | inl b ↦ rw (a, b, udp_probe) (error-IsEnded (text "dns") 0 refl)
    | inr (chosen, b) ↦ rw (a, b, udp_probe) (exchange-IsEnded sys payload chosen)
  ]
]
