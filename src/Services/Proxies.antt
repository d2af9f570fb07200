-- ===== src/Services/Proxies.antt =====
-- When a service counts as a proxy.
use bye_bye_vpn.Common.{
  ℕ, ◌+◌, Bool, true, false, not, ◌&&◌, ◌||◌, [], ◌∷◌, ◌++◌, some, ◌==◌, ltb, ◌≡◌, refl, arith, inl,
  inr, is_empty, take, Bytes, text, starts_with, Bool-cases, length, lacks, find_byte-here,
  drop-past, length-append, take-append,
}
use bye_bye_vpn.Text.{trim}
use bye_bye_vpn.Report.{FpResult}
use bye_bye_vpn.Sockets.Peer.{Peer, sends}
use bye_bye_vpn.Http.Reply.{three_digits}
use bye_bye_vpn.Services.{
  connect_request, asked, socks_answer, fp_socks5, connect_status, connect_answer, fp_http_connect,
  up_to,
}

-- The connection was made, the request went out whole, and something came back.
abbrev pub answers : Peer → Bytes → ℕ → Bool
answers peer req max =
    peer.accepts && (sends peer req && not (is_empty (take max (peer.tcp_recv_to max))))

asked-silent :
    (peer : Peer) (service req : Bytes) (max : ℕ) (answer : Bytes → FpResult)
    → ((reply : Bytes) → (answer reply).silent ≡ false)
    → (asked peer service req max answer).silent ≡ not (answers peer req max)
unfolding asked
asked-silent peer service req max answer speaks = elim (Bool-cases peer.accepts) [
  | inr a ↦ rw (a, asked)
  | inl a ↦ elim (Bool-cases (sends peer req)) [
    | inr b ↦ rw (a, b, asked)
    | inl b ↦ elim (Bool-cases (is_empty (take max (peer.tcp_recv_to max)))) [
      | inl c ↦ rw (a, b, c, asked)
      | inr c ↦ rw (a, b, c, asked, speaks (take max (peer.tcp_recv_to max)))
    ]
  ]
]

socks_answer-silent : (reply : Bytes) → (socks_answer reply).silent ≡ false
unfolding socks_answer
socks_answer-silent [] = refl
socks_answer-silent (v ∷ []) = ground arith
socks_answer-silent (v ∷ m ∷ rest) = ground arith

-- Whether the first byte is a version of SOCKS.
abbrev pub is_socks : Bytes → Bool
is_socks [] = false
is_socks (v ∷ rest) = v == 0x05 || v == 0x04

socks_answer-vpn_like : (reply : Bytes) → (socks_answer reply).is_vpn_like ≡ is_socks reply
unfolding socks_answer
socks_answer-vpn_like [] = refl
socks_answer-vpn_like (v ∷ []) = ground arith
socks_answer-vpn_like (v ∷ m ∷ rest) = ground arith

asked-vpn_like :
    (peer : Peer) (service req : Bytes) (max : ℕ) (answer : Bytes → FpResult)
    → (asked peer service req max answer).is_vpn_like
      ≡ answers peer req max && (answer (take max (peer.tcp_recv_to max))).is_vpn_like
unfolding asked
asked-vpn_like peer service req max answer = elim (Bool-cases peer.accepts) [
  | inr a ↦ rw (a, asked)
  | inl a ↦ elim (Bool-cases (sends peer req)) [
    | inr b ↦ rw (a, b, asked)
    | inl b ↦ elim (Bool-cases (is_empty (take max (peer.tcp_recv_to max)))) [
      | inl c ↦ rw (a, b, c, asked)
      | inr c ↦ rw (a, b, c, asked)
    ]
  ]
]

-- The greeting of SOCKS5 with its two methods.
abbrev pub greet : Bytes
greet = 0x05 ∷ 0x02 ∷ 0x00 ∷ 0x02 ∷ []

-- The SOCKS probe is silent exactly when nothing came back, and finds a proxy exactly when the first byte
-- that came back is 5 or 4.
pub fp_socks5_lem :
    (peer : Peer)
    → ((fp_socks5 peer).silent ≡ not (answers peer greet 8))
      × ((fp_socks5 peer).is_vpn_like
          ≡ answers peer greet 8 && is_socks (take 8 (peer.tcp_recv_to 8)))
unfolding fp_socks5
fp_socks5_lem peer = (
  asked-silent peer (text "SOCKS?") greet 8 socks_answer socks_answer-silent,
  rw (← socks_answer-vpn_like (take 8 (peer.tcp_recv_to 8)))
      (asked-vpn_like peer (text "SOCKS?") greet 8 socks_answer),
)

three_digits-lacks : (code : Bytes) (n : ℕ) → three_digits code ≡ some n → lacks b' ' code ≡ true
unfolding three_digits
three_digits-lacks (a ∷ b ∷ c ∷ []) n h = ground (arith, h)
three_digits-lacks _ n h = absurd (ground (arith, h))

connect_status-line :
    (version code more : Bytes) (n : ℕ)
    → lacks b' ' version ≡ true
    → three_digits code ≡ some n
    → connect_status (version ++ b' ' ∷ (code ++ b' ' ∷ more)) ≡ n
unfolding connect_status up_to
connect_status-line version code more n plain digits =
    let after = code ++ b' ' ∷ more in
    let long : ltb (length version + 1) (length (version ++ b' ' ∷ after)) ≡ true =
      ground (arith, length-append version (b' ' ∷ after), length-append code (b' ' ∷ more)) in
    let past = drop-past version b' ' after in
    let first_word : up_to b' ' after ≡ code = rw (
      up_to,
      find_byte-here b' ' code more (three_digits-lacks code n digits),
      take-append code (b' ' ∷ more),
    ) in
    rw (connect_status, find_byte-here b' ' version after plain, long, past, first_word, digits)

asked-answer :
    (peer : Peer) (service req : Bytes) (max : ℕ) (answer : Bytes → FpResult)
    → peer.accepts ≡ true
    → sends peer req ≡ true
    → is_empty (take max (peer.tcp_recv_to max)) ≡ false
    → asked peer service req max answer ≡ answer (take max (peer.tcp_recv_to max))
unfolding asked
asked-answer peer service req max answer a b c = rw (a, b, c, asked)

connect_answer-status :
    (resp first : Bytes) (n : ℕ)
    → trim (up_to b'\n' resp) ≡ first
    → starts_with first (text "HTTP/") ≡ true
    → connect_status first ≡ n
    → ((connect_answer resp).is_vpn_like ≡ n == 200 || n == 201 || n == 202)
      × ((connect_answer resp).details ≡ first)
unfolding connect_answer
connect_answer-status resp first n line http status =
    elim (Bool-cases (n == 200 || n == 201 || n == 202)) [
      | inl e ↦ rw (connect_answer, line, http, status, e) (refl, refl)
      | inr e ↦ rw (connect_answer, line, http, status, e) (refl, refl)
    ]

-- When the proxy answers and the first line of its answer has a status of three digits, the probe finds a
-- proxy exactly for 200, 201 and 202.
pub fp_http_connect-status :
    (peer : Peer) (version code more : Bytes) (n : ℕ)
    → let first = version ++ b' ' ∷ (code ++ b' ' ∷ more) in
      let reply = take 511 (peer.tcp_recv_to 511) in
      (peer.accepts ≡ true)
      → sends peer connect_request ≡ true
      → is_empty reply ≡ false
      → trim (up_to b'\n' reply) ≡ first
      → starts_with first (text "HTTP/") ≡ true
      → lacks b' ' version ≡ true
      → three_digits code ≡ some n
      → ((fp_http_connect peer).is_vpn_like ≡ n == 200 || n == 201 || n == 202)
        × ((fp_http_connect peer).details ≡ first)
unfolding fp_http_connect
fp_http_connect-status peer version code more n accepts sent filled line http plain digits =
    let first = version ++ b' ' ∷ (code ++ b' ' ∷ more) in
    let reply = take 511 (peer.tcp_recv_to 511) in
    let status = connect_status-line version code more n plain digits in
    let answer = connect_answer-status reply first n line http status in
    let made =
      asked-answer peer (text "HTTP-PROXY?") connect_request 511 connect_answer accepts sent
        filled in
    rw (fp_http_connect, made) answer
