-- ===== src/Http/Trust.antt =====
-- The HTTP client asks nobody whom it has not verified, and its replies are bounded.
use bye_bye_vpn.Common.{
  ℕ, ◌+◌, ◌≤◌, true, List, [], ◌∷◌, ◌++◌, none, ◌≡◌, arith, inl, inr, if◌then◌else◌, ltb, length,
  All, Bytes, Bool-cases, length-append,
}
use bye_bye_vpn.Http.Url.{is_ip_literal}
use bye_bye_vpn.Http.Client.{
  World, Read, got, again, closed, broken, max_response_size, configure_tls_ctx, read_response,
}

-- The trust store was loaded, the handshake was verified, and it was verified for this host.
abbrev pub Trusted : World → Bytes → Type 0
Trusted w host =
    (configure_tls_ctx w ≡ true)
    × (w.ssl_connect_error ≡ none)
    × (w.verify_result ≡ 0)
    × ((if is_ip_literal host then w.set_ip host else w.set_host host) ≡ true)

abbrev AtMost : ℕ → Read → Type 0
AtMost n (got bytes) = length bytes ≤ n
AtMost n _ = Unit

read_response_bounds :
    (n : ℕ) (received : Bytes) (reads : List Read) {all_data : Bytes}
    → All (AtMost n) reads
    → length received ≤ max_response_size
    → read_response received reads ≡ inr all_data
    → length all_data ≤ max_response_size + n
unfolding read_response
read_response_bounds n received [] h k e = ground (arith, k, e)
read_response_bounds n received (closed ∷ reads) h k e = ground (arith, k, e)
read_response_bounds n received (broken detail ∷ reads) h k e = absurd (ground (arith, e))
read_response_bounds n received (again ∷ reads) {all_data} (_, h) k e =
    read_response_bounds n received reads {all_data = all_data} h k e
read_response_bounds n received (got bytes ∷ reads) {all_data} (size, h) k e =
    let grown = length-append received bytes in
    elim (Bool-cases (ltb max_response_size (length (received ++ bytes)))) [
      | inl b ↦
          let same : received ++ bytes ≡ all_data = ground (arith, rw (b, read_response) at e) in
          rw (← same) (omega (arith, grown, size, k))
      | inr b ↦
          read_response_bounds n (received ++ bytes) reads {all_data = all_data} h
            (ground (arith, b)) (rw (b, read_response) at e)
    ]
