-- ===== src/Verdict/Blocks.antt =====
-- src/cli/orchestrator.cpp: the loop of phase 7 of `run_full_target` over the open ports. A local
-- variable that the loop changes is a field of `Tally`; each block of its body is a function.
use bye_bye_vpn.Common.{
  ℕ, Bool, true, false, not, ◌&&◌, List, [], ◌∷◌, ◌++◌, none, some, ◌==◌, leb, if◌then◌else◌,
  is_empty, pos, ltb_ℤ, leb_ℤ, Bytes, text, bytes_eq, to_string,
}
use bye_bye_vpn.Brand.{asn_owns_brand}
use bye_bye_vpn.Report.{TlsProbe, SniConsistency, J3Analysis, HttpsProbe, PortFp}
use bye_bye_vpn.Verdict.Book.{ScoreBook, strong_signal, soft_signal, note}
use bye_bye_vpn.Verdict.Cdn.{looks_like_cdn_lb}

pub record Tally : Type 0 where
  pub book : ScoreBook
  pub any_tls : Bool
  pub any_reality : Bool
  pub any_impersonation : Bool
  pub any_proxy_open : Bool
  pub any_j3_canned : Bool
  pub any_j3_badver : Bool
  pub any_ct_absent_fresh : Bool
  pub any_cdn_lb_detected : Bool

abbrev pub strong : Bytes → ℕ → Tally → Tally
strong msg penalty t = record t { book = strong_signal msg penalty t.book }

abbrev pub soft : Bytes → ℕ → Tally → Tally
soft msg penalty t = record t { book = soft_signal msg penalty t.book }

abbrev pub remark : Bytes → Bytes → Tally → Tally
remark tag msg t = record t { book = note tag msg t.book }

-- A message that ends in the port.
abbrev pub on_port : Bytes → PortFp → Bytes
on_port msg pf = msg ++ to_string pf.port

unfoldable pub tally_cdn : Bool → PortFp → Tally → Tally
tally_cdn cdn_lb_port pf t =
    if cdn_lb_port
    then remark (text "cdn-lb")
        (on_port (text "CDN/load-balancer traits on :") pf
          ++ text ", suppressing SNI-impersonation penalties")
        (record t { any_cdn_lb_detected = true })
    else t

unfoldable pub tally_proxy : PortFp → Tally → Tally
tally_proxy pf t =
    if bytes_eq pf.fp.service (text "HTTP-PROXY")
    then strong (on_port (text "open HTTP CONNECT proxy exposed on :") pf) 15
        (record t { any_proxy_open = true })
    else if bytes_eq pf.fp.service (text "SOCKS5")
    then strong (on_port (text "open SOCKS5 proxy exposed on :") pf) 15
        (record t { any_proxy_open = true })
    else t

-- `tls->age_days >= 0 && tls->age_days < n`
abbrev pub younger_than : ℕ → TlsProbe → Bool
younger_than n tls = leb_ℤ (pos 0) tls.age_days && ltb_ℤ tls.age_days (pos n)

unfoldable pub tally_version : PortFp → TlsProbe → Tally → Tally
tally_version pf tls t =
    if not (bytes_eq tls.version (text "TLSv1.3"))
    then soft (on_port (text "TLS < 1.3 on :") pf) 5 t
    else t

unfoldable pub tally_self_signed : PortFp → TlsProbe → Tally → Tally
tally_self_signed pf tls t =
    if tls.self_signed then strong (on_port (text "self-signed certificate on :") pf) 8 t else t

unfoldable pub tally_fresh : PortFp → TlsProbe → Tally → Tally
tally_fresh pf tls t =
    if younger_than 14 tls
    then remark (text "cert-fresh")
        (on_port (text "fresh certificate on :") pf
          ++ text " (rotation alone is not a reliable signal)")
        t
    else t

-- `pf.tls && pf.tls->ok`
unfoldable pub tally_handshake : PortFp → TlsProbe → Tally → Tally
tally_handshake pf tls t =
    tally_fresh pf tls
      (tally_self_signed pf tls (tally_version pf tls (record t { any_tls = true })))

unfoldable pub tally_tls : PortFp → Tally → Tally
tally_tls pf t = elim pf.tls [
  | none ↦ t
  | some tls ↦ if tls.ok then tally_handshake pf tls t else t
]

-- A Reality-like answer on a port that is no CDN edge.
tally_reality : List Bytes → PortFp → SniConsistency → Tally → Tally
tally_reality asn_orgs pf sni t =
    let t1 =
      strong (on_port (text "Reality/XTLS SNI steering on :") pf)
        (if sni.passthrough_mode then 20 else 16) (record t { any_reality = true }) in
    if sni.cert_impersonation && not (is_empty sni.brand_claimed)
    then (if not (asn_owns_brand sni.brand_claimed asn_orgs)
        then strong
            (text "cert claims brand '" ++ (sni.brand_claimed ++ text "' on non-owning ASN")) 18
            (record t1 { any_impersonation = true })
        else t1)
    else t1

unfoldable pub tally_sni : Bool → List Bytes → PortFp → Tally → Tally
unfolding tally_reality
tally_sni cdn_lb_port asn_orgs pf t = elim pf.sni [
  | none ↦ t
  | some sni ↦
      if sni.reality_like
      then (if cdn_lb_port
          then remark (text "sni-cdn")
              (on_port (text "SNI mismatch on :") pf
                ++ text " looks CDN/LB-driven, not VPN-specific")
              t
          else tally_reality asn_orgs pf sni t)
      else t
]

unfoldable pub tally_answer : PortFp → HttpsProbe → Tally → Tally
tally_answer pf h t =
    if h.responded && h.version_anomaly
    then strong (on_port (text "invalid HTTP version over TLS on :") pf) 14 t
    else if not h.responded
    then soft (on_port (text "TLS handshake succeeded but no HTTP response on :") pf) 8 t
    else if is_empty h.server_hdr
    then soft (on_port (text "HTTP response without Server header on :") pf) 4 t
    else t

unfoldable pub tally_leak : Bool → PortFp → HttpsProbe → Tally → Tally
tally_leak cdn_lb_port pf h t =
    if h.has_proxy_leak
    then (if cdn_lb_port
        then remark (text "proxy-hdr")
            (on_port (text "forwarding headers on :") pf ++ text " are expected for CDN/LB edges") t
        else strong (on_port (text "proxy-chain headers leaked by HTTPS origin on :") pf) 10 t)
    else t

unfoldable pub tally_https : Bool → PortFp → Tally → Tally
tally_https cdn_lb_port pf t = elim pf.https [
  | none ↦ t
  | some h ↦ if h.tls_ok then tally_leak cdn_lb_port pf h (tally_answer pf h t) else t
]

-- `pf.tls && pf.tls->ok` and the certificate is younger than 30 days
abbrev pub fresh_tls : PortFp → Bool
fresh_tls pf = elim pf.tls [ none ↦ false | some tls ↦ tls.ok && younger_than 30 tls ]

-- `pf.ct && pf.ct->queried && !pf.ct->found && pf.ct->err.empty()`
abbrev pub missing_from_ct : PortFp → Bool
missing_from_ct pf = elim pf.ct [
  | none ↦ false
  | some ct ↦ ct.queried && not ct.found && is_empty ct.err
]

unfoldable pub tally_ct : PortFp → Tally → Tally
tally_ct pf t =
    if missing_from_ct pf
    then (if fresh_tls pf
        then strong (on_port (text "fresh cert missing from CT logs on :") pf) 10
            (record t { any_ct_absent_fresh = true })
        else remark (text "ct-miss") (on_port (text "certificate not found in CT logs on :") pf) t)
    else t

unfoldable pub tally_canned : PortFp → J3Analysis → Tally → Tally
tally_canned pf a t =
    if leb 2 a.canned_identical
    then strong (on_port (text "canned fallback page under active probing on :") pf) 12
        (record t { any_j3_canned = true })
    else t

unfoldable pub tally_badver : PortFp → J3Analysis → Tally → Tally
tally_badver pf a t =
    if leb 1 a.http_bad_version
    then strong (on_port (text "malformed HTTP version under active probing on :") pf) 12
        (record t { any_j3_badver = true })
    else t

unfoldable pub tally_raw : PortFp → J3Analysis → Tally → Tally
tally_raw pf a t =
    if leb 2 a.raw_non_http && a.http_real == 0
    then soft (on_port (text "raw non-HTTP replies under active probing on :") pf) 6 t
    else t

unfoldable pub tally_j3 : PortFp → Tally → Tally
tally_j3 pf t = elim pf.j3a [
  | none ↦ t
  | some a ↦ tally_raw pf a (tally_badver pf a (tally_canned pf a t))
]

-- The body of the loop over `R.fps`.
unfoldable pub tally_port : List Bytes → PortFp → Tally → Tally
tally_port asn_orgs pf t =
    let cdn_lb_port = looks_like_cdn_lb pf asn_orgs in
    tally_j3 pf (
      tally_ct pf (
        tally_https cdn_lb_port pf (
          tally_sni cdn_lb_port asn_orgs pf
            (tally_tls pf (tally_proxy pf (tally_cdn cdn_lb_port pf t))))))

unfoldable pub tally_ports : List Bytes → List PortFp → Tally → Tally
tally_ports asn_orgs [] t = t
tally_ports asn_orgs (pf ∷ fps) t = tally_ports asn_orgs fps (tally_port asn_orgs pf t)
