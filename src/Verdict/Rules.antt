-- ===== src/Verdict/Rules.antt =====
-- What the verdict promises: a table of rules with weights, independent of the order and the shape of
-- the loop that applies them.
use bye_bye_vpn.Brand.{asn_owns_brand}
use bye_bye_vpn.Common.{
  ℕ, ◌+◌, Bool, false, not, ◌&&◌, ◌||◌, List, [], ◌∷◌, Option, none, some, ◌==◌, leb, if◌then◌else◌,
  is_empty, text, bytes_eq,
}
use bye_bye_vpn.Report.{PortFp}
use bye_bye_vpn.Verdict.Blocks.{missing_from_ct, fresh_tls}
use bye_bye_vpn.Verdict.Cdn.{looks_like_cdn_lb}
use bye_bye_vpn.Verdict.Outcome.{UdpHits, udp_hits, asn_orgs_of, Evidence}

-- A rule fires or not, and has a weight.
abbrev pub Rule : Type 0
Rule = Bool × ℕ

abbrev pub penalty : List Rule → ℕ
penalty [] = 0
penalty ((fires, weight) ∷ rules) = (if fires then weight else 0) + penalty rules

-- A test on a result that may be missing.
abbrev pub on : {A : Type 0} → Option A → (A → Bool) → Bool
on none p = false
on (some a) p = p a

abbrev pub proxy_open : PortFp → Bool
proxy_open pf = bytes_eq pf.fp.service (text "HTTP-PROXY") || bytes_eq pf.fp.service (text "SOCKS5")

abbrev pub tls_works : PortFp → Bool
tls_works pf = on pf.tls (λ tls. tls.ok)

abbrev pub steers : Bool → PortFp → Bool
steers cdn pf = on pf.sni (λ sni. sni.reality_like && not cdn)

abbrev pub impersonates : Bool → List (List ℕ) → PortFp → Bool
impersonates cdn orgs pf = on pf.sni (λ sni.
    sni.reality_like
    && not cdn
    && (sni.cert_impersonation
        && not (is_empty sni.brand_claimed)
        && not (asn_owns_brand sni.brand_claimed orgs)))

abbrev pub canned : PortFp → Bool
canned pf = on pf.j3a (λ a. leb 2 a.canned_identical)

abbrev pub bad_version : PortFp → Bool
bad_version pf = on pf.j3a (λ a. leb 1 a.http_bad_version)

abbrev pub absent_fresh : PortFp → Bool
absent_fresh pf = missing_from_ct pf && fresh_tls pf

abbrev pub tls_rules : PortFp → List Rule
tls_rules pf =
    (on pf.tls (λ tls. tls.ok && not (bytes_eq tls.version (text "TLSv1.3"))), 5)
    ∷ (on pf.tls (λ tls. tls.ok && tls.self_signed), 8)
    ∷ []

abbrev pub sni_rules : Bool → List (List ℕ) → PortFp → List Rule
sni_rules cdn orgs pf =
    (on pf.sni (λ sni. sni.reality_like && not cdn && sni.passthrough_mode), 20)
    ∷ (on pf.sni (λ sni. sni.reality_like && not cdn && not sni.passthrough_mode), 16)
    ∷ (impersonates cdn orgs pf, 18)
    ∷ []

abbrev pub https_rules : Bool → PortFp → List Rule
https_rules cdn pf =
    (on pf.https (λ h. h.tls_ok && h.responded && h.version_anomaly), 14)
    ∷ (on pf.https (λ h. h.tls_ok && not h.responded), 8)
    ∷ (
      on pf.https (λ h. h.tls_ok && h.responded && not h.version_anomaly && is_empty h.server_hdr),
      4,
    )
    ∷ (on pf.https (λ h. h.tls_ok && h.has_proxy_leak && not cdn), 10)
    ∷ []

abbrev pub j3_rules : PortFp → List Rule
j3_rules pf =
    (canned pf, 12)
    ∷ (bad_version pf, 12)
    ∷ (on pf.j3a (λ a. leb 2 a.raw_non_http && a.http_real == 0), 6)
    ∷ []

-- All that one open port takes off the score.
unfoldable pub port_penalty : List (List ℕ) → PortFp → ℕ
port_penalty orgs pf =
    let cdn = looks_like_cdn_lb pf orgs in
    penalty ((proxy_open pf, 15) ∷ [])
    + penalty (tls_rules pf)
    + penalty (sni_rules cdn orgs pf)
    + penalty (https_rules cdn pf)
    + penalty ((absent_fresh pf, 10) ∷ [])
    + penalty (j3_rules pf)

unfoldable pub ports_penalty : List (List ℕ) → List PortFp → ℕ
ports_penalty orgs [] = 0
ports_penalty orgs (pf ∷ fps) = port_penalty orgs pf + ports_penalty orgs fps

abbrev pub udp_rules : UdpHits → List Rule
udp_rules u = (u.wg_default, 22) ∷ (u.wg_alt, 4) ∷ (u.awg_default, 18) ∷ []

unfoldable pub total_penalty : Evidence → ℕ
total_penalty r =
    penalty (udp_rules (udp_hits r.udp_probes)) + ports_penalty (asn_orgs_of r.geos) r.fps
