-- ===== src/Verdict/Outcome.antt =====
-- src/cli/orchestrator.cpp: what phase 7 of `run_full_target` concludes from the evidence: the score,
-- the label, the name of the stack, and the tier of the emulated classifier.
use bye_bye_vpn.Common.{
  ℕ, ◌+◌, Bool, true, false, not, ◌&&◌, ◌||◌, List, [], ◌∷◌, ◌==◌, ltb, leb, if◌then◌else◌, any,
  is_empty, ℤ, pos, ltb_ℤ, leb_ℤ, Bytes, text,
}
use bye_bye_vpn.Report.{GeoInfo, UdpResult, PortFp, TcpOpen}
use bye_bye_vpn.Verdict.Blocks.{Tally, tally_ports}
use bye_bye_vpn.Verdict.Book.{ScoreBook, new_book, strong_signal, soft_signal, note, clamp}

-- Did a UDP probe of this port get an answer?
unfoldable pub responded_on : List (ℕ × UdpResult) → ℕ → Bool
responded_on probes port = any (λ (x : ℕ × UdpResult). x.0 == port && x.1.responded) probes

-- The three answers that the verdict reads.
pub record UdpHits : Type 0 where
  pub wg_default : Bool
  pub wg_alt : Bool
  pub awg_default : Bool

unfoldable pub udp_hits : List (ℕ × UdpResult) → UdpHits
udp_hits probes = record {
  wg_default = responded_on probes 51820;
  wg_alt = responded_on probes 41641;
  awg_default = responded_on probes 55555;
}

unfoldable pub book_udp : UdpHits → ScoreBook → ScoreBook
book_udp u b =
    let b1 =
      if u.wg_default
      then strong_signal (text "WireGuard handshake accepted on UDP/51820 (default signature)") 22 b
      else b in
    let b2 =
      if u.wg_alt
      then soft_signal (text "WireGuard-like handshake accepted on UDP/41641") 4 b1
      else b1 in
    if u.awg_default
    then strong_signal (text "AmneziaWG handshake accepted on UDP/55555 (obfuscated WG profile)") 18
        b2
    else b2

unfoldable pub book_hosting : List GeoInfo → ScoreBook → ScoreBook
book_hosting geos b =
    if any (λ (g : GeoInfo). g.is_hosting) geos
    then note (text "asn-hosting")
        (text "hosting/datacenter ASN is normal for public infrastructure") b
    else b

unfoldable pub asn_orgs_of : List GeoInfo → List Bytes
asn_orgs_of [] = []
asn_orgs_of (g ∷ geos) =
    if not (is_empty g.asn_org) then g.asn_org ∷ asn_orgs_of geos else asn_orgs_of geos

abbrev pub new_tally : ScoreBook → Tally
new_tally b = record {
  book = b;
  any_tls = false;
  any_reality = false;
  any_impersonation = false;
  any_proxy_open = false;
  any_j3_canned = false;
  any_j3_badver = false;
  any_ct_absent_fresh = false;
  any_cdn_lb_detected = false;
}

-- What phases 1 to 6 leave in the report.
pub record Evidence : Type 0 where
  pub geos : List GeoInfo
  pub open_tcp : List TcpOpen
  pub udp_probes : List (ℕ × UdpResult)
  pub fps : List PortFp

-- The tally when the loop is over.
unfoldable pub tally : Evidence → Tally
tally r =
    tally_ports (asn_orgs_of r.geos) r.fps
      (new_tally (book_hosting r.geos (book_udp (udp_hits r.udp_probes) new_book)))

unfoldable pub score_of : Evidence → ℤ
score_of r = (clamp (tally r).book).score

unfoldable pub label_of : ℤ → Bytes
label_of score =
    if leb_ℤ (pos 85) score
    then text "CLEAN"
    else if leb_ℤ (pos 70) score
    then text "LOW-SIGNAL"
    else if leb_ℤ (pos 50) score
    then text "SUSPICIOUS"
    else text "HIGH-CONFIDENCE"

-- FullReport::vpn_detected
unfoldable pub vpn_detected : ℤ → Bool
vpn_detected score = ltb_ℤ score (pos 50)

unfoldable pub stack_name : UdpHits → Tally → List TcpOpen → Bytes
stack_name u t open_tcp =
    if t.any_reality && u.awg_default
    then text "VLESS / XTLS-Reality + AmneziaWG"
    else if t.any_reality
    then text "VLESS / XTLS-Reality"
    else if u.awg_default
    then text "Amnezia WireGuard"
    else if u.wg_default || u.wg_alt
    then text "WireGuard"
    else if t.any_tls && any (λ (o : TcpOpen). o.port == 443) open_tcp
    then text "generic TLS origin"
    else text "no signature-less VPN indicator"

-- The rules of the classifier: does it hit, and is it of tier A?
unfoldable pub rules : UdpHits → Tally → List (Bool × Bool)
rules u t =
    (u.wg_default, true)
    ∷ (u.awg_default, true)
    ∷ (t.any_proxy_open, true)
    ∷ (t.any_reality, false)
    ∷ (t.any_impersonation, false)
    ∷ ((t.any_j3_canned || t.any_j3_badver), false)
    ∷ []

-- The hits of one tier.
unfoldable pub tier_hits : Bool → List (Bool × Bool) → ℕ
tier_hits a [] = 0
tier_hits a ((hit, tier_a) ∷ rs) =
    (if hit && (if a then tier_a else not tier_a) then 1 else 0) + tier_hits a rs

pub data TierName : Type 0 where
  pass_allow immediate_block block_accumulative monitor_throttle : TierName

unfoldable pub tier_name : ℕ → ℕ → TierName
tier_name a_hits b_hits =
    if ltb 0 a_hits
    then immediate_block
    else if leb 2 b_hits
    then block_accumulative
    else if b_hits == 1
    then monitor_throttle
    else pass_allow

unfoldable pub classify : UdpHits → Tally → TierName
unfolding rules tier_hits tier_name
classify u t = tier_name (tier_hits true (rules u t)) (tier_hits false (rules u t))
