-- ===== src/Verdict/Tier.antt =====
-- The emulated classifier and the stack name, in terms of the evidence.
use bye_bye_vpn.Common.{Bool, true, false, ◌||◌, ◌≡◌, ◌↔◌, ◌⊎◌, arith, any, if◌then◌else◌}
use bye_bye_vpn.Verdict.Blocks.{Tally}
use bye_bye_vpn.Verdict.Cdn.{is_known_cdn_asn}
use bye_bye_vpn.Verdict.Flags.{impersonation-reality, known_cdn_suppresses}
use bye_bye_vpn.Verdict.Outcome.{
  UdpHits, udp_hits, asn_orgs_of, Evidence, tally, pass_allow, immediate_block, block_accumulative,
  monitor_throttle, classify,
}

abbrev pub tier_a : UdpHits → Tally → Bool
tier_a u t = u.wg_default || u.awg_default || t.any_proxy_open

abbrev pub probe_anomaly : Tally → Bool
probe_anomaly t = t.any_j3_canned || t.any_j3_badver

-- The classifier blocks at once exactly on a tier-A signature, and passes exactly if no rule of
-- either tier hits.
pub classify_lem :
    (u : UdpHits) (t : Tally)
    → ((classify u t ≡ immediate_block) ↔ (tier_a u t ≡ true))
      × ((classify u t ≡ pass_allow)
          ↔ ((tier_a u t || t.any_reality || t.any_impersonation || probe_anomaly t) ≡ false))
unfolding classify
classify_lem u t = ((λ h. ground arith, λ h. ground arith), (λ h. ground arith, λ h. ground arith))

-- A target that impersonates a brand is always blocked: it never gets away with monitoring.
pub impersonation_blocked :
    (r : Evidence)
    → (tally r).any_impersonation ≡ true
    → (classify (udp_hits r.udp_probes) (tally r) ≡ immediate_block)
      ⊎ (classify (udp_hits r.udp_probes) (tally r) ≡ block_accumulative)
unfolding classify
impersonation_blocked r h = ground (arith, impersonation-reality r h)

-- On a known CDN only a tier-A signature or an active-probe anomaly changes the classification, and the
-- last of these alone means monitoring.
pub known_cdn-classify :
    (r : Evidence)
    → any is_known_cdn_asn (asn_orgs_of r.geos) ≡ true
    → classify (udp_hits r.udp_probes) (tally r) ≡ (
        if tier_a (udp_hits r.udp_probes) (tally r)
        then immediate_block
        else if probe_anomaly (tally r)
        then monitor_throttle
        else pass_allow)
unfolding classify
known_cdn-classify r h = ground (arith, known_cdn_suppresses r h)
