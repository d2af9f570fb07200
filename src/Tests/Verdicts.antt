-- ===== src/Tests/Verdicts.antt =====
-- A host with a Reality-like port and one behind a known CDN (src/cli/orchestrator.cpp).
use bye_bye_vpn.Common.{
  ◌-◌, true, false, ◌||◌, [], ◌∷◌, none, some, ◌≡◌, refl, ◌↔◌, any, pos, Bytes, text, bytes_eq,
  find, to_lower, to_string, starts_with,
}
use bye_bye_vpn.Report.{GeoInfo, SniConsistency, PortFp}
use bye_bye_vpn.Brand.Table.{brand_table}
use bye_bye_vpn.Brand.{
  asn_owns_brand, is_brand, exact_match, suffix_match, equal_lower, iequals, iends_with_dot,
  is_dot_at, find_markers, has_marker, org_matches, strip_wildcard,
}
use bye_bye_vpn.Text.{contains, tolower_s, skip_space, split, split_onto, trim}
use bye_bye_vpn.Verdict.Blocks.{
  tally_ports, tally_port, tally_j3, tally_ct, tally_https, tally_sni, tally_tls, tally_cdn,
  tally_proxy,
}
use bye_bye_vpn.Verdict.Book.{note, strong_signal, soft_signal}
use bye_bye_vpn.Verdict.Cdn.{is_known_cdn_asn, looks_like_cdn_lb, has_token}
use bye_bye_vpn.Verdict.Flags.{flags, ports_flags, none_set, tally-flags, known_cdn_suppresses}
use bye_bye_vpn.Verdict.Outcome.{
  Evidence, responded_on, book_hosting, book_udp, tally, score_of, udp_hits, asn_orgs_of, classify,
  immediate_block, pass_allow,
}
use bye_bye_vpn.Verdict.Rules.{total_penalty, ports_penalty, port_penalty}
use bye_bye_vpn.Verdict.Score.{score_of-total_penalty}
use bye_bye_vpn.Verdict.Tier.{tier_a, probe_anomaly, classify_lem}

abbrev located : Bytes → GeoInfo
located org = record {
  ip = text "192.0.2.1";
  country = [];
  country_code = [];
  city = [];
  asn = [];
  asn_org = org;
  is_hosting = true;
  is_vpn = false;
  is_proxy = false;
  is_tor = false;
  is_abuser = false;
  source = [];
  err = [];
}

abbrev stolen_name : SniConsistency
stolen_name = record {
  base_sni = text "example.org";
  base_sha = text "aa";
  base_subject = [];
  base_san = [];
  entries = [];
  same_cert_always = true;
  reality_like = true;
  default_cert_only = false;
  matched_foreign_sni = text "www.microsoft.com";
  brand_claimed = text "microsoft.com";
  cert_impersonation = true;
  passthrough_mode = false;
  distinct_certs = 1;
}

abbrev port_443 : PortFp
port_443 = record {
  port = 443;
  fp = record {
    service = text "HTTPS";
    details = [];
    raw_hex = [];
    is_vpn_like = false;
    silent = false;
  };
  tls = none;
  sni = some stolen_name;
  j3 = [];
  j3a = none;
  https = none;
  ct = none;
}

abbrev reality_host : Evidence
reality_host = record {
  geos = located (text "Example Hosting") ∷ [];
  open_tcp = record { port = 443; connect_ms = 5; banner = []; err = [] } ∷ [];
  udp_probes =
      (51820, record { responded = true; bytes = 92; reply_hex = []; ms = 9; err = [] }) ∷ [];
  fps = port_443 ∷ [];
}

abbrev cdn_host : Evidence
cdn_host = record reality_host { geos = located (text "Cloudflare, Inc.") ∷ [] }

score_of-total_penalty_example : score_of reality_host ≡ pos (100 - total_penalty reality_host)
score_of-total_penalty_example = score_of-total_penalty reality_host

-- 100 - 22 - 16 - 18
reality_host_penalty : total_penalty reality_host ≡ 56
unfolding total_penalty ports_penalty port_penalty bytes_eq text contains find tolower_s to_lower
    to_string starts_with asn_orgs_of is_known_cdn_asn looks_like_cdn_lb has_token asn_owns_brand
    is_brand exact_match suffix_match brand_table equal_lower iequals iends_with_dot is_dot_at
    find_markers has_marker org_matches strip_wildcard skip_space split split_onto trim udp_hits
    responded_on
reality_host_penalty = refl

tally-flags_example :
    flags (tally reality_host)
    ≡ ports_flags (asn_orgs_of reality_host.geos) reality_host.fps none_set
tally-flags_example = tally-flags reality_host

cdn_host_known : any is_known_cdn_asn (asn_orgs_of cdn_host.geos) ≡ true
unfolding is_known_cdn_asn asn_orgs_of text contains find tolower_s to_lower
cdn_host_known = refl

known_cdn_suppresses_example :
    ((tally cdn_host).any_reality ≡ false) × ((tally cdn_host).any_impersonation ≡ false)
known_cdn_suppresses_example = known_cdn_suppresses cdn_host cdn_host_known

classify_lem_example :
    ((classify (udp_hits []) (tally reality_host) ≡ immediate_block)
      ↔ (tier_a (udp_hits []) (tally reality_host) ≡ true))
    × ((classify (udp_hits []) (tally reality_host) ≡ pass_allow) ↔ (
        (tier_a (udp_hits []) (tally reality_host)
          || (tally reality_host).any_reality
          || (tally reality_host).any_impersonation
          || probe_anomaly (tally reality_host))
        ≡ false))
classify_lem_example = classify_lem (udp_hits []) (tally reality_host)

reality_host_impersonates : (tally reality_host).any_impersonation ≡ true
unfolding tally tally_ports tally_port tally_j3 tally_ct tally_https tally_sni tally_tls tally_cdn
    tally_proxy note strong_signal soft_signal book_hosting book_udp bytes_eq text contains find
    tolower_s to_lower to_string starts_with asn_orgs_of is_known_cdn_asn looks_like_cdn_lb
    has_token asn_owns_brand is_brand exact_match suffix_match brand_table equal_lower iequals
    iends_with_dot is_dot_at find_markers has_marker org_matches strip_wildcard skip_space split
    split_onto trim udp_hits responded_on
reality_host_impersonates = refl
