-- ===== src/Verdict/Cdn.antt =====
-- src/cli/orchestrator.cpp: does a port look like the edge of a CDN or a load balancer?
use bye_bye_vpn.Common.{
  Bool, true, false, ◌||◌, List, [], ◌∷◌, none, some, if◌then◌else◌, any, Bytes, text,
}
use bye_bye_vpn.Report.{PortFp}
use bye_bye_vpn.Text.{tolower_s, contains}

unfoldable pub has_token : Bytes → List Bytes → Bool
has_token value needles = any (contains (tolower_s value)) needles

cdn_asn_needles : List Bytes
cdn_asn_needles =
    text "cloudflare"
    ∷ text "akamai"
    ∷ text "fastly"
    ∷ text "amazon"
    ∷ text "aws"
    ∷ text "google"
    ∷ text "gcp"
    ∷ text "microsoft"
    ∷ text "azure"
    ∷ text "edgecast"
    ∷ text "edgio"
    ∷ text "cdn77"
    ∷ text "cachefly"
    ∷ text "ddos-guard"
    ∷ text "verizon media"
    ∷ text "limelight"
    ∷ text "stackpath"
    ∷ text "bunny"
    ∷ text "cloudfront"
    ∷ text "netflix"
    ∷ []

unfoldable pub is_known_cdn_asn : Bytes → Bool
unfolding cdn_asn_needles has_token
is_known_cdn_asn asn_org = has_token asn_org cdn_asn_needles

server_needles : List Bytes
server_needles =
    text "envoy"
    ∷ text "cloudflare"
    ∷ text "cloudfront"
    ∷ text "akamai"
    ∷ text "fastly"
    ∷ text "varnish"
    ∷ text "gws"
    ∷ text "awselb"
    ∷ text "elb"
    ∷ text "edge"
    ∷ []

unfoldable pub looks_like_cdn_lb : PortFp → List Bytes → Bool
unfolding server_needles
looks_like_cdn_lb pf asn_orgs = if any is_known_cdn_asn asn_orgs then true else elim pf.https [
  | none ↦ false
  | some h ↦ has_token h.server_hdr server_needles || h.has_cdn_hdr
]
