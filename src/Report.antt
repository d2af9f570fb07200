-- ===== src/Report.antt =====
-- The results that the probes hand to the verdict: the structs of src/analysis/verdict.h and of the
-- headers that it includes. An `int` that is never negative is a number.
use bye_bye_vpn.Common.{ℕ, Bool, ◌||◌, List, Option, Bytes, ℤ, ltb, leb}

-- src/analysis/geoip.h
pub record GeoInfo : Type 0 where
  pub ip : Bytes
  pub country : Bytes
  pub country_code : Bytes
  pub city : Bytes
  pub asn : Bytes
  pub asn_org : Bytes
  pub is_hosting : Bool
  pub is_vpn : Bool
  pub is_proxy : Bool
  pub is_tor : Bool
  pub is_abuser : Bool
  pub source : Bytes
  pub err : Bytes

-- src/network/udp_scanner.h
pub record UdpResult : Type 0 where
  pub responded : Bool
  pub bytes : ℕ
  pub reply_hex : Bytes
  pub ms : ℕ
  pub err : Bytes

-- src/network/service_probes.h
pub record FpResult : Type 0 where
  pub service : Bytes
  pub details : Bytes
  pub raw_hex : Bytes
  pub is_vpn_like : Bool
  pub silent : Bool

-- src/network/tls_probe.h
pub record TlsProbe : Type 0 where
  pub ok : Bool
  pub err : Bytes
  pub version : Bytes
  pub cipher : Bytes
  pub alpn : Bytes
  pub group : Bytes
  pub cert_subject : Bytes
  pub cert_issuer : Bytes
  pub cert_sha256 : Bytes
  pub san : List Bytes
  pub handshake_ms : ℕ
  pub subject_cn : Bytes
  pub issuer_cn : Bytes
  pub age_days : ℤ
  pub days_left : ℤ
  pub total_validity_days : ℤ
  pub self_signed : Bool
  pub is_letsencrypt : Bool
  pub is_wildcard : Bool
  pub san_count : ℕ
  pub has_certificate : Bool

-- src/analysis/sni_consistency.h
pub record SniEntry : Type 0 where
  pub sni : Bytes
  pub ok : Bool
  pub sha : Bytes
  pub subject : Bytes

pub record SniConsistency : Type 0 where
  pub base_sni : Bytes
  pub base_sha : Bytes
  pub base_subject : Bytes
  pub base_san : List Bytes
  pub entries : List SniEntry
  pub same_cert_always : Bool
  pub reality_like : Bool
  pub default_cert_only : Bool
  pub matched_foreign_sni : Bytes
  pub brand_claimed : Bytes
  pub cert_impersonation : Bool
  pub passthrough_mode : Bool
  pub distinct_certs : ℕ

unfoldable pub vpn_like : SniConsistency → Bool
vpn_like c = c.reality_like || c.cert_impersonation || c.passthrough_mode

-- src/network/j3_probes.h
pub record J3Result : Type 0 where
  pub name : Bytes
  pub responded : Bool
  pub bytes : ℕ
  pub first_line : Bytes
  pub hex_head : Bytes
  pub ms : ℕ

pub record J3Analysis : Type 0 where
  pub silent : ℕ
  pub resp : ℕ
  pub http_real : ℕ
  pub http_bad_version : ℕ
  pub raw_non_http : ℕ
  pub canned_identical : ℕ
  pub canned_line : Bytes
  pub canned_bytes : ℕ

unfoldable pub suspicious : J3Analysis → Bool
suspicious a = leb 2 a.canned_identical || ltb 0 a.http_bad_version

-- src/network/https_probe.h
pub record HttpsProbe : Type 0 where
  pub tls_ok : Bool
  pub responded : Bool
  pub bytes : ℕ
  pub first_line : Bytes
  pub server_hdr : Bytes
  pub http_version : Bytes
  pub status_code : ℤ
  pub version_anomaly : Bool
  pub no_server_hdr : Bool
  pub via_hdr : Bytes
  pub forwarded_hdr : Bytes
  pub xff_hdr : Bytes
  pub xreal_ip_hdr : Bytes
  pub x_forwarded_proto : Bytes
  pub x_forwarded_host : Bytes
  pub cf_ray_hdr : Bytes
  pub cf_cache_status : Bytes
  pub x_amz_cf_id : Bytes
  pub x_amz_cf_pop : Bytes
  pub x_azure_ref : Bytes
  pub x_azure_clientip : Bytes
  pub x_cache : Bytes
  pub x_served_by : Bytes
  pub alt_svc : Bytes
  pub has_proxy_leak : Bool
  pub has_cdn_hdr : Bool
  pub err : Bytes

-- src/analysis/ct_check.h
pub record CtCheck : Type 0 where
  pub queried : Bool
  pub found : Bool
  pub log_entries : ℕ
  pub err : Bytes

-- src/network/port_scan.h
pub record TcpOpen : Type 0 where
  pub port : ℕ
  pub connect_ms : ℕ
  pub banner : Bytes
  pub err : Bytes

-- src/analysis/verdict.h: the findings on one open port
pub record PortFp : Type 0 where
  pub port : ℕ
  pub fp : FpResult
  pub tls : Option TlsProbe
  pub sni : Option SniConsistency
  pub j3 : List J3Result
  pub j3a : Option J3Analysis
  pub https : Option HttpsProbe
  pub ct : Option CtCheck
