-- ===== src/Tests/Answers.antt =====
-- The brand table, the SNI comparison and the junk probes on made-up answers.
use bye_bye_vpn.Brand.Lookup.{IsAnswer, is_brand-IsAnswer}
use bye_bye_vpn.Brand.Table.{brand_table}
use bye_bye_vpn.Brand.{
  is_brand, exact_match, suffix_match, equal_lower, iequals, iends_with_dot, is_dot_at,
  strip_wildcard,
}
use bye_bye_vpn.Common.{
  true, false, List, [], ◌∷◌, some, ◌≡◌, refl, pos, Bytes, text, starts_with, find_byte, to_lower,
  replicate,
}
use bye_bye_vpn.Ct.Outcome.{IsOutcome, ct_check-IsOutcome}
use bye_bye_vpn.Http.Reply.{HttpResp, is_ok}
use bye_bye_vpn.Ct.{
  ct_check, parse_top_level_array_size, parse_array, parse, parse_key, parse_string, string_rest,
  skip_xdigits, parse_number, integer_part, fraction_part, exponent_part, exponent_sign, skip_sign,
  some_digits, skip_digits, parse_literal,
}
use bye_bye_vpn.Report.{J3Result, TlsProbe}
use bye_bye_vpn.Text.{skip_space}
use bye_bye_vpn.Sni.Shape.{IsCoherent, sni_consistency-IsCoherent}
use bye_bye_vpn.Sni.{
  dns_name_match, equal_folded, first_dot_at, fold_case, iequals_ascii, sni_consistency,
}

www_apple : is_brand (text "WWW.Apple.com") ≡ some (text "apple.com")
unfolding is_brand exact_match suffix_match equal_lower iequals iends_with_dot is_dot_at
    strip_wildcard brand_table text starts_with to_lower
www_apple = refl

apple_itself : is_brand (text "APPLE.com") ≡ some (text "apple.com")
unfolding is_brand exact_match suffix_match equal_lower iequals iends_with_dot is_dot_at
    strip_wildcard brand_table to_lower text starts_with
apple_itself = refl

is_brand-IsAnswer_example : IsAnswer (text "WWW.Apple.com") (is_brand (text "WWW.Apple.com"))
is_brand-IsAnswer_example = is_brand-IsAnswer (text "WWW.Apple.com")

abbrev answer : Bytes → Bytes → J3Result
answer name line = record {
  name = name;
  responded = true;
  bytes = 40;
  first_line = line;
  hex_head = [];
  ms = 3;
}

abbrev answers : List J3Result
answers =
    answer (text "HTTP GET /") (text "HTTP/1.1 400 Bad Request")
    ∷ answer (text "0xFF x128") (text "HTTP/1.1 400 Bad Request")
    ∷ answer (text "SSH banner") (text "HTTP/4.2 000 x")
    ∷ []

-- A server with one certificate for www.apple.com.
abbrev certificate : TlsProbe
certificate = record {
  ok = true;
  err = [];
  version = text "TLSv1.3";
  cipher = [];
  alpn = [];
  group = [];
  cert_subject = text "CN=www.apple.com";
  cert_issuer = [];
  cert_sha256 = text "ab12";
  san = text "www.apple.com" ∷ [];
  handshake_ms = 20;
  subject_cn = text "www.apple.com";
  issuer_cn = [];
  age_days = pos 3;
  days_left = pos 80;
  total_validity_days = pos 90;
  self_signed = false;
  is_letsencrypt = false;
  is_wildcard = false;
  san_count = 1;
  has_certificate = true;
}

sni_consistency-IsCoherent_example :
    IsCoherent (sni_consistency (λ sni. certificate) (text "example.org"))
sni_consistency-IsCoherent_example =
    sni_consistency-IsCoherent (λ sni. certificate) (text "example.org")

suffixes_agree : iequals_ascii (0x42 ∷ b'.' ∷ 0x63 ∷ []) (0x62 ∷ b'.' ∷ 0x43 ∷ []) ≡ true
unfolding iequals_ascii equal_folded fold_case
suffixes_agree = refl

abbrev covered : Bytes
covered = 0x61 ∷ b'.' ∷ 0x42 ∷ b'.' ∷ 0x63 ∷ []

covered_matches : dns_name_match covered (b'*' ∷ b'.' ∷ (0x62 ∷ b'.' ∷ 0x43 ∷ [])) ≡ true
unfolding dns_name_match iequals_ascii equal_folded fold_case first_dot_at find_byte starts_with
    text
covered_matches = refl

-- crt.sh answers with two entries.
abbrev two_entries : Bytes → HttpResp
two_entries url = record {
  status = 200;
  body = text "[ {\"id\":1}, [null,-2.5e3] ] ";
  err = [];
  ms = 80;
}

abbrev sha256 : Bytes
sha256 = replicate 64 b'a'

ct_check-IsOutcome_example : IsOutcome sha256 true (ct_check two_entries sha256 true)
ct_check-IsOutcome_example = ct_check-IsOutcome two_entries sha256 true

two_entries_found : (ct_check two_entries sha256 true).log_entries ≡ 2
unfolding ct_check is_ok text parse_top_level_array_size parse_array parse parse_key parse_string
    string_rest skip_xdigits parse_number integer_part fraction_part exponent_part exponent_sign
    skip_sign some_digits skip_digits parse_literal starts_with skip_space
two_entries_found = refl
