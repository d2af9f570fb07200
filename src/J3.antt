-- ===== src/J3.antt =====
-- src/network/j3_probes.cpp: what the answers to the junk probes say. The probes are given.
pub mod Counts
pub mod Canned
pub mod Probes
pub mod Hello
use bye_bye_vpn.Common.{
  ℕ, zero, suc, ◌+◌, ◌-◌, Bool, true, false, not, ◌&&◌, ◌||◌, List, [], ◌∷◌, ◌++◌, Option, none,
  some, ◌==◌, ltb, leb, if◌then◌else◌, length, get_elem?, Bytes, text, bytes_eq, starts_with,
}
use bye_bye_vpn.Report.{J3Result, J3Analysis}
use bye_bye_vpn.Text.{contains}

-- `s.at(i) == b`, at an index that the code has checked
unfoldable pub is_at : Bytes → ℕ → ℕ → Bool
is_at s i b = elim (get_elem? s i) [ none ↦ false | some c ↦ c == b ]

unfoldable pub is_good_version : Bytes → Bool
unfolding is_at
is_good_version line =
    (is_at line 5 b'1' && (is_at line 7 b'0' || is_at line 7 b'1'))
    || (is_at line 5 b'2' && is_at line 7 b'0')

-- The result, and `*bad_version_out`.
unfoldable pub looks_like_http_line : Bytes → Bool × Bool
unfolding is_at is_good_version
looks_like_http_line line =
    if ltb (length line) 9
    then (false, false)
    else if not (starts_with line (text "HTTP/"))
    then (false, false)
    else if not (is_at line 6 b'.')
    then (false, false)
    else (true, not (is_good_version line))

unfoldable pub is_valid_http_probe : Bytes → Bool
is_valid_http_probe name = contains name (text "HTTP GET /") || contains name (text "HTTP abs-URI")

pub record KeyEntry : Type 0 where
  pub line : Bytes
  pub bytes : ℕ
  pub name : Bytes

unfoldable pub key_of : J3Result → KeyEntry
key_of p = record { line = p.first_line; bytes = p.bytes; name = p.name }

abbrev pub empty_analysis : J3Analysis
empty_analysis = record {
  silent = 0;
  resp = 0;
  http_real = 0;
  http_bad_version = 0;
  raw_non_http = 0;
  canned_identical = 0;
  canned_line = [];
  canned_bytes = 0;
}

-- The body of the first loop.
unfoldable pub count_probe : J3Result → J3Analysis → J3Analysis
count_probe p a =
    let (is_http, bad_v) = looks_like_http_line p.first_line in
    let b = record a { resp = a.resp + 1 } in
    if p.responded
    then (if is_http && not bad_v
        then record b { http_real = b.http_real + 1 }
        else if is_http && bad_v
        then record b { http_bad_version = b.http_bad_version + 1 }
        else record b { raw_non_http = b.raw_non_http + 1 })
    else record a { silent = a.silent + 1 }

unfoldable pub count_probes : List J3Result → J3Analysis → J3Analysis
count_probes [] a = a
count_probes (p ∷ probes) a = count_probes probes (count_probe p a)

-- The `keys` that the first loop collects.
unfoldable pub keys_of : List J3Result → List KeyEntry
keys_of [] = []
keys_of (p ∷ probes) = if p.responded then key_of p ∷ keys_of probes else keys_of probes

abbrev pub same_key : KeyEntry → KeyEntry → Bool
same_key x y = bytes_eq x.line y.line && x.bytes == y.bytes

-- `count` and `has_valid_http` of the inner loop.
unfoldable pub matches : KeyEntry → List KeyEntry → ℕ
matches x [] = 0
matches x (y ∷ keys) = if same_key x y then matches x keys + 1 else matches x keys

unfoldable pub valid_match : KeyEntry → List KeyEntry → Bool
valid_match x [] = false
valid_match x (y ∷ keys) =
    if same_key x y && is_valid_http_probe y.name then true else valid_match x keys

unfoldable pub is_canned : List KeyEntry → KeyEntry → Bool
is_canned keys x = leb 2 (matches x keys) && ltb 3 (length x.line) && valid_match x keys

-- The outer loop, with the keys that are left to try.
unfoldable pub find_canned : List KeyEntry → List KeyEntry → J3Analysis → J3Analysis
find_canned keys [] a = a
find_canned keys (x ∷ left) a =
    if is_canned keys x
    then record a {
      canned_identical = matches x keys;
      canned_line = x.line;
      canned_bytes = x.bytes;
    }
    else find_canned keys left a

unfoldable pub j3_analyze : List J3Result → J3Analysis
j3_analyze probes =
    find_canned (keys_of probes) (keys_of probes) (count_probes probes empty_analysis)
