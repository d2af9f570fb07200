-- ===== src/Brand.antt =====
-- src/analysis/brand_cert.cpp: which brand a certificate claims, and who owns the brand.
pub mod Table
pub mod Claims
pub mod Names
pub mod Lookup
pub mod Owners
use Table.{BrandMarker, brand_table}
use mathlib.Core.Option
use bye_bye_vpn.Common.{
  ℕ, ◌+◌, ◌-◌, Bool, true, false, not, ◌&&◌, ◌||◌, List, [], ◌∷◌, ◌++◌, Option, none, some, ◌==◌,
  leb, if◌then◌else◌, length, is_empty, get_elem?, drop, any, find_if, Bytes, text, bytes_eq,
  starts_with, to_lower,
}
use bye_bye_vpn.Text.{tolower_s, contains, trim, split}

-- std::ranges::equal of two views under `tolower`
unfoldable pub equal_lower : Bytes → Bytes → Bool
equal_lower [] [] = true
equal_lower (c ∷ a) (d ∷ b) = to_lower c == to_lower d && equal_lower a b
equal_lower _ _ = false

unfoldable pub iequals : Bytes → Bytes → Bool
iequals a b = if not (length a == length b) then false else equal_lower a b

-- `s.at(i) != '.'`, at an index that the code has checked
unfoldable pub is_dot_at : Bytes → ℕ → Bool
is_dot_at s i = elim (get_elem? s i) [ none ↦ false | some c ↦ c == b'.' ]

unfoldable pub iends_with_dot : Bytes → Bytes → Bool
unfolding is_dot_at
iends_with_dot s suffix =
    if leb (length s) (length suffix + 1)
    then false
    else if not (is_dot_at s (length s - length suffix - 1))
    then false
    else equal_lower (drop (length s - length suffix) s) suffix

-- The name without its wildcard prefix.
unfoldable pub strip_wildcard : Bytes → Bytes
strip_wildcard name = if starts_with name (text "*.") then drop 2 name else name

unfoldable pub exact_match : Bytes → Option BrandMarker
exact_match name = find_if (λ entry. iequals name entry.brand) brand_table

unfoldable pub suffix_match : Bytes → Option BrandMarker
suffix_match name = find_if (λ entry. iends_with_dot name entry.brand) brand_table

-- `none` is nullptr.
unfoldable pub is_brand : Bytes → Option Bytes
is_brand name = if is_empty name then none else elim (exact_match (strip_wildcard name)) [
  | some e ↦ some e.brand
  | none ↦ Option.map (λ e. e.brand) (suffix_match (strip_wildcard name))
]

-- The loop over the subject alternative names; the empty string is no brand.
first_brand : List Bytes → Bytes
first_brand [] = []
first_brand (s ∷ san) = elim (is_brand s) [ some hit ↦ hit | none ↦ first_brand san ]

unfoldable pub cert_claims_brand : Bytes → List Bytes → Bytes
unfolding first_brand
cert_claims_brand subject_cn san = elim (is_brand subject_cn) [
  | some hit ↦ hit
  | none ↦ first_brand san
]

-- Does the lower-cased organisation contain this marker?
unfoldable pub has_marker : Bytes → Bytes → Bool
has_marker lo m = not (is_empty (trim m)) && contains lo (trim m)

unfoldable pub org_matches : List Bytes → Bytes → Bool
org_matches parts org = any (has_marker (tolower_s org)) parts

unfoldable pub find_markers : Bytes → Option BrandMarker
find_markers canonical = find_if (λ entry. bytes_eq canonical entry.brand) brand_table

unfoldable pub asn_owns_brand : Bytes → List Bytes → Bool
asn_owns_brand brand_domain asn_orgs =
    if is_empty brand_domain || is_empty asn_orgs then false else elim (is_brand brand_domain) [
      | none ↦ false
      | some canonical ↦ elim (find_markers canonical) [
        | none ↦ false
        | some it ↦ any (org_matches (split (tolower_s it.asn_markers) b',')) asn_orgs
      ]
    ]
