-- ===== src/Geo/Fields.antt =====
-- What the providers' functions find in a reply.
use bye_bye_vpn.Common.{
  ℕ, ◌≤◌, true, [], ◌∷◌, ◌++◌, some, ◌≡◌, length, Bytes, text, starts_with, lacks, find_byte-here,
  drop-past, take-append,
}
use bye_bye_vpn.Json.{Value, Fields, obj, own, json_get_str}
use bye_bye_vpn.Json.Print.{print}
use bye_bye_vpn.Json.Lookup.{last_field, json_get_str-print}
use bye_bye_vpn.Http.Reply.{HttpResp, is_ok}
use bye_bye_vpn.Geo.Reply.{no_info}
use bye_bye_vpn.Geo.Providers.{split_org, ipinfo_io_answer}
use bye_bye_vpn.Geo.Lookup.{ipinfo_io, url_of, answer_of, geo_lookup}

split_org-join :
    (asn org : Bytes)
    → starts_with (asn ++ b' ' ∷ org) (text "AS") ≡ true
    → lacks b' ' asn ≡ true
    → split_org (asn ++ b' ' ∷ org) ≡ (asn, org)
unfolding split_org
split_org-join asn org named plain = rw (
  split_org,
  named,
  find_byte-here b' ' asn org plain,
  take-append asn (b' ' ∷ org),
  drop-past asn b' ' org,
)

-- When ipinfo.io answers with the text of an object that has these values, and its `org` is an AS number, a space and a
-- name, the result holds the address, the country's code, the city, the number and the name; fuel of the text's length is enough.
pub geo_lookup-ipinfo_io :
    (http_get : Bytes → HttpResp) (fuel : ℕ) (ip asn org : Bytes) (fs : Fields)
    (own_ip country city orgraw : Value)
    → let r = http_get (url_of ipinfo_io ip) in
      is_ok r ≡ true
      → r.body ≡ print (obj fs) []
      → length (print (obj fs) []) ≤ fuel
      → last_field (text "ip") fs ≡ some own_ip
      → last_field (text "country") fs ≡ some country
      → last_field (text "city") fs ≡ some city
      → last_field (text "org") fs ≡ some orgraw
      → own orgraw ≡ asn ++ b' ' ∷ org
      → starts_with (asn ++ b' ' ∷ org) (text "AS") ≡ true
      → lacks b' ' asn ≡ true
      → geo_lookup ipinfo_io http_get fuel ip
        ≡ some record (no_info (text "ipinfo.io")) {
          ip = own own_ip;
          country_code = own country;
          city = own city;
          asn = asn;
          asn_org = org;
        }
unfolding geo_lookup answer_of ipinfo_io_answer
geo_lookup-ipinfo_io http_get fuel ip asn org fs own_ip country city orgraw good body enough a b c d
      raw named plain =
    let reads : (key : Bytes) (v : Value)
        → last_field key fs ≡ some v
        → json_get_str fuel (print (obj fs) []) key ≡ some (own v) =
      λ key v h. json_get_str-print fs key [] v fuel h enough in
    let parts : split_org (own orgraw) ≡ (asn, org) = rw raw (split_org-join asn org named plain) in
    rw (
      geo_lookup,
      good,
      body,
      reads (text "ip") own_ip a,
      reads (text "country") country b,
      reads (text "city") city c,
      reads (text "org") orgraw d,
      parts,
    )
