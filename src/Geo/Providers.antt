-- ===== src/Geo/Providers.antt =====
-- src/analysis/geoip.cpp: what each provider's function makes of a good reply.
use bye_bye_vpn.Common.{
  ℕ, ◌+◌, ◌||◌, [], Option, none, some, if◌then◌else◌, is_empty, take, drop, Bytes, text,
  starts_with, find_byte,
}
use bye_bye_vpn.Report.{GeoInfo}
use bye_bye_vpn.Json.{json_get_str}
use bye_bye_vpn.Geo.Reply.{no_info, block_of, block_before_comma, or_read, reads_true, ◌>>=◌}

-- The asn and the organisation in the block of ipapi.is, where an empty block reads as nothing.
unfoldable pub ipapi_is_answer : ℕ → Bytes → Bytes → Option GeoInfo
unfolding block_of or_read reads_true
ipapi_is_answer fuel ip body = do
  own_ip ← json_get_str fuel body (text "ip")
  country ← json_get_str fuel body (text "country")
  code ← json_get_str fuel body (text "country_code")
  city ← json_get_str fuel body (text "city")
  let asn_block : Bytes = elim (block_of (text "\"asn\"") body) [ none ↦ [] | some block ↦ block ]
  block_asn ← json_get_str fuel asn_block (text "asn")
  org ← json_get_str fuel asn_block (text "org")
  asn ← or_read fuel body (text "asn") block_asn
  is_datacenter ← reads_true fuel body (text "is_datacenter")
  is_hosting ← reads_true fuel body (text "is_hosting")
  is_vpn ← reads_true fuel body (text "is_vpn")
  is_proxy ← reads_true fuel body (text "is_proxy")
  is_tor ← reads_true fuel body (text "is_tor")
  is_abuser ← reads_true fuel body (text "is_abuser")
  some record {
    ip = own_ip;
    country = country;
    country_code = code;
    city = city;
    asn = asn;
    asn_org = org;
    is_hosting = is_datacenter || is_hosting;
    is_vpn = is_vpn;
    is_proxy = is_proxy;
    is_tor = is_tor;
    is_abuser = is_abuser;
    source = text "ipapi.is";
    err = [];
  }

-- The asn and the organisation of iplocate.io.
unfoldable pub iplocate_asn : ℕ → Bytes → Option (Bytes × Bytes)
unfolding block_before_comma or_read
iplocate_asn fuel body = elim (block_before_comma (text "\"asn\"") body) [
  | none ↦ do
    asn ← json_get_str fuel body (text "asn")
    org ← json_get_str fuel body (text "org")
    some (asn, org)
  | some block ↦ do
    asn ← json_get_str fuel block (text "asn")
    name ← json_get_str fuel block (text "name")
    org ← or_read fuel block (text "org") name
    some (asn, org)
]

unfoldable pub iplocate_answer : ℕ → Bytes → Bytes → Option GeoInfo
unfolding iplocate_asn reads_true
iplocate_answer fuel ip body = do
  own_ip ← json_get_str fuel body (text "ip")
  country ← json_get_str fuel body (text "country")
  code ← json_get_str fuel body (text "country_code")
  city ← json_get_str fuel body (text "city")
  (asn, org) ← iplocate_asn fuel body
  is_hosting ← reads_true fuel body (text "is_hosting")
  is_vpn ← reads_true fuel body (text "is_vpn")
  is_anonymous ← reads_true fuel body (text "is_anonymous")
  is_proxy ← reads_true fuel body (text "is_proxy")
  is_tor ← reads_true fuel body (text "is_tor")
  some record (no_info (text "iplocate.io")) {
    ip = own_ip;
    country = country;
    country_code = code;
    city = city;
    asn = asn;
    asn_org = org;
    is_hosting = is_hosting;
    is_vpn = is_vpn || is_anonymous;
    is_proxy = is_proxy;
    is_tor = is_tor;
  }

-- The connection block of ipwho.is.
unfoldable pub ipwho_asn : ℕ → Bytes → Option (Bytes × Bytes)
unfolding block_of or_read
ipwho_asn fuel body = elim (block_of (text "\"connection\"") body) [
  | none ↦ some ([], [])
  | some sb ↦ do
    asn ← json_get_str fuel sb (text "asn")
    isp ← json_get_str fuel sb (text "isp")
    org ← or_read fuel sb (text "org") isp
    some (asn, org)
]

unfoldable pub ipwho_is_answer : ℕ → Bytes → Bytes → Option GeoInfo
unfolding ipwho_asn
ipwho_is_answer fuel ip body = do
  own_ip ← json_get_str fuel body (text "ip")
  country ← json_get_str fuel body (text "country")
  code ← json_get_str fuel body (text "country_code")
  city ← json_get_str fuel body (text "city")
  (asn, org) ← ipwho_asn fuel body
  some record (no_info (text "ipwho.is")) {
    ip = own_ip;
    country = country;
    country_code = code;
    city = city;
    asn = asn;
    asn_org = org;
  }

-- "AS12345 Org Name": the asn and the organisation.
unfoldable pub split_org : Bytes → Bytes × Bytes
split_org orgraw =
    if starts_with orgraw (text "AS")
    then elim (find_byte b' ' orgraw) [
      | none ↦ (orgraw, [])
      | some sp ↦ (take sp orgraw, drop (sp + 1) orgraw)
    ]
    else ([], orgraw)

unfoldable pub ipinfo_io_answer : ℕ → Bytes → Bytes → Option GeoInfo
ipinfo_io_answer fuel ip body = do
  own_ip ← json_get_str fuel body (text "ip")
  code ← json_get_str fuel body (text "country")
  city ← json_get_str fuel body (text "city")
  orgraw ← json_get_str fuel body (text "org")
  let (asn, org) = split_org orgraw
  some record (no_info (text "ipinfo.io")) {
    ip = own_ip;
    country_code = code;
    city = city;
    asn = asn;
    asn_org = org;
  }

unfoldable pub freeipapi_answer : ℕ → Bytes → Bytes → Option GeoInfo
freeipapi_answer fuel ip body = do
  own_ip ← json_get_str fuel body (text "ipAddress")
  country ← json_get_str fuel body (text "countryName")
  code ← json_get_str fuel body (text "countryCode")
  city ← json_get_str fuel body (text "cityName")
  some record (no_info (text "freeipapi.com")) {
    ip = own_ip;
    country = country;
    country_code = code;
    city = city;
  }

unfoldable pub twoip_ru_answer : ℕ → Bytes → Bytes → Option GeoInfo
unfolding or_read
twoip_ru_answer fuel ip body = do
  own_ip ← json_get_str fuel body (text "ip")
  name1 ← json_get_str fuel body (text "country")
  name2 ← or_read fuel body (text "country_rus") name1
  country ← or_read fuel body (text "countryName") name2
  code1 ← json_get_str fuel body (text "country_code")
  code ← or_read fuel body (text "countryCode") code1
  city1 ← json_get_str fuel body (text "city")
  city2 ← or_read fuel body (text "city_rus") city1
  city ← or_read fuel body (text "cityName") city2
  org ← json_get_str fuel body (text "org")
  some record (no_info (text "2ip.me (RU)")) {
    ip = if is_empty own_ip then ip else own_ip;
    country = country;
    country_code = code;
    city = city;
    asn_org = org;
  }

-- A name in English or in Russian.
unfoldable pub sypex_name : ℕ → Bytes → Option Bytes
unfolding or_read
sypex_name fuel sb = do
  name ← json_get_str fuel sb (text "name_en")
  or_read fuel sb (text "name_ru") name

-- The block of the country: its name, and its code where there was none.
unfoldable pub sypex_country : ℕ → Bytes → Bytes → Option (Bytes × Bytes)
unfolding block_of sypex_name or_read
sypex_country fuel body code = elim (block_of (text "\"country\"") body) [
  | none ↦ some ([], code)
  | some sb ↦ do
    country ← sypex_name fuel sb
    iso ← or_read fuel sb (text "iso") code
    some (country, iso)
]

unfoldable pub sypex_city : ℕ → Bytes → Option Bytes
unfolding block_of sypex_name
sypex_city fuel body = elim (block_of (text "\"city\"") body) [
  | none ↦ some []
  | some sb ↦ sypex_name fuel sb
]

unfoldable pub sypex_answer : ℕ → Bytes → Bytes → Option GeoInfo
unfolding sypex_country sypex_city or_read
sypex_answer fuel ip body = do
  own_ip ← or_read fuel body (text "ip") ip
  code ← json_get_str fuel body (text "iso")
  (country, iso) ← sypex_country fuel body code
  city ← sypex_city fuel body
  some record (no_info (text "sypexgeo.net (RU)")) {
    ip = own_ip;
    country = country;
    country_code = iso;
    city = city;
  }
