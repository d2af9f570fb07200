-- ===== src/Geo/Stuck.antt =====
-- A reply that no provider's function comes back from.
use bye_bye_vpn.Common.{ℕ, true, [], ◌∷◌, none, ◌≡◌, Bytes}
use bye_bye_vpn.Json.{json_get_str}
use bye_bye_vpn.Json.Stuck.{json_get_str-stuck}
use bye_bye_vpn.Http.Reply.{HttpResp, is_ok}
use bye_bye_vpn.Geo.Reply.{or_read}
use bye_bye_vpn.Geo.Providers.{
  ipapi_is_answer, iplocate_answer, ipwho_is_answer, ipinfo_io_answer, freeipapi_answer,
  twoip_ru_answer, sypex_answer,
}
use bye_bye_vpn.Geo.Lookup.{
  Provider, ipapi_is, iplocate, ipwho_is, ipinfo_io, freeipapi, twoip_ru, sypex, url_of, answer_of,
  geo_lookup,
}

json_get_str-none :
    (fuel : ℕ) (rest key : Bytes) → json_get_str fuel (b'[' ∷ b'}' ∷ rest) key ≡ none
json_get_str-none fuel rest key = (json_get_str-stuck fuel rest key).0

answer_of-stuck :
    (p : Provider) (fuel : ℕ) (ip rest : Bytes) → answer_of p fuel ip (b'[' ∷ b'}' ∷ rest) ≡ none
unfolding answer_of ipapi_is_answer iplocate_answer ipwho_is_answer ipinfo_io_answer
    freeipapi_answer twoip_ru_answer sypex_answer or_read
answer_of-stuck ipapi_is fuel ip rest = rw (json_get_str-none fuel rest)
answer_of-stuck iplocate fuel ip rest = rw (json_get_str-none fuel rest)
answer_of-stuck ipwho_is fuel ip rest = rw (json_get_str-none fuel rest)
answer_of-stuck ipinfo_io fuel ip rest = rw (json_get_str-none fuel rest)
answer_of-stuck freeipapi fuel ip rest = rw (json_get_str-none fuel rest)
answer_of-stuck twoip_ru fuel ip rest = rw (json_get_str-none fuel rest)
answer_of-stuck sypex fuel [] rest = rw (json_get_str-none fuel rest)
answer_of-stuck sypex fuel (c ∷ ip) rest = rw (json_get_str-none fuel rest)

-- When a provider answers with a good reply whose body begins with `[}`, its function does not come back,
-- whatever the fuel: this holds for each of the seven.
pub geo_lookup-stuck :
    (p : Provider) (http_get : Bytes → HttpResp) (fuel : ℕ) (ip rest : Bytes)
    → is_ok (http_get (url_of p ip)) ≡ true
    → (http_get (url_of p ip)).body ≡ b'[' ∷ b'}' ∷ rest
    → geo_lookup p http_get fuel ip ≡ none
unfolding geo_lookup
geo_lookup-stuck p http_get fuel ip rest good body =
    rw (geo_lookup, good, body, answer_of-stuck p fuel ip rest)
