-- ===== src/Geo/Lookup.antt =====
-- src/analysis/geoip.cpp: the functions of the providers. `http_get` is given.
use bye_bye_vpn.Common.{ℕ, [], ◌++◌, Option, some, if◌then◌else◌, is_empty, Bytes, text}
use bye_bye_vpn.Text.{url_encode}
use bye_bye_vpn.Report.{GeoInfo}
use bye_bye_vpn.Http.Reply.{HttpResp, is_ok}
use bye_bye_vpn.Geo.Reply.{http_failed}
use bye_bye_vpn.Geo.Providers.{
  ipapi_is_answer, iplocate_answer, ipwho_is_answer, ipinfo_io_answer, freeipapi_answer,
  twoip_ru_answer, sypex_answer,
}

pub data Provider : Type 0 where
  ipapi_is iplocate ipwho_is ipinfo_io freeipapi twoip_ru sypex : Provider

unfoldable pub source_of : Provider → Bytes
source_of ipapi_is = text "ipapi.is"
source_of iplocate = text "iplocate.io"
source_of ipwho_is = text "ipwho.is"
source_of ipinfo_io = text "ipinfo.io"
source_of freeipapi = text "freeipapi.com"
source_of twoip_ru = text "2ip.me (RU)"
source_of sypex = text "sypexgeo.net (RU)"

unfoldable pub url_of : Provider → Bytes → Bytes
url_of ipapi_is ip = text "https://api.ipapi.is/" ++ (if is_empty ip then [] else text "?q=" ++ ip)
url_of iplocate ip = text "https://iplocate.io/api/lookup/" ++ ip
url_of ipwho_is ip = text "https://ipwho.is/" ++ ip
url_of ipinfo_io ip = text "https://ipinfo.io/" ++ (ip ++ text "/json")
url_of freeipapi ip = text "https://freeipapi.com/api/json/" ++ ip
url_of twoip_ru ip =
    text "https://api.2ip.me/geo.json" ++ (if is_empty ip then [] else text "?ip=" ++ url_encode ip)
url_of sypex ip = text "https://api.sypexgeo.net/json/" ++ ip

unfoldable pub answer_of : Provider → ℕ → Bytes → Bytes → Option GeoInfo
answer_of ipapi_is = ipapi_is_answer
answer_of iplocate = iplocate_answer
answer_of ipwho_is = ipwho_is_answer
answer_of ipinfo_io = ipinfo_io_answer
answer_of freeipapi = freeipapi_answer
answer_of twoip_ru = twoip_ru_answer
answer_of sypex = sypex_answer

-- geo_ipapi_is and the others.
unfoldable pub geo_lookup : Provider → (Bytes → HttpResp) → ℕ → Bytes → Option GeoInfo
unfolding source_of url_of answer_of
geo_lookup p http_get fuel ip =
    let r = http_get (url_of p ip) in
    let answer = answer_of p fuel ip r.body in
    if is_ok r then answer else some (http_failed (source_of p) r)
