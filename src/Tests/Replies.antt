-- ===== src/Tests/Replies.antt =====
-- The JSON reader, the HTTP client and the GeoIP lookups on short inputs (src/core/utils.cpp,
-- src/network/http_client.cpp, src/analysis/geoip.cpp).
use bye_bye_vpn.Common.{
  List, true, false, [], ◌∷◌, ◌++◌, none, some, inr, ◌≡◌, refl, arith, length, Bytes, bytes_eq,
  find, find_byte, starts_with, to_lower, text, pos,
}
use bye_bye_vpn.Json.{
  Fields, str, obj, no_fields, field, unescape, append_utf8, json_get_str, own, unicode, parse_u16,
  hex_val, low_surrogate,
}
use bye_bye_vpn.Json.Strings.{escape, decode_utf8, decode_utf8-append_utf8}
use bye_bye_vpn.Json.Print.{print}
use bye_bye_vpn.Json.Lookup.{last_field, json_get_str-print}
use bye_bye_vpn.Json.Stuck.{json_get_str-stuck}
use bye_bye_vpn.Text.{contains, tolower_s}
use bye_bye_vpn.Http.Url.{parse_http_port, Target, parse_url}
use bye_bye_vpn.Http.UrlShape.{parse_url-port, parse_url-fragment}
use bye_bye_vpn.Http.UrlBounds.{IsUsable, parse_url-IsUsable}
use bye_bye_vpn.Http.Reply.{three_digits, HttpResp, is_ok, parse_response}
use bye_bye_vpn.Text.Hex.{hex_value}
use bye_bye_vpn.Http.Ports.{decimal_number}
use bye_bye_vpn.Http.Sizes.{hex_number}
use bye_bye_vpn.Http.Chunks.{Chunk, frame, contents}
use bye_bye_vpn.Http.Response.{parse_response-frame}
use bye_bye_vpn.Http.Client.{World, got}
use bye_bye_vpn.Geo.Reply.{no_info}
use bye_bye_vpn.Geo.Lookup.{ipinfo_io, sypex, geo_lookup}
use bye_bye_vpn.Geo.Fields.{geo_lookup-ipinfo_io}
use bye_bye_vpn.Geo.Stuck.{geo_lookup-stuck}

decode_utf8-append_utf8_example : decode_utf8 (append_utf8 0x1f600) ≡ some 0x1f600
decode_utf8-append_utf8_example = decode_utf8-append_utf8 0x1f600 (omega arith)

-- A surrogate pair, a lone surrogate, and an escape cut short.
unescape_pair : unescape (text "\\ud83d\\ude00") ≡ 0xf0 ∷ 0x9f ∷ 0x98 ∷ 0x80 ∷ []
unfolding unescape text unicode parse_u16 hex_val low_surrogate
unescape_pair = refl

-- {"ip":"1","org":"AS1 b","org":"AS7 c"}
abbrev reply_fields : Fields
reply_fields = field (text "ip") (str (text "1")) (
    field (text "country") (str (text "X")) (
      field (text "city") (str []) (
        field (text "org") (str (text "AS1 b"))
          (field (text "org") (str (text "AS7 c")) no_fields))))

json_get_str-print_example :
    json_get_str 200 (print (obj reply_fields) []) (text "org") ≡ some (text "AS7 c")
unfolding bytes_eq text own
json_get_str-print_example =
    json_get_str-print reply_fields (text "org") [] (str (text "AS7 c")) 200
      (unfold last_field text in refl) (unfold print escape text in omega arith)

json_get_str-stuck_example :
    (json_get_str 50 (b'[' ∷ b'}' ∷ text "]") (text "ip") ≡ none)
    × (json_get_str 50 (b'{' ∷ b']' ∷ text "]") (text "ip") ≡ none)
json_get_str-stuck_example = json_get_str-stuck 50 (text "]") (text "ip")

-- Two chunks, the first with an extension, the second of twenty-six bytes.
abbrev two_chunks : List Chunk
two_chunks = (text "3;a=b", text "abc") ∷ (text "1a", text "abcdefghijklmnopqrstuvwxyz") ∷ []

abbrev chunked_headers : Bytes
chunked_headers =
    text "HTTP/1.1" ++ b' ' ∷ (text "200" ++ b' ' ∷ text "OK\r\nTransfer-Encoding: chunked")

parse_response-frame_example :
    parse_response (chunked_headers ++ (text "\r\n\r\n" ++ frame two_chunks (text "0"))) 12
    ≡ record { status = 200; body = contents two_chunks; err = []; ms = 12 }
unfolding text find starts_with three_digits contains tolower_s to_lower frame hex_number hex_value
parse_response-frame_example =
    parse_response-frame (text "HTTP/1.1") (text "OK\r\nTransfer-Encoding: chunked") (text "0")
      two_chunks 2 0 0 12 refl (omega arith, omega arith, omega arith) refl refl
      (
        ((text "3", text ";a=b", (refl, refl, refl, refl, refl)), omega arith, omega arith),
        (((text "1a", [], (refl, refl, refl, refl, refl)), omega arith, omega arith), tt),
      )
      (text "0", [], (refl, refl, refl, refl, refl))

parse_url-port_example :
    (parse_url (text "https://" ++ ((text "a.io" ++ b':' ∷ text "8080") ++ b'/' ∷ text "x?q"))
      ≡ inr record { is_https = true; host = text "a.io"; port = 8080; path = b'/' ∷ text "x?q" })
    × (parse_url (text "http://" ++ ((text "a.io" ++ b':' ∷ text "8080") ++ b'/' ∷ text "x?q"))
        ≡ inr
            record { is_https = false; host = text "a.io"; port = 8080; path = b'/' ∷ text "x?q" })
unfolding text starts_with decimal_number
parse_url-port_example =
    parse_url-port (text "a.io") (text "8080") (text "x?q") 8080 refl
      (refl, refl, refl, omega arith, omega arith) refl

parse_url-fragment_example :
    parse_url (text "http://" ++ ((text "a.io" ++ b'#' ∷ text "top") ++ b'/' ∷ text "x"))
    ≡ inr record {
      is_https = false;
      host = text "a.io" ++ b'#' ∷ text "top";
      port = 80;
      path = b'/' ∷ text "x";
    }
unfolding text starts_with
parse_url-fragment_example = parse_url-fragment (text "a.io") (text "top") (text "x") refl refl

abbrev target : Target
target = record { is_https = true; host = text "a.io"; port = 443; path = text "/?q=1" }

parse_url_run : parse_url (text "https://a.io?q=1") ≡ inr target
unfolding parse_url text starts_with find_byte parse_http_port
parse_url_run = refl

parse_url-IsUsable_example : IsUsable target
parse_url-IsUsable_example = parse_url-IsUsable (text "https://a.io?q=1") target parse_url_run

-- A server that is trusted and answers at once.
abbrev world : World
world = record {
  init_error = none;
  connect_error = λ host port. none;
  ssl_ctx_new = true;
  load = λ path. true;
  default_paths = false;
  ssl_new = true;
  attach_error = none;
  set_sni = λ host. true;
  get_param = true;
  set_ip = λ host. false;
  set_host = λ host. true;
  ssl_connect_error = none;
  verify_result = 0;
  ssl_write = λ req. pos (length req);
  ssl_write_error = [];
  tcp_send_all = λ req. pos (length req);
  last_error = 0;
  reads = got (text "HTTP/1.1 204 No Content\r\n\r\n") ∷ [];
  elapsed = 3;
}

abbrev answers : Bytes → Bytes → HttpResp
answers body url = record { status = 200; body = body; err = []; ms = 1 }

geo_lookup-ipinfo_io_example :
    geo_lookup ipinfo_io (answers (print (obj reply_fields) [])) 200 (text "1")
    ≡ some record (no_info (text "ipinfo.io")) {
      ip = text "1";
      country_code = text "X";
      city = [];
      asn = text "AS7";
      asn_org = text "c";
    }
unfolding own bytes_eq text is_ok starts_with
geo_lookup-ipinfo_io_example =
    geo_lookup-ipinfo_io (answers (print (obj reply_fields) [])) 200 (text "1") (text "AS7")
      (text "c") reply_fields (str (text "1")) (str (text "X")) (str []) (str (text "AS7 c")) refl
      refl (unfold print escape text in omega arith) (unfold last_field in refl)
      (unfold last_field in refl) (unfold last_field in refl) (unfold last_field in refl) refl refl
      refl

geo_lookup-stuck_example : geo_lookup sypex (answers (b'[' ∷ b'}' ∷ text "]")) 90 (text "1") ≡ none
unfolding is_ok
geo_lookup-stuck_example =
    geo_lookup-stuck sypex (answers (b'[' ∷ b'}' ∷ text "]")) 90 (text "1") (text "]") refl refl
