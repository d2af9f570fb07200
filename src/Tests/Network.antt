-- ===== src/Tests/Network.antt =====
-- Name resolution, blocking sockets and the HTTPS probe on short inputs (src/network/dns.cpp,
-- src/network/tcp_scanner.cpp, src/network/https_probe.cpp).
use bye_bye_vpn.Common.{
  map, List, ℕ, true, false, [], ◌∷◌, ◌++◌, Option, none, some, inr, ◌≡◌, refl, length, Bytes, text,
  pos, ◌==◌, arith, if◌then◌else◌, bytes_eq, starts_with, find, to_lower,
}
use bye_bye_vpn.Text.{trim, tolower_s, skip_space}
use bye_bye_vpn.Dns.{Entry, inet, inet6, System, resolve_host}
use bye_bye_vpn.Dns.Order.{IsResolved, resolve_host-IsResolved}
use bye_bye_vpn.Sockets.Connect
use bye_bye_vpn.Sockets.Connect.{
  Address, Network, tcp_connect, timed_out, writable, attempt, is_refused_error,
  is_would_block_error, order, connected,
}
use bye_bye_vpn.Sockets.Answers.{
  preferred, ipv4_of, ipv6_of, accepts, refuses, keeps_silent, later, sockets,
}
use bye_bye_vpn.Sockets.Ends.{tcp_connect-failed, tcp_connect-connected}
use bye_bye_vpn.Sockets.Send.{tcp_send_all, tcp_send_all-front, tcp_send_all-whole}
use bye_bye_vpn.Http.Client.{World, got, closed}
use bye_bye_vpn.Https.{get_header, https_probe}
use bye_bye_vpn.Https.Headers.{get_header-line}
use bye_bye_vpn.Https.Lines.{header_of, first_line}
use bye_bye_vpn.Https.Leaks.{
  IsUp, joined, has_header, proxy_headers, cdn_headers, https_probe-leaks,
}

-- An address twice, one of each family, and one that cannot be printed.
abbrev entries : List Entry
entries =
    record { family = inet6; ip = text "::1" }
    ∷ record { family = inet; ip = text "10.0.0.1" }
    ∷ record { family = inet; ip = [] }
    ∷ record { family = inet; ip = text "10.0.0.1" }
    ∷ []

abbrev resolver : System
resolver = record {
  is_ipv4 = λ host. false;
  is_ipv6 = λ host. false;
  getaddrinfo = λ host. inr entries;
  elapsed_ms = 1;
}

resolve_host-IsResolved_example : IsResolved entries (resolve_host resolver (text "a.io"))
resolve_host-IsResolved_example =
    resolve_host-IsResolved resolver (text "a.io") entries refl refl refl

abbrev first_address : Address
first_address = record { family = Connect.inet6; addr = text "::1" }

abbrev second_address : Address
second_address = record { family = Connect.inet; addr = text "10.0.0.1" }

-- Socket 3 for IPv4 does not answer in time; socket 4 for IPv6 is refused by `refusal`, or connects.
abbrev network : Option ℕ → Network
network refusal = record {
  getaddrinfo = λ host port. some (first_address ∷ second_address ∷ []);
  socket = λ a. if bytes_eq a.addr (text "::1") then some 4 else some 3;
  connect = λ s a. if s == 3 then some 115 else refusal;
  select = λ s timeout_ms. timed_out;
}

tcp_connect-failed_example :
    tcp_connect (network (some 111)) (text "a.io") 443 1500
    ≡ record { socket = none; err = text "refused"; closed = 3 ∷ 4 ∷ [] }
unfolding bytes_eq text preferred ipv4_of ipv6_of accepts refuses keeps_silent later sockets
tcp_connect-failed_example =
    tcp_connect-failed (network (some 111)) (text "a.io") 443 1500
      (first_address ∷ second_address ∷ []) refl refl

tcp_connect-connected_example :
    tcp_connect (network none) (text "a.io") 443 1500
    ≡ record { socket = some 4; err = []; closed = 3 ∷ [] }
unfolding bytes_eq text preferred ipv4_of ipv6_of accepts refuses keeps_silent later sockets
tcp_connect-connected_example =
    tcp_connect-connected (network none) (text "a.io") 443 1500
      (first_address ∷ second_address ∷ []) (second_address ∷ []) [] first_address 4 refl refl refl
      refl refl

-- Two bytes, then an error.
tcp_send_all-front_example :
    (rest : Bytes) × (((tcp_send_all
            (λ call left. if call == 0 then pos 2 else pos 0)
            (text "abc")).bytes
          ++ rest
        ≡ text "abc")
      × ((tcp_send_all (λ call left. if call == 0 then pos 2 else pos 0) (text "abc")).result
            ≡ pos (length (text "abc"))
          → rest ≡ []))
tcp_send_all-front_example =
    tcp_send_all-front (λ call left. if call == 0 then pos 2 else pos 0) (text "abc")

tcp_send_all-whole_example :
    tcp_send_all (λ call left. pos 1) (text "abc") ≡ record { result = pos 3; bytes = text "abc" }
unfolding text
tcp_send_all-whole_example =
    tcp_send_all-whole (λ call left. pos 1) (text "abc") (λ call left. (0, refl))

-- The header stands in the page, behind the blank line.
abbrev page_start : Bytes
page_start = text "HTTP/1.1 200 OK\r\n\r\n<pre>"

get_header-line_example :
    get_header
      (page_start ++ b'\n' ∷ (text "VIA" ++ b':' ∷ (text " x" ++ b'\n' ∷ text "</pre>")))
      (tolower_s
        (page_start ++ b'\n' ∷ (text "VIA" ++ b':' ∷ (text " x" ++ b'\n' ∷ text "</pre>"))))
      (text "Via")
    ≡ trim (text " x")
unfolding text starts_with find tolower_s to_lower
get_header-line_example =
    get_header-line page_start (text "VIA") (text " x") (text "</pre>") (text "Via") refl refl refl
      refl

abbrev reply_pieces : List Bytes
reply_pieces = text "HTTP/1.1 204 No Content\r\nvi" ∷ text "a: x\r\n\r\n" ∷ []

abbrev server : World
server = record {
  init_error = none;
  connect_error = λ host port. none;
  ssl_ctx_new = true;
  load = λ path. true;
  default_paths = false;
  ssl_new = true;
  attach_error = none;
  set_sni = λ host. true;
  get_param = true;
  set_ip = λ host. false;
  set_host = λ host. true;
  ssl_connect_error = none;
  verify_result = 0;
  ssl_write = λ req. pos (length req);
  ssl_write_error = [];
  tcp_send_all = λ req. pos (length req);
  last_error = 0;
  reads = map got reply_pieces ++ closed ∷ [];
  elapsed = 3;
}

server-IsUp : IsUp server (text "10.0.0.1") 443 []
server-IsUp = record {
  initialised = refl;
  reached = refl;
  has_context = refl;
  has_ssl = refl;
  attached = refl;
  named = refl;
  shaken = refl;
  written = λ request. refl;
}

-- In two pieces, the header's name in lower case.
https_probe-leaks_example :
    let r = https_probe server (text "10.0.0.1") 443 [] in
    let reply = joined reply_pieces in
    (r.tls_ok ≡ true)
    × (r.responded ≡ true)
    × (r.bytes ≡ length reply)
    × (r.has_proxy_leak ≡ has_header reply proxy_headers)
    × (r.has_cdn_hdr ≡ has_header reply cdn_headers)
unfolding joined text
https_probe-leaks_example =
    https_probe-leaks server (text "10.0.0.1") 443 [] reply_pieces [] server-IsUp refl (omega arith)
      (omega arith) refl

leak_test : has_header (joined reply_pieces) proxy_headers ≡ true
unfolding joined text header_of first_line tolower_s to_lower starts_with trim skip_space
leak_test = refl
