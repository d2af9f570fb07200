-- ===== src/Services.antt =====
-- src/network/service_probes.cpp: the probes of HTTP, SSH, SOCKS and CONNECT proxies, each over one
-- connection that is given.
pub mod Proxies
use mathlib.Core.List.{reverse}
use bye_bye_vpn.Common.{
  ℕ, ◌+◌, ◌-◌, ◌*◌, min, Bool, true, false, not, ◌&&◌, ◌||◌, [], ◌∷◌, ◌++◌, Option, none, some,
  ◌==◌, leb, ltb, if◌then◌else◌, length, is_empty, take, drop, Bytes, text, starts_with, find,
  find_byte, is_digit,
}
use bye_bye_vpn.Text.{trim, tolower_s, contains, hex_s, printable_prefix}
use bye_bye_vpn.Report.{FpResult}
use bye_bye_vpn.Sockets.Peer.{Peer, sends}
use bye_bye_vpn.Http.Reply.{three_digits}

-- FpResult f; f.service = …;
abbrev pub unknown : Bytes → FpResult
unknown service = record {
  service = service;
  details = [];
  raw_hex = [];
  is_vpn_like = false;
  silent = false;
}

abbrev pub no_answer : Bytes → FpResult
no_answer service = record (unknown service) { silent = true }

-- A probe that sends and reads once: silent without a connection, a whole request or an answer.
unfoldable pub asked : Peer → Bytes → Bytes → ℕ → (Bytes → FpResult) → FpResult
unfolding sends
asked peer service req max answer =
    let reply = take max (peer.tcp_recv_to max) in
    if not peer.accepts
    then no_answer service
    else if not (sends peer req)
    then no_answer service
    else if is_empty reply
    then no_answer service
    else answer reply

unfoldable pub up_to : ℕ → Bytes → Bytes
up_to c s = elim (find_byte c s) [ none ↦ s | some n ↦ take n s ]

-- The value behind `server:`, up to a carriage return or else a line feed.
unfoldable pub server_value : Bytes → Bytes
unfolding up_to
server_value resp = elim (find (text "server:") (tolower_s resp)) [
  | none ↦ []
  | some sv ↦
      let value = drop (sv + 7) resp in
      trim (elim (find_byte b'\r' value) [ none ↦ up_to b'\n' value | some n ↦ take n value ])
]

-- The remark on a server that often stands in front of a VPN.
unfoldable pub frontend_note : Bytes → Bytes
frontend_note rl =
    if contains rl (text "caddy")
    then text "  %[caddy-fronted - common Xray/Reality fallback]"
    else if contains rl (text "nginx")
    then text "  %[nginx - fallback host?]"
    else if contains rl (text "cloudflare")
    then text "  %[cloudflare]"
    else []

unfoldable pub http_answer : Bytes → FpResult
unfolding server_value frontend_note up_to
http_answer resp =
    let server = server_value resp in
    record (unknown (text "HTTP")) {
      details =
          trim (up_to b'\n' resp)
          ++ ((if is_empty server then [] else text "  | Server: " ++ server)
              ++ frontend_note (tolower_s server));
    }

unfoldable pub fp_http_plain : Peer → Bytes → FpResult
unfolding asked http_answer
fp_http_plain peer host =
    asked peer (text "HTTP?")
      (text "GET / HTTP/1.1\r\nHost: "
        ++ (host ++ text "\r\nAccept: */*\r\nConnection: close\r\n\r\n"))
      2047 http_answer

-- The loop that takes line ends off the back, on the text turned round.
unfoldable pub skip_line_ends : Bytes → Bytes
skip_line_ends [] = []
skip_line_ends (c ∷ s) = if c == b'\r' || c == b'\n' then skip_line_ends s else c ∷ s

-- `b`: the banner that is known, or what the server says first.
unfoldable pub ssh_banner : Peer → Bytes → Bytes
ssh_banner peer banner_hint =
    let reply = take 255 (peer.tcp_recv_to 255) in
    if is_empty banner_hint || not (starts_with banner_hint (text "SSH-"))
    then (if peer.accepts && not (is_empty reply) then reply else banner_hint)
    else banner_hint

unfoldable pub fp_ssh : Peer → Bytes → FpResult
unfolding skip_line_ends ssh_banner
fp_ssh peer banner_hint =
    let b = ssh_banner peer banner_hint in
    if starts_with b (text "SSH-")
    then record (unknown (text "SSH")) { details = reverse (skip_line_ends (reverse b)) }
    else record (unknown (text "SSH?")) { details = text "no SSH banner (but port open)" }

abbrev method_note : ℕ → Bytes
method_note m =
    if m == 0x00
    then text " (no-auth)"
    else if m == 0x02
    then text " (user/pass)"
    else if m == 0xff
    then text " (no acceptable)"
    else []

-- A reply that is not empty.
unfoldable pub socks_answer : Bytes → FpResult
socks_answer [] = unknown (text "SOCKS?")
socks_answer (v ∷ rest) =
    if v == 0x05
    then elim rest [
      | [] ↦ record (unknown (text "SOCKS5")) {
        details = text "short greeting";
        is_vpn_like = true;
      }
      | m ∷ more ↦ record (unknown (text "SOCKS5")) {
        details = text "methods=0x" ++ (hex_s (m ∷ []) false ++ method_note m);
        is_vpn_like = true;
      }
    ]
    else if v == 0x04
    then record (unknown (text "SOCKS4")) { is_vpn_like = true }
    else record (unknown (text "SOCKS?")) {
      details = text "reply=" ++ hex_s (take (min 4 (length (v ∷ rest))) (v ∷ rest)) false;
    }

unfoldable pub fp_socks5 : Peer → FpResult
unfolding asked socks_answer
fp_socks5 peer = asked peer (text "SOCKS?") (0x05 ∷ 0x02 ∷ 0x00 ∷ 0x02 ∷ []) 8 socks_answer

-- `status`: the number of three digits behind the first space, or 0.
unfoldable pub connect_status : Bytes → ℕ
unfolding up_to
connect_status first = elim (find_byte b' ' first) [
  | none ↦ 0
  | some p1 ↦
      if ltb (p1 + 1) (length first)
      then elim (three_digits (up_to b' ' (drop (p1 + 1) first))) [ none ↦ 0 | some n ↦ n ]
      else 0
]

unfoldable pub connect_answer : Bytes → FpResult
unfolding connect_status up_to
connect_answer resp =
    let first = trim (up_to b'\n' resp) in
    let status = connect_status first in
    if not (starts_with first (text "HTTP/"))
    then record (unknown (text "HTTP-PROXY?")) { details = printable_prefix first 80 }
    else if status == 200 || status == 201 || status == 202
    then record (unknown (text "HTTP-PROXY")) { details = first; is_vpn_like = true }
    else record (unknown (text "HTTP-CONNECT-DENY")) { details = first }

unfoldable pub connect_request : Bytes
connect_request =
    text
      "CONNECT example.com:443 HTTP/1.1\r\nHost: example.com:443\r\nProxy-Connection: keep-alive\r\n\r\n"

unfoldable pub fp_http_connect : Peer → FpResult
unfolding asked connect_answer connect_request
fp_http_connect peer = asked peer (text "HTTP-PROXY?") connect_request 511 connect_answer
