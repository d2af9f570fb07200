-- ===== src/Tests/Probes.antt =====
-- The UDP, junk and service probes on short inputs (src/network/udp_scanner.cpp, src/network/vpn_probes.cpp,
-- src/network/j3_probes.cpp, src/network/service_probes.cpp).
use bye_bye_vpn.Common.{
  ◌+◌, true, not, ◌&&◌, [], ◌∷◌, ◌++◌, none, some, inl, ◌≡◌, refl, arith, min, length,
  length-replicate, replicate, drop, take, find, Bytes, text, pos, starts_with, find_byte,
}
use bye_bye_vpn.Text.{trim, skip_space}
use bye_bye_vpn.Sockets.Connect.{inet6}
use bye_bye_vpn.Sockets.Peer.{Peer, sends}
use bye_bye_vpn.Udp.{
  Random, UdpSystem, udp_probe, amneziawg_packet, junk_prefix, fill_random, write_at,
}
use bye_bye_vpn.Udp.Errors.{IsEnded, udp_probe-IsEnded}
use bye_bye_vpn.Udp.Packets.{Fills, IsHandshake, amneziawg_packet-IsHandshake}
use bye_bye_vpn.J3.Probes.{
  client_hello, hello_front, hello_middle, hello_back, k_hello, randomize_sni,
}
use bye_bye_vpn.J3.Hello.{length_field, client_hello-lengths}
use bye_bye_vpn.Http.Reply.{three_digits}
use bye_bye_vpn.Services.{fp_socks5, fp_http_connect, connect_request, up_to}
use bye_bye_vpn.Services.Proxies.{answers, greet, is_socks, fp_socks5_lem, fp_http_connect-status}

-- Only an IPv6 address, and nothing comes back from it.
abbrev udp_system : UdpSystem
udp_system = record {
  getaddrinfo = some (record { family = inet6; addr = text "::1" } ∷ []);
  socket = λ a. true;
  connect = λ a. none;
  send = λ payload. pos (length payload);
  recv = inl 111;
  elapsed_ms = 2;
}

udp_probe-IsEnded_example : IsEnded (udp_probe udp_system (text "x"))
udp_probe-IsEnded_example = udp_probe-IsEnded udp_system (text "x")

abbrev sevens : Random
sevens call size = some (replicate size 7)

sevens-Fills : Fills sevens
sevens-Fills call size bytes h =
    let same : replicate size 7 ≡ bytes = ground (arith, h) in rw (← same) (length-replicate size 7)

abbrev sevens_packet : Bytes
sevens_packet = (7 ∷ 7 ∷ []) ++ ((1 ∷ 0 ∷ 0 ∷ 0 ∷ []) ++ (replicate 140 7 ++ replicate 4 0))

amneziawg_packet-IsHandshake_example :
    (junk : Bytes) × ((length junk ≡ min 2 64) × IsHandshake junk sevens_packet)
unfolding amneziawg_packet junk_prefix fill_random write_at
amneziawg_packet-IsHandshake_example =
    amneziawg_packet-IsHandshake sevens 2 sevens_packet sevens-Fills refl

-- The letters of the name are all 'a' + 7.
abbrev sevens_hello : Bytes
sevens_hello = hello_front ++ (replicate 32 7 ++ (hello_middle ++ (replicate 3 0x68 ++ hello_back)))

client_hello-lengths_example :
    (length sevens_hello ≡ 128)
    × ((5 + length_field 2 0 (drop 3 sevens_hello) ≡ 117)
        × (9 + length_field 3 0 (drop 6 sevens_hello) ≡ 117))
unfolding client_hello randomize_sni k_hello write_at text starts_with find
client_hello-lengths_example = client_hello-lengths sevens sevens_hello sevens-Fills refl

-- A proxy that answers everything with the same line.
abbrev proxy : Peer
proxy = record {
  accepts = true;
  tcp_send_all = λ req. pos (length req);
  tcp_recv_to = λ max. text "HTTP/1.1 200 OK\r\n\r\n";
  elapsed_ms = 4;
}

fp_socks5_lem_example :
    ((fp_socks5 proxy).silent ≡ not (answers proxy greet 8))
    × ((fp_socks5 proxy).is_vpn_like
        ≡ answers proxy greet 8 && is_socks (take 8 (proxy.tcp_recv_to 8)))
fp_socks5_lem_example = fp_socks5_lem proxy

fp_http_connect-status_example :
    ((fp_http_connect proxy).is_vpn_like ≡ true)
    × ((fp_http_connect proxy).details ≡ text "HTTP/1.1" ++ b' ' ∷ (text "200" ++ b' ' ∷ text "OK"))
unfolding text starts_with find_byte up_to trim skip_space three_digits sends connect_request
fp_http_connect-status_example =
    fp_http_connect-status proxy (text "HTTP/1.1") (text "200") (text "OK") 200 refl refl refl refl
      refl refl refl
