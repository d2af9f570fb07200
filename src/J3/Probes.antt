-- ===== src/J3/Probes.antt =====
-- src/network/j3_probes.cpp: the eight probes. The connections and RAND_bytes are given.
use bye_bye_vpn.Common.{
  ℕ, ◌+◌, ◌-◌, ◌%◌, min, Bool, true, false, not, ◌&&◌, List, [], ◌∷◌, ◌++◌, map, Option, none, some,
  leb, if◌then◌else◌, length, is_empty, take, drop, replicate, Bytes, text, find, find_byte, within,
}
use bye_bye_vpn.Text.{trim, hex_s}
use bye_bye_vpn.Report.{J3Result}
use bye_bye_vpn.Sockets.Peer.{Peer, sends}
use bye_bye_vpn.Udp.{Random, write_at}

-- J3Result r; r.name = …;
abbrev no_reply : Bytes → J3Result
no_reply name = record {
  name = name;
  responded = false;
  bytes = 0;
  first_line = [];
  hex_head = [];
  ms = 0;
}

abbrev up_to_line_end : Bytes → Bytes
up_to_line_end raw = elim (find_byte b'\n' raw) [ none ↦ raw | some n ↦ take n raw ]

unfoldable pub j3_send : Peer → Bytes → Bytes → Bool → J3Result
unfolding sends
j3_send peer name message close_after_send =
    let raw = take 1023 (peer.tcp_recv_to 1023) in
    if not peer.accepts
    then no_reply name
    else if not (is_empty message) && not (sends peer message)
    then no_reply name
    else if close_after_send
    then no_reply name
    else if is_empty raw
    then record (no_reply name) { ms = peer.elapsed_ms }
    else record {
      name = name;
      responded = true;
      bytes = length raw;
      first_line = trim (up_to_line_end raw);
      hex_head = hex_s (take (min 16 (length raw)) raw) true;
      ms = peer.elapsed_ms;
    }

-- Probe 1 sends nothing.
unfoldable pub empty_close : Peer → J3Result
empty_close peer =
    let raw = take 127 (peer.tcp_recv_to 127) in
    if not peer.accepts
    then no_reply (text "empty/close")
    else if is_empty raw
    then no_reply (text "empty/close")
    else record {
      name = text "empty/close";
      responded = true;
      bytes = length raw;
      first_line = map (λ c. if within 32 126 c then c else b'.') raw;
      hex_head = hex_s (take (min 16 (length raw)) raw) true;
      ms = 0;
    }

-- kHello: what stands before its 32 random bytes, and what stands behind them.
unfoldable pub hello_front : Bytes
hello_front = 0x16 ∷ 0x03 ∷ 0x01 ∷ 0x00 ∷ 0x70 ∷ 0x01 ∷ 0x00 ∷ 0x00 ∷ 0x6c ∷ 0x03 ∷ 0x03 ∷ []

-- Session, ciphers, compression, the length of the extensions, and the name up to its three letters.
unfoldable pub hello_middle : Bytes
hello_middle =
    0x00 ∷ 0x00 ∷ 0x02 ∷ 0x13 ∷ 0x02 ∷ 0x01 ∷ 0x00 ∷ 0x00 ∷ 0x41 ∷ 0x00 ∷ 0x00 ∷ 0x00 ∷ 0x10 ∷ 0x00
    ∷ 0x0e ∷ 0x00 ∷ 0x00 ∷ 0x0b ∷ []

-- The name behind its three letters, and the other extensions.
unfoldable pub hello_back : Bytes
hello_back =
    b'.' ∷ b'i' ∷ b'n' ∷ b'v' ∷ b'a' ∷ b'l' ∷ b'i' ∷ b'd' ∷ 0x00 ∷ 0x10 ∷ 0x00 ∷ 0x0b ∷ 0x00 ∷ 0x09
    ∷ 0x08 ∷ b'h' ∷ b't' ∷ b't' ∷ b'p' ∷ b'/' ∷ b'1' ∷ b'.' ∷ b'1' ∷ 0x00 ∷ 0x0b ∷ 0x00 ∷ 0x02
    ∷ 0x01 ∷ 0x00 ∷ 0x00 ∷ 0x0a ∷ 0x00 ∷ 0x04 ∷ 0x00 ∷ 0x02 ∷ 0x00 ∷ 0x1d ∷ 0x00 ∷ 0x0d ∷ 0x00
    ∷ 0x0a ∷ 0x00 ∷ 0x08 ∷ 0x04 ∷ 0x01 ∷ 0x05 ∷ 0x01 ∷ 0x08 ∷ 0x07 ∷ 0x08 ∷ 0x08 ∷ 0x00 ∷ 0x2b
    ∷ 0x00 ∷ 0x03 ∷ 0x02 ∷ 0x03 ∷ 0x04 ∷ 0x00 ∷ 0x33 ∷ 0x00 ∷ 0x02 ∷ 0x00 ∷ 0x00 ∷ []

unfoldable pub k_hello : Bytes
unfolding hello_front hello_middle hello_back
k_hello = hello_front ++ (replicate 32 0 ++ (hello_middle ++ (replicate 3 0 ++ hello_back)))

-- The loop that looks for `.invalid` behind the random bytes, and the three letters before it.
unfoldable pub randomize_sni : Random → Bytes → Bytes
unfolding write_at
randomize_sni rand hello = elim (find (text ".invalid") (drop 43 hello)) [
  | none ↦ hello
  | some n ↦ elim (rand 2 3) [
    | none ↦ hello
    | some r ↦
        if leb (43 + n + 11) (length hello)
        then write_at (43 + n - 3) (map (λ c. b'a' + c % 26) r) hello
        else hello
  ]
]

unfoldable pub client_hello : Random → Option Bytes
unfolding write_at randomize_sni k_hello
client_hello rand = elim (rand 1 32) [
  | none ↦ none
  | some bytes ↦ some (randomize_sni rand (write_at 11 bytes k_hello))
]

abbrev when_some : Option Bytes → (Bytes → J3Result) → List J3Result
when_some none send = []
when_some (some message) send = send message ∷ []

unfoldable pub http_get_probe : Bytes → Bytes
http_get_probe host =
    text "GET / HTTP/1.1\r\nHost: "
    ++ (host ++ text "\r\nUser-Agent: curl/8.4.0\r\nAccept: */*\r\n\r\n")

-- One connection a probe, numbered as in the source; a probe whose random bytes fail is left out.
unfoldable pub j3_probes : (ℕ → Peer) → Random → Bytes → List J3Result
unfolding j3_send empty_close http_get_probe client_hello
j3_probes peers rand host =
    (empty_close (peers 1)
      ∷ j3_send (peers 2) (text "HTTP GET /") (http_get_probe host) false
      ∷ j3_send (peers 3) (text "HTTP CONNECT")
          (text "CONNECT 1.2.3.4:443 HTTP/1.1\r\nHost: 1.2.3.4\r\n\r\n") false
      ∷ j3_send (peers 4) (text "SSH banner") (text "SSH-2.0-OpenSSH_8.9p1\r\n") false
      ∷ [])
    ++ (when_some (rand 0 512) (λ message. j3_send (peers 5) (text "random 512B") message false)
        ++ (when_some (client_hello rand)
              (λ message. j3_send (peers 6) (text "TLS CH invalid-SNI") message false)
            ++ (j3_send (peers 7) (text "HTTP abs-URI (proxy-style)")
                  (text "GET http://example.com/ HTTP/1.1\r\nHost: example.com\r\n\r\n") false
                ∷ j3_send (peers 8) (text "0xFF x128") (replicate 128 0xff) false
                ∷ [])))
