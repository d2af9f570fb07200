-- ===== src/Scan/Frame.antt =====
-- The SYN frames of src/network/tcp_async_scan.cpp, on a little-endian machine: `PseudoHeader`,
-- `SynFrame` and `send_syn_packet`. A frame is the bytes that `sendto` is given.
use bye_bye_vpn.Common.{ℕ, ◌/◌, ◌%◌, Bool, false, [], ◌∷◌, ◌++◌, ◌==◌, Bytes, Option, some, none}
use bye_bye_vpn.Scan.Checksum.{checksum16, word_sum}

-- A field as the program leaves it in memory, and one that went through htons or htonl.
unfoldable pub stored16 : ℕ → Bytes
stored16 n = n % 256 ∷ n / 256 % 256 ∷ []

unfoldable pub stored32 : ℕ → Bytes
stored32 n = n % 256 ∷ n / 256 % 256 ∷ n / 65536 % 256 ∷ n / 16777216 % 256 ∷ []

unfoldable pub htons : ℕ → Bytes
htons n = n / 256 % 256 ∷ n % 256 ∷ []

unfoldable pub htonl : ℕ → Bytes
htonl n = n / 16777216 % 256 ∷ n / 65536 % 256 ∷ n / 256 % 256 ∷ n % 256 ∷ []

-- The addresses are the `s_addr` fields, which are in network order already.
unfoldable pub pseudo_header : ℕ → ℕ → Bytes
unfolding stored32 htons
pseudo_header src dst = stored32 src ++ (stored32 dst ++ (0 ∷ 6 ∷ htons 20))

-- `iphdr` with the bytes of its `check`.
unfoldable pub ip_header : ℕ → ℕ → ℕ → Bytes → Bytes
unfolding stored32 htons
ip_header src dst seq_no check =
    69 ∷ 0 ∷ htons 40
    ++ (htons (seq_no % 65536) ++ (0 ∷ 0 ∷ 64 ∷ 6 ∷ check ++ (stored32 src ++ stored32 dst)))

-- `tcphdr` up to its `check`: the data offset is five words and SYN the only flag.
unfoldable pub tcp_front : ℕ → ℕ → ℕ → Bytes
unfolding htons htonl
tcp_front src_port dst_port seq_no =
    htons src_port ++ (htons dst_port ++ (htonl seq_no ++ (0 ∷ 0 ∷ 0 ∷ 0 ∷ 80 ∷ 2 ∷ htons 64240)))

-- `tcphdr` with the bytes of its `check`, and the urgent pointer behind it.
unfoldable pub tcp_header : ℕ → ℕ → ℕ → Bytes → Bytes
unfolding tcp_front
tcp_header src_port dst_port seq_no check =
    tcp_front src_port dst_port seq_no ++ (check ++ (0 ∷ 0 ∷ []))

-- `frame.ip.check`: the checksum of the header with a zero in its place.
unfoldable pub ip_check : ℕ → ℕ → ℕ → ℕ
unfolding ip_header
ip_check src dst seq_no = checksum16 (ip_header src dst seq_no (0 ∷ 0 ∷ []))

-- `frame.tcp.check`, over `cbuf`.
unfoldable pub tcp_check : ℕ → ℕ → ℕ → ℕ → ℕ → ℕ
unfolding pseudo_header tcp_header
tcp_check src dst src_port dst_port seq_no =
    checksum16 (pseudo_header src dst ++ tcp_header src_port dst_port seq_no (0 ∷ 0 ∷ []))

-- The segment of a frame. Its checksum is stored the way `checksum16` returns it.
unfoldable pub syn_segment : ℕ → ℕ → ℕ → ℕ → ℕ → Bytes
unfolding tcp_check tcp_header stored16
syn_segment src dst src_port dst_port seq_no =
    tcp_header src_port dst_port seq_no (stored16 (tcp_check src dst src_port dst_port seq_no))

unfoldable pub syn_frame : ℕ → ℕ → ℕ → ℕ → ℕ → Bytes
unfolding syn_segment ip_header ip_check stored16
syn_frame src dst src_port dst_port seq_no =
    ip_header src dst seq_no (stored16 (ip_check src dst seq_no))
    ++ syn_segment src dst src_port dst_port seq_no

-- `sendto` gives how many bytes it took, none for -1.
unfoldable pub send_syn_packet : (Bytes → Option ℕ) → ℕ → ℕ → ℕ → ℕ → ℕ → Bool
unfolding syn_frame
send_syn_packet sendto src dst src_port dst_port seq_no =
    elim (sendto (syn_frame src dst src_port dst_port seq_no)) [
      | none ↦ false
      | some sent ↦ sent == 40
    ]

-- The test of a TCP receiver on a segment behind its pseudo header (RFC 9293, 3.1).
unfoldable pub is_accepted : ℕ → ℕ → Bytes → Bool
unfolding pseudo_header
is_accepted src dst segment = word_sum (pseudo_header src dst ++ segment) % 65535 == 0
