-- ===== src/Lib.antt =====
-- ByeByeVPN profiles a remote host: it scans its TCP ports, probes what answers, and concludes how
-- much the host looks like a VPN. This library models the program's own logic. Paths are those of the repository.
--
-- How the parts interact: `main_impl` (src/main.cpp) reads the command line into globals and calls
-- `run_full_target` (src/cli/orchestrator.cpp). That asks `build_tcp_ports` for a port list, has
-- `scan_tcp_async` scan it, probes every open port (TLS, SNI, HTTPS, CT, junk), and reduces all
-- evidence to a score, a label and a tier.
--
-- - Common: Boolean tests, lists, integers and byte strings over the native numbers.
-- - Text: src/core/utils.cpp (the string utilities) and `printable_prefix`; strings are byte lists.
-- - Brand: src/analysis/brand_cert.cpp, with its table in Brand.Table.
-- - Report: the structs in which the probes return their results.
-- - Verdict: phase 7 of `run_full_target`. Verdict.Cdn is `looks_like_cdn_lb`, Verdict.Book the
--   `ScoreBook`, Verdict.Blocks the loop over the open ports with its locals in the record Tally,
--   Verdict.Outcome the score, label, stack and tier. Verdict.Rules states the rules on their own,
--   as a table of conditions and weights.
-- - Scan: src/network/tcp_async_scan.cpp. Scan.Worker is `scan_connect_worker_epoll`; its state is a
--   record, and the system calls are the record Scan.Kernel.Kernel, which may answer every call
--   differently. Scan.Pool is `run_connect_scan_with_pool` and the connect path of `scan_tcp_async`.
--   Scan.Frame builds the frames of the SYN scanner and Scan.Syn is its loop.
-- - PortScan, Sni, Ct, J3, Cli: src/network/port_scan.cpp, src/analysis/sni_consistency.cpp,
--   src/analysis/ct_check.cpp, src/network/j3_probes.cpp (J3.Probes the probes, J3 the analysis), and the argument loop of
--   src/main.cpp.
-- - Json: the reader of src/core/utils.cpp; Json.Print is a printer for it.
-- - Http: src/network/http_client.cpp. Http.Url is the URL, Http.Client the exchange, over the record World
--   of what OpenSSL and the sockets return, Http.Reply the reply.
-- - Https, Dns, Geo: src/network/https_probe.cpp, src/network/dns.cpp, src/analysis/geoip.cpp.
-- - Sockets: src/network/tcp_scanner.cpp; Sockets.Connect is `tcp_connect`, Sockets.Send `tcp_send_all`;
--   Sockets.Peer is one connection as the probes use it.
-- - Brand.Claims, Brand.Names, Http.Ports, Http.Sizes, Https.Lines, Json.Strings, Sockets.Answers: what a name, a port, the
--   size of a chunk, a header, a code point and the answer of a network are, apart from the code.
-- - Udp, Services: src/network/udp_scanner.cpp with src/network/vpn_probes.cpp, and
--   src/network/service_probes.cpp.
-- - Tests: runs of the code and the theorems at concrete inputs.
--
-- Bounds and fuel. The worker's outer loop takes one unit of fuel a round; on a kernel whose clock
-- moves on, `ports * (timeout + 2) + 1` units are enough. The collector's loop ends
-- two looks after all futures are ready. `fold_carries` needs two rounds and has three; `ports_from`
-- has one unit for each port. An `int` that is never negative is a natural number; the score, which
-- falls below 0, is an integer; the 32-bit sum of `checksum16` wraps. The JSON validator of Ct has two
-- units of fuel a byte: two calls in a row take at least one byte. The JSON reader has a fuel of its
-- caller's choice, since its loops do not end on every text; for a printed value the length of the text
-- is enough. `decode_chunks`, `unescape` and `tcp_send_all` have one unit a byte.
--
-- Assumed of the operating system: `socket` returns no descriptor that is still open (the field
-- `connect_fresh`), and, for termination only, the clock does not run backwards, moves on when
-- `epoll_wait` times out, and `epoll_wait` reports only descriptors that are watched.
--
-- Not modelled: the Windows code, OpenSSL, the TLS probe, and printing.
pub mod Common
pub mod Text
pub mod Brand
pub mod Report
pub mod Verdict
pub mod Scan
pub mod PortScan
pub mod J3
pub mod Sni
pub mod Cli
pub mod Ct
pub mod Tests
pub mod Json
pub mod Http
pub mod Geo
pub mod Dns
pub mod Sockets
pub mod Https
pub mod Udp
pub mod Services
