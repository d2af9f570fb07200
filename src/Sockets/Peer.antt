-- ===== src/Sockets/Peer.antt =====
-- One blocking connection, as the probes use it: what `tcp_connect`, `tcp_send_all` and `tcp_recv_to` give.
use bye_bye_vpn.Common.{ℕ, Bool, ◌&&◌, Bytes, ℤ, pos, leb_ℤ, length}

pub record Peer : Type 0 where
  pub accepts : Bool
  pub tcp_send_all : Bytes → ℤ
  -- at most so many bytes; none for an error, a timeout and the end of the stream
  pub tcp_recv_to : ℕ → Bytes
  pub elapsed_ms : ℕ

-- tcp_send_all(s, req.data(), req.size()) == req.size()
unfoldable pub sends : Peer → Bytes → Bool
sends peer req =
    leb_ℤ (peer.tcp_send_all req) (pos (length req))
    && leb_ℤ (pos (length req)) (peer.tcp_send_all req)
