-- ===== src/Scan/Kernel.antt =====
-- The system calls that `scan_connect_worker_epoll` makes, as parameters. A call is numbered by the
-- calls before it, and sees the descriptors that the worker holds, so that a kernel may answer every
-- call differently.
use bye_bye_vpn.Common.{ℕ, Bool, false, List, ◌≡◌, ◌==◌, Option, some, any}

-- What `connect` and the calls around it answer for a new socket.
pub record ConnectReply : Type 0 where
  pub fd : ℕ
  pub connected : Bool
  pub elapsed_ms : ℕ
  pub err : ℕ
  pub registered : Bool

-- The error numbers that the worker compares with.
pub record Errno : Type 0 where
  pub einprogress : ℕ
  pub ealready : ℕ
  pub ewouldblock : ℕ
  pub econnrefused : ℕ

pub record Kernel : Type 0 where
  pub errno : Errno
  -- `socket` and `connect`; `none` is INVALID_SOCKET.
  pub connect : ℕ → List ℕ → ℕ → Option ConnectReply
  -- `epoll_wait`: descriptors, each with its SO_ERROR.
  pub epoll_wait : ℕ → List ℕ → List (ℕ × ℕ)
  -- steady_clock, in milliseconds
  pub now : ℕ → ℕ
  -- stop_flag.load()
  pub stop : ℕ → Bool
  -- A new descriptor is none that is still open.
  pub connect_fresh :
      (call : ℕ) (fds : List ℕ) (port : ℕ) (r : ConnectReply)
      → connect call fds port ≡ some r
      → any (λ fd. fd == r.fd) fds ≡ false
