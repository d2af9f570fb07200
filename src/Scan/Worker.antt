-- ===== src/Scan/Worker.antt =====
-- `scan_connect_worker_epoll` of src/network/tcp_async_scan.cpp. The map `active` is a list of its
-- entries, `next_idx` the list of the ports that are left, and the two shared counters are this
-- worker's share of them.
pub mod Launches
pub mod Accounts
pub mod Ports
pub mod Ends
use bye_bye_vpn.Common.{
  ℕ, zero, suc, ◌+◌, ◌-◌, Bool, true, false, not, ◌&&◌, ◌||◌, List, [], ◌∷◌, ◌++◌, map, Option,
  none, some, ◌==◌, ltb, leb, if◌then◌else◌, any, find_if, length, is_empty,
}
use bye_bye_vpn.Report.{TcpOpen}
use bye_bye_vpn.Scan.Kernel.{ConnectReply, Errno, Kernel}

pub record WorkerResult : Type 0 where
  pub open_ports : List TcpOpen
  pub scanned : ℕ
  pub timeouts : ℕ
  pub refused : ℕ
  pub other : ℕ
  pub aborted : Bool

abbrev pub empty_result : WorkerResult
empty_result = record {
  open_ports = [];
  scanned = 0;
  timeouts = 0;
  refused = 0;
  other = 0;
  aborted = false;
}

-- An entry of `active`: the descriptor and its PendingConnect.
pub record Pending : Type 0 where
  pub fd : ℕ
  pub port : ℕ
  pub started : ℕ

pub record State : Type 0 where
  pub out : WorkerResult
  pub active : List Pending
  pub next : List ℕ
  pub global_scanned : ℕ
  pub global_open : ℕ
  pub calls : ℕ

abbrev pub fds_of : List Pending → List ℕ
fds_of = map λ c. c.fd

abbrev pub start_state : List ℕ → State
start_state ports = record {
  out = empty_result;
  active = [];
  next = ports;
  global_scanned = 0;
  global_open = 0;
  calls = 0;
}

unfoldable pub is_connect_in_progress_error : Errno → ℕ → Bool
is_connect_in_progress_error e err =
    err == e.einprogress || err == e.ealready || err == e.ewouldblock

unfoldable pub is_refused_error : Errno → ℕ → Bool
is_refused_error e err = err == e.econnrefused

-- What a socket came to: one of the counters goes up and the port is marked done.
pub data Fate : Type 0 where
  is_open : ℕ → Fate
  timed_out : Fate
  is_refused : Fate
  is_other : Fate

unfoldable pub failure : Errno → ℕ → Fate
failure e err = if is_refused_error e err then is_refused else is_other

-- The update of `out` for one port, `mark_done` included.
unfoldable pub record_fate : ℕ → Fate → State → State
record_fate port (is_open ms) s = record s {
  out = record (s.out) {
    open_ports =
        s.out.open_ports ++ record { port = port; connect_ms = ms; banner = []; err = [] } ∷ [];
    scanned = s.out.scanned + 1;
  };
  global_scanned = s.global_scanned + 1;
  global_open = s.global_open + 1;
}
record_fate port timed_out s = record s {
  out = record (s.out) { timeouts = s.out.timeouts + 1; scanned = s.out.scanned + 1 };
  global_scanned = s.global_scanned + 1;
}
record_fate port is_refused s = record s {
  out = record (s.out) { refused = s.out.refused + 1; scanned = s.out.scanned + 1 };
  global_scanned = s.global_scanned + 1;
}
record_fate port is_other s = record s {
  out = record (s.out) { other = s.out.other + 1; scanned = s.out.scanned + 1 };
  global_scanned = s.global_scanned + 1;
}

abbrev pub tick : State → State
tick s = record s { calls = s.calls + 1 }

-- active.emplace: an entry under the same descriptor would stay.
unfoldable pub emplace : Pending → List Pending → List Pending
emplace c active = if any (λ (x : Pending). x.fd == c.fd) active then active else active ++ c ∷ []

-- active.erase
unfoldable pub erase : ℕ → List Pending → List Pending
erase fd [] = []
erase fd (c ∷ active) = if c.fd == fd then active else c ∷ erase fd active

unfoldable pub find_pending : ℕ → List Pending → Option Pending
find_pending fd active = find_if (λ (c : Pending). c.fd == fd) active

module _ (k : Kernel) where
  -- After `connect`: the port is decided, or its socket waits in `active`.
  unfoldable pub launch_reply : ℕ → ConnectReply → State → State
  launch_reply port r s =
      if r.connected
      then record_fate port (is_open r.elapsed_ms) s
      else if not (is_connect_in_progress_error k.errno r.err)
      then record_fate port (failure k.errno r.err) s
      else if not r.registered
      then record_fate port is_other s
      else record s {
        active = emplace (record { fd = r.fd; port = port; started = k.now s.calls }) s.active;
      }

  unfoldable pub launch_connect : ℕ → State → State
  launch_connect port s = tick (elim (k.connect s.calls (fds_of s.active) port) [
    | none ↦ record_fate port is_other s
    | some r ↦ launch_reply port r s
  ])

  -- The inner loop: launch while ports are left, the worker has room and nobody says stop.
  unfoldable pub fill : ℕ → List ℕ → State → State
  fill max_inflight [] s = record s { next = [] }
  fill max_inflight (port ∷ ports) s =
      let rest = fill max_inflight ports (launch_connect port s) in
      if ltb (length s.active) max_inflight && not (k.stop s.calls)
      then rest
      else record s { next = port ∷ ports }

  -- One event of epoll_wait, with the SO_ERROR of its socket.
  unfoldable pub handle_event : ℕ → ℕ × ℕ → State → State
  handle_event now (fd, se) s = elim (find_pending fd s.active) [
    | none ↦ s
    | some c ↦
        record_fate c.port (if se == 0 then is_open (now - c.started) else failure k.errno se)
          (record s { active = erase fd s.active })
  ]

  unfoldable pub handle_events : ℕ → List (ℕ × ℕ) → State → State
  handle_events now [] s = s
  handle_events now (e ∷ events) s = handle_events now events (handle_event now e s)

  -- One entry of `active`: it has waited for `timeout_ms`, or it stays.
  unfoldable pub expire : ℕ → ℕ → Pending → State → State
  expire timeout_ms now c s =
      if leb timeout_ms (now - c.started)
      then record_fate c.port timed_out s
      else record s { active = s.active ++ c ∷ [] }

  -- The loop over `active`.
  unfoldable pub sweep : ℕ → ℕ → List Pending → State → State
  sweep timeout_ms now [] s = s
  sweep timeout_ms now (c ∷ active) s = sweep timeout_ms now active (expire timeout_ms now c s)

  -- What follows epoll_wait in the body of the outer loop.
  unfoldable pub settle : ℕ → List (ℕ × ℕ) → State → State
  settle timeout_ms events s =
      let now = k.now s.calls in
      let s1 = handle_events now events s in
      sweep timeout_ms now s1.active (record s1 { active = [] })

  unfoldable pub wait : ℕ → State → State
  wait timeout_ms s = settle timeout_ms (k.epoll_wait s.calls (fds_of s.active)) (tick s)

  -- The body of the outer loop.
  unfoldable pub round : ℕ → ℕ → State → State
  round timeout_ms max_inflight s =
      let s1 = fill max_inflight s.next s in if is_empty s1.active then s1 else wait timeout_ms s1

  unfoldable pub running : State → Bool
  running s = (not (is_empty s.next) || not (is_empty s.active)) && not (k.stop s.calls)

  -- The outer loop, on fuel.
  unfoldable pub loop : ℕ → ℕ → ℕ → State → Option State
  loop zero timeout_ms max_inflight s = none
  loop (suc fuel) timeout_ms max_inflight s = elim (running s) [
    | true ↦ loop fuel timeout_ms max_inflight (round timeout_ms max_inflight s)
    | false ↦ some s
  ]

  abbrev pub finish : State → WorkerResult
  finish s = record (s.out) { aborted = k.stop s.calls }

  -- The whole worker; `epfd_ok` says whether epoll_create1 gave a descriptor.
  unfoldable pub scan_connect_worker : ℕ → Bool → List ℕ → ℕ → ℕ → Option WorkerResult
  scan_connect_worker fuel epfd_ok ports timeout_ms max_inflight =
      let run = loop fuel timeout_ms max_inflight (start_state ports) in
      if is_empty ports
      then some empty_result
      else if not epfd_ok
      then some (record empty_result { scanned = length ports; other = length ports })
      else elim run [ none ↦ none | some s ↦ some (finish s) ]
