-- ===== src/Scan/Syn.antt =====
-- The scanning loop of `scan_syn_half_open_linux` in src/network/tcp_async_scan.cpp, behind the set-up
-- of its sockets. The map `pending` is a list of its entries (an entry's `fd` is its source port),
-- `next_idx` the list of the ports that are left, and the state and the counters are the connect
-- worker's.
pub mod Accounts
use bye_bye_vpn.Common.{
  ℕ, zero, suc, ◌+◌, ◌-◌, ◌*◌, ◌/◌, ◌%◌, Bool, true, false, not, ◌&&◌, ◌||◌, List, [], ◌∷◌, ◌++◌,
  Option, none, some, ◌==◌, ltb, leb, if◌then◌else◌, find_if, length, is_empty, Bytes, drop,
}
use bye_bye_vpn.Scan.Frame.{send_syn_packet}
use bye_bye_vpn.Scan.Worker.{
  WorkerResult, Fate, is_open, timed_out, is_refused, is_other, Pending, State, start_state,
  record_fate, tick, emplace, erase, find_pending,
}

-- The calls of the loop, as parameters, numbered by the calls before them.
pub record SynKernel : Type 0 where
  -- g_syn_abort
  pub abort : ℕ → Bool
  -- The generator of the sequence numbers.
  pub seq : ℕ → ℕ
  pub sendto : ℕ → Bytes → Option ℕ
  -- What recvfrom gives after an epoll_wait until it has nothing more, 2048 bytes of a packet at most.
  pub packets : ℕ → List Bytes
  -- steady_clock, in milliseconds, which stands still between two other calls
  pub now : ℕ → ℕ

-- The port of a cursor, a uint16_t. C's remainder of a negative number is negative, so a cursor that
-- has gone round to 0 counts down from 40000.
unfoldable pub candidate : ℕ → ℕ
candidate cursor =
    if leb 40000 cursor then 40000 + (cursor - 40000) % 20000 else 40000 - (40000 - cursor) % 20000

-- `alloc_src_port`, the number of tries left first: the port and the cursor after it.
unfoldable pub alloc_src_port : ℕ → List Pending → ℕ → ℕ × ℕ
unfolding candidate
alloc_src_port zero pending cursor = (0, cursor)
alloc_src_port (suc n) pending cursor = elim (find_pending (candidate cursor) pending) [
  | none ↦ (candidate cursor, (cursor + 1) % 65536)
  | some c ↦ alloc_src_port n pending ((cursor + 1) % 65536)
]

-- A byte of a packet that is long enough for it.
unfoldable pub byte_of : ℕ → Bytes → ℕ
byte_of n s = elim (drop n s) [ [] ↦ 0 | b ∷ rest ↦ b ]

-- A 32-bit field as a little-endian machine reads it.
unfoldable pub loaded32 : ℕ → Bytes → ℕ
unfolding byte_of
loaded32 n s =
    byte_of n s + 256 * byte_of (n + 1) s + 65536 * byte_of (n + 2) s + 16777216 * byte_of (n + 3) s

unfoldable pub ip_hlen : Bytes → ℕ
unfolding byte_of
ip_hlen buf = byte_of 0 buf % 16 * 4

-- The tests of a packet in front of the look-up: is it a TCP segment from the target to us?
unfoldable pub is_reply : ℕ → ℕ → Bytes → Bool
unfolding byte_of loaded32 ip_hlen
is_reply src dst buf =
    not (ltb (length buf) 40)
    && (byte_of 9 buf == 6)
    && not (ltb (ip_hlen buf) 20 || ltb (length buf) (ip_hlen buf + 20))
    && (loaded32 12 buf == dst)
    && (loaded32 16 buf == src)

-- `ntohs(tcp->dest)`
unfoldable pub reply_port : Bytes → ℕ
unfolding byte_of ip_hlen
reply_port buf = byte_of (ip_hlen buf + 2) buf * 256 + byte_of (ip_hlen buf + 3) buf

-- The flags decide: SYN and ACK, or RST, or something else.
unfoldable pub reply_fate : ℕ → Bytes → Fate
unfolding byte_of ip_hlen
reply_fate elapsed buf =
    let flags = byte_of (ip_hlen buf + 13) buf in
    if (flags / 2 % 2 == 1) && (flags / 16 % 2 == 1)
    then is_open elapsed
    else if flags / 4 % 2 == 1
    then is_refused
    else is_other

-- The state of the loop: the worker's, and the cursor.
pub record SynState : Type 0 where
  pub state : State
  pub cursor : ℕ

module _ (k : SynKernel) (src dst : ℕ) where
  -- One port in the inner loop: a source port is found and a SYN sent, or the port is counted.
  unfoldable pub launch_from : ℕ → ℕ → State → State
  launch_from src_port port s =
      if src_port == 0
      then record_fate port is_other s
      else if not
          (send_syn_packet (k.sendto s.calls) src dst src_port (port % 65536) (k.seq s.calls))
      then record_fate port is_other s
      else record s {
        active = emplace (record { fd = src_port; port = port; started = k.now s.calls }) s.active;
      }

  unfoldable pub launch_syn : ℕ → SynState → SynState
  unfolding launch_from
  launch_syn port s =
      let found = alloc_src_port 20000 s.state.active s.cursor in
      record { state = tick (launch_from found.0 port s.state); cursor = found.1 }

  -- The inner loop: while ports are left and `pending` has room.
  unfoldable pub fill_syns : ℕ → List ℕ → SynState → SynState
  unfolding launch_syn
  fill_syns max_inflight [] s = record s { state = record (s.state) { next = [] } }
  fill_syns max_inflight (port ∷ ports) s =
      let rest = fill_syns max_inflight ports (launch_syn port s) in
      if ltb (length s.state.active) max_inflight
      then rest
      else record s { state = record (s.state) { next = port ∷ ports } }

  unfoldable pub handle_packet : Bytes → State → State
  handle_packet buf s =
      if is_reply src dst buf
      then elim (find_pending (reply_port buf) s.active) [
        | none ↦ s
        | some c ↦
            record_fate c.port (reply_fate (k.now s.calls - c.started) buf)
              (record s { active = erase (reply_port buf) s.active })
      ]
      else s

  unfoldable pub handle_packets : List Bytes → State → State
  unfolding handle_packet
  handle_packets [] s = s
  handle_packets (buf ∷ packets) s = handle_packets packets (handle_packet buf s)

-- One entry of `pending`: it has waited for `timeout_ms`, or it stays.
unfoldable pub expire_syn : ℕ → ℕ → Pending → State → State
expire_syn timeout_ms now c s =
    if leb timeout_ms (now - c.started)
    then record_fate c.port timed_out s
    else record s { active = s.active ++ c ∷ [] }

-- The loop over `pending`.
unfoldable pub sweep_syns : ℕ → ℕ → List Pending → State → State
sweep_syns timeout_ms now [] s = s
sweep_syns timeout_ms now (c ∷ pending) s =
    sweep_syns timeout_ms now pending (expire_syn timeout_ms now c s)

module _ (k : SynKernel) (src dst : ℕ) where
  -- The body of the outer loop.
  unfoldable pub syn_round : ℕ → ℕ → SynState → SynState
  unfolding fill_syns handle_packets sweep_syns
  syn_round timeout_ms max_inflight s =
      let filled = fill_syns k src dst max_inflight s.state.next s in
      let s1 = handle_packets k src dst (k.packets filled.state.calls) (tick filled.state) in
      record filled {
        state = sweep_syns timeout_ms (k.now s1.calls) s1.active (record s1 { active = [] });
      }

  -- The outer loop, on fuel: `out` when nothing is left, or as far as it got when a signal came.
  unfoldable pub syn_loop : ℕ → ℕ → ℕ → SynState → Option WorkerResult
  unfolding syn_round
  syn_loop zero timeout_ms max_inflight s = none
  syn_loop (suc fuel) timeout_ms max_inflight s =
      elim (is_empty s.state.next && is_empty s.state.active) [
        | true ↦ some s.state.out
        | false ↦ elim (k.abort s.state.calls) [
          | true ↦ some (record (s.state.out) { aborted = true })
          | false ↦ syn_loop fuel timeout_ms max_inflight (syn_round timeout_ms max_inflight s)
        ]
      ]

  unfoldable pub scan_syns : ℕ → ℕ → ℕ → List ℕ → Option WorkerResult
  unfolding syn_loop
  scan_syns fuel timeout_ms max_inflight [] = some (start_state []).out
  scan_syns fuel timeout_ms max_inflight (port ∷ ports) =
      syn_loop fuel timeout_ms max_inflight
        (record { state = start_state (port ∷ ports); cursor = 40000 })
