-- ===== src/Tests/Workers.antt =====
-- The connect worker on a kernel that has one socket at a time (src/network/tcp_async_scan.cpp).
use bye_bye_vpn.Common.{
  ℕ, ◌+◌, ◌*◌, ◌%◌, ◌≤◌, true, false, List, [], ◌∷◌, Option, none, some, ◌≡◌, refl, arith, ◌==◌,
  any, All, length, Bytes, if◌then◌else◌, Bool-cases, inl, inr,
}
use bye_bye_vpn.Scan.Checksum.{word_sum, checksum16}
use bye_bye_vpn.Scan.Frame.{send_syn_packet, is_accepted, syn_segment}
use bye_bye_vpn.Scan.Kernel.{ConnectReply, Kernel}
use bye_bye_vpn.Scan.Worker.Accounts.{IsAccounted, scan_connect_worker-IsAccounted}
use bye_bye_vpn.Scan.Syn.{
  SynKernel, syn_round, scan_syns, alloc_src_port, is_reply, reply_port, reply_fate, expire_syn,
}
use bye_bye_vpn.Scan.Syn.Accounts.{syn_round-LoopInv}
use bye_bye_vpn.Scan.Worker.Launches.{LoopInv}
use bye_bye_vpn.Scan.Worker.Ends.{IsTimely, scan_connect_worker_total}
use bye_bye_vpn.Scan.Worker.Ports.{count, count_open, scan_connect_worker-open}
use bye_bye_vpn.Scan.Worker.{
  WorkerResult, start_state, scan_connect_worker, round, loop, running, fill, launch_connect,
  launch_reply, is_connect_in_progress_error, emplace, wait, settle, handle_events, handle_event,
  find_pending, erase, record_fate, sweep, expire,
}

-- One descriptor, 3: a second `socket` fails while it is open.
abbrev one_socket : ℕ → List ℕ → ℕ → Option ConnectReply
one_socket call [] port =
    some (record { fd = 3; connected = false; elapsed_ms = 0; err = 115; registered = true })
one_socket call (fd ∷ fds) port = none

-- It answers at every third call.
abbrev answers : ℕ → List ℕ → List (ℕ × ℕ)
answers call [] = []
answers call (fd ∷ fds) = if call % 3 == 0 then (fd, 0) ∷ [] else []

one_socket-fresh :
    (call : ℕ) (fds : List ℕ) (port : ℕ) (r : ConnectReply)
    → one_socket call fds port ≡ some r
    → any (λ fd. fd == r.fd) fds ≡ false
one_socket-fresh call [] port r h = refl
one_socket-fresh call (fd ∷ fds) port r h = cc

abbrev kernel : Kernel
kernel = record {
  errno = record { einprogress = 115; ealready = 114; ewouldblock = 11; econnrefused = 111 };
  connect = one_socket;
  epoll_wait = answers;
  now = λ c. c;
  stop = λ c. false;
  connect_fresh = one_socket-fresh;
}

kernel-IsTimely : IsTimely kernel
kernel-IsTimely = record {
  monotone = λ c. omega arith;
  waits = λ c fds h. omega arith;
  watched = watched;
}
  where
    watched :
        (c : ℕ) (fds : List ℕ)
        → All (λ (e : ℕ × ℕ). any (λ fd. fd == e.0) fds ≡ true) (answers c fds)
    watched c [] = tt
    watched c (fd ∷ fds) = elim (Bool-cases (c % 3 == 0)) [
      | inl e ↦ rw e (ground arith, tt)
      | inr e ↦ rw e tt
    ]

abbrev two_ports : List ℕ
two_ports = 80 ∷ 443 ∷ []

scan_connect_worker_total_example :
    (r : WorkerResult) × (scan_connect_worker kernel
        (length two_ports * (5 + 2) + 1)
        true
        two_ports
        5
        1
      ≡ some r)
    × (r.aborted ≡ false)
    × (r.scanned ≡ length two_ports)
    × (length r.open_ports + r.timeouts + r.refused + r.other ≡ length two_ports)
scan_connect_worker_total_example =
    scan_connect_worker_total kernel two_ports 5 1 kernel-IsTimely (omega arith) (λ c. refl)

-- Both ports are open; the answers come at the fourth and the seventh call.
abbrev done : WorkerResult
done = record {
  open_ports =
      record { port = 80; connect_ms = 4; banner = []; err = [] }
      ∷ record { port = 443; connect_ms = 3; banner = []; err = [] }
      ∷ [];
  scanned = 2;
  timeouts = 0;
  refused = 0;
  other = 0;
  aborted = false;
}

two_ports_open : scan_connect_worker kernel 15 true two_ports 5 1 ≡ some done
unfolding scan_connect_worker loop running round fill launch_connect launch_reply
    is_connect_in_progress_error emplace wait settle handle_events handle_event find_pending erase
    record_fate sweep expire
two_ports_open = refl

scan_connect_worker-IsAccounted_example : IsAccounted two_ports done
scan_connect_worker-IsAccounted_example =
    scan_connect_worker-IsAccounted kernel 15 true two_ports 5 1 two_ports_open

scan_connect_worker-open_example : count_open 80 done.open_ports ≤ count 80 two_ports
scan_connect_worker-open_example =
    scan_connect_worker-open kernel 15 true two_ports 5 1 80 two_ports_open

start_accounted : LoopInv 2 (start_state two_ports)
start_accounted = record {
  accounted = omega arith;
  conserved = omega arith;
  shared = refl;
  shared_open = refl;
}

-- Its receiver drops it.
dropped_test : is_accepted 33597632 16820416 (syn_segment 33597632 16820416 40000 80 7) ≡ false
unfolding is_accepted syn_segment word_sum checksum16
dropped_test = refl

-- SYN and ACK from port 80 to our port 40000.
abbrev syn_ack : Bytes
syn_ack =
    69 ∷ 0 ∷ 0 ∷ 40 ∷ 0 ∷ 0 ∷ 0 ∷ 0 ∷ 64 ∷ 6 ∷ 0 ∷ 0 ∷ 192 ∷ 168 ∷ 0 ∷ 1 ∷ 192 ∷ 168 ∷ 0 ∷ 2 ∷ 0
    ∷ 80 ∷ 156 ∷ 64 ∷ 0 ∷ 0 ∷ 0 ∷ 9 ∷ 0 ∷ 0 ∷ 0 ∷ 8 ∷ 80 ∷ 18 ∷ 0 ∷ 0 ∷ 0 ∷ 0 ∷ 0 ∷ 0 ∷ []

-- The network takes every frame and answers the first one in the first round.
abbrev answers_one : SynKernel
answers_one = record {
  abort = λ _. false;
  seq = λ call. call + 7;
  sendto = λ _ frame. some (length frame);
  packets = λ call. if call == 2 then syn_ack ∷ [] else [];
  now = λ call. call * 50;
}

syn_round-LoopInv_example :
    LoopInv 2
      (syn_round answers_one 33597632 16820416 100 2
        (record { state = start_state two_ports; cursor = 40000 })).state
    × (length
          (syn_round answers_one 33597632 16820416 100 2
            (record { state = start_state two_ports; cursor = 40000 })).state.active
        ≤ 2)
syn_round-LoopInv_example =
    syn_round-LoopInv answers_one 33597632 16820416 2 100 2
      (record { state = start_state two_ports; cursor = 40000 }) start_accounted (omega arith)

-- One port is open, the other times out.
syn_scan_test :
    scan_syns answers_one 33597632 16820416 9 100 2 two_ports
    ≡ some (record {
      open_ports = record { port = 80; connect_ms = 150; banner = []; err = [] } ∷ [];
      scanned = 2;
      timeouts = 1;
      refused = 0;
      other = 0;
      aborted = false;
    })
unfolding scan_syns alloc_src_port find_pending send_syn_packet emplace is_reply reply_port
    record_fate reply_fate erase expire_syn
syn_scan_test = refl
