-- ===== src/Scan/Syn/Accounts.antt =====
-- The accounts of the SYN scanner of src/network/tcp_async_scan.cpp.
use mathlib.Core.Path.{subst}
use bye_bye_vpn.Common.{
  ℕ, zero, suc, ◌+◌, ◌-◌, ◌%◌, ◌≤◌, true, false, not, ◌&&◌, List, [], ◌∷◌, ◌++◌, some, none, ◌≡◌,
  refl, ap, arith, ◌==◌, inl, inr, Bool-cases, Option-cases, ltb, leb, any, length, length-append,
  is_empty, Bytes,
}
use bye_bye_vpn.Scan.Frame.{send_syn_packet}
use bye_bye_vpn.Scan.Worker.{
  WorkerResult, Pending, State, timed_out, record_fate, find_pending, tick, fds_of,
}
use bye_bye_vpn.Scan.Worker.Launches.{
  Inv, record_fate-Inv, record_fate_rest, erased-LoopInv, LoopInv, relabel, AfterLaunch,
  decided-AfterLaunch, waits-AfterLaunch,
}
use bye_bye_vpn.Scan.Worker.Accounts.{IsAccounted, start-LoopInv}
use bye_bye_vpn.Scan.Syn.{
  SynKernel, SynState, candidate, alloc_src_port, launch_from, launch_syn, fill_syns, is_reply,
  reply_port, reply_fate, handle_packet, handle_packets, expire_syn, sweep_syns, syn_round,
  syn_loop, scan_syns,
}

free_port :
    (p : ℕ) (pending : List Pending)
    → find_pending p pending ≡ none
    → any (λ fd. fd == p) (fds_of pending) ≡ false
unfolding find_pending
free_port p [] h = refl
free_port p (c ∷ pending) h = ground (arith, free_port p pending)

-- A source port is 0, when none was found, or no entry of the map has it.
pub alloc_src_port_lem :
    (n : ℕ) (pending : List Pending) (cursor : ℕ)
    → let p = (alloc_src_port n pending cursor).0 in
      (p == 0) ≡ false → any (λ fd. fd == p) (fds_of pending) ≡ false
unfolding alloc_src_port
alloc_src_port_lem zero pending cursor h = cc
alloc_src_port_lem (suc n) pending cursor h =
    elim (Option-cases (find_pending (candidate cursor) pending)) [
      | inl e ↦ rw (e, alloc_src_port) (free_port (candidate cursor) pending e)
      | inr (c, e) ↦
          rw (e, alloc_src_port)
            (alloc_src_port_lem n pending ((cursor + 1) % 65536) (rw (e, alloc_src_port) at h))
    ]

module _ (k : SynKernel) (src dst total : ℕ) where
  launch_from-AfterLaunch :
      (w src_port port : ℕ) (s : State)
      → ((src_port == 0) ≡ false → any (λ fd. fd == src_port) (fds_of s.active) ≡ false)
      → Inv total (suc (length s.active + w)) s
      → AfterLaunch total w s (launch_from k src dst src_port port s)
  unfolding launch_from
  launch_from-AfterLaunch w src_port port s fresh h = elim (Bool-cases (src_port == 0)) [
    | inl e ↦ rw e (decided-AfterLaunch total w port _ s h)
    | inr used ↦
        rw used
          (elim (Bool-cases (
            not (
              send_syn_packet (k.sendto s.calls) src dst src_port (port % 65536)
                (k.seq s.calls)))) [
                  | inl e ↦ rw e (decided-AfterLaunch total w port _ s h)
                  | inr e ↦ rw e (waits-AfterLaunch total w _ s (fresh used) h)
                ])
  ]

  fill_syns-LoopInv :
      (max_inflight : ℕ) (ports : List ℕ) (s : SynState)
      → Inv total (length s.state.active + length ports) s.state
      → length s.state.active ≤ max_inflight
      → LoopInv total (fill_syns k src dst max_inflight ports s).state
        × (length (fill_syns k src dst max_inflight ports s).state.active ≤ max_inflight)
  unfolding fill_syns launch_syn
  fill_syns-LoopInv max_inflight [] s h room = (relabel _ _ _ _ _ _ h, room)
  fill_syns-LoopInv max_inflight (port ∷ ports) s h room =
      let found = (alloc_src_port 20000 s.state.active s.cursor).0 in
      let (inv, longer) =
        launch_from-AfterLaunch (length ports) found port s.state
          (alloc_src_port_lem 20000 s.state.active s.cursor)
          (subst (λ n. Inv total n s.state) (omega arith) h) in
      elim (Bool-cases (ltb (length s.state.active) max_inflight)) [
        | inl e ↦ rw e (
            fill_syns-LoopInv max_inflight ports (launch_syn k src dst port s)
              (relabel _ _ _ _ _ _ inv) (ground arith))
        | inr e ↦ rw e (relabel _ _ _ _ _ _ h, room)
      ]

  handle_packet-LoopInv :
      (buf : Bytes) (s : State)
      → LoopInv total s
      → LoopInv total (handle_packet k src dst buf s)
        × (length (handle_packet k src dst buf s).active ≤ length s.active)
  unfolding handle_packet
  handle_packet-LoopInv buf s h = elim (Bool-cases (is_reply src dst buf)) [
    | inr other ↦ rw (other, handle_packet) (h, omega arith)
    | inl reply ↦ elim (Option-cases (find_pending (reply_port buf) s.active)) [
      | inl e ↦ rw (reply, e, handle_packet) (h, omega arith)
      | inr (c, e) ↦
          rw (reply, e, handle_packet)
            (erased-LoopInv total (reply_port buf) c (reply_fate (k.now s.calls - c.started) buf) s
              e h)
    ]
  ]

  handle_packets-LoopInv :
      (packets : List Bytes) (s : State)
      → LoopInv total s
      → LoopInv total (handle_packets k src dst packets s)
        × (length (handle_packets k src dst packets s).active ≤ length s.active)
  unfolding handle_packets
  handle_packets-LoopInv [] s h = (h, omega arith)
  handle_packets-LoopInv (buf ∷ packets) s h =
      let (inv, fewer) = handle_packet-LoopInv buf s h in
      let (inv', fewer') = handle_packets-LoopInv packets (handle_packet k src dst buf s) inv in
      (inv', omega arith)

module _ (total timeout_ms now : ℕ) where
  expire_syn-Inv :
      (left : ℕ) (c : Pending) (s : State)
      → Inv total (suc (left + length s.active + length s.next)) s
      → let t = expire_syn timeout_ms now c s in
        Inv total (left + length t.active + length t.next) t
        × (length t.active ≤ length s.active + 1)
  unfolding expire_syn
  expire_syn-Inv left c s h = elim (Bool-cases (leb timeout_ms (now - c.started))) [
    | inl e ↦
        let rest = record_fate_rest c.port timed_out s in
        let same = ap length rest.0 in
        let same' = ap length rest.1 in
        rw e (
          subst (λ n. Inv total n (record_fate c.port timed_out s)) (omega (arith, same, same'))
              (record_fate-Inv c.port total (left + length s.active + length s.next) timed_out s h),
          omega (arith, same),
        )
    | inr e ↦
        let longer = length-append s.active (c ∷ []) in
        let s' = record s { active = s.active ++ c ∷ [] } in
        rw e (
          subst (λ n. Inv total n s') (omega (arith, longer)) (relabel total _ _ _ _ s h),
          omega (arith, longer),
        )
  ]

  sweep_syns-LoopInv :
      (left : List Pending) (s : State)
      → Inv total (length left + length s.active + length s.next) s
      → LoopInv total (sweep_syns timeout_ms now left s)
        × (length (sweep_syns timeout_ms now left s).active ≤ length left + length s.active)
  unfolding sweep_syns
  sweep_syns-LoopInv [] s h = (subst (λ n. Inv total n s) (omega arith) h, omega arith)
  sweep_syns-LoopInv (c ∷ left) s h =
      let (inv, grown) =
        expire_syn-Inv (length left) c s (subst (λ n. Inv total n s) (omega arith) h) in
      let (inv', few) = sweep_syns-LoopInv left (expire_syn timeout_ms now c s) inv in
      (inv', omega arith)

abbrev Counted : ℕ → WorkerResult → Type 0
Counted total r =
    (r.scanned ≡ length r.open_ports + r.timeouts + r.refused + r.other)
    × (r.scanned ≤ total)
    × (r.aborted ≡ false → r.scanned ≡ total)

nothing_left :
    (next : List ℕ) (active : List Pending)
    → (is_empty next && is_empty active) ≡ true
    → (length next ≡ 0) × (length active ≡ 0)
nothing_left [] [] h = (refl, refl)
nothing_left [] (c ∷ active) h = cc
nothing_left (port ∷ next) active h = cc

module _ (k : SynKernel) (src dst total timeout_ms max_inflight : ℕ) where
  -- One round of the SYN scanner keeps the accounts, whatever packets come in: every port that is
  -- done stands under exactly one heading, the others wait in the map or are still to be sent, the
  -- shared counters agree, and the map never outgrows `max_inflight`.
  pub syn_round-LoopInv :
      (s : SynState)
      → LoopInv total s.state
      → length s.state.active ≤ max_inflight
      → LoopInv total (syn_round k src dst timeout_ms max_inflight s).state
        × (length (syn_round k src dst timeout_ms max_inflight s).state.active ≤ max_inflight)
  unfolding syn_round
  syn_round-LoopInv s h room =
      let filled = fill_syns k src dst max_inflight s.state.next s in
      let (inv, room') = fill_syns-LoopInv k src dst total max_inflight s.state.next s h room in
      let s0 = tick filled.state in
      let s1 = handle_packets k src dst (k.packets filled.state.calls) s0 in
      let (inv1, fewer) =
        handle_packets-LoopInv k src dst total (k.packets filled.state.calls) s0
          (relabel total _ _ _ _ filled.state inv) in
      let s2 = record s1 { active = [] } in
      let same : length s1.active + length s1.next
          ≡ length s1.active + length s2.active + length s2.next =
        omega arith in
      let (inv2, few) =
        sweep_syns-LoopInv total timeout_ms (k.now s1.calls) s1.active s2
          (subst (λ n. Inv total n s2) same (relabel total _ _ _ _ s1 inv1)) in
      (inv2, omega (arith, few, fewer, room'))

  syn_loop-IsAccounted :
      (fuel : ℕ) (s : SynState) {r : WorkerResult}
      → LoopInv total s.state
      → length s.state.active ≤ max_inflight
      → syn_loop k src dst fuel timeout_ms max_inflight s ≡ some r
      → Counted total r
  unfolding syn_loop
  syn_loop-IsAccounted zero s h room e = cc
  syn_loop-IsAccounted (suc fuel) s {r} h room e =
      elim (Bool-cases (is_empty s.state.next && is_empty s.state.active)) [
        | inl done ↦
            let same : s.state.out ≡ r = ground arith in
            let (none_left, none_waits) = nothing_left s.state.next s.state.active done in
            subst (λ (u : WorkerResult). Counted total u) same
              (
                h.accounted,
                omega (arith, h.conserved),
                λ _. omega (arith, h.conserved, none_left, none_waits),
              )
        | inr more ↦ elim (Bool-cases (k.abort s.state.calls)) [
          | inl stop ↦
              let same : record (s.state.out) { aborted = true } ≡ r = ground arith in
              subst (λ (u : WorkerResult). Counted total u) same
                (h.accounted, omega (arith, h.conserved), λ e. cc)
          | inr go ↦
              let (inv, room') = syn_round-LoopInv s h room in
              syn_loop-IsAccounted fuel (syn_round k src dst timeout_ms max_inflight s) inv room'
                (ground arith)
        ]
      ]

-- However long the scan runs, its result counts every port under one heading, and counts them all
-- when no signal came.
pub scan_syns-IsAccounted :
    (k : SynKernel) (src dst fuel timeout_ms max_inflight : ℕ) (ports : List ℕ) {r : WorkerResult}
    → scan_syns k src dst fuel timeout_ms max_inflight ports ≡ some r
    → IsAccounted ports r
unfolding scan_syns
scan_syns-IsAccounted k src dst fuel timeout_ms max_inflight [] e = ground arith
scan_syns-IsAccounted k src dst fuel timeout_ms max_inflight (port ∷ ports) e =
    syn_loop-IsAccounted k src dst (length (port ∷ ports)) timeout_ms max_inflight fuel _
      (start-LoopInv (port ∷ ports)) (omega arith) e
