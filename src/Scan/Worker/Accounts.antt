-- ===== src/Scan/Worker/Accounts.antt =====
-- The worker's counters: every port is counted once, and the shared counters agree.
use mathlib.Core.Path.{subst}
use bye_bye_vpn.Common.{
  ◌-◌, ℕ, zero, suc, ◌+◌, ◌≤◌, Bool, true, false, not, ◌&&◌, List, [], ◌∷◌, ◌++◌, some, ◌≡◌, refl,
  ap, arith, ◌==◌, inl, inr, Bool-cases, Option-cases, ltb, leb, if◌then◌else◌, length,
  length-append, is_empty,
}
use bye_bye_vpn.Scan.Kernel.{Kernel}
use bye_bye_vpn.Scan.Worker.{
  WorkerResult, Pending, State, is_open, timed_out, record_fate, find_pending, start_state,
  launch_connect, fill, handle_event, handle_events, expire, sweep, settle, wait, round, tick,
  running, loop, scan_connect_worker, failure,
}
use bye_bye_vpn.Scan.Worker.Launches.{
  Inv, record_fate-Inv, record_fate_rest, erased-LoopInv, LoopInv, relabel,
  launch_connect-AfterLaunch,
}

module _ (k : Kernel) (total max_inflight : ℕ) where
  -- The inner loop keeps the accounts, and never has more than `max_inflight` sockets open.
  pub fill-LoopInv :
      (ports : List ℕ) (s : State)
      → Inv total (length s.active + length ports) s
      → length s.active ≤ max_inflight
      → LoopInv total (fill k max_inflight ports s)
        × (length (fill k max_inflight ports s).active ≤ max_inflight)
  unfolding fill
  fill-LoopInv [] s h room = (relabel _ _ _ _ _ _ h, room)
  fill-LoopInv (port ∷ ports) s h room =
      let (inv, longer) =
        launch_connect-AfterLaunch k total (length ports) port s
          (subst (λ n. Inv total n s) (omega arith) h) in
      elim (Bool-cases (ltb (length s.active) max_inflight && not (k.stop s.calls))) [
        | inl e ↦ rw e (fill-LoopInv ports (launch_connect k port s) inv (ground arith))
        | inr e ↦ rw e (relabel _ _ _ _ _ _ h, room)
      ]

  handle_event-LoopInv :
      (now : ℕ) (e : ℕ × ℕ) (s : State)
      → LoopInv total s
      → LoopInv total (handle_event k now e s)
        × (length (handle_event k now e s).active ≤ length s.active)
  unfolding handle_event
  handle_event-LoopInv now (fd, se) s h = elim (Option-cases (find_pending fd s.active)) [
    | inl e ↦ rw (e, handle_event) (h, omega arith)
    | inr (c, e) ↦
        rw (e, handle_event)
          (erased-LoopInv total fd c
            (if se == 0 then is_open (now - c.started) else failure k.errno se) s e h)
  ]

  handle_events-LoopInv :
      (now : ℕ) (events : List (ℕ × ℕ)) (s : State)
      → LoopInv total s
      → LoopInv total (handle_events k now events s)
        × (length (handle_events k now events s).active ≤ length s.active)
  unfolding handle_events
  handle_events-LoopInv now [] s h = (h, omega arith)
  handle_events-LoopInv now (e ∷ events) s h =
      let (inv, fewer) = handle_event-LoopInv now e s h in
      let (inv', fewer') = handle_events-LoopInv now events (handle_event k now e s) inv in
      (inv', omega arith)

  expire-Inv :
      (timeout_ms now left : ℕ) (c : Pending) (s : State)
      → Inv total (suc (left + length s.active + length s.next)) s
      → let t = expire k timeout_ms now c s in
        Inv total (left + length t.active + length t.next) t
        × (length t.active ≤ length s.active + 1)
  unfolding expire
  expire-Inv timeout_ms now left c s h = elim (Bool-cases (leb timeout_ms (now - c.started))) [
    | inl e ↦
        let rest = record_fate_rest c.port timed_out s in
        let same = ap length rest.0 in
        let same' = ap length rest.1 in
        rw e (
          subst (λ n. Inv total n (record_fate c.port timed_out s)) (omega (arith, same, same'))
              (record_fate-Inv c.port total (left + length s.active + length s.next) timed_out s h),
          omega (arith, same),
        )
    | inr e ↦
        let longer = length-append s.active (c ∷ []) in
        let s' = record s { active = s.active ++ c ∷ [] } in
        rw e (
          subst (λ n. Inv total n s') (omega (arith, longer)) (relabel total _ _ _ _ s h),
          omega (arith, longer),
        )
  ]

  sweep-LoopInv :
      (timeout_ms now : ℕ) (left : List Pending) (s : State)
      → Inv total (length left + length s.active + length s.next) s
      → LoopInv total (sweep k timeout_ms now left s)
        × (length (sweep k timeout_ms now left s).active ≤ length left + length s.active)
  unfolding sweep
  sweep-LoopInv timeout_ms now [] s h = (subst (λ n. Inv total n s) (omega arith) h, omega arith)
  sweep-LoopInv timeout_ms now (c ∷ left) s h =
      let (inv, grown) =
        expire-Inv timeout_ms now (length left) c s (subst (λ n. Inv total n s) (omega arith) h) in
      let (inv', few) = sweep-LoopInv timeout_ms now left (expire k timeout_ms now c s) inv in
      (inv', omega arith)

  settle-LoopInv :
      (timeout_ms : ℕ) (events : List (ℕ × ℕ)) (s : State)
      → LoopInv total s
      → LoopInv total (settle k timeout_ms events s)
        × (length (settle k timeout_ms events s).active ≤ length s.active)
  unfolding settle
  settle-LoopInv timeout_ms events s h =
      let (inv, fewer) = handle_events-LoopInv (k.now s.calls) events s h in
      let s1 = handle_events k (k.now s.calls) events s in
      let s2 = record s1 { active = [] } in
      let same : length s1.active + length s1.next
          ≡ length s1.active + length s2.active + length s2.next =
        omega arith in
      let (inv', few) =
        sweep-LoopInv timeout_ms (k.now s.calls) s1.active s2
          (subst (λ n. Inv total n s2) same (relabel total _ _ _ _ s1 inv)) in
      (inv', omega (arith, few, fewer))

  wait-LoopInv :
      (timeout_ms : ℕ) (s : State)
      → LoopInv total s
      → LoopInv total (wait k timeout_ms s)
        × (length (wait k timeout_ms s).active ≤ length s.active)
  unfolding wait
  wait-LoopInv timeout_ms s h = settle-LoopInv timeout_ms _ (tick s) (relabel total _ _ _ _ s h)

  -- One round of the outer loop keeps the accounts and the bound on open sockets.
  pub round-LoopInv :
      (timeout_ms : ℕ) (s : State)
      → LoopInv total s
      → length s.active ≤ max_inflight
      → LoopInv total (round k timeout_ms max_inflight s)
        × (length (round k timeout_ms max_inflight s).active ≤ max_inflight)
  unfolding round
  round-LoopInv timeout_ms s h room =
      let (inv, room') = fill-LoopInv s.next s h room in
      let s1 = fill k max_inflight s.next s in
      elim (Bool-cases (is_empty s1.active)) [
        | inl e ↦ rw e (inv, room')
        | inr e ↦ let (inv', fewer) = wait-LoopInv timeout_ms s1 inv in rw e (inv', omega arith)
      ]

  loop-LoopInv :
      (fuel timeout_ms : ℕ) (s : State) {t : State}
      → LoopInv total s
      → length s.active ≤ max_inflight
      → loop k fuel timeout_ms max_inflight s ≡ some t
      → LoopInv total t × (length t.active ≤ max_inflight) × (running k t ≡ false)
  unfolding loop
  loop-LoopInv zero timeout_ms s h room e = cc
  loop-LoopInv (suc fuel) timeout_ms s {t} h room e = elim (Bool-cases (running k s)) [
    | inl go ↦
        let (inv, room') = round-LoopInv timeout_ms s h room in
        loop-LoopInv fuel timeout_ms (round k timeout_ms max_inflight s) inv room' (ground arith)
    | inr stop ↦
        let same : s ≡ t = ground arith in
        subst (λ u. LoopInv total u × (length u.active ≤ max_inflight) × (running k u ≡ false)) same
          (h, room, stop)
  ]

pub start-LoopInv : (ports : List ℕ) → LoopInv (length ports) (start_state ports)
start-LoopInv ports = record {
  accounted = omega arith;
  conserved = omega arith;
  shared = refl;
  shared_open = refl;
}

-- What a finished worker promises of its counters.
abbrev pub IsAccounted : List ℕ → WorkerResult → Type 0
IsAccounted ports r =
    (r.scanned ≡ length r.open_ports + r.timeouts + r.refused + r.other)
    × (r.scanned ≤ length ports)
    × (r.aborted ≡ false → r.scanned ≡ length ports)

-- Whatever the kernel answers, every scanned port is counted under exactly one heading, no more
-- ports are scanned than were asked for, and a worker that was not told to stop has scanned them all.
pub scan_connect_worker-IsAccounted :
    (k : Kernel) (fuel : ℕ) (epfd_ok : Bool) (ports : List ℕ) (timeout_ms max_inflight : ℕ)
    → {r : WorkerResult} → scan_connect_worker k fuel epfd_ok ports timeout_ms max_inflight ≡ some r
    → IsAccounted ports r
unfolding scan_connect_worker running
scan_connect_worker-IsAccounted k fuel epfd_ok [] timeout_ms max_inflight e = ground arith
scan_connect_worker-IsAccounted k fuel false (p ∷ ports) timeout_ms max_inflight e = ground arith
scan_connect_worker-IsAccounted k fuel true (p ∷ ports) timeout_ms max_inflight e =
    elim (Option-cases (loop k fuel timeout_ms max_inflight (start_state (p ∷ ports)))) [
      | inl none_left ↦ ground arith
      | inr (t, done) ↦
          let (inv, room, over) =
            loop-LoopInv k (length (p ∷ ports)) max_inflight fuel timeout_ms _
              (start-LoopInv (p ∷ ports)) (omega arith) done in
          ground (arith, inv, over)
    ]
