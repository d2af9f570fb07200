-- ===== src/Scan/Worker/Ports.antt =====
-- The worker reports no port that it was not asked for, and none more often than it was asked.
use bye_bye_vpn.Common.{
  ℕ, zero, suc, ◌+◌, ◌-◌, ◌≤◌, Bool, true, false, not, ◌&&◌, List, [], ◌∷◌, ◌++◌, some, ◌≡◌, refl,
  ap, ◌∙◌, arith, ◌==◌, inl, inr, Bool-cases, Option-cases, ltb, leb, if◌then◌else◌, any, is_empty,
  length,
}
use bye_bye_vpn.Report.{TcpOpen}
use bye_bye_vpn.Scan.Kernel.{ConnectReply, Kernel}
use bye_bye_vpn.Scan.Worker.Launches.{record_fate_rest}
use bye_bye_vpn.Scan.Worker.{
  WorkerResult, empty_result, Pending, State, Fate, is_open, timed_out, is_refused, is_other,
  record_fate, emplace, erase, find_pending, fds_of, start_state, tick,
  is_connect_in_progress_error, launch_reply, launch_connect, fill, handle_event, handle_events,
  expire, sweep, settle, wait, round, running, loop, finish, scan_connect_worker, failure,
}

abbrev pub hit : ℕ → ℕ → ℕ
hit p q = if q == p then 1 else 0

-- How often a port stands in a list.
abbrev pub count : ℕ → List ℕ → ℕ
count p [] = 0
count p (q ∷ ports) = hit p q + count p ports

pub count-append : (p : ℕ) (a b : List ℕ) → count p (a ++ b) ≡ count p a + count p b
count-append p [] b = omega arith
count-append p (q ∷ a) b = omega (arith, count-append p a b)

abbrev pub count_open : ℕ → List TcpOpen → ℕ
count_open p [] = 0
count_open p (o ∷ open_ports) = hit p o.port + count_open p open_ports

abbrev count_active : ℕ → List Pending → ℕ
count_active p [] = 0
count_active p (c ∷ active) = hit p c.port + count_active p active

pub count_open-append :
    (p : ℕ) (a b : List TcpOpen) → count_open p (a ++ b) ≡ count_open p a + count_open p b
count_open-append p [] b = omega arith
count_open-append p (o ∷ a) b = omega (arith, count_open-append p a b)

module _ (p : ℕ) where
  count_active-append :
      (a b : List Pending) → count_active p (a ++ b) ≡ count_active p a + count_active p b
  count_active-append [] b = omega arith
  count_active-append (c ∷ a) b = omega (arith, count_active-append a b)

  count_active-erase :
      (fd : ℕ) (active : List Pending) (c : Pending)
      → find_pending fd active ≡ some c
      → count_active p (erase fd active) + hit p c.port ≡ count_active p active
  unfolding erase find_pending
  count_active-erase fd [] c h = cc
  count_active-erase fd (x ∷ active) c h = elim (Bool-cases (x.fd == fd)) [
    | inl e ↦ let same : x ≡ c = ground arith in rw e (rw (← same) (omega arith))
    | inr e ↦ rw e (omega (arith, count_active-erase fd active c (ground arith)))
  ]

  -- Reported open, or waiting.
  abbrev seen : State → ℕ
  seen s = count_open p s.out.open_ports + count_active p s.active

  record_fate-seen :
      (port : ℕ) (v : Fate) (s : State) → seen (record_fate port v s) ≤ seen s + hit p port
  unfolding record_fate
  record_fate-seen port (is_open ms) s = omega (
    arith,
    count_open-append p s.out.open_ports
        (record { port = port; connect_ms = ms; banner = []; err = [] } ∷ []),
  )
  record_fate-seen port timed_out s = omega arith
  record_fate-seen port is_refused s = omega arith
  record_fate-seen port is_other s = omega arith

  emplace-count :
      (c : Pending) (active : List Pending)
      → count_active p (emplace c active) ≤ count_active p active + hit p c.port
  unfolding emplace
  emplace-count c active = elim (Bool-cases (any (λ (x : Pending). x.fd == c.fd) active)) [
    | inl e ↦ rw e (omega arith)
    | inr e ↦ rw e (omega (arith, count_active-append active (c ∷ [])))
  ]

  module _ (k : Kernel) where
    launch_reply-seen :
        (port : ℕ) (r : ConnectReply) (s : State)
        → seen (launch_reply k port r s) ≤ seen s + hit p port
    unfolding launch_reply
    launch_reply-seen port r s = elim (Bool-cases r.connected) [
      | inl e ↦ rw e (record_fate-seen port _ s)
      | inr e ↦ rw e (elim (Bool-cases (not (is_connect_in_progress_error k.errno r.err))) [
        | inl e ↦ rw e (record_fate-seen port _ s)
        | inr e ↦ rw e (elim (Bool-cases (not r.registered)) [
          | inl e ↦ rw e (record_fate-seen port _ s)
          | inr e ↦ rw e (
              omega (
                arith,
                emplace-count (record { fd = r.fd; port = port; started = k.now s.calls }) s.active,
              ))
        ])
      ])
    ]

    launch_connect-seen :
        (port : ℕ) (s : State) → seen (launch_connect k port s) ≤ seen s + hit p port
    unfolding launch_connect
    launch_connect-seen port s = elim (Option-cases (k.connect s.calls (fds_of s.active) port)) [
      | inl e ↦ rw e (record_fate-seen port is_other s)
      | inr (r, e) ↦ rw e (launch_reply-seen port r s)
    ]

    fill-seen :
        (max_inflight : ℕ) (ports : List ℕ) (s : State)
        → let f = fill k max_inflight ports s in seen f + count p f.next ≤ seen s + count p ports
    unfolding fill
    fill-seen max_inflight [] s = omega arith
    fill-seen max_inflight (port ∷ ports) s =
        let step = launch_connect-seen port s in
        let later = fill-seen max_inflight ports (launch_connect k port s) in
        elim (Bool-cases (ltb (length s.active) max_inflight && not (k.stop s.calls))) [
          | inl e ↦ rw e (omega (arith, step, later))
          | inr e ↦ rw e (omega arith)
        ]

    handle_event-seen : (now : ℕ) (e : ℕ × ℕ) (s : State) → seen (handle_event k now e s) ≤ seen s
    unfolding handle_event
    handle_event-seen now (fd, se) s = elim (Option-cases (find_pending fd s.active)) [
      | inl e ↦ rw (e, handle_event) (omega arith)
      | inr (c, e) ↦
          let v = if se == 0 then is_open (now - c.started) else failure k.errno se in
          let s' = record s { active = erase fd s.active } in
          rw (e, handle_event)
            (omega (arith, record_fate-seen c.port v s', count_active-erase fd s.active c e))
    ]

    handle_events-seen :
        (now : ℕ) (events : List (ℕ × ℕ)) (s : State) → seen (handle_events k now events s) ≤ seen s
    unfolding handle_events
    handle_events-seen now [] s = omega arith
    handle_events-seen now (e ∷ events) s =
        omega
          (arith, handle_event-seen now e s, handle_events-seen now events (handle_event k now e s))

    expire-seen :
        (t now : ℕ) (c : Pending) (s : State) → seen (expire k t now c s) ≤ seen s + hit p c.port
    unfolding expire
    expire-seen t now c s = elim (Bool-cases (leb t (now - c.started))) [
      | inl e ↦ rw e (record_fate-seen c.port timed_out s)
      | inr e ↦ rw e (omega (arith, count_active-append s.active (c ∷ [])))
    ]

    sweep-seen :
        (t now : ℕ) (left : List Pending) (s : State)
        → seen (sweep k t now left s) ≤ seen s + count_active p left
    unfolding sweep
    sweep-seen t now [] s = omega arith
    sweep-seen t now (c ∷ left) s =
        omega (arith, sweep-seen t now left (expire k t now c s), expire-seen t now c s)

    settle-seen : (t : ℕ) (events : List (ℕ × ℕ)) (s : State) → seen (settle k t events s) ≤ seen s
    unfolding settle
    settle-seen t events s =
        let handled = handle_events-seen (k.now s.calls) events s in
        let s1 = handle_events k (k.now s.calls) events s in
        let swept = sweep-seen t (k.now s.calls) s1.active (record s1 { active = [] }) in
        omega (arith, handled, swept)

    wait-seen : (t : ℕ) (s : State) → seen (wait k t s) ≤ seen s
    unfolding wait
    wait-seen t s = settle-seen t _ (tick s)

    -- Reported open, waiting or still to launch.
    abbrev known : State → ℕ
    known s = seen s + count p s.next

    handle_event-next : (now : ℕ) (e : ℕ × ℕ) (s : State) → (handle_event k now e s).next ≡ s.next
    unfolding handle_event
    handle_event-next now (fd, se) s = elim (Option-cases (find_pending fd s.active)) [
      | inl e ↦ rw (e, handle_event) refl
      | inr (c, e) ↦ rw (e, handle_event) ((record_fate_rest c.port _ _).1)
    ]

    handle_events-next :
        (now : ℕ) (events : List (ℕ × ℕ)) (s : State) → (handle_events k now events s).next ≡ s.next
    unfolding handle_events
    handle_events-next now [] s = refl
    handle_events-next now (e ∷ events) s =
        handle_events-next now events (handle_event k now e s) ∙ handle_event-next now e s

    expire-next : (t now : ℕ) (c : Pending) (s : State) → (expire k t now c s).next ≡ s.next
    unfolding expire
    expire-next t now c s = elim (Bool-cases (leb t (now - c.started))) [
      | inl e ↦ rw e ((record_fate_rest c.port timed_out s).1)
      | inr e ↦ rw e refl
    ]

    sweep-next :
        (t now : ℕ) (left : List Pending) (s : State) → (sweep k t now left s).next ≡ s.next
    unfolding sweep
    sweep-next t now [] s = refl
    sweep-next t now (c ∷ left) s =
        sweep-next t now left (expire k t now c s) ∙ expire-next t now c s

    wait-next : (t : ℕ) (s : State) → (wait k t s).next ≡ s.next
    unfolding wait settle
    wait-next t s = sweep-next t _ _ _ ∙ handle_events-next _ _ (tick s)

    round-known : (t m : ℕ) (s : State) → known (round k t m s) ≤ known s
    unfolding round
    round-known t m s =
        let s1 = fill k m s.next s in
        let filled = fill-seen m s.next s in
        elim (Bool-cases (is_empty s1.active)) [
          | inl e ↦ rw e (omega (arith, filled))
          | inr e ↦ rw e (omega (arith, filled, wait-seen t s1, ap (count p) (wait-next t s1)))
        ]

    loop-known :
        (fuel t m : ℕ) (s : State) {u : State} → loop k fuel t m s ≡ some u → known u ≤ known s
    unfolding loop
    loop-known zero t m s e = cc
    loop-known (suc fuel) t m s {u} e = elim (Bool-cases (running k s)) [
      | inl go ↦
          let later : known u ≤ known (round k t m s) =
            loop-known fuel t m (round k t m s) {u = u} (ground arith) in
          omega (arith, later, round-known t m s)
      | inr over ↦ let same : s ≡ u = ground arith in omega (arith, ap known same)
    ]

-- The worker reports no port open that it was not given, and none more often than it was given.
pub scan_connect_worker-open :
    (k : Kernel) (fuel : ℕ) (epfd_ok : Bool) (ports : List ℕ) (timeout_ms max_inflight p : ℕ)
    → {r : WorkerResult} → scan_connect_worker k fuel epfd_ok ports timeout_ms max_inflight ≡ some r
    → count_open p r.open_ports ≤ count p ports
unfolding scan_connect_worker
scan_connect_worker-open k fuel epfd_ok [] t m p {r} e =
    let same : empty_result ≡ r = ground arith in
    omega (arith, ap (λ (x : WorkerResult). count_open p x.open_ports) same)
scan_connect_worker-open k fuel false (q ∷ ports) t m p {r} e =
    let same : record empty_result { scanned = length (q ∷ ports); other = length (q ∷ ports) }
        ≡ r =
      ground arith in
    omega (arith, ap (λ (x : WorkerResult). count_open p x.open_ports) same)
scan_connect_worker-open k fuel true (q ∷ ports) t m p {r} e =
    elim (Option-cases (loop k fuel t m (start_state (q ∷ ports)))) [
      | inl never ↦ ground arith
      | inr (u, over) ↦
          let same : finish k u ≡ r = ground arith in
          omega (
            arith,
            loop-known p k fuel t m (start_state (q ∷ ports)) over,
            ap (λ (x : WorkerResult). count_open p x.open_ports) same,
          )
    ]
