-- ===== src/Scan/Worker/Ends.antt =====
-- The worker's loop ends: each round takes work away, or time passes for a socket that waits.
use bye_bye_vpn.Common.{
  ℕ, zero, suc, ◌+◌, ◌-◌, ◌*◌, ◌≤◌, ◌<◌, true, false, not, ◌&&◌, ◌||◌, List, [], ◌∷◌, ◌++◌, some,
  ◌≡◌, refl, ap, ◌∙◌, arith, ◌==◌, inl, inr, ◌⊎◌, Bool-cases, Option-cases, ltb, leb, if◌then◌else◌,
  any, All, length, is_empty,
}
use bye_bye_vpn.Scan.Kernel.{ConnectReply, Kernel}
use bye_bye_vpn.Scan.Worker.Accounts.{scan_connect_worker-IsAccounted}
use bye_bye_vpn.Scan.Worker.Launches.{record_fate_rest}
use bye_bye_vpn.Scan.Worker.{
  WorkerResult, empty_result, Pending, State, Fate, is_open, timed_out, is_other, record_fate,
  emplace, erase, find_pending, fds_of, start_state, tick, is_connect_in_progress_error,
  launch_reply, launch_connect, fill, handle_event, handle_events, expire, sweep, settle, wait,
  round, running, loop, finish, scan_connect_worker, failure,
}

-- The clock never goes back; epoll_wait reports only descriptors that are watched, and if it reports
-- none then its timeout has passed.
pub record IsTimely (k : Kernel) : Type 0 where
  pub monotone : (c : ℕ) → k.now c ≤ k.now (c + 1)
  pub waits : (c : ℕ) (fds : List ℕ) → k.epoll_wait c fds ≡ [] → k.now c < k.now (c + 1)
  pub watched :
      (c : ℕ) (fds : List ℕ)
      → All (λ (e : ℕ × ℕ). any (λ fd. fd == e.0) fds ≡ true) (k.epoll_wait c fds)

-- What the sockets that wait are worth at time `now`: one each, and the time that they have left.
weight : ℕ → ℕ → List Pending → ℕ
weight timeout_ms now [] = 0
weight timeout_ms now (c ∷ active) =
    1 + (c.started + timeout_ms - now) + weight timeout_ms now active

weight-nil : (t now : ℕ) → weight t now [] ≡ 0
unfolding weight
weight-nil t now = refl

weight_mono :
    (t now later : ℕ) (active : List Pending)
    → now ≤ later
    → weight t later active ≤ weight t now active
unfolding weight
weight_mono t now later [] h = omega arith
weight_mono t now later (c ∷ active) h = omega (arith, weight_mono t now later active h)

weight-append :
    (t now : ℕ) (a b : List Pending) → weight t now (a ++ b) ≡ weight t now a + weight t now b
unfolding weight
weight-append t now [] b = omega arith
weight-append t now (c ∷ a) b = omega (arith, weight-append t now a b)

length-le-weight : (t now : ℕ) (a : List Pending) → length a ≤ weight t now a
unfolding weight
length-le-weight t now [] = omega arith
length-le-weight t now (c ∷ a) = omega (arith, length-le-weight t now a)

weight-erase :
    (t now fd : ℕ) (active : List Pending) (c : Pending)
    → find_pending fd active ≡ some c
    → weight t now (erase fd active) < weight t now active
unfolding weight erase find_pending
weight-erase t now fd [] c h = cc
weight-erase t now fd (x ∷ active) c h = ground (arith, weight-erase t now fd active c)

weight-emplace :
    (t now : ℕ) (c : Pending) (active : List Pending)
    → weight t now (emplace c active) ≤ weight t now active + (1 + (c.started + t - now))
unfolding emplace
weight-emplace t now c active = elim (Bool-cases (any (λ (x : Pending). x.fd == c.fd) active)) [
  | inl e ↦ rw e (omega arith)
  | inr e ↦ rw e (rw (weight-append t now active (c ∷ [])) (unfold weight in omega arith))
]

find_pending_total :
    (fd : ℕ) (active : List Pending)
    → any (λ x. x == fd) (fds_of active) ≡ true
    → (c : Pending) × (find_pending fd active ≡ some c)
unfolding find_pending
find_pending_total fd [] h = cc
find_pending_total fd (c ∷ active) h = elim (Bool-cases (c.fd == fd)) [
  | inl e ↦ (c, rw e)
  | inr e ↦ let (d, found) = find_pending_total fd active (ground arith) in (d, rw e found)
]

module _ (k : Kernel) (timely : IsTimely k) (t : ℕ) where
  abbrev clock : State → ℕ
  clock s = k.now s.calls

  -- The measure, with `left` ports not launched.
  abbrev measure : ℕ → State → ℕ
  measure left s = left * (t + 2) + weight t (clock s) s.active

  older : (s : State) → weight t (k.now (s.calls + 1)) s.active ≤ weight t (clock s) s.active
  older s = weight_mono t (clock s) (k.now (s.calls + 1)) s.active (timely.monotone s.calls)

  launch_reply-weight :
      (port : ℕ) (r : ConnectReply) (s : State)
      → (weight t (k.now (s.calls + 1)) (launch_reply k port r s).active
          ≤ weight t (clock s) s.active + (1 + t))
        × ((launch_reply k port r s).calls ≡ s.calls)
  unfolding launch_reply
  launch_reply-weight port r s = elim (Bool-cases r.connected) [
    | inl e ↦ rw e (decided (is_open r.elapsed_ms))
    | inr e ↦ rw e (elim (Bool-cases (not (is_connect_in_progress_error k.errno r.err))) [
      | inl e ↦ rw e (decided (failure k.errno r.err))
      | inr e ↦ rw e (elim (Bool-cases (not r.registered)) [
        | inl e ↦ rw e (decided is_other)
        | inr e ↦ rw e (waits, refl)
      ])
    ])
  ]
    where
      decided :
          (v : Fate)
          → (weight t (k.now (s.calls + 1)) (record_fate port v s).active
              ≤ weight t (clock s) s.active + (1 + t))
            × ((record_fate port v s).calls ≡ s.calls)
      decided v =
          let rest = record_fate_rest port v s in (rw rest.0 (omega (arith, older s)), rest.2)

      waits :
          weight t
            (k.now (s.calls + 1))
            (emplace (record { fd = r.fd; port = port; started = k.now s.calls }) s.active)
          ≤ weight t (clock s) s.active + (1 + t)
      waits = omega (
        arith,
        older s,
        timely.monotone s.calls,
        weight-emplace t (k.now (s.calls + 1))
            (record { fd = r.fd; port = port; started = k.now s.calls }) s.active,
      )

  launch_connect-measure :
      (port left : ℕ) (s : State) → measure left (launch_connect k port s) < measure (suc left) s
  unfolding launch_connect
  launch_connect-measure port left s =
      elim (Option-cases (k.connect s.calls (fds_of s.active) port)) [
        | inl e ↦
            let rest = record_fate_rest port is_other s in
            rw e (rw (rest.0, rest.2) (omega (arith, older s)))
        | inr (r, e) ↦
            let (light, same) = launch_reply-weight port r s in
            rw e (rw same (omega (arith, light)))
      ]

  fill-measure :
      (max_inflight : ℕ) (ports : List ℕ) (s : State)
      → let f = fill k max_inflight ports s in measure (length f.next) f ≤ measure (length ports) s
  unfolding fill
  fill-measure max_inflight [] s = omega arith
  fill-measure max_inflight (port ∷ ports) s =
      let step = launch_connect-measure port (length ports) s in
      let later = fill-measure max_inflight ports (launch_connect k port s) in
      elim (Bool-cases (ltb (length s.active) max_inflight && not (k.stop s.calls))) [
        | inl e ↦ rw e (omega (arith, step, later))
        | inr e ↦ rw e (omega arith)
      ]

  -- Filling launches a port, or leaves a socket to wait for.
  fill-progress :
      (max_inflight : ℕ) (ports : List ℕ) (s : State)
      → 0 < max_inflight
      → (not (is_empty ports) || not (is_empty s.active)) && not (k.stop s.calls) ≡ true
      → let f = fill k max_inflight ports s in
        (measure (length f.next) f < measure (length ports) s) ⊎ (is_empty f.active ≡ false)
  unfolding fill
  fill-progress max_inflight [] s room go = inr (ground arith)
  fill-progress max_inflight (port ∷ ports) s room go =
      let step = launch_connect-measure port (length ports) s in
      let later = fill-measure max_inflight ports (launch_connect k port s) in
      elim (Bool-cases (ltb (length s.active) max_inflight && not (k.stop s.calls))) [
        | inl e ↦ rw e (inl (omega (arith, step, later)))
        | inr e ↦ rw e (inr (ground arith))
      ]

  -- Events and timeouts leave the ports and the call counter alone, and add no weight.
  abbrev Lighter : ℕ → State → State → Type 0
  Lighter now s u =
      (weight t now u.active ≤ weight t now s.active) × (u.next ≡ s.next) × (u.calls ≡ s.calls)

  handle_event-Lighter :
      (now at : ℕ) (e : ℕ × ℕ) (s : State) → Lighter now s (handle_event k at e s)
  unfolding handle_event
  handle_event-Lighter now at (fd, se) s = elim (Option-cases (find_pending fd s.active)) [
    | inl e ↦ rw (e, handle_event) (omega arith, refl, refl)
    | inr (c, e) ↦
        let v = if se == 0 then is_open (at - c.started) else failure k.errno se in
        let rest = record_fate_rest c.port v (record s { active = erase fd s.active }) in
        rw (e, handle_event)
          (rw rest.0 (omega (arith, weight-erase t now fd s.active c e)), rest.1, rest.2)
  ]

  handle_events-Lighter :
      (now at : ℕ) (events : List (ℕ × ℕ)) (s : State) → Lighter now s (handle_events k at events s)
  unfolding handle_events
  handle_events-Lighter now at [] s = (omega arith, refl, refl)
  handle_events-Lighter now at (e ∷ events) s =
      let (light, same, same') = handle_event-Lighter now at e s in
      let (light', same2, same2') = handle_events-Lighter now at events (handle_event k at e s) in
      (omega (arith, light, light'), same2 ∙ same, same2' ∙ same')

  -- Sweeping: an entry goes, or it stays with less time than it had `before`.
  sweep-Lighter :
      (before now : ℕ) (left : List Pending) (s : State)
      → let u = sweep k t now left s in
        (weight t now u.active ≤ weight t now s.active + weight t now left)
        × (before < now
            → weight t now u.active + length left ≤ weight t now s.active + weight t before left)
        × (u.next ≡ s.next)
        × (u.calls ≡ s.calls)
  unfolding sweep expire weight
  sweep-Lighter before now [] s = (omega arith, λ h. omega arith, refl, refl)
  sweep-Lighter before now (c ∷ left) s =
      let (light, lighter, same, same') = sweep-Lighter before now left (expire k t now c s) in
      elim (Bool-cases (leb t (now - c.started))) [
        | inl e ↦
            let rest = record_fate_rest c.port timed_out s in
            let gone : (expire k t now c s).active ≡ s.active = rw e rest.0 in
            let weights = ap (weight t now) gone in
            (
              omega (arith, light, weights),
              λ h. omega (arith, lighter h, weights),
              same ∙ rw e rest.1,
              same' ∙ rw e rest.2,
            )
        | inr e ↦
            let kept : (expire k t now c s).active ≡ s.active ++ c ∷ [] = rw e refl in
            let weights = ap (weight t now) kept ∙ weight-append t now s.active (c ∷ []) in
            let time_left : now - c.started < t = ground arith in
            (
              omega (arith, light, weights),
              λ h. omega (arith, lighter h, weights),
              same ∙ rw e refl,
              same' ∙ rw e refl,
            )
      ]

  handle_event_done :
      (now : ℕ) (e : ℕ × ℕ) (s : State) (c : Pending)
      → find_pending e.0 s.active ≡ some c
      → weight t now (handle_event k now e s).active < weight t now s.active
  unfolding handle_event
  handle_event_done now (fd, se) s c e =
      let v = if se == 0 then is_open (now - c.started) else failure k.errno se in
      let rest = record_fate_rest c.port v (record s { active = erase fd s.active }) in
      rw (e, handle_event) (rw rest.0 (weight-erase t now fd s.active c e))

  -- A wait that takes `events` uses up some weight: a socket is done, or time has passed.
  settle-measure :
      (before : ℕ) (events : List (ℕ × ℕ)) (s : State)
      → is_empty s.active ≡ false
      → before ≤ clock s
      → (events ≡ [] → before < clock s)
      → All (λ (e : ℕ × ℕ). any (λ fd. fd == e.0) (fds_of s.active) ≡ true) events
      → let u = settle k t events s in
        (weight t (clock s) u.active < weight t before s.active)
        × (u.next ≡ s.next)
        × (u.calls ≡ s.calls)
  unfolding settle handle_events
  settle-measure before [] s busy h passed w =
      let (light, lighter, same, same') =
        sweep-Lighter before (clock s) s.active (record s { active = [] }) in
      let waiting : 0 < length s.active = ground arith in
      (omega (arith, lighter (passed refl), waiting, weight-nil t (clock s)), same, same')
  settle-measure before (e ∷ events) s busy h passed (w, ws) =
      let now = clock s in
      let (c, found) = find_pending_total e.0 s.active w in
      let done = handle_event_done now e s c found in
      let (light, same, same') = handle_events-Lighter now now events (handle_event k now e s) in
      let (light1, same1, same1') = handle_event-Lighter now now e s in
      let s1 = handle_events k now events (handle_event k now e s) in
      let (light2, _, same2, same2') =
        sweep-Lighter now now s1.active (record s1 { active = [] }) in
      let aged = weight_mono t before now s.active h in
      (
        omega (arith, light, light2, done, aged, weight-nil t now),
        same2 ∙ same ∙ same1,
        same2' ∙ same' ∙ same1',
      )

  wait-measure :
      (s : State)
      → is_empty s.active ≡ false
      → measure (length (wait k t s).next) (wait k t s) < measure (length s.next) s
  unfolding wait
  wait-measure s busy =
      let events = k.epoll_wait s.calls (fds_of s.active) in
      let (lighter, same, same') =
        settle-measure (clock s) events (tick s) busy (timely.monotone s.calls)
          (timely.waits s.calls (fds_of s.active)) (timely.watched s.calls (fds_of s.active)) in
      rw (same, same') (omega (arith, lighter))

  -- Every round of a running loop lessens the measure.
  round-measure :
      (max_inflight : ℕ) (s : State)
      → 0 < max_inflight
      → running k s ≡ true
      → let u = round k t max_inflight s in measure (length u.next) u < measure (length s.next) s
  unfolding round running
  round-measure max_inflight s room go =
      let s1 = fill k max_inflight s.next s in
      let filled = fill-measure max_inflight s.next s in
      let progress = fill-progress max_inflight s.next s room (unfolded s go) in
      elim (Bool-cases (is_empty s1.active)) [
        | inl idle ↦ rw idle (ground (arith, progress))
        | inr busy ↦ rw busy (omega (arith, filled, wait-measure s1 busy))
      ]
    where
      unfolded :
          (s : State)
          → running k s ≡ true
          → (not (is_empty s.next) || not (is_empty s.active)) && not (k.stop s.calls) ≡ true
      unfolded s h = h

  loop-ends :
      (fuel max_inflight : ℕ) (s : State)
      → 0 < max_inflight
      → measure (length s.next) s < fuel
      → (u : State) × (loop k fuel t max_inflight s ≡ some u)
  unfolding loop
  loop-ends zero max_inflight s room h = absurd (omega arith)
  loop-ends (suc fuel) max_inflight s room h = elim (Bool-cases (running k s)) [
    | inl go ↦
        let (u, done) =
          loop-ends fuel max_inflight (round k t max_inflight s) room
            (omega (arith, round-measure max_inflight s room go)) in
        (u, rw (go, loop) done)
    | inr over ↦ (s, rw (over, loop))
  ]

-- On a kernel whose clock moves on, with an epoll descriptor, room for one socket and nobody who ever says
-- stop, the worker ends within `ports * (timeout + 2) + 1` rounds, whatever the network answers, and has
-- then scanned every port and counted it once.
pub scan_connect_worker_total :
    (k : Kernel) (ports : List ℕ) (timeout_ms max_inflight : ℕ)
    → IsTimely k
    → 0 < max_inflight
    → ((c : ℕ) → k.stop c ≡ false)
    → (r : WorkerResult) × (scan_connect_worker k
          (length ports * (timeout_ms + 2) + 1)
          true
          ports
          timeout_ms
          max_inflight
        ≡ some r)
      × (r.aborted ≡ false)
      × (r.scanned ≡ length ports)
      × (length r.open_ports + r.timeouts + r.refused + r.other ≡ length ports)
unfolding scan_connect_worker
scan_connect_worker_total k [] timeout_ms max_inflight timely room free =
    (empty_result, refl, refl, refl, omega arith)
scan_connect_worker_total k (p ∷ ports) timeout_ms max_inflight timely room free =
    let fuel = length (p ∷ ports) * (timeout_ms + 2) + 1 in
    let (u, done) =
      loop-ends k timely timeout_ms fuel max_inflight (start_state (p ∷ ports)) room
        (omega (arith, weight-nil timeout_ms (k.now 0))) in
    let result : scan_connect_worker k fuel true (p ∷ ports) timeout_ms max_inflight
        ≡ some (finish k u) =
      rw done refl in
    let counts =
      scan_connect_worker-IsAccounted k fuel true (p ∷ ports) timeout_ms max_inflight result in
    (
      finish k u,
      result,
      free u.calls,
      counts.2 (free u.calls),
      omega (arith, counts.0, counts.2 (free u.calls)),
    )
