-- ===== src/Scan/Worker/Launches.antt =====
-- The counters of the worker when a socket is launched: the invariant and the launch steps.
use mathlib.Core.Path.{subst}
use bye_bye_vpn.Common.{
  ℕ, suc, ◌+◌, ◌≤◌, false, not, List, [], ◌∷◌, some, ◌≡◌, refl, sym, ap, ◌∙◌, arith, ◌==◌, inl, inr,
  Bool-cases, Option-cases, any, length, length-append,
}
use bye_bye_vpn.Scan.Kernel.{ConnectReply, Kernel}
use bye_bye_vpn.Scan.Worker.{
  Pending, State, Fate, is_open, timed_out, is_refused, is_other, record_fate, emplace, erase,
  is_connect_in_progress_error, find_pending, fds_of, launch_reply, launch_connect,
}

-- Of `total` ports all but `open_work` are counted, each under one heading.
pub record Inv (total open_work : ℕ) (s : State) : Type 0 where
  pub accounted :
      s.out.scanned ≡ length s.out.open_ports + s.out.timeouts + s.out.refused + s.out.other
  pub conserved : s.out.scanned + open_work ≡ total
  pub shared : s.global_scanned ≡ s.out.scanned
  pub shared_open : s.global_open ≡ length s.out.open_ports

pub record_fate-Inv :
    (port total w : ℕ) (v : Fate) (s : State)
    → Inv total (suc w) s
    → Inv total w (record_fate port v s)
unfolding record_fate
record_fate-Inv port total w (is_open ms) s h = grind (arith, length-append)
record_fate-Inv port total w timed_out s h = omega arith
record_fate-Inv port total w is_refused s h = omega arith
record_fate-Inv port total w is_other s h = omega arith

-- Recording a fate leaves the sockets and the ports that wait.
pub record_fate_rest :
    (port : ℕ) (v : Fate) (s : State)
    → ((record_fate port v s).active ≡ s.active)
      × ((record_fate port v s).next ≡ s.next)
      × ((record_fate port v s).calls ≡ s.calls)
unfolding record_fate
record_fate_rest port (is_open ms) s = (refl, refl, refl)
record_fate_rest port timed_out s = (refl, refl, refl)
record_fate_rest port is_refused s = (refl, refl, refl)
record_fate_rest port is_other s = (refl, refl, refl)

any-fds_of :
    (fd : ℕ) (active : List Pending)
    → any (λ x. x == fd) (fds_of active) ≡ any (λ (c : Pending). c.fd == fd) active
any-fds_of fd [] = refl
any-fds_of fd (c ∷ active) = ground (arith, any-fds_of fd active)

length-emplace :
    (c : Pending) (active : List Pending)
    → any (λ x. x == c.fd) (fds_of active) ≡ false
    → length (emplace c active) ≡ length active + 1
unfolding emplace
length-emplace c active h = rw (sym (any-fds_of c.fd active) ∙ h) (length-append active (c ∷ []))

pub length-erase :
    (fd : ℕ) (active : List Pending) (c : Pending)
    → find_pending fd active ≡ some c
    → length (erase fd active) + 1 ≡ length active
unfolding erase find_pending
length-erase fd [] c h = cc
length-erase fd (x ∷ active) c h = ground (arith, length-erase fd active c)

-- The invariant of the outer loop: the work that is left is what waits and what is not launched.
abbrev pub LoopInv : ℕ → State → Type 0
LoopInv total s = Inv total (length s.active + length s.next) s

module _ (total w : ℕ) where
  pub relabel :
      (active : List Pending) (next : List ℕ) (calls : ℕ) (s : State)
      → Inv total w s
      → Inv total w (record s { active = active; next = next; calls = calls })
  relabel active next calls s h = record {
    accounted = h.accounted;
    conserved = h.conserved;
    shared = h.shared;
    shared_open = h.shared_open;
  }

  -- After a launch, with `w` ports not launched yet.
  abbrev pub AfterLaunch : State → State → Type 0
  AfterLaunch s t = Inv total (length t.active + w) t × (length t.active ≤ length s.active + 1)

  pub decided-AfterLaunch :
      (port : ℕ) (v : Fate) (s : State)
      → Inv total (suc (length s.active + w)) s
      → AfterLaunch s (record_fate port v s)
  decided-AfterLaunch port v s h =
      let same = ap length (record_fate_rest port v s).0 in
      (
        subst (λ n. Inv total n (record_fate port v s)) (omega (arith, same))
            (record_fate-Inv port total (length s.active + w) v s h),
        omega (arith, same),
      )

  pub waits-AfterLaunch :
      (c : Pending) (s : State)
      → any (λ fd. fd == c.fd) (fds_of s.active) ≡ false
      → Inv total (suc (length s.active + w)) s
      → AfterLaunch s (record s { active = emplace c s.active })
  waits-AfterLaunch c s fresh h =
      let longer = length-emplace c s.active fresh in
      (
        record {
          accounted = h.accounted;
          conserved = omega (arith, longer);
          shared = h.shared;
          shared_open = h.shared_open;
        },
        omega (arith, longer),
      )

-- An entry leaves the map and its port is counted.
pub erased-LoopInv :
    (total fd : ℕ) (c : Pending) (v : Fate) (s : State)
    → find_pending fd s.active ≡ some c
    → LoopInv total s
    → let t = record_fate c.port v (record s { active = erase fd s.active }) in
      LoopInv total t × (length t.active ≤ length s.active)
erased-LoopInv total fd c v s e h =
    let shorter = length-erase fd s.active c e in
    let s' = record s { active = erase fd s.active } in
    let before : Inv total (suc (length s'.active + length s'.next)) s' = record {
      accounted = h.accounted;
      conserved = omega (arith, shorter, h.conserved);
      shared = h.shared;
      shared_open = h.shared_open;
    } in
    let rest = record_fate_rest c.port v s' in
    let same = ap length rest.0 in
    let same' = ap length rest.1 in
    (
      subst (λ n. Inv total n (record_fate c.port v s')) (omega (arith, same, same'))
          (record_fate-Inv c.port total _ v s' before),
      omega (arith, shorter, same),
    )

module _ (k : Kernel) (total w : ℕ) where
  launch_reply-AfterLaunch :
      (port : ℕ) (r : ConnectReply) (s : State)
      → any (λ fd. fd == r.fd) (fds_of s.active) ≡ false
      → Inv total (suc (length s.active + w)) s
      → AfterLaunch total w s (launch_reply k port r s)
  unfolding launch_reply
  launch_reply-AfterLaunch port r s fresh h = elim (Bool-cases r.connected) [
    | inl e ↦ rw e (decided-AfterLaunch total w port _ s h)
    | inr e ↦ rw e (elim (Bool-cases (not (is_connect_in_progress_error k.errno r.err))) [
      | inl e ↦ rw e (decided-AfterLaunch total w port _ s h)
      | inr e ↦ rw e (elim (Bool-cases (not r.registered)) [
        | inl e ↦ rw e (decided-AfterLaunch total w port _ s h)
        | inr e ↦ rw e (waits-AfterLaunch total w _ s fresh h)
      ])
    ])
  ]

  pub launch_connect-AfterLaunch :
      (port : ℕ) (s : State)
      → Inv total (suc (length s.active + w)) s
      → AfterLaunch total w s (launch_connect k port s)
  unfolding launch_connect
  launch_connect-AfterLaunch port s h =
      elim (Option-cases (k.connect s.calls (fds_of s.active) port)) [
        | inl e ↦ rw e (
            let (inv, room) = decided-AfterLaunch total w port is_other s h in
            (relabel _ _ _ _ _ _ inv, room))
        | inr (r, e) ↦ rw e (
            let (inv, room) = launch_reply-AfterLaunch port r s (k.connect_fresh _ _ _ r e) h in
            (relabel _ _ _ _ _ _ inv, room))
      ]
