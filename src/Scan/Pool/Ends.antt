-- ===== src/Scan/Pool/Ends.antt =====
-- The collector's loop ends, and what its watchdog does.
use bye_bye_vpn.Common.{
  ℕ, zero, suc, ◌+◌, ◌-◌, ◌≤◌, ◌<◌, max, ◌*◌, true, List, some, ◌≡◌, refl, ◌∙◌, arith, inl, inr,
  ◌==◌, Bool-cases, length, ltb, ◌↔◌, ◌⊎◌,
}
use bye_bye_vpn.Scan.Worker.{WorkerResult}
use bye_bye_vpn.Scan.Pool.{
  Collector, Surroundings, collect, watchdog, look, collect_all, start_collector, stall_limit_ms,
}
use bye_bye_vpn.Scan.Pool.Totals.{waiting, collect-waiting}
use bye_bye_vpn.Scan.Pool.Collected.{start_lem, watchdog_rest}

-- The watchdog raises the stop flag when the counter has not moved since the last look and the last
-- progress is more than max(8000, 6 * timeout) ms old, and in no other case.
pub watchdog_lem :
    (t now scanned : ℕ) (c : Collector)
    → ((watchdog t now scanned c).stop_flag ≡ true) ↔ (
        (c.stop_flag ≡ true)
        ⊎ ((scanned ≡ c.last_scanned) × (max 8000 (t * 6) < now - c.last_progress)))
unfolding watchdog stall_limit_ms
watchdog_lem t now scanned c = ground arith

-- After a look at which every future is ready, nothing waits.
abbrev CountInv : ℕ → Collector → Type 0
CountInv n c = (length c.slots ≡ n) × (c.done + waiting c.slots ≡ n)

module _ (world : Surroundings) (t n ready_from : ℕ) where
  look-CountInv :
      (at_look : ℕ) (c : Collector)
      → CountInv n c
      → CountInv n (look world t at_look c)
        × (((j : ℕ) → world.ready at_look j ≡ true) → (look world t at_look c).done ≡ n)
  unfolding look
  look-CountInv at_look c (long, counted) =
      let ready = world.ready at_look in
      let seen = collect ready 0 c.slots c.total c.done in
      let next = record c { total = seen.0; slots = seen.1; done = seen.2 } in
      let (same_total, same_slots, same_done) =
        watchdog_rest t (world.now at_look) (world.progress_scanned at_look) next in
      let (kept, long', all_taken) = collect-waiting ready 0 c.slots c.total c.done in
      rw (same_slots, same_done)
        ((long' ∙ long, kept ∙ counted), λ h. omega (arith, kept, counted, all_taken h))

  -- The looks that are left are enough, or nothing is left to take.
  abbrev Enough : ℕ → ℕ → Collector → Type 0
  Enough fuel at_look c =
      ((ready_from + 2 ≤ fuel + at_look) × (at_look ≤ ready_from)) ⊎ ((c.done ≡ n) × (1 ≤ fuel))

  collect_all-ends :
      (fuel at_look : ℕ) (c : Collector)
      → ((m j : ℕ) → ready_from ≤ m → world.ready m j ≡ true)
      → CountInv n c
      → Enough fuel at_look c
      → (d : Collector) × (collect_all world t at_look fuel c ≡ some d)
  unfolding collect_all
  collect_all-ends zero at_look c h inv enough = absurd (ground (arith, enough))
  collect_all-ends (suc fuel) at_look c h inv enough =
      let (inv', all_done) = look-CountInv at_look c inv in
      let c' = look world t at_look c in
      elim (Bool-cases (ltb c.done (length c.slots))) [
        | inl more ↦
            let early : (ready_from + 2 ≤ suc fuel + at_look) × (at_look ≤ ready_from) =
              ground (arith, enough, more, inv) in
            let next : Enough fuel (at_look + 1) c' = elim (Bool-cases (at_look == ready_from)) [
              | inl last ↦
                  inr (all_done (λ j. h at_look j (ground (arith, last))), omega (arith, early))
              | inr not_last ↦ inl (ground (arith, not_last, early))
            ] in
            let (d, e) = collect_all-ends fuel (at_look + 1) c' h inv' next in
            (d, rw (more, collect_all) e)
        | inr over ↦ (c, rw (over, collect_all) refl)
      ]

-- When every future is ready from some look on, the collector's loop ends.
pub collect_all_total :
    (world : Surroundings) (t now ready_from : ℕ) (results : List WorkerResult)
    → ((m j : ℕ) → ready_from ≤ m → world.ready m j ≡ true)
    → (d : Collector) × (collect_all world t 0 (ready_from + 2) (start_collector now results)
        ≡ some d)
unfolding start_collector
collect_all_total world t now ready_from results h =
    let (_, long, all_wait) = start_lem (λ r. 0) now results in
    collect_all-ends world t (length results) ready_from (ready_from + 2) 0
      (start_collector now results) h (long, omega (arith, all_wait))
      (inl (omega arith, omega arith))
