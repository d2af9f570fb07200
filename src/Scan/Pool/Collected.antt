-- ===== src/Scan/Pool/Collected.antt =====
-- What the collector's loop leaves behind: it has every worker's result, added up once.
use bye_bye_vpn.Common.{
  ℕ, zero, suc, ◌+◌, false, List, [], ◌∷◌, some, ◌≡◌, refl, ◌∙◌, arith, inl, inr, Bool-cases,
  length, ltb, ap, sym,
}
use bye_bye_vpn.Scan.Worker.{WorkerResult, empty_result}
use bye_bye_vpn.Scan.Pool.{
  add_result, Slot, Collector, Surroundings, collect, watchdog, look, collect_all, pending_slots,
  start_collector,
}
use bye_bye_vpn.Scan.Pool.Totals.{
  taken_sum, sum, collect-taken_sum, collect-sum, waiting, collect-waiting, abort_mark,
  collect-aborted,
}

-- The watchdog leaves the results alone.
pub watchdog_rest :
    (t now scanned : ℕ) (c : Collector)
    → ((watchdog t now scanned c).total ≡ c.total)
      × ((watchdog t now scanned c).slots ≡ c.slots)
      × ((watchdog t now scanned c).done ≡ c.done)
unfolding watchdog
watchdog_rest t now scanned c = ground arith

abbrev pub Additive : (WorkerResult → ℕ) → Type 0
Additive f = (f empty_result ≡ 0) × ((a b : WorkerResult) → f (add_result a b) ≡ f a + f b)

-- What holds at every look, for `n` results whose numbers `f` add up to `all_f`.
abbrev pub CollectInv : (WorkerResult → ℕ) → ℕ → ℕ → ℕ → Collector → Type 0
CollectInv f n all_f all_aborted c =
    (f c.total ≡ taken_sum f c.slots)
    × (sum f c.slots ≡ all_f)
    × (sum abort_mark c.slots ≡ all_aborted)
    × (c.total.aborted ≡ false → taken_sum abort_mark c.slots ≡ 0)
    × (length c.slots ≡ n)
    × (c.done + waiting c.slots ≡ n)

waiting-sum :
    (f : WorkerResult → ℕ) (slots : List Slot) → waiting slots ≡ 0 → taken_sum f slots ≡ sum f slots
waiting-sum f [] h = refl
waiting-sum f (slot ∷ slots) h = elim (Bool-cases slot.taken) [
  | inl e ↦ rw e (omega (arith, waiting-sum f slots (ground (arith, e))))
  | inr e ↦ absurd (ground (arith, e))
]

module _ (world : Surroundings) (t n all_f all_aborted : ℕ) (f : WorkerResult → ℕ)
    (add : Additive f) where
  pub look-CollectInv :
      (at_look : ℕ) (c : Collector)
      → CollectInv f n all_f all_aborted c
      → CollectInv f n all_f all_aborted (look world t at_look c)
  unfolding look
  look-CollectInv at_look c (sums, total_sum, total_aborted, clean, long, counted) =
      let ready = world.ready at_look in
      let seen = collect ready 0 c.slots c.total c.done in
      let next = record c { total = seen.0; slots = seen.1; done = seen.2 } in
      let (same_total, same_slots, same_done) =
        watchdog_rest t (world.now at_look) (world.progress_scanned at_look) next in
      let (kept, long', _) = collect-waiting ready 0 c.slots c.total c.done in
      rw (same_total, same_slots, same_done)
        (
          omega (arith, sums, collect-taken_sum f add.1 ready 0 c.slots c.total c.done),
          collect-sum f ready 0 c.slots c.total c.done ∙ total_sum,
          collect-sum abort_mark ready 0 c.slots c.total c.done ∙ total_aborted,
          λ h.
              let (was_clean, same) = collect-aborted ready 0 c.slots c.total c.done h in
              same ∙ clean was_clean,
          long' ∙ long,
          kept ∙ counted,
        )

  collect_all-CollectInv :
      (fuel at_look : ℕ) (c : Collector) {d : Collector}
      → CollectInv f n all_f all_aborted c
      → collect_all world t at_look fuel c ≡ some d
      → CollectInv f n all_f all_aborted d × (waiting d.slots ≡ 0)
  unfolding collect_all
  collect_all-CollectInv zero at_look c h e = cc
  collect_all-CollectInv (suc fuel) at_look c {d} h e =
      elim (Bool-cases (ltb c.done (length c.slots))) [
        | inl more ↦
            collect_all-CollectInv fuel (at_look + 1) (look world t at_look c) {d = d}
              (look-CollectInv at_look c h) (ground arith)
        | inr over ↦ let same : c ≡ d = ground arith in rw (← same) (h, ground (arith, h, over))
      ]

pub start_lem :
    (f : WorkerResult → ℕ) (now : ℕ) (results : List WorkerResult)
    → let slots = (start_collector now results).slots in
      (taken_sum f slots ≡ 0) × (length slots ≡ length results) × (waiting slots ≡ length results)
unfolding start_collector pending_slots
start_lem f now [] = (refl, refl, refl)
start_lem f now (r ∷ results) =
    let (taken, long, all_wait) = start_lem f now results in
    (omega (arith, taken), omega (arith, long), omega (arith, all_wait))

-- The number `f` of every result.
abbrev pub sum_of : (WorkerResult → ℕ) → List WorkerResult → ℕ
sum_of f [] = 0
sum_of f (r ∷ results) = f r + sum_of f results

pub start-sum :
    (f : WorkerResult → ℕ) (now : ℕ) (results : List WorkerResult)
    → sum f (start_collector now results).slots ≡ sum_of f results
unfolding start_collector pending_slots
start-sum f now [] = refl
start-sum f now (r ∷ results) = ap (◌+◌ (f r)) (start-sum f now results)

-- When the collector's loop ends, whenever the workers were ready, every number of the total is the
-- sum over all workers, and a total that is not aborted has no aborted worker.
pub collect_all-sum_of :
    (world : Surroundings) (fuel t now : ℕ) (results : List WorkerResult) (f : WorkerResult → ℕ)
    → Additive f
    → {d : Collector} → collect_all world t 0 fuel (start_collector now results) ≡ some d
    → (f d.total ≡ sum_of f results) × (d.total.aborted ≡ false → sum_of abort_mark results ≡ 0)
unfolding start_collector
collect_all-sum_of world fuel t now results f add {d} e =
    let (none_taken, long, all_wait) = start_lem f now results in
    let (none_aborted, _, _) = start_lem abort_mark now results in
    let ((sums, total_sum, total_aborted, clean, long', counted), over) =
      collect_all-CollectInv world t (length results) _ _ f add fuel 0 (start_collector now results)
        {d = d}
        (
          add.0 ∙ sym none_taken,
          start-sum f now results,
          start-sum abort_mark now results,
          λ h. none_aborted,
          long,
          omega (arith, all_wait),
        )
        e in
    (
      sums ∙ waiting-sum f d.slots over ∙ total_sum,
      λ h. sym (waiting-sum abort_mark d.slots over ∙ total_aborted) ∙ clean h,
    )
