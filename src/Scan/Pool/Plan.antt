-- ===== src/Scan/Pool/Plan.antt =====
-- How many workers and sockets a scan by connect uses.
use bye_bye_vpn.Common.{min, ℕ, ◌*◌, ◌/◌, ◌≤◌, ◌<◌, max, ◌≡◌, arith, ◌⊎◌, inl, inr, Bool-cases, leb}
use bye_bye_vpn.Scan.Pool.{inflight_total, worker_count, inflight_per_worker}

-- There is at least one worker, no more workers than ports, and never more than 64.
pub worker_count_bounds :
    (hw threads n : ℕ)
    → 0 < n
    → (1 ≤ worker_count hw threads n)
      × (worker_count hw threads n ≤ n)
      × (worker_count hw threads n ≤ 64)
unfolding worker_count inflight_total
worker_count_bounds hw threads n h = grind arith

worker_count_share :
    (hw threads n : ℕ)
    → 0 < n
    → (worker_count hw threads n ≤ 2) × (1 ≤ worker_count hw threads n)
      ⊎ (worker_count hw threads n * 256 ≤ inflight_total threads)
unfolding worker_count inflight_total
worker_count_share hw threads n h = grind arith

share_bound : (w i : ℕ) → 1 ≤ w → w * (i / w) ≤ i
share_bound w i h = grind arith

mul_max_bound : (w a b bound : ℕ) → w * a ≤ bound → w * b ≤ bound → w * max a b ≤ bound
mul_max_bound w a b bound h k = elim (Bool-cases (leb a b)) [
  | inl e ↦ let pick : max a b ≡ b = ground arith in rw pick k
  | inr e ↦ let pick : max a b ≡ a = ground arith in rw pick h
]

inflight_total_lem : (threads : ℕ) → inflight_total threads ≡ min 16384 (max 64 threads)
unfolding inflight_total
inflight_total_lem threads = ground arith

-- All workers together open at most as many sockets as `--threads` asks for once it is clamped to
-- 64 and 16384, or 128 if that is more.
pub sockets_bound :
    (hw threads n : ℕ)
    → 0 < n
    → worker_count hw threads n * inflight_per_worker threads (worker_count hw threads n)
      ≤ max 128 (min 16384 (max 64 threads))
unfolding inflight_per_worker
sockets_bound hw threads n h =
    let w = worker_count hw threads n in
    let (some_worker, few, fewer) = worker_count_bounds hw threads n h in
    rw (← inflight_total_lem threads) (
      mul_max_bound w 64 (inflight_total threads / w) _
        (grind (arith, worker_count_share hw threads n h))
        (omega (arith, share_bound w (inflight_total threads) some_worker)))
