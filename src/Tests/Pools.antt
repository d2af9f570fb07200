-- ===== src/Tests/Pools.antt =====
-- Two workers on three ports, and the collector (src/network/tcp_async_scan.cpp).
use bye_bye_vpn.Common.{
  min, ℕ, ◌+◌, ◌*◌, ◌≤◌, max, false, List, [], ◌∷◌, some, ◌≡◌, refl, arith, length, leb, replicate,
}
use bye_bye_vpn.PortScan.Asked.{IsAsked, build_tcp_ports-IsAsked}
use bye_bye_vpn.PortScan.{PortChoice, range}
use bye_bye_vpn.Scan.Pool.Ends.{collect_all_total}
use bye_bye_vpn.Scan.Pool.Outcome.{IsScanOf, scan_outcome-IsScanOf}
use bye_bye_vpn.Scan.Pool.Plan.{sockets_bound}
use bye_bye_vpn.Scan.Pool.Shards.{ports_in, count_in, deal-shards}
use bye_bye_vpn.Scan.Pool.{
  inflight_total, worker_count, inflight_per_worker, deal, Collector, Surroundings, collect_all,
  start_collector, watchdog, scan_outcome, collect, look, add_result, stall_limit_ms,
}
use bye_bye_vpn.Scan.Worker.Ports.{count}
use bye_bye_vpn.Scan.Worker.{WorkerResult}

-- The first worker is ready at the third look, the second one at the second.
abbrev world : Surroundings
world = record { ready = λ n i. leb 2 (n + i); progress_scanned = λ n. n; now = λ n. n * 20 }

abbrev asked : List ℕ
asked = 443 ∷ 80 ∷ 22 ∷ []

abbrev shards : List (List ℕ)
shards = (443 ∷ 22 ∷ []) ∷ (80 ∷ []) ∷ []

abbrev first_result : WorkerResult
first_result = record {
  open_ports = record { port = 443; connect_ms = 4; banner = []; err = [] } ∷ [];
  scanned = 2;
  timeouts = 0;
  refused = 1;
  other = 0;
  aborted = false;
}

abbrev second_result : WorkerResult
second_result = record {
  open_ports = record { port = 80; connect_ms = 3; banner = []; err = [] } ∷ [];
  scanned = 1;
  timeouts = 0;
  refused = 0;
  other = 0;
  aborted = false;
}

abbrev results : List WorkerResult
results = first_result ∷ second_result ∷ []

collected : (d : Collector) × (collect_all world 1000 0 4 (start_collector 0 results) ≡ some d)
unfolding collect_all look collect watchdog add_result start_collector stall_limit_ms
collected = (_, refl)

scan_outcome-IsScanOf_example : IsScanOf asked (scan_outcome 3 collected.0.total)
scan_outcome-IsScanOf_example =
    scan_outcome-IsScanOf world 4 1000 0 asked shards refl (λ p. omega arith) results
      (
        ((refl, omega arith, λ e. refl), λ p. omega arith),
        (((refl, omega arith, λ e. refl), λ p. omega arith), tt),
      )
      {d = collected.0} collected.1

collect_all_total_example :
    (d : Collector) × (collect_all world 1000 0 (2 + 2) (start_collector 0 results) ≡ some d)
collect_all_total_example = collect_all_total world 1000 0 2 results (λ m j h. ground (arith, h))

deal-shards_example :
    (dealt : List (List ℕ)) × (deal 2 0 asked (replicate 2 []) ≡ some dealt)
    × (length dealt ≡ 2)
    × (ports_in dealt ≡ length asked)
    × ((p : ℕ) → count_in p dealt ≡ count p asked)
deal-shards_example = deal-shards 2 asked (omega arith)

sockets_bound_example :
    worker_count 8 1 65535 * inflight_per_worker 1 (worker_count 8 1 65535)
    ≤ max 128 (min 16384 (max 64 1))
sockets_bound_example = sockets_bound 8 1 65535 (omega arith)

-- One thread asked for, 128 sockets opened.
one_thread : worker_count 8 1 65535 * inflight_per_worker 1 (worker_count 8 1 65535) ≡ 128
unfolding worker_count inflight_per_worker inflight_total
one_thread = refl

abbrev low_ports : PortChoice
low_ports = record { mode = range; range_lo = 20; range_hi = 25; port_list = [] }

build_tcp_ports-IsAsked_example : IsAsked low_ports 22
build_tcp_ports-IsAsked_example = build_tcp_ports-IsAsked low_ports 22
