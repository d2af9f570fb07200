-- ===== src/Scan/Pool.antt =====
-- `run_connect_scan_with_pool` of src/network/tcp_async_scan.cpp, and `scan_tcp_async` where it
-- scans by `connect`. The workers' results are given, in the order of the shards; which futures are
-- ready at a look, the shared counter and the clock are the collector's surroundings.
pub mod Plan
pub mod Shards
pub mod Totals
pub mod Collected
pub mod Outcome
pub mod Ends
use mathlib.Core.Option
use bye_bye_vpn.Common.{
  ℕ, zero, suc, ◌+◌, ◌-◌, ◌*◌, ◌/◌, ◌%◌, min, max, Bool, true, false, not, ◌&&◌, ◌||◌, List, [],
  ◌∷◌, ◌++◌, Option, none, some, ◌==◌, ltb, leb, if◌then◌else◌, length, is_empty,
}
use bye_bye_vpn.Report.{TcpOpen}
use bye_bye_vpn.Scan.Worker.{WorkerResult, empty_result}

-- std::clamp(threads, 64, 16384); the command line lets no negative `threads` through.
unfoldable pub inflight_total : ℕ → ℕ
inflight_total threads = if ltb threads 64 then 64 else if ltb 16384 threads then 16384 else threads

-- `hw` is std::thread::hardware_concurrency().
unfoldable pub worker_count : ℕ → ℕ → ℕ → ℕ
unfolding inflight_total
worker_count hw threads n =
    let hw' = if hw == 0 then 4 else hw in
    let share = inflight_total threads / 256 in
    let workers = if ltb share 1 then 1 else if ltb (hw' * 2) share then hw' * 2 else share in
    min (if leb 2048 n then max 2 workers else workers) n

unfoldable pub inflight_per_worker : ℕ → ℕ → ℕ
unfolding inflight_total
inflight_per_worker threads workers = max 64 (inflight_total threads / workers)

-- `shards.at(j).push_back(port)`; out of range it throws.
unfoldable pub push_at : ℕ → ℕ → List (List ℕ) → Option (List (List ℕ))
push_at j port [] = none
push_at zero port (shard ∷ shards) = some ((shard ++ port ∷ []) ∷ shards)
push_at (suc j) port (shard ∷ shards) = elim (push_at j port shards) [
  | none ↦ none
  | some rest ↦ some (shard ∷ rest)
]

-- The loop over the ports, from index `i` on.
unfoldable pub deal : ℕ → ℕ → List ℕ → List (List ℕ) → Option (List (List ℕ))
deal workers i [] shards = some shards
deal workers i (port ∷ ports) shards = elim (push_at (i % workers) port shards) [
  | none ↦ none
  | some dealt ↦ deal workers (i + 1) ports dealt
]

-- What the loop over the futures adds for one result.
unfoldable pub add_result : WorkerResult → WorkerResult → WorkerResult
add_result total wr = record {
  open_ports = total.open_ports ++ wr.open_ports;
  scanned = total.scanned + wr.scanned;
  timeouts = total.timeouts + wr.timeouts;
  refused = total.refused + wr.refused;
  other = total.other + wr.other;
  aborted = total.aborted || wr.aborted;
}

-- A future: its result, and `taken`.
pub record Slot : Type 0 where
  pub taken : Bool
  pub result : WorkerResult

pub record Collector : Type 0 where
  pub total : WorkerResult
  pub slots : List Slot
  pub done : ℕ
  pub last_scanned : ℕ
  pub last_progress : ℕ
  pub watchdog_triggered : Bool
  pub stop_flag : Bool

-- What the collector sees at look number `n`.
pub record Surroundings : Type 0 where
  pub ready : ℕ → ℕ → Bool
  pub progress_scanned : ℕ → ℕ
  pub now : ℕ → ℕ

-- The pass over the futures, from index `i` on.
unfoldable pub collect :
    (ℕ → Bool) → ℕ → List Slot → WorkerResult → ℕ → WorkerResult × List Slot × ℕ
collect ready i [] total done = (total, [], done)
collect ready i (slot ∷ slots) total done =
    let skip = collect ready (i + 1) slots total done in
    let take = collect ready (i + 1) slots (add_result total slot.result) (done + 1) in
    if slot.taken || not (ready i)
    then (skip.0, slot ∷ skip.1, skip.2)
    else (take.0, record slot { taken = true } ∷ take.1, take.2)

unfoldable pub stall_limit_ms : ℕ → ℕ
stall_limit_ms timeout_ms = max 8000 (timeout_ms * 6)

-- The progress check at the end of a look.
unfoldable pub watchdog : ℕ → ℕ → ℕ → Collector → Collector
unfolding stall_limit_ms
watchdog timeout_ms now now_scanned c =
    if not (now_scanned == c.last_scanned)
    then record c { last_scanned = now_scanned; last_progress = now; watchdog_triggered = false }
    else if ltb (stall_limit_ms timeout_ms) (now - c.last_progress)
    then record c { watchdog_triggered = true; stop_flag = true }
    else c

unfoldable pub look : Surroundings → ℕ → ℕ → Collector → Collector
look world timeout_ms n c =
    let seen = collect (world.ready n) 0 c.slots c.total c.done in
    watchdog timeout_ms (world.now n) (world.progress_scanned n)
      (record c { total = seen.0; slots = seen.1; done = seen.2 })

-- The collector's loop, on fuel.
unfoldable pub collect_all : Surroundings → ℕ → ℕ → ℕ → Collector → Option Collector
collect_all world timeout_ms n zero c = none
collect_all world timeout_ms n (suc fuel) c = elim (ltb c.done (length c.slots)) [
  | true ↦ collect_all world timeout_ms (n + 1) fuel (look world timeout_ms n c)
  | false ↦ some c
]

pending_slots : List WorkerResult → List Slot
pending_slots [] = []
pending_slots (r ∷ results) = record { taken = false; result = r } ∷ pending_slots results

unfoldable pub start_collector : ℕ → List WorkerResult → Collector
unfolding pending_slots
start_collector now results = record {
  total = empty_result;
  slots = pending_slots results;
  done = 0;
  last_scanned = 0;
  last_progress = now;
  watchdog_triggered = false;
  stop_flag = false;
}

pub record ScanStats : Type 0 where
  pub scanned : ℕ
  pub timeouts : ℕ
  pub refused : ℕ
  pub other : ℕ
  pub skipped : Bool

insert_by_port : TcpOpen → List TcpOpen → List TcpOpen
insert_by_port o [] = o ∷ []
insert_by_port o (x ∷ open_ports) =
    if leb o.port x.port then o ∷ x ∷ open_ports else x ∷ insert_by_port o open_ports

-- std::ranges::sort by port; the order it gives to equal ports is not promised.
unfoldable pub sort_by_port : List TcpOpen → List TcpOpen
unfolding insert_by_port
sort_by_port [] = []
sort_by_port (o ∷ open_ports) = insert_by_port o (sort_by_port open_ports)

-- `*stats` of a scan by connect.
unfoldable pub stats_of : ℕ → WorkerResult → ScanStats
stats_of n total = record {
  scanned = total.scanned;
  timeouts = total.timeouts;
  refused = total.refused;
  other = total.other;
  skipped = total.aborted || ltb total.scanned n;
}

-- What scan_tcp_async returns for the workers' total.
unfoldable pub scan_outcome : ℕ → WorkerResult → List TcpOpen × ScanStats
unfolding stats_of sort_by_port
scan_outcome n total = (sort_by_port total.open_ports, stats_of n total)
