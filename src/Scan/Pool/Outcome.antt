-- ===== src/Scan/Pool/Outcome.antt =====
-- What a scan by connect returns: its list of open ports and its statistics.
use bye_bye_vpn.Common.{
  ℕ, suc, ◌+◌, ◌≤◌, false, List, [], ◌∷◌, some, ◌≡◌, refl, arith, inl, inr, Bool-cases, length,
  length-append, leb,
}
use bye_bye_vpn.Report.{TcpOpen}
use bye_bye_vpn.Scan.Worker.{WorkerResult}
use bye_bye_vpn.Scan.Worker.Ports.{hit, count, count_open, count_open-append}
use bye_bye_vpn.Scan.Worker.Accounts.{IsAccounted}
use bye_bye_vpn.Scan.Pool.{
  add_result, Collector, Surroundings, collect_all, start_collector, ScanStats, insert_by_port,
  sort_by_port, stats_of, scan_outcome,
}
use bye_bye_vpn.Scan.Pool.Shards.{ports_in, count_in}
use bye_bye_vpn.Scan.Pool.Totals.{abort_mark}
use bye_bye_vpn.Scan.Pool.Collected.{collect_all-sum_of, sum_of, Additive}

abbrev pub IsSorted : List TcpOpen → Type 0
IsSorted [] = Unit
IsSorted (o ∷ []) = Unit
IsSorted (o ∷ x ∷ rest) = (o.port ≤ x.port) × IsSorted (x ∷ rest)

insert-count :
    (p : ℕ) (o : TcpOpen) (l : List TcpOpen)
    → count_open p (insert_by_port o l) ≡ hit p o.port + count_open p l
unfolding insert_by_port
insert-count p o [] = omega arith
insert-count p o (x ∷ l) = elim (Bool-cases (leb o.port x.port)) [
  | inl e ↦ rw e (omega arith)
  | inr e ↦ rw e (omega (arith, insert-count p o l))
]

insert-length : (o : TcpOpen) (l : List TcpOpen) → length (insert_by_port o l) ≡ suc (length l)
unfolding insert_by_port
insert-length o [] = refl
insert-length o (x ∷ l) = elim (Bool-cases (leb o.port x.port)) [
  | inl e ↦ rw e (omega arith)
  | inr e ↦ rw e (omega (arith, insert-length o l))
]

insert-IsSorted : (o : TcpOpen) (l : List TcpOpen) → IsSorted l → IsSorted (insert_by_port o l)
unfolding insert_by_port
insert-IsSorted o [] h = tt
insert-IsSorted o (x ∷ []) h = elim (Bool-cases (leb o.port x.port)) [
  | inl e ↦ rw e (ground (arith, e), tt)
  | inr e ↦ rw e (ground (arith, e), tt)
]
insert-IsSorted o (x ∷ y ∷ l) h =
    let rest = insert-IsSorted o (y ∷ l) h.1 in
    elim (Bool-cases (leb o.port x.port)) [
      | inl e ↦ rw e (ground (arith, e), h)
      | inr e ↦ rw e (elim (Bool-cases (leb o.port y.port)) [
        | inl e' ↦ rw e' (ground (arith, e), (rw e' at rest))
        | inr e' ↦ rw e' (h.0, (rw e' at rest))
      ])
    ]

sort_lem :
    (l : List TcpOpen)
    → IsSorted (sort_by_port l)
      × (length (sort_by_port l) ≡ length l)
      × ((p : ℕ) → count_open p (sort_by_port l) ≡ count_open p l)
unfolding sort_by_port
sort_lem [] = (tt, refl, λ p. refl)
sort_lem (o ∷ l) =
    let (sorted, long, counted) = sort_lem l in
    (
      insert-IsSorted o (sort_by_port l) sorted,
      omega (arith, insert-length o (sort_by_port l), long),
      λ p. omega (arith, insert-count p o (sort_by_port l), counted p),
    )

-- What every worker promises of its shard.
abbrev pub AllAccounted : List (List ℕ) → List WorkerResult → Type 0
AllAccounted [] [] = Unit
AllAccounted (shard ∷ shards) (r ∷ results) =
    (IsAccounted shard r × ((p : ℕ) → count_open p r.open_ports ≤ count p shard))
    × AllAccounted shards results
AllAccounted _ _ = ⊥

accounted_sums :
    (shards : List (List ℕ)) (results : List WorkerResult)
    → AllAccounted shards results
    → (sum_of (λ r. r.scanned) results
        ≡ sum_of (λ r. length r.open_ports) results
          + sum_of (λ r. r.timeouts) results
          + sum_of (λ r. r.refused) results
          + sum_of (λ r. r.other) results)
      × (sum_of (λ r. r.scanned) results ≤ ports_in shards)
      × (sum_of abort_mark results ≡ 0 → sum_of (λ r. r.scanned) results ≡ ports_in shards)
      × ((p : ℕ) → sum_of (λ r. count_open p r.open_ports) results ≤ count_in p shards)
accounted_sums [] [] h = (refl, omega arith, λ e. refl, λ p. omega arith)
accounted_sums [] (r ∷ results) h = absurd h
accounted_sums (shard ∷ shards) [] h = absurd h
accounted_sums (shard ∷ shards) (r ∷ results) (((parts, few, full), within_shard), rest) =
    let (parts', few', full', within_shards) = accounted_sums shards results rest in
    (
      omega (arith, parts, parts'),
      omega (arith, few, few'),
      λ e. elim (Bool-cases r.aborted) [
        | inl aborted ↦ absurd (ground (arith, e, aborted))
        | inr clean ↦ omega (arith, full clean, full' (ground (arith, e, clean)))
      ],
      λ p. omega (arith, within_shard p, within_shards p),
    )

-- What scan_tcp_async promises for these ports.
abbrev pub IsScanOf : List ℕ → List TcpOpen × ScanStats → Type 0
IsScanOf ports (open_ports, stats) =
    (stats.scanned ≡ length open_ports + stats.timeouts + stats.refused + stats.other)
    × (stats.scanned ≤ length ports)
    × (stats.skipped ≡ false → stats.scanned ≡ length ports)
    × IsSorted open_ports
    × ((p : ℕ) → count_open p open_ports ≤ count p ports)

-- When the ports are dealt out to the shards, every worker accounts for its shard and the collector
-- ends, then the statistics count every scanned port under one heading, a scan that is not marked
-- skipped has scanned every port, and the list is sorted and holds no port more often than asked for.
pub scan_outcome-IsScanOf :
    (world : Surroundings) (fuel t now : ℕ) (ports : List ℕ) (shards : List (List ℕ))
    → (ports_in shards ≡ length ports)
    → ((p : ℕ) → count_in p shards ≡ count p ports)
    → (results : List WorkerResult) → AllAccounted shards results
    → {d : Collector} → collect_all world t 0 fuel (start_collector now results) ≡ some d
    → IsScanOf ports (scan_outcome (length ports) d.total)
unfolding scan_outcome stats_of add_result
scan_outcome-IsScanOf world fuel t now ports shards all_dealt each_dealt results h {d} e =
    let (parts, few, full, asked) = accounted_sums shards results h in
    let (sorted, long, kept) = sort_lem d.total.open_ports in
    let total = λ (f : WorkerResult → ℕ) (add : Additive f).
      collect_all-sum_of world fuel t now results f add {d = d} e in
    let (scanned, clean) = total (λ r. r.scanned) (refl, λ a b. refl) in
    let (timeouts, _) = total (λ r. r.timeouts) (refl, λ a b. refl) in
    let (refused, _) = total (λ r. r.refused) (refl, λ a b. refl) in
    let (other, _) = total (λ r. r.other) (refl, λ a b. refl) in
    let (opened, _) =
      total (λ r. length r.open_ports) (refl, λ a b. length-append a.open_ports b.open_ports) in
    (
      omega (arith, parts, scanned, timeouts, refused, other, opened, long),
      omega (arith, scanned, few, all_dealt),
      λ whole. omega (arith, scanned, all_dealt, full (clean (ground (arith, whole)))),
      sorted,
      λ p.
          let (found, _) =
            total (λ r. count_open p r.open_ports)
              (refl, λ a b. count_open-append p a.open_ports b.open_ports) in
          omega (arith, kept p, found, asked p, each_dealt p),
    )
