-- ===== src/Scan/Pool/Shards.antt =====
-- The ports are dealt out to the workers, each to one.
use bye_bye_vpn.Common.{
  ℕ, zero, suc, ◌+◌, ◌%◌, ◌≤◌, ◌<◌, List, [], ◌∷◌, ◌++◌, some, ◌≡◌, refl, arith, length,
  length-append, replicate,
}
use bye_bye_vpn.Scan.Pool.{push_at, deal}
use bye_bye_vpn.Scan.Worker.Ports.{count, count-append}

abbrev pub ports_in : List (List ℕ) → ℕ
ports_in [] = 0
ports_in (shard ∷ shards) = length shard + ports_in shards

abbrev pub count_in : ℕ → List (List ℕ) → ℕ
count_in p [] = 0
count_in p (shard ∷ shards) = count p shard + count_in p shards

-- After `push_at`: as many shards, and one port more.
abbrev Pushed : ℕ → List (List ℕ) → List (List ℕ) → Type 0
Pushed port shards pushed =
    (length pushed ≡ length shards)
    × (ports_in pushed ≡ ports_in shards + 1)
    × ((p : ℕ) → count_in p pushed ≡ count_in p shards + count p (port ∷ []))

push_at_lem :
    (j port : ℕ) (shards : List (List ℕ))
    → j < length shards
    → (pushed : List (List ℕ)) × (push_at j port shards ≡ some pushed) × Pushed port shards pushed
unfolding push_at
push_at_lem j port [] h = absurd (omega arith)
push_at_lem zero port (shard ∷ shards) h = (
  (shard ++ port ∷ []) ∷ shards,
  refl,
  (
    refl,
    omega (arith, length-append shard (port ∷ [])),
    λ p. omega (arith, count-append p shard (port ∷ [])),
  ),
)
push_at_lem (suc j) port (shard ∷ shards) h =
    let (pushed, e, (longer, more, counted)) = push_at_lem j port shards (omega arith) in
    (
      shard ∷ pushed,
      rw e refl,
      (omega (arith, longer), omega (arith, more), λ p. omega (arith, counted p)),
    )

abbrev Dealt : List ℕ → List (List ℕ) → List (List ℕ) → Type 0
Dealt ports shards dealt =
    (length dealt ≡ length shards)
    × (ports_in dealt ≡ ports_in shards + length ports)
    × ((p : ℕ) → count_in p dealt ≡ count_in p shards + count p ports)

-- Dealing never runs out of range, and every port goes to a shard as often as it was given.
deal_lem :
    (workers i : ℕ) (ports : List ℕ) (shards : List (List ℕ))
    → 1 ≤ workers
    → length shards ≡ workers
    → (dealt : List (List ℕ)) × (deal workers i ports shards ≡ some dealt)
      × Dealt ports shards dealt
unfolding deal
deal_lem workers i [] shards h e = (shards, refl, (refl, omega arith, λ p. omega arith))
deal_lem workers i (port ∷ ports) shards h e =
    let (pushed, e1, (longer, more, counted)) =
      push_at_lem (i % workers) port shards (grind arith) in
    let (dealt, e2, (longer', more', counted')) =
      deal_lem workers (i + 1) ports pushed h (omega arith) in
    (dealt, rw (e1, deal) e2, (omega arith, omega arith, λ p. omega (arith, counted p, counted' p)))

abbrev no_ports : ℕ → List (List ℕ)
no_ports workers = replicate workers []

empty_shards :
    (workers : ℕ)
    → (length (no_ports workers) ≡ workers)
      × (ports_in (no_ports workers) ≡ 0)
      × ((p : ℕ) → count_in p (no_ports workers) ≡ 0)
empty_shards zero = (refl, refl, λ p. refl)
empty_shards (suc workers) =
    let (long, few, none_there) = empty_shards workers in
    (omega (arith, long), omega (arith, few), λ p. omega (arith, none_there p))

-- With a worker at least, dealing the ports out to empty shards never runs out of range: there are
-- as many shards as workers, with as many ports as were given, each as often as it was given.
pub deal-shards :
    (workers : ℕ) (ports : List ℕ)
    → 1 ≤ workers
    → (shards : List (List ℕ)) × (deal workers 0 ports (no_ports workers) ≡ some shards)
      × (length shards ≡ workers)
      × (ports_in shards ≡ length ports)
      × ((p : ℕ) → count_in p shards ≡ count p ports)
deal-shards workers ports h =
    let (long, few, none_there) = empty_shards workers in
    let (shards, e, (longer, more, counted)) = deal_lem workers 0 ports (no_ports workers) h long in
    (shards, e, omega arith, omega arith, λ p. omega (arith, counted p, none_there p))
