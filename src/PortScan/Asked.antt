-- ===== src/PortScan/Asked.antt =====
-- Which ports are in the list that `build_tcp_ports` makes, and how often.
use bye_bye_vpn.Common.{
  ℕ, zero, suc, ◌+◌, ◌-◌, ◌≤◌, min, max, Bool, true, false, ◌&&◌, List, [], ◌∷◌, ◌≡◌, refl, arith,
  inl, inr, ◌==◌, ltb, within, if◌then◌else◌, Bool-cases, all,
}
use bye_bye_vpn.PortScan.{
  PortMode, full, fast, range, list, PortChoice, ports_from, range_ports, build_tcp_ports,
  tcp_fast_ports,
}
use bye_bye_vpn.Scan.Worker.Ports.{count}

-- 1 for a port between `lo` and `hi`.
abbrev pub once_within : ℕ → ℕ → ℕ → ℕ
once_within lo hi p = if within lo hi p then 1 else 0

count-ports_from :
    (p fuel i hi : ℕ) → hi + 1 ≤ fuel + i → count p (ports_from fuel i hi) ≡ once_within i hi p
unfolding ports_from
count-ports_from p zero i hi h = ground arith
count-ports_from p (suc fuel) i hi h =
    ground (arith, count-ports_from p fuel (i + 1) hi (omega arith))

count-range_ports : (p lo hi : ℕ) → count p (range_ports lo hi) ≡ once_within lo hi p
unfolding range_ports
count-range_ports p lo hi = elim (Bool-cases (ltb hi lo)) [
  | inl e ↦ rw e (ground (arith, e))
  | inr e ↦ rw e (count-ports_from p (hi + 1 - lo) lo hi (omega arith))
]

all-count :
    (p : ℕ) (test : ℕ → Bool) (ports : List ℕ)
    → all test ports ≡ true
    → test p ≡ false
    → count p ports ≡ 0
all-count p test [] h off = refl
all-count p test (q ∷ ports) h off = elim (Bool-cases (q == p)) [
  | inl e ↦ let same : q ≡ p = ground (arith, e) in absurd (cc (rw same at h, off))
  | inr e ↦ rw e (omega (arith, all-count p test ports (ground (arith, h)) off))
]

abbrev increasing : ℕ → List ℕ → Bool
increasing lo [] = true
increasing lo (q ∷ ports) = ltb lo q && increasing q ports

increasing-count :
    (p lo : ℕ) (ports : List ℕ)
    → increasing lo ports ≡ true
    → count p ports ≤ (if ltb lo p then 1 else 0)
increasing-count p lo [] h = ground arith
increasing-count p lo (q ∷ ports) h = ground (arith, h, increasing-count p q ports)

fast_in_order : (increasing 0 tcp_fast_ports ≡ true) × (all (within 1 65535) tcp_fast_ports ≡ true)
unfolding tcp_fast_ports
fast_in_order = (refl, refl)

fast_once : (p : ℕ) → count p tcp_fast_ports ≤ once_within 1 65535 p
fast_once p = elim (Bool-cases (within 1 65535 p)) [
  | inl e ↦ rw e (grind (arith, increasing-count p 0 tcp_fast_ports fast_in_order.0))
  | inr e ↦ rw e (omega (arith, all-count p (within 1 65535) tcp_fast_ports fast_in_order.1 e))
]

-- What a port choice asks for.
abbrev pub IsAsked : PortChoice → ℕ → Type 0
IsAsked c p = elim c.mode [
  | full ↦ count p (build_tcp_ports c) ≡ once_within 1 65535 p
  | range ↦ count p (build_tcp_ports c) ≡ once_within (max 1 c.range_lo) (min 65535 c.range_hi) p
  | fast ↦ count p (build_tcp_ports c) ≤ once_within 1 65535 p
  | list ↦ build_tcp_ports c ≡ c.port_list
]

module _ (lo hi p : ℕ) (ports : List ℕ) where
  by_mode :
      (m : PortMode)
      → IsAsked (record { mode = m; range_lo = lo; range_hi = hi; port_list = ports }) p
  unfolding build_tcp_ports
  by_mode full = count-range_ports p 1 65535
  by_mode fast = fast_once p
  by_mode range = count-range_ports p (max 1 lo) (min 65535 hi)
  by_mode list = refl

-- A full scan asks for each of the ports 1 to 65535 exactly once, a scan of a range for exactly the
-- ports of the range that are port numbers, once each, a fast scan for no port twice and for port
-- numbers only, and a scan of a list for that list.
pub build_tcp_ports-IsAsked : (c : PortChoice) (p : ℕ) → IsAsked c p
build_tcp_ports-IsAsked c p = by_mode c.range_lo c.range_hi p c.port_list c.mode
