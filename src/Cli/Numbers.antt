-- ===== src/Cli/Numbers.antt =====
-- The numbers that the command line accepts are within the bounds that it asks for.
use bye_bye_vpn.Common.{
  ℕ, ◌≤◌, true, List, [], ◌∷◌, ◌++◌, some, ◌==◌, ◌≡◌, arith, inl, inr, Bool-cases, Option-cases,
  is_empty, all, all-append, pos, negsuc, Bytes, within,
}
use bye_bye_vpn.Cli.{strtol, try_parse_int, parse_int_fatal, read_port, read_ports}

pub parse_int_fatal_bounds :
    (s : Bytes) (lo hi : ℕ) {n : ℕ} → parse_int_fatal s lo hi ≡ some n → (lo ≤ n) × (n ≤ hi)
unfolding parse_int_fatal try_parse_int
parse_int_fatal_bounds s lo hi {n} h = elim (Bool-cases (is_empty s)) [
  | inl e ↦ absurd (ground (arith, rw (e, parse_int_fatal, try_parse_int) at h))
  | inr e ↦ elim (Option-cases (strtol s)) [
    | inl m ↦ absurd (ground (arith, rw (e, m, parse_int_fatal, try_parse_int) at h))
    | inr (pos v, m) ↦ ground (arith, rw (e, m, parse_int_fatal, try_parse_int) at h)
    | inr (negsuc v, m) ↦ ground (arith, rw (e, m, parse_int_fatal, try_parse_int) at h)
  ]
]

read_port_lem :
    (tok : Bytes) (ports : List ℕ) {read : List ℕ}
    → all (within 1 65535) ports ≡ true
    → read_port tok ports ≡ some read
    → all (within 1 65535) read ≡ true
unfolding read_port
read_port_lem tok ports {read} h e = elim (Bool-cases (is_empty tok)) [
  | inl t ↦ let same : ports ≡ read = ground (arith, t, e) in rw (← same) h
  | inr t ↦ elim (Option-cases (parse_int_fatal tok 1 65535)) [
    | inl m ↦ absurd (ground (arith, rw (t, m, read_port) at e))
    | inr (n, m) ↦
        let same : ports ++ n ∷ [] ≡ read = ground (arith, rw (t, m, read_port) at e) in
        let bounds = parse_int_fatal_bounds tok 1 65535 {n = n} m in
        rw (← same, all-append) (ground (arith, h, bounds))
  ]
]

pub read_ports_lem :
    (tok : Bytes) (ports : List ℕ) (s : Bytes) {read : List ℕ}
    → all (within 1 65535) ports ≡ true
    → read_ports tok ports s ≡ some read
    → all (within 1 65535) read ≡ true
unfolding read_ports
read_ports_lem tok ports [] h e = read_port_lem tok ports h e
read_ports_lem tok ports (c ∷ s) {read} h e = elim (Bool-cases (c == b',')) [
  | inr n ↦ read_ports_lem (tok ++ c ∷ []) ports s {read = read} h (rw (n, read_ports) at e)
  | inl n ↦ elim (Option-cases (read_port tok ports)) [
    | inl m ↦ absurd (ground (arith, rw (n, m, read_ports) at e))
    | inr (more, m) ↦
        read_ports_lem [] more s {read = read} (read_port_lem tok ports {read = more} h m)
          (rw (n, m, read_ports) at e)
  ]
]
