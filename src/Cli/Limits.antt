-- ===== src/Cli/Limits.antt =====
-- The options that an accepted command line leads to are within their limits.
use bye_bye_vpn.Common.{
  ℕ, ◌+◌, ◌-◌, ◌≤◌, true, not, ◌&&◌, ◌||◌, List, [], ◌∷◌, Option, none, some, ◌==◌, ltb, ◌≡◌, refl,
  arith, ◌⊎◌, starts_with, inl, inr, Bool-cases, Option-cases, length, is_empty, take, drop, all,
  Bytes, text, bytes_eq, find_byte, within,
}
use bye_bye_vpn.Cli.{
  parse_int_fatal, Options, Step, next, skip, quit, number_option, range_option, read_ports,
  ports_option, plain_option, with_value, save_option, other_option, argument, Parsed, options,
  exit_code, parse_args, default_options,
}
use bye_bye_vpn.Cli.Numbers.{parse_int_fatal_bounds, read_ports_lem}

-- The limits of the options: numbers in range, a range of ports that is one, port numbers in the
-- list, a list that is not empty where it is used, and stealth with all that it turns on.
abbrev pub IsWithinLimits : Options → Type 0
IsWithinLimits o =
    ((1 ≤ o.threads) × (o.threads ≤ 10000))
    × ((1 ≤ o.tcp_to) × (o.tcp_to ≤ 60000))
    × ((1 ≤ o.udp_to) × (o.udp_to ≤ 60000))
    × ((1 ≤ o.ports.range_lo) × (o.ports.range_lo ≤ o.ports.range_hi) × (o.ports.range_hi ≤ 65535))
    × (all (within 1 65535) o.ports.port_list ≡ true)
    × (o.stealth ≡ true → (o.no_geoip ≡ true) × (o.no_ct ≡ true) × (o.udp_jitter ≡ true))

abbrev IsFine : Option Options → Type 0
IsFine none = Unit
IsFine (some o) = IsWithinLimits o

abbrev IsFineStep : Step → Type 0
IsFineStep (next o) = IsWithinLimits o
IsFineStep (skip o) = IsWithinLimits o
IsFineStep (quit code) = code ≤ 1

plain_option-IsFine : (a : Bytes) (o : Options) → IsWithinLimits o → IsFine (plain_option a o)
unfolding plain_option
plain_option-IsFine a o (th, tcp, udp, r, l, st) =
    elim (Bool-cases (bytes_eq a (text "--no-color"))) [
      | inl e ↦ rw e (th, tcp, udp, r, l, st)
      | inr e ↦ rw e (elim (Bool-cases (bytes_eq a (text "--verbose") || bytes_eq a (text "-v"))) [
        | inl e ↦ rw e (th, tcp, udp, r, l, st)
        | inr e ↦ rw e (elim (Bool-cases (bytes_eq a (text "--syn"))) [
          | inl e ↦ rw e (th, tcp, udp, r, l, st)
          | inr e ↦ rw e (elim (Bool-cases (bytes_eq a (text "--stealth"))) [
            | inl e ↦ rw e (th, tcp, udp, r, l, λ s. (refl, refl, refl))
            | inr e ↦ rw e (elim (Bool-cases (bytes_eq a (text "--no-geoip"))) [
              | inl e ↦ rw e (th, tcp, udp, r, l, λ s. (refl, (st s).1, (st s).2))
              | inr e ↦ rw e (elim (Bool-cases (bytes_eq a (text "--no-ct"))) [
                | inl e ↦ rw e (th, tcp, udp, r, l, λ s. ((st s).0, refl, (st s).2))
                | inr e ↦ rw e (elim (Bool-cases (bytes_eq a (text "--use-ip-api"))) [
                  | inl e ↦ rw e (th, tcp, udp, r, l, st)
                  | inr e ↦ rw e (elim (Bool-cases (bytes_eq a (text "--udp-jitter"))) [
                    | inl e ↦ rw e (th, tcp, udp, r, l, λ s. ((st s).0, (st s).1, refl))
                    | inr e ↦ rw e (elim (Bool-cases (bytes_eq a (text "--full"))) [
                      | inl e ↦ rw e (th, tcp, udp, r, l, st)
                      | inr e ↦ rw e (elim (Bool-cases (bytes_eq a (text "--fast"))) [
                        | inl e ↦ rw e (th, tcp, udp, r, l, st)
                        | inr e ↦ rw e (tt)
                      ])
                    ])
                  ])
                ])
              ])
            ])
          ])
        ])
      ])
    ]

number_option-IsFineStep :
    (set : ℕ → Options) (max_v : ℕ) (nxt : Option Bytes)
    → ((n : ℕ) → 1 ≤ n → n ≤ max_v → IsWithinLimits (set n))
    → IsFineStep (with_value nxt (number_option set max_v))
unfolding with_value number_option
number_option-IsFineStep set max_v none h = omega arith
number_option-IsFineStep set max_v (some v) h = elim (Option-cases (parse_int_fatal v 1 max_v)) [
  | inl m ↦ rw (m, number_option) (omega arith)
  | inr (n, m) ↦
      let (low, high) = parse_int_fatal_bounds v 1 max_v {n = n} m in
      rw (m, number_option) (h n low high)
]

ports_option-IsFineStep :
    (nxt : Option Bytes) (o : Options)
    → IsWithinLimits o
    → IsFineStep (with_value nxt (λ v. ports_option v o))
unfolding with_value ports_option
ports_option-IsFineStep none o h = omega arith
ports_option-IsFineStep (some v) o (th, tcp, udp, r, l, st) =
    elim (Option-cases (read_ports [] [] v)) [
      | inl m ↦ rw (m, ports_option) (omega arith)
      | inr (ports, m) ↦
          rw (m, ports_option) (th, tcp, udp, r, read_ports_lem [] [] v {read = ports} refl m, st)
    ]

range_option-IsFine : (v : Bytes) (o : Options) → IsWithinLimits o → IsFine (range_option v o)
unfolding range_option
range_option-IsFine v o (th, tcp, udp, r, l, st) = elim (Option-cases (find_byte b'-' v)) [
  | inl m ↦ rw (m, range_option) tt
  | inr (dash, m) ↦
      rw (m, range_option)
        (elim (Bool-cases (dash == 0 || dash == length v - 1)) [
          | inl e ↦ rw e tt
          | inr e ↦ rw e (elim (Option-cases (parse_int_fatal (take dash v) 1 65535)) [
            | inl m1 ↦ rw m1 tt
            | inr (lo, m1) ↦
                rw m1 (elim (Option-cases (parse_int_fatal (drop (dash + 1) v) 1 65535)) [
                  | inl m2 ↦ rw m2 tt
                  | inr (hi, m2) ↦
                      let low = parse_int_fatal_bounds (take dash v) 1 65535 {n = lo} m1 in
                      let high = parse_int_fatal_bounds (drop (dash + 1) v) 1 65535 {n = hi} m2 in
                      rw m2 (elim (Bool-cases (ltb hi lo)) [
                        | inl e ↦ rw e tt
                        | inr e ↦ rw e (th, tcp, udp, (low.0, ground (arith, e), high.1), l, st)
                      ])
                ])
          ])
        ])
]

stored-IsFineStep :
    (nxt : Option Bytes) (f : Bytes → Option Options)
    → ((v : Bytes) → IsFine (f v))
    → IsFineStep (with_value nxt f)
unfolding with_value
stored-IsFineStep none f h = omega arith
stored-IsFineStep (some v) f h = elim (Option-cases (f v)) [
  | inl e ↦ rw e (omega arith)
  | inr (o, e) ↦ let fine = h v in rw e (rw e at fine)
]

save_option-IsFineStep :
    (nxt : Option Bytes) (o : Options) → IsWithinLimits o → IsFineStep (save_option nxt o)
unfolding save_option
save_option-IsFineStep none o h = h
save_option-IsFineStep (some v) o (th, tcp, udp, r, l, st) =
    elim (Bool-cases (not (is_empty v) && not (starts_with v (text "-")))) [
      | inl e ↦ rw e (th, tcp, udp, r, l, st)
      | inr e ↦ rw e (th, tcp, udp, r, l, st)
    ]

other_option-IsFineStep :
    (a : Bytes) (nxt : Option Bytes) (o : Options)
    → IsWithinLimits o
    → IsFineStep (other_option a nxt o)
unfolding other_option
other_option-IsFineStep a nxt o (th, tcp, udp, r, l, st) =
    elim (Bool-cases (bytes_eq a (text "--threads"))) [
      | inl e ↦
          rw e
            (number_option-IsFineStep _ 10000 nxt (λ n low high. ((low, high), tcp, udp, r, l, st)))
      | inr e ↦ rw e (elim (Bool-cases (bytes_eq a (text "--tcp-to"))) [
        | inl e ↦
            rw e (
              number_option-IsFineStep _ 60000 nxt (λ n low high. (th, (low, high), udp, r, l, st)))
        | inr e ↦ rw e (elim (Bool-cases (bytes_eq a (text "--udp-to"))) [
          | inl e ↦ rw e (
              number_option-IsFineStep _ 60000 nxt (λ n low high. (th, tcp, (low, high), r, l, st)))
          | inr e ↦ rw e (elim (Bool-cases (bytes_eq a (text "--save"))) [
            | inl e ↦ rw e (save_option-IsFineStep nxt o (th, tcp, udp, r, l, st))
            | inr e ↦ rw e (elim (Bool-cases (bytes_eq a (text "--range"))) [
              | inl e ↦
                  rw e (
                    stored-IsFineStep nxt _ (λ v. range_option-IsFine v o (th, tcp, udp, r, l, st)))
              | inr e ↦ rw e (elim (Bool-cases (bytes_eq a (text "--ports"))) [
                | inl e ↦ rw e (ports_option-IsFineStep nxt o (th, tcp, udp, r, l, st))
                | inr e ↦
                    rw e
                      (elim (Bool-cases (
                        bytes_eq a (text "--help")
                        || bytes_eq a (text "-h")
                        || bytes_eq a (text "/?"))) [
                          | inl e ↦ rw e (omega arith)
                          | inr e ↦ rw e (th, tcp, udp, r, l, st)
                        ])
              ])
            ])
          ])
        ])
      ])
    ]

argument-IsFineStep :
    (a : Bytes) (nxt : Option Bytes) (o : Options)
    → IsWithinLimits o
    → IsFineStep (argument a nxt o)
unfolding argument
argument-IsFineStep a nxt o h =
    let plain = plain_option-IsFine a o h in
    elim (Option-cases (plain_option a o)) [
      | inl e ↦ rw (e, argument) (other_option-IsFineStep a nxt o h)
      | inr (p, e) ↦ rw (e, argument) (rw e at plain)
    ]

Step-cases :
    (s : Step)
    → ((o : Options) × (s ≡ next o)) ⊎ (((o : Options) × (s ≡ skip o)) ⊎ ((n : ℕ) × (s ≡ quit n)))
Step-cases (next o) = inl (o, refl)
Step-cases (skip o) = inr (inl (o, refl))
Step-cases (quit n) = inr (inr (n, refl))

abbrev pub IsFineParse : Parsed → Type 0
IsFineParse (options o) = IsWithinLimits o
IsFineParse (exit_code code) = code ≤ 1

parse_args-IsFineParse :
    (args : List Bytes) (o : Options) → IsWithinLimits o → IsFineParse (parse_args args o)
unfolding parse_args
parse_args-IsFineParse [] o h = h
parse_args-IsFineParse (a ∷ []) o h =
    let fine = argument-IsFineStep a none o h in
    elim (Step-cases (argument a none o)) [
      | inl (p, e) ↦ rw (e, parse_args) (rw e at fine)
      | inr (inl (p, e)) ↦ rw (e, parse_args) (rw e at fine)
      | inr (inr (n, e)) ↦ rw (e, parse_args) (rw e at fine)
    ]
parse_args-IsFineParse (a ∷ v ∷ rest) o h =
    let fine = argument-IsFineStep a (some v) o h in
    elim (Step-cases (argument a (some v) o)) [
      | inl (p, e) ↦ rw (e, parse_args) (parse_args-IsFineParse (v ∷ rest) p (rw e at fine))
      | inr (inl (p, e)) ↦ rw (e, parse_args) (parse_args-IsFineParse rest p (rw e at fine))
      | inr (inr (n, e)) ↦ rw (e, parse_args) (rw e at fine)
    ]

-- Whatever the arguments, the command line either ends with code 0 or 1 or leads to options within
-- their limits: 1 to 10000 threads, timeouts of 1 to 60000 ms, a range and a list of port numbers
-- from 1 to 65535, and stealth only with no GeoIP, no CT and the UDP jitter.
pub parse_args-IsWithinLimits : (args : List Bytes) → IsFineParse (parse_args args default_options)
parse_args-IsWithinLimits args = parse_args-IsFineParse args default_options (
  (omega arith, omega arith),
  (omega arith, omega arith),
  (omega arith, omega arith),
  (omega arith, omega arith, omega arith),
  refl,
  λ s. absurd (ground (arith, s)),
)
