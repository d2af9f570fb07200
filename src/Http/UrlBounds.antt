-- ===== src/Http/UrlBounds.antt =====
-- What every URL that the HTTP client accepts gives: a host, a port that exists, and a path to ask for.
use bye_bye_vpn.Common.{
  ℕ, ◌≤◌, Bool, true, false, [], ◌∷◌, some, ◌⊎◌, ◌≡◌, arith, inl, inr, Bytes, text, starts_with,
  find_byte, is_empty, Bool-cases, Option-cases, take, drop, ◌+◌, ◌-◌, refl,
}
use bye_bye_vpn.Http.Url.{
  Target, endpoint, parse_url, parse_rest, split_url, split_pos, path_from, name_host, bracket_host,
  bracket_port, parse_http_port,
}

parse_http_port_bounds : (s : Bytes) {n : ℕ} → parse_http_port s ≡ some n → (1 ≤ n) × (n ≤ 65535)
unfolding parse_http_port
parse_http_port_bounds s h = ground (arith, h)

abbrev pub IsPort : ℕ → Type 0
IsPort n = (1 ≤ n) × (n ≤ 65535)

bracket_port_bounds :
    (inside : Bytes) (port : ℕ) (tail : Bytes) (r : Bytes × ℕ)
    → IsPort port
    → bracket_port inside port tail ≡ inr r
    → IsPort r.1
unfolding bracket_port
bracket_port_bounds inside port [] r ok h = ground (arith, ok, h)
bracket_port_bounds inside port (c ∷ digits) r ok h = elim (Option-cases (parse_http_port digits)) [
  | inl n ↦ absurd (ground (arith, rw (n, bracket_port) at h))
  | inr (n, m) ↦
      let bounds = parse_http_port_bounds digits {n = n} m in
      ground (arith, bounds, rw (m, bracket_port) at h)
]

bracket_host_bounds :
    (host : Bytes) (port : ℕ) (r : Bytes × ℕ)
    → IsPort port
    → bracket_host host port ≡ inr r
    → IsPort r.1
unfolding bracket_host
bracket_host_bounds host port r ok h = elim (Option-cases (find_byte b']' host)) [
  | inl e ↦ absurd (ground (arith, rw (e, bracket_host) at h))
  | inr (close, e) ↦
      bracket_port_bounds (take (close - 1) (drop 1 host)) port (drop (close + 1) host) r ok
        (rw (e, bracket_host) at h)
]

name_host_bounds :
    (host : Bytes) (port : ℕ) (r : Bytes × ℕ)
    → IsPort port
    → name_host host port ≡ inr r
    → IsPort r.1
unfolding name_host
name_host_bounds host port r ok h = elim (Option-cases (find_byte b':' host)) [
  | inl e ↦ ground (arith, ok, rw (e, name_host) at h)
  | inr (colon, e) ↦
      let digits = drop (colon + 1) host in
      elim (Option-cases (parse_http_port digits)) [
        | inl n ↦ ground (arith, ok, rw (e, n, name_host) at h)
        | inr (n, m) ↦
            let bounds = parse_http_port_bounds digits {n = n} m in
            ground (arith, ok, bounds, rw (e, m, name_host) at h)
      ]
]

path_from-slash : (split : ℕ) (u : Bytes) → starts_with (path_from split u) (text "/") ≡ true
unfolding path_from starts_with text
path_from-slash split u = ground arith

split_url-slash : (u : Bytes) → starts_with (split_url u).1 (text "/") ≡ true
unfolding split_url text starts_with
split_url-slash u = elim (Option-cases (split_pos u)) [
  | inr (split, e) ↦ rw (e, split_url) (path_from-slash split u)
  | inl e ↦ elim (Option-cases (find_byte b'#' u)) [
    | inl f ↦ rw (e, f, split_url)
    | inr (f, g) ↦ rw (e, g, split_url)
  ]
]

endpoint_bounds :
    (host : Bytes) (port : ℕ) (r : Bytes × ℕ)
    → IsPort port
    → endpoint host port ≡ inr r
    → IsPort r.1
unfolding endpoint
endpoint_bounds host port r ok h = elim (Bool-cases (starts_with host (text "["))) [
  | inl b ↦ bracket_host_bounds host port r ok (rw (b, endpoint) at h)
  | inr b ↦ name_host_bounds host port r ok (rw (b, endpoint) at h)
]

sum-cases :
    (s : Bytes ⊎ (Bytes × ℕ)) → ((err : Bytes) × (s ≡ inl err)) ⊎ ((r : Bytes × ℕ) × (s ≡ inr r))
sum-cases (inl err) = inl (err, refl)
sum-cases (inr r) = inr (r, refl)

abbrev pub IsUsable : Target → Type 0
IsUsable t = (is_empty t.host ≡ false) × (IsPort t.port × (starts_with t.path (text "/") ≡ true))

parse_rest-IsUsable :
    (is_https : Bool) (port : ℕ) (u : Bytes) (t : Target)
    → IsPort port
    → parse_rest is_https port u ≡ inr t
    → IsUsable t
unfolding parse_rest
parse_rest-IsUsable is_https port u t ok h =
    let (host, path) = split_url u in
    elim (Bool-cases (is_empty (split_url u).0)) [
      | inl b ↦ absurd (ground (arith, rw (b, parse_rest) at h))
      | inr b ↦ elim (sum-cases (endpoint (split_url u).0 port)) [
        | inl (err, e) ↦ absurd (ground (arith, rw (b, e, parse_rest) at h))
        | inr ((name, number), e) ↦ elim (Bool-cases (is_empty name)) [
          | inl g ↦ absurd (ground (arith, rw (b, e, g, parse_rest) at h))
          | inr g ↦
              let bounds = endpoint_bounds (split_url u).0 port (name, number) ok e in
              let slash = split_url-slash u in
              let same : record {
                is_https = is_https;
                host = name;
                port = number;
                path = (split_url u).1;
              }
                  ≡ t =
                ground (arith, rw (b, e, g, parse_rest) at h) in
              rw (← same) (g, (bounds, slash))
        ]
      ]
    ]

-- Every URL that is accepted gives a host that is not empty, a port from 1 to 65535, and a path that begins
-- with a slash.
pub parse_url-IsUsable : (url : Bytes) (t : Target) → parse_url url ≡ inr t → IsUsable t
unfolding parse_url
parse_url-IsUsable url t h = elim (Bool-cases (starts_with url (text "https://"))) [
  | inl b ↦
      parse_rest-IsUsable true 443 (drop 8 url) t (omega arith, omega arith)
        (rw (b, parse_url) at h)
  | inr b ↦ elim (Bool-cases (starts_with url (text "http://"))) [
    | inl c ↦
        parse_rest-IsUsable false 80 (drop 7 url) t (omega arith, omega arith)
          (rw (b, c, parse_url) at h)
    | inr c ↦ absurd (ground (arith, rw (b, c, parse_url) at h))
  ]
]
