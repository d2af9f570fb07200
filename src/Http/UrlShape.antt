-- ===== src/Http/UrlShape.antt =====
-- The URLs of the HTTP client: what it makes of a well-formed one, of a fragment, and of any.
use bye_bye_vpn.Common.{
  find_byte-here, find_byte-late, find_byte-none, drop-past, lacks, ℕ, ◌+◌, Bool, true, false, not,
  ◌&&◌, ◌||◌, [], ◌∷◌, ◌++◌, some, none, ◌⊎◌, ◌≡◌, refl, arith, inl, inr, suc, ltb, length, all,
  Bytes, text, starts_with, find_byte, Bool-cases, Option-cases, take-append, drop-append, ◌==◌,
  is_digit, is_empty, append_assoc, all-append, length-append,
}
use bye_bye_vpn.Http.Ports.{IsPort, parse_http_port-IsPort}
use bye_bye_vpn.Http.Url.{
  parse_url, parse_rest, split_url, split_pos, query_pos, path_from, name_host, parse_http_port,
  has_byte, endpoint,
}

query_pos-late :
    (a p : Bytes)
    → lacks b'?' a ≡ true
    → (query_pos (a ++ b'/' ∷ p) ≡ none)
      ⊎ ((q : ℕ) × (query_pos (a ++ b'/' ∷ p) ≡ some (length a + suc q)))
unfolding query_pos
query_pos-late a p h = elim (find_byte-late b'?' b'/' a p h refl) [
  | inl e ↦ inl (rw (e, query_pos))
  | inr (q, e) ↦ elim (Option-cases (find_byte b'#' (a ++ b'/' ∷ p))) [
    | inl n ↦ inr (q, rw (e, n, query_pos))
    | inr (f, n) ↦ elim (Bool-cases (ltb f (length a + suc q))) [
      | inl b ↦ inl (rw (e, n, b, query_pos))
      | inr b ↦ inr (q, rw (e, n, b, query_pos))
    ]
  ]
]

-- The authority, without slash and query, ends at the first slash.
split_pos-slash :
    (a p : Bytes)
    → lacks b'/' a ≡ true
    → lacks b'?' a ≡ true
    → split_pos (a ++ b'/' ∷ p) ≡ some (length a)
unfolding split_pos
split_pos-slash a p slash query = elim (query_pos-late a p query) [
  | inl e ↦ rw (e, find_byte-here b'/' a p slash, split_pos)
  | inr (q, e) ↦
      let late : ltb (length a + suc q) (length a) ≡ false = ground arith in
      rw (e, find_byte-here b'/' a p slash, late, split_pos)
]

-- Without a fragment behind the first slash, the path is all that follows.
split_url-slash :
    (a p : Bytes)
    → lacks b'/' a ≡ true
    → lacks b'?' a ≡ true
    → ((find_byte b'#' (a ++ b'/' ∷ p) ≡ none)
        ⊎ ((f : ℕ) × (find_byte b'#' (a ++ b'/' ∷ p) ≡ some f) × (ltb (length a) f ≡ false)))
    → split_url (a ++ b'/' ∷ p) ≡ (a, b'/' ∷ p)
unfolding split_url path_from starts_with text
split_url-slash a p slash query fragment =
    let at_slash = split_pos-slash a p slash query in
    let front = take-append a (b'/' ∷ p) in
    let back = drop-append a (b'/' ∷ p) in
    elim fragment [
      | inl e ↦ rw (at_slash, e, front, back, split_url)
      | inr (f, e, early) ↦ rw (at_slash, e, early, front, back, split_url)
    ]

digits-lacks : (b : ℕ) (s : Bytes) → is_digit b ≡ false → all is_digit s ≡ true → lacks b s ≡ true
digits-lacks b [] no_digit h = refl
digits-lacks b (c ∷ s) no_digit h =
    let more : all is_digit s ≡ true = ground (arith, h) in
    let ih = digits-lacks b s no_digit more in ground (arith, h, ih, no_digit)

has_byte-lacks : (b : ℕ) (s : Bytes) → lacks b s ≡ true → has_byte b s ≡ false
unfolding has_byte
has_byte-lacks b s h = rw (find_byte-none b s h, has_byte)

parse_http_port-digits :
    (digits : Bytes) {n : ℕ}
    → parse_http_port digits ≡ some n
    → (is_empty digits || not (all is_digit digits) ≡ false) × (all is_digit digits ≡ true)
unfolding parse_http_port
parse_http_port-digits digits h = ground (arith, h)

-- A port behind a single colon.
name_host-port :
    (h digits : Bytes) (port : ℕ) {n : ℕ}
    → lacks b':' h ≡ true
    → parse_http_port digits ≡ some n
    → name_host (h ++ b':' ∷ digits) port ≡ inr (h, n)
unfolding name_host
name_host-port h digits port {n} plain read =
    let (filled, digital) = parse_http_port-digits digits {n = n} read in
    rw (
      name_host,
      find_byte-here b':' h digits plain,
      drop-past h b':' digits,
      has_byte-lacks b':' digits (digits-lacks b':' digits refl digital),
      filled,
      read,
      take-append h (b':' ∷ digits),
    )

name_host-plain : (h : Bytes) (port : ℕ) → lacks b':' h ≡ true → name_host h port ≡ inr (h, port)
unfolding name_host
name_host-plain h port plain = rw (name_host, find_byte-none b':' h plain)

-- A host name: none of the bytes that end it or begin something else.
abbrev pub is_name : Bytes → Bool
is_name s =
    not (is_empty s)
    && (not (starts_with s (text "["))
        && (lacks b'/' s && (lacks b'?' s && (lacks b'#' s && lacks b':' s))))

parse_rest_split :
    (is_https : Bool) (port : ℕ) (u a h p : Bytes) (n : ℕ)
    → split_url u ≡ (a, p)
    → is_empty a ≡ false
    → starts_with a (text "[") ≡ false
    → name_host a port ≡ inr (h, n)
    → is_empty h ≡ false
    → parse_rest is_https port u ≡ inr record { is_https = is_https; host = h; port = n; path = p }
unfolding parse_rest endpoint
parse_rest_split is_https port u a h p n split filled bracket named full =
    rw (parse_rest, split, filled, endpoint, bracket, named, full, split)

starts_with-extend :
    (h rest : Bytes)
    → is_empty h ≡ false
    → starts_with h (text "[") ≡ false
    → (is_empty (h ++ rest) ≡ false) × (starts_with (h ++ rest) (text "[") ≡ false)
unfolding starts_with text
starts_with-extend [] rest full h = absurd (ground (arith, full))
starts_with-extend (c ∷ s) rest full h = (refl, h)

parse_rest-port :
    (is_https : Bool) (port : ℕ) (h digits p : Bytes) (n : ℕ)
    → is_name h ≡ true
    → parse_http_port digits ≡ some n
    → lacks b'#' p ≡ true
    → parse_rest is_https port ((h ++ b':' ∷ digits) ++ b'/' ∷ p)
      ≡ inr record { is_https = is_https; host = h; port = n; path = b'/' ∷ p }
parse_rest-port is_https port h digits p n name read fragment =
    let a = h ++ b':' ∷ digits in
    let (_, digital) = parse_http_port-digits digits {n = n} read in
    let none_of : (b : ℕ)
        → is_digit b ≡ false
        → (b':' == b) ≡ false
        → lacks b h ≡ true
        → lacks b a ≡ true =
      λ b no_digit other plain. rw (
        all-append (λ c. not (c == b)) h (b':' ∷ digits),
        plain,
        other,
        digits-lacks b digits no_digit digital,
      ) in
    let slash = none_of b'/' refl refl (ground (arith, name)) in
    let query = none_of b'?' refl refl (ground (arith, name)) in
    let hash = none_of b'#' refl refl (ground (arith, name)) in
    let no_fragment : lacks b'#' (a ++ b'/' ∷ p) ≡ true =
      rw (all-append (λ c. not (c == b'#')) a (b'/' ∷ p), hash, fragment) in
    let split =
      split_url-slash a p slash query (inl (find_byte-none b'#' (a ++ b'/' ∷ p) no_fragment)) in
    let (filled, bracket) =
      starts_with-extend h (b':' ∷ digits) (ground (arith, name)) (ground (arith, name)) in
    parse_rest_split is_https port (a ++ b'/' ∷ p) a h (b'/' ∷ p) n split filled bracket
      (name_host-port h digits port {n = n} (ground (arith, name)) read) (ground (arith, name))

-- An http or https URL with a host name, a port from 1 to 65535 in decimal digits and a path without fragment is
-- taken apart into these.
pub parse_url-port :
    (h digits p : Bytes) (n : ℕ)
    → is_name h ≡ true
    → IsPort digits n
    → lacks b'#' p ≡ true
    → (parse_url (text "https://" ++ ((h ++ b':' ∷ digits) ++ b'/' ∷ p))
        ≡ inr record { is_https = true; host = h; port = n; path = b'/' ∷ p })
      × (parse_url (text "http://" ++ ((h ++ b':' ∷ digits) ++ b'/' ∷ p))
          ≡ inr record { is_https = false; host = h; port = n; path = b'/' ∷ p })
unfolding parse_url text starts_with
parse_url-port h digits p n name port fragment =
    let read = parse_http_port-IsPort digits n port in
    (
      parse_rest-port true 443 h digits p n name read fragment,
      parse_rest-port false 80 h digits p n name read fragment,
    )

-- In an http URL of a host name and a fragment, which begins like a host name (not empty, no `?`, `#` or `:`
-- in it, no `[` in front) and then has a slash, the fragment is not stripped: the host is the name, the `#` and
-- the fragment up to that slash, and the path begins at that slash.
pub parse_url-fragment :
    (h f p : Bytes)
    → is_name h ≡ true
    → is_name f ≡ true
    → parse_url (text "http://" ++ ((h ++ b'#' ∷ f) ++ b'/' ∷ p))
      ≡ inr record { is_https = false; host = h ++ b'#' ∷ f; port = 80; path = b'/' ∷ p }
unfolding parse_url text starts_with
parse_url-fragment h f p name after =
    let a = h ++ b'#' ∷ f in
    let none_of : (b : ℕ)
        → (b'#' == b) ≡ false
        → lacks b h ≡ true
        → lacks b f ≡ true
        → lacks b a ≡ true =
      λ b other plain more. rw (all-append (λ c. not (c == b)) h (b'#' ∷ f), plain, other, more) in
    let slash = none_of b'/' refl (ground (arith, name)) (ground (arith, after)) in
    let query = none_of b'?' refl (ground (arith, name)) (ground (arith, after)) in
    let colon = none_of b':' refl (ground (arith, name)) (ground (arith, after)) in
    let at_hash : find_byte b'#' (a ++ b'/' ∷ p) ≡ some (length h) =
      rw (append_assoc h (b'#' ∷ f) (b'/' ∷ p))
        (find_byte-here b'#' h (f ++ b'/' ∷ p) (ground (arith, name))) in
    let early : ltb (length a) (length h) ≡ false = ground (arith, length-append h (b'#' ∷ f)) in
    let split = split_url-slash a p slash query (inr (length h, at_hash, early)) in
    let (filled, bracket) =
      starts_with-extend h (b'#' ∷ f) (ground (arith, name)) (ground (arith, name)) in
    parse_rest_split false 80 (a ++ b'/' ∷ p) a a (b'/' ∷ p) 80 split filled bracket
      (name_host-plain a 80 colon) filled
