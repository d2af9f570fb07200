-- ===== src/Http/Url.antt =====
-- src/network/http_client.cpp: the URL that `http_get` is given, and the tests on its host.
use bye_bye_vpn.Common.{
  ℕ, ◌+◌, ◌-◌, Bool, true, false, not, ◌&&◌, ◌||◌, [], ◌∷◌, ◌++◌, Option, none, some, ◌⊎◌, inl, inr,
  ◌==◌, ltb, if◌then◌else◌, is_empty, take, drop, all, pos, negsuc, Bytes, text, starts_with,
  find_byte, is_digit,
}
use bye_bye_vpn.Cli.{strtol}

-- The loop of `is_ipv4_literal`, with its `dots`.
unfoldable pub ipv4_chars : ℕ → Bytes → Bool
ipv4_chars dots [] = dots == 3
ipv4_chars dots (c ∷ s) =
    let next = ipv4_chars (if c == b'.' then dots + 1 else dots) s in
    if c == b'.' || is_digit c then next else false

unfoldable pub is_ipv4_literal : Bytes → Bool
unfolding ipv4_chars
is_ipv4_literal s = ipv4_chars 0 s

unfoldable pub has_byte : ℕ → Bytes → Bool
has_byte b s = elim (find_byte b s) [ none ↦ false | some i ↦ true ]

unfoldable pub is_ip_literal : Bytes → Bool
unfolding has_byte is_ipv4_literal
is_ip_literal host =
    not (is_empty host)
    && (not (starts_with host (text "[")) && (is_ipv4_literal host || has_byte b':' host))

-- `none` is false.
unfoldable pub parse_http_port : Bytes → Option ℕ
parse_http_port s = if is_empty s || not (all is_digit s) then none else elim (strtol s) [
  | none ↦ none
  | some v ↦ elim v [ negsuc n ↦ none | pos n ↦ if ltb n 1 || ltb 65535 n then none else some n ]
]

-- `split_pos`: the first of slash and query, where a query behind the fragment does not count.
unfoldable pub query_pos : Bytes → Option ℕ
query_pos u = elim (find_byte b'?' u) [
  | none ↦ none
  | some q ↦ elim (find_byte b'#' u) [ none ↦ some q | some f ↦ if ltb f q then none else some q ]
]

unfoldable pub split_pos : Bytes → Option ℕ
unfolding query_pos
split_pos u = elim (query_pos u) [
  | none ↦ find_byte b'/' u
  | some q ↦ elim (find_byte b'/' u) [ none ↦ some q | some p ↦ some (if ltb q p then q else p) ]
]

-- The path and the query up to the fragment, from `split` on.
unfoldable pub path_from : ℕ → Bytes → Bytes
path_from split u =
    let path : Bytes = elim (find_byte b'#' u) [
      | none ↦ drop split u
      | some f ↦ if ltb split f then take (f - split) (drop split u) else drop split u
    ] in
    if starts_with path (text "/") then path else b'/' ∷ path

-- The host with its port, and the path, of what follows the scheme.
unfoldable pub split_url : Bytes → Bytes × Bytes
unfolding split_pos path_from
split_url u = elim (split_pos u) [
  | some split ↦ (take split u, path_from split u)
  | none ↦ elim (find_byte b'#' u) [ some f ↦ (take f u, text "/") | none ↦ (u, text "/") ]
]

-- What follows the closing bracket: a port or nothing.
unfoldable pub bracket_port : Bytes → ℕ → Bytes → Bytes ⊎ (Bytes × ℕ)
bracket_port inside port [] = inr (inside, port)
bracket_port inside port (c ∷ digits) =
    if not (c == b':')
    then inl (text "bad host")
    else elim (parse_http_port digits) [ none ↦ inl (text "bad port") | some n ↦ inr (inside, n) ]

-- An address in brackets.
unfoldable pub bracket_host : Bytes → ℕ → Bytes ⊎ (Bytes × ℕ)
unfolding bracket_port
bracket_host host port = elim (find_byte b']' host) [
  | none ↦ inl (text "bad host")
  | some close ↦ bracket_port (take (close - 1) (drop 1 host)) port (drop (close + 1) host)
]

-- A name with a port or without one; what follows a single colon and is no number stays in the name.
unfoldable pub name_host : Bytes → ℕ → Bytes ⊎ (Bytes × ℕ)
unfolding has_byte
name_host host port = elim (find_byte b':' host) [
  | none ↦ inr (host, port)
  | some colon ↦
      let digits = drop (colon + 1) host in
      if has_byte b':' digits || is_empty digits || not (all is_digit digits)
      then inr (host, port)
      else elim (parse_http_port digits) [
        | none ↦ inl (text "bad port")
        | some n ↦ inr (take colon host, n)
      ]
]

pub record Target : Type 0 where
  pub is_https : Bool
  pub host : Bytes
  pub port : ℕ
  pub path : Bytes

unfoldable pub endpoint : Bytes → ℕ → Bytes ⊎ (Bytes × ℕ)
unfolding bracket_host name_host
endpoint host port =
    if starts_with host (text "[") then bracket_host host port else name_host host port

-- What follows the scheme: `result.err`, or where to connect and what to ask for.
unfoldable pub parse_rest : Bool → ℕ → Bytes → Bytes ⊎ Target
unfolding split_url endpoint
parse_rest is_https port u =
    let (host, path) = split_url u in
    if is_empty host then inl (text "bad host") else elim (endpoint host port) [
      | inl err ↦ inl err
      | inr (name, number) ↦
          if is_empty name
          then inl (text "bad host")
          else inr record { is_https = is_https; host = name; port = number; path = path }
    ]

unfoldable pub parse_url : Bytes → Bytes ⊎ Target
unfolding parse_rest
parse_url url =
    if starts_with url (text "https://")
    then parse_rest true 443 (drop 8 url)
    else if starts_with url (text "http://")
    then parse_rest false 80 (drop 7 url)
    else inl (text "bad url scheme")

-- The bytes that are sent.
unfoldable pub request : Target → Bytes
request t =
    text "GET "
    ++ (t.path
        ++ (text " HTTP/1.1\r\nHost: "
            ++ (t.host
                ++ text "\r\nConnection: close\r\nUser-Agent: byebyevpn/3\r\nAccept: */*\r\n\r\n")))
