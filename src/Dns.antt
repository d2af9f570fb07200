-- ===== src/Dns.antt =====
-- src/network/dns.cpp: `resolve_host`. inet_pton, getaddrinfo, inet_ntop and the clock are given, as the
-- record System.
pub mod Order
use bye_bye_vpn.Common.{
  ℕ, Bool, true, false, not, ◌&&◌, List, [], ◌∷◌, ◌++◌, Option, none, some, ◌⊎◌, inl, inr,
  if◌then◌else◌, is_empty, any, Bytes, text, bytes_eq, to_string, ℤ, pos, negsuc,
}

-- ai_family of an entry of the list of getaddrinfo.
pub data AddressFamily : Type 0 where
  inet inet6 unknown : AddressFamily

-- An entry: its family and what `extract_ip` makes of its address, empty where inet_ntop fails.
pub record Entry : Type 0 where
  pub family : AddressFamily
  pub ip : Bytes

pub record System : Type 0 where
  pub is_ipv4 : Bytes → Bool
  pub is_ipv6 : Bytes → Bool
  -- the list, or the code and the text of gai_strerror
  pub getaddrinfo : Bytes → (ℕ × Bytes) ⊎ List Entry
  pub elapsed_ms : ℕ

-- src/network/dns.h
pub record Resolved : Type 0 where
  pub host : Bytes
  pub primary_ip : Bytes
  pub ips : List Bytes
  pub family : Bytes
  pub err : Bytes
  pub ms : ℕ

unfoldable pub is_resolved : Resolved → Bool
is_resolved r = is_empty r.err && not (is_empty r.ips)

-- std::ranges::find(ips, ip) != ips.end()
unfoldable pub is_listed : Bytes → List Bytes → Bool
is_listed ip ips = any (bytes_eq ip) ips

unfoldable pub push_new : Bytes → List Bytes → List Bytes
unfolding is_listed
push_new ip ips = if is_listed ip ips then ips else ips ++ ip ∷ []

-- The loop over the list, with v4_ips and v6_ips.
unfoldable pub sort_entries : List Bytes → List Bytes → List Entry → List Bytes × List Bytes
unfolding push_new
sort_entries v4_ips v6_ips [] = (v4_ips, v6_ips)
sort_entries v4_ips v6_ips (entry ∷ entries) = elim (is_empty entry.ip) [
  | true ↦ sort_entries v4_ips v6_ips entries
  | false ↦ elim entry.family [
    | inet ↦ sort_entries (push_new entry.ip v4_ips) v6_ips entries
    | inet6 ↦ sort_entries v4_ips (push_new entry.ip v6_ips) entries
    | unknown ↦ sort_entries v4_ips v6_ips entries
  ]
]

abbrev family_of : Bool → Bool → Bytes
family_of has_v4 has_v6 =
    if has_v4 && has_v6
    then text "mixed(v4-preferred)"
    else if has_v4
    then text "v4"
    else if has_v6
    then text "v6"
    else []

abbrev first_of : List Bytes → Bytes
first_of [] = []
first_of (ip ∷ ips) = ip

abbrev literal : Bytes → Bytes → ℕ → Resolved
literal host family ms = record {
  host = host;
  primary_ip = host;
  ips = host ∷ [];
  family = family;
  err = [];
  ms = ms;
}

unfoldable pub resolve_host : System → Bytes → Resolved
unfolding sort_entries
resolve_host sys host =
    if sys.is_ipv4 host
    then literal host (text "v4") sys.elapsed_ms
    else if sys.is_ipv6 host
    then literal host (text "v6") sys.elapsed_ms
    else elim (sys.getaddrinfo host) [
      | inl (rc, err_str) ↦ record {
        host = host;
        primary_ip = [];
        ips = [];
        family = [];
        err = if is_empty err_str then text "error " ++ to_string rc else err_str;
        ms = sys.elapsed_ms;
      }
      | inr entries ↦
          let (v4_ips, v6_ips) = sort_entries [] [] entries in
          record {
            host = host;
            primary_ip = first_of (v4_ips ++ v6_ips);
            ips = v4_ips ++ v6_ips;
            family = family_of (not (is_empty v4_ips)) (not (is_empty v6_ips));
            err = [];
            ms = sys.elapsed_ms;
          }
    ]
