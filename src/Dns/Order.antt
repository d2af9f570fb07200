-- ===== src/Dns/Order.antt =====
-- What `resolve_host` lists: every address that was offered, once, those of IPv4 first.
use bye_bye_vpn.Common.{
  Bool, true, false, not, ◌&&◌, ◌||◌, List, [], ◌∷◌, ◌++◌, ◌≡◌, refl, arith, inl, inr, is_empty,
  any, Bytes, bytes_eq, Bool-cases, bytes_eq_iff,
}
use bye_bye_vpn.Dns.{
  AddressFamily, inet, inet6, unknown, Entry, System, Resolved, is_listed, push_new, sort_entries,
  resolve_host,
}

abbrev is_family : AddressFamily → AddressFamily → Bool
is_family inet inet = true
is_family inet6 inet6 = true
is_family _ _ = false

-- Whether the list has this address, readable, in this family.
abbrev pub offers : AddressFamily → Bytes → List Entry → Bool
offers f ip entries =
    any (λ e. not (is_empty e.ip) && (is_family f e.family && bytes_eq ip e.ip)) entries

-- No address twice.
abbrev pub IsDistinct : List Bytes → Type 0
IsDistinct [] = Unit
IsDistinct (ip ∷ ips) = (is_listed ip ips ≡ false) × IsDistinct ips

is_listed-append :
    (ip : Bytes) (xs ys : List Bytes) → is_listed ip (xs ++ ys) ≡ is_listed ip xs || is_listed ip ys
unfolding is_listed
is_listed-append ip [] ys = refl
is_listed-append ip (x ∷ xs) ys = ground (arith, is_listed-append ip xs ys)

bytes_eq_sym : (a b : Bytes) → bytes_eq a b ≡ bytes_eq b a
bytes_eq_sym a b =
    let (to, back) = bytes_eq_iff a b in
    let (to', back') = bytes_eq_iff b a in
    elim (Bool-cases (bytes_eq a b)) [
      | inl e ↦ let same = to e in rw same
      | inr e ↦ elim (Bool-cases (bytes_eq b a)) [
        | inl f ↦ let same = to' f in rw same
        | inr f ↦ rw (e, f)
      ]
    ]

snoc-IsDistinct :
    (ip : Bytes) (ips : List Bytes)
    → is_listed ip ips ≡ false
    → IsDistinct ips
    → IsDistinct (ips ++ ip ∷ [])
unfolding is_listed
snoc-IsDistinct ip [] h d = (refl, tt)
snoc-IsDistinct ip (x ∷ xs) h (fresh, d) =
    let split = is_listed-append x xs (ip ∷ []) in
    let swap = bytes_eq_sym x ip in
    (ground (arith, h, fresh, split, swap), snoc-IsDistinct ip xs (ground (arith, h)) d)

push_new-IsDistinct :
    (ip : Bytes) (ips : List Bytes) → IsDistinct ips → IsDistinct (push_new ip ips)
unfolding push_new
push_new-IsDistinct ip ips d = elim (Bool-cases (is_listed ip ips)) [
  | inl e ↦ rw (e, push_new) d
  | inr e ↦ rw (e, push_new) (snoc-IsDistinct ip ips e d)
]

is_listed-push_new :
    (x ip : Bytes) (ips : List Bytes)
    → is_listed x (push_new ip ips) ≡ is_listed x ips || bytes_eq x ip
unfolding push_new is_listed
is_listed-push_new x ip ips = elim (Bool-cases (is_listed ip ips)) [
  | inr e ↦ let added = is_listed-append x ips (ip ∷ []) in rw (e, push_new) (ground (arith, added))
  | inl e ↦ elim (Bool-cases (bytes_eq x ip)) [
    | inr n ↦ rw (e, push_new, n) (ground arith)
    | inl m ↦
        let (to, _) = bytes_eq_iff x ip in
        let there : is_listed x ips ≡ true = rw (to m) e in
        rw (e, push_new, m) (ground (arith, there))
  ]
]

-- What the loop has after all entries, from any lists on.
abbrev IsSorted : List Bytes → List Bytes → List Entry → Type 0
IsSorted v4_ips v6_ips entries =
    let (v4_end, v6_end) = sort_entries v4_ips v6_ips entries in
    (IsDistinct v4_ips → IsDistinct v4_end)
    × ((IsDistinct v6_ips → IsDistinct v6_end)
        × ((ip : Bytes)
            → (is_listed ip v4_end ≡ is_listed ip v4_ips || offers inet ip entries)
              × (is_listed ip v6_end ≡ is_listed ip v6_ips || offers inet6 ip entries)))

sort_step :
    (v4_ips v6_ips : List Bytes) (f : AddressFamily) (ip : Bytes) (entries : List Entry)
    → ((v4 v6 : List Bytes) → IsSorted v4 v6 entries)
    → IsSorted v4_ips v6_ips (record { family = f; ip = ip } ∷ entries)
unfolding sort_entries
sort_step v4_ips v6_ips f [] entries ih = ih v4_ips v6_ips
sort_step v4_ips v6_ips unknown (c ∷ ip) entries ih = ih v4_ips v6_ips
sort_step v4_ips v6_ips inet (c ∷ ip) entries ih =
    let (d4, (d6, listed)) = ih (push_new (c ∷ ip) v4_ips) v6_ips in
    (
      λ d. d4 (push_new-IsDistinct (c ∷ ip) v4_ips d),
      (
        d6,
        λ x.
            let (l4, l6) = listed x in
            let added = is_listed-push_new x (c ∷ ip) v4_ips in
            (ground (arith, l4, added), ground (arith, l6)),
      ),
    )
sort_step v4_ips v6_ips inet6 (c ∷ ip) entries ih =
    let (d4, (d6, listed)) = ih v4_ips (push_new (c ∷ ip) v6_ips) in
    (
      d4,
      (
        λ d. d6 (push_new-IsDistinct (c ∷ ip) v6_ips d),
        λ x.
            let (l4, l6) = listed x in
            let added = is_listed-push_new x (c ∷ ip) v6_ips in
            (ground (arith, l4), ground (arith, l6, added)),
      ),
    )

sort_entries-IsSorted :
    (v4_ips v6_ips : List Bytes) (entries : List Entry) → IsSorted v4_ips v6_ips entries
unfolding sort_entries is_listed
sort_entries-IsSorted v4_ips v6_ips [] = (λ d. d, (λ d. d, λ ip. (ground arith, ground arith)))
sort_entries-IsSorted v4_ips v6_ips (e ∷ entries) =
    sort_step v4_ips v6_ips e.family e.ip entries (λ v4 v6. sort_entries-IsSorted v4 v6 entries)

-- The two parts of the addresses.
abbrev pub IsResolved : List Entry → Resolved → Type 0
IsResolved entries r =
    (v4 : List Bytes) × (v6 : List Bytes) × ((r.ips ≡ v4 ++ v6)
      × (IsDistinct v4
          × (IsDistinct v6
              × ((ip : Bytes)
                  → (is_listed ip v4 ≡ offers inet ip entries)
                    × (is_listed ip v6 ≡ offers inet6 ip entries)))))

-- For a host that is no address and resolves: the addresses are those of IPv4 that the resolver offers and
-- then those of IPv6, each of them once, and no other.
pub resolve_host-IsResolved :
    (sys : System) (host : Bytes) (entries : List Entry)
    → sys.is_ipv4 host ≡ false
    → sys.is_ipv6 host ≡ false
    → sys.getaddrinfo host ≡ inr entries
    → IsResolved entries (resolve_host sys host)
unfolding resolve_host is_listed
resolve_host-IsResolved sys host entries no4 no6 found =
    let (d4, (d6, listed)) = sort_entries-IsSorted [] [] entries in
    let (v4, v6) = sort_entries [] [] entries in
    (v4, v6, (rw (no4, no6, found, resolve_host), (d4 tt, (d6 tt, listed))))
