-- ===== src/Brand/Lookup.antt =====
-- What a lookup in the brand table finds.
use bye_bye_vpn.Text.{tolower_s}
use bye_bye_vpn.Common.{
  not, Option, Bool, true, false, List, [], ◌∷◌, none, some, ◌≡◌, refl, inl, inr, arith, is_empty,
  all, find_if, Bytes, text, bytes_eq, bytes_eq_iff, Bool-cases, Option-cases,
}
use bye_bye_vpn.Brand.{
  iequals, iends_with_dot, strip_wildcard, exact_match, suffix_match, is_brand, find_markers,
}
use bye_bye_vpn.Brand.Claims.{
  lies_in, without_wildcard, lies_in-tests, strip_wildcard-without_wildcard, neither_found,
}
use bye_bye_vpn.Brand.Names.{
  IsWithin, strip_wildcard-IsWithin, iequals-IsWithin, iends_with_dot-IsWithin,
}
use bye_bye_vpn.Brand.Table.{BrandMarker, brand_table}

find_if_lem {ℓ} :
    {A : Type ℓ} (test extra : A → Bool) (l : List A) {a : A}
    → find_if test l ≡ some a
    → all extra l ≡ true
    → (test a ≡ true) × (extra a ≡ true)
find_if_lem test extra [] h k = cc
find_if_lem test extra (x ∷ l) {a} h k = elim (Bool-cases (test x)) [
  | inl e ↦ let same : x ≡ a = ground (arith, e, h) in rw (← same) (e, ground (arith, k))
  | inr e ↦ find_if_lem test extra l {a = a} (ground (arith, e, h)) (ground (arith, k))
]

find_if_cong {ℓ} :
    {A : Type ℓ} (p q : A → Bool) (l : List A) → ((a : A) → p a ≡ q a) → find_if p l ≡ find_if q l
find_if_cong p q [] h = refl
find_if_cong p q (x ∷ l) h = rw (h x, find_if_cong p q l h) refl

-- Does the second lookup, of a brand itself, find the entry of that brand?
abbrev finds_itself : BrandMarker → Bool
finds_itself e = elim (find_markers e.brand) [ none ↦ false | some m ↦ bytes_eq m.brand e.brand ]

table_finds_itself : all finds_itself brand_table ≡ true
unfolding find_markers brand_table bytes_eq text
table_finds_itself = refl

-- A name that counts as a brand is the brand or a name below it, and the brand has its markers in the table.
abbrev pub IsBrandOf : Bytes → Bytes → Type 0
IsBrandOf name brand =
    IsWithin name brand × ((m : BrandMarker) × (find_markers brand ≡ some m) × (m.brand ≡ brand))

markers_of :
    (e : BrandMarker)
    → finds_itself e ≡ true
    → (m : BrandMarker) × (find_markers e.brand ≡ some m) × (m.brand ≡ e.brand)
markers_of e h = elim (Option-cases (find_markers e.brand)) [
  | inl n ↦ absurd (ground (arith, rw (n, finds_itself) at h))
  | inr (m, n) ↦ (m, n, (bytes_eq_iff m.brand e.brand).0 (rw (n, finds_itself) at h))
]

is_brand-some : (name : Bytes) {brand : Bytes} → is_brand name ≡ some brand → IsBrandOf name brand
unfolding is_brand exact_match suffix_match
is_brand-some name {brand} h =
    let core = strip_wildcard name in
    elim (Bool-cases (is_empty name)) [
      | inl e ↦ absurd (ground (arith, e, h))
      | inr e ↦ elim (Option-cases (exact_match core)) [
        | inr (x, n) ↦
            let same : x.brand ≡ brand = ground (arith, rw (e, n) at h) in
            let (hit, own) =
              find_if_lem (λ entry. iequals core entry.brand) finds_itself brand_table {a = x} n
                table_finds_itself in
            rw (← same) (
              strip_wildcard-IsWithin name x.brand (iequals-IsWithin core x.brand hit),
              markers_of x own,
            )
        | inl m ↦ elim (Option-cases (suffix_match core)) [
          | inl n ↦ absurd (ground (arith, rw (e, m, n) at h))
          | inr (x, n) ↦
              let same : x.brand ≡ brand = ground (arith, rw (e, m, n) at h) in
              let (hit, own) =
                find_if_lem (λ entry. iends_with_dot core entry.brand) finds_itself brand_table
                  {a = x} n table_finds_itself in
              rw (← same) (
                strip_wildcard-IsWithin name x.brand (iends_with_dot-IsWithin core x.brand hit),
                markers_of x own,
              )
        ]
      ]
    ]

-- No brand of the table is the name or above it.
abbrev pub no_brand : Bytes → Bool
no_brand name = all (λ (e : BrandMarker). not (lies_in (without_wildcard name) e.brand)) brand_table

no_brand-nil : no_brand [] ≡ true
unfolding brand_table lies_in without_wildcard bytes_eq tolower_s text
no_brand-nil = refl

is_brand-none : (name : Bytes) → is_brand name ≡ none → no_brand name ≡ true
unfolding is_brand exact_match suffix_match
is_brand-none [] h = no_brand-nil
is_brand-none (c ∷ s) h =
    let core = strip_wildcard (c ∷ s) in
    let missed : (exact_match core ≡ none) × (suffix_match core ≡ none) =
      elim (Option-cases (exact_match core)) [
        | inr (x, n) ↦ absurd (ground (arith, rw (is_brand, n) at h))
        | inl m ↦ elim (Option-cases (suffix_match core)) [
          | inr (x, n) ↦ absurd (ground (arith, rw (is_brand, m, n) at h))
          | inl n ↦ (m, n)
        ]
      ] in
    rw (← strip_wildcard-without_wildcard (c ∷ s)) (
      neither_found (λ (e : BrandMarker). iequals core e.brand)
        (λ (e : BrandMarker). iends_with_dot core e.brand)
        (λ (e : BrandMarker). lies_in core e.brand) brand_table (λ e. lies_in-tests core e.brand)
        missed.0 missed.1)

-- What an answer of the lookup says of the name.
abbrev pub IsAnswer : Bytes → Option Bytes → Type 0
IsAnswer name none = no_brand name ≡ true
IsAnswer name (some brand) = IsBrandOf name brand

-- When the lookup answers with a brand, the name, in any case of the letters, is the brand or ends in a dot and the
-- brand, with something in front of the dot, and the table has the brand's markers; when it answers with none, the
-- name, without a star and a dot in front, neither is a brand of the table nor ends in a dot and one with something in
-- front of the dot.
pub is_brand-IsAnswer : (name : Bytes) → IsAnswer name (is_brand name)
is_brand-IsAnswer name = elim (Option-cases (is_brand name)) [
  | inl e ↦ rw e (is_brand-none name e)
  | inr (brand, e) ↦ rw e (is_brand-some name {brand = brand} e)
]
