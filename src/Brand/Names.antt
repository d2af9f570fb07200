-- ===== src/Brand/Names.antt =====
-- A name and the domain it lies in, and the tests of src/analysis/brand_cert.cpp for that.
use bye_bye_vpn.Common.{
  ℕ, zero, suc, ◌+◌, ◌-◌, ◌<◌, true, false, [], ◌∷◌, ◌++◌, ◌≡◌, refl, ap, ◌∙◌, ◌⊎◌, inl, inr, arith,
  is_empty, length, take, drop, leb, Bytes, text, starts_with, to_lower, Bool-cases,
}
use bye_bye_vpn.Text.{tolower_s}
use bye_bye_vpn.Brand.{equal_lower, iequals, is_dot_at, iends_with_dot, strip_wildcard}

-- In any case of the letters, the name is the domain, or it ends in a dot and the domain and has something in
-- front of the dot.
abbrev pub IsWithin : Bytes → Bytes → Type 0
IsWithin name domain =
    (tolower_s name ≡ tolower_s domain)
    ⊎ ((front : Bytes) × ((is_empty front ≡ false)
          × (tolower_s name ≡ front ++ b'.' ∷ tolower_s domain)))

equal_lower_lem : (a b : Bytes) → equal_lower a b ≡ true → tolower_s a ≡ tolower_s b
unfolding equal_lower tolower_s
equal_lower_lem [] [] h = refl
equal_lower_lem [] (d ∷ b) h = cc
equal_lower_lem (c ∷ a) [] h = cc
equal_lower_lem (c ∷ a) (d ∷ b) h =
    let (first, more) : (to_lower c ≡ to_lower d) × (equal_lower a b ≡ true) = ground arith in
    rw (first, equal_lower_lem a b more) refl

split_dot :
    (n : ℕ) (s : Bytes)
    → is_dot_at s n ≡ true
    → tolower_s s ≡ tolower_s (take n s) ++ b'.' ∷ tolower_s (drop (n + 1) s)
unfolding is_dot_at tolower_s
split_dot zero [] h = cc
split_dot zero (c ∷ s) h = let dot : c ≡ b'.' = ground arith in unfold to_lower in rw dot refl
split_dot (suc n) [] h = cc
split_dot (suc n) (c ∷ s) h =
    let same : suc n + 1 ≡ suc (n + 1) = omega arith in rw (same, split_dot n s h) refl

take-filled : (n : ℕ) (s : Bytes) → 0 < n → 0 < length s → is_empty (tolower_s (take n s)) ≡ false
unfolding tolower_s
take-filled zero s h k = absurd (omega (arith, h))
take-filled (suc n) [] h k = absurd (omega (arith, k))
take-filled (suc n) (c ∷ s) h k = refl

pub iequals-IsWithin : (s domain : Bytes) → iequals s domain ≡ true → IsWithin s domain
unfolding iequals
iequals-IsWithin s domain h = inl (equal_lower_lem s domain (ground arith))

pub iends_with_dot-IsWithin :
    (s domain : Bytes) → iends_with_dot s domain ≡ true → IsWithin s domain
unfolding iends_with_dot
iends_with_dot-IsWithin s domain h =
    let n = length s - length domain - 1 in
    let (long, dot, tail) : (leb (length s) (length domain + 1) ≡ false)
        × (is_dot_at s n ≡ true)
        × (equal_lower (drop (length s - length domain) s) domain ≡ true) =
      ground arith in
    let enough : length domain + 1 < length s = ground arith in
    let past : n + 1 ≡ length s - length domain = omega arith in
    let same = equal_lower_lem (drop (length s - length domain) s) domain tail in
    inr (
      tolower_s (take n s),
      (take-filled n s (omega arith) (omega arith), split_dot n s dot ∙ rw (past, same) refl),
    )

wildcard_front :
    (name : Bytes) → starts_with name (text "*.") ≡ true → name ≡ b'*' ∷ b'.' ∷ drop 2 name
unfolding starts_with text
wildcard_front [] h = cc
wildcard_front (c ∷ []) h = ground arith
wildcard_front (c ∷ d ∷ s) h =
    let first : c ≡ b'*' = ground arith in
    let second : d ≡ b'.' = ground arith in rw (first, second) refl

behind_wildcard :
    (core domain : Bytes) → IsWithin core domain → IsWithin (b'*' ∷ b'.' ∷ core) domain
unfolding tolower_s to_lower
behind_wildcard core domain (inl same) = inr (b'*' ∷ [], (refl, ap (λ s. b'*' ∷ b'.' ∷ s) same))
behind_wildcard core domain (inr (front, (filled, same))) =
    inr (b'*' ∷ b'.' ∷ front, (refl, ap (λ s. b'*' ∷ b'.' ∷ s) same))

pub strip_wildcard-IsWithin :
    (name domain : Bytes) → IsWithin (strip_wildcard name) domain → IsWithin name domain
unfolding strip_wildcard
strip_wildcard-IsWithin name domain h = elim (Bool-cases (starts_with name (text "*."))) [
  | inr e ↦ rw e at h
  | inl e ↦ rw (wildcard_front name e) (behind_wildcard (drop 2 name) domain (rw e at h))
]
