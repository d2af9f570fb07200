-- ===== src/Brand/Claims.antt =====
-- Which names lie in which domain, as a test on the lower-case names, and that the tests of
-- src/analysis/brand_cert.cpp agree with it.
use bye_bye_vpn.Common.{
  ℕ, zero, suc, ◌+◌, ◌-◌, Bool, true, false, not, ◌&&◌, ◌||◌, List, [], ◌∷◌, none, ◌≡◌, refl, inl,
  inr, arith, length, drop, leb, ◌==◌, all, find_if, Bytes, text, bytes_eq, starts_with, to_lower,
  Bool-cases, if◌then◌else◌,
}
use bye_bye_vpn.Text.{tolower_s}
use bye_bye_vpn.Brand.{equal_lower, iequals, is_dot_at, iends_with_dot, strip_wildcard}

-- The name without a star and a dot in front.
unfoldable pub without_wildcard : Bytes → Bytes
without_wildcard (c ∷ d ∷ core) = if c == b'*' && d == b'.' then core else c ∷ d ∷ core
without_wildcard s = s

-- Is the lower-case name the domain, or does it end in a dot and the domain, with something in front?
unfoldable pub lies_in : Bytes → Bytes → Bool
lies_in name domain =
    bytes_eq (tolower_s name) (tolower_s domain)
    || (leb (length domain + 2) (length name)
        && bytes_eq (drop (length name - length domain - 1) (tolower_s name))
            (b'.' ∷ tolower_s domain))

equal_lower-bytes_eq : (a b : Bytes) → equal_lower a b ≡ bytes_eq (tolower_s a) (tolower_s b)
unfolding equal_lower bytes_eq tolower_s
equal_lower-bytes_eq [] [] = refl
equal_lower-bytes_eq [] (d ∷ b) = refl
equal_lower-bytes_eq (c ∷ a) [] = refl
equal_lower-bytes_eq (c ∷ a) (d ∷ b) = rw (equal_lower-bytes_eq a b) refl

equal_lower-length : (a b : Bytes) → equal_lower a b ≡ true → length a ≡ length b
unfolding equal_lower
equal_lower-length [] [] h = refl
equal_lower-length [] (d ∷ b) h = cc
equal_lower-length (c ∷ a) [] h = cc
equal_lower-length (c ∷ a) (d ∷ b) h =
    let ih = equal_lower-length a b (ground arith) in omega (arith, ih)

iequals-bytes_eq : (a b : Bytes) → iequals a b ≡ bytes_eq (tolower_s a) (tolower_s b)
unfolding iequals
iequals-bytes_eq a b = elim (Bool-cases (equal_lower a b)) [
  | inl e ↦
      let same : (length a == length b) ≡ true = ground (arith, equal_lower-length a b e) in
      rw (iequals, same, ← equal_lower-bytes_eq a b) refl
  | inr e ↦ rw (← equal_lower-bytes_eq a b, e) (ground (arith, e))
]

tail_at :
    (n : ℕ) (s domain : Bytes)
    → (is_dot_at s n && equal_lower (drop (n + 1) s) domain)
      ≡ bytes_eq (drop n (tolower_s s)) (b'.' ∷ tolower_s domain)
unfolding is_dot_at tolower_s bytes_eq
tail_at zero [] domain = refl
tail_at zero (c ∷ s) domain =
    let dot : (c == b'.') ≡ (to_lower c == b'.') = unfold to_lower in ground arith in
    rw (dot, equal_lower-bytes_eq s domain) refl
tail_at (suc n) [] domain = refl
tail_at (suc n) (c ∷ s) domain =
    let same : suc n + 1 ≡ suc (n + 1) = omega arith in rw same (tail_at n s domain)

guarded : (test rest : Bool) → (if not test then false else rest) ≡ (test && rest)
guarded true rest = refl
guarded false rest = refl

iends_with_dot-tail :
    (s domain : Bytes)
    → iends_with_dot s domain ≡ (
        leb (length domain + 2) (length s)
        && bytes_eq (drop (length s - length domain - 1) (tolower_s s)) (b'.' ∷ tolower_s domain))
unfolding iends_with_dot
iends_with_dot-tail s domain =
    let n = length s - length domain - 1 in
    elim (Bool-cases (leb (length domain + 2) (length s))) [
      | inr e ↦
          let short : leb (length s) (length domain + 1) ≡ true = ground (arith, e) in
          rw (iends_with_dot, short, e) refl
      | inl e ↦
          let long : leb (length s) (length domain + 1) ≡ false = ground (arith, e) in
          let past : length s - length domain ≡ n + 1 = ground (arith, e) in
          let back : n + 1 - 1 + 1 ≡ n + 1 = omega arith in
          rw (iends_with_dot, long, e, ← tail_at n s domain, past)
            (rw (back) (guarded (is_dot_at s (n + 1 - 1)) _))
    ]

-- The two tests of the code together.
pub lies_in-tests :
    (s domain : Bytes) → (iequals s domain || iends_with_dot s domain) ≡ lies_in s domain
unfolding lies_in
lies_in-tests s domain = rw (iequals-bytes_eq s domain, iends_with_dot-tail s domain) refl

pub strip_wildcard-without_wildcard : (s : Bytes) → strip_wildcard s ≡ without_wildcard s
unfolding strip_wildcard without_wildcard starts_with text
strip_wildcard-without_wildcard [] = refl
strip_wildcard-without_wildcard (c ∷ []) = ground arith
strip_wildcard-without_wildcard (c ∷ d ∷ s) = ground arith

pub neither_found {ℓ} :
    {A : Type ℓ} (p q r : A → Bool) (l : List A)
    → ((a : A) → (p a || q a) ≡ r a)
    → find_if p l ≡ none
    → find_if q l ≡ none
    → all (λ a. not (r a)) l ≡ true
neither_found p q r [] same h k = refl
neither_found p q r (x ∷ l) same h k = elim (Bool-cases (p x)) [
  | inl e ↦ absurd (ground (arith, e, h))
  | inr e ↦ elim (Bool-cases (q x)) [
    | inl f ↦ absurd (ground (arith, f, k))
    | inr f ↦
        let ih = neither_found p q r l same (ground (arith, e, h)) (ground (arith, f, k)) in
        rw (← same x, e, f, ih) refl
  ]
]
