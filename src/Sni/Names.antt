-- ===== src/Sni/Names.antt =====
-- Which names a certificate's name covers.
use bye_bye_vpn.Common.{
  ℕ, zero, suc, ◌-◌, ◌≤◌, Bool, true, false, ◌&&◌, [], ◌∷◌, ◌++◌, some, ◌==◌, leb, if◌then◌else◌,
  ◌≡◌, refl, sym, ◌∙◌, ap, arith, inl, inr, Bool-cases, Option-cases, length, length-append,
  is_empty, drop, take, drop-append, Bytes, starts_with, find_byte, text, All,
}
use bye_bye_vpn.Sni.{fold_case, equal_folded, iequals_ascii, first_dot_at, dns_name_match}

-- A label: not empty, and without a dot.
abbrev pub IsLabel : Bytes → Type 0
IsLabel label = (is_empty label ≡ false) × All (λ c. (c == b'.') ≡ false) label

find_byte-append :
    (label rest : Bytes)
    → All (λ c. (c == b'.') ≡ false) label
    → find_byte b'.' (label ++ (b'.' ∷ rest)) ≡ some (length label)
unfolding find_byte
find_byte-append [] rest h = refl
find_byte-append (c ∷ label) rest h = ground (arith, h, find_byte-append label rest h.1)

equal_folded-length : (a b : Bytes) → equal_folded a b ≡ true → length a ≡ length b
unfolding equal_folded
equal_folded-length [] [] h = refl
equal_folded-length [] (d ∷ b) h = ground (arith, h)
equal_folded-length (c ∷ a) [] h = ground (arith, h)
equal_folded-length (c ∷ a) (d ∷ b) h = ground (arith, h, equal_folded-length a b)

iequals-length : (a b : Bytes) → iequals_ascii a b ≡ true → length a ≡ length b
unfolding iequals_ascii
iequals-length a b h = ground (arith, h)

-- The wildcard branch, at the place where the suffix begins.
abbrev ends_label : Bytes → Bytes → ℕ → Bool
ends_label name suffix off = iequals_ascii (drop off name) suffix && first_dot_at name off

wildcard_branch :
    (c : ℕ) (name suffix : Bytes)
    → dns_name_match (c ∷ name) (b'*' ∷ b'.' ∷ suffix) ≡ (
        if leb (length name) (length suffix)
        then false
        else ends_label (c ∷ name) (b'.' ∷ suffix) (length name - length suffix))
unfolding dns_name_match starts_with text
wildcard_branch c name suffix =
    let same : suc (length name) - suc (length suffix) ≡ length name - length suffix =
      omega arith in
    let same_test : leb (suc (length name)) (suc (length suffix))
        ≡ leb (length name) (length suffix) =
      ground arith in
    rw (same, same_test) refl

iequals_dot : (a b : Bytes) → iequals_ascii (b'.' ∷ a) (b'.' ∷ b) ≡ iequals_ascii a b
unfolding iequals_ascii equal_folded fold_case
iequals_dot a b = ground arith

first_dot_append :
    (label rest : Bytes)
    → All (λ c. (c == b'.') ≡ false) label
    → first_dot_at (label ++ (b'.' ∷ rest)) (length label) ≡ true
unfolding first_dot_at
first_dot_append label rest h = rw (find_byte-append label rest h, first_dot_at) (ground arith)

-- A wildcard covers every name of one label in front of its suffix, in any case of the letters.
pub wildcard_covers :
    (label rest suffix : Bytes)
    → IsLabel label
    → iequals_ascii rest suffix ≡ true
    → dns_name_match (label ++ (b'.' ∷ rest)) (b'*' ∷ b'.' ∷ suffix) ≡ true
wildcard_covers [] rest suffix (long, dotless) h = absurd (ground (arith, long))
wildcard_covers (c ∷ label) rest suffix (long, dotless) h =
    let name = label ++ (b'.' ∷ rest) in
    let same = iequals-length rest suffix h in
    let off : length name - length suffix ≡ suc (length label) =
      omega (arith, length-append label (b'.' ∷ rest), same) in
    let room : leb (length name) (length suffix) ≡ false =
      ground (arith, length-append label (b'.' ∷ rest), same) in
    let found : drop (suc (length label)) (c ∷ name) ≡ b'.' ∷ rest =
      drop-append label (b'.' ∷ rest) in
    let dot : first_dot_at (c ∷ name) (suc (length label)) ≡ true =
      first_dot_append (c ∷ label) rest dotless in
    rw (wildcard_branch c name suffix, room, off, found, iequals_dot rest suffix, h, dot) refl

find_byte_lem :
    (s : Bytes) (i : ℕ)
    → find_byte b'.' s ≡ some i
    → (s ≡ take i s ++ (b'.' ∷ drop (suc i) s))
      × All (λ c. (c == b'.') ≡ false) (take i s)
      × (drop i s ≡ b'.' ∷ drop (suc i) s)
unfolding find_byte
find_byte_lem [] i h = cc
find_byte_lem (c ∷ s) i h = elim (Bool-cases (c == b'.')) [
  | inl e ↦
      let first : i ≡ 0 = ground (arith, e, h) in
      let dot : c ≡ b'.' = ground (arith, e) in rw (first, dot) (refl, tt, refl)
  | inr e ↦ elim (Option-cases (find_byte b'.' s)) [
    | inl n ↦ absurd (ground (arith, rw (e, n) at h))
    | inr (j, n) ↦
        let later : i ≡ suc j = ground (arith, rw (e, n) at h) in
        let (parts, clean, tail) = find_byte_lem s j n in
        rw later (ap (◌∷◌ c) parts, (e, clean), tail)
  ]
]

first_dot_at_lem : (s : Bytes) (i : ℕ) → first_dot_at s i ≡ true → find_byte b'.' s ≡ some i
unfolding first_dot_at
first_dot_at_lem s i h = elim (Option-cases (find_byte b'.' s)) [
  | inl n ↦ absurd (ground (arith, rw (n, first_dot_at) at h))
  | inr (j, n) ↦ n ∙ ap some (ground (arith, rw (n, first_dot_at) at h))
]

no_empty_name : (pat : Bytes) → dns_name_match [] pat ≡ false
unfolding dns_name_match
no_empty_name pat = refl

take_some : (n c : ℕ) (s : Bytes) → 1 ≤ n → is_empty (take n (c ∷ s)) ≡ false
take_some zero c s h = absurd (omega arith)
take_some (suc n) c s h = refl

-- Every name that a wildcard covers is one label in front of its suffix, in any case of the letters.
pub wildcard_only :
    (name suffix : Bytes)
    → dns_name_match name (b'*' ∷ b'.' ∷ suffix) ≡ true
    → (label rest : Bytes) × (name ≡ label ++ (b'.' ∷ rest))
      × IsLabel label
      × (iequals_ascii rest suffix ≡ true)
wildcard_only [] suffix h = absurd (ground (arith, no_empty_name (b'*' ∷ b'.' ∷ suffix), h))
wildcard_only (c ∷ name) suffix h = elim (Bool-cases (leb (length name) (length suffix))) [
  | inl e ↦ absurd (ground (arith, rw (wildcard_branch c name suffix, e) at h))
  | inr e ↦
      let off = length name - length suffix in
      let both = rw (wildcard_branch c name suffix, e) at h in
      let (parts, clean, tail) =
        find_byte_lem (c ∷ name) off (first_dot_at_lem (c ∷ name) off (ground (arith, both))) in
      let ends : iequals_ascii (drop off (c ∷ name)) (b'.' ∷ suffix) ≡ true =
        ground (arith, both) in
      (
        take off (c ∷ name),
        drop (suc off) (c ∷ name),
        parts,
        (take_some off c name (ground (arith, e)), clean),
        sym (iequals_dot _ suffix) ∙ rw tail at ends,
      )
]
