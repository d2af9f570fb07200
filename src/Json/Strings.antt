-- ===== src/Json/Strings.antt =====
-- The strings of the JSON reader: `unescape` against a printer, and the bytes of a code point.
use bye_bye_vpn.Common.{
  ℕ, zero, suc, ◌+◌, ◌*◌, ◌≤◌, false, [], ◌∷◌, ◌++◌, Option, none, some, ◌==◌, ltb, ◌≡◌, refl, ◌&&◌,
  arith, inl, inr, Option-cases, if◌then◌else◌, length, Bytes, within, ◌-◌, Bool, leb, not,
}
use bye_bye_vpn.Json.{append_utf8, simple_escape, unescape_from, unescape, quoted}

-- The letter of a short escape.
unfoldable pub escape_code : ℕ → Option ℕ
escape_code c =
    if c == b'"'
    then some b'"'
    else if c == b'\\'
    then some b'\\'
    else if c == 8
    then some b'b'
    else if c == 9
    then some b't'
    else if c == 10
    then some b'n'
    else if c == 12
    then some b'f'
    else if c == 13
    then some b'r'
    else none

-- What a JSON printer writes for a string.
unfoldable pub escape : Bytes → Bytes
unfolding escape_code
escape [] = []
escape (c ∷ s) = elim (escape_code c) [ none ↦ c ∷ escape s | some e ↦ b'\\' ∷ e ∷ escape s ]

escape_code-none : (c : ℕ) → escape_code c ≡ none → (c == b'"' ≡ false) × (c == b'\\' ≡ false)
unfolding escape_code
escape_code-none c h = ground arith

escape_code-some :
    (c : ℕ) {e : ℕ} → escape_code c ≡ some e → (simple_escape e ≡ c) × (e == b'u' ≡ false)
unfolding escape_code simple_escape
escape_code-some c h = grind arith

escape-plain : (c : ℕ) (s : Bytes) → escape_code c ≡ none → escape (c ∷ s) ≡ c ∷ escape s
unfolding escape
escape-plain c s h = rw (h, escape)

escape-coded :
    (c : ℕ) (s : Bytes) {e : ℕ} → escape_code c ≡ some e → escape (c ∷ s) ≡ b'\\' ∷ e ∷ escape s
unfolding escape
escape-coded c s h = rw (h, escape)

quoted_plain :
    (c : ℕ) (s : Bytes)
    → (c == b'"' ≡ false)
    → (c == b'\\' ≡ false)
    → let (inner, rest) = quoted false s in quoted false (c ∷ s) ≡ (c ∷ inner, rest)
unfolding quoted
quoted_plain c s h e = rw (h, e, quoted)

-- The loop to the closing quote stops at the quote behind a printed string.
pub quoted-escape : (s rest : Bytes) → quoted false (escape s ++ b'"' ∷ rest) ≡ (escape s, rest)
unfolding quoted escape
quoted-escape [] rest = refl
quoted-escape (c ∷ s) rest = elim (Option-cases (escape_code c)) [
  | inl e ↦
      let (a, b) = escape_code-none c e in
      rw (escape-plain c s e, quoted_plain c (escape s ++ b'"' ∷ rest) a b, quoted-escape s rest)
  | inr (d, e) ↦ rw (escape-coded c s {e = d} e, quoted-escape s rest)
]

unescape_from-nil : (fuel : ℕ) → unescape_from fuel [] ≡ []
unfolding unescape_from
unescape_from-nil zero = refl
unescape_from-nil (suc fuel) = refl

unescape_from_plain :
    (fuel c : ℕ) (s : Bytes)
    → c == b'\\' ≡ false
    → unescape_from (suc fuel) (c ∷ s) ≡ c ∷ unescape_from fuel s
unfolding unescape_from
unescape_from_plain fuel c [] h = rw (unescape_from-nil fuel)
unescape_from_plain fuel c (d ∷ s) h = rw (h, unescape_from)

unescape_from-escape :
    (fuel : ℕ) (s : Bytes) → length (escape s) ≤ fuel → unescape_from fuel (escape s) ≡ s
unfolding escape unescape_from
unescape_from-escape fuel [] h = unescape_from-nil fuel
unescape_from-escape zero (c ∷ s) h = elim (Option-cases (escape_code c)) [
  | inl e ↦ let g = rw (escape-plain c s e) at h in absurd (omega (arith, g))
  | inr (d, e) ↦ let g = rw (escape-coded c s {e = d} e) at h in absurd (omega (arith, g))
]
unescape_from-escape (suc fuel) (c ∷ s) h = elim (Option-cases (escape_code c)) [
  | inl e ↦
      let (a, b) = escape_code-none c e in
      let g = rw (escape-plain c s e) at h in
      let ih = unescape_from-escape fuel s (omega (arith, g)) in
      rw (escape-plain c s e, unescape_from_plain fuel c (escape s) b, ih)
  | inr (d, e) ↦
      let (a, b) = escape_code-some c {e = d} e in
      let g = rw (escape-coded c s {e = d} e) at h in
      let ih = unescape_from-escape fuel s (omega (arith, g)) in
      rw (escape-coded c s {e = d} e, b, a, ih, unescape_from)
]

-- The reader gives back every string that was printed with escapes.
pub unescape-escape : (s : Bytes) → unescape (escape s) ≡ s
unfolding unescape
unescape-escape s = unescape_from-escape (length (escape s)) s (omega arith)

abbrev pub is_surrogate : ℕ → Bool
is_surrogate cp = within 0xD800 0xDFFF cp

abbrev is_trail : ℕ → Bool
is_trail c = within 0x80 0xBF c

abbrev accept : Bool → ℕ → Option ℕ
accept test cp = if test then some cp else none

-- The code point that a UTF-8 sequence stands for (RFC 3629): only the shortest form of a code point
-- counts, and a surrogate has none.
unfoldable pub decode_utf8 : Bytes → Option ℕ
decode_utf8 (a ∷ []) = accept (ltb a 0x80) a
decode_utf8 (a ∷ b ∷ []) =
    let cp = 64 * (a - 0xC0) + (b - 0x80) in
    accept (within 0xC0 0xDF a && is_trail b && leb 0x80 cp) cp
decode_utf8 (a ∷ b ∷ c ∷ []) =
    let cp = 4096 * (a - 0xE0) + (64 * (b - 0x80) + (c - 0x80)) in
    accept (within 0xE0 0xEF a && is_trail b && is_trail c && leb 0x800 cp && not (is_surrogate cp))
      cp
decode_utf8 (a ∷ b ∷ c ∷ d ∷ []) =
    let cp = 262144 * (a - 0xF0) + (4096 * (b - 0x80) + (64 * (c - 0x80) + (d - 0x80))) in
    accept
      (within 0xF0 0xF7 a && is_trail b && is_trail c && is_trail d && within 0x10000 0x10FFFF cp)
      cp
decode_utf8 _ = none

-- A code point up to 10FFFF is written in UTF-8, in its shortest form; of a surrogate the code makes bytes
-- that are no UTF-8.
pub decode_utf8-append_utf8 :
    (cp : ℕ)
    → cp ≤ 0x10FFFF
    → decode_utf8 (append_utf8 cp) ≡ (if is_surrogate cp then none else some cp)
unfolding decode_utf8 append_utf8
decode_utf8-append_utf8 cp h = ground arith
