-- ===== src/Https/Lines.antt =====
-- The headers of a reply, line by line, and `get_header` of src/network/https_probe.cpp, which searches the
-- whole text for them.
use bye_bye_vpn.Common.{
  ℕ, suc, ◌+◌, true, false, not, List, [], ◌∷◌, ◌++◌, none, some, ◌==◌, ◌≡◌, refl, arith, inl, inr,
  length, drop, Bytes, text, starts_with, find, find_byte, lacks, if◌then◌else◌, to_lower,
  Bool-cases, Option-cases, length-append, all-append,
}
use bye_bye_vpn.Text.{trim, tolower_s}
use bye_bye_vpn.Https.{up_to, header_pos, get_header}

-- The bytes up to the first line feed, and the lines behind it.
unfoldable pub first_line : Bytes → Bytes
first_line [] = []
first_line (c ∷ s) = if c == b'\n' then [] else c ∷ first_line s

unfoldable pub more_lines : Bytes → List Bytes
unfolding first_line
more_lines [] = []
more_lines (c ∷ s) = if c == b'\n' then first_line s ∷ more_lines s else more_lines s

-- The value in the first line that begins with this lower-case name and a colon, in any case.
unfoldable pub value_in : Bytes → List Bytes → Bytes
value_in k [] = []
value_in k (line ∷ lines) =
    if starts_with (tolower_s line) (k ++ b':' ∷ [])
    then trim (drop (length k + 1) line)
    else value_in k lines

unfoldable pub header_of : Bytes → Bytes → Bytes
unfolding value_in more_lines
header_of key reply = value_in (tolower_s key) (first_line reply ∷ more_lines reply)

up_to-first_line : (s : Bytes) → up_to b'\n' s ≡ first_line s
unfolding up_to first_line find_byte
up_to-first_line [] = refl
up_to-first_line (c ∷ s) = elim (Bool-cases (c == b'\n')) [
  | inl e ↦ rw (up_to, find_byte, e) refl
  | inr e ↦
      let ih = up_to-first_line s in
      elim (Option-cases (find_byte b'\n' s)) [
        | inl n ↦ let same = rw (up_to, n) at ih in rw (up_to, find_byte, e, n, ← same) refl
        | inr (p, n) ↦ let same = rw (up_to, n) at ih in rw (up_to, find_byte, e, n, ← same) refl
      ]
]

-- A line begins as the text that it is the first line of.
starts_with-first_line :
    (k s : Bytes)
    → lacks b'\n' k ≡ true
    → starts_with (tolower_s (first_line s)) k ≡ starts_with (tolower_s s) k
unfolding first_line starts_with tolower_s
starts_with-first_line [] s h = refl
starts_with-first_line (d ∷ k) [] h = refl
starts_with-first_line (d ∷ k) (c ∷ s) h = elim (Bool-cases (c == b'\n')) [
  | inl e ↦ unfold to_lower in ground arith
  | inr e ↦ rw (e, starts_with-first_line k s (ground arith)) refl
]

colon_behind :
    (k s : Bytes)
    → lacks b':' k ≡ true
    → starts_with (tolower_s s) (k ++ b':' ∷ []) ≡ true
    → find_byte b':' s ≡ some (length k)
unfolding starts_with tolower_s to_lower find_byte
colon_behind [] [] h m = cc
colon_behind [] (c ∷ s) h m = ground arith
colon_behind (d ∷ k) [] h m = cc
colon_behind (d ∷ k) (c ∷ s) h m =
    let ih = colon_behind k s (ground arith) (ground arith) in ground (arith, ih)

drop-first_line :
    (k s : Bytes)
    → lacks b'\n' k ≡ true
    → starts_with (tolower_s s) k ≡ true
    → first_line (drop (length k) s) ≡ drop (length k) (first_line s)
unfolding starts_with tolower_s to_lower first_line
drop-first_line [] s h m = refl
drop-first_line (d ∷ k) [] h m = cc
drop-first_line (d ∷ k) (c ∷ s) h m =
    let ih = drop-first_line k s (ground arith) (ground arith) in
    let other : (c == b'\n') ≡ false = ground arith in rw (other, ih) refl

-- What `get_header` takes from a line that it found at `p`.
value_at : ℕ → Bytes → Bytes
value_at p body = elim (find_byte b':' (drop p body)) [
  | none ↦ []
  | some n ↦ trim (up_to b'\n' (drop (p + n + 1) body))
]

value_at-suc : (p c : ℕ) (s : Bytes) → value_at (suc p) (c ∷ s) ≡ value_at p s
unfolding value_at
value_at-suc p c s = elim (Option-cases (find_byte b':' (drop p s))) [
  | inl e ↦ rw (value_at, e) refl
  | inr (n, e) ↦
      let same : suc p + n + 1 ≡ suc (p + n + 1) = omega arith in rw (value_at, e, same) refl
]

value_at-here :
    (k s : Bytes)
    → lacks b':' k ≡ true
    → lacks b'\n' k ≡ true
    → starts_with (tolower_s s) (k ++ b':' ∷ []) ≡ true
    → value_at 0 s ≡ trim (drop (length k + 1) (first_line s))
unfolding value_at
value_at-here k s plain line m =
    let whole : lacks b'\n' (k ++ b':' ∷ []) ≡ true =
      rw (all-append (λ c. not (c == b'\n')) k (b':' ∷ []), line) refl in
    let same : 0 + length k + 1 ≡ length k + 1 = omega arith in
    let cut = rw (length-append k (b':' ∷ [])) at (drop-first_line (k ++ b':' ∷ []) s whole m) in
    rw (value_at, colon_behind k s plain m, same, up_to-first_line (drop (length k + 1) s), cut)
      refl

-- What `get_header` finds behind a line feed.
value_behind : Bytes → Bytes → Bytes
unfolding value_at
value_behind k body = elim (find (b'\n' ∷ (k ++ b':' ∷ [])) (tolower_s body)) [
  | none ↦ []
  | some p ↦ value_at p body
]

value_behind-past :
    (k s : Bytes) (c : ℕ)
    → starts_with (to_lower c ∷ tolower_s s) (b'\n' ∷ (k ++ b':' ∷ [])) ≡ false
    → value_behind k (c ∷ s) ≡ value_behind k s
unfolding value_behind tolower_s find
value_behind-past k s c h = elim (Option-cases (find (b'\n' ∷ (k ++ b':' ∷ [])) (tolower_s s))) [
  | inl e ↦ rw (value_behind, find, h, e) refl
  | inr (p, e) ↦ rw (value_behind, find, h, e) (value_at-suc p c s)
]

value_behind-here :
    (k s : Bytes)
    → starts_with (tolower_s s) (k ++ b':' ∷ []) ≡ true
    → value_behind k (b'\n' ∷ s) ≡ value_at 0 (b'\n' ∷ s)
unfolding value_behind tolower_s find starts_with to_lower
value_behind-here k s m = rw (value_behind, find, m) refl

value_at-behind :
    (k s : Bytes)
    → lacks b':' k ≡ true
    → starts_with (tolower_s s) (k ++ b':' ∷ []) ≡ true
    → value_at 0 (b'\n' ∷ s) ≡ value_at 0 s
unfolding value_at find_byte
value_at-behind k s plain m =
    let here = colon_behind k s plain m in
    let same : 0 + suc (length k) + 1 ≡ suc (0 + length k + 1) = omega arith in
    rw (value_at, find_byte, here, same) refl

value_behind-lines :
    (k body : Bytes)
    → lacks b':' k ≡ true
    → lacks b'\n' k ≡ true
    → value_behind k body ≡ value_in k (more_lines body)
unfolding value_behind value_in more_lines find tolower_s
value_behind-lines k [] plain line = refl
value_behind-lines k (c ∷ s) plain line =
    let ih = value_behind-lines k s plain line in
    let kk = k ++ b':' ∷ [] in
    let whole : lacks b'\n' kk ≡ true =
      rw (all-append (λ c. not (c == b'\n')) k (b':' ∷ []), line) refl in
    let first = starts_with-first_line kk s whole in
    elim (Bool-cases (c == b'\n')) [
      | inr e ↦
          let past : starts_with (to_lower c ∷ tolower_s s) (b'\n' ∷ kk) ≡ false =
            unfold starts_with to_lower in ground arith in
          rw (more_lines, e, value_behind-past k s c past, ih) refl
      | inl e ↦
          let feed : c ≡ b'\n' = ground arith in
          rw feed (elim (Bool-cases (starts_with (tolower_s s) kk)) [
            | inl m ↦
                rw
                  (
                    value_behind-here k s m,
                    value_at-behind k s plain m,
                    value_at-here k s plain line m,
                    value_in,
                    first,
                    m,
                  )
                  refl
            | inr m ↦
                let past : starts_with (to_lower b'\n' ∷ tolower_s s) (b'\n' ∷ kk) ≡ false =
                  unfold starts_with to_lower in m in
                rw (value_behind-past k s b'\n' past, value_in, first, m, ih) refl
          ])
    ]

-- The search of the whole text gives what a reader of its lines finds.
pub get_header-header_of :
    (body key : Bytes)
    → lacks b':' (tolower_s key) ≡ true
    → lacks b'\n' (tolower_s key) ≡ true
    → get_header body (tolower_s body) key ≡ header_of key body
unfolding get_header header_pos header_of text value_at value_behind value_in
get_header-header_of body key plain line =
    let k = tolower_s key in
    let kk = k ++ b':' ∷ [] in
    let whole : lacks b'\n' kk ≡ true =
      rw (all-append (λ c. not (c == b'\n')) k (b':' ∷ []), line) refl in
    let first = starts_with-first_line kk body whole in
    elim (Bool-cases (starts_with (tolower_s body) kk)) [
      | inl m ↦ rw (first, get_header, header_pos, m) (value_at-here k body plain line m)
      | inr m ↦ rw (first, get_header, header_pos, m) (value_behind-lines k body plain line)
    ]
