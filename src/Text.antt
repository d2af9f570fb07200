-- ===== src/Text.antt =====
-- src/core/utils.cpp: the string utilities, and `printable_prefix` of src/network/service_probes.cpp.
-- Strings are byte lists; an index that only moves forward is the rest of the list.
pub mod Strip
pub mod Trim
pub mod Split
pub mod Hex
pub mod Url
pub mod Printable
use mathlib.Core.List.{reverse}
use mathlib.Core.Option
use bye_bye_vpn.Common.{
  ℕ, zero, suc, ◌+◌, ◌-◌, ◌/◌, ◌%◌, Bool, true, false, not, ◌&&◌, ◌||◌, List, [], ◌∷◌, ◌++◌, map,
  Option, none, some, ◌==◌, ltb, leb, within, if◌then◌else◌, length, is_empty, get_elem?, Bytes,
  text, find, is_space, is_digit, is_alpha, to_lower,
}

-- `inside` is the inner `while` of an escape sequence, which reads up to its final byte.
pub data Stripper : Type 0 where
  outside inside : Stripper

-- The bytes that `save_write_stripped` puts into the save file.
unfoldable pub strip : Stripper → Bytes → Bytes
strip inside [] = []
strip inside (c ∷ s) = strip (if within b'@' b'~' c then outside else inside) s
strip outside [] = []
strip outside (c ∷ []) = c ∷ []
strip outside (c ∷ d ∷ s) = elim (c == 0x1b && d == b'[') [
  | true ↦ strip inside s
  | false ↦ c ∷ strip outside (d ∷ s)
]

unfoldable pub save_write_stripped : Bytes → Bytes
unfolding strip
save_write_stripped s = strip outside s

unfoldable pub tolower_s : Bytes → Bytes
tolower_s s = map to_lower s

-- haystack.find(needle) != npos
unfoldable pub contains : Bytes → Bytes → Bool
contains haystack needle = elim (find needle haystack) [ none ↦ false | some i ↦ true ]

-- `while (first != last && isspace(*first)) ++first`
unfoldable pub skip_space : Bytes → Bytes
skip_space [] = []
skip_space (c ∷ s) = if is_space c then skip_space s else c ∷ s

-- The second loop of `trim` walks from the other end.
unfoldable pub trim : Bytes → Bytes
unfolding skip_space
trim s = reverse (skip_space (reverse (skip_space s)))

-- The loop of `split`, with its `result` and `current`.
unfoldable pub split_onto : List Bytes → Bytes → ℕ → Bytes → List Bytes
split_onto result current sep [] = result ++ current ∷ []
split_onto result current sep (c ∷ s) =
    split_onto (if c == sep then result ++ current ∷ [] else result)
      (if c == sep then [] else current ++ c ∷ []) sep s

unfoldable pub split : Bytes → ℕ → List Bytes
unfolding split_onto
split s sep = split_onto [] [] sep s

-- `hex_chars.at(n)` for n < 16, the lower case and the upper case table.
unfoldable pub hex_char : ℕ → ℕ
hex_char n = if ltb n 10 then n + b'0' else n - 10 + b'a'

unfoldable pub hex_char_upper : ℕ → ℕ
hex_char_upper n = if ltb n 10 then n + b'0' else n - 10 + b'A'

unfoldable pub hex_s : Bytes → Bool → Bytes
unfolding hex_char
hex_s [] spaces = []
hex_s (b ∷ []) spaces = hex_char (b / 16 % 16) ∷ hex_char (b % 16) ∷ []
hex_s (b ∷ c ∷ rest) spaces =
    hex_char (b / 16 % 16)
    ∷ hex_char (b % 16)
    ∷ ((if spaces then b' ' ∷ [] else []) ++ hex_s (c ∷ rest) spaces)

-- The bytes that `url_encode` leaves as they are.
unfoldable pub is_unreserved : ℕ → Bool
is_unreserved c = is_alpha c || is_digit c || c == b'-' || c == b'_' || c == b'.' || c == b'~'

-- The body of the loop of `url_encode`.
unfoldable pub url_byte : ℕ → Bytes
unfolding hex_char_upper is_unreserved
url_byte c =
    if is_unreserved c
    then c ∷ []
    else b'%' ∷ hex_char_upper (c / 16 % 16) ∷ hex_char_upper (c % 16) ∷ []

unfoldable pub url_encode : Bytes → Bytes
unfolding url_byte
url_encode [] = []
url_encode (c ∷ s) = url_byte c ++ url_encode s

-- What `printable_prefix` appends for one byte, when `out` has `n` bytes and fewer than `lim`.
printable_byte : ℕ → ℕ → ℕ → Bytes
printable_byte lim n c =
    if within 32 126 c
    then c ∷ []
    else if c == b'\r'
    then (if leb (n + 2) lim then b'\\' ∷ b'r' ∷ [] else b'.' ∷ [])
    else if c == b'\n'
    then (if leb (n + 2) lim then b'\\' ∷ b'n' ∷ [] else b'.' ∷ [])
    else b'.' ∷ []

-- The loop of `printable_prefix`: it stops at the end of `s` or once `out` has `lim` bytes.
unfoldable pub printable_onto : ℕ → Bytes → Bytes → Bytes
unfolding printable_byte
printable_onto lim out [] = out
printable_onto lim out (c ∷ s) =
    let rest = printable_onto lim (out ++ printable_byte lim (length out) c) s in
    if ltb (length out) lim then rest else out

unfoldable pub printable_prefix : Bytes → ℕ → Bytes
unfolding printable_onto
printable_prefix s lim = printable_onto lim [] s
