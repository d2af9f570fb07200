-- ===== src/Ct.antt =====
-- src/analysis/ct_check.cpp: the lookup of a certificate in the CT logs. `http_get` is given. A parser
-- that moves an index over the text takes the rest of it and gives the rest after it, `none` for false;
-- the parsers that call each other share a fuel.
pub mod Outcome
use bye_bye_vpn.Common.{
  ℕ, zero, suc, ◌+◌, ◌-◌, min, ◌*◌, Bool, true, false, not, ◌&&◌, ◌||◌, List, [], ◌∷◌, ◌++◌, Option,
  none, some, ◌==◌, ltb, leb, if◌then◌else◌, length, is_empty, drop, all, Bytes, text, starts_with,
  is_digit, is_xdigit, to_string,
}
use bye_bye_vpn.Report.{CtCheck}
use bye_bye_vpn.Text.{skip_space}
use bye_bye_vpn.Http.Reply.{HttpResp, is_ok}

-- The four digits of \u.
unfoldable pub skip_xdigits : ℕ → Bytes → Option Bytes
skip_xdigits zero s = some s
skip_xdigits (suc n) [] = none
skip_xdigits (suc n) (c ∷ s) = if is_xdigit c then skip_xdigits n s else none

abbrev is_escape : ℕ → Bool
is_escape c =
    c == b'"'
    || c == b'\\'
    || c == b'/'
    || c == b'b'
    || c == b'f'
    || c == b'n'
    || c == b'r'
    || c == b't'

-- The loop of parse_string behind the first quote; a step takes at least one byte, so the length of the
-- text is fuel enough.
unfoldable pub string_rest : ℕ → Bytes → Option Bytes
string_rest zero s = none
string_rest (suc fuel) [] = none
string_rest (suc fuel) (c ∷ s) =
    if c == b'"'
    then some s
    else if c == b'\\'
    then elim s [
      | [] ↦ none
      | esc ∷ s1 ↦
          if esc == b'u'
          then elim (skip_xdigits 4 s1) [ none ↦ none | some s2 ↦ string_rest fuel s2 ]
          else if is_escape esc
          then string_rest fuel s1
          else none
    ]
    else if ltb c 0x20
    then none
    else string_rest fuel s

unfoldable pub parse_string : Bytes → Option Bytes
unfolding string_rest
parse_string [] = none
parse_string (c ∷ s) = if c == b'"' then string_rest (length s + 1) s else none

unfoldable pub skip_digits : Bytes → Bytes
skip_digits [] = []
skip_digits (c ∷ s) = if is_digit c then skip_digits s else c ∷ s

-- Digits, at least one.
unfoldable pub some_digits : Bytes → Option Bytes
unfolding skip_digits
some_digits [] = none
some_digits (c ∷ s) = if is_digit c then some (skip_digits s) else none

unfoldable pub skip_sign : Bytes → Bytes
skip_sign [] = []
skip_sign (c ∷ s) = if c == b'-' then s else c ∷ s

unfoldable pub integer_part : Bytes → Option Bytes
unfolding skip_digits
integer_part [] = none
integer_part (c ∷ s) =
    if c == b'0' then some s else if is_digit c then some (skip_digits s) else none

unfoldable pub fraction_part : Bytes → Option Bytes
unfolding some_digits
fraction_part [] = some []
fraction_part (c ∷ s) = if c == b'.' then some_digits s else some (c ∷ s)

unfoldable pub exponent_sign : Bytes → Bytes
exponent_sign [] = []
exponent_sign (c ∷ s) = if c == b'+' || c == b'-' then s else c ∷ s

unfoldable pub exponent_part : Bytes → Option Bytes
unfolding some_digits exponent_sign
exponent_part [] = some []
exponent_part (c ∷ s) =
    if c == b'e' || c == b'E' then some_digits (exponent_sign s) else some (c ∷ s)

unfoldable pub parse_number : Bytes → Option Bytes
parse_number s = elim (integer_part (skip_sign s)) [
  | none ↦ none
  | some s1 ↦ elim (fraction_part s1) [ none ↦ none | some s2 ↦ exponent_part s2 ]
]

unfoldable pub parse_literal : Bytes → Bytes → Option Bytes
parse_literal lit s = if starts_with s lit then some (drop (length lit) s) else none

-- parse_value, parse_object and parse_array call each other: `What` says which one runs, from which
-- number of members or items on. The result is that number at the end, and the rest.
pub data What : Type 0 where
  value : What
  members : ℕ → What
  items : ℕ → What

-- After a member or an item: the end, or a comma and the next one.
abbrev after : ℕ → ℕ → (Bytes → Option (ℕ × Bytes)) → Bytes → Option (ℕ × Bytes)
after close n again [] = none
after close n again (c ∷ s) = elim (c == close) [
  | true ↦ some (n, s)
  | false ↦ elim (c == b',') [ true ↦ again (skip_space s) | false ↦ none ]
]

-- Behind an opening bracket: the closing one, or the loop.
abbrev opened : ℕ → (Bytes → Option (ℕ × Bytes)) → Bytes → Option (ℕ × Bytes)
opened close loop [] = loop []
opened close loop (c ∷ s) = elim (c == close) [ true ↦ some (0, s) | false ↦ loop (c ∷ s) ]

abbrev uncounted : Option Bytes → Option (ℕ × Bytes)
uncounted none = none
uncounted (some s) = some (0, s)

-- The colon of a member.
unfoldable pub parse_key : Bytes → Option Bytes
parse_key s = elim (parse_string s) [
  | none ↦ none
  | some r ↦ elim (skip_space r) [ [] ↦ none | c ∷ r1 ↦ if c == b':' then some r1 else none ]
]

unfoldable pub parse : ℕ → What → Bytes → Option (ℕ × Bytes)
unfolding parse_key
parse zero what s = none
parse (suc fuel) value s = elim (skip_space s) [
  | [] ↦ none
  | c ∷ rest ↦ elim (c == b'"') [
    | true ↦ uncounted (parse_string (c ∷ rest))
    | false ↦ elim (c == b'{') [
      | true ↦ opened b'}' (parse fuel (members 0)) (skip_space rest)
      | false ↦ elim (c == b'[') [
        | true ↦ opened b']' (parse fuel (items 0)) (skip_space rest)
        | false ↦ uncounted (
            if c == b't'
            then parse_literal (text "true") (c ∷ rest)
            else if c == b'f'
            then parse_literal (text "false") (c ∷ rest)
            else if c == b'n'
            then parse_literal (text "null") (c ∷ rest)
            else parse_number (c ∷ rest))
      ]
    ]
  ]
]
parse (suc fuel) (members n) s = elim (parse_key s) [
  | none ↦ none
  | some r ↦ elim (parse fuel value r) [
    | none ↦ none
    | some (k, r1) ↦ after b'}' (n + 1) (parse fuel (members (n + 1))) (skip_space r1)
  ]
]
parse (suc fuel) (items n) s = elim (parse fuel value s) [
  | none ↦ none
  | some (k, r) ↦ after b']' (n + 1) (parse fuel (items (n + 1))) (skip_space r)
]

-- A call uses one unit of fuel and two calls in a row take at least one byte.
unfoldable pub parse_array : Bytes → Option (ℕ × Bytes)
unfolding parse
parse_array [] = none
parse_array (c ∷ s) =
    if c == b'[' then opened b']' (parse (2 * length s + 2) (items 0)) (skip_space s) else none

unfoldable pub parse_top_level_array_size : Bytes → Option ℕ
unfolding parse_array
parse_top_level_array_size s = elim (parse_array (skip_space s)) [
  | none ↦ none
  | some (count, rest) ↦ if is_empty (skip_space rest) then some count else none
]

-- kCtCheckMaxLogEntries
abbrev pub max_log_entries : ℕ
max_log_entries = 50

abbrev ct_error : Bool → Bytes → CtCheck
ct_error queried err = record { queried = queried; found = false; log_entries = 0; err = err }

unfoldable pub ct_check : (Bytes → HttpResp) → Bytes → Bool → CtCheck
unfolding is_ok
ct_check http_get cert_sha256 allow_remote =
    let h = http_get (text "https://crt.sh/?q=" ++ cert_sha256 ++ text "&output=json") in
    if not (length cert_sha256 == 64)
    then ct_error false (text "invalid sha256")
    else if not (all is_xdigit cert_sha256)
    then ct_error false (text "invalid sha256")
    else if not allow_remote
    then ct_error false (text "remote query disabled")
    else if not (is_ok h)
    then ct_error true (text "http " ++ to_string h.status)
    else elim (parse_top_level_array_size h.body) [
      | none ↦ ct_error true (text "json parse")
      | some count ↦ record {
        queried = true;
        found = ltb 0 count;
        log_entries = if ltb 0 count then min count max_log_entries else 0;
        err = [];
      }
    ]
