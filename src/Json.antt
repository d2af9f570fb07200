-- ===== src/Json.antt =====
-- src/core/utils.cpp, namespace JSON: the reader of the providers' replies. A value of the source is a
-- string, an object or an array. `parse` moves an index over the text; here it takes the rest of the
-- text and gives the rest behind the value. It has no failure, so `none` is a fuel that ran out.
pub mod Strings
pub mod Print
pub mod ReadBack
pub mod Lookup
pub mod Stuck
use bye_bye_vpn.Common.{
  ℕ, zero, suc, ◌+◌, ◌-◌, ◌*◌, ◌/◌, ◌%◌, Bool, true, false, ◌||◌, [], ◌∷◌, ◌++◌, Option, none, some,
  ◌==◌, leb, if◌then◌else◌, length, is_empty, drop, Bytes, text, bytes_eq, is_space, within,
}
use bye_bye_vpn.Text.{skip_space}

-- JSON::Value. The map `o` and the list `order` of its keys are one list of fields, in that order.
mutual
  pub data Value : Type 0 where
    str : Bytes → Value
    obj : Fields → Value
    arr : Items → Value

  pub data Fields : Type 0 where
    no_fields : Fields
    field : Bytes → Value → Fields → Fields

  pub data Items : Type 0 where
    no_items : Items
    item : Value → Items → Items

-- hex_val, `none` for -1.
unfoldable pub hex_val : ℕ → Option ℕ
hex_val c =
    if within b'0' b'9' c
    then some (c - b'0')
    else if within b'a' b'f' c
    then some (10 + c - b'a')
    else if within b'A' b'F' c
    then some (10 + c - b'A')
    else none

-- The loop of parse_u16 over `k` digits.
unfoldable pub hex_digits : ℕ → ℕ → Bytes → Option ℕ
hex_digits zero val s = some val
hex_digits (suc k) val [] = none
hex_digits (suc k) val (c ∷ s) = elim (hex_val c) [
  | none ↦ none
  | some d ↦ hex_digits k (16 * val + d) s
]

unfoldable pub parse_u16 : Bytes → Option ℕ
unfolding hex_digits
parse_u16 s = hex_digits 4 0 s

-- The bytes of a code point; the bits that the source joins with `|` do not overlap.
unfoldable pub append_utf8 : ℕ → Bytes
append_utf8 cp =
    if leb cp 0x7F
    then cp ∷ []
    else if leb cp 0x7FF
    then (0xC0 + cp / 64) ∷ (0x80 + cp % 64) ∷ []
    else if leb cp 0xFFFF
    then (0xE0 + cp / 4096) ∷ (0x80 + (cp / 64) % 64) ∷ (0x80 + cp % 64) ∷ []
    else if leb cp 0x10FFFF
    then (0xF0 + cp / 262144)
      ∷ (0x80 + (cp / 4096) % 64)
      ∷ (0x80 + (cp / 64) % 64)
      ∷ (0x80 + cp % 64)
      ∷ []
    else 0xEF ∷ 0xBF ∷ 0xBD ∷ []

-- The second half of a surrogate pair, when the text goes on with one.
unfoldable pub low_surrogate : Bytes → Option ℕ
unfolding parse_u16
low_surrogate (c ∷ d ∷ s) =
    if c == b'\\'
    then if d == b'u'
      then elim (parse_u16 s) [
        | none ↦ none
        | some u2 ↦ if within 0xDC00 0xDFFF u2 then some u2 else none
      ]
      else none
    else none
low_surrogate _ = none

-- A single \u: a lone surrogate becomes U+FFFD.
unfoldable pub bmp_char : ℕ → Bytes → Bytes × Bytes
unfolding append_utf8
bmp_char u1 rest =
    if within 0xD800 0xDFFF u1 then (append_utf8 0xFFFD, rest) else (append_utf8 u1, rest)

-- `case 'u'`: the bytes it appends and the text behind what it reads.
unfoldable pub unicode : Bytes → Bytes × Bytes
unfolding append_utf8 bmp_char
unicode s = elim (parse_u16 s) [
  | none ↦ (text "?", s)
  | some u1 ↦ elim (within 0xD800 0xDBFF u1) [
    | false ↦ bmp_char u1 (drop 4 s)
    | true ↦ elim (low_surrogate (drop 4 s)) [
      | none ↦ bmp_char u1 (drop 4 s)
      | some u2 ↦ (append_utf8 (0x10000 + (1024 * (u1 - 0xD800) + (u2 - 0xDC00))), drop 10 s)
    ]
  ]
]

-- The other escapes.
unfoldable pub simple_escape : ℕ → ℕ
simple_escape c =
    if c == b'b'
    then 8
    else if c == b'f'
    then 12
    else if c == b'n'
    then 10
    else if c == b'r'
    then 13
    else if c == b't'
    then 9
    else c

-- The loop of `unescape`; a step takes at least one byte.
unfoldable pub unescape_from : ℕ → Bytes → Bytes
unescape_from zero s = []
unescape_from (suc fuel) [] = []
unescape_from (suc fuel) (c ∷ []) = c ∷ []
unescape_from (suc fuel) (c ∷ e ∷ s) = elim (c == b'\\') [
  | false ↦ c ∷ unescape_from fuel (e ∷ s)
  | true ↦ elim (e == b'u') [
    | false ↦ simple_escape e ∷ unescape_from fuel s
    | true ↦ let (out, rest) = unicode s in out ++ unescape_from fuel rest
  ]
]

unfoldable pub unescape : Bytes → Bytes
unfolding unescape_from
unescape s = unescape_from (length s) s

-- The loop to the closing quote: what stands before it, and the text behind it.
unfoldable pub quoted : Bool → Bytes → Bytes × Bytes
quoted escaped [] = ([], [])
quoted true (c ∷ s) = let (inner, rest) = quoted false s in (c ∷ inner, rest)
quoted false (c ∷ s) = elim (c == b'"') [
  | true ↦ ([], s)
  | false ↦ let (inner, rest) = quoted (c == b'\\') s in (c ∷ inner, rest)
]

-- The loop over a number or a word.
unfoldable pub bare : Bytes → Bytes × Bytes
bare [] = ([], [])
bare (c ∷ s) = elim (c == b',' || c == b'}' || c == b']' || is_space c) [
  | true ↦ ([], c ∷ s)
  | false ↦ let (inner, rest) = bare s in (c ∷ inner, rest)
]

-- The loop over spaces and a separator.
unfoldable pub skip_sep : ℕ → Bytes → Bytes
skip_sep sep [] = []
skip_sep sep (c ∷ s) = if is_space c || c == sep then skip_sep sep s else c ∷ s

-- v.o[key] = value, and `order`.
unfoldable pub put : Bytes → Value → Fields → Fields
put key v no_fields = field key v no_fields
put key v (field k w fs) = if bytes_eq k key then field k v fs else field k w (put key v fs)

unfoldable pub push : Value → Items → Items
push v no_items = item v no_items
push v (item w vs) = item w (push v vs)

-- v.s
unfoldable pub own : Value → Bytes
own (str s) = s
own (obj fs) = []
own (arr vs) = []

-- `parse` and the loops over its objects and arrays, with what these hold so far.
unfoldable mutual
  pub parse : ℕ → Bytes → Option (Value × Bytes)
  parse zero s = none
  parse (suc fuel) s = elim (skip_space s) [
    | [] ↦ some (str [], [])
    | c ∷ rest ↦ elim (c == b'"') [
      | true ↦ let (inner, after) = quoted false rest in some (str (unescape inner), after)
      | false ↦ elim (c == b'{') [
        | true ↦ members fuel no_fields rest
        | false ↦ elim (c == b'[') [
          | true ↦ items fuel no_items rest
          | false ↦ let (inner, after) = bare (c ∷ rest) in some (str inner, after)
        ]
      ]
    ]
  ]

  pub members : ℕ → Fields → Bytes → Option (Value × Bytes)
  members zero fs s = none
  members (suc fuel) fs [] = some (obj fs, [])
  members (suc fuel) fs (c ∷ s) = elim (c == b'}') [
    | true ↦ some (obj fs, s)
    | false ↦ elim (parse fuel (c ∷ s)) [
      | none ↦ none
      | some (key, r) ↦ elim (parse fuel (skip_sep b':' r)) [
        | none ↦ none
        | some (v, r1) ↦ members fuel (put (own key) v fs) (skip_sep b',' r1)
      ]
    ]
  ]

  pub items : ℕ → Items → Bytes → Option (Value × Bytes)
  items zero vs s = none
  items (suc fuel) vs [] = some (arr vs, [])
  items (suc fuel) vs (c ∷ s) = elim (c == b']') [
    | true ↦ some (arr vs, s)
    | false ↦ elim (parse fuel (c ∷ s)) [
      | none ↦ none
      | some (v, r) ↦ items fuel (push v vs) (skip_sep b',' r)
    ]
  ]

-- v.o.find(key)
unfoldable pub field_of : Bytes → Fields → Option Value
field_of key no_fields = none
field_of key (field k v fs) = if bytes_eq k key then some v else field_of key fs

-- `it->second.s` when the key is found, even an empty string.
unfoldable pub own_or : Option Value → Bytes → Bytes
unfolding own
own_or (some v) deeper = own v
own_or none deeper = deeper

-- `find_key` and its loops over the children.
unfoldable mutual
  unfolding own_or field_of

  pub find_key : Value → Bytes → Bytes
  find_key (str s) key = []
  find_key (obj fs) key = own_or (field_of key fs) (find_fields fs key)
  find_key (arr vs) key = find_items vs key

  pub find_fields : Fields → Bytes → Bytes
  find_fields no_fields key = []
  find_fields (field k v fs) key =
      if is_empty (find_key v key) then find_fields fs key else find_key v key

  pub find_items : Items → Bytes → Bytes
  find_items no_items key = []
  find_items (item v vs) key =
      if is_empty (find_key v key) then find_items vs key else find_key v key

unfoldable pub json_get_str : ℕ → Bytes → Bytes → Option Bytes
unfolding parse find_key
json_get_str fuel body key = elim (parse fuel body) [
  | none ↦ none
  | some (v, rest) ↦ some (find_key v key)
]
