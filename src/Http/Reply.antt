-- ===== src/Http/Reply.antt =====
-- src/network/http_client.h, and the part of `http_get` that takes the received bytes apart.
use bye_bye_vpn.Common.{
  ℕ, zero, suc, ◌+◌, ◌-◌, ◌*◌, ◌^◌, min, Bool, ◌&&◌, ◌||◌, [], ◌∷◌, ◌++◌, Option, none, some, ◌==◌,
  ltb, leb, if◌then◌else◌, length, take, drop, ℤ, pos, negsuc, Bytes, text, find, find_byte,
  is_digit, is_xdigit,
}
use bye_bye_vpn.Text.{skip_space, contains, tolower_s}
use bye_bye_vpn.Cli.{read_sign, signed}
use bye_bye_vpn.Json.{hex_val}

-- What `http_get` returns.
pub record HttpResp : Type 0 where
  pub status : ℕ
  pub body : Bytes
  pub err : Bytes
  pub ms : ℕ

unfoldable pub is_ok : HttpResp → Bool
is_ok h = leb 200 h.status && ltb h.status 400

-- The hex digits at the front: how many there are, and their value.
unfoldable pub read_hex : ℕ → ℕ → Bytes → ℕ × ℕ
read_hex count value [] = (count, value)
read_hex count value (c ∷ s) = elim (hex_val c) [
  | none ↦ (count, value)
  | some d ↦ read_hex (count + 1) (value * 16 + d) s
]

-- `0x` before a digit, which `strtol` skips in base 16.
unfoldable pub skip_0x : Bytes → Bytes
skip_0x (z ∷ x ∷ d ∷ s) =
    if z == b'0' && ((x == b'x' || x == b'X') && is_xdigit d) then d ∷ s else z ∷ x ∷ d ∷ s
skip_0x s = s

-- `strtol(s, &endptr, 16)` for a 64-bit `long`, `none` when `endptr` does not move.
unfoldable pub strtol_16 : Bytes → Option ℤ
unfolding read_hex skip_0x
strtol_16 s =
    let (negative, digits) = read_sign (skip_space s) in
    let (count, n) = read_hex 0 0 (skip_0x digits) in
    if count == 0
    then none
    else some (signed negative (min n (if negative then 2 ^ 63 else 2 ^ 63 - 1)))

-- The length in front of a chunk, when the loop goes on with it.
unfoldable pub chunk_length : Bytes → Option ℕ
unfolding strtol_16
chunk_length hex_len = elim (strtol_16 hex_len) [
  | none ↦ none
  | some len ↦ elim len [ negsuc n ↦ none | pos n ↦ if n == 0 then none else some n ]
]

-- The loop over the chunks; a step takes at least the line end, so the length is fuel enough.
unfoldable pub decode_chunks : ℕ → Bytes → Bytes
unfolding chunk_length
decode_chunks zero s = []
decode_chunks (suc fuel) s = elim (find (text "\r\n") s) [
  | none ↦ []
  | some nl ↦ elim (chunk_length (take nl s)) [
    | none ↦ []
    | some len ↦
        let behind = drop (nl + 2) s in
        let rest = decode_chunks fuel (drop (len + 2) behind) in
        if ltb (length behind) len then [] else take len behind ++ rest
  ]
]

unfoldable pub dechunk : Bytes → Bytes
unfolding decode_chunks
dechunk body = decode_chunks (length body) body

unfoldable pub three_digits : Bytes → Option ℕ
three_digits (a ∷ b ∷ c ∷ []) =
    if is_digit a && (is_digit b && is_digit c)
    then some (100 * (a - b'0') + (10 * (b - b'0') + (c - b'0')))
    else none
three_digits s = none

-- The status of the first line, or the 0 that `result` starts with.
unfoldable pub status_of : Bytes → ℕ
unfolding three_digits
status_of headers = elim (find_byte b' ' headers) [
  | none ↦ 0
  | some space1 ↦
      let after = drop (space1 + 1) headers in
      elim (find_byte b' ' after) [
        | none ↦ 0
        | some space2 ↦ elim (three_digits (take space2 after)) [ none ↦ 0 | some n ↦ n ]
      ]
]

-- The whole block after the loop of reads.
unfoldable pub parse_response : Bytes → ℕ → HttpResp
unfolding status_of dechunk
parse_response resp_data ms = elim (find (text "\r\n\r\n") resp_data) [
  | none ↦ record { status = 0; body = []; err = text "no header"; ms = ms }
  | some header_end ↦
      let headers = take header_end resp_data in
      let body = drop (header_end + 4) resp_data in
      let chunked = contains (tolower_s headers) (text "transfer-encoding: chunked") in
      record {
        status = status_of headers;
        body = if chunked then dechunk body else body;
        err = [];
        ms = ms;
      }
]
