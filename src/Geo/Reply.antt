-- ===== src/Geo/Reply.antt =====
-- src/analysis/geoip.cpp: what the providers share. `fuel` is that of the JSON reader, so `none` is a reply
-- that the reader does not get to the end of.
use mathlib.Core.Option
use bye_bye_vpn.Common.{
  ℕ, ◌+◌, ◌-◌, Bool, false, [], ◌++◌, Option, none, some, ltb, if◌then◌else◌, is_empty, take, drop,
  Bytes, text, bytes_eq, find, find_byte, to_string,
}
use bye_bye_vpn.Report.{GeoInfo}
use bye_bye_vpn.Json.{json_get_str}
use bye_bye_vpn.Http.Reply.{HttpResp}

-- GeoInfo g; g.source = …;
abbrev pub no_info : Bytes → GeoInfo
no_info source = record {
  ip = [];
  country = [];
  country_code = [];
  city = [];
  asn = [];
  asn_org = [];
  is_hosting = false;
  is_vpn = false;
  is_proxy = false;
  is_tor = false;
  is_abuser = false;
  source = source;
  err = [];
}

-- `if (!r.ok())`
unfoldable pub http_failed : Bytes → HttpResp → GeoInfo
http_failed source r = record (no_info source) {
  err = text "http " ++ (to_string r.status ++ (text " " ++ r.err));
}

-- The position of `{` from `from` on, and of the `}` behind it.
unfoldable pub brace_block : Bytes → ℕ → Option (ℕ × ℕ)
brace_block body from = elim (find_byte b'{' (drop from body)) [
  | none ↦ none
  | some n ↦ elim (find_byte b'}' (drop (from + n) body)) [
    | none ↦ none
    | some m ↦ some (from + n, from + n + m)
  ]
]

-- body.substr(ob, ce - ob + 1)
unfoldable pub block_text : Bytes → ℕ × ℕ → Bytes
block_text body (ob, ce) = take (ce - ob + 1) (drop ob body)

-- The block of a quoted key; nothing when there is none.
unfoldable pub block_of : Bytes → Bytes → Option Bytes
unfolding brace_block block_text
block_of quoted body = elim (find quoted body) [
  | none ↦ none
  | some at_key ↦ Option.map (block_text body) (brace_block body at_key)
]

-- iplocate.io: the block counts only when it begins before the next comma.
unfoldable pub block_before_comma : Bytes → Bytes → Option Bytes
unfolding brace_block block_text
block_before_comma quoted body = elim (find quoted body) [
  | none ↦ none
  | some at_key ↦ elim (brace_block body at_key) [
    | none ↦ none
    | some (ob, ce) ↦
        let stop : ℕ = elim (find_byte b',' (drop at_key body)) [
          | none ↦ ce + 1
          | some n ↦ at_key + n
        ] in
        if ltb ob stop then some (block_text body (ob, ce)) else none
  ]
]

infixl 1 ◌>>=◌
abbrev pub ◌>>=◌ {ℓ κ} : {A : Type ℓ} → {B : Type κ} → Option A → (A → Option B) → Option B
none >>= f = none
some a >>= f = f a

-- `if (x.empty()) x = json_get_str(body, key);`
unfoldable pub or_read : ℕ → Bytes → Bytes → Bytes → Option Bytes
or_read fuel body key x = if is_empty x then json_get_str fuel body key else some x

-- json_get_str(body, key) == "true"
unfoldable pub reads_true : ℕ → Bytes → Bytes → Option Bool
reads_true fuel body key = Option.map (λ s. bytes_eq s (text "true")) (json_get_str fuel body key)
