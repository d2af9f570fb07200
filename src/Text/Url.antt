-- ===== src/Text/Url.antt =====
-- `url_encode` and percent-decoding.
use bye_bye_vpn.Common.{
  ℕ, ◌+◌, ◌*◌, ◌/◌, ◌%◌, ◌<◌, Bool, true, false, ◌||◌, [], ◌∷◌, ◌++◌, ◌≡◌, refl, ap, ◌∙◌, arith,
  ◌==◌, Bool-cases, inl, inr, all, all-append, Bytes,
}
use bye_bye_vpn.Text.{hex_char_upper, is_unreserved, url_byte, url_encode}
use bye_bye_vpn.Text.Hex.{hex_value, hex_value-hex_char_upper, IsBytes}

-- RFC 3986 decoding, of well-formed text.
unfoldable pub url_decode : Bytes → Bytes
url_decode [] = []
url_decode (c ∷ []) = c ∷ []
url_decode (c ∷ d ∷ []) = c ∷ d ∷ []
url_decode (c ∷ d ∷ e ∷ s) = elim (c == b'%') [
  | true ↦ (hex_value d * 16 + hex_value e) ∷ url_decode s
  | false ↦ c ∷ url_decode (d ∷ e ∷ s)
]

url_decode_plain : (c : ℕ) (s : Bytes) → (c == b'%') ≡ false → url_decode (c ∷ s) ≡ c ∷ url_decode s
unfolding url_decode
url_decode_plain c [] h = refl
url_decode_plain c (d ∷ []) h = refl
url_decode_plain c (d ∷ e ∷ s) h = ground arith

url_decode_percent :
    (d e : ℕ) (s : Bytes)
    → url_decode (b'%' ∷ d ∷ e ∷ s) ≡ (hex_value d * 16 + hex_value e) ∷ url_decode s
unfolding url_decode
url_decode_percent d e s = refl

-- One encoded byte is decoded before whatever follows.
url_decode-url_byte :
    (c : ℕ) (s : Bytes) → c < 256 → url_decode (url_byte c ++ s) ≡ c ∷ url_decode s
url_decode-url_byte c s h = elim (Bool-cases (is_unreserved c)) [
  | inl e ↦ unfold url_byte in rw e (url_decode_plain c s (unfold is_unreserved in ground arith))
  | inr e ↦
      unfold url_byte in
      rw e (
        url_decode_percent (hex_char_upper (c / 16 % 16)) (hex_char_upper (c % 16)) s
        ∙ ground (arith, hex_value-hex_char_upper (c / 16 % 16), hex_value-hex_char_upper (c % 16)))
]

-- Percent-decoding gives back every byte string, so the encoding loses nothing.
pub url_decode-url_encode : (s : Bytes) → IsBytes s → url_decode (url_encode s) ≡ s
unfolding url_encode
url_decode-url_encode [] h = unfold url_decode in refl
url_decode-url_encode (c ∷ s) h =
    url_decode-url_byte c (url_encode s) h.0 ∙ ap (◌∷◌ c) (url_decode-url_encode s h.1)

abbrev pub is_url_safe : ℕ → Bool
is_url_safe c = is_unreserved c || c == b'%'

is_url_safe-hex_char_upper : (n : ℕ) → n < 16 → is_url_safe (hex_char_upper n) ≡ true
unfolding is_unreserved hex_char_upper
is_url_safe-hex_char_upper n h = ground arith

is_url_safe-url_byte : (c : ℕ) → all is_url_safe (url_byte c) ≡ true
is_url_safe-url_byte c = elim (Bool-cases (is_unreserved c)) [
  | inl e ↦ unfold url_byte in rw (e, e)
  | inr e ↦
      unfold url_byte in
      rw e (
        rw
          (
            is_url_safe-hex_char_upper (c / 16 % 16) (omega arith),
            is_url_safe-hex_char_upper (c % 16) (omega arith),
          )
          (unfold is_unreserved in refl))
]

-- The encoding consists of unreserved characters and percent signs.
pub url_encode_safe : (s : Bytes) → all is_url_safe (url_encode s) ≡ true
unfolding url_encode
url_encode_safe [] = refl
url_encode_safe (c ∷ s) =
    all-append is_url_safe (url_byte c) (url_encode s)
    ∙ rw (is_url_safe-url_byte c, url_encode_safe s)
