-- ===== src/Text/Hex.antt =====
-- `hex_s` and a decoder.
use bye_bye_vpn.Common.{
  ℕ, ◌+◌, ◌-◌, ◌*◌, ◌/◌, ◌%◌, ◌<◌, true, false, [], ◌∷◌, ◌≡◌, refl, arith, ltb, if◌then◌else◌, All,
  all, length, Bytes, is_digit, is_xdigit,
}
use bye_bye_vpn.Text.{hex_char, hex_char_upper, hex_s}

-- The value of a hexadecimal digit of either case.
unfoldable pub hex_value : ℕ → ℕ
hex_value c = if is_digit c then c - b'0' else if ltb c b'a' then c - b'A' + 10 else c - b'a' + 10

pub hex_value-hex_char : (n : ℕ) → n < 16 → hex_value (hex_char n) ≡ n
unfolding hex_value hex_char
hex_value-hex_char n h = ground arith

pub hex_value-hex_char_upper : (n : ℕ) → n < 16 → hex_value (hex_char_upper n) ≡ n
unfolding hex_value hex_char_upper
hex_value-hex_char_upper n h = ground arith

is_xdigit-hex_char : (n : ℕ) → n < 16 → is_xdigit (hex_char n) ≡ true
unfolding hex_char
is_xdigit-hex_char n h = ground arith

-- Two digits to a byte, for text with no spaces.
unfoldable pub unhex : Bytes → Bytes
unhex [] = []
unhex (c ∷ []) = []
unhex (c ∷ d ∷ s) = (hex_value c * 16 + hex_value d) ∷ unhex s

abbrev pub IsBytes : Bytes → Type 0
IsBytes s = All (λ c. c < 256) s

hex_s-cons :
    (b : ℕ) (s : Bytes)
    → hex_s (b ∷ s) false ≡ hex_char (b / 16 % 16) ∷ hex_char (b % 16) ∷ hex_s s false
unfolding hex_s
hex_s-cons b [] = refl
hex_s-cons b (c ∷ s) = refl

-- Decoding what `hex_s` prints with no spaces gives the bytes again.
pub unhex-hex_s : (s : Bytes) → IsBytes s → unhex (hex_s s false) ≡ s
unfolding unhex
unhex-hex_s [] h = unfold hex_s in refl
unhex-hex_s (b ∷ s) h = rw (hex_s-cons b s) (
    ground
      (arith, hex_value-hex_char (b / 16 % 16), hex_value-hex_char (b % 16), unhex-hex_s s h.1))

-- The output has two hexadecimal digits for each byte, whatever the bytes are.
pub hex_s_shape :
    (s : Bytes) → (length (hex_s s false) ≡ 2 * length s) × (all is_xdigit (hex_s s false) ≡ true)
hex_s_shape [] = unfold hex_s in (omega arith, refl)
hex_s_shape (b ∷ s) = rw (hex_s-cons b s) (
  ground (arith, is_xdigit-hex_char (b / 16 % 16), is_xdigit-hex_char (b % 16), hex_s_shape s),
  ground (arith, is_xdigit-hex_char (b / 16 % 16), is_xdigit-hex_char (b % 16), hex_s_shape s),
)
