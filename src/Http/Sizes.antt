-- ===== src/Http/Sizes.antt =====
-- The size in front of a chunk (src/network/http_client.cpp): hexadecimal digits, and what the client reads.
use native.Mathlib.Nat.{mul_assoc, add-mul}
use bye_bye_vpn.Common.{
  ℕ, suc, ◌+◌, ◌-◌, ◌*◌, ◌^◌, ◌<◌, min, Bool, true, false, not, ◌&&◌, ◌||◌, [], ◌∷◌, ◌++◌, some,
  none, ◌==◌, ◌≡◌, refl, arith, length, all, Bytes, is_empty, is_xdigit, all-append, if◌then◌else◌,
  pos,
}
use bye_bye_vpn.Text.{skip_space}
use bye_bye_vpn.Text.Hex.{hex_value}
use bye_bye_vpn.Cli.{read_sign}
use bye_bye_vpn.Json.{hex_val}
use bye_bye_vpn.Http.Reply.{read_hex, skip_0x, strtol_16, chunk_length}

-- What a digit counts for in front of these.
unfoldable pub weight : Bytes → ℕ
weight [] = 1
weight (c ∷ s) = 16 * weight s

-- The number that hexadecimal digits stand for, the highest first.
unfoldable pub hex_number : Bytes → ℕ
unfolding weight
hex_number [] = 0
hex_number (c ∷ s) = hex_value c * weight s + hex_number s

abbrev pub is_line : Bytes → Bool
is_line s = all (λ c. not (c == b'\r')) s

-- Nothing, or what begins with a semicolon or a blank and is on one line.
abbrev pub is_extension : Bytes → Bool
is_extension [] = true
is_extension (c ∷ s) = (c == b';' || c == b' ' || c == 9) && is_line s

-- The line in front of a chunk of `n` bytes (RFC 9112, 7.1).
abbrev pub IsSize : Bytes → ℕ → Type 0
IsSize size n =
    (digits extension : Bytes) × ((size ≡ digits ++ extension)
      × (is_empty digits ≡ false)
      × (all is_xdigit digits ≡ true)
      × (is_extension extension ≡ true)
      × (hex_number digits ≡ n))

is_line-digits : (digits : Bytes) → all is_xdigit digits ≡ true → is_line digits ≡ true
is_line-digits [] h = refl
is_line-digits (c ∷ s) h = ground (arith, is_line-digits s)

is_line-extension : (ext : Bytes) → is_extension ext ≡ true → is_line ext ≡ true
is_line-extension [] h = refl
is_line-extension (c ∷ s) h = ground arith

pub IsSize-is_line : (size : Bytes) (n : ℕ) → IsSize size n → is_line size ≡ true
IsSize-is_line size n (digits, ext, (same, filled, digital, plain, number)) =
    rw
      (
        same,
        all-append (λ c. not (c == b'\r')) digits ext,
        is_line-digits digits digital,
        is_line-extension ext plain,
      )
      refl

hex_val-hex_value : (c : ℕ) → is_xdigit c ≡ true → hex_val c ≡ some (hex_value c)
unfolding hex_val hex_value
hex_val-hex_value c h = ground arith

shift : (value d w : ℕ) → (value * 16 + d) * w ≡ value * (16 * w) + d * w
shift value d w = rw (add-mul (value * 16) d w, mul_assoc value 16 w) refl

read_hex-extension :
    (count value : ℕ) (ext : Bytes)
    → is_extension ext ≡ true
    → read_hex count value ext ≡ (count, value)
unfolding read_hex hex_val
read_hex-extension count value [] h = refl
read_hex-extension count value (c ∷ s) h =
    let no_digit : hex_val c ≡ none = ground arith in rw (read_hex, no_digit) refl

read_hex-digits :
    (count value : ℕ) (digits ext : Bytes)
    → all is_xdigit digits ≡ true
    → is_extension ext ≡ true
    → read_hex count value (digits ++ ext)
      ≡ (count + length digits, value * weight digits + hex_number digits)
unfolding read_hex weight hex_number
read_hex-digits count value [] ext h k =
    let c = read_hex-extension count value ext k in
    let count_same : count + 0 ≡ count = omega arith in
    let value_same : value * 1 + 0 ≡ value = omega arith in rw (c, count_same, value_same) refl
read_hex-digits count value (c ∷ s) ext h k =
    let (first, more) : (is_xdigit c ≡ true) × (all is_xdigit s ≡ true) = ground arith in
    let ih = read_hex-digits (count + 1) (value * 16 + hex_value c) s ext more k in
    let count_same : count + 1 + length s ≡ count + suc (length s) = omega arith in
    let value_same : (value * 16 + hex_value c) * weight s + hex_number s
        ≡ value * (16 * weight s) + (hex_value c * weight s + hex_number s) =
      omega (arith, shift value (hex_value c) (weight s)) in
    rw (read_hex, hex_val-hex_value c first, ih, count_same, value_same) refl

skip_0x-extension :
    (c : ℕ) (s ext : Bytes)
    → all is_xdigit s ≡ true
    → is_extension ext ≡ true
    → skip_0x (c ∷ (s ++ ext)) ≡ c ∷ (s ++ ext)
unfolding skip_0x
skip_0x-extension c [] [] h k = refl
skip_0x-extension c [] (e ∷ []) h k = refl
skip_0x-extension c [] (e ∷ f ∷ ext) h k = ground arith
skip_0x-extension c (d ∷ []) [] h k = refl
skip_0x-extension c (d ∷ []) (e ∷ ext) h k = ground arith
skip_0x-extension c (d ∷ f ∷ s) ext h k = ground arith

strtol_16-digits :
    (digits ext : Bytes)
    → is_empty digits ≡ false
    → all is_xdigit digits ≡ true
    → is_extension ext ≡ true
    → hex_number digits < 2 ^ 63
    → strtol_16 (digits ++ ext) ≡ some (pos (hex_number digits))
unfolding strtol_16 skip_space read_sign
strtol_16-digits [] ext filled h k small = cc
strtol_16-digits (c ∷ s) ext filled h k small =
    let (first, more) : (is_xdigit c ≡ true) × (all is_xdigit s ≡ true) = ground arith in
    let no_space : skip_space (c ∷ (s ++ ext)) ≡ c ∷ (s ++ ext) = ground arith in
    let no_sign : read_sign (c ∷ (s ++ ext)) ≡ (false, c ∷ (s ++ ext)) = ground arith in
    let value : 0 * weight (c ∷ s) + hex_number (c ∷ s) ≡ hex_number (c ∷ s) = omega arith in
    let count : (0 + length (c ∷ s) == 0) ≡ false = ground arith in
    let below : min (hex_number (c ∷ s)) (2 ^ 63 - 1) ≡ hex_number (c ∷ s) = omega arith in
    rw
      (
        strtol_16,
        no_space,
        no_sign,
        skip_0x-extension c s ext more k,
        read_hex-digits 0 0 (c ∷ s) ext h k,
        value,
        count,
        below,
      )
      refl

pub IsSize-chunk_length :
    (size : Bytes) (n : ℕ)
    → IsSize size n
    → n < 2 ^ 63
    → chunk_length size ≡ (if n == 0 then none else some n)
unfolding chunk_length
IsSize-chunk_length size n (digits, ext, (same, filled, digital, plain, number)) small =
    let read = strtol_16-digits digits ext filled digital plain (omega (arith, number, small)) in
    rw (same, chunk_length, read, number) refl
