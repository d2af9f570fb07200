-- ===== src/Http/Ports.antt =====
-- The port of a URL (src/network/http_client.cpp): decimal digits, and what the client reads.
use native.Mathlib.Nat.{mul_assoc, add-mul}
use bye_bye_vpn.Common.{
  ℕ, ◌+◌, ◌-◌, ◌*◌, ◌^◌, ◌≤◌, true, false, ◌||◌, [], ◌∷◌, some, ◌==◌, ltb, ◌≡◌, refl, arith, length,
  all, Bytes, is_empty, is_digit, pos,
}
use bye_bye_vpn.Text.{skip_space}
use bye_bye_vpn.Cli.{read_sign, read_digits, strtol}
use bye_bye_vpn.Http.Url.{parse_http_port}

-- What a digit counts for in front of these.
unfoldable pub decimal_weight : Bytes → ℕ
decimal_weight [] = 1
decimal_weight (c ∷ s) = 10 * decimal_weight s

-- The number that decimal digits stand for, the highest first.
unfoldable pub decimal_number : Bytes → ℕ
unfolding decimal_weight
decimal_number [] = 0
decimal_number (c ∷ s) = (c - b'0') * decimal_weight s + decimal_number s

-- Decimal digits, leading zeros or not, for a port.
abbrev pub IsPort : Bytes → ℕ → Type 0
IsPort digits n =
    (is_empty digits ≡ false)
    × (all is_digit digits ≡ true)
    × (decimal_number digits ≡ n)
    × (1 ≤ n)
    × (n ≤ 65535)

shift : (value d w : ℕ) → (value * 10 + d) * w ≡ value * (10 * w) + d * w
shift value d w = rw (add-mul (value * 10) d w, mul_assoc value 10 w) refl

read_digits-decimal :
    (value : ℕ) (digits : Bytes)
    → all is_digit digits ≡ true
    → read_digits value digits ≡ (value * decimal_weight digits + decimal_number digits, [])
unfolding read_digits decimal_weight decimal_number
read_digits-decimal value [] h = let same : value * 1 + 0 ≡ value = omega arith in rw same refl
read_digits-decimal value (c ∷ s) h =
    let (first, more) : (is_digit c ≡ true) × (all is_digit s ≡ true) = ground arith in
    let ih = read_digits-decimal (value * 10 + (c - b'0')) s more in
    let same : (value * 10 + (c - b'0')) * decimal_weight s + decimal_number s
        ≡ value * (10 * decimal_weight s) + ((c - b'0') * decimal_weight s + decimal_number s) =
      omega (arith, shift value (c - b'0') (decimal_weight s)) in
    rw (read_digits, first, ih, same) refl

strtol-digits :
    (digits : Bytes)
    → is_empty digits ≡ false
    → all is_digit digits ≡ true
    → decimal_number digits ≤ 65535
    → strtol digits ≡ some (pos (decimal_number digits))
unfolding strtol skip_space read_sign
strtol-digits [] filled h small = cc
strtol-digits (c ∷ s) filled h small =
    let (first, more) : (is_digit c ≡ true) × (all is_digit s ≡ true) = ground arith in
    let no_space : skip_space (c ∷ s) ≡ c ∷ s = ground arith in
    let no_sign : read_sign (c ∷ s) ≡ (false, c ∷ s) = ground arith in
    let value : 0 * decimal_weight (c ∷ s) + decimal_number (c ∷ s) ≡ decimal_number (c ∷ s) =
      omega arith in
    let taken : (0 == length (c ∷ s)) ≡ false = ground arith in
    let fits : ltb (2 ^ 63 - 1) (decimal_number (c ∷ s)) ≡ false = ground arith in
    rw (strtol, no_space, no_sign, read_digits-decimal 0 (c ∷ s) h, value, taken, fits) refl

-- Such a port is read as its number.
pub parse_http_port-IsPort :
    (digits : Bytes) (n : ℕ) → IsPort digits n → parse_http_port digits ≡ some n
unfolding parse_http_port
parse_http_port-IsPort digits n (filled, digital, number, low, high) =
    let read = strtol-digits digits filled digital (omega (arith, number, high)) in
    let in_range : (ltb n 1 || ltb 65535 n) ≡ false = ground arith in
    rw (parse_http_port, filled, digital, read, number, in_range) refl
