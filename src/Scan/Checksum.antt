-- ===== src/Scan/Checksum.antt =====
-- `checksum16` of src/network/tcp_async_scan.cpp, the Internet checksum of the SYN frames. Its `sum`
-- is a uint32_t.
use bye_bye_vpn.Common.{
  ℕ, zero, suc, ◌+◌, ◌-◌, ◌*◌, ◌/◌, ◌%◌, ◌^◌, ◌≤◌, ◌<◌, true, false, [], ◌∷◌, ◌≡◌, arith, ◌==◌,
  length, Bytes,
}
use bye_bye_vpn.Text.Hex.{IsBytes}

-- The first loop and the odd byte after it.
unfoldable pub sum_words : ℕ → Bytes → ℕ
sum_words sum [] = sum
sum_words sum (b ∷ []) = (sum + b * 256 % 65536) % 2 ^ 32
sum_words sum (b ∷ c ∷ rest) = sum_words ((sum + (b * 256 + c) % 65536) % 2 ^ 32) rest

-- `while ((sum >> 16) != 0)`, on fuel.
fold_carries : ℕ → ℕ → ℕ
fold_carries zero sum = sum
fold_carries (suc fuel) sum = elim (sum / 65536 == 0) [
  | true ↦ sum
  | false ↦ fold_carries fuel (sum % 65536 + sum / 65536)
]

-- Two rounds are enough (`fold_carries_lem`); the third sees that they were.
unfoldable pub checksum16 : Bytes → ℕ
unfolding sum_words fold_carries
checksum16 bytes = 65535 - fold_carries 3 (sum_words 0 bytes)

-- The sum of the 16-bit words, the last one filled up by a zero byte.
unfoldable pub word_sum : Bytes → ℕ
word_sum [] = 0
word_sum (b ∷ []) = b * 256
word_sum (b ∷ c ∷ rest) = b * 256 + c + word_sum rest

sum_words-word_sum :
    (sum : ℕ) (s : Bytes)
    → IsBytes s
    → sum + 65536 * length s < 2 ^ 32
    → (sum_words sum s ≡ sum + word_sum s) × (word_sum s ≤ 65536 * length s)
unfolding sum_words word_sum
sum_words-word_sum sum [] h k = (omega arith, omega arith)
sum_words-word_sum sum (b ∷ []) h k = (omega arith, omega arith)
sum_words-word_sum sum (b ∷ c ∷ rest) h k =
    let flat : (sum + (b * 256 + c) % 65536) % 2 ^ 32 ≡ sum + (b * 256 + c) = omega arith in
    let ih = sum_words-word_sum (sum + (b * 256 + c)) rest h.1.1 (omega arith) in
    (rw flat (omega (arith, ih)), omega (arith, ih))

-- Folding keeps the sum modulo 65535, and three rounds bring it below 65536.
fold_carries_lem :
    (sum : ℕ)
    → sum < 2 ^ 32
    → (fold_carries 3 sum < 65536) × (fold_carries 3 sum % 65535 ≡ sum % 65535)
unfolding fold_carries
fold_carries_lem sum h = ground arith

-- The checksum is a 16-bit number, and the words of the data with it add up to a multiple of 65535:
-- the receiver's sum folds to all ones.
pub checksum16_lem :
    (s : Bytes)
    → IsBytes s
    → length s < 65535
    → (checksum16 s < 65536) × ((word_sum s + checksum16 s) % 65535 ≡ 0)
unfolding checksum16
checksum16_lem s h k =
    let (same, small) = sum_words-word_sum 0 s h (omega arith) in
    let (low, congruent) = fold_carries_lem (sum_words 0 s) (omega arith) in
    (omega arith, omega arith)
