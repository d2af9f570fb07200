-- ===== src/Common/Search.antt =====
-- Where a byte stands in a string.
use Prim.Native.Nat.{ℕ, suc, ◌+◌}
use mathlib.Core.Path.{◌≡◌, refl}
use mathlib.Core.Logic.{◌⊎◌, inl, inr}
use mathlib.Core.Bool.{Bool, true, false, not}
use mathlib.Core.List.{[], ◌∷◌, ◌++◌}
use mathlib.Core.Option
use mathlib.Core.Option.{Option, none, some}
use native.Mathlib.Omega.{arith}
use bye_bye_vpn.Common.Tests.{◌==◌, Bool-cases, Option-cases}
use bye_bye_vpn.Common.Lists.{length, drop, all}
use bye_bye_vpn.Common.ByteStrings.{Bytes, find_byte}

abbrev pub lacks : ℕ → Bytes → Bool
lacks b s = all (λ c. not (c == b)) s

pub find_byte-past :
    (b : ℕ) (s rest : Bytes)
    → lacks b s ≡ true
    → find_byte b (s ++ rest) ≡ Option.map (λ n. length s + n) (find_byte b rest)
unfolding find_byte
find_byte-past b [] rest h = elim (Option-cases (find_byte b rest)) [
  | inl e ↦ rw e
  | inr (n, e) ↦ let same : n ≡ 0 + n = omega arith in rw (e, ← same) refl
]
find_byte-past b (c ∷ s) rest h = elim (Bool-cases (c == b)) [
  | inl e ↦ absurd (ground (arith, rw e at h))
  | inr e ↦
      let more : lacks b s ≡ true = rw e at h in
      elim (Option-cases (find_byte b rest)) [
        | inl n ↦ rw (e, find_byte-past b s rest more, n)
        | inr (n, m) ↦
            let same : suc (length s + n) ≡ suc (length s) + n = omega arith in
            rw (e, find_byte-past b s rest more, m, same)
      ]
]

pub find_byte-late :
    (b c : ℕ) (a p : Bytes)
    → lacks b a ≡ true
    → c == b ≡ false
    → (find_byte b (a ++ c ∷ p) ≡ none)
      ⊎ ((q : ℕ) × (find_byte b (a ++ c ∷ p) ≡ some (length a + suc q)))
unfolding find_byte
find_byte-late b c a p h other = elim (Option-cases (find_byte b p)) [
  | inl e ↦ inl (rw (find_byte-past b a (c ∷ p) h, find_byte, other, e))
  | inr (q, e) ↦ inr (q, rw (find_byte-past b a (c ∷ p) h, find_byte, other, e))
]

pub find_byte-here :
    (b : ℕ) (a p : Bytes) → lacks b a ≡ true → find_byte b (a ++ b ∷ p) ≡ some (length a)
unfolding find_byte
find_byte-here b a p h =
    let zero_more : length a + 0 ≡ length a = omega arith in
    let same : b == b ≡ true = ground arith in
    rw (find_byte-past b a (b ∷ p) h, find_byte, same, zero_more)

pub drop-past : (s : Bytes) (c : ℕ) (rest : Bytes) → drop (length s + 1) (s ++ c ∷ rest) ≡ rest
drop-past [] c rest = refl
drop-past (d ∷ s) c rest =
    let same : length (d ∷ s) + 1 ≡ suc (length s + 1) = omega arith in
    rw (same, drop-past s c rest)

pub find_byte-none : (b : ℕ) (s : Bytes) → lacks b s ≡ true → find_byte b s ≡ none
unfolding find_byte
find_byte-none b [] h = refl
find_byte-none b (c ∷ s) h = elim (Bool-cases (c == b)) [
  | inl e ↦ absurd (ground (arith, rw e at h))
  | inr e ↦ let more : lacks b s ≡ true = rw e at h in rw (e, find_byte-none b s more)
]

-- `drop` past a front of known length.
pub drop_more : (front s : Bytes) (n : ℕ) → drop (length front + n) (front ++ s) ≡ drop n s
drop_more [] s n = let same : 0 + n ≡ n = omega arith in rw same
drop_more (c ∷ front) s n =
    let same : length (c ∷ front) + n ≡ suc (length front + n) = omega arith in
    rw (same, drop_more front s n)
