-- ===== src/Text/Printable.antt =====
-- The bound of `printable_prefix` and the bytes that it lets through.
use bye_bye_vpn.Common.{
  ℕ, ◌+◌, ◌≤◌, ◌<◌, Bool, true, [], ◌∷◌, ◌++◌, append-nil, append_assoc, ◌≡◌, refl, sym, ◌∙◌, arith,
  ltb, within, Bool-cases, inl, inr, length, length-append, all, all-append, Bytes,
}
use bye_bye_vpn.Text.{printable_byte, printable_onto, printable_prefix}

abbrev pub is_printable : ℕ → Bool
is_printable c = within 32 126 c

printable_byte_lem :
    (lim n c : ℕ)
    → n < lim
    → (n + length (printable_byte lim n c) ≤ lim)
      × (all is_printable (printable_byte lim n c) ≡ true)
unfolding printable_byte
printable_byte_lem lim n c h = ground arith

printable_onto_lem :
    (lim : ℕ) (out s : Bytes)
    → length out ≤ lim
    → all is_printable out ≡ true
    → (length (printable_onto lim out s) ≤ lim)
      × (all is_printable (printable_onto lim out s) ≡ true)
unfolding printable_onto
printable_onto_lem lim out [] h k = (h, k)
printable_onto_lem lim out (c ∷ s) h k = elim (Bool-cases (ltb (length out) lim)) [
  | inl e ↦
      let (fits, clean) = printable_byte_lem lim (length out) c (ground arith) in
      rw e (
        printable_onto_lem lim (out ++ printable_byte lim (length out) c) s
          (omega (arith, length-append out (printable_byte lim (length out) c)))
          (all-append is_printable out _ ∙ rw (k, clean)))
  | inr e ↦ rw e (h, k)
]

-- Whatever the server sent, the output has at most `lim` bytes and all of them are printable.
pub printable_prefix_lem :
    (s : Bytes) (lim : ℕ)
    → (length (printable_prefix s lim) ≤ lim) × (all is_printable (printable_prefix s lim) ≡ true)
unfolding printable_prefix
printable_prefix_lem s lim = printable_onto_lem lim [] s (omega arith) refl

printable_onto_id :
    (lim : ℕ) (out s : Bytes)
    → all is_printable s ≡ true
    → length out + length s ≤ lim
    → printable_onto lim out s ≡ out ++ s
unfolding printable_onto printable_byte
printable_onto_id lim out [] h k = sym (append-nil out)
printable_onto_id lim out (c ∷ s) h k =
    let step =
      printable_onto_id lim (out ++ c ∷ []) s (ground arith)
        (omega (arith, length-append out (c ∷ []))) in
    ground (arith, step, append_assoc out (c ∷ []) s)

-- Printable text that fits is left as it is.
pub printable_prefix_id :
    (s : Bytes) (lim : ℕ) → all is_printable s ≡ true → length s ≤ lim → printable_prefix s lim ≡ s
unfolding printable_prefix
printable_prefix_id s lim h k = printable_onto_id lim [] s h (omega arith)
