-- ===== src/Text/Split.antt =====
-- `split` and its inverse.
use bye_bye_vpn.Common.{
  ℕ, false, List, [], ◌∷◌, ◌++◌, append_assoc, append-nil, ◌≡◌, refl, sym, ap, ◌∙◌, arith, ◌==◌,
  if◌then◌else◌, All, All-append, Bool-cases, inl, inr, Bytes,
}
use bye_bye_vpn.Text.{split_onto, split}

abbrev pub join : ℕ → List Bytes → Bytes
join sep [] = []
join sep (p ∷ []) = p
join sep (p ∷ q ∷ ps) = p ++ (sep ∷ join sep (q ∷ ps))

abbrev pub Lacks : ℕ → Bytes → Type 0
Lacks sep p = All (λ c. (c == sep) ≡ false) p

-- `split` with no accumulated result.
abbrev parts_of : Bytes → ℕ → Bytes → List Bytes
parts_of current sep [] = current ∷ []
parts_of current sep (c ∷ s) =
    if c == sep then current ∷ parts_of [] sep s else parts_of (current ++ c ∷ []) sep s

split_onto-parts_of :
    (result : List Bytes) (current : Bytes) (sep : ℕ) (s : Bytes)
    → split_onto result current sep s ≡ result ++ parts_of current sep s
unfolding split_onto
split_onto-parts_of result current sep [] = refl
split_onto-parts_of result current sep (c ∷ s) = elim (Bool-cases (c == sep)) [
  | inl e ↦
      rw e (
        split_onto-parts_of (result ++ current ∷ []) [] sep s
        ∙ append_assoc result (current ∷ []) _)
  | inr e ↦ rw e (split_onto-parts_of result (current ++ c ∷ []) sep s)
]

parts_of-Lacks :
    (current : Bytes) (sep : ℕ) (s : Bytes)
    → Lacks sep current
    → All (Lacks sep) (parts_of current sep s)
parts_of-Lacks current sep [] h = (h, tt)
parts_of-Lacks current sep (c ∷ s) h = elim (Bool-cases (c == sep)) [
  | inl e ↦ rw e (h, parts_of-Lacks [] sep s tt)
  | inr e ↦
      rw e (parts_of-Lacks (current ++ c ∷ []) sep s (All-append _ current (c ∷ []) h (e, tt)))
]

join-cons :
    (sep : ℕ) (p : Bytes) (current : Bytes) (s : Bytes)
    → join sep (p ∷ parts_of current sep s) ≡ p ++ (sep ∷ join sep (parts_of current sep s))
join-cons sep p current [] = refl
join-cons sep p current (c ∷ s) = elim (Bool-cases (c == sep)) [
  | inl e ↦ rw e refl
  | inr e ↦ rw e (join-cons sep p (current ++ c ∷ []) s)
]

join-parts_of :
    (current : Bytes) (sep : ℕ) (s : Bytes) → join sep (parts_of current sep s) ≡ current ++ s
join-parts_of current sep [] = sym (append-nil current)
join-parts_of current sep (c ∷ s) = elim (Bool-cases (c == sep)) [
  | inl e ↦ rw e (join-cons sep current [] s ∙ rw (join-parts_of [] sep s) (ground arith))
  | inr e ↦ rw e (join-parts_of (current ++ c ∷ []) sep s ∙ append_assoc current (c ∷ []) s)
]

-- The parts of `split` hold no separator, and put together with separators between them they are
-- the text again.
pub join-split :
    (s : Bytes) (sep : ℕ) → (join sep (split s sep) ≡ s) × All (Lacks sep) (split s sep)
unfolding split
join-split s sep =
    rw (split_onto-parts_of [] [] sep s) (join-parts_of [] sep s, parts_of-Lacks [] sep s tt)

parts_of-append :
    (current p : Bytes) (sep : ℕ) (rest : Bytes)
    → Lacks sep p
    → parts_of current sep (p ++ (sep ∷ rest)) ≡ (current ++ p) ∷ parts_of [] sep rest
parts_of-append current [] sep rest h = rw append-nil (ground arith)
parts_of-append current (c ∷ p) sep rest h =
    rw h.0 (parts_of-append (current ++ c ∷ []) p sep rest h.1 ∙ rw append_assoc)

parts_of_last :
    (current p : Bytes) (sep : ℕ) → Lacks sep p → parts_of current sep p ≡ (current ++ p) ∷ []
parts_of_last current [] sep h = rw append-nil
parts_of_last current (c ∷ p) sep h =
    rw h.0 (parts_of_last (current ++ c ∷ []) p sep h.1 ∙ rw append_assoc)

parts_of-join :
    (p : Bytes) (ps : List Bytes) (sep : ℕ)
    → All (Lacks sep) (p ∷ ps)
    → parts_of [] sep (join sep (p ∷ ps)) ≡ p ∷ ps
parts_of-join p [] sep h = parts_of_last [] p sep h.0
parts_of-join p (q ∷ ps) sep h =
    parts_of-append [] p sep (join sep (q ∷ ps)) h.0 ∙ ap (◌∷◌ p) (parts_of-join q ps sep h.1)

-- `split` reads back every list of one or more parts that hold no separator.
pub split-join :
    (p : Bytes) (ps : List Bytes) (sep : ℕ)
    → All (Lacks sep) (p ∷ ps)
    → split (join sep (p ∷ ps)) sep ≡ p ∷ ps
unfolding split
split-join p ps sep h = split_onto-parts_of [] [] sep (join sep (p ∷ ps)) ∙ parts_of-join p ps sep h
