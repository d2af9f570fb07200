-- ===== src/Text/Trim.antt =====
-- What `trim` removes and what it leaves.
use mathlib.Core.List.{reverse, reverse-append, reverse-reverse}
use bye_bye_vpn.Common.{
  true, false, [], ◌∷◌, ◌++◌, ◌≡◌, refl, sym, ap, ◌∙◌, All, All-append, Bool-cases, inl, inr, Bytes,
  is_space,
}
use bye_bye_vpn.Text.{skip_space, trim}

abbrev pub Spaces : Bytes → Type 0
Spaces s = All (λ c. is_space c ≡ true) s

-- The first byte, if there is one, is no white space.
abbrev pub NoLead : Bytes → Type 0
NoLead [] = Unit {0}
NoLead (c ∷ s) = is_space c ≡ false

pub skip_space_lem :
    (s : Bytes) → (lead : Bytes) × (s ≡ lead ++ skip_space s) × Spaces lead × NoLead (skip_space s)
unfolding skip_space
skip_space_lem [] = ([], refl, tt, tt)
skip_space_lem (c ∷ s) = elim (Bool-cases (is_space c)) [
  | inl e ↦
      let (lead, split, blank, rest) = skip_space_lem s in
      rw e (c ∷ lead, ap (◌∷◌ c) split, (e, blank), rest)
  | inr e ↦ rw e ([], refl, tt, e)
]

skip_space-NoLead : (s : Bytes) → NoLead s → skip_space s ≡ s
unfolding skip_space
skip_space-NoLead [] h = refl
skip_space-NoLead (c ∷ s) h = rw h

NoLead-prefix : (t u : Bytes) → NoLead (t ++ u) → NoLead t
NoLead-prefix [] u h = tt
NoLead-prefix (c ∷ t) u h = h

Spaces-reverse : (s : Bytes) → Spaces s → Spaces (reverse s)
Spaces-reverse [] h = tt
Spaces-reverse (c ∷ s) h =
    rw (reverse-append (c ∷ []) s)
      (All-append _ (reverse s) (c ∷ []) (Spaces-reverse s h.1) (h.0, tt))

-- `s` is white space, then `t`, then white space, and `t` neither begins nor ends with any.
abbrev pub IsTrimmed : Bytes → Bytes → Type 0
IsTrimmed s t =
    ((lead : Bytes) × (trail : Bytes) × (s ≡ lead ++ (t ++ trail)) × Spaces lead × Spaces trail)
    × NoLead t
    × NoLead (reverse t)

-- `trim` takes all the white space at both ends away and nothing else.
pub trim-IsTrimmed : (s : Bytes) → IsTrimmed s (trim s)
unfolding trim
trim-IsTrimmed s =
    let (lead, split, blank, clean) = skip_space_lem s in
    let (back, split', blank', clean') = skip_space_lem (reverse (skip_space s)) in
    let whole : skip_space s ≡ reverse (skip_space (reverse (skip_space s))) ++ reverse back =
      sym (reverse-reverse (skip_space s)) ∙ ap reverse split' ∙ reverse-append back _ in
    (
      (lead, reverse back, split ∙ ap (◌++◌ lead) whole, blank, Spaces-reverse back blank'),
      NoLead-prefix _ (reverse back) (rw whole at clean),
      rw reverse-reverse clean',
    )

-- Trimming twice is trimming once.
pub trim_idem : (s : Bytes) → trim (trim s) ≡ trim s
trim_idem s = let (_, clean, clean') = trim-IsTrimmed s in fixed (trim s) clean clean'
  where
    fixed : (t : Bytes) → NoLead t → NoLead (reverse t) → trim t ≡ t
    fixed t h k =
        unfold trim in
        rw (skip_space-NoLead t h, skip_space-NoLead (reverse t) k) (reverse-reverse t)
