-- ===== src/J3/Canned.antt =====
-- The canned answer that `j3_analyze` finds.
use bye_bye_vpn.Common.{
  true, false, List, [], ◌∷◌, ◌≡◌, refl, ◌∙◌, arith, inl, inr, Bool-cases, any, ◌⊎◌,
}
use bye_bye_vpn.Report.{J3Result, J3Analysis}
use bye_bye_vpn.J3.{
  count_probe, count_probes, KeyEntry, matches, keys_of, find_canned, is_canned, j3_analyze,
  empty_analysis,
}

count_probe-canned :
    (p : J3Result) (a : J3Analysis) → (count_probe p a).canned_identical ≡ a.canned_identical
unfolding count_probe
count_probe-canned p a = ground arith

count_probes-canned :
    (probes : List J3Result) (a : J3Analysis)
    → (count_probes probes a).canned_identical ≡ a.canned_identical
unfolding count_probes
count_probes-canned [] a = refl
count_probes-canned (p ∷ probes) a =
    count_probes-canned probes (count_probe p a) ∙ count_probe-canned p a

-- The canned answer of an analysis: there is none, or it is one of the keys.
abbrev pub IsCannedOf : List KeyEntry → List KeyEntry → J3Analysis → Type 0
IsCannedOf keys left a =
    ((any (is_canned keys) left ≡ false) × (a.canned_identical ≡ 0))
    ⊎ ((x : KeyEntry) × (is_canned keys x ≡ true)
        × (a.canned_identical ≡ matches x keys)
        × (a.canned_line ≡ x.line)
        × (a.canned_bytes ≡ x.bytes))

find_canned-IsCannedOf :
    (keys left : List KeyEntry) (a : J3Analysis)
    → a.canned_identical ≡ 0
    → IsCannedOf keys left (find_canned keys left a)
unfolding find_canned
find_canned-IsCannedOf keys [] a h = inl (refl, h)
find_canned-IsCannedOf keys (x ∷ left) a h = elim (Bool-cases (is_canned keys x)) [
  | inl e ↦ rw e (inr (x, e, refl, refl, refl))
  | inr e ↦ rw e (find_canned-IsCannedOf keys left a h)
]

-- The analysis reports a canned answer just when some answer of more than three bytes came at least
-- twice, once of them to a valid HTTP request; it then reports such an answer and how often it came.
pub j3_analyze-IsCannedOf :
    (probes : List J3Result) → IsCannedOf (keys_of probes) (keys_of probes) (j3_analyze probes)
unfolding j3_analyze
j3_analyze-IsCannedOf probes =
    find_canned-IsCannedOf (keys_of probes) (keys_of probes) (count_probes probes empty_analysis)
      (count_probes-canned probes empty_analysis)
