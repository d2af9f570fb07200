-- ===== src/J3/Counts.antt =====
-- The counters of `j3_analyze`.
use bye_bye_vpn.Common.{
  ℕ, ◌+◌, Bool, not, ◌&&◌, List, [], ◌∷◌, ◌≡◌, refl, arith, inl, inr, if◌then◌else◌, length,
  Bool-cases,
}
use bye_bye_vpn.Report.{J3Result, J3Analysis}
use bye_bye_vpn.J3.{
  looks_like_http_line, count_probe, count_probes, KeyEntry, keys_of, find_canned, is_canned,
  j3_analyze, empty_analysis,
}

-- How many of the probes the test holds of.
abbrev pub count_of : (J3Result → Bool) → List J3Result → ℕ
count_of test [] = 0
count_of test (p ∷ probes) = (if test p then 1 else 0) + count_of test probes

-- An answer in a version of HTTP that exists, in another one, and any other answer.
abbrev pub answers : J3Result → Bool
answers p = p.responded

abbrev pub answers_http : J3Result → Bool
answers_http p =
    p.responded
    && (looks_like_http_line p.first_line).0
    && not (looks_like_http_line p.first_line).1

abbrev pub answers_bad_version : J3Result → Bool
answers_bad_version p =
    p.responded && (looks_like_http_line p.first_line).0 && (looks_like_http_line p.first_line).1

abbrev pub IsCount : List J3Result → J3Analysis → J3Analysis → Type 0
IsCount probes a b =
    (b.resp ≡ a.resp + count_of answers probes)
    × (b.silent + b.resp ≡ a.silent + a.resp + length probes)
    × (b.http_real ≡ a.http_real + count_of answers_http probes)
    × (b.http_bad_version ≡ a.http_bad_version + count_of answers_bad_version probes)
    × (b.http_real + b.http_bad_version + b.raw_non_http + a.resp
        ≡ a.http_real + a.http_bad_version + a.raw_non_http + b.resp)

count_probe-IsCount : (p : J3Result) (a : J3Analysis) → IsCount (p ∷ []) a (count_probe p a)
unfolding count_probe
count_probe-IsCount p a = elim (Bool-cases p.responded) [
  | inr e ↦ rw e (omega arith, omega arith, omega arith, omega arith, omega arith)
  | inl e ↦ rw e (elim (Bool-cases (looks_like_http_line p.first_line).0) [
    | inr e1 ↦ rw e1 (omega arith, omega arith, omega arith, omega arith, omega arith)
    | inl e1 ↦ rw e1 (elim (Bool-cases (looks_like_http_line p.first_line).1) [
      | inr e2 ↦ rw e2 (omega arith, omega arith, omega arith, omega arith, omega arith)
      | inl e2 ↦ rw e2 (omega arith, omega arith, omega arith, omega arith, omega arith)
    ])
  ])
]

count_probes-IsCount :
    (probes : List J3Result) (a : J3Analysis) → IsCount probes a (count_probes probes a)
unfolding count_probes
count_probes-IsCount [] a = (omega arith, omega arith, omega arith, omega arith, omega arith)
count_probes-IsCount (p ∷ probes) a =
    let (h0, h1, h2, h3, h4) = count_probe-IsCount p a in
    let (k0, k1, k2, k3, k4) = count_probes-IsCount probes (count_probe p a) in
    (
      omega (arith, h0, k0),
      omega (arith, h1, k1),
      omega (arith, h2, k2),
      omega (arith, h3, k3),
      omega (arith, h4, k4),
    )

find_canned-counts :
    (keys left : List KeyEntry) (a : J3Analysis)
    → let b = find_canned keys left a in
      (b.resp ≡ a.resp)
      × (b.silent ≡ a.silent)
      × (b.http_real ≡ a.http_real)
      × (b.http_bad_version ≡ a.http_bad_version)
      × (b.raw_non_http ≡ a.raw_non_http)
unfolding find_canned
find_canned-counts keys [] a = (refl, refl, refl, refl, refl)
find_canned-counts keys (x ∷ left) a = elim (Bool-cases (is_canned keys x)) [
  | inl e ↦ rw e (refl, refl, refl, refl, refl)
  | inr e ↦ rw e (find_canned-counts keys left a)
]

-- The analysis counts every probe once: as silent or as an answer, and an answer under HTTP, HTTP
-- in a version that does not exist, or anything else.
pub j3_analyze-IsCount :
    (probes : List J3Result) → IsCount probes empty_analysis (j3_analyze probes)
unfolding j3_analyze
j3_analyze-IsCount probes =
    let (e0, e1, e2, e3, e4) =
      find_canned-counts (keys_of probes) (keys_of probes) (count_probes probes empty_analysis) in
    rw (e0, e1, e2, e3, e4) (count_probes-IsCount probes empty_analysis)
