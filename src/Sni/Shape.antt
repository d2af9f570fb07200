-- ===== src/Sni/Shape.antt =====
-- What the flags of an SNI comparison say together.
use bye_bye_vpn.Common.{
  ℕ, suc, ◌+◌, ◌-◌, ◌≤◌, true, false, not, ◌&&◌, ◌||◌, List, [], ◌∷◌, ◌==◌, ltb, leb, ◌≡◌, refl,
  arith, inl, inr, Bool-cases, Option-cases, length, length-append, is_empty, Bytes, bytes_eq,
  bytes_eq_iff, any,
}
use bye_bye_vpn.Report.{TlsProbe, SniConsistency}
use bye_bye_vpn.Sni.{
  alt_snis, insert_sha, Tries, try_sni, try_snis, start_tries, foreign_sni, judge_same, judge_mixed,
  judge, tries_of, gathered, sni_consistency, entry_of,
}

-- The counts of the loop, after `n` names.
abbrev pub TryInv : ℕ → Tries → Type 0
TryInv n t =
    (t.same ≤ t.total)
    × (t.total ≤ n)
    × (length t.entries ≡ n)
    × (length t.distinct ≤ suc (t.total - t.same))

abbrev Knows : Bytes → List Bytes → Type 0
Knows sha distinct = is_empty sha ≡ false → any (bytes_eq sha) distinct ≡ true

insert-Knows :
    (sha x : Bytes) (distinct : List Bytes) → Knows sha distinct → Knows sha (insert_sha x distinct)
unfolding insert_sha
insert-Knows sha x distinct h = ground (arith, h)

module _ (sha : Bytes) where
  try_sni-TryInv :
      (n : ℕ) (s : Bytes) (p : TlsProbe) (t : Tries)
      → TryInv n t
      → Knows sha t.distinct
      → TryInv (suc n) (try_sni sha s p t) × Knows sha (try_sni sha s p t).distinct
  unfolding try_sni insert_sha
  try_sni-TryInv n s p t (a, b, c, d) known =
      let seen : bytes_eq p.cert_sha256 sha ≡ true
          → is_empty p.cert_sha256 ≡ false
          → any (bytes_eq p.cert_sha256) t.distinct ≡ true =
        λ e some_sha.
          let same = (bytes_eq_iff p.cert_sha256 sha).0 e in
          rw same (known (rw same at some_sha)) in
      (
        (
          ground (arith, a),
          ground (arith, b),
          omega (arith, c, length-append t.entries (entry_of s p ∷ [])),
          grind (arith, a, d, seen),
        ),
        λ some_sha. ground (arith, known some_sha),
      )

  try_snis-TryInv :
      (probe : Bytes → TlsProbe) (n : ℕ) (snis : List Bytes) (t : Tries)
      → TryInv n t
      → Knows sha t.distinct
      → TryInv (n + length snis) (try_snis probe sha snis t)
  unfolding try_snis
  try_snis-TryInv probe n [] t h known = (h.0, omega (arith, h), omega (arith, h), h.3)
  try_snis-TryInv probe n (s ∷ snis) t h known =
      let (next, known') = try_sni-TryInv n s (probe s) t h known in
      let (a, b, c, d) =
        try_snis-TryInv probe (suc n) snis (try_sni sha s (probe s) t) next known' in
      (a, omega (arith, b), omega (arith, c), d)

base-Knows : (base : TlsProbe) → Knows base.cert_sha256 (start_tries base).distinct
base-Knows base h = rw h (ground (arith, (bytes_eq_iff base.cert_sha256 base.cert_sha256).1 refl))

start-TryInv : (base : TlsProbe) → TryInv 0 (start_tries base)
start-TryInv base = (omega arith, omega arith, refl, ground arith)

-- Each of the ten alternative names gets an entry, no more than the answers show the same
-- certificate as the first probe, and the different certificates are at most one for the first probe
-- and one for each answer that showed another.
pub tries_of-TryInv : (probe : Bytes → TlsProbe) (base : TlsProbe) → TryInv 10 (tries_of probe base)
unfolding alt_snis
tries_of-TryInv probe base =
    try_snis-TryInv base.cert_sha256 probe 0 alt_snis (start_tries base) (start-TryInv base)
      (base-Knows base)

-- Reality is told by a name that the certificate covers or a brand that it claims; a server that is
-- not like Reality, with one certificate for all names, has a default certificate; a brand that
-- passes through other certificates is impersonated.
abbrev pub IsCoherent : SniConsistency → Type 0
IsCoherent c =
    (c.reality_like && c.default_cert_only ≡ false)
    × (c.default_cert_only ≡ true → c.same_cert_always ≡ true)
    × (c.same_cert_always ≡ true → c.reality_like || c.default_cert_only ≡ true)
    × (c.passthrough_mode ≡ true
        → (c.same_cert_always ≡ false) × (c.cert_impersonation ≡ true) × (c.reality_like ≡ true))
    × (c.cert_impersonation ≡ true → is_empty c.brand_claimed ≡ false)

judge_same-IsCoherent :
    (base_sni : Bytes) (base : TlsProbe) (c : SniConsistency)
    → c.reality_like ≡ false
    → c.default_cert_only ≡ false
    → c.cert_impersonation ≡ false
    → c.passthrough_mode ≡ false
    → IsCoherent (judge_same base_sni base c)
unfolding judge_same
judge_same-IsCoherent base_sni base c r d i p = elim (Option-cases (foreign_sni base_sni base)) [
  | inl e ↦ rw e (ground (arith, r, d, i, p))
  | inr (s, e) ↦ rw e (ground (arith, r, d, i, p))
]

judge_mixed-IsCoherent :
    (c : SniConsistency)
    → c.default_cert_only ≡ false
    → c.same_cert_always ≡ false
    → c.reality_like ≡ false
    → c.cert_impersonation ≡ false
    → c.passthrough_mode ≡ false
    → IsCoherent (judge_mixed c)
unfolding judge_mixed
judge_mixed-IsCoherent c d s r i p = ground (arith, d, s, r, i, p)

judge-IsCoherent :
    (base_sni : Bytes) (base : TlsProbe) (total same : ℕ) (t : Tries)
    → IsCoherent (judge base_sni base total same (gathered base_sni base t))
unfolding judge gathered
judge-IsCoherent base_sni base total same t = elim (Bool-cases (leb 3 total && same == total)) [
  | inl e ↦
      rw e (judge_same-IsCoherent base_sni base (gathered base_sni base t) refl refl refl refl)
  | inr e ↦
      rw e
        (elim (Bool-cases (
          leb 3 total
          && ((same == 0 && leb 3 (length t.distinct)) || (ltb 0 same && ltb same total)))) [
            | inl e' ↦
                rw e' (judge_mixed-IsCoherent (gathered base_sni base t) refl refl refl refl refl)
            | inr e' ↦ rw e' (ground arith)
          ])
]

-- Whatever the server answers: a server is never both like Reality and one with a default
-- certificate only, one that always shows the same certificate is one of the two, a default
-- certificate is always the same one, a passthrough is an impersonation, like Reality, with differing
-- certificates, and an impersonation names the brand.
pub sni_consistency-IsCoherent :
    (probe : Bytes → TlsProbe) (base_sni : Bytes) → IsCoherent (sni_consistency probe base_sni)
unfolding sni_consistency
sni_consistency-IsCoherent probe base_sni = elim (Bool-cases (not (probe base_sni).ok)) [
  | inl e ↦ rw e (ground arith)
  | inr e ↦ rw e (judge-IsCoherent base_sni (probe base_sni) _ _ _)
]
