-- ===== src/Sni.antt =====
-- src/analysis/sni_consistency.cpp: does a server show one certificate for every name? `tls_probe`
-- is given; `probe sni` stands for its call with the address and the port of the scan.
pub mod Names
pub mod Shape
use bye_bye_vpn.Common.{
  ℕ, zero, suc, ◌+◌, ◌-◌, Bool, true, false, not, ◌&&◌, ◌||◌, List, [], ◌∷◌, ◌++◌, map, Option,
  none, some, ◌==◌, ltb, leb, if◌then◌else◌, length, is_empty, get_elem?, drop, any, find_if,
  within, Bytes, text, bytes_eq, starts_with, find_byte,
}
use bye_bye_vpn.Report.{TlsProbe, SniEntry, SniConsistency}
use bye_bye_vpn.Brand.{cert_claims_brand}

-- `fa` of a byte: an upper-case letter is or-ed with 0x20, which it lacks.
unfoldable pub fold_case : ℕ → ℕ
fold_case c = if within b'A' b'Z' c then c + 0x20 else c

-- The loop over two strings of one length.
unfoldable pub equal_folded : Bytes → Bytes → Bool
unfolding fold_case
equal_folded [] [] = true
equal_folded (c ∷ a) (d ∷ b) =
    let rest = equal_folded a b in if not (fold_case c == fold_case d) then false else rest
equal_folded _ _ = false

unfoldable pub iequals_ascii : Bytes → Bytes → Bool
unfolding equal_folded
iequals_ascii a b = if not (length a == length b) then false else equal_folded a b

-- `name.find('.') == off`
unfoldable pub first_dot_at : Bytes → ℕ → Bool
first_dot_at name off = elim (find_byte b'.' name) [ none ↦ false | some i ↦ i == off ]

unfoldable pub dns_name_match : Bytes → Bytes → Bool
unfolding iequals_ascii first_dot_at
dns_name_match name pat =
    let suffix = drop 1 pat in
    let off = length name - length suffix in
    if is_empty name || is_empty pat
    then false
    else if starts_with pat (text "*.")
    then (if leb (length name) (length suffix)
        then false
        else iequals_ascii (drop off name) suffix && first_dot_at name off)
    else iequals_ascii name pat

unfoldable pub cert_covers_name : Bytes → Bytes → List Bytes → Bool
cert_covers_name sni subject_cn san =
    if dns_name_match sni subject_cn then true else any (dns_name_match sni) san

unfoldable pub alt_snis : List Bytes
alt_snis =
    text "www.microsoft.com"
    ∷ text "www.apple.com"
    ∷ text "www.amazon.com"
    ∷ text "www.google.com"
    ∷ text "www.cloudflare.com"
    ∷ text "www.bing.com"
    ∷ text "addons.mozilla.org"
    ∷ text "www.yandex.ru"
    ∷ text "www.github.com"
    ∷ text "random-domain-that-does-not-exist.invalid"
    ∷ []

-- `distinct.insert(sha)`
unfoldable pub insert_sha : Bytes → List Bytes → List Bytes
insert_sha sha distinct = if any (bytes_eq sha) distinct then distinct else sha ∷ distinct

-- The locals of the loop over the alternative names.
pub record Tries : Type 0 where
  pub same : ℕ
  pub total : ℕ
  pub distinct : List Bytes
  pub entries : List SniEntry

abbrev pub entry_of : Bytes → TlsProbe → SniEntry
entry_of s p = record { sni = s; ok = p.ok; sha = p.cert_sha256; subject = p.cert_subject }

-- The body of the loop.
unfoldable pub try_sni : Bytes → Bytes → TlsProbe → Tries → Tries
try_sni base_sha s p t = record {
  same = if p.ok && bytes_eq p.cert_sha256 base_sha then t.same + 1 else t.same;
  total = if p.ok then t.total + 1 else t.total;
  distinct =
      if p.ok && not (is_empty p.cert_sha256)
      then insert_sha p.cert_sha256 t.distinct
      else t.distinct;
  entries = t.entries ++ entry_of s p ∷ [];
}

unfoldable pub try_snis : (Bytes → TlsProbe) → Bytes → List Bytes → Tries → Tries
try_snis probe base_sha [] t = t
try_snis probe base_sha (s ∷ snis) t = try_snis probe base_sha snis (try_sni base_sha s (probe s) t)

abbrev pub start_tries : TlsProbe → Tries
start_tries base = record {
  same = 0;
  total = 0;
  distinct = if not (is_empty base.cert_sha256) then base.cert_sha256 ∷ [] else [];
  entries = [];
}

-- The inner loop: the first alternative name, other than the one asked for, that the certificate covers.
unfoldable pub foreign_sni : Bytes → TlsProbe → Option Bytes
foreign_sni base_sni base =
    find_if (λ s. not (iequals_ascii s base_sni) && cert_covers_name s base.subject_cn base.san)
      alt_snis

abbrev pub empty_consistency : Bytes → SniConsistency
empty_consistency base_sni = record {
  base_sni = base_sni;
  base_sha = [];
  base_subject = [];
  base_san = [];
  entries = [];
  same_cert_always = false;
  reality_like = false;
  default_cert_only = false;
  matched_foreign_sni = [];
  brand_claimed = [];
  cert_impersonation = false;
  passthrough_mode = false;
  distinct_certs = 0;
}

-- The branch in which every name that answered showed the same certificate.
unfoldable pub judge_same : Bytes → TlsProbe → SniConsistency → SniConsistency
judge_same base_sni base c0 =
    let covers = cert_covers_name base_sni base.subject_cn base.san in
    let c1 = record c0 { same_cert_always = true } in
    let c2 = if covers then c1 else elim (foreign_sni base_sni base) [
      | none ↦ c1
      | some s ↦ record c1 { reality_like = true; matched_foreign_sni = s }
    ] in
    let c3 =
      if is_empty c2.brand_claimed
      then c2
      else if not c2.reality_like && not covers
      then record c2 {
        cert_impersonation = true;
        reality_like = true;
        matched_foreign_sni = c2.brand_claimed;
      }
      else record c2 { cert_impersonation = true } in
    if c3.reality_like then c3 else record c3 { default_cert_only = true }

-- The branch in which the certificates differ.
unfoldable pub judge_mixed : SniConsistency → SniConsistency
judge_mixed c = if is_empty c.brand_claimed then c else record c {
  cert_impersonation = true;
  reality_like = true;
  matched_foreign_sni = c.brand_claimed;
  passthrough_mode = true;
}

unfoldable pub judge : Bytes → TlsProbe → ℕ → ℕ → SniConsistency → SniConsistency
judge base_sni base total same c =
    if leb 3 total && same == total
    then judge_same base_sni base c
    else if leb 3 total && ((same == 0 && leb 3 c.distinct_certs) || (ltb 0 same && ltb same total))
    then judge_mixed c
    else c

abbrev pub tries_of : (Bytes → TlsProbe) → TlsProbe → Tries
tries_of probe base = try_snis probe base.cert_sha256 alt_snis (start_tries base)

-- `c` before the results are judged.
unfoldable pub gathered : Bytes → TlsProbe → Tries → SniConsistency
gathered base_sni base t = record (empty_consistency base_sni) {
  base_sha = base.cert_sha256;
  base_subject = base.cert_subject;
  base_san = base.san;
  entries = t.entries;
  distinct_certs = length t.distinct;
  brand_claimed = cert_claims_brand base.subject_cn base.san;
}

unfoldable pub sni_consistency : (Bytes → TlsProbe) → Bytes → SniConsistency
sni_consistency probe base_sni =
    let base = probe base_sni in
    let t = tries_of probe base in
    if not base.ok
    then empty_consistency base_sni
    else judge base_sni base t.total t.same (gathered base_sni base t)
