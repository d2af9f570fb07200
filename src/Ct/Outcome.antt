-- ===== src/Ct/Outcome.antt =====
-- What a CT lookup may say.
use bye_bye_vpn.Common.{
  ◌≤◌, Bool, true, false, ◌++◌, ◌==◌, ◌≡◌, arith, inl, inr, Bool-cases, Option-cases, length,
  is_empty, all, is_xdigit, Bytes, text,
}
use bye_bye_vpn.Http.Reply.{HttpResp, is_ok}
use bye_bye_vpn.Ct.{parse_top_level_array_size, ct_check}
use bye_bye_vpn.Report.{CtCheck}

-- A lookup that found the certificate asked for it, had no error and counts 1 to 50 entries; one that
-- did not found none; and it asks only for a hash of 64 hexadecimal digits, if it may ask at all.
abbrev pub IsOutcome : Bytes → Bool → CtCheck → Type 0
IsOutcome sha allow_remote r =
    (r.found ≡ true → (r.queried ≡ true) × (is_empty r.err ≡ true) × (1 ≤ r.log_entries))
    × (r.found ≡ false → r.log_entries ≡ 0)
    × (r.log_entries ≤ 50)
    × (r.queried ≡ true → (allow_remote ≡ true) × (length sha ≡ 64) × (all is_xdigit sha ≡ true))

-- Whatever crt.sh answers: a lookup that found the certificate had asked for it, has no error and
-- counts 1 to 50 entries, any other counts none, and it asks only where remote lookups are allowed
-- and for a hash of 64 hexadecimal digits.
pub ct_check-IsOutcome :
    (http_get : Bytes → HttpResp) (sha : Bytes) (allow_remote : Bool)
    → IsOutcome sha allow_remote (ct_check http_get sha allow_remote)
unfolding ct_check
ct_check-IsOutcome http_get sha allow_remote =
    let h = http_get (text "https://crt.sh/?q=" ++ sha ++ text "&output=json") in
    elim (Bool-cases (length sha == 64)) [
      | inr e ↦ rw e (ground arith)
      | inl e ↦ rw e (elim (Bool-cases (all is_xdigit sha)) [
        | inr d ↦ rw d (ground arith)
        | inl d ↦ rw d (elim (Bool-cases allow_remote) [
          | inr a ↦ rw a (ground arith)
          | inl a ↦ rw a (elim (Bool-cases (is_ok h)) [
            | inr o ↦ rw o (ground (arith, e, d))
            | inl o ↦ rw o (elim (Option-cases (parse_top_level_array_size h.body)) [
              | inl n ↦ rw n (ground (arith, e, d))
              | inr (count, n) ↦ rw n (grind (arith, e, d))
            ])
          ])
        ])
      ])
    ]
