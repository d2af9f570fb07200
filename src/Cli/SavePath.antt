-- ===== src/Cli/SavePath.antt =====
-- The file name that `--save` takes by default.
use bye_bye_vpn.Common.{
  ℕ, true, not, [], ◌∷◌, map, if◌then◌else◌, ◌≡◌, refl, arith, inl, inr, Bool-cases, all,
  all-append, Bytes, text,
}
use bye_bye_vpn.Cli.{is_unsafe, default_save_path_for_target}

abbrev safe_byte : ℕ → ℕ
safe_byte c = if is_unsafe c then b'_' else c

safe-map : (target : Bytes) → all (λ c. not (is_unsafe c)) (map safe_byte target) ≡ true
unfolding is_unsafe
safe-map [] = refl
safe-map (c ∷ target) = elim (Bool-cases (is_unsafe c)) [
  | inl e ↦ rw (e, is_unsafe) (safe-map target)
  | inr e ↦ rw (e, is_unsafe) (ground (arith, safe-map target))
]

-- The default path holds none of the bytes : / \ * ? " < > |, whatever the target, so it names a
-- file in the working directory.
pub default_save_path-safe :
    (target : Bytes) → all (λ c. not (is_unsafe c)) (default_save_path_for_target target) ≡ true
unfolding default_save_path_for_target text is_unsafe
default_save_path-safe [] = refl
default_save_path-safe (c ∷ target) =
    rw
      (
        all-append (λ x. not (is_unsafe x)) (map safe_byte (c ∷ target)) (text ".md"),
        safe-map (c ∷ target),
      )
      refl
