-- ===== src/Brand/Owners.antt =====
-- Who owns a brand.
use bye_bye_vpn.Common.{
  Bool, false, not, ◌&&◌, ◌||◌, List, [], ◌∷◌, ◌++◌, ◌≡◌, refl, arith, inl, inr, if◌then◌else◌,
  is_empty, any, Bytes, Option-cases,
}
use bye_bye_vpn.Brand.{is_brand, find_markers, asn_owns_brand}

any-append {ℓ} :
    {A : Type ℓ} (p : A → Bool) (xs ys : List A) → any p (xs ++ ys) ≡ any p xs || any p ys
any-append p [] ys = refl
any-append p (x ∷ xs) ys = ground (arith, any-append p xs ys)

-- The guard on an empty list only spares the search.
abbrev guarded : Bytes → (Bytes → Bool) → List Bytes → Bool
guarded d f orgs = if is_empty d || is_empty orgs then false else any f orgs

guarded_lem :
    (d : Bytes) (f : Bytes → Bool) (orgs : List Bytes)
    → guarded d f orgs ≡ not (is_empty d) && any f orgs
guarded_lem [] f orgs = refl
guarded_lem (x ∷ d) f [] = refl
guarded_lem (x ∷ d) f (o ∷ orgs) = refl

guarded-append :
    (d : Bytes) (f : Bytes → Bool) (a b : List Bytes)
    → guarded d f (a ++ b) ≡ guarded d f a || guarded d f b
guarded-append d f a b =
    rw (guarded_lem d f (a ++ b), guarded_lem d f a, guarded_lem d f b, any-append f a b)
      (ground arith)

-- Organisations own a brand together just when some of them own it: asking about two lists in one
-- call is the same as asking about each.
pub asn_owns_brand-append :
    (brand_domain : Bytes) (a b : List Bytes)
    → asn_owns_brand brand_domain (a ++ b)
      ≡ asn_owns_brand brand_domain a || asn_owns_brand brand_domain b
unfolding asn_owns_brand
asn_owns_brand-append d a b = elim (Option-cases (is_brand d)) [
  | inl e ↦ rw e (ground arith)
  | inr (canonical, e) ↦ rw e (elim (Option-cases (find_markers canonical)) [
    | inl e ↦ rw e (ground arith)
    | inr (m, e) ↦ rw e (guarded-append d _ a b)
  ])
]
