-- ===== src/Json/Stuck.antt =====
-- Texts that the loops of the JSON reader do not get past.
use bye_bye_vpn.Common.{ℕ, zero, suc, none, [], ◌∷◌, ◌≡◌, refl, Bytes}
use bye_bye_vpn.Text.{skip_space}
use bye_bye_vpn.Json.{
  Items, Fields, parse, items, members, json_get_str, push, put, own, str, bare, skip_sep, no_items,
  no_fields,
}

items-stuck : (fuel : ℕ) (vs : Items) (rest : Bytes) → items fuel vs (b'}' ∷ rest) ≡ none
unfolding items skip_space bare skip_sep
items-stuck zero vs rest = refl
items-stuck (suc zero) vs rest = refl
items-stuck (suc (suc fuel)) vs rest = items-stuck (suc fuel) (push (str []) vs) rest

members-stuck : (fuel : ℕ) (fs : Fields) (rest : Bytes) → members fuel fs (b']' ∷ rest) ≡ none
unfolding members skip_space bare skip_sep own
members-stuck zero fs rest = refl
members-stuck (suc zero) fs rest = refl
members-stuck (suc (suc fuel)) fs rest = members-stuck (suc fuel) (put [] (str []) fs) rest

-- Whatever the fuel, the reader does not come back from a text that begins with `[}` or with `{]`.
pub json_get_str-stuck :
    (fuel : ℕ) (rest key : Bytes)
    → (json_get_str fuel (b'[' ∷ b'}' ∷ rest) key ≡ none)
      × (json_get_str fuel (b'{' ∷ b']' ∷ rest) key ≡ none)
unfolding json_get_str parse skip_space
json_get_str-stuck zero rest key = (refl, refl)
json_get_str-stuck (suc fuel) rest key =
    (rw (items-stuck fuel no_items rest), rw (members-stuck fuel no_fields rest))
