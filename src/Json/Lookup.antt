-- ===== src/Json/Lookup.antt =====
-- The JSON reader finds a field by its key.
use bye_bye_vpn.Common.{
  ℕ, ◌≤◌, Bool, true, false, ◌&&◌, Option, none, some, ◌≡◌, refl, arith, inl, inr, Bool-cases,
  Option-cases, if◌then◌else◌, length, Bytes, bytes_eq, bytes_eq_iff,
}
use mathlib.Core.Option
use bye_bye_vpn.Json.{
  Value, Fields, obj, arr, no_fields, field, put, own, field_of, own_or, find_key, json_get_str,
  str,
}
use bye_bye_vpn.Json.Print.{print, normal, put_all}
use bye_bye_vpn.Json.ReadBack.{parse-print}

-- The last value that a key has among the fields.
unfoldable pub last_field : Bytes → Fields → Option Value
last_field key no_fields = none
last_field key (field k v fs) = elim (last_field key fs) [
  | some w ↦ some w
  | none ↦ if bytes_eq k key then some v else none
]

if_idem {ℓ} :
    {A : Type ℓ} (b : Bool) (x y z : A)
    → (if b then x else if b then y else z) ≡ (if b then x else z)
if_idem true x y z = refl
if_idem false x y z = refl

if_swap {ℓ} :
    {A : Type ℓ} (a b : Bool) (x y z : A)
    → (a && b ≡ false)
    → (if a then x else if b then y else z) ≡ (if b then y else if a then x else z)
if_swap true true x y z h = absurd (ground (arith, h))
if_swap true false x y z h = refl
if_swap false b x y z h = refl

not_both : (l k key : Bytes) → bytes_eq l k ≡ false → bytes_eq l key && bytes_eq k key ≡ false
not_both l k key h = elim (Bool-cases (bytes_eq l key && bytes_eq k key)) [
  | inr e ↦ e
  | inl e ↦
      let (to_l, _) = bytes_eq_iff l key in
      let (to_k, _) = bytes_eq_iff k key in
      let (_, back) = bytes_eq_iff l k in absurd (ground (arith, e, h, to_l, to_k, back))
]

field_of-put :
    (key k : Bytes) (v : Value) (fs : Fields)
    → field_of key (put k v fs) ≡ (if bytes_eq k key then some v else field_of key fs)
unfolding put field_of
field_of-put key k v no_fields = refl
field_of-put key k v (field l w fs) = elim (Bool-cases (bytes_eq l k)) [
  | inl e ↦
      let (to, _) = bytes_eq_iff l k in
      rw (e, put, field_of, to e, if_idem (bytes_eq k key) (some v) (some w) (field_of key fs))
  | inr e ↦
      rw (e, put, field_of, field_of-put key k v fs)
        (if_swap (bytes_eq l key) (bytes_eq k key) (some w) (some v) (field_of key fs)
          (not_both l k key e))
]

or_else : Option Value → Option Value → Option Value
or_else (some v) old = some v
or_else none old = old

field_of-put_all :
    (key : Bytes) (acc fs : Fields)
    → field_of key (put_all acc fs)
      ≡ or_else (Option.map normal (last_field key fs)) (field_of key acc)
unfolding put_all last_field or_else normal
field_of-put_all key acc no_fields = refl
field_of-put_all key acc (field k v fs) =
    let e1 = field_of-put_all key (put k (normal v) acc) fs in
    let e2 = field_of-put key k (normal v) acc in
    elim (Option-cases (last_field key fs)) [
      | inr (w, e) ↦ rw (e1, e2, e, last_field)
      | inl e ↦ elim (Bool-cases (bytes_eq k key)) [
        | inl b ↦ rw (e1, e2, e, b, last_field)
        | inr b ↦ rw (e1, e2, e, b, last_field)
      ]
    ]

own-normal : (v : Value) → own (normal v) ≡ own v
unfolding own normal
own-normal (str s) = refl
own-normal (obj fs) = refl
own-normal (arr vs) = refl

find_key_field :
    (fs : Fields) (key : Bytes) (v : Value)
    → field_of key fs ≡ some v
    → find_key (obj fs) key ≡ own v
unfolding find_key own_or
find_key_field fs key v h = rw (h, find_key)

-- Of the printed text of an object, a key that it has gives the string of the last value that it has
-- there, with fuel of the text's length; whatever follows the text.
pub json_get_str-print :
    (fs : Fields) (key rest : Bytes) (v : Value) (fuel : ℕ)
    → last_field key fs ≡ some v
    → length (print (obj fs) rest) ≤ fuel
    → json_get_str fuel (print (obj fs) rest) key ≡ some (own v)
unfolding json_get_str find_key normal own or_else field_of
json_get_str-print fs key rest v fuel h enough =
    let found : field_of key (put_all no_fields fs) ≡ some (normal v) =
      rw (field_of-put_all key no_fields fs, h) in
    rw (
      json_get_str,
      parse-print (obj fs) rest fuel enough,
      find_key_field (put_all no_fields fs) key (normal v) found,
      own-normal v,
    )
