-- ===== src/Json/ReadBack.antt =====
-- The JSON reader against the printer: what was printed is read back.
use bye_bye_vpn.Common.{
  ℕ, zero, suc, ◌+◌, ◌≤◌, ◌<◌, Bool, true, false, ◌∷◌, ◌++◌, some, ◌≡◌, refl, arith, length, max,
  Bytes, length-append,
}
use bye_bye_vpn.Text.{skip_space}
use bye_bye_vpn.Json.{
  Value, Fields, Items, str, obj, arr, no_fields, field, no_items, item, skip_sep, put, push, own,
  parse, members, items,
}
use bye_bye_vpn.Json.Strings.{escape, quoted-escape, unescape-escape}
use bye_bye_vpn.Json.Print.{
  print_str, sep, print, print_fields, print_items, normal, put_all, push_all,
}

-- How deep the calls of the reader go.
mutual
  size : Value → ℕ
  size (str s) = 1
  size (obj fs) = suc (size_fields fs)
  size (arr vs) = suc (size_items vs)

  size_fields : Fields → ℕ
  size_fields no_fields = 1
  size_fields (field k v fs) = suc (max (size v) (size_fields fs))

  size_items : Items → ℕ
  size_items no_items = 1
  size_items (item v vs) = suc (max (size v) (size_items vs))

-- Above a bound that is positive, a unit of the fuel can be taken.
burn {ℓ} :
    {bound : ℕ} (Goal : ℕ → Type ℓ)
    → ((left : ℕ) → bound ≤ left → Goal (suc left))
    → (fuel : ℕ) → suc bound ≤ fuel
    → Goal fuel
burn Goal run zero enough = absurd (omega (arith, enough))
burn Goal run (suc left) enough = run left (omega (arith, enough))

parse-print_str :
    (fuel : ℕ) (s rest : Bytes) → 0 < fuel → parse fuel (print_str s rest) ≡ some (str s, rest)
unfolding parse print_str skip_space
parse-print_str zero s rest h = absurd (omega arith)
parse-print_str (suc fuel) s rest h = rw (quoted-escape s rest, unescape-escape s)

abbrev ReadsValue : Value → Type 0
ReadsValue v = (rest : Bytes) (f : ℕ) → size v ≤ f → parse f (print v rest) ≡ some (normal v, rest)

abbrev ReadsFields : Fields → Type 0
ReadsFields fs =
    (first : Bool) (acc : Fields) (rest : Bytes) (f : ℕ)
    → size_fields fs ≤ f
    → members f acc (skip_sep b',' (print_fields first fs (b'}' ∷ rest)))
      ≡ some (obj (put_all acc fs), rest)

abbrev ReadsItems : Items → Type 0
ReadsItems vs =
    (first : Bool) (acc : Items) (rest : Bytes) (f : ℕ)
    → size_items vs ≤ f
    → items f acc (skip_sep b',' (print_items first vs (b']' ∷ rest)))
      ≡ some (arr (push_all acc vs), rest)

skip_sep-print_str :
    (first : Bool) (s rest : Bytes)
    → skip_sep b',' (sep first (print_str s rest)) ≡ print_str s rest
unfolding skip_sep print_str
skip_sep-print_str true s rest = refl
skip_sep-print_str false s rest = refl

skip_sep-print :
    (first : Bool) (v : Value) (rest : Bytes)
    → skip_sep b',' (sep first (print v rest)) ≡ print v rest
unfolding skip_sep print
skip_sep-print true (str s) rest = refl
skip_sep-print true (obj fs) rest = refl
skip_sep-print true (arr vs) rest = refl
skip_sep-print false (str s) rest = refl
skip_sep-print false (obj fs) rest = refl
skip_sep-print false (arr vs) rest = refl

skip_colon-print : (v : Value) (rest : Bytes) → skip_sep b':' (b':' ∷ print v rest) ≡ print v rest
unfolding skip_sep print
skip_colon-print (str s) rest = refl
skip_colon-print (obj fs) rest = refl
skip_colon-print (arr vs) rest = refl

items_step :
    (f : ℕ) (acc : Items) (v w : Value) (rest r : Bytes)
    → parse f (print v rest) ≡ some (w, r)
    → items (suc f) acc (print v rest) ≡ items f (push w acc) (skip_sep b',' r)
unfolding items print
items_step f acc (str s) w rest r h = rw h
items_step f acc (obj fs) w rest r h = rw h
items_step f acc (arr vs) w rest r h = rw h

members_step :
    (f : ℕ) (acc : Fields) (k : Bytes) (v w : Value) (rest r : Bytes)
    → 0 < f
    → parse f (print v rest) ≡ some (w, r)
    → members (suc f) acc (print_str k (b':' ∷ print v rest))
      ≡ members f (put k w acc) (skip_sep b',' r)
unfolding members own print_str
members_step f acc k v w rest r pos h =
    let key : parse f (b'"' ∷ (escape k ++ b'"' ∷ b':' ∷ print v rest))
        ≡ some (str k, b':' ∷ print v rest) =
      unfold print_str in parse-print_str f k (b':' ∷ print v rest) pos in
    rw (key, skip_colon-print v rest, h)

size_pos : (v : Value) → 0 < size v
unfolding size
size_pos (str s) = omega arith
size_pos (obj fs) = omega arith
size_pos (arr vs) = omega arith

size_items_pos : (vs : Items) → 0 < size_items vs
unfolding size
size_items_pos no_items = omega arith
size_items_pos (item v vs) = omega arith

skip_sep-print_fields :
    (fs : Fields) (rest : Bytes)
    → skip_sep b',' (print_fields true fs (b'}' ∷ rest)) ≡ print_fields true fs (b'}' ∷ rest)
unfolding skip_sep print
skip_sep-print_fields no_fields rest = refl
skip_sep-print_fields (field k v fs) rest = skip_sep-print_str true k _

skip_sep-print_items :
    (vs : Items) (rest : Bytes)
    → skip_sep b',' (print_items true vs (b']' ∷ rest)) ≡ print_items true vs (b']' ∷ rest)
unfolding skip_sep print
skip_sep-print_items no_items rest = refl
skip_sep-print_items (item v vs) rest = skip_sep-print true v _

parse-ReadsValue : (v : Value) → ReadsValue v
unfolding parse members items print normal put_all push_all size skip_sep skip_space
parse-ReadsValue v = elim v as ReadsValue ReadsFields ReadsItems [
  | str s ↦ λ rest f h. parse-print_str f s rest h
  | obj (fs → ih) ↦ λ rest. burn _ λ left enough.
      let g = ih true no_fields rest left (omega arith) in rw (skip_sep-print_fields fs rest) at g
  | arr (vs → ih) ↦ λ rest. burn _ λ left enough.
      let g = ih true no_items rest left (omega arith) in rw (skip_sep-print_items vs rest) at g
  | no_fields ↦ λ first acc rest. burn _ λ left enough. refl
  | field k (v → ih) (fs → ihs) ↦ λ first acc rest. burn _ λ left enough.
      let pos : 0 < left = omega (arith, size_pos v) in
      let after = print_fields false fs (b'}' ∷ rest) in
      rw (
        skip_sep-print_str first k,
        members_step left acc k v (normal v) after after pos (ih after left (omega arith)),
        ihs false (put k (normal v) acc) rest left (omega (arith, size_pos v)),
      )
  | no_items ↦ λ first acc rest. burn _ λ left enough. refl
  | item (v → ih) (vs → ihs) ↦ λ first acc rest. burn _ λ left enough.
      let after = print_items false vs (b']' ∷ rest) in
      rw (
        skip_sep-print first v,
        items_step left acc v (normal v) after after (ih after left (omega arith)),
        ihs false (push (normal v) acc) rest left (omega (arith, size_pos v)),
      )
]

-- What the reader needs is at most the length of the text.
abbrev Fits : Value → Type 0
Fits v = (rest : Bytes) → size v + length rest ≤ length (print v rest)

abbrev FitsFields : Fields → Type 0
FitsFields fs =
    (first : Bool) (rest : Bytes)
    → size_fields fs + length rest ≤ length (print_fields first fs rest) + 1

abbrev FitsItems : Items → Type 0
FitsItems vs =
    (first : Bool) (rest : Bytes)
    → size_items vs + length rest ≤ length (print_items first vs rest) + 1

length-print_str : (s rest : Bytes) → length rest + 2 ≤ length (print_str s rest)
unfolding print_str
length-print_str s rest = omega (arith, length-append (escape s) (b'"' ∷ rest))

length-sep : (first : Bool) (s : Bytes) → length s ≤ length (sep first s)
length-sep true s = omega arith
length-sep false s = omega arith

-- `value`, `after` and `shown` are the lengths of the texts from an item, from behind it and from before it.
item_fits :
    {of_item of_rest value shown : ℕ} (after rest : ℕ)
    → of_item + after ≤ value
    → value ≤ shown
    → of_rest + rest ≤ after + 1
    → 0 < of_item
    → 0 < of_rest
    → suc (max of_item of_rest) + rest ≤ shown + 1
item_fits after rest a b c d e = omega arith

length-print : (v : Value) → Fits v
unfolding print size
length-print v = elim v as Fits FitsFields FitsItems [
  | str s ↦ λ rest. omega (arith, length-print_str s rest)
  | obj (fs → ih) ↦ λ rest. omega (arith, ih true (b'}' ∷ rest))
  | arr (vs → ih) ↦ λ rest. omega (arith, ih true (b']' ∷ rest))
  | no_fields ↦ λ first rest. omega arith
  | field k (v → ih) (fs → ihs) ↦ λ first rest.
      let after = print_fields false fs rest in
      let value = print v after in
      omega (
        arith,
        length-sep first (print_str k (b':' ∷ value)),
        length-print_str k (b':' ∷ value),
        ih after,
        ihs false rest,
        size_pos v,
      )
  | no_items ↦ λ first rest. omega arith
  | item (v → ih) (vs → ihs) ↦ λ first rest.
      let after = print_items false vs rest in
      item_fits (length after) (length rest) (ih after) (length-sep first (print v after))
        (ihs false rest) (size_pos v) (size_items_pos vs)
]

pub parse-print :
    (v : Value) (rest : Bytes) (fuel : ℕ)
    → length (print v rest) ≤ fuel
    → parse fuel (print v rest) ≡ some (normal v, rest)
parse-print v rest fuel h = parse-ReadsValue v rest fuel (omega (arith, length-print v rest))
