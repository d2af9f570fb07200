-- ===== src/Json/Print.antt =====
-- A printer of JSON values, and what the reader makes of a value.
use bye_bye_vpn.Common.{Bool, true, false, ◌∷◌, ◌++◌, Bytes}
use bye_bye_vpn.Json.{
  Value, Fields, Items, str, obj, arr, no_fields, field, no_items, item, put, push,
}
use bye_bye_vpn.Json.Strings.{escape}

unfoldable pub print_str : Bytes → Bytes → Bytes
print_str s rest = b'"' ∷ (escape s ++ b'"' ∷ rest)

abbrev pub sep : Bool → Bytes → Bytes
sep true rest = rest
sep false rest = b',' ∷ rest

-- A value's text, with what follows it; `first` tells that nothing was printed inside the brackets yet.
unfoldable mutual
  unfolding print_str

  pub print : Value → Bytes → Bytes
  print (str s) rest = print_str s rest
  print (obj fs) rest = b'{' ∷ print_fields true fs (b'}' ∷ rest)
  print (arr vs) rest = b'[' ∷ print_items true vs (b']' ∷ rest)

  pub print_fields : Bool → Fields → Bytes → Bytes
  print_fields first no_fields rest = rest
  print_fields first (field k v fs) rest =
      sep first (print_str k (b':' ∷ print v (print_fields false fs rest)))

  pub print_items : Bool → Items → Bytes → Bytes
  print_items first no_items rest = rest
  print_items first (item v vs) rest = sep first (print v (print_items false vs rest))

-- The fields and the items in the order of the text: a repeated key keeps its first place and takes its
-- last value.
unfoldable mutual
  pub normal : Value → Value
  normal (str s) = str s
  normal (obj fs) = obj (put_all no_fields fs)
  normal (arr vs) = arr (push_all no_items vs)

  pub put_all : Fields → Fields → Fields
  put_all acc no_fields = acc
  put_all acc (field k v fs) = put_all (put k (normal v) acc) fs

  pub push_all : Items → Items → Items
  push_all acc no_items = acc
  push_all acc (item v vs) = push_all (push (normal v) acc) vs
