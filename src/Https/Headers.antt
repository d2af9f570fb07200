-- ===== src/Https/Headers.antt =====
-- How the HTTPS probe finds a header.
use bye_bye_vpn.Common.{
  drop_more, suc, ◌+◌, true, false, ◌∷◌, ◌++◌, some, ◌≡◌, arith, length, drop, Bytes, text,
  starts_with, find, find_byte, lacks, find_byte-here, drop-past, take-append, drop-append,
}
use bye_bye_vpn.Text.{trim, tolower_s}
use bye_bye_vpn.Https.{up_to, header_pos, get_header}

up_to-line :
    (value rest : Bytes) → lacks b'\n' value ≡ true → up_to b'\n' (value ++ b'\n' ∷ rest) ≡ value
unfolding up_to
up_to-line value rest h =
    rw (up_to, find_byte-here b'\n' value rest h, take-append value (b'\n' ∷ rest))

-- A line with the header's name, in any case, gives the header's value, when it is the first such line of
-- all that was received; whether it stands in front of the blank line or behind it makes no difference.
pub get_header-line :
    (front name value rest key : Bytes)
    → let body = front ++ b'\n' ∷ (name ++ b':' ∷ (value ++ b'\n' ∷ rest)) in
      lacks b':' name ≡ true
      → lacks b'\n' value ≡ true
      → starts_with (tolower_s body) (tolower_s key ++ text ":") ≡ false
      → find (text "\n" ++ (tolower_s key ++ text ":")) (tolower_s body) ≡ some (length front)
      → get_header body (tolower_s body) key ≡ trim value
unfolding get_header header_pos
get_header-line front name value rest key plain line not_first found =
    let after = value ++ b'\n' ∷ rest in
    let tail = name ++ b':' ∷ after in
    let body = front ++ b'\n' ∷ tail in
    let here : header_pos (tolower_s body) (tolower_s key) ≡ some (length front) =
      rw (header_pos, not_first, found) in
    let colon : find_byte b':' (b'\n' ∷ tail) ≡ some (suc (length name)) =
      unfold find_byte in rw (find_byte-here b':' name after plain) in
    let past : drop (length front + suc (length name) + 1) body ≡ after =
      let sum : length front + suc (length name) + 1 ≡ length front + suc (length name + 1) =
        omega arith in
      rw (sum, drop_more front (b'\n' ∷ tail) (suc (length name + 1)))
        (drop-past name b':' after) in
    rw (get_header, here, drop-append front (b'\n' ∷ tail), colon, past, up_to-line value rest line)
