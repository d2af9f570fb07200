-- ===== src/Http/Response.antt =====
-- The reply of the HTTP client as a whole: the status line, the blank line and the chunks.
use bye_bye_vpn.Common.{
  find_byte-here, lacks, drop-past, ℕ, ◌+◌, ◌*◌, true, List, [], ◌∷◌, ◌++◌, some, ◌≡◌, refl, arith,
  suc, length, drop, All, Bytes, text, find, take-append, ◌<◌,
}
use bye_bye_vpn.Text.{contains, tolower_s}
use bye_bye_vpn.Http.Reply.{status_of, parse_response, three_digits}
use bye_bye_vpn.Http.Sizes.{IsSize}
use bye_bye_vpn.Http.Chunks.{Chunk, Sized, frame, contents, dechunk-frame}

drop-blank : (s rest : Bytes) → drop (length s + 4) (s ++ (text "\r\n\r\n" ++ rest)) ≡ rest
unfolding text
drop-blank [] rest = refl
drop-blank (d ∷ s) rest =
    let same : length (d ∷ s) + 4 ≡ suc (length s + 4) = omega arith in rw (same, drop-blank s rest)

three_digits-lacks :
    (code : Bytes) {n : ℕ} → three_digits code ≡ some n → (lacks b' ' code ≡ true) × (n < 1000)
unfolding three_digits
three_digits-lacks (a ∷ b ∷ c ∷ []) h = ground (arith, h)
three_digits-lacks _ h = absurd (ground (arith, h))

-- The status is the number between the first two spaces.
status_of-line :
    (version code more : Bytes) {n : ℕ}
    → lacks b' ' version ≡ true
    → three_digits code ≡ some n
    → status_of (version ++ b' ' ∷ (code ++ b' ' ∷ more)) ≡ n
unfolding status_of
status_of-line version code more h digits =
    let after = code ++ b' ' ∷ more in
    let (plain, _) = three_digits-lacks code digits in
    rw (
      status_of,
      find_byte-here b' ' version after h,
      drop-past version b' ' after,
      find_byte-here b' ' code more plain,
      drop-past version b' ' after,
      take-append code (b' ' ∷ more),
      digits,
    )

three_digits-decimal :
    (a b c : ℕ)
    → (a < 10) × (b < 10) × (c < 10)
    → three_digits ((b'0' + a) ∷ (b'0' + b) ∷ (b'0' + c) ∷ []) ≡ some (100 * a + 10 * b + c)
unfolding three_digits
three_digits-decimal a b c h = ground arith

-- A reply with a status line and headers that announce chunks, when the first blank line is the one behind
-- the headers and each chunk follows its length in hexadecimal digits, with or without an extension: the
-- result has the three digits of the line as its status, no error, and the chunks' bytes as its body.
pub parse_response-frame :
    (version more last : Bytes) (chunks : List Chunk) (a b c ms : ℕ)
    → let code = (b'0' + a) ∷ (b'0' + b) ∷ (b'0' + c) ∷ [] in
      let headers = version ++ b' ' ∷ (code ++ b' ' ∷ more) in
      let reply = headers ++ (text "\r\n\r\n" ++ frame chunks last) in
      lacks b' ' version ≡ true
      → (a < 10) × (b < 10) × (c < 10)
      → find (text "\r\n\r\n") reply ≡ some (length headers)
      → contains (tolower_s headers) (text "transfer-encoding: chunked") ≡ true
      → All Sized chunks
      → IsSize last 0
      → parse_response reply ms
        ≡ record { status = 100 * a + 10 * b + c; body = contents chunks; err = []; ms = ms }
unfolding parse_response
parse_response-frame version more last chunks a b c ms plain digits found chunked h end =
    let code = (b'0' + a) ∷ (b'0' + b) ∷ (b'0' + c) ∷ [] in
    let read = three_digits-decimal a b c digits in
    let headers = version ++ b' ' ∷ (code ++ b' ' ∷ more) in
    let body = frame chunks last in
    rw (
      parse_response,
      found,
      take-append headers (text "\r\n\r\n" ++ body),
      drop-blank headers body,
      chunked,
      status_of-line version code more {n = 100 * a + 10 * b + c} plain read,
      dechunk-frame chunks last h end,
    )
