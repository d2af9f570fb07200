-- ===== src/Https/Leaks.antt =====
-- What the flags of the HTTPS probe say of the reply that came in.
use bye_bye_vpn.Common.{
  ℕ, zero, suc, ◌≤◌, ◌<◌, Bool, true, false, not, ◌||◌, List, [], ◌∷◌, ◌++◌, map, none, ◌≡◌, ◌∙◌,
  refl, arith, any, is_empty, length, leb, leb_ℤ, pos, text, ◌&&◌, Bytes, if◌then◌else◌,
  append_assoc, append-nil, length-append, to_lower,
}
use bye_bye_vpn.Text.{tolower_s}
use bye_bye_vpn.Http.Client.{World, Read, got, closed}
use bye_bye_vpn.Https.{no_answer, analyse, read_body, probe_request, talk, https_probe}
use bye_bye_vpn.Https.Lines.{header_of, get_header-header_of}

-- OpenSSL, the socket and the handshake work, and every request is written whole.
pub record IsUp (w : World) (ip : Bytes) (port : ℕ) (host_hdr : Bytes) : Type 0 where
  pub initialised : w.init_error ≡ none
  pub reached : w.connect_error ip port ≡ none
  pub has_context : w.ssl_ctx_new ≡ true
  pub has_ssl : w.ssl_new ≡ true
  pub attached : w.attach_error ≡ none
  pub named : (is_empty host_hdr || w.set_sni host_hdr) ≡ true
  pub shaken : w.ssl_connect_error ≡ none
  pub written : (request : Bytes) → w.ssl_write request ≡ pos (length request)

unfoldable pub joined : List Bytes → Bytes
joined [] = []
joined (piece ∷ pieces) = piece ++ joined pieces

abbrev pub proxy_headers : List Bytes
proxy_headers = text "Via" ∷ text "Forwarded" ∷ text "X-Forwarded-For" ∷ text "X-Real-IP" ∷ []

abbrev pub cdn_headers : List Bytes
cdn_headers = text "CF-Ray" ∷ text "X-Amz-Cf-Id" ∷ text "X-Azure-Ref" ∷ text "X-Served-By" ∷ []

-- Is one of these fields in the reply, with a value?
abbrev pub has_header : Bytes → List Bytes → Bool
has_header reply keys = any (λ key. not (is_empty (header_of key reply))) keys

read_body-pieces :
    (tries : ℕ) (body : Bytes) (pieces : List Bytes) (rest : List Read)
    → length pieces ≤ tries
    → length (body ++ joined pieces) < 4096
    → read_body tries body (map got pieces ++ closed ∷ rest) ≡ (body ++ joined pieces, [])
unfolding read_body joined
read_body-pieces zero body [] rest h small = rw (append-nil body) refl
read_body-pieces (suc tries) body [] rest h small = rw (append-nil body) refl
read_body-pieces zero body (piece ∷ pieces) rest h small = absurd (omega arith)
read_body-pieces (suc tries) body (piece ∷ pieces) rest h small =
    let whole = append_assoc body piece (joined pieces) in
    let fits : length ((body ++ piece) ++ joined pieces) < 4096 = rw whole small in
    let ih = read_body-pieces tries (body ++ piece) pieces rest (omega arith) fits in
    let more : leb 4096 (length (body ++ piece)) ≡ false =
      ground (arith, fits, length-append (body ++ piece) (joined pieces)) in
    rw (read_body, more, ih, whole) refl

-- The flags of an answer, by the lines of the reply.
module _ (reply err : Bytes) where
  analyse-proxy : (analyse reply err).has_proxy_leak ≡ has_header reply proxy_headers
  unfolding analyse text tolower_s to_lower
  analyse-proxy =
      rw
        (
          get_header-header_of reply (text "Via") refl refl,
          get_header-header_of reply (text "Forwarded") refl refl,
          get_header-header_of reply (text "X-Forwarded-For") refl refl,
          get_header-header_of reply (text "X-Real-IP") refl refl,
        )
        (ground arith)

  analyse-cdn : (analyse reply err).has_cdn_hdr ≡ has_header reply cdn_headers
  unfolding analyse text tolower_s to_lower
  analyse-cdn =
      rw
        (
          get_header-header_of reply (text "CF-Ray") refl refl,
          get_header-header_of reply (text "X-Amz-Cf-Id") refl refl,
          get_header-header_of reply (text "X-Azure-Ref") refl refl,
          get_header-header_of reply (text "X-Served-By") refl refl,
        )
        (ground arith)

analyse-flags :
    (reply err : Bytes)
    → let r = analyse reply err in
      (r.tls_ok ≡ true)
      × (r.responded ≡ true)
      × (r.bytes ≡ length reply)
      × (r.has_proxy_leak ≡ has_header reply proxy_headers)
      × (r.has_cdn_hdr ≡ has_header reply cdn_headers)
unfolding analyse
analyse-flags reply err = (refl, refl, refl, analyse-proxy reply err, analyse-cdn reply err)

if_false {ℓ} :
    {A : Type ℓ} (test : Bool) (yes_result no_result : A)
    → test ≡ false
    → (if test then yes_result else no_result) ≡ no_result
if_false test yes_result no_result h = rw h refl

said-analyse :
    (answer : Bytes × Bytes) (reply : Bytes)
    → answer ≡ (reply, [])
    → is_empty reply ≡ false
    → (if is_empty (answer.0)
        then record no_answer { tls_ok = true; err = answer.1 }
        else analyse (answer.0) (answer.1))
      ≡ analyse reply []
said-analyse answer reply h filled = rw h (if_false _ _ _ filled)

talk-analyse :
    (w : World) (host : Bytes) (pieces : List Bytes) (rest : List Read)
    → ((request : Bytes) → w.ssl_write request ≡ pos (length request))
    → w.reads ≡ map got pieces ++ closed ∷ rest
    → length pieces ≤ 6
    → length (joined pieces) < 4096
    → is_empty (joined pieces) ≡ false
    → talk w host ≡ analyse (joined pieces) []
unfolding talk
talk-analyse w host pieces rest written sent few small filled =
    let req = probe_request host in
    let some_bytes : leb_ℤ (w.ssl_write req) (pos 0) ≡ false =
      rw (written req) (unfold probe_request text in ground arith) in
    let all_of_it : not
          (leb_ℤ (pos (length req)) (w.ssl_write req) && leb_ℤ (w.ssl_write req) (pos (length req)))
        ≡ false =
      rw (written req) (ground arith) in
    let read : read_body 6 [] w.reads ≡ (joined pieces, []) =
      rw sent (read_body-pieces 6 [] pieces rest few small) in
    if_false _ _ _ some_bytes
    ∙ (if_false _ _ _ all_of_it ∙ said-analyse (read_body 6 [] w.reads) (joined pieces) read filled)

probe-analyse :
    (w : World) (ip : Bytes) (port : ℕ) (host_hdr : Bytes)
    → IsUp w ip port host_hdr
    → https_probe w ip port host_hdr ≡ talk w (if is_empty host_hdr then ip else host_hdr)
unfolding https_probe
probe-analyse w ip port host_hdr up =
    let named : (not (is_empty host_hdr) && not (w.set_sni host_hdr)) ≡ false =
      ground (arith, up.named) in
    rw
      (
        https_probe, up.initialised, up.reached, up.has_context, up.has_ssl, up.attached, named,
        up.shaken,
      )
      refl

-- When the connection is up and the server sends a reply of less than 4096 bytes, not empty, in at most six
-- pieces, and closes: the probe has answered with as many bytes as the reply has, and the proxy flag is set
-- exactly when, for one of the names Via, Forwarded, X-Forwarded-For and X-Real-IP, the first line of the reply
-- that begins with that name, in any case of the letters, and a colon has a value; the CDN flag likewise for
-- CF-Ray, X-Amz-Cf-Id, X-Azure-Ref and X-Served-By.
pub https_probe-leaks :
    (w : World) (ip : Bytes) (port : ℕ) (host_hdr : Bytes) (pieces : List Bytes) (rest : List Read)
    → IsUp w ip port host_hdr
    → w.reads ≡ map got pieces ++ closed ∷ rest
    → length pieces ≤ 6
    → length (joined pieces) < 4096
    → is_empty (joined pieces) ≡ false
    → let r = https_probe w ip port host_hdr in
      let reply = joined pieces in
      (r.tls_ok ≡ true)
      × (r.responded ≡ true)
      × (r.bytes ≡ length reply)
      × (r.has_proxy_leak ≡ has_header reply proxy_headers)
      × (r.has_cdn_hdr ≡ has_header reply cdn_headers)
https_probe-leaks w ip port host_hdr pieces rest up sent few small filled =
    let host = if is_empty host_hdr then ip else host_hdr in
    let answer = talk-analyse w host pieces rest up.written sent few small filled in
    rw (probe-analyse w ip port host_hdr up, answer) (analyse-flags (joined pieces) [])
