-- ===== src/Http/Client.antt =====
-- src/network/http_client.cpp: `http_get` and what it calls to set up TLS. OpenSSL, the sockets and the
-- clock are given: `World` holds what their calls return.
use bye_bye_vpn.Common.{
  ℕ, Bool, not, ◌&&◌, ◌||◌, List, [], ◌∷◌, ◌++◌, Option, none, some, ◌⊎◌, inl, inr, ◌==◌, ltb,
  if◌then◌else◌, length, any, ℤ, pos, leb_ℤ, Bytes, text, to_string,
}
use bye_bye_vpn.Http.Url.{Target, parse_url, request, is_ip_literal}
use bye_bye_vpn.Http.Reply.{HttpResp, parse_response}

-- One call of SSL_read or of tcp_recv_to; `closed` is the end of the stream, and for a plain socket any
-- other end of the reads; `again` is SSL_ERROR_WANT_READ or SSL_ERROR_WANT_WRITE.
pub data Read : Type 0 where
  got : Bytes → Read
  again : Read
  closed : Read
  broken : Bytes → Read

-- What the calls return. An error is `some` text; `load` is fopen and SSL_CTX_load_verify_locations.
pub record World : Type 0 where
  pub init_error : Option Bytes
  pub connect_error : Bytes → ℕ → Option Bytes
  pub ssl_ctx_new : Bool
  pub load : Bytes → Bool
  pub default_paths : Bool
  pub ssl_new : Bool
  pub attach_error : Option Bytes
  pub set_sni : Bytes → Bool
  pub get_param : Bool
  pub set_ip : Bytes → Bool
  pub set_host : Bytes → Bool
  pub ssl_connect_error : Option Bytes
  pub verify_result : ℕ
  pub ssl_write : Bytes → ℤ
  pub ssl_write_error : Bytes
  pub tcp_send_all : Bytes → ℤ
  pub last_error : ℕ
  pub reads : List Read
  pub elapsed : ℕ

-- kMaxResponseSize
abbrev pub max_response_size : ℕ
max_response_size = 1048576

-- kCaBundleCandidates
abbrev pub ca_bundle_candidates : List Bytes
ca_bundle_candidates =
    text "/etc/pki/ca-trust/extracted/pem/tls-ca-bundle.pem"
    ∷ text "/etc/pki/tls/certs/ca-bundle.crt"
    ∷ text "/etc/ssl/certs/ca-certificates.crt"
    ∷ text "/etc/ssl/ca-bundle.pem"
    ∷ text "/etc/ssl/cert.pem"
    ∷ []

-- The result on POSIX systems.
unfoldable pub configure_tls_ctx : World → Bool
configure_tls_ctx w = any w.load ca_bundle_candidates || w.default_paths

-- ssl_error_message, of whose detail `World` holds the text.
unfoldable pub ssl_error_message : Bytes → Bytes → Bytes
ssl_error_message op detail = op ++ (text " err=" ++ detail)

-- The block of `is_https` that sets up the connection: its error, or `none`.
unfoldable pub tls_error : World → Bytes → Option Bytes
unfolding configure_tls_ctx
tls_error w host =
    let is_ip = is_ip_literal host in
    if not w.ssl_ctx_new
    then some (text "ssl_ctx_new")
    else if not (configure_tls_ctx w)
    then some (text "ssl_trust_store")
    else if not w.ssl_new
    then some (text "ssl_new")
    else elim w.attach_error [
      | some err ↦ some (text "ssl_set_fd " ++ err)
      | none ↦
          if not is_ip && not (w.set_sni host)
          then some (text "ssl_set_sni")
          else if not w.get_param
          then some (text "ssl_get_param")
          else if is_ip && not (w.set_ip host)
          then some (text "ssl_set_ip")
          else if not is_ip && not (w.set_host host)
          then some (text "ssl_set_host")
          else elim w.ssl_connect_error [
            | some detail ↦ some (ssl_error_message (text "ssl_connect") detail)
            | none ↦
                if not (w.verify_result == 0)
                then some (text "ssl_verify " ++ to_string w.verify_result)
                else none
          ]
    ]

-- The request is sent in one call.
unfoldable pub send_error : World → Bool → Bytes → Option Bytes
send_error w is_https req =
    let whole = λ (wrote : ℤ). leb_ℤ wrote (pos (length req)) && leb_ℤ (pos (length req)) wrote in
    if is_https
    then (if leb_ℤ (w.ssl_write req) (pos 0)
        then some (ssl_error_message (text "ssl_write") w.ssl_write_error)
        else if not (whole (w.ssl_write req))
        then some (text "ssl_write partial")
        else none)
    else if not (whole (w.tcp_send_all req))
    then some (text "send " ++ to_string w.last_error)
    else none

-- The loop of reads, with `resp_data`; past the limit it stops.
unfoldable pub read_response : Bytes → List Read → Bytes ⊎ Bytes
read_response resp_data [] = inr resp_data
read_response resp_data (closed ∷ reads) = inr resp_data
read_response resp_data (broken detail ∷ reads) = inl (ssl_error_message (text "ssl_read") detail)
read_response resp_data (again ∷ reads) = read_response resp_data reads
read_response resp_data (got bytes ∷ reads) =
    let received = resp_data ++ bytes in
    let more = read_response received reads in
    if ltb max_response_size (length received) then inr received else more

abbrev http_error : Bytes → HttpResp
http_error err = record { status = 0; body = []; err = err; ms = 0 }

-- From the connection on.
unfoldable pub exchange : World → Target → HttpResp
unfolding tls_error send_error read_response
exchange w t = elim (w.connect_error t.host t.port) [
  | some err ↦ http_error (text "connect " ++ err)
  | none ↦ elim (if t.is_https then tls_error w t.host else none) [
    | some err ↦ http_error err
    | none ↦ elim (send_error w t.is_https (request t)) [
      | some err ↦ http_error err
      | none ↦ elim (read_response [] w.reads) [
        | inl err ↦ http_error err
        | inr resp_data ↦ parse_response resp_data w.elapsed
      ]
    ]
  ]
]

unfoldable pub http_get : World → Bytes → HttpResp
unfolding exchange
http_get w url = elim w.init_error [
  | some err ↦ http_error (text "openssl_init " ++ err)
  | none ↦ elim (parse_url url) [ inl err ↦ http_error err | inr t ↦ exchange w t ]
]
