-- ===== src/Https.antt =====
-- src/network/https_probe.cpp: `https_probe`. OpenSSL, the socket and what the server sends are the World of
-- the HTTP client.
pub mod Headers
pub mod Lines
pub mod Leaks
use bye_bye_vpn.Common.{
  ℕ, zero, suc, ◌+◌, Bool, true, false, not, ◌&&◌, ◌||◌, List, [], ◌∷◌, ◌++◌, Option, none, some,
  ◌==◌, ltb, leb, ltb_ℤ, leb_ℤ, ℤ, pos, if◌then◌else◌, length, is_empty, take, drop, get_elem?,
  Bytes, text, starts_with, find, find_byte,
}
use bye_bye_vpn.Text.{trim, tolower_s, skip_space}
use bye_bye_vpn.Cli.{read_sign, read_digits, signed}
use bye_bye_vpn.Report.{HttpsProbe}
use bye_bye_vpn.Http.Client.{World, Read, got, again, closed, broken, ssl_error_message}

-- HttpsProbe r;
abbrev pub no_answer : HttpsProbe
no_answer = record {
  tls_ok = false;
  responded = false;
  bytes = 0;
  first_line = [];
  server_hdr = [];
  http_version = [];
  status_code = pos 0;
  version_anomaly = false;
  no_server_hdr = false;
  via_hdr = [];
  forwarded_hdr = [];
  xff_hdr = [];
  xreal_ip_hdr = [];
  x_forwarded_proto = [];
  x_forwarded_host = [];
  cf_ray_hdr = [];
  cf_cache_status = [];
  x_amz_cf_id = [];
  x_amz_cf_pop = [];
  x_azure_ref = [];
  x_azure_clientip = [];
  x_cache = [];
  x_served_by = [];
  alt_svc = [];
  has_proxy_leak = false;
  has_cdn_hdr = false;
  err = [];
}

-- substr(0, find(c)), or all of it.
unfoldable pub up_to : ℕ → Bytes → Bytes
up_to c s = elim (find_byte c s) [ none ↦ s | some n ↦ take n s ]

-- Where the header's line begins in the lower case: at the front, or at a line feed.
unfoldable pub header_pos : Bytes → Bytes → Option ℕ
header_pos lower_body lkey =
    if starts_with lower_body (lkey ++ text ":")
    then some 0
    else find (text "\n" ++ (lkey ++ text ":")) lower_body

unfoldable pub get_header : Bytes → Bytes → Bytes → Bytes
unfolding header_pos up_to
get_header body lower_body key = elim (header_pos lower_body (tolower_s key)) [
  | none ↦ []
  | some p ↦ elim (find_byte b':' (drop p body)) [
    | none ↦ []
    | some n ↦ trim (up_to b'\n' (drop (p + n + 1) body))
  ]
]

-- std::atoi, for a number that is an int.
unfoldable pub atoi : Bytes → ℤ
atoi s =
    let (negative, digits) = read_sign (skip_space s) in
    let (n, rest) = read_digits 0 digits in signed negative n

abbrev has_char : Bytes → ℕ → ℕ → ℕ → Bool
has_char s i a b = elim (get_elem? s i) [ none ↦ false | some c ↦ c == a || c == b ]

-- The two characters of the version that are looked at, and its length.
unfoldable pub is_odd_version : Bytes → Bool
is_odd_version version =
    if leb 8 (length version)
    then not (has_char version 5 b'1' b'2')
      || not (has_char version 7 b'0' b'1')
      || has_char version 5 b'0' b'0'
    else true

-- What the first line says: the version, the status and whether the version is odd.
pub record Status : Type 0 where
  pub http_version : Bytes
  pub status_code : ℤ
  pub version_anomaly : Bool

unfoldable pub read_status : Bytes → Status
unfolding up_to atoi is_odd_version
read_status first_line =
    let version = up_to b' ' first_line in
    let code : ℤ = elim (find_byte b' ' first_line) [
      | none ↦ pos 0
      | some sp ↦
          let after = drop (sp + 1) first_line in
          elim (find_byte b' ' after) [ none ↦ pos 0 | some n ↦ atoi (take n after) ]
    ] in
    if starts_with first_line (text "HTTP/")
    then record {
      http_version = version;
      status_code = code;
      version_anomaly = is_odd_version version;
    }
    else record { http_version = []; status_code = pos 0; version_anomaly = true }

-- `sh`: the first line that begins with Server:, or else with server:.
unfoldable pub server_pos : Bytes → Option ℕ
server_pos body = elim (find (text "\nServer:") body) [
  | some sh ↦ some sh
  | none ↦ find (text "\nserver:") body
]

unfoldable pub server_of : Bytes → Bytes
unfolding server_pos up_to
server_of body = elim (server_pos body) [
  | none ↦ []
  | some sh ↦ trim (up_to b'\n' (drop (sh + 8) body))
]

abbrev is_some {ℓ} : {A : Type ℓ} → Option A → Bool
is_some none = false
is_some (some a) = true

-- Everything after the reads, for a body that is not empty.
unfoldable pub analyse : Bytes → Bytes → HttpsProbe
unfolding get_header up_to read_status server_pos server_of
analyse body err =
    let first_line = trim (up_to b'\n' body) in
    let status = read_status first_line in
    let header : Bytes → Bytes = get_header body (tolower_s body) in
    record {
      tls_ok = true;
      responded = true;
      bytes = length body;
      first_line = first_line;
      server_hdr = server_of body;
      http_version = status.http_version;
      status_code = status.status_code;
      version_anomaly = status.version_anomaly;
      no_server_hdr = not (is_some (server_pos body)) && ltb_ℤ (pos 0) status.status_code;
      via_hdr = header (text "Via");
      forwarded_hdr = header (text "Forwarded");
      xff_hdr = header (text "X-Forwarded-For");
      xreal_ip_hdr = header (text "X-Real-IP");
      x_forwarded_proto = header (text "X-Forwarded-Proto");
      x_forwarded_host = header (text "X-Forwarded-Host");
      cf_ray_hdr = header (text "CF-Ray");
      cf_cache_status = header (text "CF-Cache-Status");
      x_amz_cf_id = header (text "X-Amz-Cf-Id");
      x_amz_cf_pop = header (text "X-Amz-Cf-Pop");
      x_azure_ref = header (text "X-Azure-Ref");
      x_azure_clientip = header (text "X-Azure-ClientIP");
      x_cache = header (text "X-Cache");
      x_served_by = header (text "X-Served-By");
      alt_svc = header (text "Alt-Svc");
      has_proxy_leak =
          not (is_empty (header (text "Via")))
          || not (is_empty (header (text "Forwarded")))
          || not (is_empty (header (text "X-Forwarded-For")))
          || not (is_empty (header (text "X-Real-IP")));
      has_cdn_hdr =
          not (is_empty (header (text "CF-Ray")))
          || not (is_empty (header (text "X-Amz-Cf-Id")))
          || not (is_empty (header (text "X-Azure-Ref")))
          || not (is_empty (header (text "X-Served-By")));
      err = err;
    }

-- The loop of at most `tries` reads: the body, and the error of a read that failed.
unfoldable pub read_body : ℕ → Bytes → List Read → Bytes × Bytes
read_body zero body reads = (body, [])
read_body (suc tries) body [] = (body, [])
read_body (suc tries) body (closed ∷ reads) = (body, [])
read_body (suc tries) body (again ∷ reads) = read_body tries body reads
read_body (suc tries) body (broken detail ∷ reads) =
    (body, ssl_error_message (text "ssl_read") detail)
read_body (suc tries) body (got bytes ∷ reads) = elim (leb 4096 (length (body ++ bytes))) [
  | true ↦ (body ++ bytes, [])
  | false ↦ read_body tries (body ++ bytes) reads
]

abbrev failed : Bytes → HttpsProbe
failed err = record no_answer { err = err }

-- The request of the probe.
unfoldable pub probe_request : Bytes → Bytes
probe_request host =
    text "GET / HTTP/1.1\r\nHost: " ++ (host ++ text "\r\nAccept: */*\r\nConnection: close\r\n\r\n")

-- From the handshake on.
unfoldable pub talk : World → Bytes → HttpsProbe
unfolding probe_request read_body analyse
talk w host =
    let req = probe_request host in
    if leb_ℤ (w.ssl_write req) (pos 0)
    then record no_answer {
      tls_ok = true;
      err = ssl_error_message (text "ssl_write") w.ssl_write_error;
    }
    else if not
        (leb_ℤ (pos (length req)) (w.ssl_write req) && leb_ℤ (w.ssl_write req) (pos (length req)))
    then record no_answer { tls_ok = true; err = text "ssl_write partial" }
    else let (body, err) = read_body 6 [] w.reads in
      if is_empty body then record no_answer { tls_ok = true; err = err } else analyse body err

unfoldable pub https_probe : World → Bytes → ℕ → Bytes → HttpsProbe
unfolding talk
https_probe w ip port host_hdr = elim w.init_error [
  | some err ↦ failed (text "openssl_init " ++ err)
  | none ↦ elim (w.connect_error ip port) [
    | some err ↦ failed err
    | none ↦
        if not w.ssl_ctx_new
        then failed (text "ssl_ctx_new")
        else if not w.ssl_new
        then failed (text "ssl_new")
        else elim w.attach_error [
          | some err ↦ failed (text "ssl_set_fd " ++ err)
          | none ↦
              if not (is_empty host_hdr) && not (w.set_sni host_hdr)
              then failed (text "ssl_set_sni")
              else elim w.ssl_connect_error [
                | some detail ↦ failed (ssl_error_message (text "ssl_connect") detail)
                | none ↦ talk w (if is_empty host_hdr then ip else host_hdr)
              ]
        ]
  ]
]
