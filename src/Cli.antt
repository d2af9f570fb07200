-- ===== src/Cli.antt =====
-- src/main.cpp: the command line. An argument holds no zero byte, and `std::exit(1)` and an early
-- `return` of `main_impl` are values.
pub mod Numbers
pub mod Limits
pub mod SavePath
use bye_bye_vpn.Common.{
  ℕ, zero, suc, ◌+◌, ◌-◌, ◌*◌, ◌/◌, ◌%◌, ◌^◌, min, Bool, true, false, not, ◌&&◌, ◌||◌, List, [],
  ◌∷◌, ◌++◌, map, Option, none, some, ◌==◌, ltb, leb, if◌then◌else◌, length, is_empty, take, drop,
  any, ℤ, pos, negsuc, ◌-ℤ◌, leb_ℤ, ltb_ℤ, Bytes, text, bytes_eq, starts_with, find_byte, is_digit,
}
use bye_bye_vpn.Text.{skip_space}
use bye_bye_vpn.PortScan.{PortMode, full, fast, range, list, PortChoice, min_port, max_port}

-- The digits at the front, their value and what follows.
unfoldable pub read_digits : ℕ → Bytes → ℕ × Bytes
read_digits value [] = (value, [])
read_digits value (c ∷ s) =
    let rest = read_digits (value * 10 + (c - b'0')) s in
    if is_digit c then rest else (value, c ∷ s)

-- A sign, which `strtol` reads after the white space.
unfoldable pub read_sign : Bytes → Bool × Bytes
read_sign [] = (false, [])
read_sign (c ∷ s) =
    if c == b'-' then (true, s) else if c == b'+' then (false, s) else (false, c ∷ s)

abbrev pub signed : Bool → ℕ → ℤ
signed negative n = if negative then pos 0 -ℤ pos n else pos n

-- `strtol(s, &endptr, 10)` for a 64-bit `long`: the value, or `none` where the code rejects by `errno`
-- or `endptr`: no digits, something after them, or a value that is no `long`.
unfoldable pub strtol : Bytes → Option ℤ
unfolding read_digits read_sign
strtol s =
    let (negative, digits) = read_sign (skip_space s) in
    let (n, rest) = read_digits 0 digits in
    if length rest == length digits || not (is_empty rest)
    then none
    else if ltb (if negative then 2 ^ 63 else 2 ^ 63 - 1) n
    then none
    else some (signed negative n)

unfoldable pub try_parse_int : Bytes → ℤ → ℤ → Option ℤ
try_parse_int s min_v max_v = if is_empty s then none else elim (strtol s) [
  | none ↦ none
  | some res ↦ if ltb_ℤ res min_v || ltb_ℤ max_v res then none else some res
]

-- `none` is std::exit(1). Every caller asks for a number from 1 on.
unfoldable pub parse_int_fatal : Bytes → ℕ → ℕ → Option ℕ
parse_int_fatal s min_v max_v = elim (try_parse_int s (pos min_v) (pos max_v)) [
  | none ↦ none
  | some res ↦ elim res [ pos n ↦ some n | negsuc n ↦ none ]
]

-- kMaxThreadCount and kMaxTimeoutMs of src/core/utils.h; the least values are 1.
abbrev pub max_thread_count : ℕ
max_thread_count = 10000

abbrev pub max_timeout_ms : ℕ
max_timeout_ms = 60000

-- The globals that the loop sets, and `pos`.
pub record Options : Type 0 where
  pub no_color : Bool
  pub verbose : Bool
  pub threads : ℕ
  pub tcp_to : ℕ
  pub udp_to : ℕ
  pub tcp_syn_scan : Bool
  pub stealth : Bool
  pub no_geoip : Bool
  pub no_ct : Bool
  pub udp_jitter : Bool
  pub save_requested : Bool
  pub save_path : Bytes
  pub ports : PortChoice
  pub positional : List Bytes

-- Their initial values, of src/core/utils.h.
abbrev pub default_options : Options
default_options = record {
  no_color = false;
  verbose = false;
  threads = 1200;
  tcp_to = 1000;
  udp_to = 900;
  tcp_syn_scan = false;
  stealth = false;
  no_geoip = false;
  no_ct = false;
  udp_jitter = false;
  save_requested = false;
  save_path = [];
  ports = record { mode = full; range_lo = 1; range_hi = 65535; port_list = [] };
  positional = [];
}

-- What the loop does next: go on with the next argument, skip one, or return a code.
pub data Step : Type 0 where
  next skip : Options → Step
  quit : ℕ → Step

-- A value that was needed and read, or `std::exit(1)`.
abbrev stored : Option Options → Step
stored none = quit 1
stored (some o) = skip o

unfoldable pub number_option : (ℕ → Options) → ℕ → Bytes → Option Options
number_option set max_v v = elim (parse_int_fatal v 1 max_v) [ none ↦ none | some n ↦ some (set n) ]

-- `--range`
unfoldable pub range_option : Bytes → Options → Option Options
range_option v o = elim (find_byte b'-' v) [
  | none ↦ none
  | some dash ↦
      if dash == 0 || dash == length v - 1
      then none
      else elim (parse_int_fatal (take dash v) min_port max_port) [
        | none ↦ none
        | some lo ↦ elim (parse_int_fatal (drop (dash + 1) v) min_port max_port) [
          | none ↦ none
          | some hi ↦
              if ltb hi lo
              then none
              else some (record o {
                ports = record (o.ports) { mode = range; range_lo = lo; range_hi = hi };
              })
        ]
      ]
]

-- An entry of `--ports`; `none` is std::exit(1).
unfoldable pub read_port : Bytes → List ℕ → Option (List ℕ)
read_port tok ports =
    if is_empty tok then some ports else elim (parse_int_fatal tok min_port max_port) [
      | none ↦ none
      | some n ↦ some (ports ++ n ∷ [])
    ]

-- The loop over the entries, with the one that is read.
unfoldable pub read_ports : Bytes → List ℕ → Bytes → Option (List ℕ)
unfolding read_port
read_ports tok ports [] = read_port tok ports
read_ports tok ports (c ∷ s) =
    if c == b','
    then elim (read_port tok ports) [ none ↦ none | some read ↦ read_ports [] read s ]
    else read_ports (tok ++ c ∷ []) ports s

unfoldable pub ports_option : Bytes → Options → Option Options
ports_option v o = elim (read_ports [] [] v) [
  | none ↦ none
  | some ports ↦ some (record o {
    ports = record (o.ports) {
      port_list = ports;
      mode = if is_empty ports then o.ports.mode else list;
    };
  })
]

-- The arguments that stand alone.
unfoldable pub plain_option : Bytes → Options → Option Options
plain_option a o =
    if bytes_eq a (text "--no-color")
    then some (record o { no_color = true })
    else if bytes_eq a (text "--verbose") || bytes_eq a (text "-v")
    then some (record o { verbose = true })
    else if bytes_eq a (text "--syn")
    then some (record o { tcp_syn_scan = true })
    else if bytes_eq a (text "--stealth")
    then some (record o { stealth = true; no_geoip = true; no_ct = true; udp_jitter = true })
    else if bytes_eq a (text "--no-geoip")
    then some (record o { no_geoip = true })
    else if bytes_eq a (text "--no-ct")
    then some (record o { no_ct = true })
    else if bytes_eq a (text "--use-ip-api")
    then some o
    else if bytes_eq a (text "--udp-jitter")
    then some (record o { udp_jitter = true })
    else if bytes_eq a (text "--full")
    then some (record o { ports = record (o.ports) { mode = full } })
    else if bytes_eq a (text "--fast")
    then some (record o { ports = record (o.ports) { mode = fast } })
    else none

-- `argv[++i]`, if there is one; without it the code returns 1.
unfoldable pub with_value : Option Bytes → (Bytes → Option Options) → Step
with_value none f = quit 1
with_value (some v) f = stored (f v)

-- `--save` takes the next argument if that is no option.
unfoldable pub save_option : Option Bytes → Options → Step
save_option none o = next (record o { save_requested = true })
save_option (some nxt) o =
    if not (is_empty nxt) && not (starts_with nxt (text "-"))
    then skip (record o { save_requested = true; save_path = nxt })
    else next (record o { save_requested = true })

-- The arguments with a value, `--help` and all others.
unfoldable pub other_option : Bytes → Option Bytes → Options → Step
other_option a nxt o =
    if bytes_eq a (text "--threads")
    then with_value nxt (number_option (λ n. record o { threads = n }) max_thread_count)
    else if bytes_eq a (text "--tcp-to")
    then with_value nxt (number_option (λ n. record o { tcp_to = n }) max_timeout_ms)
    else if bytes_eq a (text "--udp-to")
    then with_value nxt (number_option (λ n. record o { udp_to = n }) max_timeout_ms)
    else if bytes_eq a (text "--save")
    then save_option nxt o
    else if bytes_eq a (text "--range")
    then with_value nxt (λ v. range_option v o)
    else if bytes_eq a (text "--ports")
    then with_value nxt (λ v. ports_option v o)
    else if bytes_eq a (text "--help") || bytes_eq a (text "-h") || bytes_eq a (text "/?")
    then quit 0
    else next (record o { positional = o.positional ++ a ∷ [] })

-- The body of the loop, for an argument and the one after it.
unfoldable pub argument : Bytes → Option Bytes → Options → Step
argument a nxt o = elim (plain_option a o) [ some p ↦ next p | none ↦ other_option a nxt o ]

-- The options, or the code that `main_impl` returns.
pub data Parsed : Type 0 where
  options : Options → Parsed
  exit_code : ℕ → Parsed

unfoldable pub parse_args : List Bytes → Options → Parsed
parse_args [] o = options o
parse_args (a ∷ []) o = elim (argument a none o) [
  | next p ↦ options p
  | skip p ↦ options p
  | quit code ↦ exit_code code
]
parse_args (a ∷ v ∷ rest) o = elim (argument a (some v) o) [
  | next p ↦ parse_args (v ∷ rest) p
  | skip p ↦ parse_args rest p
  | quit code ↦ exit_code code
]

-- clamp_threads_to_nofile_limit; `none` is no limit, or one that cannot be read.
unfoldable pub clamp_threads : Option ℕ → ℕ → ℕ
clamp_threads none threads = threads
clamp_threads (some lim) threads =
    if leb lim 128
    then 1
    else if ltb (min (lim - 128) (2 ^ 31 - 1)) threads
    then min (lim - 128) (2 ^ 31 - 1)
    else threads

unfoldable pub is_command : Bytes → Bool
is_command a = any (bytes_eq a) (
    text "scan"
    ∷ text "full"
    ∷ text "ports"
    ∷ text "udp"
    ∷ text "tls"
    ∷ text "j3"
    ∷ text "geoip"
    ∷ text "help"
    ∷ [])

unfoldable pub extract_target_arg : List Bytes → Bytes
extract_target_arg [] = []
extract_target_arg (a ∷ []) = if bytes_eq a (text "help") then [] else a
extract_target_arg (a ∷ b ∷ rest) =
    if is_command a
    then (if bytes_eq a (text "help") then [] else b)
    else if bytes_eq a (text "help")
    then []
    else a

-- The bytes that no file name of the default may hold.
unfoldable pub is_unsafe : ℕ → Bool
is_unsafe c =
    c == b':'
    || c == b'/'
    || c == b'\\'
    || c == b'*'
    || c == b'?'
    || c == b'"'
    || c == b'<'
    || c == b'>'
    || c == b'|'

unfoldable pub default_save_path_for_target : Bytes → Bytes
default_save_path_for_target target =
    if is_empty target
    then text "byebyevpn-scan.md"
    else text "byebyevpn-" ++ map (λ c. if is_unsafe c then b'_' else c) target ++ text ".md"
