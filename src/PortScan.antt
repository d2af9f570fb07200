-- ===== src/PortScan.antt =====
-- src/network/port_scan.cpp: which ports a scan asks for, and what a port is known for.
pub mod Asked
use bye_bye_vpn.Common.{
  ℕ, zero, suc, ◌+◌, ◌-◌, min, max, Bool, true, false, ◌&&◌, ◌||◌, List, [], ◌∷◌, Option, none,
  some, ◌==◌, ltb, leb, within, if◌then◌else◌, find_if, Bytes, text,
}

pub data PortMode : Type 0 where
  full fast range list : PortMode

-- kMinPortNumber and kMaxPortNumber of src/core/utils.h
abbrev pub min_port : ℕ
min_port = 1

abbrev pub max_port : ℕ
max_port = 65535

unfoldable pub tcp_fast_ports : List ℕ
tcp_fast_ports =
    22 ∷ 80 ∷ 81 ∷ 443 ∷ 1080 ∷ 1081 ∷ 3128 ∷ 4433 ∷ 4443 ∷ 6443 ∷ 7443 ∷ 8000 ∷ 8080 ∷ 8081 ∷ 8088
    ∷ 8443 ∷ 8843 ∷ 8888 ∷ 9000 ∷ 9001 ∷ 9050 ∷ 9051 ∷ 9443 ∷ 10000 ∷ 10443 ∷ 10808 ∷ 10809 ∷ 10810
    ∷ 11443 ∷ 14443 ∷ 20443 ∷ 21443 ∷ 22443 ∷ 41641 ∷ 44443 ∷ 46443 ∷ 50443 ∷ 51443 ∷ 51820 ∷ 55443
    ∷ 62078 ∷ []

-- g_port_mode, g_range_lo, g_range_hi and g_port_list.
pub record PortChoice : Type 0 where
  pub mode : PortMode
  pub range_lo : ℕ
  pub range_hi : ℕ
  pub port_list : List ℕ

-- `for (int i{lo}; i <= hi; ++i)`, on fuel.
unfoldable pub ports_from : ℕ → ℕ → ℕ → List ℕ
ports_from zero i hi = []
ports_from (suc fuel) i hi =
    let rest = ports_from fuel (i + 1) hi in if leb i hi then i ∷ rest else []

unfoldable pub range_ports : ℕ → ℕ → List ℕ
unfolding ports_from
range_ports lo hi = if ltb hi lo then [] else ports_from (hi + 1 - lo) lo hi

unfoldable pub build_tcp_ports : PortChoice → List ℕ
unfolding range_ports
build_tcp_ports c = elim c.mode [
  | fast ↦ tcp_fast_ports
  | range ↦ range_ports (max min_port c.range_lo) (min max_port c.range_hi)
  | list ↦ c.port_list
  | full ↦ range_ports min_port max_port
]

unfoldable pub port_hints : List (ℕ × Bytes)
port_hints =
    (22, text "SSH")
    ∷ (80, text "HTTP")
    ∷ (443, text "HTTPS / VLESS / Reality")
    ∷ (1080, text "SOCKS5")
    ∷ (3128, text "HTTP proxy")
    ∷ (4433, text "XTLS / Reality")
    ∷ (4443, text "XTLS / Reality")
    ∷ (8080, text "HTTP proxy")
    ∷ (8443, text "HTTPS alt / Reality")
    ∷ (8888, text "HTTP alt")
    ∷ (9050, text "Tor SOCKS")
    ∷ (9051, text "Tor control")
    ∷ (10808, text "v2ray/xray SOCKS")
    ∷ (10809, text "v2ray/xray HTTP")
    ∷ (10810, text "v2ray/xray alt")
    ∷ (41641, text "WireGuard alt")
    ∷ (51820, text "WireGuard")
    ∷ (55555, text "AmneziaWG")
    ∷ []

unfoldable pub port_hint : ℕ → Bytes
unfolding port_hints
port_hint p = elim (find_if (λ (h : ℕ × Bytes). h.0 == p) port_hints) [
  | some h ↦ h.1
  | none ↦
      if p == 6443 || p == 8443 || p == 4443
      then text "HTTPS alt / possible VPN over TLS"
      else if leb 10800 p && leb p 10820
      then text "v2ray/xray local-like range"
      else []
]
