-- ===== src/Helper/Routes.antt =====
-- helper/src/main.rs: the routes into the tunnel and past it. A list of words is one call of `ip`.
use varmlen_client_linux.Base.{
  ℕ, Bool, List, [], ◌∷◌, ◌++◌, Option, none, some, String, if◌then◌else◌,
}
use varmlen_client_linux.Base.Text.{Str, str, str_eq, hex, split_whitespace, contains}
use varmlen_client_linux.Helper.Rules.{tun_iface}

abbrev pub words : List String → List Str
words [] = []
words (w ∷ ws) = str w ∷ words ws

abbrev pub phys_table : Str
phys_table = str "100"

abbrev pub xray_dial_mark : ℕ
xray_dial_mark = 0x2024

abbrev pub state_file : String → Str
state_file name = str "/run/varmlen/" ++ str name

abbrev pub rp_all : Str
rp_all = str "/proc/sys/net/ipv4/conf/all/rp_filter"

-- The word behind the first occurrence of a word.
unfoldable pub after : Str → List Str → Option Str
after word [] = none
after word (w ∷ []) = none
after word (w ∷ x ∷ ws) = if str_eq w word then some x else after word (x ∷ ws)

abbrev pub is_ours : Str → Bool
is_ours text = contains (str "dev " ++ tun_iface) text

-- The first line with a device that is not the tunnel, and its gateway, if it has one.
unfoldable pub default_route : List Str → Option (Option Str × Str)
default_route [] = none
default_route (text ∷ rest) =
    let found = default_route rest in
    let dev = after (str "dev") (split_whitespace text) in
    if is_ours text then found else elim dev [
      | none ↦ found
      | some iface ↦ some (after (str "via") (split_whitespace text), iface)
    ]

abbrev both : Option Str → Option Str → Option (Str × Str)
both none o = none
both (some a) none = none
both (some a) (some b) = some (a, b)

-- For version 6 there has to be a gateway too.
unfoldable pub default_route6 : List Str → Option (Str × Str)
default_route6 [] = none
default_route6 (text ∷ rest) =
    let found = default_route6 rest in
    let toks = split_whitespace text in
    if is_ours text then found else elim (both (after (str "via") toks) (after (str "dev") toks)) [
      | none ↦ found
      | some route ↦ some route
    ]

abbrev pub via : Option Str → List Str
via none = []
via (some gateway) = str "via" ∷ gateway ∷ []

abbrev pub family : Bool → Str
family is6 = if is6 then str "-6" else str "-4"

-- The calls, each by what it is for.
abbrev pub show_routes : Bool → List Str
show_routes is6 = family is6 ∷ words ("route" ∷ "show" ∷ "default" ∷ [])

abbrev pub add_tun : List Str
add_tun = words ("tuntap" ∷ "add" ∷ "dev" ∷ "varmlen0" ∷ "mode" ∷ "tun" ∷ [])

abbrev pub address_tun : List Str
address_tun = words ("addr" ∷ "replace" ∷ "172.19.0.1/30" ∷ "dev" ∷ "varmlen0" ∷ [])

abbrev pub raise_tun : List Str
raise_tun = words ("link" ∷ "set" ∷ "varmlen0" ∷ "up" ∷ [])

abbrev pub dns_route : List Str
dns_route = words ("route" ∷ "replace" ∷ "default" ∷ "dev" ∷ "varmlen0" ∷ "table" ∷ "101" ∷ [])

abbrev pub dns_rule : String → List Str
dns_rule verb =
    words ("rule" ∷ verb ∷ "priority" ∷ "90" ∷ "fwmark" ∷ "0x2023" ∷ "lookup" ∷ "101" ∷ [])

abbrev pub flush_dns : List Str
flush_dns = words ("route" ∷ "flush" ∷ "table" ∷ "101" ∷ [])

abbrev pub phys_default : Option Str → Str → List Str
phys_default gateway iface =
    words ("route" ∷ "replace" ∷ "default" ∷ [])
    ++ (via gateway ++ str "dev" ∷ iface ∷ str "table" ∷ phys_table ∷ [])

abbrev pub phys_default6 : Str → Str → List Str
phys_default6 gateway iface =
    words ("-6" ∷ "route" ∷ "replace" ∷ "default" ∷ "via" ∷ [])
    ++ gateway ∷ str "dev" ∷ iface ∷ str "table" ∷ phys_table ∷ []

abbrev pub throw_route : Bool → Str → List Str
throw_route is6 net =
    (if is6 then str "-6" ∷ [] else [])
    ++ (words ("route" ∷ "replace" ∷ "throw" ∷ []) ++ net ∷ str "table" ∷ phys_table ∷ [])

abbrev pub mark_rule : Bool → String → ℕ → List Str
mark_rule is6 verb mark =
    family is6 ∷ str "rule" ∷ str verb ∷ str "fwmark" ∷ hex mark ∷ str "lookup" ∷ phys_table ∷ []

abbrev pub server_route : Option Str → Str → Str → List Str
server_route gateway iface address =
    str "route" ∷ str "replace" ∷ (address ++ str "/32") ∷ (via gateway ++ str "dev" ∷ iface ∷ [])

abbrev pub server_route6 : Str → Str → Str → List Str
server_route6 gateway iface address =
    words ("-6" ∷ "route" ∷ "replace" ∷ [])
    ++ (address ++ str "/128") ∷ str "via" ∷ gateway ∷ str "dev" ∷ iface ∷ []

abbrev pub into_tun : String → String → List Str
into_tun verb net = words ("route" ∷ verb ∷ net ∷ "dev" ∷ "varmlen0" ∷ [])

abbrev pub blackhole : String → List Str
blackhole net = words ("-6" ∷ "route" ∷ "replace" ∷ "blackhole" ∷ net ∷ [])

abbrev pub local_nets : List Str
local_nets = words (
    "10.0.0.0/8" ∷ "172.16.0.0/12" ∷ "192.168.0.0/16" ∷ "169.254.0.0/16" ∷ "100.64.0.0/10"
    ∷ "224.0.0.0/4" ∷ "255.255.255.255/32" ∷ [])

abbrev pub local_nets6 : List Str
local_nets6 = words ("fe80::/10" ∷ "fc00::/7" ∷ "ff00::/8" ∷ [])
