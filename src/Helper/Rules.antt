-- ===== src/Helper/Rules.antt =====
-- helper/src/main.rs, lines 385 to 436: the ruleset of the kill switch, as rules and as their text.
use varmlen_client_linux.Base.{ℕ, Bool, List, [], ◌∷◌, ◌++◌, map, if◌then◌else◌}
use varmlen_client_linux.Base.Text.{Str, str, decimal, hex}
use varmlen_client_linux.Protocol.{IpAddr, v4, v6}

pub data Transport : Type 0 where
  tcp udp other : Transport

-- The rules of the chain, each with the verdict that it gives.
pub data Rule : Type 0 where
  accept_interface : Str → Rule
  accept_reply accept_local : Rule
  accept_mark accept_ct_mark : ℕ → Rule
  accept_resolver : Transport → ℕ → Rule
  accept_server : IpAddr → Rule
  drop_lan_dns4 drop_lan_dns6 : Transport → Rule
  accept_lan4 accept_lan6 log drop : Rule

abbrev pub ks_table : Str
ks_table = str "varmlen_ks"

abbrev pub tun_iface : Str
tun_iface = str "varmlen0"

abbrev pub servers_rules : List IpAddr → List Rule
servers_rules ips = map accept_server ips

abbrev pub own_rules : List Rule
own_rules =
    accept_interface (str "lo")
    ∷ accept_interface tun_iface
    ∷ accept_reply
    ∷ accept_local
    ∷ accept_mark 0x2023
    ∷ accept_mark 0x2024
    ∷ accept_mark 0x2025
    ∷ accept_ct_mark 0x2023
    ∷ accept_ct_mark 0x2024
    ∷ accept_ct_mark 0x2025
    ∷ accept_resolver udp 53
    ∷ accept_resolver tcp 53
    ∷ accept_resolver tcp 443
    ∷ []

abbrev pub dns_rules : List Rule
dns_rules = drop_lan_dns4 udp ∷ drop_lan_dns4 tcp ∷ drop_lan_dns6 udp ∷ drop_lan_dns6 tcp ∷ []

abbrev pub lan_rules : Bool → List Rule
lan_rules allow_lan = if allow_lan then accept_lan4 ∷ accept_lan6 ∷ [] else []

-- The chain, in the order in which it is written.
unfoldable pub killswitch_rules : List IpAddr → Bool → List Rule
killswitch_rules server_ips allow_lan =
    own_rules
    ++ (servers_rules server_ips ++ (dns_rules ++ (lan_rules allow_lan ++ log ∷ drop ∷ [])))

abbrev pub quoted : Str → Str
quoted s = 0x22 ∷ s ++ 0x22 ∷ []

abbrev lan4 : Str
lan4 = str "ip daddr { 10.0.0.0/8, 172.16.0.0/12, 192.168.0.0/16, 169.254.0.0/16, 100.64.0.0/10 }"

abbrev lan6 : Str
lan6 = str "ip6 daddr { fe80::/10, fc00::/7 }"

abbrev transport_name : Transport → Str
transport_name tcp = str "tcp"
transport_name udp = str "udp"
transport_name other = str "meta l4proto"

abbrev accepted : Str
accepted = str " counter accept"

-- The text of a rule, without the indentation.
unfoldable pub rule_text : (IpAddr → Str) → Rule → Str
rule_text show (accept_interface name) = str "oifname " ++ quoted name ++ accepted
rule_text show accept_reply = str "ct state established,related ct direction reply" ++ accepted
rule_text show accept_local = str "fib daddr type local" ++ accepted
rule_text show (accept_mark m) = str "meta mark & 0x0000ffff == " ++ hex m ++ accepted
rule_text show (accept_ct_mark m) = str "ct mark & 0x0000ffff == " ++ hex m ++ accepted
rule_text show (accept_resolver t port) =
    str "ip daddr 1.1.1.1 " ++ transport_name t ++ str " dport " ++ decimal port ++ accepted
rule_text show (accept_server (v4 a)) = str "ip daddr " ++ show (v4 a) ++ accepted
rule_text show (accept_server (v6 a)) = str "ip6 daddr " ++ show (v6 a) ++ accepted
rule_text show (drop_lan_dns4 t) =
    transport_name t ++ str " dport 53 " ++ lan4 ++ str " counter drop"
rule_text show (drop_lan_dns6 t) =
    transport_name t ++ str " dport 53 " ++ lan6 ++ str " counter drop"
rule_text show accept_lan4 = lan4 ++ accepted
rule_text show accept_lan6 = lan6 ++ accepted
rule_text show log =
    str "limit rate 30/second log prefix " ++ quoted (str "varmlen_ks_drop ") ++ str " level info"
rule_text show drop = str "counter drop"

abbrev line : Str → Str → Str
line indent s = indent ++ s ++ 0xa ∷ []

rule_lines : (IpAddr → Str) → List Rule → Str
unfolding rule_text
rule_lines show [] = []
rule_lines show (rule ∷ rules) = line (str "    ") (rule_text show rule) ++ rule_lines show rules

-- `killswitch_ruleset`: the table is made anew, and its policy is to drop.
unfoldable pub killswitch_ruleset : (IpAddr → Str) → List IpAddr → Bool → Str
unfolding rule_lines killswitch_rules
killswitch_ruleset show server_ips allow_lan =
    line [] (str "add table inet " ++ ks_table)
    ++ line [] (str "delete table inet " ++ ks_table)
    ++ line [] (str "table inet " ++ ks_table ++ str " {")
    ++ line [] (str "  chain out {")
    ++ line [] (str "    type filter hook output priority 0; policy drop;")
    ++ rule_lines show (killswitch_rules server_ips allow_lan)
    ++ line [] (str "  }")
    ++ line [] (str "}")
