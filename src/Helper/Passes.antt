-- ===== src/Helper/Passes.antt =====
-- What the chain of the kill switch (helper/src/main.rs, `killswitch_ruleset`) does with a packet, by the
-- first rule that fits, as nft documents it.
use varmlen_client_linux.Base.{
  ℕ, ◌+◌, ◌*◌, ◌/◌, ◌%◌, ◌^◌, Bool, true, false, ◌&&◌, ◌||◌, List, [], ◌∷◌, ◌++◌, Option, none,
  some, any, all, ◌==◌, if◌then◌else◌, ◌≡◌, ◌↔◌, ◌⊎◌, refl, arith, ap, ◌∙◌, unwrap_or, inl, inr,
}
use varmlen_client_linux.Base.Text.{Str, str, str_eq}
use varmlen_client_linux.Protocol.{IpAddr, v4, v6}
use varmlen_client_linux.Helper.Rules.{
  Rule, Transport, tcp, udp, other, accept_interface, accept_reply, accept_local, accept_mark,
  accept_ct_mark, accept_resolver, accept_server, drop_lan_dns4, drop_lan_dns6, accept_lan4,
  accept_lan6, log, drop, killswitch_rules, own_rules, servers_rules, dns_rules, lan_rules,
  tun_iface,
}

-- A packet that leaves the host.
pub record Packet : Type 0 where
  pub interface : Str
  pub is_reply : Bool  -- of a connection that was opened from outside
  pub to_local : Bool
  pub mark : ℕ
  pub ct_mark : ℕ
  pub daddr : IpAddr
  pub transport : Transport
  pub dport : ℕ

abbrev pub transport_eq : Transport → Transport → Bool
transport_eq tcp tcp = true
transport_eq udp udp = true
transport_eq other other = true
transport_eq _ _ = false

abbrev pub ip_eq : IpAddr → IpAddr → Bool
ip_eq (v4 a) (v4 b) = a == b
ip_eq (v6 a) (v6 b) = a == b
ip_eq _ _ = false

-- The number without its last 32 - n bits, of n bits of the network.
abbrev pub in_lan4 : IpAddr → Bool
in_lan4 (v4 a) =
    a / 16777216 == 10
    || a / 1048576 == 172 * 16 + 1
    || a / 65536 == 192 * 256 + 168
    || a / 65536 == 169 * 256 + 254
    || a / 4194304 == 100 * 4 + 1
in_lan4 (v6 a) = false

abbrev pub in_lan6 : IpAddr → Bool
in_lan6 (v4 a) = false
in_lan6 (v6 a) = a / 2 ^ 118 == 0xfe80 / 64 || a / 2 ^ 121 == 0xfc / 2

abbrev pub resolver : IpAddr
resolver = v4 0x01010101

unfoldable pub fits : Rule → Packet → Bool
fits (accept_interface name) p = str_eq p.interface name
fits accept_reply p = p.is_reply
fits accept_local p = p.to_local
fits (accept_mark m) p = p.mark % 65536 == m
fits (accept_ct_mark m) p = p.ct_mark % 65536 == m
fits (accept_resolver t port) p =
    ip_eq p.daddr resolver && transport_eq p.transport t && p.dport == port
fits (accept_server ip) p = ip_eq p.daddr ip
fits (drop_lan_dns4 t) p = transport_eq p.transport t && p.dport == 53 && in_lan4 p.daddr
fits (drop_lan_dns6 t) p = transport_eq p.transport t && p.dport == 53 && in_lan6 p.daddr
fits accept_lan4 p = in_lan4 p.daddr
fits accept_lan6 p = in_lan6 p.daddr
fits log p = false
fits drop p = true

abbrev pub accepts : Rule → Bool
accepts (drop_lan_dns4 t) = false
accepts (drop_lan_dns6 t) = false
accepts log = false
accepts drop = false
accepts _ = true

-- The verdict of the first rule that fits; the rule that logs gives none.
unfoldable pub verdict : List Rule → Packet → Option Bool
verdict [] p = none
verdict (rule ∷ rules) p =
    let rest = verdict rules p in if fits rule p then some (accepts rule) else rest

-- Past all rules the policy is to drop.
unfoldable pub passes : List Rule → Packet → Bool
passes rules p = unwrap_or (verdict rules p) false

abbrev or_else : Option Bool → Option Bool → Option Bool
or_else none o = o
or_else (some b) o = some b

verdict-append :
    (xs ys : List Rule) (p : Packet) → verdict (xs ++ ys) p ≡ or_else (verdict xs p) (verdict ys p)
unfolding verdict
verdict-append [] ys p = refl
verdict-append (x ∷ xs) ys p = ground (arith, verdict-append xs ys p)

verdict-servers :
    (ips : List IpAddr) (p : Packet)
    → verdict (servers_rules ips) p ≡ (if any (ip_eq p.daddr) ips then some true else none)
unfolding verdict fits
verdict-servers [] p = refl
verdict-servers (ip ∷ ips) p = ground (arith, verdict-servers ips p)

abbrev pub has_mark : ℕ → Bool
has_mark m = m % 65536 == 0x2023 || m % 65536 == 0x2024 || m % 65536 == 0x2025

-- DNS, or HTTPS, of the one resolver by which the tunnel is brought up.
abbrev pub asks_resolver : Packet → Bool
asks_resolver p =
    ip_eq p.daddr resolver
    && ((transport_eq p.transport udp && p.dport == 53)
        || (transport_eq p.transport tcp && (p.dport == 53 || p.dport == 443)))

abbrev pub is_dns : Packet → Bool
is_dns p = (transport_eq p.transport udp || transport_eq p.transport tcp) && p.dport == 53

abbrev pub to_lan : Packet → Bool
to_lan p = in_lan4 p.daddr || in_lan6 p.daddr

-- What belongs to the tunnel, to the host or to a connection from outside.
abbrev pub is_own : Packet → Bool
is_own p =
    (str_eq p.interface (str "lo") || str_eq p.interface tun_iface)
    || (p.is_reply || p.to_local)
    || (has_mark p.mark || has_mark p.ct_mark)

verdict-accepting :
    (rules : List Rule) (p : Packet)
    → all accepts rules ≡ true
    → verdict rules p ≡ (if any (λ rule. fits rule p) rules then some true else none)
unfolding verdict
verdict-accepting [] p h = refl
verdict-accepting (rule ∷ rules) p h = ground (arith, verdict-accepting rules p)

own_cases :
    (lo tun reply home m1 m2 m3 c1 c2 c3 d u t dns https : Bool)
    → (lo
        || (tun
            || (reply
                || (home
                    || (m1
                        || (m2
                            || (m3
                                || (c1
                                    || (c2
                                        || (c3
                                            || (d && u && dns
                                                || (d && t && dns
                                                    || (d && t && https || false)))))))))))))
      ≡ ((((lo || tun) || (reply || home)) || ((m1 || m2 || m3) || (c1 || c2 || c3)))
          || d && (u && dns || t && (dns || https)))
own_cases true tun reply home m1 m2 m3 c1 c2 c3 d u t dns https = refl
own_cases false true reply home m1 m2 m3 c1 c2 c3 d u t dns https = refl
own_cases false false true home m1 m2 m3 c1 c2 c3 d u t dns https = refl
own_cases false false false true m1 m2 m3 c1 c2 c3 d u t dns https = refl
own_cases false false false false true m2 m3 c1 c2 c3 d u t dns https = refl
own_cases false false false false false true m3 c1 c2 c3 d u t dns https = refl
own_cases false false false false false false true c1 c2 c3 d u t dns https = refl
own_cases false false false false false false false c1 c2 c3 d u t dns https = ground arith

verdict-own :
    (p : Packet) → verdict own_rules p ≡ (if is_own p || asks_resolver p then some true else none)
unfolding verdict fits
verdict-own p =
    verdict-accepting own_rules p refl
    ∙ ap (λ b. if b then some true else none)
        (own_cases (str_eq p.interface (str "lo")) (str_eq p.interface tun_iface) p.is_reply
          p.to_local (p.mark % 65536 == 0x2023) (p.mark % 65536 == 0x2024)
          (p.mark % 65536 == 0x2025) (p.ct_mark % 65536 == 0x2023) (p.ct_mark % 65536 == 0x2024)
          (p.ct_mark % 65536 == 0x2025) (ip_eq p.daddr resolver) (transport_eq p.transport udp)
          (transport_eq p.transport tcp) (p.dport == 53) (p.dport == 443))

dns_cases :
    (u t dns four six : Bool)
    → (if u && dns && four
        then some false
        else if t && dns && four
        then some false
        else if u && dns && six
        then some false
        else if t && dns && six
        then some false
        else none)
      ≡ (if ((u || t) && dns) && (four || six) then some false else none)
dns_cases u t dns four six = ground arith

verdict-dns :
    (p : Packet) → verdict dns_rules p ≡ (if is_dns p && to_lan p then some false else none)
unfolding verdict fits
verdict-dns p =
    dns_cases (transport_eq p.transport udp) (transport_eq p.transport tcp) (p.dport == 53)
      (in_lan4 p.daddr) (in_lan6 p.daddr)

lan_cases :
    (four six : Bool)
    → (if four then some true else if six then some true else some false) ≡ some (four || six)
lan_cases four six = ground arith

verdict-lan :
    (allow_lan : Bool) (p : Packet)
    → verdict (lan_rules allow_lan ++ log ∷ drop ∷ []) p ≡ some (allow_lan && to_lan p)
unfolding verdict fits
verdict-lan true p = lan_cases (in_lan4 p.daddr) (in_lan6 p.daddr)
verdict-lan false p = refl

verdict-killswitch :
    (server_ips : List IpAddr) (allow_lan : Bool) (p : Packet)
    → verdict (killswitch_rules server_ips allow_lan) p
      ≡ or_else (if is_own p || asks_resolver p then some true else none) (
          or_else (if any (ip_eq p.daddr) server_ips then some true else none) (
            or_else
              (if is_dns p && to_lan p then some false else none)
              (some (allow_lan && to_lan p))))
unfolding killswitch_rules
verdict-killswitch server_ips allow_lan p =
    let last = lan_rules allow_lan ++ log ∷ drop ∷ [] in
    verdict-append own_rules (servers_rules server_ips ++ (dns_rules ++ last)) p
    ∙ ap (or_else (verdict own_rules p)) (
        verdict-append (servers_rules server_ips) (dns_rules ++ last) p
        ∙ ap (or_else (verdict (servers_rules server_ips) p)) (verdict-append dns_rules last p))
    ∙ regroup (verdict-own p) (verdict-servers server_ips p) (verdict-dns p)
        (verdict-lan allow_lan p)
  where
    regroup :
        {a b c d a' b' c' d' : Option Bool}
        → a ≡ a'
        → b ≡ b'
        → c ≡ c'
        → d ≡ d'
        → or_else a (or_else b (or_else c d)) ≡ or_else a' (or_else b' (or_else c' d'))
    regroup e f g h = rw (e, f, g, h)

passes_cases :
    (own ask serv dns lan allow : Bool)
    → (unwrap_or
          (or_else (if own || ask then some true else none) (
            or_else
              (if serv then some true else none)
              (or_else (if dns && lan then some false else none) (some (allow && lan)))))
          false
        ≡ true)
      ↔ ((own ≡ true)
          ⊎ (ask ≡ true)
          ⊎ (serv ≡ true)
          ⊎ ((allow ≡ true) × (lan ≡ true) × (dns ≡ false)))
passes_cases true ask serv dns lan allow = (λ _. inl refl, λ _. refl)
passes_cases false true serv dns lan allow = (λ _. inr (inl refl), λ _. refl)
passes_cases false false true dns lan allow = (λ _. inr (inr (inl refl)), λ _. refl)
passes_cases false false false dns lan allow = ground arith

-- Of the packets that leave the host, the kill switch lets through exactly these: to the loopback or
-- the tunnel, replies to connections from outside, to the host itself, with one of Varmlen's three
-- marks on the packet or its connection, to the servers, DNS and HTTPS of the one resolver, and, if
-- that is allowed, to the local network except for DNS.
pub passes_iff :
    (server_ips : List IpAddr) (allow_lan : Bool) (p : Packet)
    → (passes (killswitch_rules server_ips allow_lan) p ≡ true) ↔ (
        (is_own p ≡ true)
        ⊎ (asks_resolver p ≡ true)
        ⊎ (any (ip_eq p.daddr) server_ips ≡ true)
        ⊎ ((allow_lan ≡ true) × (to_lan p ≡ true) × (is_dns p ≡ false)))
unfolding passes
passes_iff server_ips allow_lan p = rw (verdict-killswitch server_ips allow_lan p) (
    passes_cases (is_own p) (asks_resolver p) (any (ip_eq p.daddr) server_ips) (is_dns p) (to_lan p)
      allow_lan)
