-- ===== src/Helper/Up.antt =====
-- helper/src/main.rs, `route_up` and the steps that it takes.
use varmlen_client_linux.Base.{
  ℕ, Bool, true, false, List, [], ◌∷◌, ◌++◌, Option, none, some, Result, ok, err, Done, Eff, pure,
  modify, lift_result, ok_or, ◌>>=◌, ◌>>◌, if◌then◌else◌, unwrap_or, to_option, ◌==◌,
}
use varmlen_client_linux.Base.Text.{Str, str, trim, lines}
use varmlen_client_linux.Protocol.{IpAddr, v4, v6}
use varmlen_client_linux.System.Host.{Output}
use varmlen_client_linux.Helper.Machine.{
  Machine, described, ip_req, ip_quiet, write_file, write_state,
}
use varmlen_client_linux.Helper.Killswitch.{bypass_mark, bypass_up}
use varmlen_client_linux.Helper.Pids.{bypass_sweep}
use varmlen_client_linux.Helper.Pins.{pin_existing_excluded_flows}
use varmlen_client_linux.Helper.Routes.{
  state_file, rp_all, default_route, default_route6, show_routes, add_tun, address_tun, raise_tun,
  dns_route, dns_rule, phys_default, phys_default6, throw_route, mark_rule, server_route,
  server_route6, into_tun, blackhole, local_nets, local_nets6, xray_dial_mark,
}

abbrev pub trim_slashes : Str → Str
trim_slashes [] = []
trim_slashes (c ∷ s) = elim (c == b'/') [ true ↦ trim_slashes s | false ↦ c ∷ s ]

module _ {W : Type 0} (machine : Machine W) where
  unfoldable pub detect_default_route : Eff W Str (Option Str × Str)
  detect_default_route = do
    output ← described machine (str "ip route: ") (machine.ip (show_routes false))
    lift_result
        (ok_or (default_route (lines output.stdout)) (str "no physical default route found"))

  found6 : Result Str Output → Option (Str × Str)
  found6 (err e) = none
  found6 (ok output) = default_route6 (lines output.stdout)

  unfoldable pub detect_default_route6 : Eff W Str (Option (Str × Str))
  unfolding found6
  detect_default_route6 w =
      let (result, w') = machine.ip (show_routes true) w in (ok (found6 result), w')

  unfoldable pub create_tun : W → W
  create_tun w =
      if machine.exists (str "/sys/class/net/varmlen0") w then w else ip_quiet machine add_tun w

  unfoldable pub ensure_tun : Eff W Str Done
  ensure_tun = do modify create_tun; modify (ip_quiet machine address_tun); ip_req machine raise_tun

  unfoldable pub install_dns_policy_route : Eff W Str Done
  install_dns_policy_route = do
    ip_req machine dns_route
    modify (ip_quiet machine (dns_rule "del"))
    ip_req machine (dns_rule "add")

  unfoldable pub set_rp_filter_loose : Eff W Str Done
  set_rp_filter_loose = do
    λ w.
        write_state machine (state_file "rp_filter_all.orig")
          (trim (unwrap_or (to_option (machine.read_to_string rp_all w)) [])) w
    write_file machine rp_all (str "2")

  unfoldable pub throw_all : Bool → List Str → Eff W Str Done
  throw_all is6 [] = pure tt
  throw_all is6 (net ∷ nets) = do ip_req machine (throw_route is6 net); throw_all is6 nets

  unfoldable pub add_rule_fwmark : Bool → ℕ → Eff W Str Done
  add_rule_fwmark is6 mark = do
    modify (ip_quiet machine (mark_rule is6 "del" mark))
    ip_req machine (mark_rule is6 "add" mark)

  unfoldable pub lay_physical : Option Str → Str → Eff W Str Done
  unfolding throw_all add_rule_fwmark
  lay_physical gateway iface = do
    ip_req machine (phys_default gateway iface)
    throw_all false local_nets
    add_rule_fwmark false xray_dial_mark
    add_rule_fwmark false bypass_mark

  unfoldable pub lay_physical6 : Option (Str × Str) → Eff W Str Done
  unfolding throw_all add_rule_fwmark
  lay_physical6 none = pure tt
  lay_physical6 (some (gateway, iface)) = do
    ip_req machine (phys_default6 gateway iface)
    throw_all true local_nets6
    add_rule_fwmark true xray_dial_mark
    add_rule_fwmark true bypass_mark

  -- The servers of version 4, and the lines of those for the file.
  unfoldable pub pin_servers : Option Str → Str → List IpAddr → Eff W Str Str
  pin_servers gateway iface [] = pure []
  pin_servers gateway iface (v6 a ∷ servers) = pin_servers gateway iface servers
  pin_servers gateway iface (v4 a ∷ servers) = do
    ip_req machine (server_route gateway iface (machine.show_ip (v4 a)))
    rest ← pin_servers gateway iface servers
    pure (machine.show_ip (v4 a) ++ 0xa ∷ rest)

  -- Those of version 6, if the host has a way for them.
  unfoldable pub pin_servers6 : Option (Str × Str) → List IpAddr → Eff W Str Str
  pin_servers6 route [] = pure []
  pin_servers6 route (v4 a ∷ servers) = pin_servers6 route servers
  pin_servers6 none (v6 a ∷ servers) = pin_servers6 none servers
  pin_servers6 (some (gateway, iface)) (v6 a ∷ servers) = do
    ip_req machine (server_route6 gateway iface (machine.show_ip (v6 a)))
    rest ← pin_servers6 (some (gateway, iface)) servers
    pure (machine.show_ip (v6 a) ++ 0xa ∷ rest)

  unfoldable pub explained : Eff W Str Done → Eff W Str Done
  explained op w = again (op w)
    where
      again : Result Str Done × W → Result Str Done × W
      again (ok d, w') = (ok d, w')
      again (err e, w') = (
        err (
            str "per-app bypass setup failed ("
            ++ (e ++ str "); turn off app exclusions to connect without it")),
        w',
      )

  unfoldable pub arm_bypass : Option Str → Str → List Str → Eff W Str Done
  unfolding explained
  arm_bypass none iface apps = pure tt
  arm_bypass (some cgroup) iface apps = do
    explained (bypass_up machine cgroup (some iface))
    modify (
        bypass_sweep machine (str "/sys/fs/cgroup/" ++ (trim_slashes cgroup ++ str "/cgroup.procs"))
          apps)
    modify (pin_existing_excluded_flows machine apps)

  -- From the servers of version 6 on.
  unfoldable pub lay_blackholes : Option (Str × Str) → List IpAddr → Eff W Str Done
  unfolding pin_servers6
  lay_blackholes route6 servers = do
    server_lines ← pin_servers6 route6 servers
    write_state machine (state_file "servers6") server_lines
    ip_req machine (blackhole "::/1")
    ip_req machine (blackhole "8000::/1")

  -- From the servers of version 4 on: they are pinned before the routes into the tunnel are there.
  unfoldable pub lay_tunnel :
      Option Str → Str → Option (Str × Str) → List IpAddr → Option Str → List Str → Eff W Str Done
  unfolding pin_servers arm_bypass lay_blackholes
  lay_tunnel gateway iface route6 servers cgroup apps = do
    server_lines ← pin_servers gateway iface servers
    write_state machine (state_file "servers") server_lines
    arm_bypass cgroup iface apps
    ip_req machine (into_tun "replace" "0.0.0.0/1")
    ip_req machine (into_tun "replace" "128.0.0.0/1")
    lay_blackholes route6 servers

  unfoldable pub lay_routes :
      Option Str → Str → List IpAddr → Option Str → List Str → Eff W Str Done
  unfolding ensure_tun install_dns_policy_route set_rp_filter_loose lay_physical
      detect_default_route6 lay_physical6 lay_tunnel
  lay_routes gateway iface servers cgroup apps = do
    ensure_tun
    install_dns_policy_route
    set_rp_filter_loose
    lay_physical gateway iface
    route6 ← detect_default_route6
    lay_physical6 route6
    lay_tunnel gateway iface route6 servers cgroup apps
