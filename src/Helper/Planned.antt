-- ===== src/Helper/Planned.antt =====
-- `route_up` of helper/src/main.rs follows its plan, and rolls back what it could not finish.
use varmlen_client_linux.Base.{
  Bool, true, List, [], ◌∷◌, ◌++◌, Option, none, some, Eff, pure, ◌>>=◌, ◌>>◌, if◌then◌else◌,
}
use mathlib.Core.List.{append-nil}
use varmlen_client_linux.Base.Text.{Str}
use varmlen_client_linux.Protocol.{IpAddr, v4, v6}
use varmlen_client_linux.Helper.Machine.{Machine, ip_req, write_state}
use varmlen_client_linux.Helper.Routes.{
  state_file, show_routes, add_tun, address_tun, raise_tun, dns_route, dns_rule, server_route,
  server_route6, into_tun, blackhole,
}
use varmlen_client_linux.Helper.Up.{
  pin_servers, pin_servers6, lay_blackholes, lay_tunnel, arm_bypass,
}
use varmlen_client_linux.Helper.Plan.{
  plan_physical, plan_physical6, plan_servers, plan_servers6, plan_flip, Adds-eq,
}
use varmlen_client_linux.Helper.Armed.{Adds-arm_bypass}
use varmlen_client_linux.Helper.Trace.{
  Recorded, recorded, Adds, Adds->>=, Adds-pure, Adds-ip_req, Adds-write_state,
}

-- All the calls before the servers of version 4.
abbrev pub plan_start : Bool → Option Str → Str → List (List Str)
plan_start made gateway iface =
    (if made then [] else add_tun ∷ [])
    ++ (address_tun
        ∷ raise_tun
        ∷ dns_route
        ∷ dns_rule "del"
        ∷ dns_rule "add"
        ∷ plan_physical gateway iface)

-- The whole of a `route_up`: `made` if the tunnel is there already, `route6` the way of version 6.
abbrev pub plan :
    (IpAddr → Str) → Bool → Option Str → Str → Option (Str × Str) → List IpAddr → List (List Str)
plan show made gateway iface route6 servers =
    plan_start made gateway iface
    ++ (show_routes true
        ∷ (plan_physical6 route6
            ++ (plan_servers show gateway iface servers ++ plan_flip show route6 servers)))

module _ {W : Type 0} (machine : Machine W) where
  -- A server, and the lines of those behind it.
  then_lines :
      (c : List (List Str)) (own : Str) (m : Eff (Recorded W) Str Str)
      → Adds c m
      → Adds c (do rest ← m; pure (own ++ 0xa ∷ rest))
  then_lines c own m h =
      Adds-eq _ (append-nil c)
        (Adds->>= c [] m _ h (λ rest. Adds-pure {A = Str} (own ++ 0xa ∷ rest)))

  Adds-pin_servers :
      (gateway : Option Str) (iface : Str) (servers : List IpAddr)
      → Adds
          (plan_servers machine.show_ip gateway iface servers)
          (pin_servers (recorded machine) gateway iface servers)
  unfolding pin_servers
  Adds-pin_servers gateway iface [] = Adds-pure {A = Str} []
  Adds-pin_servers gateway iface (v6 a ∷ servers) = Adds-pin_servers gateway iface servers
  Adds-pin_servers gateway iface (v4 a ∷ servers) =
      let args = server_route gateway iface (machine.show_ip (v4 a)) in
      let more = pin_servers (recorded machine) gateway iface servers in
      Adds->>= (args ∷ []) (plan_servers machine.show_ip gateway iface servers)
        (ip_req (recorded machine) args) _ (Adds-ip_req machine args)
        (λ _. then_lines _ (machine.show_ip (v4 a)) more (Adds-pin_servers gateway iface servers))

  Adds-pin_servers6 :
      (route : Option (Str × Str)) (servers : List IpAddr)
      → Adds
          (plan_servers6 machine.show_ip route servers)
          (pin_servers6 (recorded machine) route servers)
  unfolding pin_servers6
  Adds-pin_servers6 route [] = Adds-pure {A = Str} []
  Adds-pin_servers6 route (v4 a ∷ servers) = Adds-pin_servers6 route servers
  Adds-pin_servers6 none (v6 a ∷ servers) = Adds-pin_servers6 none servers
  Adds-pin_servers6 (some (gateway, iface)) (v6 a ∷ servers) =
      let args = server_route6 gateway iface (machine.show_ip (v6 a)) in
      let more = pin_servers6 (recorded machine) (some (gateway, iface)) servers in
      Adds->>= (args ∷ []) (plan_servers6 machine.show_ip (some (gateway, iface)) servers)
        (ip_req (recorded machine) args) _ (Adds-ip_req machine args)
        (λ _.
          then_lines _ (machine.show_ip (v6 a)) more
            (Adds-pin_servers6 (some (gateway, iface)) servers))

  -- Two calls that have to succeed, and what follows.
  two_calls :
      {A : Type 0} (a b : List Str) (c : List (List Str)) (m : Eff (Recorded W) Str A)
      → Adds c m
      → Adds (a ∷ b ∷ c) (do ip_req (recorded machine) a; ip_req (recorded machine) b; m)
  two_calls a b c m h =
      Adds->>= (a ∷ []) (b ∷ c) (ip_req (recorded machine) a) _ (Adds-ip_req machine a)
        (λ _. Adds->>= (b ∷ []) c (ip_req (recorded machine) b) _ (Adds-ip_req machine b) (λ _. h))

  Adds-lay_blackholes :
      (route : Option (Str × Str)) (servers : List IpAddr)
      → Adds
          (plan_servers6 machine.show_ip route servers
            ++ blackhole "::/1" ∷ blackhole "8000::/1" ∷ [])
          (lay_blackholes (recorded machine) route servers)
  unfolding lay_blackholes
  Adds-lay_blackholes route servers =
      Adds->>= (plan_servers6 machine.show_ip route servers)
        (blackhole "::/1" ∷ blackhole "8000::/1" ∷ [])
        (pin_servers6 (recorded machine) route servers) _ (Adds-pin_servers6 route servers)
        (λ server_lines.
          Adds->>= [] _ (write_state (recorded machine) (state_file "servers6") server_lines) _
            (Adds-write_state machine (state_file "servers6") server_lines)
            (λ _.
              Adds->>= (blackhole "::/1" ∷ []) (blackhole "8000::/1" ∷ [])
                (ip_req (recorded machine) (blackhole "::/1")) _
                (Adds-ip_req machine (blackhole "::/1"))
                (λ _. Adds-ip_req machine (blackhole "8000::/1"))))

  pub Adds-lay_tunnel :
      (gateway : Option Str) (iface : Str) (route : Option (Str × Str)) (servers : List IpAddr)
      (cgroup : Option Str) (apps : List Str)
      → Adds
          (plan_servers machine.show_ip gateway iface servers
            ++ plan_flip machine.show_ip route servers)
          (lay_tunnel (recorded machine) gateway iface route servers cgroup apps)
  unfolding lay_tunnel
  Adds-lay_tunnel gateway iface route servers cgroup apps =
      Adds->>= _ (plan_flip machine.show_ip route servers)
        (pin_servers (recorded machine) gateway iface servers) _
        (Adds-pin_servers gateway iface servers)
        (λ server_lines.
          Adds->>= [] _ (write_state (recorded machine) (state_file "servers") server_lines) _
            (Adds-write_state machine (state_file "servers") server_lines)
            (λ _.
              Adds->>= [] _ (arm_bypass (recorded machine) cgroup iface apps) _
                (Adds-arm_bypass machine cgroup iface apps)
                (λ _.
                  two_calls (into_tun "replace" "0.0.0.0/1") (into_tun "replace" "128.0.0.0/1") _
                    (lay_blackholes (recorded machine) route servers)
                    (Adds-lay_blackholes route servers))))
