-- ===== src/Helper/Plan.antt =====
-- The calls of `ip` of a `route_up` in helper/src/main.rs, as a plan.
use varmlen_client_linux.Base.{
  Bool, true, false, List, [], ◌∷◌, ◌++◌, Option, none, some, Eff, modify, ◌>>◌, ◌≡◌, ℕ,
}
use mathlib.Core.Path.{subst}
use varmlen_client_linux.Base.Text.{Str}
use varmlen_client_linux.Protocol.{IpAddr, v4, v6}
use varmlen_client_linux.Helper.Machine.{Machine, ip_req, ip_quiet}
use varmlen_client_linux.Helper.Killswitch.{bypass_mark}
use varmlen_client_linux.Helper.Routes.{
  phys_default, phys_default6, throw_route, mark_rule, server_route, server_route6, into_tun,
  blackhole, local_nets, local_nets6, xray_dial_mark,
}
use varmlen_client_linux.Helper.Up.{throw_all, add_rule_fwmark, lay_physical, lay_physical6}
use varmlen_client_linux.Helper.Trace.{
  Recorded, recorded, Adds, Adds->>=, Adds-pure, Adds-ip_quiet, Adds-ip_req,
}

-- Traffic of the local networks is sent on to the main table.
abbrev throws : Bool → List Str → List (List Str)
throws is6 [] = []
throws is6 (net ∷ nets) = throw_route is6 net ∷ throws is6 nets

abbrev marks : Bool → ℕ → List (List Str)
marks is6 mark = mark_rule is6 "del" mark ∷ mark_rule is6 "add" mark ∷ []

-- The table that leads past the tunnel, for the marks of the dialer and of the programs outside.
abbrev pub plan_physical : Option Str → Str → List (List Str)
plan_physical gateway iface =
    phys_default gateway iface
    ∷ (throws false local_nets ++ (marks false xray_dial_mark ++ marks false bypass_mark))

abbrev pub plan_physical6 : Option (Str × Str) → List (List Str)
plan_physical6 none = []
plan_physical6 (some (gateway, iface)) =
    phys_default6 gateway iface
    ∷ (throws true local_nets6 ++ (marks true xray_dial_mark ++ marks true bypass_mark))

-- One route past the tunnel for each server of version 4.
abbrev pub plan_servers : (IpAddr → Str) → Option Str → Str → List IpAddr → List (List Str)
plan_servers show gateway iface [] = []
plan_servers show gateway iface (v4 a ∷ servers) =
    server_route gateway iface (show (v4 a)) ∷ plan_servers show gateway iface servers
plan_servers show gateway iface (v6 a ∷ servers) = plan_servers show gateway iface servers

abbrev pub route6_of : (IpAddr → Str) → Option (Str × Str) → ℕ → List (List Str)
route6_of show none a = []
route6_of show (some (gateway, iface)) a = server_route6 gateway iface (show (v6 a)) ∷ []

abbrev pub plan_servers6 : (IpAddr → Str) → Option (Str × Str) → List IpAddr → List (List Str)
plan_servers6 show route [] = []
plan_servers6 show route (v4 a ∷ servers) = plan_servers6 show route servers
plan_servers6 show route (v6 a ∷ servers) =
    route6_of show route a ++ plan_servers6 show route servers

-- Into the tunnel with version 4, and nowhere with version 6.
abbrev pub plan_flip : (IpAddr → Str) → Option (Str × Str) → List IpAddr → List (List Str)
plan_flip show route6 servers =
    into_tun "replace" "0.0.0.0/1"
    ∷ into_tun "replace" "128.0.0.0/1"
    ∷ (plan_servers6 show route6 servers ++ blackhole "::/1" ∷ blackhole "8000::/1" ∷ [])

module _ {W : Type 0} where
  pub Adds-eq :
      {A : Type 0} {c d : List (List Str)} (m : Eff (Recorded W) Str A)
      → c ≡ d
      → Adds c m
      → Adds d m
  Adds-eq m e h = subst (λ calls. Adds calls m) e h

module _ {W : Type 0} (machine : Machine W) where
  Adds-throw_all :
      (is6 : Bool) (nets : List Str)
      → Adds (throws is6 nets) (throw_all (recorded machine) is6 nets)
  unfolding throw_all
  Adds-throw_all is6 [] = Adds-pure tt
  Adds-throw_all is6 (net ∷ nets) =
      Adds->>= (throw_route is6 net ∷ []) (throws is6 nets)
        (ip_req (recorded machine) (throw_route is6 net))
        (λ _. throw_all (recorded machine) is6 nets) (Adds-ip_req machine (throw_route is6 net))
        (λ _. Adds-throw_all is6 nets)

  Adds-add_rule_fwmark :
      (is6 : Bool) (mark : ℕ) → Adds (marks is6 mark) (add_rule_fwmark (recorded machine) is6 mark)
  unfolding add_rule_fwmark
  Adds-add_rule_fwmark is6 mark =
      Adds->>= (mark_rule is6 "del" mark ∷ []) (mark_rule is6 "add" mark ∷ [])
        (modify (ip_quiet (recorded machine) (mark_rule is6 "del" mark)))
        (λ _. ip_req (recorded machine) (mark_rule is6 "add" mark))
        (Adds-ip_quiet machine (mark_rule is6 "del" mark))
        (λ _. Adds-ip_req machine (mark_rule is6 "add" mark))

  both_marks :
      (is6 : Bool)
      → Adds (marks is6 xray_dial_mark ++ marks is6 bypass_mark) (do
        add_rule_fwmark (recorded machine) is6 xray_dial_mark
        add_rule_fwmark (recorded machine) is6 bypass_mark)
  both_marks is6 =
      Adds->>= (marks is6 xray_dial_mark) (marks is6 bypass_mark)
        (add_rule_fwmark (recorded machine) is6 xray_dial_mark)
        (λ _. add_rule_fwmark (recorded machine) is6 bypass_mark)
        (Adds-add_rule_fwmark is6 xray_dial_mark) (λ _. Adds-add_rule_fwmark is6 bypass_mark)

  throws_and_marks :
      (is6 : Bool) (nets : List Str)
      → Adds (throws is6 nets ++ (marks is6 xray_dial_mark ++ marks is6 bypass_mark)) (do
        throw_all (recorded machine) is6 nets
        add_rule_fwmark (recorded machine) is6 xray_dial_mark
        add_rule_fwmark (recorded machine) is6 bypass_mark)
  throws_and_marks is6 nets =
      Adds->>= (throws is6 nets) (marks is6 xray_dial_mark ++ marks is6 bypass_mark)
        (throw_all (recorded machine) is6 nets) _ (Adds-throw_all is6 nets) (λ _. both_marks is6)

  pub Adds-lay_physical :
      (gateway : Option Str) (iface : Str)
      → Adds (plan_physical gateway iface) (lay_physical (recorded machine) gateway iface)
  unfolding lay_physical
  Adds-lay_physical gateway iface =
      Adds->>= (phys_default gateway iface ∷ []) _
        (ip_req (recorded machine) (phys_default gateway iface)) _
        (Adds-ip_req machine (phys_default gateway iface)) (λ _. throws_and_marks false local_nets)

  pub Adds-lay_physical6 :
      (route : Option (Str × Str))
      → Adds (plan_physical6 route) (lay_physical6 (recorded machine) route)
  unfolding lay_physical6
  Adds-lay_physical6 none = Adds-pure tt
  Adds-lay_physical6 (some (gateway, iface)) =
      Adds->>= (phys_default6 gateway iface ∷ []) _
        (ip_req (recorded machine) (phys_default6 gateway iface)) _
        (Adds-ip_req machine (phys_default6 gateway iface)) (λ _. throws_and_marks true local_nets6)
