-- ===== src/Helper/Whole.antt =====
-- `route_up` of helper/src/main.rs as a whole: it follows its plan, or takes back what it laid.
use varmlen_client_linux.Base.{
  Bool, true, false, List, [], ◌∷◌, ◌++◌, Option, Done, modify, ◌>>=◌, ◌>>◌, ◌≡◌, refl, sym,
  if◌then◌else◌, Bool-cases, inl, inr, arith,
}
use mathlib.Core.List.{append-nil}
use varmlen_client_linux.Base.Text.{Str, str}
use varmlen_client_linux.Protocol.{IpAddr}
use varmlen_client_linux.Helper.Machine.{Machine, ip_req, ip_quiet, write_file, write_state}
use varmlen_client_linux.Helper.Routes.{
  show_routes, add_tun, address_tun, raise_tun, dns_route, dns_rule,
}
use varmlen_client_linux.Helper.Up.{
  create_tun, ensure_tun, install_dns_policy_route, set_rp_filter_loose, lay_physical,
  lay_physical6, detect_default_route6, lay_tunnel, lay_routes,
}
use varmlen_client_linux.Helper.Trace.{
  Recorded, recorded, Makes, Adds, Adds->>=, Makes->>=, Makes-map, Adds-Makes, Adds-none,
  Adds-always, Adds-ip_quiet, Adds-ip_req,
}
use varmlen_client_linux.Helper.Plan.{
  plan_physical, plan_physical6, plan_servers, plan_flip, Adds-lay_physical, Adds-lay_physical6,
}
use varmlen_client_linux.Helper.Planned.{plan, Adds-lay_tunnel}

module _ {W : Type 0} (machine : Machine W) where
  abbrev made_calls : Bool → List (List Str)
  made_calls made = if made then [] else add_tun ∷ []

  Makes-create_tun : Makes made_calls (modify (create_tun (recorded machine)))
  unfolding create_tun ip_quiet
  Makes-create_tun s = elim (Bool-cases (machine.exists (str "/sys/class/net/varmlen0") s.world)) [
    | inl e ↦ (true, rw e (sym (append-nil s.trace)))
    | inr e ↦ (false, rw e)
  ]

  Makes-ensure_tun :
      Makes
        (λ made. made_calls made ++ address_tun ∷ raise_tun ∷ [])
        (ensure_tun (recorded machine))
  unfolding ensure_tun
  Makes-ensure_tun =
      Makes-map _ _ _ (λ x. x.0) (λ x. refl)
        (Makes->>= {J = Unit {0}} made_calls (λ _ _. address_tun ∷ raise_tun ∷ [])
          (modify (create_tun (recorded machine))) _ Makes-create_tun
          (λ _.
            Adds->>= (address_tun ∷ []) (raise_tun ∷ [])
              (modify (ip_quiet (recorded machine) address_tun)) _
              (Adds-ip_quiet machine address_tun) (λ _. Adds-ip_req machine raise_tun)))

  Adds-install_dns_policy_route :
      Adds
        (dns_route ∷ dns_rule "del" ∷ dns_rule "add" ∷ [])
        (install_dns_policy_route (recorded machine))
  unfolding install_dns_policy_route
  Adds-install_dns_policy_route =
      Adds->>= (dns_route ∷ []) (dns_rule "del" ∷ dns_rule "add" ∷ [])
        (ip_req (recorded machine) dns_route) _ (Adds-ip_req machine dns_route)
        (λ _.
          Adds->>= (dns_rule "del" ∷ []) (dns_rule "add" ∷ [])
            (modify (ip_quiet (recorded machine) (dns_rule "del"))) _
            (Adds-ip_quiet machine (dns_rule "del")) (λ _. Adds-ip_req machine (dns_rule "add")))

  rp_trace : (s : Recorded W) → (set_rp_filter_loose (recorded machine) s).1.trace ≡ s.trace
  unfolding set_rp_filter_loose write_state write_file
  rp_trace s = ground arith

  detect6_trace :
      (s : Recorded W)
      → (detect_default_route6 (recorded machine) s).1.trace ≡ s.trace ++ show_routes true ∷ []
  unfolding detect_default_route6
  detect6_trace s = refl

  module _ (gateway : Option Str) (iface : Str) (servers : List IpAddr) (cgroup : Option Str)
      (apps : List Str) where
    abbrev behind_start : Option (Str × Str) → List (List Str)
    behind_start route6 =
        plan_physical6 route6
        ++ (plan_servers machine.show_ip gateway iface servers
            ++ plan_flip machine.show_ip route6 servers)

    abbrev behind_tun : Option (Str × Str) → List (List Str)
    behind_tun route6 =
        dns_route
        ∷ dns_rule "del"
        ∷ dns_rule "add"
        ∷ (plan_physical gateway iface ++ (show_routes true ∷ behind_start route6))

    plan_parts :
        (x : Bool × Done × Option (Str × Str))
        → (made_calls x.0 ++ address_tun ∷ raise_tun ∷ []) ++ behind_tun x.2
          ≡ plan machine.show_ip x.0 gateway iface x.2 servers
    plan_parts (true, d, route6) = refl
    plan_parts (false, d, route6) = refl

    Makes-behind_start :
        Makes {I = Option (Str × Str)}
          (λ route6. show_routes true ∷ behind_start route6)
          (do
            route6 ← detect_default_route6 (recorded machine)
            lay_physical6 (recorded machine) route6
            lay_tunnel (recorded machine) gateway iface route6 servers cgroup apps)
    Makes-behind_start =
        Makes-map _ _ _ (λ x. x.1) (λ x. refl)
          (Makes->>= {I = Unit {0}} {J = Unit {0}} (λ _. show_routes true ∷ [])
            (λ route6 _. behind_start route6) (detect_default_route6 (recorded machine)) _
            (Adds-always (show_routes true ∷ []) (detect_default_route6 (recorded machine))
              detect6_trace)
            (λ route6.
              Adds->>= (plan_physical6 route6) _ (lay_physical6 (recorded machine) route6) _
                (Adds-lay_physical6 machine route6)
                (λ _. Adds-lay_tunnel machine gateway iface route6 servers cgroup apps)))

    Makes-behind_tun : Makes behind_tun (do
      install_dns_policy_route (recorded machine)
      set_rp_filter_loose (recorded machine)
      lay_physical (recorded machine) gateway iface
      route6 ← detect_default_route6 (recorded machine)
      lay_physical6 (recorded machine) route6
      lay_tunnel (recorded machine) gateway iface route6 servers cgroup apps)
    Makes-behind_tun =
        Adds-Makes (dns_route ∷ dns_rule "del" ∷ dns_rule "add" ∷ [])
          (λ route6. plan_physical gateway iface ++ (show_routes true ∷ behind_start route6))
          (install_dns_policy_route (recorded machine)) _ Adds-install_dns_policy_route
          (λ _.
            Adds-Makes []
              (λ route6. plan_physical gateway iface ++ (show_routes true ∷ behind_start route6))
              (set_rp_filter_loose (recorded machine)) _
              (Adds-none (set_rp_filter_loose (recorded machine)) rp_trace)
              (λ _.
                Adds-Makes (plan_physical gateway iface)
                  (λ route6. show_routes true ∷ behind_start route6)
                  (lay_physical (recorded machine) gateway iface) _
                  (Adds-lay_physical machine gateway iface) (λ _. Makes-behind_start)))

    pub Makes-lay_routes :
        Makes {I = Bool × Option (Str × Str)}
          (λ x. plan machine.show_ip x.0 gateway iface x.1 servers)
          (lay_routes (recorded machine) gateway iface servers cgroup apps)
    unfolding lay_routes
    Makes-lay_routes =
        Makes-map _ _ _ (λ x. (x.0, x.2)) plan_parts
          (Makes->>= (λ made. made_calls made ++ address_tun ∷ raise_tun ∷ [])
            (λ _ route6. behind_tun route6) (ensure_tun (recorded machine)) _ Makes-ensure_tun
            (λ _. Makes-behind_tun))
