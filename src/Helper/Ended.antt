-- ===== src/Helper/Ended.antt =====
-- How a `route_up` of helper/src/main.rs ends, by the calls of `ip` that it has made.
use varmlen_client_linux.Base.{Bool, false, List, [], ◌∷◌, ◌++◌, Option, ◌≡◌, ◌⊎◌}
use varmlen_client_linux.Base.Text.{Str}
use varmlen_client_linux.Protocol.{IpAddr}
use varmlen_client_linux.Helper.Machine.{Machine}
use varmlen_client_linux.Helper.Routes.{show_routes}
use varmlen_client_linux.Helper.Down.{leave_tunnel}
use varmlen_client_linux.Helper.Trace.{Recorded}
use varmlen_client_linux.Helper.Planned.{plan}

module _ {W : Type 0} (machine : Machine W) (servers : List IpAddr) (cgroup : Option Str)
    (apps : List Str) where
  -- The plan for the way out that was found, whether the tunnel was there, and the way of version 6.
  abbrev pub Followed : Recorded W → Recorded W → Type 0
  Followed s s' =
      (gateway : Option Str) × (iface : Str) × (made : Bool) × (route6 : Option (Str × Str))
      × (s'.trace
          ≡ s.trace ++ (show_routes false ∷ plan machine.show_ip made gateway iface route6 servers))

  -- No way out was found, or behind what was laid stands the way out of the tunnel.
  abbrev pub RolledBack : Recorded W → Recorded W → Type 0
  RolledBack s s' =
      (s'.trace ≡ s.trace ++ show_routes false ∷ [])
      ⊎ ((laid : List (List Str)) × (rest : List (List Str)) × (s'.trace
            ≡ s.trace ++ (show_routes false ∷ (laid ++ (leave_tunnel ++ rest)))))
