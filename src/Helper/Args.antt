-- ===== src/Helper/Args.antt =====
-- helper/src/main.rs, `run`: the commands of the helper and their arguments.
use varmlen_client_linux.Base.{
  ℕ, Bool, true, false, ◌||◌, List, [], ◌∷◌, ◌++◌, Option, none, some, Result, ok, err, Done, Eff,
  if◌then◌else◌, any, unwrap_or,
}
use varmlen_client_linux.Base.Text.{Str, str, str_eq, parse_unsigned, decimal}
use varmlen_client_linux.Protocol.{IpAddr}
use varmlen_client_linux.Helper.Machine.{Machine}
use varmlen_client_linux.Helper.Killswitch.{
  apply_killswitch, remove_killswitch, bypass_up, bypass_down,
}
use varmlen_client_linux.Helper.Down.{route_up, route_down, cleanup}

-- The exit code, and the lines that go to the two outputs.
pub record Exit : Type 0 where
  pub code : ℕ
  pub stdout : Str
  pub stderr : Str

-- The functions that `run` calls and that are not in this model, and those that are, over a machine.
pub record Commands (W : Type 0) : Type 0 where
  pub machine : Machine W
  pub raise_ambient_net_admin : W → W
  pub tcp_ping_bypass : Str → ℕ → ℕ → Eff W Str ℕ
  pub icmp_ping : Str → ℕ → Eff W Str ℕ
  pub bypass_watch : Str → List Str → W → ℕ × W

abbrev usage : Str → Exit
usage text = record { code = 2; stdout = []; stderr = text ++ (10 ∷ []) }

abbrev commands_line : Str
commands_line =
    str
      "usage: varmlen-net <tcp|icmp|killswitch-up|killswitch-down|route-up|route-down|cleanup> ..."

abbrev quiet_exit : Exit
quiet_exit = record { code = 0; stdout = []; stderr = [] }

abbrev pub failed : Str → Exit
failed e = record { code = 1; stdout = []; stderr = e ++ (10 ∷ []) }

-- `Ok(()) => 0`, and the error is printed.
unfoldable pub exit_of : Result Str Done → Exit
exit_of (ok d) = quiet_exit
exit_of (err e) = failed e

-- `Ok(ms) => println!`, and the error is printed.
unfoldable pub measured_exit : Result Str ℕ → Exit
measured_exit (ok ms) = record { code = 0; stdout = decimal ms ++ (10 ∷ []); stderr = [] }
measured_exit (err e) = failed e

abbrev pub allow_lan_flag : Str
allow_lan_flag = str "--allow-lan"

abbrev u16_max : ℕ
u16_max = 65535

abbrev u32_max : ℕ
u32_max = 4294967295

-- The arguments of `route-up`.
pub record RouteArgs : Type 0 where
  pub servers : List IpAddr
  pub bypass_cgroup : Option Str
  pub bypass_apps : List Str

abbrev pub no_route_args : RouteArgs
no_route_args = record { servers = []; bypass_cgroup = none; bypass_apps = [] }

abbrev with_address : Option IpAddr → List IpAddr → List IpAddr
with_address none ips = ips
with_address (some ip) ips = ips ++ ip ∷ []

module _ (parse_ip : Str → Option IpAddr) where
  -- The loop over the arguments of `killswitch-up`, with the addresses so far and the flag.
  unfoldable pub killswitch_args : List IpAddr → Bool → List Str → List IpAddr × Bool
  killswitch_args ips allow_lan [] = (ips, allow_lan)
  killswitch_args ips allow_lan (a ∷ args) =
      let flagged = killswitch_args ips true args in
      let plain = killswitch_args (with_address (parse_ip a) ips) allow_lan args in
      if str_eq a allow_lan_flag then flagged else plain

  -- One argument with a value.
  unfoldable pub take_value : Str → Str → RouteArgs → RouteArgs
  take_value a value r =
      if str_eq a (str "--server")
      then record r { servers = with_address (parse_ip value) r.servers }
      else if str_eq a (str "--bypass-cgroup")
      then record r { bypass_cgroup = some value }
      else record r { bypass_apps = r.bypass_apps ++ value ∷ [] }

  abbrev takes_value : Str → Bool
  takes_value a =
      str_eq a (str "--server") || str_eq a (str "--bypass-cgroup") || str_eq a (str "--bypass-app")

  -- The loop over the arguments of `route-up`. A flag at the end has no value and says nothing.
  unfoldable pub route_args : RouteArgs → List Str → RouteArgs
  unfolding take_value
  route_args r [] = r
  route_args r (a ∷ []) = r
  route_args r (a ∷ value ∷ args) =
      let behind = route_args (take_value a value r) args in
      let skipped = route_args r (value ∷ args) in if takes_value a then behind else skipped

module _ {W : Type 0} (commands : Commands W) where
  unfoldable pub exits : (Result Str Done × W) → Exit × W
  exits (result, w) = (exit_of result, w)

  measures : (Result Str ℕ × W) → Exit × W
  measures (result, w) = (measured_exit result, w)

  run_tcp : List Str → W → Exit × W
  unfolding measures measured_exit
  run_tcp (host ∷ port ∷ tmo ∷ _) w = elim (parse_unsigned u16_max port) [
    | none ↦ (usage (str "bad port"), w)
    | some p ↦
        measures (commands.tcp_ping_bypass host p (unwrap_or (parse_unsigned u32_max tmo) 2500) w)
  ]
  run_tcp _ w = (usage (str "usage: varmlen-net tcp <host> <port> <timeout_ms>"), w)

  run_icmp : List Str → W → Exit × W
  unfolding measures measured_exit
  run_icmp (host ∷ tmo ∷ _) w =
      measures (commands.icmp_ping host (unwrap_or (parse_unsigned u32_max tmo) 2000) w)
  run_icmp _ w = (usage (str "usage: varmlen-net icmp <host> <timeout_ms>"), w)

  unfoldable pub run_killswitch_up : List Str → W → Exit × W
  unfolding killswitch_args exits exit_of
  run_killswitch_up args w =
      let (ips, allow_lan) = killswitch_args commands.machine.parse_ip [] false args in
      exits (apply_killswitch commands.machine ips allow_lan w)

  unfoldable pub run_route_up : List Str → W → Exit × W
  unfolding route_args exits exit_of
  run_route_up args w =
      let r = route_args commands.machine.parse_ip no_route_args args in
      exits (route_up commands.machine r.servers r.bypass_cgroup r.bypass_apps w)

  run_bypass_up : List Str → W → Exit × W
  unfolding exits exit_of
  run_bypass_up [] w = (usage (str "usage: varmlen-net bypass-up <cgroup-path>"), w)
  run_bypass_up (path ∷ _) w = exits (bypass_up commands.machine path none w)

  first : List Str → Option Str
  first [] = none
  first (a ∷ _) = some a

  run_bypass_watch : List Str → W → Exit × W
  run_bypass_watch [] w = (usage (str "usage: varmlen-net bypass-watch <cgroup-path> <id>..."), w)
  run_bypass_watch (path ∷ excluded) w =
      let (code, w') = commands.bypass_watch path excluded w in
      (record { code = code; stdout = []; stderr = [] }, w')

  -- The command by its name.
  unfoldable pub run_command : Str → List Str → W → Exit × W
  unfolding run_tcp run_icmp run_killswitch_up run_route_up run_bypass_up first run_bypass_watch
  run_command name args w =
      if str_eq name (str "tcp")
      then run_tcp args w
      else if str_eq name (str "icmp")
      then run_icmp args w
      else if str_eq name (str "killswitch-up")
      then run_killswitch_up args w
      else if str_eq name (str "killswitch-down")
      then (quiet_exit, remove_killswitch commands.machine w)
      else if str_eq name (str "route-up")
      then run_route_up args w
      else if str_eq name (str "route-down")
      then (
        quiet_exit,
        route_down commands.machine (any (λ a. str_eq a (str "--keep-bypass")) args) w,
      )
      else if str_eq name (str "bypass-up")
      then run_bypass_up args w
      else if str_eq name (str "bypass-down")
      then (quiet_exit, bypass_down commands.machine (first args) w)
      else if str_eq name (str "bypass-watch")
      then run_bypass_watch args w
      else if str_eq name (str "cleanup")
      then (quiet_exit, cleanup commands.machine w)
      else (usage commands_line, w)

  unfoldable pub run : List Str → W → Exit × W
  unfolding run_command
  run [] w = (usage commands_line, commands.raise_ambient_net_admin w)
  run (name ∷ args) w = run_command name args (commands.raise_ambient_net_admin w)
