-- ===== src/System/Enforced.antt =====
-- The daemon (daemon/src/system.rs) with its helper (helper/src/main.rs) as the program that it starts:
-- what the daemon asks for in the arguments is what the helper does.
use varmlen_client_linux.Base.{
  Bool, true, false, List, [], ◌∷◌, ◌++◌, map, Option, none, some, Result, ok, err, Done, map_err,
  if◌then◌else◌, ◌≡◌, ◌↔◌, refl, ap, sym, ◌∙◌, ◌==◌,
}
use mathlib.Core.List.{append_assoc, append-nil}
use varmlen_client_linux.Base.Text.{Str, str, str_eq, str_eq_iff}
use varmlen_client_linux.Protocol.{
  ConnectRequest, IpAddr, DaemonError, DaemonErrorCode, hold_block_failed,
}
use varmlen_client_linux.Helper.Killswitch.{apply_killswitch}
use varmlen_client_linux.Helper.Down
use varmlen_client_linux.Helper.Args.{
  Commands, Exit, run, run_command, run_killswitch_up, run_route_up, killswitch_args, route_args,
  take_value, exits, exit_of, allow_lan_flag, no_route_args,
}
use varmlen_client_linux.System.Host.{Env, System, Output}
use varmlen_client_linux.System.Parts.{run_net_helper, server_arguments, helper_result, route_up}
use varmlen_client_linux.System.Backend.{install_hold_block}

-- What `Command::output` makes of a program that has ended.
abbrev pub output_of : Exit → Output
output_of e = record { success = e.code == 0; stdout = e.stdout; stderr = e.stderr }

module _ (parse_ip : Str → Option IpAddr) (show_ip : IpAddr → Str)
    (reads : (ip : IpAddr) → parse_ip (show_ip ip) ≡ some ip)
    (no_flag : parse_ip allow_lan_flag ≡ none) where
  is_no_flag : (ip : IpAddr) (b : Bool) → str_eq (show_ip ip) allow_lan_flag ≡ b → b ≡ false
  is_no_flag ip false e = refl
  is_no_flag ip true e =
      let same = (str_eq_iff (show_ip ip) allow_lan_flag).0 e in
      let nothing = sym (reads ip) ∙ ap parse_ip same ∙ no_flag in cc

  killswitch_args-show :
      (ips : List IpAddr) (before : List IpAddr) (allow_lan : Bool)
      → killswitch_args parse_ip before allow_lan (map show_ip ips) ≡ (before ++ ips, allow_lan)
  unfolding killswitch_args
  killswitch_args-show [] before allow_lan = ap (λ l. (l, allow_lan)) (sym (append-nil before))
  killswitch_args-show (ip ∷ ips) before allow_lan =
      rw (is_no_flag ip _ refl, reads ip)
        (killswitch_args-show ips (before ++ ip ∷ []) allow_lan
          ∙ ap (λ l. (l, allow_lan)) (append_assoc before (ip ∷ []) ips))

  killswitch_args-request :
      (ips : List IpAddr) (allow_lan : Bool)
      → killswitch_args parse_ip [] false
          ((if allow_lan then str "--allow-lan" ∷ [] else []) ++ map show_ip ips)
        ≡ (ips, allow_lan)
  unfolding killswitch_args
  killswitch_args-request ips true = killswitch_args-show ips [] true
  killswitch_args-request ips false = killswitch_args-show ips [] false

  route_args-show :
      (ips : List IpAddr) (before : List IpAddr)
      → route_args parse_ip
          (record no_route_args { servers = before })
          (server_arguments (map show_ip ips))
        ≡ record no_route_args { servers = before ++ ips }
  unfolding route_args server_arguments take_value
  route_args-show [] before =
      ap (λ l. record { servers = l; bypass_cgroup = none; bypass_apps = [] })
        (sym (append-nil before))
  route_args-show (ip ∷ ips) before = rw (reads ip) (
      route_args-show ips (before ++ ip ∷ [])
      ∙ ap (λ l. record { servers = l; bypass_cgroup = none; bypass_apps = [] })
          (append_assoc before (ip ∷ []) ips))

-- A command of the helper changes the world as the helper does, and fails exactly if it does.
abbrev pub Reflects :
    {S W : Type 0} → Result DaemonError Done × System S W → Result Str Done × W → Type 0
Reflects r e = (r.1.world ≡ e.1) × ((r.0 ≡ ok tt) ↔ (e.0 ≡ ok tt))

module _ {S W : Type 0} (env : Env S W) (commands : Commands W)
    (runs : (args : List Str) (w : W)
      → env.host.run env.paths.net_helper args w
        ≡ (ok (output_of (run commands args w).0), (run commands args w).1))
    (reads : (ip : IpAddr) → commands.machine.parse_ip (env.host.show_ip ip) ≡ some ip)
    (no_flag : commands.machine.parse_ip allow_lan_flag ≡ none) where
  helper_lem :
      (args : List Str) (s : System S W) (e : Result Str Done × W)
      → run commands args s.world ≡ exits commands e
      → Reflects (run_net_helper env args s) e
  unfolding run_net_helper helper_result exits exit_of
  helper_lem args s (ok d, w) same = rw (runs args s.world, same) (refl, ((λ _. refl), (λ _. refl)))
  helper_lem args s (err d, w) same = rw (runs args s.world, same) (refl, ((λ h. cc), (λ h. cc)))

  recode_lem :
      (code : DaemonErrorCode) (r : Result DaemonError Done)
      → (map_err {F = DaemonError} (λ error. record { code = code; message = error.message }) r
          ≡ ok tt)
        ↔ (r ≡ ok tt)
  recode_lem code (ok d) = ((λ _. refl), (λ _. refl))
  recode_lem code (err e) = ((λ h. cc), (λ h. cc))

  run-killswitch_up :
      (args : List Str) (ips : List IpAddr) (allow_lan : Bool) (w : W)
      → killswitch_args commands.machine.parse_ip [] false args ≡ (ips, allow_lan)
      → run commands (str "killswitch-up" ∷ args) w
        ≡ exits commands
            (apply_killswitch commands.machine ips allow_lan (commands.raise_ambient_net_admin w))
  unfolding run run_command run_killswitch_up
  run-killswitch_up args ips allow_lan w e = rw (e) refl

  run-route_up :
      (args : List Str) (ips : List IpAddr) (w : W)
      → route_args commands.machine.parse_ip no_route_args args
        ≡ record { servers = ips; bypass_cgroup = none; bypass_apps = [] }
      → run commands (str "route-up" ∷ args) w
        ≡ exits commands
            (Down.route_up commands.machine ips none [] (commands.raise_ambient_net_admin w))
  unfolding run run_command run_route_up
  run-route_up args ips w e = rw (e) refl

  -- With the helper as the program that the daemon starts, and addresses that are read as they are
  -- shown, the hold block of a request is the kill switch for exactly its servers, with the local
  -- network exactly if it asks for that, and it fails exactly if that kill switch does.
  pub install_hold_block_lem :
      (request : ConnectRequest) (s : System S W)
      → Reflects (install_hold_block env request s) (
          apply_killswitch commands.machine request.server_ips request.allow_lan
            (commands.raise_ambient_net_admin s.world))
  unfolding install_hold_block
  install_hold_block_lem request s =
      let args =
        (if request.allow_lan then str "--allow-lan" ∷ [] else [])
        ++ map env.host.show_ip request.server_ips in
      let (world, done) = helper_lem (str "killswitch-up" ∷ args) s _ (
        run-killswitch_up args request.server_ips request.allow_lan s.world (
          killswitch_args-request commands.machine.parse_ip env.host.show_ip reads no_flag
            request.server_ips request.allow_lan)) in
      let recoded = recode_lem hold_block_failed _ in
      (world, ((λ h. done.0 (recoded.0 h)), (λ h. recoded.1 (done.1 h))))

  -- With the helper as the program that the daemon starts, and addresses that are read as they are
  -- shown, the routes of a request are those of the helper for exactly its servers, and for no cgroup
  -- and no programs, and they fail exactly if those do.
  pub route_up_lem :
      (request : ConnectRequest) (s : System S W)
      → Reflects (route_up env request s) (
          Down.route_up commands.machine request.server_ips none []
            (commands.raise_ambient_net_admin s.world))
  unfolding route_up
  route_up_lem request s =
      let args = server_arguments (map env.host.show_ip request.server_ips) in
      helper_lem (str "route-up" ∷ args) s _ (
        run-route_up args request.server_ips s.world (
          route_args-show commands.machine.parse_ip env.host.show_ip reads no_flag
            request.server_ips []))
