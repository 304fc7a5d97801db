-- ===== src/System/Joined.antt =====
-- The daemon of daemon/src/system.rs over the helper of helper/src/main.rs, run together.
use varmlen_client_linux.Base.{true, none, [], Done, if◌then◌else◌, ok, refl}
use varmlen_client_linux.Base.Text.{str_eq}
use varmlen_client_linux.Protocol.{ConnectRequest}
use varmlen_client_linux.Helper.Killswitch.{apply_killswitch}
use varmlen_client_linux.Helper.Down
use varmlen_client_linux.Helper.Args.{run}
use varmlen_client_linux.Helper.Samples.{commands, show_ip, reads, no_flag}
use varmlen_client_linux.System.Host.{Host, Env}
use varmlen_client_linux.System.Parts.{route_up}
use varmlen_client_linux.System.Backend.{install_hold_block}
use varmlen_client_linux.System.Enforced.{output_of, Reflects, install_hold_block_lem, route_up_lem}
use varmlen_client_linux.System.Samples.{env, host, fresh, request}

abbrev joined_host : Host Done
joined_host = record (host Done) {
  run = λ path args w.
      let (exit, w') = run commands args w in
      if str_eq path (env Done).paths.net_helper
      then (ok (output_of exit), w')
      else (host Done).run path args w;
  show_ip = show_ip;
}

abbrev joined : Env Done Done
joined = record (env Done) { host = joined_host }

abbrev held : ConnectRequest
held = record request { killswitch = true; allow_lan = true }

install_hold_block_lem_example :
    Reflects
      (install_hold_block joined held (fresh tt))
      (apply_killswitch commands.machine held.server_ips true tt)
install_hold_block_lem_example =
    install_hold_block_lem joined commands (λ args w. refl) reads no_flag held (fresh tt)

route_up_lem_example :
    Reflects
      (route_up joined held (fresh tt))
      (Down.route_up commands.machine held.server_ips none [] tt)
route_up_lem_example = route_up_lem joined commands (λ args w. refl) reads no_flag held (fresh tt)
