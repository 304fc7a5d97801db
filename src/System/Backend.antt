-- ===== src/System/Backend.antt =====
-- daemon/src/system.rs, `SystemLifecycleBackend` as a `LifecycleBackend`.
use varmlen_client_linux.Base.{
  ℕ, Bool, true, false, not, ◌&&◌, ◌||◌, List, [], ◌∷◌, ◌++◌, map, Option, none, some, Result, ok,
  err, Done, Eff, map_err, pure, ◌>>=◌, ◌>>◌, if◌then◌else◌, is_some, is_empty, modify, lift_result,
}
use varmlen_client_linux.Base.Text.{Str, str, contains, str_eq}
use varmlen_client_linux.Protocol.{
  ConnectionMode, ConnectRequest, DaemonError, DaemonErrorCode, daemon_error, tunnel_commit_failed,
  hold_block_failed, hold_block_verification_failed, hold_block_removal_failed, xray_start_failed,
  split_unavailable,
}
use varmlen_client_linux.Lifecycle.{LifecycleBackend, is_tun}
use varmlen_client_linux.Split.{SplitManager}
use varmlen_client_linux.Split
use varmlen_client_linux.Dns
use varmlen_client_linux.System.Host.{Output, Env, System, on_host, on_host_or, touch, failure}
use varmlen_client_linux.System.Parts.{
  child_is_running, config_path, validation_path, prepare_runtime_dir, write_private,
  run_net_helper, route_up, route_down, terminate_xray, wait_until_ready, remove_dns, split_failure,
  on_split, apply_split, remove_split, internal_io,
}

-- `first_error.get_or_insert(error)`
abbrev pub first_error : List (Result DaemonError Done) → Result DaemonError Done
first_error [] = ok tt
first_error (err e ∷ rs) = err e
first_error (ok _ ∷ rs) = first_error rs

abbrev pub apps_eq : List Str → List Str → Bool
apps_eq [] [] = true
apps_eq (a ∷ as') (b ∷ bs) = str_eq a b && apps_eq as' bs
apps_eq _ _ = false

-- `self.mode == Some(ConnectionMode::Tun)`
abbrev in_tun_mode : Option ConnectionMode → Bool
in_tun_mode none = false
in_tun_mode (some mode) = is_tun mode

module _ {S W : Type 0} (env : Env S W) where
  unfoldable pub validate : ConnectRequest → Eff (System S W) DaemonError Done
  unfolding prepare_runtime_dir write_private
  validate request = do
    on_host (env.documents.ensure_trusted_binary env.paths.xray)
    on_host (env.documents.ensure_trusted_binary env.paths.net_helper)
    lift_result (env.documents.validate_xray_document request.xray_config (is_tun request.mode))
    ports ← lift_result (env.documents.validation_config_ports request.validation_config)
    lift_result (env.documents.validate_ping_xray_document request.validation_config ports)
    prepare_runtime_dir env
    write_private env (validation_path env) request.validation_config
    write_private env (config_path env) request.xray_config
    λ s.
        if env.documents.tun_devices_already_live request.xray_config s.world
        then (ok tt, s)
        else on_host (env.documents.run_xray_validation (config_path env)) s
    on_host (env.documents.run_validation_egress_probe request.validation_config)

  abbrev recode :
      DaemonErrorCode → Eff (System S W) DaemonError Done → Eff (System S W) DaemonError Done
  recode code op s =
      let (result, s') = op s in
      (map_err (λ error. record { code = code; message = error.message }) result, s')

  unfoldable pub install_hold_block : ConnectRequest → Eff (System S W) DaemonError Done
  unfolding run_net_helper
  install_hold_block request = recode hold_block_failed (
      run_net_helper env (
        str "killswitch-up"
        ∷ ((if request.allow_lan then str "--allow-lan" ∷ [] else [])
            ++ map env.host.show_ip request.server_ips)))

  -- The list of the table as `nft` prints it.
  unfoldable pub shows_block : Output → Bool
  shows_block output =
      output.success
      && contains (str "policy drop") output.stdout
      && (contains (str "0x2024") output.stdout || contains (str "0x00002024") output.stdout)
      && (contains (str "0x2025") output.stdout || contains (str "0x00002025") output.stdout)

  block_result : Output → Result DaemonError Done
  unfolding shows_block
  block_result output =
      if shows_block output
      then ok tt
      else err (
          daemon_error hold_block_verification_failed
            "hold block was not installed with the required drop policy")

  unfoldable pub verify_hold_block : Eff (System S W) DaemonError Done
  unfolding block_result
  verify_hold_block = do
    output ←
        on_host_or (failure hold_block_verification_failed (str "could not inspect hold block: "))
          (env.host.run (str "nft") (str "list" ∷ str "table" ∷ str "inet" ∷ str "varmlen_ks" ∷ []))
    lift_result (block_result output)

  abbrev stop_split : Bool → Eff (System S W) DaemonError Done
  stop_split preserve_split s = if preserve_split then (ok tt, s) else remove_split env s

  abbrev stop_routes : Eff (System S W) DaemonError Done
  stop_routes s =
      if in_tun_mode s.mode && env.host.exists env.paths.net_helper s.world
      then route_down env s
      else (ok tt, s)

  unfoldable pub stop_data_plane : Bool → Eff (System S W) DaemonError Done
  stop_data_plane preserve_split s =
      let (split, s1) = stop_split preserve_split s in
      let (dns, s2) = remove_dns env s1 in
      let (routes, s3) = stop_routes s2 in
      let (xray, s4) = terminate_xray env s3 in
      let remove = λ (w : W).
        env.host.remove_file (validation_path env) (env.host.remove_file (config_path env) w) in
      (first_error (split ∷ dns ∷ routes ∷ xray ∷ []), touch remove (record s4 { mode = none }))

  -- The readers of the two pipes are left out.
  adopt : ConnectionMode → ℕ → Eff (System S W) DaemonError Done
  adopt mode child s = elim (env.host.child_id child s.world) [
    | none ↦ (err (daemon_error xray_start_failed "Xray did not expose a process ID"), s)
    | some pid ↦ wait_until_ready env mode (record s {
      xray = some child;
      xray_identity = env.host.identify pid s.world;
      mode = some mode;
    })
  ]

  unfoldable pub start_data_plane : ConnectRequest → Eff (System S W) DaemonError Done
  unfolding adopt
  start_data_plane request = do
    prepare_runtime_dir env
    write_private env (config_path env) request.xray_config
    on_host_or (internal_io (str "clear Xray log")) env.host.clear_log
    child ←
        on_host_or (failure xray_start_failed (str "could not start installed Xray: "))
          (env.host.spawn env.paths.xray (str "run" ∷ str "-c" ∷ config_path env ∷ []))
    adopt request.mode child

  stale_split : List Str → Eff (System S W) DaemonError Done
  unfolding remove_split
  stale_split applications s =
      if is_some s.split && (is_empty applications || not (apps_eq s.split_apps applications))
      then remove_split env s
      else (ok tt, s)

  refresh : Option (SplitManager S) → Eff (System S W) DaemonError Done
  refresh none s = (ok tt, s)
  refresh (some m) s =
      let (result, m', world) =
        on_split env (Split.refresh_routing env.split) (split_failure env) m s.world in
      (result, record s { world = world; split = some m' })

  settle_split : List Str → Eff (System S W) DaemonError Done
  unfolding apply_split refresh
  settle_split applications s =
      if not (is_empty applications) && not (is_some s.split)
      then apply_split env applications s
      else refresh s.split s

  unfoldable pub activate_network : ConnectRequest → Eff (System S W) DaemonError Done
  unfolding route_up stale_split settle_split
  activate_network request =
      let steps : Eff (System S W) DaemonError Done = do
        route_up env request
        stale_split request.excluded_apps
        settle_split request.excluded_apps
        modify (λ s. record s { dns_active = true })
        on_host (Dns.install env.dns)
      in if is_tun request.mode then steps else pure tt

  update_live : List Str → Option (SplitManager S) → Eff (System S W) DaemonError Bool
  unfolding apply_split remove_split
  update_live applications none s =
      let build : Eff (System S W) DaemonError Bool = do apply_split env applications; pure true
      in build s
  update_live applications (some m) s =
      let (result, m', world) =
        on_split env
          (Split.update_plan env.split
            (record { uid = env.paths.owner_uid; applications = applications }))
          (split_failure env) m s.world in
      let s' = record s { world = world; split = some m' } in
      let rebuild : Eff (System S W) DaemonError Bool = do
        remove_split env
        apply_split env applications
        pure true
      in elim result [
        | err error ↦ (err error, s')
        | ok live ↦ if live then (ok true, record s' { split_apps = applications }) else rebuild s'
      ]

  unfoldable pub update_split : List Str → Eff (System S W) DaemonError Bool
  unfolding update_live remove_split
  update_split applications s =
      let clear : Eff (System S W) DaemonError Bool = do remove_split env; pure false
      in if is_empty applications then clear s else update_live applications s.split s

  abbrev healthy : Option (SplitManager S) → W → Bool
  healthy none world = true
  healthy (some m) world = env.is_healthy m.backend world

  uses_tun : Output → Result DaemonError Done
  uses_tun route =
      if route.success && contains (str "varmlen0") route.stdout
      then ok tt
      else err (daemon_error tunnel_commit_failed "the default IPv4 path does not use varmlen0")

  verify_tun : Eff (System S W) DaemonError Done
  unfolding uses_tun
  verify_tun s =
      let check : Eff (System S W) DaemonError Done = do
        route ←
            on_host_or (failure tunnel_commit_failed (str "could not verify tunnel route: "))
              (env.host.run (str "ip") (str "route" ∷ str "get" ∷ str "1.0.0.1" ∷ []))
        lift_result (uses_tun route)
      in if not (env.host.exists (str "/sys/class/net/varmlen0") s.world) || not s.dns_active
        then (
          err (
              daemon_error tunnel_commit_failed
                "TUN or DNS protection disappeared during activation"),
          s,
        )
        else if healthy s.split s.world
        then check s
        else (err (daemon_error split_unavailable "per-app split watcher stopped"), s)

  unfoldable pub verify_connection : ConnectRequest → Eff (System S W) DaemonError Done
  unfolding child_is_running verify_tun
  verify_connection request s =
      let (running, s1) = child_is_running env s in
      if running
      then if is_tun request.mode then verify_tun s1 else (ok tt, s1)
      else (err (daemon_error xray_start_failed "Xray is not running"), s1)

  unfoldable pub remove_hold_block : Eff (System S W) DaemonError Done
  unfolding run_net_helper
  remove_hold_block =
      recode hold_block_removal_failed (run_net_helper env (str "killswitch-down" ∷ []))

  abbrev pub system_backend : LifecycleBackend (System S W)
  system_backend = record {
    data_plane_alive = child_is_running env;
    validate = validate;
    install_hold_block = install_hold_block;
    verify_hold_block = verify_hold_block;
    stop_data_plane = stop_data_plane;
    start_data_plane = start_data_plane;
    activate_network = activate_network;
    update_split = update_split;
    verify_connection = verify_connection;
    remove_hold_block = remove_hold_block;
  }
