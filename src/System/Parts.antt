-- ===== src/System/Parts.antt =====
-- daemon/src/system.rs, the private methods of `SystemLifecycleBackend`.
use varmlen_client_linux.Base.{
  ℕ, zero, suc, Bool, false, List, [], ◌∷◌, ◌++◌, map, Option, none, some, Result, ok, err, Done,
  Eff, map_err, on_err, ◌>>=◌, ◌>>◌, if◌then◌else◌, modify,
}
use varmlen_client_linux.Base.Text.{Str, str, trim}
use varmlen_client_linux.Protocol.{
  ConnectionMode, tun, proxy, ConnectRequest, DaemonError, daemon_error, tunnel_commit_failed,
  tunnel_cleanup_failed, xray_start_failed, split_unavailable, internal,
}
use varmlen_client_linux.Split.{SplitManager, SplitError}
use varmlen_client_linux.Split
use varmlen_client_linux.System.Host.{
  Host, Output, Env, System, on_host, on_host_or, touch, failure,
}

abbrev pub internal_io : Str → Str → DaemonError
internal_io context error = failure internal (context ++ str ": ") error

-- A file that is there with its whole content or not at all.
unfoldable pub private_steps : {W : Type 0} → Host W → Str → Str → Eff W Str Done
private_steps host path content =
    let temporary = host.temporary path in
    on_err (do host.create_private temporary content; host.rename temporary path)
      (host.remove_file temporary)

unfoldable pub server_arguments : List Str → List Str
server_arguments [] = []
server_arguments (address ∷ rest) = str "--server" ∷ address ∷ server_arguments rest

module _ {S W : Type 0} (env : Env S W) where
  unfoldable pub child_is_running : System S W → Bool × System S W
  child_is_running s = elim s.xray [
    | none ↦ (false, s)
    | some child ↦
        let (running, world) = env.host.is_running child s.world in
        (running, record s { world = world })
  ]

  abbrev pub config_path : Str
  config_path = env.paths.runtime_dir ++ str "/xray.json"

  abbrev pub validation_path : Str
  validation_path = env.paths.runtime_dir ++ str "/xray-validation.json"

  unfoldable pub prepare_runtime_dir : Eff (System S W) DaemonError Done
  prepare_runtime_dir = do
    on_host_or (internal_io (str "create runtime directory"))
        (env.host.create_dir_all env.paths.runtime_dir)
    on_host_or (internal_io (str "secure runtime directory"))
        (env.host.make_private env.paths.runtime_dir)

  unfoldable pub write_private : Str → Str → Eff (System S W) DaemonError Done
  unfolding private_steps
  write_private path content =
      on_host_or (internal_io (str "write private Xray configuration"))
        (private_steps env.host path content)

  unfoldable pub helper_result : Output → Result DaemonError Done
  helper_result output =
      if output.success
      then ok tt
      else err (failure tunnel_commit_failed (str "network setup failed: ") (trim output.stderr))

  unfoldable pub run_net_helper : List Str → Eff (System S W) DaemonError Done
  unfolding helper_result
  run_net_helper arguments = do
    output ←
        on_host_or (failure tunnel_commit_failed (str "could not start installed network helper: "))
          (env.host.run env.paths.net_helper arguments)
    λ s. (helper_result output, s)

  unfoldable pub route_up : ConnectRequest → Eff (System S W) DaemonError Done
  unfolding run_net_helper server_arguments
  route_up request =
      run_net_helper (str "route-up" ∷ server_arguments (map env.host.show_ip request.server_ips))

  unfoldable pub route_down : Eff (System S W) DaemonError Done
  unfolding run_net_helper
  route_down = run_net_helper (str "route-down" ∷ [])

  signal : Option ℕ → ℕ → W → W
  signal none child world = world
  signal (some pid) child world = env.host.terminate child world

  -- The child is out of `self.xray` from here on, whether or not it can be killed.
  end_child : ℕ → Eff (System S W) DaemonError Done
  unfolding signal
  end_child child s =
      let s1 = touch (signal (env.host.child_id child s.world) child) s in
      let (ended, world) = env.host.ends_within child 3000 s1.world in
      let s2 = record s1 { world = world } in
      let steps : Eff (System S W) DaemonError Done = do
        on_host_or (failure tunnel_cleanup_failed (str "could not terminate Xray: "))
            (env.host.kill child)
        modify (touch (env.host.wait child))
      in if ended then (ok tt, s2) else steps s2

  terminate_child : Option ℕ → Eff (System S W) DaemonError Done
  unfolding end_child
  terminate_child none s = (ok tt, record s { xray_identity = none })
  terminate_child (some child) s =
      let steps : Eff (System S W) DaemonError Done = do
        end_child child
        modify (λ s'. record s' { xray_identity = none })
      in steps (record s { xray = none })

  unfoldable pub terminate_xray : Eff (System S W) DaemonError Done
  unfolding terminate_child
  terminate_xray s = terminate_child s.xray s

  unfoldable pub is_ready : ConnectionMode → W → Bool × W
  is_ready tun world = (env.host.exists (str "/sys/class/net/varmlen0") world, world)
  is_ready proxy world = env.host.connects 2081 world

  -- The rounds that are left of the loop.
  unfoldable pub wait_rounds : ℕ → ConnectionMode → Eff (System S W) DaemonError Done
  unfolding child_is_running is_ready
  wait_rounds zero mode s = (err (daemon_error xray_start_failed "timed out waiting for Xray"), s)
  wait_rounds (suc rounds) mode s =
      let (running, s1) = child_is_running s in
      let (ready, world) = is_ready mode s1.world in
      let s2 = record s1 { world = world } in
      let rest = wait_rounds rounds mode (touch (env.host.sleep 100) s2) in
      if running then if ready then (ok tt, s2) else rest else (
        err (daemon_error xray_start_failed "Xray exited before the data plane became ready"),
        s1,
      )

  unfoldable pub wait_until_ready : ConnectionMode → Eff (System S W) DaemonError Done
  unfolding wait_rounds
  wait_until_ready mode = wait_rounds 50 mode

  unfoldable pub remove_dns : Eff (System S W) DaemonError Done
  remove_dns s =
      let steps : Eff (System S W) DaemonError Done = do
        on_host env.dns.remove
        modify (λ s'. record s' { dns_active = false })
      in if s.dns_active then steps s else (ok tt, s)

  abbrev pub split_failure : SplitError → DaemonError
  split_failure error =
      failure split_unavailable (str "per-app split tunnelling is unavailable: ")
        (env.host.show_split_error error)

  -- A call of the manager of a split, which acts on the split's own state and on the host's.
  abbrev pub on_split :
      {A : Type 0}
      → Eff (SplitManager (S × W)) SplitError A
      → (SplitError → DaemonError)
      → SplitManager S
      → W
      → Result DaemonError A × SplitManager S × W
  on_split op f m world =
      let (result, m') = op (record { backend = (m.backend, world); status = m.status }) in
      (map_err f result, record { backend = m'.backend.0; status = m'.status }, m'.backend.1)

  kept_split : Result DaemonError Done → List Str → SplitManager S → System S W → System S W
  kept_split (ok _) applications m s = record s { split = some m; split_apps = applications }
  kept_split (err _) applications m s = s

  unfoldable pub apply_split : List Str → Eff (System S W) DaemonError Done
  unfolding kept_split
  apply_split applications s =
      let (result, m, world) =
        on_split
          (Split.apply env.split
            (record { uid = env.paths.owner_uid; applications = applications }))
          split_failure (Split.new env.new_split) s.world in
      (result, kept_split result applications m (record s { world = world }))

  drop_split : Option (SplitManager S) → Eff (System S W) DaemonError Done
  drop_split none s = (ok tt, record s { split_apps = [] })
  drop_split (some m) s =
      let (result, _, world) =
        on_split (Split.call env.split.rollback)
          (λ error.
            failure tunnel_cleanup_failed (str "split-tunnel cleanup failed: ")
              (env.host.show_split_error error))
          m s.world in
      (result, record s { world = world; split = none; split_apps = [] })

  unfoldable pub remove_split : Eff (System S W) DaemonError Done
  unfolding drop_split
  remove_split s = drop_split s.split s
