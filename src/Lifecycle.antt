-- ===== src/Lifecycle.antt =====
-- daemon/src/lifecycle.rs: the state machine that owns the tunnel, over any `LifecycleBackend`. An
-- asynchronous method is a function that returns its result beside the new state of its object.
pub mod Trace
pub mod Outcomes
pub mod Stages
pub mod Phases
pub mod Runs
pub mod Commits
mod Tests
use varmlen_client_linux.Base.{
  Bool, true, false, not, ◌&&◌, ◌||◌, List, Option, none, Result, ok, err, Done, is_ok, is_err, Eff,
  pure, gets, throw, on_err, modify, ◌>>=◌, ◌>>◌, if◌then◌else◌, is_empty,
}
use varmlen_client_linux.Base.Text.{Str}
use varmlen_client_linux.Protocol.{
  ConnectionMode, tun, proxy, ConnectRequest, ConnectionPhase, disconnected, preparing, connected,
  blocking, reconnecting, recovery_required, DaemonState, DaemonError, daemon_error,
  invalid_request, tunnel_cleanup_failed,
}

-- The trait, its implementer's state being `B`.
pub record LifecycleBackend (B : Type 0) : Type 0 where
  pub data_plane_alive : B → Bool × B
  pub validate : ConnectRequest → Eff B DaemonError Done
  pub install_hold_block : ConnectRequest → Eff B DaemonError Done
  pub verify_hold_block : Eff B DaemonError Done
  pub stop_data_plane : (preserve_split : Bool) → Eff B DaemonError Done
  pub start_data_plane : ConnectRequest → Eff B DaemonError Done
  pub activate_network : ConnectRequest → Eff B DaemonError Done
  pub update_split : List Str → Eff B DaemonError Bool
  pub verify_connection : ConnectRequest → Eff B DaemonError Done
  pub remove_hold_block : Eff B DaemonError Done

pub record LifecycleManager (B : Type 0) : Type 0 where
  pub backend : B
  pub state : DaemonState
  pub block_on_failure : Bool

abbrev pub is_connected : ConnectionPhase → Bool
is_connected connected = true
is_connected _ = false

abbrev pub is_tun : ConnectionMode → Bool
is_tun tun = true
is_tun proxy = false

-- The phase that a refused connect goes back to.
abbrev pub prior : Bool → ConnectionPhase
prior was_connected = if was_connected then connected else disconnected

-- A state with no tunnel to report on.
abbrev pub bare : ConnectionPhase → DaemonState
bare phase = record {
  phase = phase;
  split_active = false;
  dns_protected = false;
  rtt_ms = none;
  log_tail = none;
}

module _ {B : Type 0} where
  unfoldable pub new : B → ConnectionPhase → LifecycleManager B
  new backend phase = record { backend = backend; state = bare phase; block_on_failure = false }

  abbrev pub set_phase : ConnectionPhase → LifecycleManager B → LifecycleManager B
  set_phase phase m = record m { state = record m.state { phase = phase } }

  unfoldable pub mark_recovery_required : LifecycleManager B → LifecycleManager B
  mark_recovery_required m = record m {
    state = record m.state {
      phase = recovery_required;
      split_active = false;
      dns_protected = false;
    };
  }

  -- A call of the backend.
  abbrev pub call : {A : Type 0} → Eff B DaemonError A → Eff (LifecycleManager B) DaemonError A
  call op m = let (result, backend) = op m.backend in (result, record m { backend = backend })

  abbrev begin : Bool → LifecycleManager B → LifecycleManager B
  begin was_connected m = record m {
    state = record m.state {
      phase = if was_connected then reconnecting else preparing;
      split_active = false;
      dns_protected = false;
    };
  }

  commit : Bool → ConnectRequest → Eff (LifecycleManager B) DaemonError DaemonState
  commit guarded request m =
      let state : DaemonState = record (bare connected) {
        split_active = not (is_empty request.excluded_apps);
        dns_protected = guarded;
      } in
      (ok state, record m { state = state; block_on_failure = guarded && request.killswitch })

module _ {B : Type 0} (ops : LifecycleBackend B) where
  -- The check of the hold block failed: it is taken away, and the phase says whether that worked.
  drop_unverified : Bool → LifecycleManager B → LifecycleManager B
  drop_unverified was_connected m =
      let (removed, m') = call ops.remove_hold_block m in
      set_phase (if is_ok removed then prior was_connected else recovery_required) m'

  hold_network : Bool → ConnectRequest → Eff (LifecycleManager B) DaemonError Done
  unfolding drop_unverified
  hold_network was_connected request = do
    on_err (call (ops.install_hold_block request)) (set_phase (prior was_connected))
    on_err (call ops.verify_hold_block) (drop_unverified was_connected)
    modify (set_phase blocking)

  stop_old : Bool → Eff (LifecycleManager B) DaemonError Done
  stop_old guarded =
      on_err (call (ops.stop_data_plane true))
        (set_phase (if guarded then blocking else recovery_required))

  bring_up : ConnectRequest → Eff (LifecycleManager B) DaemonError Done
  bring_up request = do
    call (ops.start_data_plane request)
    call (ops.activate_network request)
    call (ops.verify_connection request)

  abbrev release : Bool → LifecycleManager B → LifecycleManager B
  release guarded m = if guarded then (call ops.remove_hold_block m).1 else m

  -- The tunnel did not come up.
  clean_up : (was_connected guarded killswitch : Bool) → LifecycleManager B → LifecycleManager B
  clean_up was_connected guarded killswitch m =
      let (stopped, m') = call (ops.stop_data_plane false) m in
      if is_err stopped
      then set_phase recovery_required m'
      else if guarded && (was_connected || killswitch)
      then set_phase blocking m'
      else set_phase disconnected (release guarded m')

  -- The rest of a connect after each of its stages, from the last one back.
  finish : Bool → ConnectRequest → Eff (LifecycleManager B) DaemonError DaemonState
  unfolding commit
  finish guarded request = do
    if guarded && not request.killswitch
        then on_err (call ops.remove_hold_block) (set_phase recovery_required)
        else pure tt
    commit guarded request

  establish :
      (was_connected guarded : Bool)
      → ConnectRequest
      → Eff (LifecycleManager B) DaemonError DaemonState
  unfolding bring_up clean_up finish
  establish was_connected guarded request = do
    on_err (bring_up request) (clean_up was_connected guarded request.killswitch)
    finish guarded request

  replace :
      (was_connected guarded : Bool)
      → ConnectRequest
      → Eff (LifecycleManager B) DaemonError DaemonState
  unfolding stop_old establish
  replace was_connected guarded request = do
    if was_connected then stop_old guarded else pure tt
    establish was_connected guarded request

  protect :
      (was_connected guarded : Bool)
      → ConnectRequest
      → Eff (LifecycleManager B) DaemonError DaemonState
  unfolding hold_network replace
  protect was_connected guarded request = do
    if guarded then hold_network was_connected request else pure tt
    replace was_connected guarded request

  unfoldable pub connect : ConnectRequest → Eff (LifecycleManager B) DaemonError DaemonState
  unfolding protect
  connect request m =
      let was_connected = is_connected m.state.phase in
      let steps : Eff (LifecycleManager B) DaemonError DaemonState = do
        on_err (call (ops.validate request)) (set_phase (prior was_connected))
        protect was_connected (is_tun request.mode) request
      in steps (begin was_connected m)

  unfoldable pub update_split : List Str → Eff (LifecycleManager B) DaemonError DaemonState
  update_split applications m =
      let steps : Eff (LifecycleManager B) DaemonError DaemonState = do
        split_active ← call (ops.update_split applications)
        modify λ m. record m { state = record m.state { split_active = split_active } }
        gets (λ m. m.state)
      in if is_connected m.state.phase
        then steps m
        else (err (daemon_error invalid_request "the tunnel is not connected"), m)

  unfoldable pub disconnect : Eff (LifecycleManager B) DaemonError DaemonState
  disconnect m =
      let (data_plane, m1) = call (ops.stop_data_plane false) m in
      let (hold_block, m2) = call ops.remove_hold_block m1 in
      if is_err data_plane || is_err hold_block
      then (
        err (daemon_error tunnel_cleanup_failed "VPN cleanup did not reach a verified empty state"),
        set_phase recovery_required m2,
      )
      else (
        ok (bare disconnected),
        record m2 { state = bare disconnected; block_on_failure = false },
      )

  abbrev after_exit : Bool → ConnectionPhase
  after_exit block_on_failure = if block_on_failure then blocking else disconnected

  -- `||` asks the backend only when the phase is `connected`.
  unfoldable pub reconcile_health : Eff (LifecycleManager B) DaemonError DaemonState
  unfolding mark_recovery_required
  reconcile_health m =
      let (alive, backend) = ops.data_plane_alive m.backend in
      let m1 = record m { backend = backend } in
      let (cleanup, m2) = call (ops.stop_data_plane false) m1 in
      let state = bare (after_exit m.block_on_failure) in
      if is_connected m.state.phase
      then if alive
        then (ok m.state, m1)
        else if is_err cleanup
        then (
          err (
              daemon_error tunnel_cleanup_failed
                "Xray exited and stale network state could not be removed"),
          mark_recovery_required m2,
        )
        else (ok state, record m2 { state = state })
      else (ok m.state, m)
