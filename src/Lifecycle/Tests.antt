-- ===== src/Lifecycle/Tests.antt =====
-- Runs of the manager of daemon/src/lifecycle.rs over a backend with given outcomes.
use varmlen_client_linux.Base.{
  Bool, true, false, List, [], ◌∷◌, ok, err, Done, Eff, ◌≡◌, ◌⊎◌, refl, inl,
}
use varmlen_client_linux.Base.Text.{str}
use varmlen_client_linux.Protocol.{
  tun, v4, ConnectRequest, DaemonError, daemon_error, internal, disconnected, connected, blocking,
  recovery_required,
}
use varmlen_client_linux.Lifecycle.{
  LifecycleBackend, LifecycleManager, bare, new, connect, reconcile_health,
}
use varmlen_client_linux.Lifecycle.Trace.{
  Recorded, recorded, trace_of, held, StopsHeld, plane_actions, connect_steps, succeed, verify_hold,
}
use varmlen_client_linux.Lifecycle.Phases.{connect_calls, connect-StopsHeld, connect_fails_closed}
use varmlen_client_linux.Lifecycle.Runs.{
  IsSound, Reach, Reach-IsSound, reconcile_health-connect_lapses,
}
use varmlen_client_linux.Lifecycle.Runs

abbrev fault : DaemonError
fault = daemon_error internal "fault"

abbrev turn : Eff (List Bool) DaemonError Done
turn [] = (ok tt, [])
turn (true ∷ later) = (ok tt, later)
turn (false ∷ later) = (err fault, later)

-- Each call takes its outcome from a list, and succeeds at its end. The data plane is dead.
abbrev scripted : LifecycleBackend (List Bool)
scripted = record {
  data_plane_alive = λ b. (false, b);
  validate = λ _. turn;
  install_hold_block = λ _. turn;
  verify_hold_block = turn;
  stop_data_plane = λ _. turn;
  start_data_plane = λ _. turn;
  activate_network = λ _. turn;
  update_split = λ _ b. (ok true, b);
  verify_connection = λ _. turn;
  remove_hold_block = turn;
}

abbrev request : ConnectRequest
request = record {
  mode = tun;
  xray_config = str "{}";
  validation_config = str "{}";
  server_ips = v4 1 ∷ [];
  excluded_apps = str "/usr/bin/ssh" ∷ [];
  killswitch = true;
  allow_lan = false;
}

abbrev fresh : List Bool → LifecycleManager (Recorded (List Bool))
fresh outcomes = new (record { inner = outcomes; trace = [] }) disconnected

-- The start of the data plane fails.
abbrev start_fails : List Bool
start_fails = true ∷ true ∷ true ∷ false ∷ []

abbrev failed_run : LifecycleManager (Recorded (List Bool))
failed_run = (connect (recorded scripted) request (fresh start_fails)).1

failed : (connect (recorded scripted) request (fresh start_fails)).0 ≡ err fault
unfolding connect new
failed = refl

returned :
    (connect (recorded scripted) request (fresh [])).0
    ≡ ok (record (bare connected) { split_active = true; dns_protected = true })
unfolding connect new
returned = refl

connect_fails_closed_example :
    (plane_actions (trace_of failed_run) ≡ plane_actions (trace_of (fresh start_fails)))
    ⊎ ((failed_run.state.phase ≡ blocking) × (held (trace_of failed_run) ≡ true))
    ⊎ (failed_run.state.phase ≡ recovery_required)
connect_fails_closed_example =
    connect_fails_closed scripted request (fresh start_fails) refl refl failed

fresh-StopsHeld : (outcomes : List Bool) → StopsHeld (trace_of (fresh outcomes))
unfolding new
fresh-StopsHeld outcomes = tt

connect-StopsHeld_example : StopsHeld (trace_of failed_run)
connect-StopsHeld_example =
    connect-StopsHeld scripted request (fresh start_fails) refl (fresh-StopsHeld start_fails)

connect_calls_example :
    trace_of (connect (recorded scripted) request (fresh [])).1
    ≡ succeed (connect_steps false true true) (trace_of (fresh []))
unfolding new
connect_calls_example = connect_calls scripted request (fresh []) returned

abbrev polled_run : LifecycleManager (Recorded (List Bool))
polled_run =
    (reconcile_health (recorded scripted) (connect (recorded scripted) request (fresh [])).1).1

run : Reach scripted (fresh []) polled_run
run =
    Reach.next (Reach.next Reach.here (Runs.Step.connects request (fresh [])))
      (Runs.Step.polls (connect (recorded scripted) request (fresh [])).1)

Reach-IsSound_example : IsSound polled_run
Reach-IsSound_example = Reach-IsSound scripted [] disconnected (inl refl) run

-- A connection with kill switch whose next check of the hold block fails.
abbrev guarded_run : LifecycleManager (Recorded (List Bool))
guarded_run = record {
  backend = record { inner = true ∷ true ∷ false ∷ []; trace = (verify_hold, true) ∷ [] };
  state = bare connected;
  block_on_failure = true;
}

abbrev lapsed_run : LifecycleManager (Recorded (List Bool))
lapsed_run = (connect (recorded scripted) request guarded_run).1

abbrev lost_run : LifecycleManager (Recorded (List Bool))
lost_run = (reconcile_health (recorded scripted) lapsed_run).1

reconcile_health-connect_lapses_example :
    (lost_run.state.phase ≡ blocking ⊎ lost_run.state.phase ≡ recovery_required)
    × (held (trace_of lost_run) ≡ false)
unfolding connect
reconcile_health-connect_lapses_example =
    reconcile_health-connect_lapses scripted request guarded_run refl refl refl refl refl refl
