-- ===== src/System/Probe.antt =====
-- daemon/src/system.rs: `run_xray_validation` and `run_validation_egress_probe`, and with them and the checks of `Document` the `Documents` that the backend of the system uses.
use varmlen_client_linux.Base.{
  ℕ, String, zero, suc, Bool, true, not, ◌&&◌, List, [], ◌∷◌, ◌++◌, Option, none, some, Result, ok,
  err, Done, Eff, map_err, on_err, pure, throw, lift_result, ◌>>=◌, ◌>>◌, if◌then◌else◌, length,
  is_ok,
}
use varmlen_client_linux.Base.Text.{Str, str}
use varmlen_client_linux.Protocol.{DaemonError, daemon_error, xray_validation_failed, internal}
use varmlen_client_linux.Document.Json.{Parser}
use varmlen_client_linux.Document.Checks.{validate_xray_document}
use varmlen_client_linux.Document.Ping.{validate_ping_xray_document}
use varmlen_client_linux.Document.Ports.{
  validation_config_ports, validation_config_with_ports, tun_devices_already_live,
}
use varmlen_client_linux.System.Host.{Host, Output, Paths, Documents, failure}
use varmlen_client_linux.System.Parts.{internal_io, private_steps}
use varmlen_client_linux.System.Trust.{Machine, ensure_trusted_binary}
use varmlen_client_linux.System.Detail.{validation_failure_detail}

-- The call of the operating system, with the error of the daemon.
abbrev or_fail : {W A : Type 0} → String → Eff W Str A → Eff W DaemonError A
or_fail text op w =
    let (result, w') = op w in (map_err (failure xray_validation_failed (str text)) result, w')

-- A panic ends the request; it is shown as an error that the daemon has not.
abbrev or_panic : {A : Type 0} → Option (Result DaemonError A) → Result DaemonError A
or_panic none = err (daemon_error internal "panic")
or_panic (some r) = r

module _ {W : Type 0} (host : Host W) (machine : Machine W) (paths : Paths) (parser : Parser) where
  described : Option Str → Result DaemonError Done
  described none = or_panic none
  described (some detail) =
      err
        (failure xray_validation_failed (str "Xray rejected the generated configuration: ") detail)

  accepted : Output → Result DaemonError Done
  unfolding described
  accepted output =
      if output.success
      then ok tt
      else described (validation_failure_detail output.stdout output.stderr)

  unfoldable pub run_xray_validation : Str → Eff W DaemonError Done
  unfolding accepted
  run_xray_validation path = do
    output ←
        or_fail "could not start Xray validation: "
          (host.run paths.xray (str "run" ∷ str "-test" ∷ str "-c" ∷ path ∷ []))
    lift_result (accepted output)

  -- Those that are bound before a failure are dropped.
  unfoldable pub reserve : ℕ → List ℕ → Eff W Str (List ℕ)
  reserve zero held = pure held
  reserve (suc n) held = do
    listener ← on_err machine.bind (machine.release held)
    reserve n (held ++ listener ∷ [])

  unfoldable pub local_ports : List ℕ → Eff W DaemonError (List ℕ)
  local_ports [] = pure []
  local_ports (listener ∷ listeners) = do
    port ←
        λ w. (map_err (internal_io (str "read validation port")) (machine.local_port listener w), w)
    ports ← local_ports listeners
    pure (port ∷ ports)

  abbrev validation_path : Str
  validation_path = paths.runtime_dir ++ str "/xray-validation.json"

  -- The candidate on the reserved ports, checked, written down and tested.
  unfoldable pub prepare : Str → List ℕ → Eff W DaemonError (List ℕ)
  unfolding run_xray_validation local_ports
  prepare config listeners = do
    ports ← local_ports listeners
    text ← lift_result (or_panic (validation_config_with_ports parser config ports))
    lift_result (validate_ping_xray_document parser text ports)
    λ w.
        let (result, w') = private_steps host validation_path text w in
        (map_err (internal_io (str "write private Xray configuration")) result, w')
    run_xray_validation validation_path
    pure ports

  -- The listeners are dropped behind the preparation, whether or not it failed.
  unfoldable pub prepare_reserved : Str → ℕ → Eff W DaemonError (List ℕ)
  unfolding reserve prepare
  prepare_reserved config count = do
    listeners ← or_fail "could not reserve validation ports: " (reserve count [])
    λ w. let (result, w') = prepare config listeners w in (result, machine.release listeners w')

  -- Every port is tried, also behind one that is not ready.
  unfoldable pub all_connect : List ℕ → W → Bool × W
  all_connect [] w = (true, w)
  all_connect (port ∷ ports) w =
      let (ready, w1) = host.connects port w in
      let (rest, w2) = all_connect ports w1 in (ready && rest, w2)

  unfoldable pub all_probed : List ℕ → W → Bool × W
  all_probed [] w = (true, w)
  all_probed (port ∷ ports) w =
      let (result, w1) = machine.probe_http_port port w in
      let (rest, w2) = all_probed ports w1 in (is_ok result && rest, w2)

  abbrev timed_out : DaemonError
  timed_out = daemon_error xray_validation_failed "candidate remote egress validation timed out"

  -- The end of the probes, which the timer may have cut off.
  probed : List ℕ → Eff W DaemonError Done
  unfolding all_probed
  probed ports w =
      let (fine, w1) = all_probed ports w in
      let (over, w2) = machine.is_over w1 in
      (
        if over
            then err timed_out
            else if fine
            then ok tt
            else err (
                daemon_error xray_validation_failed
                  "candidate's effective route has no verified remote egress"),
        w2,
      )

  -- A round sleeps 50 ms, so 240 of them outlast the twelve seconds of the timer.
  unfoldable pub egress_rounds : ℕ → ℕ → List ℕ → Eff W DaemonError Done
  unfolding all_connect probed
  egress_rounds zero child ports w = (err timed_out, w)
  egress_rounds (suc rounds) child ports w =
      let (over, w1) = machine.is_over w in
      let (running, w2) = host.is_running child w1 in
      let (ready, w3) = all_connect ports w2 in
      let rest = egress_rounds rounds child ports (host.sleep 50 w3) in
      if over
      then (err timed_out, w1)
      else if not running
      then (
        err (
            daemon_error xray_validation_failed
              "validation Xray exited before its proxy became ready"),
        w2,
      )
      else if ready
      then probed ports w3
      else rest

  -- `child.kill()` and `child.wait()`, whose errors are dropped.
  abbrev reap : ℕ → W → W
  reap child w = host.wait child (host.kill child w).1

  unfoldable pub attempt : List ℕ → Eff W DaemonError (Result DaemonError Done)
  unfolding egress_rounds
  attempt ports = do
    child ←
        or_fail "could not start Xray egress validation: "
          (host.spawn paths.xray (str "run" ∷ str "-c" ∷ validation_path ∷ []))
    λ w.
        let (result, w') = egress_rounds 240 child ports (machine.start_timer 12000 w) in
        (ok result, reap child w')

  -- The attempts that are left, and the error of the last one.
  unfoldable pub attempts : ℕ → DaemonError → Str → ℕ → Eff W DaemonError Done
  unfolding prepare_reserved attempt
  attempts zero last_error config count = throw last_error
  attempts (suc left) last_error config count = do
    ports ← prepare_reserved config count
    result ← attempt ports
    elim result [ ok _ ↦ pure tt | err error ↦ attempts left error config count ]

  unfoldable pub run_validation_egress_probe : Str → Eff W DaemonError Done
  unfolding attempts
  run_validation_egress_probe config = do
    template_ports ← lift_result (validation_config_ports parser config)
    attempts 4 (daemon_error xray_validation_failed "candidate remote egress validation failed")
        config (length template_ports)

  unfoldable pub documents : Documents W
  unfolding ensure_trusted_binary run_xray_validation run_validation_egress_probe
  documents = record {
    ensure_trusted_binary = ensure_trusted_binary machine;
    validate_xray_document = validate_xray_document parser;
    validation_config_ports = validation_config_ports parser;
    validate_ping_xray_document = validate_ping_xray_document parser;
    tun_devices_already_live = λ raw w.
        tun_devices_already_live parser (λ name. host.exists (str "/sys/class/net/" ++ name) w) raw;
    run_xray_validation = run_xray_validation;
    run_validation_egress_probe = run_validation_egress_probe;
  }
