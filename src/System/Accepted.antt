-- ===== src/System/Accepted.antt =====
-- Which documents a connect over the backend of the system has accepted (daemon/src/system.rs,
-- `validate`, and daemon/src/lifecycle.rs, `connect`).
use varmlen_client_linux.Base.{ℕ, List, ok, ◌≡◌, arith, Result-cases, inl, inr}
use varmlen_client_linux.Protocol.{ConnectRequest, DaemonState}
use varmlen_client_linux.Lifecycle.{LifecycleManager, connect, is_tun}
use varmlen_client_linux.Lifecycle.Commits.{connect_validates}
use varmlen_client_linux.Document.Json.{Value, Parser}
use varmlen_client_linux.Document.Permitted.{IsPermitted, validate_xray_document-IsPermitted}
use varmlen_client_linux.Document.Measured.{IsMeasured, validate_ping_xray_document-IsMeasured}
use varmlen_client_linux.Document.Ports.{validation_config_ports}
use varmlen_client_linux.Document.Checks.{validate_xray_document}
use varmlen_client_linux.Document.Ping.{validate_ping_xray_document}
use varmlen_client_linux.System.Host.{Env, System}
use varmlen_client_linux.System.Backend.{system_backend, validate}
use varmlen_client_linux.System.Trust.{Machine}
use varmlen_client_linux.System.Probe.{documents}

module _ {S W : Type 0} (env : Env S W) (machine : Machine W) (parser : Parser) where
  -- The backend with the checks of the daemon.
  abbrev pub checked : Env S W
  checked = record env { documents = documents env.host machine env.paths parser }

  validate_checks :
      (request : ConnectRequest) (s : System S W)
      → (validate checked request s).0 ≡ ok tt
      → (validate_xray_document parser request.xray_config (is_tun request.mode) ≡ ok tt)
        × ((ports : List ℕ) × (validation_config_ports parser request.validation_config ≡ ok ports)
            × (validate_ping_xray_document parser request.validation_config ports ≡ ok tt))
  unfolding validate documents
  validate_checks request s h =
      elim (Result-cases (validation_config_ports parser request.validation_config)) [
        | inl (ports, e) ↦ (ground arith, (ports, e, ground arith))
        | inr (error, e) ↦ absurd (ground arith)
      ]

  -- A connect that returns a state has accepted its two documents: the configuration of Xray parses to
  -- one that is permitted for the mode, and the validation document to one that is measured on the
  -- ports that it names.
  pub connect-IsPermitted :
      (request : ConnectRequest) (m : LifecycleManager (System S W)) {state : DaemonState}
      → (connect (system_backend checked) request m).0 ≡ ok state
      → ((document : Value) × (parser.from_str request.xray_config ≡ ok document)
          × IsPermitted (is_tun request.mode) document)
        × ((ports : List ℕ) × (document : Value) × (validation_config_ports parser
                request.validation_config
              ≡ ok ports)
            × (parser.from_str request.validation_config ≡ ok document)
            × IsMeasured ports document)
  connect-IsPermitted request m h =
      let (permitted, (ports, read, measured)) =
        validate_checks request m.backend
          (connect_validates (system_backend checked) request m h) in
      let (document, parsed, good) =
        validate_ping_xray_document-IsMeasured parser request.validation_config ports measured in
      (
        validate_xray_document-IsPermitted parser request.xray_config (is_tun request.mode)
            permitted,
        (ports, document, read, parsed, good),
      )
