-- ===== src/Controller.antt =====
-- daemon/src/controller.rs: the commands of the daemon, over the manager of the connection, the log and
-- the file of the state. The locks are left out: a command is one step.
pub mod Saved
mod Tests
use varmlen_client_linux.Base.{
  ℕ, Option, none, some, Result, ok, err, Done, Eff, Bool, true, false, not, map_err, if◌then◌else◌,
  is_err, ◌&&◌, ◌==◌, ◌>>=◌, ◌>>◌, pure, gets,
}
use varmlen_client_linux.Base.Text.{Str, str, str_eq}
use varmlen_client_linux.Protocol.{
  DaemonCommand, status, connect, disconnect, update_split, tcp_ping, proxy_ping, log_tail,
  clear_log, DaemonState, DaemonError, TcpPingRequest, ProxyPingRequest, ConnectionPhase,
  disconnected, preparing, connected, blocking, reconnecting, recovery_required, internal,
}
use varmlen_client_linux.Protocol.Frames.{Serde}
use varmlen_client_linux.Lifecycle.{LifecycleManager, mark_recovery_required}
use varmlen_client_linux.Lifecycle
use varmlen_client_linux.Files.{Files, IoError}
use varmlen_client_linux.State.{PersistedState}
use varmlen_client_linux.State
use varmlen_client_linux.LogStore.{max_log_tail_bytes}
use varmlen_client_linux.LogStore
use varmlen_client_linux.System.Host.{Env, System, failure}
use varmlen_client_linux.System.Backend.{system_backend}

-- The fields of `SystemController` that do not change, and the two kinds of ping.
pub record Services (W : Type 0) : Type 0 where
  pub files : Files W
  pub serde : Serde PersistedState
  pub owner_uid : ℕ
  pub state_path : Str
  pub log_path : Str
  pub show_error : IoError → Str
  pub run_tcp_ping : TcpPingRequest → Eff W DaemonError ℕ
  pub run_proxy_ping : ℕ → ProxyPingRequest → Eff W DaemonError ℕ

abbrev phase_number : ConnectionPhase → ℕ
phase_number disconnected = 0
phase_number preparing = 1
phase_number connected = 2
phase_number blocking = 3
phase_number reconnecting = 4
phase_number recovery_required = 5

abbrev same_bool : Bool → Bool → Bool
same_bool a b = if a then b else not b

abbrev same_number : Option ℕ → Option ℕ → Bool
same_number none none = true
same_number (some m) (some n) = m == n
same_number _ _ = false

abbrev same_text : Option Str → Option Str → Bool
same_text none none = true
same_text (some s) (some t) = str_eq s t
same_text _ _ = false

-- The derived `PartialEq` of `DaemonState`.
unfoldable pub same_state : DaemonState → DaemonState → Bool
same_state a b =
    phase_number a.phase == phase_number b.phase
    && same_bool a.split_active b.split_active
    && same_bool a.dns_protected b.dns_protected
    && same_number a.rtt_ms b.rtt_ms
    && same_text a.log_tail b.log_tail

module _ {S W : Type 0} (env : Env S W) (services : Services W) where
  abbrev pub Manager : Type 0
  Manager = LifecycleManager (System S W)

  -- A call that needs only the operating system.
  abbrev pub outside : {E A : Type 0} → (E → DaemonError) → Eff W E A → Eff Manager DaemonError A
  outside f op m =
      let (result, world) = op m.backend.world in
      (map_err f result, record m { backend = record m.backend { world = world } })

  abbrev pub persisted : Manager → PersistedState
  persisted m = record (State.new services.owner_uid m.state.phase) {
    xray = m.backend.xray_identity;
  }

  abbrev pub persist_failure : IoError → DaemonError
  persist_failure error =
      failure internal (str "could not persist daemon recovery state: ") (services.show_error error)

  unfoldable pub persist : Eff Manager DaemonError Done
  persist m =
      let (result, m') =
        outside persist_failure
          (State.write services.files services.serde services.state_path (persisted m)) m in
      (result, if is_err result then mark_recovery_required m' else m')

  -- `self.persist(&mut manager)?; result`
  abbrev pub then_persist :
      Eff Manager DaemonError DaemonState → Eff Manager DaemonError DaemonState
  then_persist op m =
      let (result, m') = op m in
      let steps : Eff Manager DaemonError DaemonState = do persist; λ m''. (result, m'')
      in steps m'

  with_log : Str → DaemonState → DaemonState
  with_log text state = record state { log_tail = some text }

  with_rtt : ℕ → DaemonState → DaemonState
  with_rtt rtt state = record state { rtt_ms = some rtt }

  unfoldable pub handle : DaemonCommand → Eff Manager DaemonError DaemonState
  unfolding with_log with_rtt
  handle log_tail = do
    text ←
        outside (λ e. failure internal (str "could not read Xray log: ") (services.show_error e))
          (LogStore.tail services.files services.log_path max_log_tail_bytes)
    gets (λ m. with_log text m.state)
  handle clear_log = do
    outside (λ e. failure internal (str "could not clear Xray log: ") (services.show_error e))
        (LogStore.clear services.files services.log_path)
    gets (λ m. m.state)
  handle (tcp_ping request) = do
    rtt ← outside (λ e. e) (services.run_tcp_ping request)
    gets (λ m. with_rtt rtt m.state)
  handle (proxy_ping request) = do
    rtt ← outside (λ e. e) (services.run_proxy_ping services.owner_uid request)
    gets (λ m. with_rtt rtt m.state)
  handle status = then_persist (Lifecycle.reconcile_health (system_backend env))
  handle (connect request) = then_persist (Lifecycle.connect (system_backend env) request)
  handle disconnect = then_persist (Lifecycle.disconnect (system_backend env))
  handle (update_split applications) =
      then_persist (Lifecycle.update_split (system_backend env) applications)

  unfoldable pub poll_health : Eff Manager DaemonError DaemonState
  poll_health m =
      let (result, m') = Lifecycle.reconcile_health (system_backend env) m in
      let steps : Eff Manager DaemonError DaemonState = do persist; λ m''. (result, m'')
      in if not (same_state m'.state m.state) then steps m' else (result, m')
