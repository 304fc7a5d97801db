-- ===== src/Controller/Saved.antt =====
-- daemon/src/controller.rs: what the file of the state says after each command.
use varmlen_client_linux.Base.{ℕ, Result, Bool, true, false, ◌≡◌, ◌≢◌, ◌⊎◌, arith}
use varmlen_client_linux.Base.Text.{Str}
use varmlen_client_linux.Protocol.{
  DaemonCommand, status, connect, disconnect, update_split, tcp_ping, proxy_ping, log_tail,
  clear_log, DaemonState, DaemonError, recovery_required,
}
use varmlen_client_linux.Lifecycle.{mark_recovery_required, reconcile_health}
use varmlen_client_linux.Lifecycle
use varmlen_client_linux.System.Backend.{system_backend}
use varmlen_client_linux.Files.{FileLaws}
use varmlen_client_linux.State.{temporary_path}
use varmlen_client_linux.State.Atomic.{write-Written}
use varmlen_client_linux.System.Host.{Env}
use varmlen_client_linux.Controller.{
  Services, Manager, persisted, persist, same_state, handle, poll_health, then_persist,
}

-- The commands that may change the connection.
abbrev pub governs : DaemonCommand → Bool
governs status = true
governs (connect _) = true
governs disconnect = true
governs (update_split _) = true
governs (tcp_ping _) = false
governs (proxy_ping _) = false
governs log_tail = false
governs clear_log = false

module _ {S W : Type 0} (env : Env S W) (services : Services W)
    (laws : FileLaws services.files services.state_path)
    (apart : (parent : Str) (n : ℕ)
      → temporary_path services.files parent n ≢ services.state_path) where
  -- The file holds the state of the manager, or the manager asks for recovery.
  abbrev pub IsSaved : Manager env services → Type 0
  IsSaved m =
      (laws.contents services.state_path m.backend.world
        ≡ services.serde.to_vec (persisted env services m))
      ⊎ (m.state.phase ≡ recovery_required)

  persist-IsSaved : (m : Manager env services) → IsSaved (persist env services m).1
  unfolding persist mark_recovery_required
  persist-IsSaved m = ground (
    arith,
    write-Written services.files services.serde services.state_path laws (persisted env services m)
        m.backend.world apart,
  )

  then_persist-IsSaved :
      (op : Manager env services → Result DaemonError DaemonState × Manager env services)
      (m : Manager env services)
      → IsSaved (then_persist env services op m).1
  then_persist-IsSaved op m = ground (arith, persist-IsSaved (op m).1)

  -- After a status, connect, disconnect or split command, whatever failed in it, the file of the state
  -- holds the owner, the phase and the Xray process of the manager, or the manager's phase is
  -- `recovery_required`.
  pub handle-IsSaved :
      (command : DaemonCommand) (m : Manager env services)
      → governs command ≡ true
      → IsSaved (handle env services command m).1
  unfolding handle
  handle-IsSaved status m g = then_persist-IsSaved (reconcile_health (system_backend env)) m
  handle-IsSaved (connect request) m g =
      then_persist-IsSaved (Lifecycle.connect (system_backend env) request) m
  handle-IsSaved disconnect m g = then_persist-IsSaved (Lifecycle.disconnect (system_backend env)) m
  handle-IsSaved (update_split applications) m g =
      then_persist-IsSaved (Lifecycle.update_split (system_backend env) applications) m
  handle-IsSaved (tcp_ping request) m g = cc
  handle-IsSaved (proxy_ping request) m g = cc
  handle-IsSaved log_tail m g = cc
  handle-IsSaved clear_log m g = cc

  -- A poll of the health that changes what the manager reports saves the state in the same way.
  pub poll_health-IsSaved :
      (m : Manager env services)
      → same_state (reconcile_health (system_backend env) m).1.state m.state ≡ false
      → IsSaved (poll_health env services m).1
  unfolding poll_health
  poll_health-IsSaved m h =
      ground (arith, persist-IsSaved (reconcile_health (system_backend env) m).1)

module _ {S W : Type 0} (env : Env S W) (services : Services W) where
  -- A ping or a log command changes nothing of the manager but the world that its backend stands in:
  -- not the state, the flag to block on failure, the child, the mode, the DNS protection or the split.
  pub handle-Keeps :
      (command : DaemonCommand) (m : Manager env services)
      → governs command ≡ false
      → let m' = (handle env services command m).1 in
        m' ≡ record m { backend = record m.backend { world = m'.backend.world } }
  unfolding handle
  handle-Keeps (tcp_ping request) m g = ground arith
  handle-Keeps (proxy_ping request) m g = ground arith
  handle-Keeps log_tail m g = ground arith
  handle-Keeps clear_log m g = ground arith
  handle-Keeps status m g = cc
  handle-Keeps (connect request) m g = cc
  handle-Keeps disconnect m g = cc
  handle-Keeps (update_split applications) m g = cc
