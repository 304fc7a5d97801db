-- ===== src/Controller/Tests.antt =====
-- Commands of daemon/src/controller.rs on a disk in memory.
use varmlen_client_linux.Base.{
  ℕ, true, false, [], ◌∷◌, none, ok, Done, ◌≡◌, ◌≢◌, ◌<◌, arith, refl, length, ap,
}
use varmlen_client_linux.Base.Text.{Str, str}
use varmlen_client_linux.Protocol.{connect, disconnected, connected}
use varmlen_client_linux.Files.Memory.{Disk, memory, memory_laws}
use varmlen_client_linux.State.{temporary_path}
use varmlen_client_linux.State.Samples.{sample_serde}
use varmlen_client_linux.Lifecycle.{LifecycleManager, new, bare, reconcile_health}
use varmlen_client_linux.System.Host.{System}
use varmlen_client_linux.System.Backend.{system_backend, stop_data_plane}
use varmlen_client_linux.System.Parts.{child_is_running, remove_split, remove_dns, terminate_xray}
use varmlen_client_linux.System.Samples.{env, fresh, request}
use varmlen_client_linux.Controller.{Services, handle, poll_health, same_state}
use varmlen_client_linux.Controller.Saved.{IsSaved, handle-IsSaved, poll_health-IsSaved}

abbrev path : Str
path = str "/s"

long_name : (parent : Str) (n : ℕ) → 2 < length (temporary_path memory parent n)
unfolding temporary_path
long_name [] n = omega arith
long_name (c ∷ parent) n = omega (arith, long_name parent n)

apart : (parent : Str) (n : ℕ) → temporary_path memory parent n ≢ path
apart parent n h =
    let same : length (temporary_path memory parent n) ≡ length path = ap length h in
    omega (arith, same, long_name parent n)

abbrev services : Services Disk
services = record {
  files = memory;
  serde = sample_serde;
  owner_uid = 1000;
  state_path = path;
  log_path = str "/l";
  show_error = λ _. str "error";
  run_tcp_ping = λ _ w. (ok 12, w);
  run_proxy_ping = λ _ _ w. (ok 34, w);
}

abbrev empty : Disk
empty _ = none

abbrev manager : LifecycleManager (System Done Disk)
manager = new (fresh empty) disconnected

abbrev connected_run : LifecycleManager (System Done Disk)
connected_run = (handle (env Disk) services (connect request) manager).1

handle-IsSaved_example : IsSaved (env Disk) services (memory_laws path) apart connected_run
handle-IsSaved_example =
    handle-IsSaved (env Disk) services (memory_laws path) apart (connect request) manager refl

-- Connected, but Xray is gone.
abbrev lost : LifecycleManager (System Done Disk)
lost = record {
  backend = fresh empty;
  state = record (bare connected) { dns_protected = true };
  block_on_failure = false;
}

noticed : same_state (reconcile_health (system_backend (env Disk)) lost).1.state lost.state ≡ false
unfolding same_state reconcile_health child_is_running stop_data_plane remove_split remove_dns
    terminate_xray
noticed = refl

poll_health-IsSaved_example :
    IsSaved (env Disk) services (memory_laws path) apart (poll_health (env Disk) services lost).1
poll_health-IsSaved_example =
    poll_health-IsSaved (env Disk) services (memory_laws path) apart lost noticed
