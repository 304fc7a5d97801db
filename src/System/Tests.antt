-- ===== src/System/Tests.antt =====
-- Runs of the backend of daemon/src/system.rs.
use varmlen_client_linux.Base.{
  ◌<◌, ◌↔◌, ℕ, zero, suc, true, false, List, [], ◌∷◌, none, ok, Done, ◌≡◌, refl,
}
use varmlen_client_linux.Base.Text.{Str, str}
use varmlen_client_linux.Protocol.{proxy, disconnected, connected, DaemonState}
use varmlen_client_linux.Lifecycle.{LifecycleManager, new, bare, connect}
use varmlen_client_linux.System.Host.{System}
use varmlen_client_linux.System.Backend.{system_backend, stop_data_plane, update_split}
use varmlen_client_linux.System.Parts.{wait_until_ready}
use varmlen_client_linux.Split
use varmlen_client_linux.Dns
use varmlen_client_linux.System.Tidy.{IsTidy}
use varmlen_client_linux.System.Calls.{Call, Calls, Calls-IsTidy}
use varmlen_client_linux.System.Detail.{shorten}
use varmlen_client_linux.System.Ready.{GetsReady, wait_until_ready_iff}
use varmlen_client_linux.System.Samples.{env, fresh, request}

abbrev start : System Done Done
start = fresh tt

abbrev manager : LifecycleManager (System Done Done)
manager = new start disconnected

abbrev connected_run : LifecycleManager (System Done Done)
connected_run = (connect (system_backend (env Done)) request manager).1

abbrev reported : DaemonState
reported = record (bare connected) { split_active = true; dns_protected = true }

abbrev apps : List Str
apps = str "/usr/bin/ssh" ∷ []

abbrev updated : System Done Done
updated = (update_split (env Done) apps start).1

abbrev stopped : System Done Done
stopped = (stop_data_plane (env Done) false updated).1

calls : Calls (env Done) start stopped
calls = Calls.next (Calls.next Calls.here (Call.updated apps start)) (Call.stopped false updated)

Calls-IsTidy_example : IsTidy stopped
Calls-IsTidy_example = Calls-IsTidy (env Done) refl calls

repeat : ℕ → Str
repeat zero = []
repeat (suc n) = 0xe9 ∷ repeat n

-- With other characters it can be cut inside of one, where the daemon panics.
cut_inside : shorten (repeat 601) ≡ none
unfolding shorten repeat
cut_inside = refl

wait_until_ready_iff_example :
    ((wait_until_ready (env Done) proxy start).0 ≡ ok tt)
    ↔ ((k : ℕ) × (k < 50) × GetsReady (env Done) proxy k start)
wait_until_ready_iff_example = wait_until_ready_iff (env Done) proxy start
