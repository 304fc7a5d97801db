-- ===== src/System/Calls.antt =====
-- daemon/src/system.rs: what holds between the calls of the backend, and what a connect of the manager
-- of daemon/src/lifecycle.rs over this backend makes of it.
use native.Mathlib.Omega.{arith}
use varmlen_client_linux.Base.{Bool, true, false, not, List, ◌≡◌, is_some, is_empty}
use varmlen_client_linux.Base.Text.{Str}
use varmlen_client_linux.Protocol.{ConnectRequest}
use varmlen_client_linux.System.Host.{Env, System}
use varmlen_client_linux.System.Parts.{child_is_running}
use varmlen_client_linux.System.Backend.{
  validate, install_hold_block, verify_hold_block, stop_data_plane, start_data_plane,
  activate_network, update_split, verify_connection, remove_hold_block,
}
use varmlen_client_linux.System.Tidy.{
  IsTidy, Same, child_is_running_lem, install_hold_block_lem, verify_hold_block_lem,
  remove_hold_block_lem, validate_lem, start_data_plane_lem, activate_network-IsTidy,
  update_split-IsTidy, stop_data_plane_lem, stop_preserving_lem, verify_connection_lem,
}

module _ {S W : Type 0} (env : Env S W) where
  -- The state that a connect makes in TUN mode.
  abbrev pub IsProtected : ConnectRequest → System S W → Type 0
  IsProtected request s =
      (s.dns_active ≡ true)
      × (s.split_apps ≡ request.excluded_apps)
      × (is_some s.split ≡ not (is_empty request.excluded_apps))

  IsTidy-Same : (s s' : System S W) → Same s s' → IsTidy s → IsTidy s'
  IsTidy-Same s s' h t = ground arith

  -- The calls of the backend.
  pub data Call : System S W → System S W → Type 0 where
    polled : (s : System S W) → Call s (child_is_running env s).1
    validated : (request : ConnectRequest) (s : System S W) → Call s (validate env request s).1
    installed :
        (request : ConnectRequest) (s : System S W) → Call s (install_hold_block env request s).1
    verified : (s : System S W) → Call s (verify_hold_block env s).1
    stopped :
        (preserve_split : Bool) (s : System S W) → Call s (stop_data_plane env preserve_split s).1
    started :
        (request : ConnectRequest) (s : System S W) → Call s (start_data_plane env request s).1
    activated :
        (request : ConnectRequest) (s : System S W) → Call s (activate_network env request s).1
    updated : (apps : List Str) (s : System S W) → Call s (update_split env apps s).1
    checked :
        (request : ConnectRequest) (s : System S W) → Call s (verify_connection env request s).1
    released : (s : System S W) → Call s (remove_hold_block env s).1

  pub data Calls (s : System S W) : System S W → Type 0 where
    here : Calls s s
    next : {s' s'' : System S W} → Calls s s' → Call s' s'' → Calls s s''

  Call-IsTidy : {s s' : System S W} → Call s s' → IsTidy s → IsTidy s'
  Call-IsTidy (polled s) t = IsTidy-Same s (child_is_running env s).1 (child_is_running_lem env s) t
  Call-IsTidy (validated request s) t =
      IsTidy-Same s (validate env request s).1 (validate_lem env request s) t
  Call-IsTidy (installed request s) t =
      IsTidy-Same s (install_hold_block env request s).1 (install_hold_block_lem env request s) t
  Call-IsTidy (verified s) t =
      IsTidy-Same s (verify_hold_block env s).1 (verify_hold_block_lem env s) t
  Call-IsTidy (stopped true s) t =
      IsTidy-Same s (stop_data_plane env true s).1 (stop_preserving_lem env s).0 t
  Call-IsTidy (stopped false s) t = ground (arith, stop_data_plane_lem env s)
  Call-IsTidy (started request s) t =
      IsTidy-Same s (start_data_plane env request s).1 (start_data_plane_lem env request s) t
  Call-IsTidy (activated request s) t = activate_network-IsTidy env request s t
  Call-IsTidy (updated apps s) t = update_split-IsTidy env apps s t
  Call-IsTidy (checked request s) t =
      IsTidy-Same s (verify_connection env request s).1 (verify_connection_lem env request s).0 t
  Call-IsTidy (released s) t =
      IsTidy-Same s (remove_hold_block env s).1 (remove_hold_block_lem env s).0 t

  -- Whatever calls are made of a backend and whatever fails in them, between the calls it holds a
  -- split that is active and the nonempty list of its programs, or neither.
  pub Calls-IsTidy : {s s' : System S W} → IsTidy s → Calls s s' → IsTidy s'
  Calls-IsTidy t here = t
  Calls-IsTidy t (next calls call) = Call-IsTidy call (Calls-IsTidy t calls)
