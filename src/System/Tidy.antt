-- ===== src/System/Tidy.antt =====
-- daemon/src/system.rs: what the calls of the backend keep true of its own fields.
use mathlib.Core.Path.{◌≡◌, refl}
use native.Mathlib.Omega.{arith}
use varmlen_client_linux.Base.{
  is_ok, ◌⊎◌, true, false, not, List, [], ◌∷◌, Option, none, some, ok, is_some, is_empty,
}
use varmlen_client_linux.Base.Text.{Str, str_eq_iff}
use Prim.Native.Nat.{ℕ, zero, suc}
use varmlen_client_linux.Protocol.{ConnectionMode, ConnectRequest}
use varmlen_client_linux.Lifecycle.{is_tun}
use varmlen_client_linux.Split.{SplitManager, active, disabled, SplitStatus}
use varmlen_client_linux.Split
use varmlen_client_linux.System.Host.{Env, System}
use varmlen_client_linux.System.Parts.{
  child_is_running, prepare_runtime_dir, write_private, route_down, terminate_xray, wait_rounds,
  wait_until_ready, remove_dns, apply_split, remove_split,
}
use varmlen_client_linux.System.Backend.{
  apps_eq, validate, install_hold_block, verify_hold_block, stop_data_plane, start_data_plane,
  activate_network, update_split, verify_connection, remove_hold_block,
}

-- There is a live split and its programs, or neither.
abbrev pub Agree : {S : Type 0} → Option (SplitManager S) → List Str → Type 0
Agree none applications = applications ≡ []
Agree (some m) applications = (m.status ≡ active) × (is_empty applications ≡ false)

abbrev pub IsTidy : {S W : Type 0} → System S W → Type 0
IsTidy s = Agree s.split s.split_apps

-- The split is left alone.
abbrev pub Same : {S W : Type 0} → System S W → System S W → Type 0
Same s s' = (s'.split ≡ s.split) × (s'.split_apps ≡ s.split_apps)

apps_eq→≡ : (xs ys : List Str) → apps_eq xs ys ≡ true → xs ≡ ys
apps_eq→≡ [] [] h = refl
apps_eq→≡ [] (y ∷ ys) h = cc
apps_eq→≡ (x ∷ xs) [] h = cc
apps_eq→≡ (x ∷ xs) (y ∷ ys) h = ground (arith, str_eq_iff x y, apps_eq→≡ xs ys)

module _ {S W : Type 0} (env : Env S W) where
  terminate_xray_lem :
      (s : System S W)
      → Same s (terminate_xray env s).1
        × ((terminate_xray env s).1.xray ≡ none)
        × ((terminate_xray env s).1.dns_active ≡ s.dns_active)
  unfolding terminate_xray
  terminate_xray_lem s = ground arith

  remove_split_lem :
      (s : System S W)
      → ((remove_split env s).1.split ≡ none) × ((remove_split env s).1.split_apps ≡ [])
  unfolding remove_split
  remove_split_lem s = ground arith

  remove_dns_lem :
      (s : System S W)
      → Same s (remove_dns env s).1
        × ((is_ok (remove_dns env s).0 ≡ false) ⊎ ((remove_dns env s).1.dns_active ≡ false))
  unfolding remove_dns
  remove_dns_lem s = ground arith

  route_down_lem :
      (s : System S W)
      → Same s (route_down env s).1 × ((route_down env s).1.dns_active ≡ s.dns_active)
  unfolding route_down
  route_down_lem s = ground arith

  wait_rounds_lem :
      (n : ℕ) (mode : ConnectionMode) (s : System S W) → Same s (wait_rounds env n mode s).1
  unfolding wait_rounds
  wait_rounds_lem zero mode s = (refl, refl)
  wait_rounds_lem (suc n) mode s = grind (arith, wait_rounds_lem n mode)

  wait_until_ready_lem :
      (mode : ConnectionMode) (s : System S W) → Same s (wait_until_ready env mode s).1
  unfolding wait_until_ready
  wait_until_ready_lem mode s = wait_rounds_lem 50 mode s

  write_private_lem :
      (path content : Str) (s : System S W) → Same s (write_private env path content s).1
  unfolding write_private
  write_private_lem path content s = ground arith

  prepare_runtime_dir_lem : (s : System S W) → Same s (prepare_runtime_dir env s).1
  unfolding prepare_runtime_dir
  prepare_runtime_dir_lem s = ground arith

  pub start_data_plane_lem :
      (request : ConnectRequest) (s : System S W) → Same s (start_data_plane env request s).1
  unfolding start_data_plane
  start_data_plane_lem request s =
      grind (arith, wait_until_ready_lem, write_private_lem, prepare_runtime_dir_lem)

  pub validate_lem : (request : ConnectRequest) (s : System S W) → Same s (validate env request s).1
  unfolding validate
  validate_lem request s = ground arith

  pub child_is_running_lem : (s : System S W) → Same s (child_is_running env s).1
  unfolding child_is_running
  child_is_running_lem s = ground arith

  pub install_hold_block_lem :
      (request : ConnectRequest) (s : System S W) → Same s (install_hold_block env request s).1
  unfolding install_hold_block
  install_hold_block_lem request s = ground arith

  pub verify_hold_block_lem : (s : System S W) → Same s (verify_hold_block env s).1
  unfolding verify_hold_block
  verify_hold_block_lem s = ground arith

  pub remove_hold_block_lem :
      (s : System S W)
      → Same s (remove_hold_block env s).1 × ((remove_hold_block env s).1.dns_active ≡ s.dns_active)
  unfolding remove_hold_block
  remove_hold_block_lem s = ground arith

  pub verify_connection_lem :
      (request : ConnectRequest) (s : System S W)
      → Same s (verify_connection env request s).1
        × ((verify_connection env request s).1.dns_active ≡ s.dns_active)
  unfolding verify_connection
  verify_connection_lem request s = ground arith

  pub stop_data_plane_lem :
      (s : System S W)
      → ((stop_data_plane env false s).1.split ≡ none)
        × ((stop_data_plane env false s).1.split_apps ≡ [])
        × ((stop_data_plane env false s).1.xray ≡ none)
        × ((stop_data_plane env false s).1.mode ≡ none)
        × ((is_ok (stop_data_plane env false s).0 ≡ false)
            ⊎ ((stop_data_plane env false s).1.dns_active ≡ false))
  unfolding stop_data_plane
  stop_data_plane_lem s =
      grind (arith, remove_split_lem, remove_dns_lem, route_down_lem, terminate_xray_lem)

  pub stop_preserving_lem :
      (s : System S W)
      → Same s (stop_data_plane env true s).1
        × ((stop_data_plane env true s).1.xray ≡ none)
        × ((stop_data_plane env true s).1.mode ≡ none)
  unfolding stop_data_plane
  stop_preserving_lem s = grind (arith, remove_dns_lem, route_down_lem, terminate_xray_lem)

  pub update_split-IsTidy :
      (applications : List Str) (s : System S W)
      → IsTidy s
      → IsTidy (update_split env applications s).1
  unfolding update_split Split.apply Split.update_plan
  update_split-IsTidy applications s t = ground arith

  pub activate_network-IsTidy :
      (request : ConnectRequest) (s : System S W)
      → IsTidy s
      → IsTidy (activate_network env request s).1
  unfolding activate_network Split.apply Split.refresh_routing
  activate_network-IsTidy request s t = ground arith

  pub activate_network_lem :
      (request : ConnectRequest) (s : System S W)
      → IsTidy s
      → is_tun request.mode ≡ true
      → (activate_network env request s).0 ≡ ok tt
      → ((activate_network env request s).1.dns_active ≡ true)
        × ((activate_network env request s).1.split_apps ≡ request.excluded_apps)
        × (is_some (activate_network env request s).1.split ≡ not (is_empty request.excluded_apps))
  unfolding activate_network Split.apply Split.refresh_routing
  activate_network_lem request s t u h =
      ground (arith, apps_eq→≡ s.split_apps request.excluded_apps)

  apply_split-Agree :
      (applications : List Str) (s : System S W)
      → is_empty applications ≡ false
      → s.split ≡ none
      → IsTidy s
      → IsTidy (apply_split env applications s).1
  unfolding apply_split Split.apply
  apply_split-Agree applications s h e t = ground arith
