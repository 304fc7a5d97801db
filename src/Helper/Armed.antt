-- ===== src/Helper/Armed.antt =====
-- Neither the marks of the programs outside the tunnel nor their pins (helper/src/main.rs) call `ip`.
use varmlen_client_linux.Base.{
  ℕ, ◌>>◌, ◌++◌, unwrap_or, List, [], ◌∷◌, Option, none, some, Done, Eff, modify, ◌≡◌, refl, ◌∙◌,
  arith,
}
use varmlen_client_linux.Base.Text.{Str, str}
use varmlen_client_linux.Helper.Machine.{Machine}
use varmlen_client_linux.Helper.Killswitch.{bypass_up}
use varmlen_client_linux.Helper.Pids.{
  bypass_sweep, sweep, sweep_entry, bypass_move_if_match, parse_pid,
}
use varmlen_client_linux.Helper.Pins.{pin_existing_excluded_flows, apply_batch}
use varmlen_client_linux.Helper.Up.{trim_slashes, arm_bypass, explained}
use varmlen_client_linux.Helper.Trace.{Recorded, recorded, Adds, Adds->>=, Adds-none, Adds-pure}

module _ {W : Type 0} (machine : Machine W) where
  bypass_up_trace :
      (path : Str) (iface : Option Str) (s : Recorded W)
      → (bypass_up (recorded machine) path iface s).1.trace ≡ s.trace
  unfolding bypass_up
  bypass_up_trace path iface s = ground arith

  sweep_entry_trace :
      (procs : Str) (excluded : List Str) (pid : Option ℕ) (s : Recorded W)
      → (sweep_entry (recorded machine) procs excluded pid s).trace ≡ s.trace
  unfolding sweep_entry bypass_move_if_match
  sweep_entry_trace procs excluded none s = refl
  sweep_entry_trace procs excluded (some pid) s = ground arith

  sweep_trace :
      (procs : Str) (excluded names : List Str) (s : Recorded W)
      → (sweep (recorded machine) procs excluded names s).trace ≡ s.trace
  unfolding sweep
  sweep_trace procs excluded [] s = refl
  sweep_trace procs excluded (name ∷ names) s =
      sweep_trace procs excluded names
        (sweep_entry (recorded machine) procs excluded (parse_pid name) s)
      ∙ sweep_entry_trace procs excluded (parse_pid name) s

  bypass_sweep_trace :
      (procs : Str) (excluded : List Str) (s : Recorded W)
      → (bypass_sweep (recorded machine) procs excluded s).trace ≡ s.trace
  unfolding bypass_sweep
  bypass_sweep_trace procs excluded s =
      sweep_trace procs excluded (unwrap_or (machine.read_dir (str "/proc") s.world) []) s

  apply_batch_trace :
      (batch : Str) (s : Recorded W) → (apply_batch (recorded machine) batch s).trace ≡ s.trace
  unfolding apply_batch
  apply_batch_trace batch s = ground arith

  pin_trace :
      (excluded : List Str) (s : Recorded W)
      → (pin_existing_excluded_flows (recorded machine) excluded s).trace ≡ s.trace
  unfolding pin_existing_excluded_flows
  pin_trace excluded s = apply_batch_trace _ s

  explained_trace :
      (op : Eff (Recorded W) Str Done) (s : Recorded W)
      → (explained (recorded machine) op s).1.trace ≡ (op s).1.trace
  unfolding explained
  explained_trace op s = ground arith

  Adds-modify :
      (f : Recorded W → Recorded W)
      → ((s : Recorded W) → (f s).trace ≡ s.trace)
      → Adds [] (modify f)
  Adds-modify f h = Adds-none (modify f) h

  pub Adds-arm_bypass :
      (cgroup : Option Str) (iface : Str) (apps : List Str)
      → Adds [] (arm_bypass (recorded machine) cgroup iface apps)
  unfolding arm_bypass
  Adds-arm_bypass none iface apps = Adds-pure tt
  Adds-arm_bypass (some cgroup) iface apps =
      let up = bypass_up (recorded machine) cgroup (some iface) in
      let path = str "/sys/fs/cgroup/" ++ (trim_slashes cgroup ++ str "/cgroup.procs") in
      let sweeping = bypass_sweep (recorded machine) path apps in
      let pinning = pin_existing_excluded_flows (recorded machine) apps in
      Adds->>= [] [] (explained (recorded machine) up) (λ _. modify sweeping >> modify pinning)
        (Adds-none _ (λ s. explained_trace up s ∙ bypass_up_trace cgroup (some iface) s))
        (λ _.
          Adds->>= [] [] (modify sweeping) (λ _. modify pinning)
            (Adds-modify sweeping (bypass_sweep_trace path apps))
            (λ _. Adds-modify pinning (pin_trace apps)))
