-- ===== src/Split.antt =====
-- daemon/src/split/mod.rs: the manager of per-application split tunnelling, over any `SplitBackend`.
pub mod Apply
pub mod Routing
pub mod Process
pub mod Subtree
pub mod Reconcile
mod Tests
use varmlen_client_linux.Base.{
  ℕ, Bool, true, false, List, Result, ok, err, Done, Eff, on_err, pure, modify, ◌>>=◌, ◌>>◌,
  if◌then◌else◌,
}
use varmlen_client_linux.Base.Text.{Str}

pub record SplitPlan : Type 0 where
  pub uid : ℕ
  pub applications : List Str

pub data SplitStatus : Type 0 where
  disabled active : SplitStatus

pub data SplitError : Type 0 where
  invalid_application : Str → SplitError
  cgroup_unavailable bpf_unavailable routing_unavailable direct_dns_unavailable : SplitError
  watcher_unavailable reconciliation_failed rollback_failed : SplitError

-- The trait, its implementer's state being `B`.
pub record SplitBackend (B : Type 0) : Type 0 where
  pub create_cgroup : ℕ → Eff B SplitError Done
  pub attach_socket_mark_bpf : Eff B SplitError Done
  pub install_route_rules : Eff B SplitError Done
  pub start_permission_watcher : SplitPlan → Eff B SplitError Done
  pub reconcile_existing : SplitPlan → Eff B SplitError Done
  pub update_plan : SplitPlan → Eff B SplitError Done
  pub refresh_route_rules : Eff B SplitError Done
  pub rollback : Eff B SplitError Done

pub record SplitManager (B : Type 0) : Type 0 where
  pub backend : B
  pub status : SplitStatus

abbrev pub is_active : SplitStatus → Bool
is_active active = true
is_active disabled = false

abbrev pub new : {B : Type 0} → B → SplitManager B
new backend = record { backend = backend; status = disabled }

module _ {B : Type 0} where
  abbrev pub call : {A : Type 0} → Eff B SplitError A → Eff (SplitManager B) SplitError A
  call op m = let (result, backend) = op m.backend in (result, record m { backend = backend })

  abbrev set_status : SplitStatus → SplitManager B → SplitManager B
  set_status status m = record m { status = status }

module _ {B : Type 0} (ops : SplitBackend B) where
  apply_steps : SplitPlan → Eff B SplitError Done
  apply_steps plan = do
    ops.create_cgroup plan.uid
    ops.attach_socket_mark_bpf
    ops.install_route_rules
    ops.start_permission_watcher plan
    ops.reconcile_existing plan

  unfoldable pub apply : SplitPlan → Eff (SplitManager B) SplitError Done
  unfolding apply_steps
  apply plan = do
    on_err (call (apply_steps plan)) (λ m. set_status disabled (call ops.rollback m).1)
    modify (set_status active)

  unfoldable pub update_plan : SplitPlan → Eff (SplitManager B) SplitError Bool
  update_plan plan m =
      let steps : Eff (SplitManager B) SplitError Bool = do call (ops.update_plan plan); pure true
      in if is_active m.status then steps m else (ok false, m)

  unfoldable pub refresh_routing : Eff (SplitManager B) SplitError Done
  refresh_routing m = if is_active m.status then call ops.refresh_route_rules m else (ok tt, m)
