-- ===== src/Split/Apply.antt =====
-- How a split comes up or not (daemon/src/split/mod.rs), by a backend that records its calls.
use varmlen_client_linux.Base.{Bool, true, false, List, ◌∷◌, Eff, is_ok, ◌≡◌, ◌⊎◌, arith}
use varmlen_client_linux.Split.{
  SplitPlan, disabled, active, SplitError, SplitBackend, SplitManager, apply,
}

pub data Action : Type 0 where
  create attach install watch reconcile update refresh rollback : Action

pub record Recorded (B : Type 0) : Type 0 where
  pub inner : B
  pub trace : List (Action × Bool)

module _ {B : Type 0} where
  abbrev logged : {A : Type 0} → Action → Eff B SplitError A → Eff (Recorded B) SplitError A
  logged action op r =
      let (result, inner) = op r.inner in
      (result, record { inner = inner; trace = (action, is_ok result) ∷ r.trace })

  abbrev pub recorded : SplitBackend B → SplitBackend (Recorded B)
  recorded ops = record {
    create_cgroup = λ uid. logged create (ops.create_cgroup uid);
    attach_socket_mark_bpf = logged attach ops.attach_socket_mark_bpf;
    install_route_rules = logged install ops.install_route_rules;
    start_permission_watcher = λ plan. logged watch (ops.start_permission_watcher plan);
    reconcile_existing = λ plan. logged reconcile (ops.reconcile_existing plan);
    update_plan = λ plan. logged update (ops.update_plan plan);
    refresh_route_rules = logged refresh ops.refresh_route_rules;
    rollback = logged rollback ops.rollback;
  }

-- The newest entry is a rollback, tried just after a step that failed.
abbrev pub RolledBack : List (Action × Bool) → Type 0
RolledBack ((rollback, _) ∷ (step, false) ∷ _) = Unit
RolledBack _ = ⊥

abbrev pub up : List (Action × Bool) → List (Action × Bool)
up t = (reconcile, true) ∷ (watch, true) ∷ (install, true) ∷ (attach, true) ∷ (create, true) ∷ t

module _ {B : Type 0} (ops : SplitBackend B) (plan : SplitPlan)
    (m : SplitManager (Recorded B)) where
  -- A split that is applied has made its five steps in order, each with success, and is active; one
  -- that is not has ended with a rollback straight after the step that failed, and is disabled.
  pub apply_lem :
      let (result, m') = apply (recorded ops) plan m in
      ((is_ok result ≡ true) × (m'.status ≡ active) × (m'.backend.trace ≡ up m.backend.trace))
      ⊎ ((is_ok result ≡ false) × (m'.status ≡ disabled) × RolledBack m'.backend.trace)
  unfolding apply
  apply_lem = ground arith
