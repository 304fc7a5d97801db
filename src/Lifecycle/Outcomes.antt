-- ===== src/Lifecycle/Outcomes.antt =====
-- How a connect (daemon/src/lifecycle.rs) stands between its stages and how it may fail.
use varmlen_client_linux.Base.{Bool, true, false, ◌&&◌, List, ◌≡◌, ◌⊎◌}
use varmlen_client_linux.Protocol.{
  ConnectionPhase, disconnected, connected, blocking, recovery_required,
}
use varmlen_client_linux.Lifecycle.{LifecycleManager, is_connected, prior}
use varmlen_client_linux.Lifecycle.Trace.{
  Entry, Recorded, trace_of, held, StopsHeld, plane_actions, no_lapse,
}

module _ {B : Type 0} where
  -- The manager has come as far as this record without a failure, since a connect began at `m`.
  pub record IsAt (m : LifecycleManager (Recorded B)) (phase : ConnectionPhase) (t : List Entry)
      (m' : LifecycleManager (Recorded B)) : Type 0 where
    pub trace : trace_of m' ≡ t
    pub at_phase : m'.state.phase ≡ phase
    pub flag : m'.block_on_failure ≡ m.block_on_failure
    pub no_split : m'.state.split_active ≡ false
    pub no_dns : m'.state.dns_protected ≡ false

  -- How a connect that began at `m` may fail.
  abbrev pub Failure :
      Bool → Bool → LifecycleManager (Recorded B) → LifecycleManager (Recorded B) → Type 0
  Failure guarded insist m m' =
      ((m'.state.phase ≡ prior (is_connected m.state.phase))
        × (plane_actions (trace_of m') ≡ plane_actions (trace_of m))
        × (no_lapse (trace_of m') ≡ true → held (trace_of m') ≡ held (trace_of m)))
      ⊎ ((m'.state.phase ≡ blocking) × (guarded ≡ true) × (held (trace_of m') ≡ true))
      ⊎ ((m'.state.phase ≡ disconnected) × (guarded && insist ≡ false))
      ⊎ (m'.state.phase ≡ recovery_required)

  pub record IsRefused (guarded insist : Bool) (m m' : LifecycleManager (Recorded B)) : Type 0 where
    pub how : Failure guarded insist m m'
    pub flag : m'.block_on_failure ≡ m.block_on_failure
    pub no_split : m'.state.split_active ≡ false
    pub no_dns : m'.state.dns_protected ≡ false
    pub stops : guarded ≡ true → StopsHeld (trace_of m) → StopsHeld (trace_of m')
    pub lapse : no_lapse (trace_of m') ≡ true → no_lapse (trace_of m) ≡ true
    pub lapsed :
        no_lapse (trace_of m) ≡ true
        → no_lapse (trace_of m') ≡ false
        → m'.state.phase ≡ connected
        → held (trace_of m') ≡ false

  -- What the later steps of a connect need of the record so far.
  pub record Fits (guarded : Bool) (m : LifecycleManager (Recorded B)) (t : List Entry)
      : Type 0 where
    pub held_block : guarded ≡ true → held t ≡ true
    pub kept_stops : guarded ≡ true → StopsHeld (trace_of m) → StopsHeld t
    pub kept_lapse : no_lapse t ≡ no_lapse (trace_of m)
