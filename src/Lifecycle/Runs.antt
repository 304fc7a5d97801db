-- ===== src/Lifecycle/Runs.antt =====
-- What holds of the manager of daemon/src/lifecycle.rs between two commands, whatever the commands
-- and the outcomes of the backend.
use varmlen_client_linux.Base.{true, false, ◌≡◌, ◌≢◌, ◌⊎◌, arith, Result-cases, inl, inr, List, []}
use varmlen_client_linux.Base.Text.{Str}
use varmlen_client_linux.Protocol.{
  ConnectionPhase, disconnected, preparing, connected, blocking, reconnecting, recovery_required,
  ConnectRequest,
}
use varmlen_client_linux.Lifecycle.{
  LifecycleBackend, LifecycleManager, new, connect, update_split, disconnect, reconcile_health,
  mark_recovery_required,
}
use varmlen_client_linux.Lifecycle.Trace.{Recorded, recorded, trace_of, held, no_lapse}
use varmlen_client_linux.Lifecycle.Phases.{connect-IsCommitted, connect-IsRefused}

-- Also after a disconnect that failed half-way.
abbrev pub IsUp : ConnectionPhase → Type 0
IsUp phase = (phase ≡ connected) ⊎ (phase ≡ recovery_required)

pub record IsSound {B : Type 0} (m : LifecycleManager (Recorded B)) : Type 0 where
  pub settled : (m.state.phase ≢ preparing) × (m.state.phase ≢ reconnecting)
  pub split : (m.state.split_active ≡ false) ⊎ IsUp m.state.phase
  pub dns : (m.state.dns_protected ≡ false) ⊎ IsUp m.state.phase
  pub blocks :
      (m.state.phase ≢ blocking) ⊎ (no_lapse (trace_of m) ≡ false) ⊎ (held (trace_of m) ≡ true)
  pub would_block :
      (m.state.phase ≢ connected)
      ⊎ (m.block_on_failure ≡ false)
      ⊎ (no_lapse (trace_of m) ≡ false)
      ⊎ (held (trace_of m) ≡ true)

module _ {B : Type 0} (ops : LifecycleBackend B) where
  connect-IsSound :
      (request : ConnectRequest) (m : LifecycleManager (Recorded B))
      → IsSound m
      → IsSound (connect (recorded ops) request m).1
  connect-IsSound request m s = elim (Result-cases (connect (recorded ops) request m).0) [
    | inl (state, returned) ↦ ground (arith, connect-IsCommitted ops request m returned)
    | inr (error, failed) ↦ ground (arith, connect-IsRefused ops request m failed)
  ]

  update_split-IsSound :
      (apps : List Str) (m : LifecycleManager (Recorded B))
      → IsSound m
      → IsSound (update_split (recorded ops) apps m).1
  unfolding update_split
  update_split-IsSound apps m s = ground arith

  disconnect-IsSound :
      (m : LifecycleManager (Recorded B)) → IsSound m → IsSound (disconnect (recorded ops) m).1
  unfolding disconnect
  disconnect-IsSound m s = ground arith

  reconcile_health-IsSound :
      (m : LifecycleManager (Recorded B))
      → IsSound m
      → IsSound (reconcile_health (recorded ops) m).1
  unfolding reconcile_health
  reconcile_health-IsSound m s = ground arith

  mark_recovery_required-IsSound :
      (m : LifecycleManager (Recorded B)) → IsSound m → IsSound (mark_recovery_required m)
  unfolding mark_recovery_required
  mark_recovery_required-IsSound m s = ground arith

  -- One command, or the mark that a failed write of the state leaves.
  pub data Step : LifecycleManager (Recorded B) → LifecycleManager (Recorded B) → Type 0 where
    connects :
        (request : ConnectRequest) (m : LifecycleManager (Recorded B))
        → Step m (connect (recorded ops) request m).1
    updates :
        (apps : List Str) (m : LifecycleManager (Recorded B))
        → Step m (update_split (recorded ops) apps m).1
    disconnects : (m : LifecycleManager (Recorded B)) → Step m (disconnect (recorded ops) m).1
    polls : (m : LifecycleManager (Recorded B)) → Step m (reconcile_health (recorded ops) m).1
    marks : (m : LifecycleManager (Recorded B)) → Step m (mark_recovery_required m)

  pub data Reach (m : LifecycleManager (Recorded B)) : LifecycleManager (Recorded B) → Type 0 where
    here : Reach m m
    next : {m' m'' : LifecycleManager (Recorded B)} → Reach m m' → Step m' m'' → Reach m m''

  Step-IsSound : {m m' : LifecycleManager (Recorded B)} → Step m m' → IsSound m → IsSound m'
  Step-IsSound (connects request m) s = connect-IsSound request m s
  Step-IsSound (updates apps m) s = update_split-IsSound apps m s
  Step-IsSound (disconnects m) s = disconnect-IsSound m s
  Step-IsSound (polls m) s = reconcile_health-IsSound m s
  Step-IsSound (marks m) s = mark_recovery_required-IsSound m s

  Reach-keeps : {m m' : LifecycleManager (Recorded B)} → Reach m m' → IsSound m → IsSound m'
  Reach-keeps here s = s
  Reach-keeps (next r st) s = Step-IsSound st (Reach-keeps r s)

  -- The two phases that the daemon starts in after its recovery.
  abbrev pub IsStart : ConnectionPhase → Type 0
  IsStart phase = (phase ≡ disconnected) ⊎ (phase ≡ recovery_required)

  new-IsSound :
      (inner : B) (phase : ConnectionPhase)
      → IsStart phase
      → IsSound (new (record { inner = inner; trace = [] }) phase)
  unfolding new
  new-IsSound inner phase h = ground arith

  -- From either phase that the daemon starts in, after any commands and whatever the backend
  -- answers: the phase is none of the two transient ones; split tunnelling and DNS protection are
  -- reported only while connected or in need of recovery; and as long as no check of the hold block
  -- has failed, the phase `blocking` means that the hold block is in force, and so does a connection
  -- whose loss would lead to that phase.
  pub Reach-IsSound :
      (inner : B) (phase : ConnectionPhase) {m : LifecycleManager (Recorded B)}
      → IsStart phase
      → Reach (new (record { inner = inner; trace = [] }) phase) m
      → IsSound m
  Reach-IsSound inner phase h r = Reach-keeps r (new-IsSound inner phase h)

  lapsed :
      (request : ConnectRequest) (m : LifecycleManager (Recorded B))
      → let m' = (connect (recorded ops) request m).1 in
        no_lapse (trace_of m) ≡ true
        → no_lapse (trace_of m') ≡ false
        → m'.state.phase ≡ connected
        → (held (trace_of m') ≡ false) × (m'.block_on_failure ≡ m.block_on_failure)
  lapsed request m l l' c = elim (Result-cases (connect (recorded ops) request m).0) [
    | inl (state, returned) ↦ ground (arith, (connect-IsCommitted ops request m returned).trace)
    | inr (error, failed) ↦
        let r = connect-IsRefused ops request m failed in (r.lapsed l l' c, r.flag)
  ]

  -- The exception is real. A check of the hold block that fails while reconnecting takes the block
  -- away and goes back to `connected`, but the flag to block on failure stays: when that tunnel is
  -- lost, the phase is `blocking` with no hold block.
  pub reconcile_health-connect_lapses :
      (request : ConnectRequest) (m : LifecycleManager (Recorded B))
      → let m' = (connect (recorded ops) request m).1 in
        let m'' = (reconcile_health (recorded ops) m').1 in
        m.state.phase ≡ connected
        → m.block_on_failure ≡ true
        → no_lapse (trace_of m) ≡ true
        → no_lapse (trace_of m') ≡ false
        → m'.state.phase ≡ connected
        → (ops.data_plane_alive m'.backend.inner).0 ≡ false
        → (m''.state.phase ≡ blocking ⊎ m''.state.phase ≡ recovery_required)
          × (held (trace_of m'') ≡ false)
  unfolding reconcile_health
  reconcile_health-connect_lapses request m c f l l' c' dead =
      let open_now = lapsed request m l l' c' in ground arith
