-- ===== src/Lifecycle/Phases.antt =====
-- What a connect (daemon/src/lifecycle.rs) leaves behind, for every backend and request.
use varmlen_client_linux.Base.{
  true, ◌||◌, ok, err, ◌≡◌, ◌⊎◌, arith, Result-cases, inl, inr, Ends-ok, Ends-err,
}
use varmlen_client_linux.Protocol.{
  blocking, recovery_required, ConnectRequest, tun, DaemonState, DaemonError,
}
use varmlen_client_linux.Lifecycle.{
  LifecycleBackend, LifecycleManager, is_connected, is_tun, connect,
}
use varmlen_client_linux.Lifecycle.Trace.{
  Recorded, recorded, trace_of, held, StopsHeld, plane_actions, connect_steps, succeed,
}
use varmlen_client_linux.Lifecycle.Outcomes.{IsRefused}
use varmlen_client_linux.Lifecycle.Stages.{IsCommitted, connect_lem}

module _ {B : Type 0} (ops : LifecycleBackend B) (request : ConnectRequest)
    (m : LifecycleManager (Recorded B)) where
  pub connect-IsCommitted :
      {state : DaemonState}
      → (connect (recorded ops) request m).0 ≡ ok state
      → IsCommitted ops request m state (connect (recorded ops) request m).1
  connect-IsCommitted e = Ends-ok _ _ _ (connect_lem ops request m) e

  pub connect-IsRefused :
      {error : DaemonError}
      → (connect (recorded ops) request m).0 ≡ err error
      → IsRefused
          (is_tun request.mode)
          (is_connected m.state.phase || request.killswitch)
          m
          (connect (recorded ops) request m).1
  connect-IsRefused e = Ends-err _ _ _ (connect_lem ops request m) e

  -- A connect that returns a state made exactly these calls, in this order and all of them with
  -- success: the validation; in TUN mode the installation and the check of the hold block; the stop
  -- of the old data plane if one was up; the start, the activation and the check of the new one; and
  -- in TUN mode without kill switch the removal of the hold block.
  pub connect_calls :
      {state : DaemonState}
      → (connect (recorded ops) request m).0 ≡ ok state
      → trace_of (connect (recorded ops) request m).1
        ≡ succeed
            (connect_steps (is_connected m.state.phase) (is_tun request.mode) request.killswitch)
            (trace_of m)
  connect_calls e = (connect-IsCommitted e).trace

  -- In TUN mode no connect, successful or not, stops a data plane outside a verified hold block, if
  -- that held of the calls before it.
  pub connect-StopsHeld :
      request.mode ≡ tun
      → StopsHeld (trace_of m)
      → StopsHeld (trace_of (connect (recorded ops) request m).1)
  connect-StopsHeld e h = elim (Result-cases (connect (recorded ops) request m).0) [
    | inl (state, returned) ↦ rw (connect_calls returned) (ground arith)
    | inr (error, failed) ↦ (connect-IsRefused failed).stops (rw e) h
  ]

  -- A TUN connect with kill switch that fails has not touched a data plane, or leaves the phase
  -- `blocking` with the hold block verified and not removed, or asks for recovery.
  pub connect_fails_closed :
      {error : DaemonError}
      → request.mode ≡ tun
      → request.killswitch ≡ true
      → (connect (recorded ops) request m).0 ≡ err error
      → let m' = (connect (recorded ops) request m).1 in
        (plane_actions (trace_of m') ≡ plane_actions (trace_of m))
        ⊎ ((m'.state.phase ≡ blocking) × (held (trace_of m') ≡ true))
        ⊎ (m'.state.phase ≡ recovery_required)
  connect_fails_closed t k e = ground (arith, (connect-IsRefused e).how)
