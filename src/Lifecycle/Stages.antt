-- ===== src/Lifecycle/Stages.antt =====
-- Each stage of `connect` (daemon/src/lifecycle.rs) for every backend, and the stages together.
use varmlen_client_linux.Base.{
  Bool, true, false, not, ◌&&◌, ◌||◌, List, ◌∷◌, Result, ok, Done, Eff, ◌≡◌, arith, if◌then◌else◌,
  is_empty, Ends, Ends->>=, refl, on_err, pure, ◌>>◌,
}
use mathlib.Core.Path.{subst₂}
use varmlen_client_linux.Protocol.{
  ConnectionPhase, preparing, connected, blocking, reconnecting, recovery_required, ConnectRequest,
  DaemonState, DaemonError,
}
use varmlen_client_linux.Lifecycle.{
  LifecycleBackend, LifecycleManager, is_connected, is_tun, prior, connect, hold_network, stop_old,
  bring_up, clean_up, commit, call, set_phase, begin, finish, establish, replace, protect,
}
use varmlen_client_linux.Lifecycle.Trace.{
  hold_steps, Entry, Recorded, recorded, trace_of, connect_steps, succeed, validate, install_hold,
  verify_hold, stop_preserving_split, verify_connection, activate, start, remove_hold,
}
use varmlen_client_linux.Lifecycle.Outcomes.{IsAt, IsRefused, Fits}

module _ {B : Type 0} (ops : LifecycleBackend B) (request : ConnectRequest)
    (m : LifecycleManager (Recorded B)) where
  abbrev was : Bool
  was = is_connected m.state.phase

  abbrev guarded : Bool
  guarded = is_tun request.mode

  abbrev insist : Bool
  insist = was || request.killswitch

  -- What holds once a step of the connect has returned.
  abbrev Reaches :
      ConnectionPhase
      → List Entry
      → Result DaemonError Done × LifecycleManager (Recorded B)
      → Type 0
  Reaches phase t = Ends (λ _ m'. IsAt m phase t m') (λ _ m'. IsRefused guarded insist m m')

  validates :
      Reaches
        (if was then reconnecting else preparing)
        ((validate, true) ∷ trace_of m)
        (on_err (call ((recorded ops).validate request)) (set_phase (prior was)) (begin was m))
  validates = ground arith

  holds :
      (phase : ConnectionPhase) (t : List Entry) (m' : LifecycleManager (Recorded B))
      → guarded ≡ true
      → t ≡ (validate, true) ∷ trace_of m
      → IsAt m phase t m'
      → Reaches blocking
          ((verify_hold, true) ∷ (install_hold, true) ∷ t)
          (hold_network (recorded ops) was request m')
  unfolding hold_network
  holds phase t m' g e h = ground arith

  stops_old :
      (phase : ConnectionPhase) (t : List Entry) (m' : LifecycleManager (Recorded B))
      → Fits guarded m t
      → IsAt m phase t m'
      → Reaches phase ((stop_preserving_split, true) ∷ t) (stop_old (recorded ops) guarded m')
  unfolding stop_old
  stops_old phase t m' f h = ground arith

  brings_up :
      (phase : ConnectionPhase) (t : List Entry) (m' : LifecycleManager (Recorded B))
      → Fits guarded m t
      → IsAt m phase t m'
      → Reaches phase ((verify_connection, true) ∷ (activate, true) ∷ (start, true) ∷ t) (
          on_err
            (bring_up (recorded ops) request)
            (clean_up (recorded ops) was guarded request.killswitch)
            m')
  unfolding bring_up clean_up
  brings_up phase t m' f h = ground arith

  releases :
      (phase : ConnectionPhase) (t : List Entry) (m' : LifecycleManager (Recorded B))
      → Fits guarded m t
      → IsAt m phase t m'
      → Reaches phase
          ((remove_hold, true) ∷ t)
          (on_err (call (recorded ops).remove_hold_block) (set_phase recovery_required) m')
  releases phase t m' f h = ground arith

  pub record IsCommitted (state : DaemonState) (m' : LifecycleManager (Recorded B)) : Type 0 where
    pub trace : trace_of m' ≡ succeed (connect_steps was guarded request.killswitch) (trace_of m)
    pub report : m'.state ≡ state
    pub at_phase : state.phase ≡ connected
    pub split : state.split_active ≡ not (is_empty request.excluded_apps)
    pub dns : state.dns_protected ≡ guarded
    pub flag : m'.block_on_failure ≡ (guarded && request.killswitch)

  Reaches-if :
      (b : Bool) (phase : ConnectionPhase) (t : List Entry)
      (f g : Eff (LifecycleManager (Recorded B)) DaemonError Done)
      (m' : LifecycleManager (Recorded B))
      → (b ≡ true → Reaches phase t (f m'))
      → (b ≡ false → Reaches phase t (g m'))
      → Reaches phase t ((if b then f else g) m')
  Reaches-if true phase t f g m' h k = h refl
  Reaches-if false phase t f g m' h k = k refl

  abbrev guard_steps : List Entry
  guard_steps = succeed (validate ∷ hold_steps guarded) (trace_of m)

  abbrev old_steps : List Entry
  old_steps = if was then (stop_preserving_split, true) ∷ guard_steps else guard_steps

  abbrev up_steps : List Entry
  up_steps = (verify_connection, true) ∷ (activate, true) ∷ (start, true) ∷ old_steps

  abbrev end_steps : List Entry
  end_steps = if guarded && not request.killswitch then (remove_hold, true) ∷ up_steps else up_steps

  -- The phase after the hold block.
  abbrev held_phase : ConnectionPhase
  held_phase = if guarded then blocking else if was then reconnecting else preparing

  Fits-guard : Fits guarded m guard_steps
  Fits-guard = ground arith

  Fits-old : Fits guarded m old_steps
  Fits-old = ground arith

  Fits-up : Fits guarded m up_steps
  Fits-up = ground arith

  abbrev Stage : Type 0
  Stage = Eff (LifecycleManager (Recorded B)) DaemonError Done

  abbrev hold_stage : Stage
  hold_stage = if guarded then hold_network (recorded ops) was request else pure tt

  abbrev old_stage : Stage
  old_stage = if was then stop_old (recorded ops) guarded else pure tt

  abbrev up_stage : Stage
  up_stage =
      on_err (bring_up (recorded ops) request)
        (clean_up (recorded ops) was guarded request.killswitch)

  abbrev release_stage : Stage
  release_stage =
      if guarded && not request.killswitch
      then on_err (call (recorded ops).remove_hold_block) (set_phase recovery_required)
      else pure tt

  Reaches-at :
      {phase phase' : ConnectionPhase} {t t' : List Entry}
      (r : Result DaemonError Done × LifecycleManager (Recorded B))
      → phase ≡ phase'
      → t ≡ t'
      → Reaches phase t r
      → Reaches phase' t' r
  Reaches-at r e f h = subst₂ (λ p u. Reaches p u r) e f h

  holds_if_guarded :
      (m' : LifecycleManager (Recorded B))
      → IsAt m (if was then reconnecting else preparing) ((validate, true) ∷ trace_of m) m'
      → Reaches held_phase guard_steps (hold_stage m')
  holds_if_guarded m' h =
      Reaches-if guarded held_phase guard_steps _ _ m'
        (λ e. Reaches-at _ (rw e) (rw e) (holds _ _ m' e refl h))
        (λ e. Reaches-at (ok tt, m') (rw e) (rw e) h)

  stops_if_connected :
      (m' : LifecycleManager (Recorded B))
      → IsAt m held_phase guard_steps m'
      → Reaches held_phase old_steps (old_stage m')
  stops_if_connected m' h =
      Reaches-if was held_phase old_steps _ _ m'
        (λ e. Reaches-at _ refl (rw e) (stops_old _ _ m' Fits-guard h))
        (λ e. Reaches-at (ok tt, m') refl (rw e) h)

  releases_if_lenient :
      (m' : LifecycleManager (Recorded B))
      → IsAt m held_phase up_steps m'
      → Reaches held_phase end_steps (release_stage m')
  releases_if_lenient m' h =
      Reaches-if (guarded && not request.killswitch) held_phase end_steps _ _ m'
        (λ e. Reaches-at _ refl (rw e) (releases _ _ m' Fits-up h))
        (λ e. Reaches-at (ok tt, m') refl (rw e) h)

  commits :
      (m' : LifecycleManager (Recorded B))
      → IsAt m held_phase end_steps m'
      → Ends IsCommitted (λ _ m''. IsRefused guarded insist m m'') (commit guarded request m')
  unfolding commit
  commits m' h = ground arith

  abbrev Concludes : Result DaemonError DaemonState × LifecycleManager (Recorded B) → Type 0
  Concludes = Ends IsCommitted (λ _ m'. IsRefused guarded insist m m')

  -- A stage and the rest behind it.
  stage :
      (phase : ConnectionPhase) (t : List Entry)
      (first : Eff (LifecycleManager (Recorded B)) DaemonError Done)
      (rest : Eff (LifecycleManager (Recorded B)) DaemonError DaemonState)
      (m' : LifecycleManager (Recorded B))
      → Reaches phase t (first m')
      → ((m'' : LifecycleManager (Recorded B)) → IsAt m phase t m'' → Concludes (rest m''))
      → Concludes ((first >> rest) m')
  stage phase t first rest m' h k =
      Ends->>= (λ _ m''. IsAt m phase t m'') IsCommitted (λ _ m''. IsRefused guarded insist m m'')
        (first m') (λ _. rest) h (λ _ m'' a. k m'' a)

  finishes :
      (m' : LifecycleManager (Recorded B))
      → IsAt m held_phase up_steps m'
      → Concludes (finish (recorded ops) guarded request m')
  unfolding finish
  finishes m' h =
      stage held_phase end_steps release_stage (commit guarded request) m'
        (releases_if_lenient m' h) commits

  establishes :
      (m' : LifecycleManager (Recorded B))
      → IsAt m held_phase old_steps m'
      → Concludes (establish (recorded ops) was guarded request m')
  unfolding establish
  establishes m' h =
      stage held_phase up_steps up_stage (finish (recorded ops) guarded request) m'
        (brings_up _ _ m' Fits-old h) finishes

  replaces :
      (m' : LifecycleManager (Recorded B))
      → IsAt m held_phase guard_steps m'
      → Concludes (replace (recorded ops) was guarded request m')
  unfolding replace
  replaces m' h =
      stage held_phase old_steps old_stage (establish (recorded ops) was guarded request) m'
        (stops_if_connected m' h) establishes

  protects :
      (m' : LifecycleManager (Recorded B))
      → IsAt m (if was then reconnecting else preparing) ((validate, true) ∷ trace_of m) m'
      → Concludes (protect (recorded ops) was guarded request m')
  unfolding protect
  protects m' h =
      stage held_phase guard_steps hold_stage (replace (recorded ops) was guarded request) m'
        (holds_if_guarded m' h) replaces

  pub connect_lem : Concludes (connect (recorded ops) request m)
  unfolding connect
  connect_lem =
      stage _ _ (on_err (call ((recorded ops).validate request)) (set_phase (prior was)))
        (protect (recorded ops) was guarded request) (begin was m) validates protects
