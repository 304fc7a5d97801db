-- ===== src/Lifecycle/Commits.antt =====
-- What a connect (daemon/src/lifecycle.rs) that returns a state has made of its backend.
use varmlen_client_linux.Base.{
  Bool, true, Result, ok, Eff, ◌≡◌, arith, Ends, Ends->>=, Ends-ok, if◌then◌else◌, on_err, pure,
  ◌>>◌,
}
use varmlen_client_linux.Protocol.{ConnectRequest, DaemonState, DaemonError}
use varmlen_client_linux.Lifecycle.{
  LifecycleBackend, LifecycleManager, is_connected, is_tun, connect, protect, replace, establish,
  finish, bring_up, hold_network, stop_old, begin, clean_up, call, set_phase, prior,
}

-- `I` holds between the calls that come before the activation, which makes `Q` of it when it
-- succeeds; the two calls after it keep `Q`.
pub record Rises {B : Type 0} (ops : LifecycleBackend B) (request : ConnectRequest)
    (I Q : B → Type 0) : Type 0 where
  pub validate : (b : B) → I b → I (ops.validate request b).1
  pub install_hold_block : (b : B) → I b → I (ops.install_hold_block request b).1
  pub verify_hold_block : (b : B) → I b → I (ops.verify_hold_block b).1
  pub stop_data_plane : (b : B) → I b → I (ops.stop_data_plane true b).1
  pub start_data_plane : (b : B) → I b → I (ops.start_data_plane request b).1
  pub activate_network :
      (b : B)
      → I b
      → (ops.activate_network request b).0 ≡ ok tt
      → Q (ops.activate_network request b).1
  pub verify_connection : (b : B) → Q b → Q (ops.verify_connection request b).1
  pub remove_hold_block : (b : B) → Q b → Q (ops.remove_hold_block b).1

module _ {B : Type 0} (ops : LifecycleBackend B) (request : ConnectRequest) (I Q : B → Type 0)
    (r : Rises ops request I Q) where
  abbrev IfOk : {A : Type 0} → (B → Type 0) → Result DaemonError A × LifecycleManager B → Type 0
  IfOk P = Ends (λ _ m. P m.backend) (λ _ _. Unit)

  finishes :
      (guarded : Bool) (m : LifecycleManager B)
      → Q m.backend
      → IfOk Q (finish ops guarded request m)
  unfolding finish
  finishes guarded m q = ground (arith, r.remove_hold_block m.backend)

  brings_up : (m : LifecycleManager B) → I m.backend → IfOk Q (bring_up ops request m)
  unfolding bring_up
  brings_up m i = grind (arith, r.start_data_plane, r.activate_network, r.verify_connection)

  -- The rule of sequences, for a call that keeps `P`.
  stage :
      {A C : Type 0} (P : B → Type 0) (first : Eff (LifecycleManager B) DaemonError A)
      (rest : Eff (LifecycleManager B) DaemonError C) (m : LifecycleManager B)
      → IfOk P (first m)
      → ((m' : LifecycleManager B) → P m'.backend → IfOk Q (rest m'))
      → IfOk Q ((first >> rest) m)
  stage P first rest m h k =
      Ends->>= (λ _ m'. P m'.backend) (λ _ m'. Q m'.backend) (λ _ _. Unit) (first m) (λ _. rest) h
        (λ _ m' p. k m' p)

  handled :
      {A : Type 0} (P : B → Type 0) (op : Eff (LifecycleManager B) DaemonError A)
      (h : LifecycleManager B → LifecycleManager B) (m : LifecycleManager B)
      → IfOk P (op m)
      → IfOk P (on_err op h m)
  handled P op h m p = ground arith

  establishes :
      (was guarded : Bool) (m : LifecycleManager B)
      → I m.backend
      → IfOk Q (establish ops was guarded request m)
  unfolding establish
  establishes was guarded m i =
      stage Q (on_err (bring_up ops request) (clean_up ops was guarded request.killswitch))
        (finish ops guarded request) m
        (handled Q (bring_up ops request) (clean_up ops was guarded request.killswitch) m
          (brings_up m i))
        (finishes guarded)

  stops :
      (was guarded : Bool) (m : LifecycleManager B)
      → I m.backend
      → IfOk I ((if was then stop_old ops guarded else pure tt) m)
  unfolding stop_old
  stops was guarded m i = ground (arith, r.stop_data_plane m.backend i)

  replaces :
      (was guarded : Bool) (m : LifecycleManager B)
      → I m.backend
      → IfOk Q (replace ops was guarded request m)
  unfolding replace
  replaces was guarded m i =
      stage I (if was then stop_old ops guarded else pure tt) (establish ops was guarded request) m
        (stops was guarded m i) (establishes was guarded)

  holds :
      (was guarded : Bool) (m : LifecycleManager B)
      → I m.backend
      → IfOk I ((if guarded then hold_network ops was request else pure tt) m)
  unfolding hold_network
  holds was guarded m i =
      let j = r.install_hold_block m.backend i in
      ground (arith, r.verify_hold_block (ops.install_hold_block request m.backend).1 j)

  protects :
      (was guarded : Bool) (m : LifecycleManager B)
      → I m.backend
      → IfOk Q (protect ops was guarded request m)
  unfolding protect
  protects was guarded m i =
      stage I (if guarded then hold_network ops was request else pure tt)
        (replace ops was guarded request) m (holds was guarded m i) (replaces was guarded)

  validates :
      (was : Bool) (m : LifecycleManager B)
      → I m.backend
      → IfOk I (on_err (call (ops.validate request)) (set_phase (prior was)) m)
  validates was m i = ground (arith, r.validate m.backend i)

  connects : (m : LifecycleManager B) → I m.backend → IfOk Q (connect ops request m)
  unfolding connect
  connects m i =
      let was = is_connected m.state.phase in
      stage I (on_err (call (ops.validate request)) (set_phase (prior was)))
        (protect ops was (is_tun request.mode) request) (begin was m)
        (validates was (begin was m) i) (protects was (is_tun request.mode))

  -- If a connect returns a state, the backend has what its activation makes.
  pub connect-rises :
      (m : LifecycleManager B) {state : DaemonState}
      → I m.backend
      → (connect ops request m).0 ≡ ok state
      → Q (connect ops request m).1.backend
  connect-rises m i e = Ends-ok _ _ _ (connects m i) e

-- A connect that returns a state has had its request validated.
pub connect_validates :
    {B : Type 0} (ops : LifecycleBackend B) (request : ConnectRequest) (m : LifecycleManager B)
    {state : DaemonState}
    → (connect ops request m).0 ≡ ok state
    → (ops.validate request m.backend).0 ≡ ok tt
unfolding connect
connect_validates ops request m h = ground arith
