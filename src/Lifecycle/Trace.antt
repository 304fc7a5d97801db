-- ===== src/Lifecycle/Trace.antt =====
-- A backend that also records each call with its outcome, as the `FakeBackend` of the tests of
-- daemon/src/lifecycle.rs does, over any backend; and what a record says of the hold block.
use varmlen_client_linux.Base.{
  ℕ, suc, Bool, true, false, List, [], ◌∷◌, ◌++◌, is_ok, Eff, ◌≡◌, if◌then◌else◌,
}
use varmlen_client_linux.Protocol.{DaemonError}
use varmlen_client_linux.Lifecycle.{LifecycleBackend, LifecycleManager}

pub data Action : Type 0 where
  validate install_hold verify_hold stop_preserving_split stop_fully : Action
  start activate update_split verify_connection remove_hold : Action

abbrev pub Entry : Type 0
Entry = Action × Bool

-- The newest entry stands first.
pub record Recorded (B : Type 0) : Type 0 where
  pub inner : B
  pub trace : List Entry

module _ {B : Type 0} where
  abbrev pub logged : {A : Type 0} → Action → Eff B DaemonError A → Eff (Recorded B) DaemonError A
  logged action op r =
      let (result, inner) = op r.inner in
      (result, record { inner = inner; trace = (action, is_ok result) ∷ r.trace })

  abbrev pub recorded : LifecycleBackend B → LifecycleBackend (Recorded B)
  recorded ops = record {
    data_plane_alive = λ r.
        let (alive, inner) = ops.data_plane_alive r.inner in (alive, record r { inner = inner });
    validate = λ request. logged validate (ops.validate request);
    install_hold_block = λ request. logged install_hold (ops.install_hold_block request);
    verify_hold_block = logged verify_hold ops.verify_hold_block;
    stop_data_plane = λ preserve_split.
        logged (if preserve_split then stop_preserving_split else stop_fully)
          (ops.stop_data_plane preserve_split);
    start_data_plane = λ request. logged start (ops.start_data_plane request);
    activate_network = λ request. logged activate (ops.activate_network request);
    update_split = λ applications. logged update_split (ops.update_split applications);
    verify_connection = λ request. logged verify_connection (ops.verify_connection request);
    remove_hold_block = logged remove_hold ops.remove_hold_block;
  }

  abbrev pub trace_of : LifecycleManager (Recorded B) → List Entry
  trace_of m = m.backend.trace

-- The hold block is known to be in force: it was verified, and no removal was tried since.
abbrev pub held : List Entry → Bool
held [] = false
held ((verify_hold, succeeded) ∷ t) = succeeded
held ((remove_hold, _) ∷ t) = false
held (_ ∷ t) = held t

-- Each stop of the data plane fell within the hold block.
abbrev pub StopsHeld : List Entry → Type 0
StopsHeld [] = Unit
StopsHeld ((stop_preserving_split, _) ∷ t) = (held t ≡ true) × StopsHeld t
StopsHeld ((stop_fully, _) ∷ t) = (held t ≡ true) × StopsHeld t
StopsHeld (_ ∷ t) = StopsHeld t

-- How often the data plane was started, stopped or rerouted.
abbrev pub plane_actions : List Entry → ℕ
plane_actions [] = 0
plane_actions ((stop_preserving_split, _) ∷ t) = suc (plane_actions t)
plane_actions ((stop_fully, _) ∷ t) = suc (plane_actions t)
plane_actions ((start, _) ∷ t) = suc (plane_actions t)
plane_actions ((activate, _) ∷ t) = suc (plane_actions t)
plane_actions (_ ∷ t) = plane_actions t

-- No check of the hold block failed.
abbrev pub no_lapse : List Entry → Bool
no_lapse [] = true
no_lapse ((verify_hold, false) ∷ t) = false
no_lapse (_ ∷ t) = no_lapse t

-- The calls of a connect that succeeds, oldest first.
abbrev pub hold_steps : Bool → List Action
hold_steps guarded = if guarded then install_hold ∷ verify_hold ∷ [] else []

abbrev pub connect_steps : (was_connected guarded killswitch : Bool) → List Action
connect_steps was_connected guarded killswitch =
    validate ∷ hold_steps guarded
    ++ ((if was_connected then stop_preserving_split ∷ [] else [])
        ++ start
          ∷ activate
          ∷ verify_connection
          ∷ (if guarded then if killswitch then [] else remove_hold ∷ [] else []))

-- A record of those calls, each of which succeeded, in front of an older record.
abbrev pub succeed : List Action → List Entry → List Entry
succeed [] t = t
succeed (a ∷ later) t = succeed later ((a, true) ∷ t)
