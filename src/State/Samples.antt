-- ===== src/State/Samples.antt =====
-- A concrete encoding of the state of daemon/src/state.rs, for runs: states without a process only.
use varmlen_client_linux.Base.{
  ℕ, [], ◌∷◌, Option, none, some, ◌≡◌, ◌==◌, if◌then◌else◌, refl, ap, sym, ◌∙◌,
}
use mathlib.Core.Option.{some-injective}
use varmlen_client_linux.Identity.{ProcessIdentity}
use varmlen_client_linux.Protocol.{
  ConnectionPhase, disconnected, preparing, connected, blocking, reconnecting, recovery_required,
}
use varmlen_client_linux.Protocol.Frames.{Bytes, Serde}
use varmlen_client_linux.State.{PersistedState}

abbrev phase_code : ConnectionPhase → ℕ
phase_code disconnected = 0
phase_code preparing = 1
phase_code connected = 2
phase_code blocking = 3
phase_code reconnecting = 4
phase_code recovery_required = 5

abbrev phase_of : ℕ → ConnectionPhase
phase_of n =
    if n == 0
    then disconnected
    else if n == 1
    then preparing
    else if n == 2
    then connected
    else if n == 3
    then blocking
    else if n == 4
    then reconnecting
    else recovery_required

abbrev encode : ℕ → ℕ → ConnectionPhase → Option ProcessIdentity → Option Bytes
encode version uid phase none = some (version ∷ uid ∷ phase_code phase ∷ [])
encode version uid phase (some _) = none

abbrev decode : Bytes → Option PersistedState
decode (version ∷ uid ∷ code ∷ []) =
    some (record { version = version; owner_uid = uid; phase = phase_of code; xray = none })
decode _ = none

phase_of-phase_code : (phase : ConnectionPhase) → phase_of (phase_code phase) ≡ phase
phase_of-phase_code disconnected = refl
phase_of-phase_code preparing = refl
phase_of-phase_code connected = refl
phase_of-phase_code blocking = refl
phase_of-phase_code reconnecting = refl
phase_of-phase_code recovery_required = refl

pub decode-encode :
    (version uid : ℕ) (phase : ConnectionPhase) (xray : Option ProcessIdentity) (b : Bytes)
    → encode version uid phase xray ≡ some b
    → decode b ≡ some (record { version = version; owner_uid = uid; phase = phase; xray = xray })
decode-encode version uid phase none b h =
    ap decode (sym (some-injective (version ∷ uid ∷ phase_code phase ∷ []) b h))
    ∙ ap (λ p. some (record { version = version; owner_uid = uid; phase = p; xray = none }))
        (phase_of-phase_code phase)
decode-encode version uid phase (some x) b h = cc

abbrev pub sample_serde : Serde PersistedState
sample_serde = record {
  to_vec = λ s. encode s.version s.owner_uid s.phase s.xray;
  from_slice = decode;
  round_trip = λ s b h. decode-encode s.version s.owner_uid s.phase s.xray b h;
}
