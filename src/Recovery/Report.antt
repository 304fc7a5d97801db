-- ===== src/Recovery/Report.antt =====
-- daemon/src/recovery.rs: what the report of a cleanup says, for every backend.
use varmlen_client_linux.Base.{false, List, [], ◌∷◌, ◌≡◌}
use varmlen_client_linux.Recovery.{Resource, CleanupBackend, mem}

-- A backend that also keeps the resources that it was told to remove, the newest first.
pub record Told (B : Type 0) : Type 0 where
  pub inner : B
  pub told : List Resource

abbrev pub told_of : {B : Type 0} → CleanupBackend B → CleanupBackend (Told B)
told_of ops = record {
  inspect = λ t. let (result, inner) = ops.inspect t.inner in (result, record t { inner = inner });
  remove = λ resource t.
      let (result, inner) = ops.remove resource t.inner in
      (result, record { inner = inner; told = resource ∷ t.told });
}

-- One list, oldest first, in front of another that is newest first.
abbrev pub onto : List Resource → List Resource → List Resource
onto [] told = told
onto (r ∷ rs) told = onto rs (r ∷ told)

abbrev pub IsGone : List Resource → Resource → Type 0
IsGone remaining r = mem r remaining ≡ false
