-- ===== src/Recovery.antt =====
-- daemon/src/recovery.rs: what a daemon that starts after a crash finds and removes. A `BTreeSet` is
-- the list of its elements in their order.
pub mod Found
pub mod Host
pub mod Report
mod Tests
use varmlen_client_linux.Base.{
  ℕ, Bool, true, false, not, ◌&&◌, ◌||◌, List, [], ◌∷◌, Option, none, some, Result, ok, err, Done,
  ltb, ◌==◌, if◌then◌else◌, is_empty, any, Eff, ◌>>=◌, ◌>>◌, pure,
}
use varmlen_client_linux.Base.Text.{Str, str_eq}
use varmlen_client_linux.Identity.{ProcessIdentity, matches}
use varmlen_client_linux.Protocol.{ConnectionPhase, disconnected, recovery_required}

pub data Resource : Type 0 where
  xray_process : ProcessIdentity → Resource
  tun_interface route_table nft_table split_bpf runtime_file : Str → Resource

abbrev pub same : Resource → Resource → Bool
same (xray_process p) (xray_process q) = matches p q
same (tun_interface s) (tun_interface t) = str_eq s t
same (route_table s) (route_table t) = str_eq s t
same (nft_table s) (nft_table t) = str_eq s t
same (split_bpf s) (split_bpf t) = str_eq s t
same (runtime_file s) (runtime_file t) = str_eq s t
same _ _ = false

abbrev pub mem : Resource → List Resource → Bool
mem r set = any (same r) set

pub record CleanupReport : Type 0 where
  pub removed : List Resource
  pub remaining : List Resource

unfoldable pub phase : CleanupReport → ConnectionPhase
phase report = if is_empty report.remaining then disconnected else recovery_required

-- The trait, its implementer's state being `B`.
pub record CleanupBackend (B : Type 0) : Type 0 where
  pub inspect : Eff B Str (List Resource)
  pub remove : Resource → Eff B Str Done

-- `before.difference(&remaining)`
abbrev pub difference : List Resource → List Resource → List Resource
difference [] remaining = []
difference (r ∷ before) remaining =
    let rest = difference before remaining in if mem r remaining then rest else r ∷ rest

module _ {B : Type 0} (ops : CleanupBackend B) where
  -- `let _ = self.backend.remove(resource)` for each resource.
  unfoldable pub remove_all : List Resource → B → B
  remove_all [] b = b
  remove_all (resource ∷ rest) b = remove_all rest (ops.remove resource b).1

  abbrev report : List Resource → List Resource → CleanupReport
  report before remaining = record { removed = difference before remaining; remaining = remaining }

  unfoldable pub cleanup : Eff B Str CleanupReport
  unfolding remove_all
  cleanup = do
    before ← ops.inspect
    λ b. (ok tt, remove_all before b)
    remaining ← ops.inspect
    pure (report before remaining)
