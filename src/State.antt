-- ===== src/State.antt =====
-- daemon/src/state.rs: the file that says, after a crash, what the daemon was doing.
pub mod Atomic
pub mod Samples
mod Tests
use varmlen_client_linux.Base.{
  ℕ, List, [], ◌++◌, Option, none, some, Result, ok, err, Done, Eff, Bool, true, false, ltb, ◌+◌,
  ◌*◌, if◌then◌else◌, length, not, ◌==◌, on_err, throw, pure, ◌>>=◌, ◌>>◌, lift_result, ok_or,
}
use varmlen_client_linux.Base.Text.{Str, str}
use varmlen_client_linux.Protocol.{ConnectionPhase}
use varmlen_client_linux.Protocol.Frames.{Bytes, Serde}
use varmlen_client_linux.Identity.{ProcessIdentity}
use varmlen_client_linux.Files.{Files, IoError, not_found, invalid_data, invalid_input}

abbrev pub state_version : ℕ
state_version = 1

abbrev pub max_state_bytes : ℕ
max_state_bytes = 1024 * 1024

pub record PersistedState : Type 0 where
  pub version : ℕ
  pub owner_uid : ℕ
  pub phase : ConnectionPhase
  pub xray : Option ProcessIdentity

abbrev pub new : ℕ → ConnectionPhase → PersistedState
new owner_uid phase = record {
  version = state_version;
  owner_uid = owner_uid;
  phase = phase;
  xray = none;
}

abbrev pub too_large : IoError
too_large = invalid_data (str "Varmlen state file is too large")

abbrev pub of_current_version : PersistedState → Result IoError (Option PersistedState)
of_current_version state =
    if state.version == state_version
    then ok (some state)
    else err (invalid_data (str "unsupported Varmlen state version"))

unfoldable pub temporary_path : {W : Type 0} → Files W → Str → ℕ → Str
temporary_path files parent n =
    parent ++ str "/.state-" ++ files.show files.process_id ++ str "-" ++ files.show n ++ str ".tmp"

abbrev pub of_json : Option PersistedState → Result IoError (Option PersistedState)
of_json none = err (invalid_data (str "the state is not valid JSON"))
of_json (some state) = of_current_version state

module _ {W : Type 0} (files : Files W) (serde : Serde PersistedState) where
  abbrev pub decoded : Bytes → Result IoError (Option PersistedState)
  decoded bytes = of_json (serde.from_slice bytes)

  -- The file once it is open.
  unfoldable pub read_open : Str → Eff W IoError (Option PersistedState)
  read_open path = do
    len ← files.metadata_len path
    if ltb max_state_bytes len then throw too_large else pure tt
    bytes ← files.read_to_end path (max_state_bytes + 1)
    if ltb max_state_bytes (length bytes) then throw too_large else pure tt
    lift_result (decoded bytes)

  abbrev pub if_open : Result IoError Done → Str → Eff W IoError (Option PersistedState)
  if_open (ok _) path w = read_open path w
  if_open (err not_found) path w = (ok none, w)
  if_open (err error) path w = (err error, w)

  -- `StateStore::read`
  unfoldable pub read : Str → Eff W IoError (Option PersistedState)
  unfolding read_open
  read path w = let (opened, w') = files.open_read path w in if_open opened path w'

  unfoldable pub write_steps : Str → Str → Str → PersistedState → Eff W IoError Done
  write_steps path parent temporary state = do
    files.create_new temporary
    bytes ← lift_result (ok_or (serde.to_vec state) (invalid_data (str "the state has no JSON")))
    files.write_all temporary bytes
    files.sync_all temporary
    files.rename temporary path
    files.sync_all parent

  -- `let _ = remove_file(…)`
  unfoldable pub write_in : Str → Str → PersistedState → Eff W IoError Done
  unfolding temporary_path
  write_in path parent state w =
      let (n, w') = files.fetch_add w in
      let temporary = temporary_path files parent n in
      on_err (write_steps path parent temporary state) (λ v. (files.remove_file temporary v).1) w'

  abbrev pub write_under : Option Str → Str → PersistedState → Eff W IoError Done
  write_under none path state = throw (invalid_input (str "state path has no parent"))
  write_under (some parent) path state = write_in path parent state

  -- `StateStore::write`
  unfoldable pub write : Str → PersistedState → Eff W IoError Done
  unfolding write_in
  write path state w =
      if not (state.version == state_version)
      then (err (invalid_input (str "unsupported Varmlen state version")), w)
      else if files.is_symlink path w
      then (err (invalid_input (str "state destination must not be a symlink")), w)
      else write_under (files.parent path) path state w
