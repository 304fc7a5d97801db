-- ===== src/LogStore.antt =====
-- daemon/src/log_store.rs: the log of Xray, in a file that is rotated before it grows too long.
pub mod Bounded
mod Tests
use varmlen_client_linux.Base.{
  ℕ, zero, suc, List, [], ◌∷◌, ◌++◌, Result, ok, err, Done, Eff, Bool, ltb, ◌+◌, ◌-◌, ◌*◌, ◌^◌, min,
  if◌then◌else◌, length, is_empty, drop, ◌==◌, throw, pure, ◌>>=◌, ◌>>◌, unwrap_or, to_option,
}
use varmlen_client_linux.Base.Text.{Str, str}
use varmlen_client_linux.Protocol.Frames.{Bytes}
use varmlen_client_linux.Files.{Files, IoError, not_found}

abbrev pub max_log_bytes : ℕ
max_log_bytes = 10 * 1024 * 1024

abbrev pub max_log_tail_bytes : ℕ
max_log_tail_bytes = 256 * 1024

abbrev pub rotated_logs : ℕ
rotated_logs = 3

-- An error that says that there is no such file counts as success.
abbrev pub if_exists : {W : Type 0} → Result IoError Done × W → Result IoError Done × W
if_exists (err not_found, w) = (ok tt, w)
if_exists (r, w) = (r, w)

-- `bytes.drain(..=newline)` at the first newline, if there is one.
abbrev pub after_newline : Bytes → Bytes → Bytes
after_newline whole [] = whole
after_newline whole (b ∷ bytes) = if b == 0xa then bytes else after_newline whole bytes

-- With the saturating sum of `u64`.
abbrev pub is_full : ℕ → Bytes → Bool
is_full current_len bytes = ltb max_log_bytes (min (current_len + length bytes) (2 ^ 64 - 1))

module _ {W : Type 0} (files : Files W) where
  abbrev pub rotated_path : Str → ℕ → Str
  rotated_path path index = if index == 0 then path else path ++ str "." ++ files.show index

  abbrev pub rename_if_exists : Str → Str → Eff W IoError Done
  rename_if_exists from to w = if_exists (files.rename from to w)

  abbrev pub remove_if_exists : Str → Eff W IoError Done
  remove_if_exists path w = if_exists (files.remove_file path w)

  -- `for index in (1..ROTATED_LOGS).rev()`, with the number of rounds that are left.
  abbrev pub shift : Str → ℕ → Eff W IoError Done
  shift path zero = pure tt
  shift path (suc n) = do
    rename_if_exists (rotated_path path (suc n)) (rotated_path path (suc n + 1))
    shift path n

  unfoldable pub rotate : Str → Eff W IoError Done
  rotate path = do
    remove_if_exists (rotated_path path rotated_logs)
    shift path (rotated_logs - 1)
    rename_if_exists path (rotated_path path 1)

  abbrev pub write_end : Str → Bytes → Eff W IoError Done
  write_end path bytes = do
    files.open_append path
    files.write_all path (drop (length bytes - max_log_bytes) bytes)
    files.flush path

  -- `LogStore::append`
  unfoldable pub append : Str → Bytes → Eff W IoError Done
  append path bytes w =
      let (metadata, w') = files.metadata_len path w in
      let steps : Eff W IoError Done = do
        if is_full (unwrap_or (to_option metadata) 0) bytes then rotate path else pure tt
        write_end path bytes
      in if is_empty bytes then (ok tt, w) else steps w'

  tail_of : Str → ℕ → ℕ → Eff W IoError Str
  tail_of path max_bytes len = do
    bytes ← files.read_from path (len - max_bytes)
    pure (
        files.from_utf8_lossy
          (if ltb 0 (len - max_bytes) then after_newline bytes bytes else bytes))

  tail_open : Result IoError Done → Str → ℕ → Eff W IoError Str
  unfolding tail_of
  tail_open (err not_found) path max_bytes w = (ok [], w)
  tail_open (err error) path max_bytes w = (err error, w)
  tail_open (ok _) path max_bytes w =
      let steps : Eff W IoError Str = do len ← files.metadata_len path; tail_of path max_bytes len
      in steps w

  -- `LogStore::tail`
  unfoldable pub tail : Str → ℕ → Eff W IoError Str
  unfolding tail_open
  tail path max_bytes w =
      let (opened, w') = files.open_read path w in
      tail_open opened path (min max_bytes max_log_tail_bytes) w'

  abbrev pub clear_from : Str → ℕ → ℕ → Eff W IoError Done
  clear_from path zero index = pure tt
  clear_from path (suc n) index = do
    remove_if_exists (rotated_path path index)
    clear_from path n (suc index)

  -- `LogStore::clear`, over the indices from 0 to `ROTATED_LOGS`.
  unfoldable pub clear : Str → Eff W IoError Done
  clear path = clear_from path (suc rotated_logs) 0
