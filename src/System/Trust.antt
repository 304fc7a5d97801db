-- ===== src/System/Trust.antt =====
-- daemon/src/system.rs, `ensure_trusted_binary`, and what the check of a candidate asks of the system.
use varmlen_client_linux.Base.{
  ℕ, ◌%◌, ◌/◌, Bool, not, ◌&&◌, ◌||◌, List, ◌++◌, Result, ok, err, Done, Eff, if◌then◌else◌, ◌==◌,
}
use varmlen_client_linux.Base.Text.{Str, str}
use varmlen_client_linux.Protocol.{DaemonError, xray_unavailable}
use varmlen_client_linux.System.Host.{failure}

-- `symlink_metadata`
pub record Metadata : Type 0 where
  pub is_file : Bool
  pub uid : ℕ
  pub mode : ℕ

-- What these methods ask of the operating system besides. A listener is known by a number.
pub record Machine (W : Type 0) : Type 0 where
  pub metadata : Str → W → Result Str Metadata
  pub bind : Eff W Str ℕ  -- `TcpListener::bind("127.0.0.1:0")`
  pub local_port : ℕ → W → Result Str ℕ
  pub release : List ℕ → W → W  -- the listeners are dropped
  pub start_timer : ℕ → W → W  -- `timeout` of milliseconds
  pub is_over : W → Bool × W  -- and whether it is over
  pub probe_http_port : ℕ → Eff W DaemonError ℕ  -- a request through a proxy, within eight seconds

abbrev pub bit : ℕ → ℕ → Bool
bit weight mode = (mode / weight) % 2 == 1

-- `mode & 0o022 == 0 && mode & 0o111 != 0`, and so on.
unfoldable pub is_trusted : Metadata → Bool
is_trusted m =
    m.is_file
    && m.uid == 0
    && not (bit 16 m.mode || bit 2 m.mode)
    && (bit 64 m.mode || bit 8 m.mode || bit 1 m.mode)

module _ {W : Type 0} (machine : Machine W) where
  trusted : Str → Result Str Metadata → Result DaemonError Done
  trusted path (err e) =
      err (
        failure xray_unavailable (str "installed component ")
          (path ++ str " is unavailable: " ++ e))
  trusted path (ok m) =
      if is_trusted m
      then ok tt
      else err (
          failure xray_unavailable (str "installed component ")
            (path ++ str " is not a trusted root-owned executable"))

  unfoldable pub ensure_trusted_binary : Str → Eff W DaemonError Done
  unfolding trusted
  ensure_trusted_binary path w = (trusted path (machine.metadata path w), w)
