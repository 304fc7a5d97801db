-- ===== src/State/Tests.antt =====
-- Runs of the store of daemon/src/state.rs on a disk in memory.
use varmlen_client_linux.Base.{ℕ, [], ◌∷◌, none, ◌≡◌, ◌≢◌, ◌<◌, arith, length, ap}
use varmlen_client_linux.Base.Text.{Str, str}
use varmlen_client_linux.Protocol.{connected}
use varmlen_client_linux.Files.Memory.{Disk, memory, memory_laws}
use varmlen_client_linux.State.{PersistedState, new, write, temporary_path}
use varmlen_client_linux.State.Atomic.{Written, write-Written}
use varmlen_client_linux.State.Samples.{sample_serde}

abbrev path : Str
path = str "/s"

abbrev state : PersistedState
state = new 1000 connected

abbrev empty : Disk
empty _ = none

long_name : (parent : Str) (n : ℕ) → 2 < length (temporary_path memory parent n)
unfolding temporary_path
long_name [] n = omega arith
long_name (c ∷ parent) n = omega (arith, long_name parent n)

-- Every temporary name is longer than that path.
apart : (parent : Str) (n : ℕ) → temporary_path memory parent n ≢ path
apart parent n h =
    let same : length (temporary_path memory parent n) ≡ length path = ap length h in
    omega (arith, same, long_name parent n)

write-Written_example :
    Written memory sample_serde path
      (memory_laws path)
      state
      empty
      (write memory sample_serde path state empty)
write-Written_example = write-Written memory sample_serde path (memory_laws path) state empty apart

abbrev written : Disk
written = (write memory sample_serde path state empty).1
