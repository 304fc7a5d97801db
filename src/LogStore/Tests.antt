-- ===== src/LogStore/Tests.antt =====
-- Runs of the store of daemon/src/log_store.rs on a disk in memory.
use varmlen_client_linux.Base.{ℕ, List, none}
use varmlen_client_linux.Base.Text.{Str, str}
use varmlen_client_linux.Files.Memory.{Disk, memory}
use varmlen_client_linux.LogStore.{append}

abbrev path : Str
path = str "/l"

abbrev empty : Disk
empty _ = none

abbrev line : List ℕ
line = str "started\n"

abbrev logged : Disk
logged = (append memory path line empty).1
