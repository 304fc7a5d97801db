-- ===== src/Recovery/Host/Own.antt =====
-- daemon/src/recovery.rs: a removal touches only what Varmlen laid.
use varmlen_client_linux.Base.{true, List, ◌≡◌, any}
use varmlen_client_linux.Base.Text.{Str, str, str_eq}
use varmlen_client_linux.Split.Routing.{last_word}
use varmlen_client_linux.Recovery.{Resource}
use varmlen_client_linux.Recovery.Host.{CleanupHost}
use varmlen_client_linux.Recovery.Host.Watch.{tables}

module _ {W : Type 0} (host : CleanupHost W) (resource : Resource) where
  abbrev NamesTable : List Str → Type 0
  NamesTable arguments = any (str_eq (last_word arguments)) tables ≡ true

  helper : Str
  helper = str "/usr/libexec/varmlen/varmlen-net"
