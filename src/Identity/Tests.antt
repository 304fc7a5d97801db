-- ===== src/Identity/Tests.antt =====
-- The identity of a process, at the text of one `/proc/…/stat`.
use varmlen_client_linux.Base.{◌∷◌, ◌++◌, some, ◌≡◌, refl}
use varmlen_client_linux.Base.Text.{Str, str, split_by, parse_digits}
use varmlen_client_linux.Identity.{ProcessIdentity, parse_start_time_ticks}

abbrev before : Str
before = str "4242 (odd ) name"

abbrev rest : Str
rest = str " S 1 4242 4242 0 -1 4194304 1 0 0 0 0 0 0 0 20 0 1 0 987654 1"

ticks : parse_start_time_ticks (before ++ b')' ∷ rest) ≡ some 987654
unfolding parse_start_time_ticks split_by parse_digits
ticks = refl

abbrev saved : ProcessIdentity
saved = record { pid = 42; start_time_ticks = 7; executable = str "/usr/bin/xray" }

abbrev reused : ProcessIdentity
reused = record { pid = 42; start_time_ticks = 8; executable = str "/usr/bin/xray" }
