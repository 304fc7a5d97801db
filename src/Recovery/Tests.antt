-- ===== src/Recovery/Tests.antt =====
-- A cleanup of daemon/src/recovery.rs after a crash, on a host that lists what is left.
use varmlen_client_linux.Base.{true, false, List, [], ◌∷◌, none, some, ok, err, Done, Eff}
use varmlen_client_linux.Base.Text.{Str, str}
use varmlen_client_linux.Identity.{ProcessIdentity}
use varmlen_client_linux.System.Host.{Output}
use varmlen_client_linux.Recovery.{Resource, nft_table, CleanupBackend, CleanupReport}
use varmlen_client_linux.Recovery.Report.{Told}
use varmlen_client_linux.Recovery.Host.{CleanupHost, remove}
use varmlen_client_linux.Recovery.Host.Watch.{Watched}

abbrev leftovers : List Resource
leftovers = nft_table (str "varmlen_dns") ∷ nft_table (str "varmlen_ks") ∷ []

-- The first removal is of what is found first, and works; the other table stays.
abbrev shed : Resource → Eff (List Resource) Str Done
shed resource [] = (ok tt, [])
shed resource (x ∷ []) = (err (str "busy"), x ∷ [])
shed resource (x ∷ y ∷ rest) = (ok tt, y ∷ rest)

abbrev stubborn : CleanupBackend (List Resource)
stubborn = record { inspect = λ b. (ok b, b); remove = shed }

abbrev start : Told (List Resource)
start = record { inner = leftovers; told = [] }

abbrev report : CleanupReport
report = record {
  removed = nft_table (str "varmlen_dns") ∷ [];
  remaining = nft_table (str "varmlen_ks") ∷ [];
}

abbrev saved : ProcessIdentity
saved = record { pid = 42; start_time_ticks = 7; executable = str "/usr/lib/varmlen/xray" }

abbrev output : Output
output = record { success = true; stdout = []; stderr = [] }

abbrev host : CleanupHost Done
host = record {
  run = λ _ _ w. (ok output, w);
  identify = λ _ _. some saved;
  exists = λ _ _. false;
  terminate = λ _ w. w;
  kill = λ _ w. (ok tt, w);
  sleep = λ _ w. w;
  read_state = λ _ w. (ok none, w);
  remove_file = λ _ w. (ok tt, w);
  cleanup_split_cgroup = λ _ w. (ok tt, w);
  owner_uid = 1000;
  state_path = str "/run/varmlen/state";
  show = λ _. str "1000";
}

abbrev quiet : Watched Done
quiet = record { inner = tt; acts = [] }
