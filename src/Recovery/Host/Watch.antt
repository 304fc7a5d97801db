-- ===== src/Recovery/Host/Watch.antt =====
-- The commands and signals of a removal (daemon/src/recovery.rs), and which of them touch only what
-- Varmlen laid.
use varmlen_client_linux.Base.{ℕ, true, List, [], ◌∷◌, Option, some, ◌≡◌, ◌⊎◌, any, All}
use varmlen_client_linux.Base.Text.{Str, str, str_eq}
use varmlen_client_linux.Identity.{ProcessIdentity, matches}
use varmlen_client_linux.Split.Routing.{last_word}
use varmlen_client_linux.Recovery.{Resource, xray_process}
use varmlen_client_linux.Recovery.Host.{CleanupHost, own_tables}

-- A command, or a signal to a process number with the process that had it at that moment.
pub data Act : Type 0 where
  command : Str → List Str → Act
  signal : ℕ → Option ProcessIdentity → Act

pub record Watched (W : Type 0) : Type 0 where
  pub inner : W
  pub acts : List Act

module _ {W : Type 0} where
  abbrev within : {R : Type 0} → (W → R × W) → Watched W → R × Watched W
  within op v = let (result, inner) = op v.inner in (result, record v { inner = inner })

  -- The same host, which also keeps the commands and signals.
  abbrev pub watched : CleanupHost W → CleanupHost (Watched W)
  watched host = record {
    run = λ program arguments v.
        let (result, inner) = host.run program arguments v.inner in
        (result, record { inner = inner; acts = command program arguments ∷ v.acts });
    identify = λ pid v. host.identify pid v.inner;
    exists = λ path v. host.exists path v.inner;
    terminate = λ pid v. record {
      inner = host.terminate pid v.inner;
      acts = signal pid (host.identify pid v.inner) ∷ v.acts;
    };
    kill = λ pid v.
        let (result, inner) = host.kill pid v.inner in
        (result, record { inner = inner; acts = signal pid (host.identify pid v.inner) ∷ v.acts });
    sleep = λ ms v. record v { inner = host.sleep ms v.inner };
    read_state = λ path. within (host.read_state path);
    remove_file = λ path. within (host.remove_file path);
    cleanup_split_cgroup = λ path. within (host.cleanup_split_cgroup path);
    owner_uid = host.owner_uid;
    state_path = host.state_path;
    show = host.show;
  }

abbrev pub tables : List Str
tables = str "100" ∷ str "101" ∷ str "102" ∷ []

abbrev pub IsSaved : Resource → ℕ → Option ProcessIdentity → Type 0
IsSaved (xray_process saved) pid (some live) = (pid ≡ saved.pid) × (matches saved live ≡ true)
IsSaved _ _ _ = ⊥

-- What a removal of that resource may do: an `ip` command that names one of the three tables or
-- deletes the tunnel; the deletion of one of the four `nft` tables; the cleanup of the network helper;
-- a signal to the saved process, if it still is that process.
abbrev pub IsOwn : List Str → Resource → Act → Type 0
IsOwn nft_names resource (command program arguments) =
    ((program ≡ str "ip")
      × ((any (str_eq (last_word arguments)) tables ≡ true)
          ⊎ (arguments ≡ str "link" ∷ str "delete" ∷ str "dev" ∷ str "varmlen0" ∷ [])))
    ⊎ ((program ≡ str "nft")
        × (any (str_eq (last_word arguments)) nft_names ≡ true)
        × (arguments ≡ str "delete" ∷ str "table" ∷ str "inet" ∷ last_word arguments ∷ []))
    ⊎ ((program ≡ str "/usr/libexec/varmlen/varmlen-net") × (arguments ≡ str "cleanup" ∷ []))
IsOwn nft_names resource (signal pid live) = IsSaved resource pid live

abbrev pub Own : {W : Type 0} → CleanupHost W → Resource → Watched W → Type 0
Own host resource v = All (IsOwn (own_tables host) resource) v.acts
