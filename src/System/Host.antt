-- ===== src/System/Host.antt =====
-- What daemon/src/system.rs asks of the operating system, and the state that it keeps itself.
use varmlen_client_linux.Base.{ℕ, Bool, List, Option, Result, Done, Eff, map_err, ◌++◌}
use varmlen_client_linux.Base.Text.{Str}
use varmlen_client_linux.Identity.{ProcessIdentity}
use varmlen_client_linux.Protocol.{ConnectionMode, DaemonError, DaemonErrorCode, IpAddr}
use varmlen_client_linux.Split.{SplitBackend, SplitManager, SplitError}
use varmlen_client_linux.Dns.{DnsBackend}

-- The end of a child process and what it wrote, as `String::from_utf8_lossy` reads it.
pub record Output : Type 0 where
  pub success : Bool
  pub stdout : Str
  pub stderr : Str

-- A child process is known by a number. An error is what the operating system says of it.
pub record Host (W : Type 0) : Type 0 where
  pub run : Str → List Str → Eff W Str Output  -- `Command::new(…).args(…).output()`
  pub exists : Str → W → Bool  -- `Path::exists`
  pub connects : ℕ → W → Bool × W  -- `TcpStream::connect` to a loopback port
  pub sleep : ℕ → W → W
  pub spawn : Str → List Str → Eff W Str ℕ
  pub child_id : ℕ → W → Option ℕ
  pub is_running : ℕ → W → Bool × W  -- `try_wait` says that it has not ended
  pub terminate : ℕ → W → W  -- SIGTERM
  pub ends_within : ℕ → ℕ → W → Bool × W  -- `timeout(…, child.wait())`
  pub kill : ℕ → Eff W Str Done
  pub wait : ℕ → W → W
  pub create_private : Str → Str → Eff W Str Done  -- a new file of mode 0600, written and synced
  pub temporary : Str → Str  -- `path.with_extension(format!("tmp-{}", std::process::id()))`
  pub rename : Str → Str → Eff W Str Done
  pub remove_file : Str → W → W
  pub create_dir_all : Str → Eff W Str Done
  pub make_private : Str → Eff W Str Done  -- mode 0700
  pub clear_log : Eff W Str Done
  pub identify : ℕ → W → Option ProcessIdentity  -- `ProcessIdentity::from_pid(…).ok()`
  pub show_ip : IpAddr → Str
  pub show_split_error : SplitError → Str

-- The fields that do not change.
pub record Paths : Type 0 where
  pub owner_uid : ℕ
  pub xray : Str
  pub net_helper : Str
  pub runtime_dir : Str

-- The checks of Xray documents, and the probe through a second Xray.
pub record Documents (W : Type 0) : Type 0 where
  pub ensure_trusted_binary : Str → Eff W DaemonError Done
  pub validate_xray_document : Str → Bool → Result DaemonError Done
  pub validation_config_ports : Str → Result DaemonError (List ℕ)
  pub validate_ping_xray_document : Str → List ℕ → Result DaemonError Done
  pub tun_devices_already_live : Str → W → Bool
  pub run_xray_validation : Str → Eff W DaemonError Done
  pub run_validation_egress_probe : Str → Eff W DaemonError Done

-- `S` is the state of the split backend beside the operating system's.
pub record Env (S W : Type 0) : Type 0 where
  pub host : Host W
  pub paths : Paths
  pub documents : Documents W
  pub dns : DnsBackend W
  pub split : SplitBackend (S × W)
  pub new_split : S
  pub is_healthy : S → W → Bool

-- `SystemLifecycleBackend`
pub record System (S W : Type 0) : Type 0 where
  pub world : W
  pub xray : Option ℕ
  pub xray_identity : Option ProcessIdentity
  pub mode : Option ConnectionMode
  pub dns_active : Bool
  pub split : Option (SplitManager S)
  pub split_apps : List Str

module _ {S W : Type 0} where
  -- A call of the operating system.
  abbrev pub on_host : {E A : Type 0} → Eff W E A → Eff (System S W) E A
  on_host op s = let (result, world) = op s.world in (result, record s { world = world })

  -- The same with another type of error.
  abbrev pub on_host_or :
      {A : Type 0} → (Str → DaemonError) → Eff W Str A → Eff (System S W) DaemonError A
  on_host_or f op s =
      let (result, world) = op s.world in (map_err f result, record s { world = world })

  abbrev pub touch : (W → W) → System S W → System S W
  touch f s = record s { world = f s.world }

-- `DaemonError::new(code, format!("…{detail}"))`
abbrev pub failure : DaemonErrorCode → Str → Str → DaemonError
failure code text detail = record { code = code; message = text ++ detail }
