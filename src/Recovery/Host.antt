-- ===== src/Recovery/Host.antt =====
-- daemon/src/recovery.rs, `SystemCleanupBackend`: what is looked for, and how each is removed.
pub mod Watch
pub mod Signals
pub mod Own
use varmlen_client_linux.Base.{
  ℕ, zero, suc, Bool, true, false, not, ◌&&◌, ◌||◌, List, [], ◌∷◌, ◌++◌, Option, none, some, Result,
  ok, err, Done, ltb, ◌==◌, if◌then◌else◌, is_empty, is_err, any, map_err, Eff, on_err, ◌>>=◌, ◌>>◌,
  pure, throw, lift_result,
}
use varmlen_client_linux.Base.Text.{Str, str, str_eq, contains, split_by, trim}
use varmlen_client_linux.Identity.{ProcessIdentity, matches}
use varmlen_client_linux.State.{PersistedState}
use varmlen_client_linux.Split.Routing.{split_table, routing_teardown_commands}
use varmlen_client_linux.Recovery.Found.{insert, insert_if, merge, route_resources}
use varmlen_client_linux.System.Host.{Output}
use varmlen_client_linux.Recovery.{
  Resource, xray_process, tun_interface, route_table, nft_table, split_bpf, runtime_file,
  CleanupBackend, same,
}

-- What the backend asks of the operating system; `read_state` is `StateStore::read`, and
-- `cleanup_split_cgroup` the function of that name.
pub record CleanupHost (W : Type 0) : Type 0 where
  pub run : Str → List Str → Eff W Str Output
  pub identify : ℕ → W → Option ProcessIdentity  -- `ProcessIdentity::from_pid`, its error one text
  pub exists : Str → W → Bool
  pub terminate : ℕ → W → W  -- SIGTERM
  pub kill : ℕ → Eff W Str Done  -- SIGKILL
  pub sleep : ℕ → W → W
  pub read_state : Str → Eff W Str (Option PersistedState)
  pub remove_file : Str → Eff W Str Done
  pub cleanup_split_cgroup : Str → Eff W Str Done
  pub owner_uid : ℕ
  pub state_path : Str
  pub show : ℕ → Str

module _ {W : Type 0} (host : CleanupHost W) where
  succeeded : Str → Output → Result Str Done
  succeeded program output =
      if output.success then ok tt else err (program ++ str ": " ++ trim output.stderr)

  unfoldable pub command_success : Str → List Str → Eff W Str Done
  unfolding succeeded
  command_success program arguments w =
      let (result, w') = host.run program arguments w in
      let steps : Eff W Str Done = do
        output ← lift_result (map_err (λ error. program ++ str ": " ++ error) result)
        lift_result (succeeded program output)
      in steps w'

  abbrev split_cgroup : Str
  split_cgroup = str "/sys/fs/cgroup/varmlen/user-" ++ host.show host.owner_uid ++ str "/bypass"

  -- The saved process, if it is the one that has its number now.
  live_process : Option ProcessIdentity → W → List Resource → List Resource
  live_process none w set = set
  live_process (some saved) w set =
      let lives : Option ProcessIdentity → Bool =
        λ o. elim o [ none ↦ false | some live ↦ matches saved live ] in
      insert_if (lives (host.identify saved.pid w)) (xray_process saved) set

  from_state : Option PersistedState → W → Result Str (List Resource)
  unfolding live_process
  from_state none w = ok []
  from_state (some state) w =
      if state.owner_uid == host.owner_uid
      then ok (insert (runtime_file host.state_path) (live_process state.xray w []))
      else err (str "recovery state belongs to another user")

  abbrev shows : Str → Output → Bool
  shows text output = contains text output.stdout

  answers : Result Str Output → Bool
  answers (ok output) = output.success
  answers (err _) = false

  nft_tables : List Str → List Resource → W → List Resource × W
  unfolding answers
  nft_tables [] set w = (set, w)
  nft_tables (name ∷ rest) set w =
      let (result, w') =
        host.run (str "nft") (str "list" ∷ str "table" ∷ str "inet" ∷ name ∷ []) w in
      nft_tables rest (insert_if (answers result) (nft_table name) set) w'

  asked : Str → Str → List Str → Eff W Str Output
  asked context program arguments w =
      let (result, w') = host.run program arguments w in
      (map_err (λ error. context ++ error) result, w')

  abbrev pub own_tables : List Str
  own_tables =
      str "varmlen_dns" ∷ str "varmlen_split_dns" ∷ str "varmlen_split" ∷ str "varmlen_ks" ∷ []

  rest_of : List Resource → Eff W Str (List Resource)
  unfolding asked nft_tables
  rest_of set = do
    rules ← asked (str "inspect policy rules: ") (str "ip") (str "rule" ∷ str "show" ∷ [])
    routes_v4 ← asked (str "inspect IPv4 routes: ") (str "ip") (str "route" ∷ str "show" ∷ [])
    routes_v6 ←
        asked (str "inspect IPv6 routes: ") (str "ip") (str "-6" ∷ str "route" ∷ str "show" ∷ [])
    λ w.
        let routed =
          merge (route_resources rules.stdout (routes_v4.stdout ++ 0xa ∷ routes_v6.stdout)) set in
        let (found, w') = nft_tables own_tables routed w in
        (ok (insert_if (host.exists split_cgroup w') (split_bpf split_cgroup) found), w')

  unfoldable pub inspect : Eff W Str (List Resource)
  unfolding from_state rest_of
  inspect = do
    state ← λ w.
        let (result, w') = host.read_state host.state_path w in
        (map_err (λ error. str "read recovery state: " ++ error) result, w')
    set ← λ w. (from_state state w, w)
    λ w.
        rest_of
          (insert_if (host.exists (str "/sys/class/net/varmlen0") w)
            (tun_interface (str "varmlen0")) set)
          w

  -- `let _ = command_success("ip", …)` for each of the commands.
  each_ip : List (List Str) → W → W
  unfolding command_success
  each_ip [] w = w
  each_ip (command ∷ rest) w = each_ip rest (command_success (str "ip") command w).1

  -- At most so many rounds, until one fails.
  until_error : ℕ → List Str → W → W
  unfolding command_success
  until_error zero arguments w = w
  until_error (suc rounds) arguments w =
      let (result, w') = command_success (str "ip") arguments w in
      let rest = until_error rounds arguments w' in if is_err result then w' else rest

  del_rule : Str → Str → Str → List Str
  del_rule family mark table =
      family ∷ str "rule" ∷ str "del" ∷ str "fwmark" ∷ mark ∷ str "lookup" ∷ table ∷ []

  del_rules : Str → List Str → W → W
  unfolding until_error del_rule
  del_rules table [] w = w
  del_rules table (mark ∷ rest) w = del_rules table rest (
      until_error 4 (del_rule (str "-6") mark table)
        (until_error 4 (del_rule (str "-4") mark table) w))

  flush : Str → List Str
  flush table = str "route" ∷ str "flush" ∷ str "table" ∷ table ∷ []

  remove_table : Str → Eff W Str Done
  unfolding each_ip del_rules flush command_success
  remove_table table w =
      if str_eq table split_table
      then (ok tt, each_ip routing_teardown_commands w)
      else if str_eq table (str "100")
      then command_success (str "ip") (flush (str "100")) (
          del_rules (str "100") (str "0x2024" ∷ str "0x2025" ∷ [])
            (command_success (str "/usr/libexec/varmlen/varmlen-net") (str "cleanup" ∷ []) w).1)
      else if str_eq table (str "101")
      then command_success (str "ip") (flush (str "101"))
          (del_rules (str "101") (str "0x2023" ∷ []) w)
      else (err (str "refusing to remove an unrecognized recovery resource"), w)

  -- The rounds of the wait for the end of a process; `true` once its number is free.
  await_end : ℕ → ℕ → W → Bool × W
  await_end zero pid w = (false, w)
  await_end (suc rounds) pid w =
      let rest = await_end rounds pid (host.sleep 100 w) in
      elim (host.identify pid w) [ none ↦ (true, w) | some _ ↦ rest ]

  -- The identity of the process is checked again before each signal.
  same_process : Str → ProcessIdentity → Eff W Str Done
  same_process refusal saved w = elim (host.identify saved.pid w) [
    | none ↦ (err (str "read process stat"), w)
    | some live ↦ if matches saved live then (ok tt, w) else (err refusal, w)
  ]

  kill_process : ProcessIdentity → Eff W Str Done
  unfolding same_process
  kill_process saved = do
    same_process (str "refusing to kill a reused PID") saved
    λ w.
        let (result, w') = host.kill saved.pid w in
        (map_err (λ error. str "kill stale Xray: " ++ error) result, w')

  unfoldable pub terminate_process : ProcessIdentity → Eff W Str Done
  unfolding same_process await_end kill_process
  terminate_process saved = do
    same_process (str "refusing to terminate a reused PID") saved
    λ w.
        let (ended, w') = await_end 20 saved.pid (host.terminate saved.pid w) in
        if ended then (ok tt, w') else kill_process saved w'

  abbrev refused : Eff W Str Done
  refused w = (err (str "refusing to remove an unrecognized recovery resource"), w)

  unfoldable pub remove : Resource → Eff W Str Done
  unfolding terminate_process command_success remove_table
  remove (xray_process saved) w = terminate_process saved w
  remove (tun_interface interface) w =
      if str_eq interface (str "varmlen0")
      then command_success (str "ip") (str "link" ∷ str "delete" ∷ str "dev" ∷ interface ∷ []) w
      else refused w
  remove (route_table table) w = remove_table table w
  remove (nft_table table) w =
      if any (str_eq table) own_tables
      then command_success (str "nft") (str "delete" ∷ str "table" ∷ str "inet" ∷ table ∷ []) w
      else refused w
  remove (split_bpf path) w =
      if str_eq path split_cgroup then host.cleanup_split_cgroup path w else refused w
  remove (runtime_file path) w =
      let (result, w') = host.remove_file path w in
      if str_eq path host.state_path
      then (map_err (λ error. str "remove state: " ++ error) result, w')
      else refused w

  abbrev pub system_cleanup : CleanupBackend W
  system_cleanup = record { inspect = inspect; remove = remove }
