-- ===== src/Helper/Pins.antt =====
-- helper/src/main.rs, `pin_existing_excluded_flows`.
use varmlen_client_linux.Base.{
  ℕ, Bool, true, false, List, [], ◌∷◌, ◌++◌, Option, none, some, Result, ok, err, if◌then◌else◌,
  is_empty, drop, unwrap_or, ◌==◌,
}
use varmlen_client_linux.Base.Text.{Str, str, lines}
use varmlen_client_linux.Helper.Machine.{Machine, nft_apply}
use varmlen_client_linux.Helper.Pids.{pid_matches_excluded, proc_file, parse_pid}
use varmlen_client_linux.Helper.Sockets.{Pins, no_pins, rows, pin_rules_batch}

-- `strip_prefix`
abbrev strip_prefix : Str → Str → Option Str
strip_prefix [] s = some s
strip_prefix (p ∷ ps) [] = none
strip_prefix (p ∷ ps) (c ∷ s) = elim (p == c) [ true ↦ strip_prefix ps s | false ↦ none ]

abbrev in_front : ℕ → Option Str → Option Str
in_front c none = none
in_front c (some s) = some (c ∷ s)

-- `strip_suffix(']')`
abbrev strip_bracket : Str → Option Str
strip_bracket [] = none
strip_bracket (c ∷ []) = if c == b']' then some [] else none
strip_bracket (c ∷ d ∷ s) = in_front c (strip_bracket (d ∷ s))

-- The inode in the target of a link, if that is a socket.
unfoldable pub socket_inode : Option Str → Option Str
socket_inode none = none
socket_inode (some target) = elim (strip_prefix (str "socket:[") target) [
  | none ↦ none
  | some rest ↦ strip_bracket rest
]

abbrev with_inode : Option Str → List Str → List Str
with_inode none rest = rest
with_inode (some inode) rest = inode ∷ rest

module _ {W : Type 0} (machine : Machine W) where
  unfoldable pub inodes_of_fds : Str → List Str → W → List Str
  unfolding socket_inode
  inodes_of_fds dir [] w = []
  inodes_of_fds dir (fd ∷ fds) w =
      with_inode (socket_inode (machine.read_link (dir ++ (str "/" ++ fd)) w))
        (inodes_of_fds dir fds w)

  unfoldable pub inodes_of_entry : List Str → Option ℕ → W → List Str
  unfolding inodes_of_fds
  inodes_of_entry excluded none w = []
  inodes_of_entry excluded (some pid) w =
      let dir = proc_file pid (str "/fd") in
      if pid_matches_excluded machine pid excluded w
      then inodes_of_fds dir (unwrap_or (machine.read_dir dir w) []) w
      else []

  -- The sockets of the excluded processes.
  unfoldable pub inodes : List Str → List Str → W → List Str
  unfolding inodes_of_entry
  inodes excluded [] w = []
  inodes excluded (name ∷ names) w =
      inodes_of_entry excluded (parse_pid name) w ++ inodes excluded names w

  unfoldable pub table : Bool → Bool → List Str → Result Str Str → Pins → Pins
  table is_udp is6 sockets (err e) p = p
  table is_udp is6 sockets (ok content) p = rows is_udp is6 sockets (drop 1 (lines content)) p

  unfoldable pub tables : List Str → W → Pins
  unfolding table
  tables sockets w =
      let read = λ (name : Str). machine.read_to_string name w in
      let tcp = table false false sockets (read (str "/proc/net/tcp")) no_pins in
      let udp = table true false sockets (read (str "/proc/net/udp")) tcp in
      let tcp6 = table false true sockets (read (str "/proc/net/tcp6")) udp in
      table true true sockets (read (str "/proc/net/udp6")) tcp6

  unfoldable pub apply_batch : Str → W → W
  unfolding nft_apply
  apply_batch batch w = if is_empty batch then w else (nft_apply machine batch w).1

  unfoldable pub pin_existing_excluded_flows : List Str → W → W
  unfolding inodes tables apply_batch
  pin_existing_excluded_flows excluded w =
      let sockets = inodes excluded (unwrap_or (machine.read_dir (str "/proc") w) []) w in
      let batch =
        if is_empty sockets then [] else pin_rules_batch machine.show_ip (tables sockets w) in
      apply_batch batch w
