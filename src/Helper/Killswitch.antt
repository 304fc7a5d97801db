-- ===== src/Helper/Killswitch.antt =====
-- helper/src/main.rs: the kill switch, and the marks of the programs outside the tunnel.
use varmlen_client_linux.Base.{
  ℕ, Bool, true, false, not, ◌&&◌, ◌||◌, List, [], ◌∷◌, ◌++◌, Option, none, some, Result, ok, err,
  Done, Eff, throw, lift_result, ok_or, ◌>>=◌, ◌>>◌, if◌then◌else◌, is_empty, all, leb, ◌==◌,
  length,
}
use varmlen_client_linux.Base.Text.{
  Str, str, len, is_ascii_alphanumeric, split_by, nonempty, decimal, hex,
}
use varmlen_client_linux.Protocol.{IpAddr}
use varmlen_client_linux.Helper.Rules.{killswitch_ruleset, ks_table, quoted}
use varmlen_client_linux.Helper.Machine.{Machine, nft_apply}

abbrev pub bypass_table : Str
bypass_table = str "varmlen_bypass"

abbrev pub bypass_mark : ℕ
bypass_mark = 0x2025

abbrev pub is_cgroup_char : ℕ → Bool
is_cgroup_char c =
    is_ascii_alphanumeric c || c == b'/' || c == b'.' || c == b'_' || c == b'-' || c == b'@'

unfoldable pub cg_valid : Str → Bool
cg_valid rel = not (is_empty rel) && leb (len rel) 512 && all is_cgroup_char rel

abbrev pub is_iface_char : ℕ → Bool
is_iface_char c = is_ascii_alphanumeric c || c == b'.' || c == b'_' || c == b'-'

abbrev level_of : Str → ℕ
level_of path = length (nonempty (split_by (λ c. c == b'/') path))

abbrev row : List Str → Str
row [] = 0xa ∷ []
row (part ∷ parts) = part ++ row parts

-- `format!` with the table, the level, the path, the mark and the interface. A tab is 9.
unfoldable pub bypass_ruleset : ℕ → Str → Str → Str
bypass_ruleset level path iface =
    row (str "add table inet " ∷ bypass_table ∷ [])
    ++ (row (str "delete table inet " ∷ bypass_table ∷ [])
        ++ (row (str "table inet " ∷ bypass_table ∷ str " {" ∷ [])
            ++ (row ((9 ∷ str "chain mangle {") ∷ [])
                ++ (row
                      ((9 ∷ 9 ∷ str "type route hook output priority mangle; policy accept;") ∷ [])
                    ++ (row (
                          (9 ∷ 9 ∷ str "socket cgroupv2 level ")
                          ∷ decimal level
                          ∷ str " "
                          ∷ quoted path
                          ∷ str " meta mark set "
                          ∷ hex bypass_mark
                          ∷ [])
                        ++ (row ((9 ∷ str "}") ∷ [])
                            ++ (row ((9 ∷ str "chain nat {") ∷ [])
                                ++ (row (
                                      (9
                                        ∷ 9
                                        ∷ str
                                            "type nat hook postrouting priority srcnat; policy accept;")
                                      ∷ [])
                                    ++ (row (
                                          (9 ∷ 9 ∷ str "meta mark ")
                                          ∷ hex bypass_mark
                                          ∷ str " oifname "
                                          ∷ quoted iface
                                          ∷ str " masquerade"
                                          ∷ [])
                                        ++ (row ((9 ∷ str "}") ∷ []) ++ row (str "}" ∷ [])))))))))))

module _ {W : Type 0} (machine : Machine W) where
  unfoldable pub apply_killswitch : List IpAddr → Bool → Eff W Str Done
  unfolding nft_apply
  apply_killswitch server_ips allow_lan =
      nft_apply machine (killswitch_ruleset machine.show_ip server_ips allow_lan)

  unfoldable pub remove_killswitch : W → W
  remove_killswitch = machine.nft (str "delete" ∷ str "table" ∷ str "inet" ∷ ks_table ∷ [])

  iface_or_pick : Option Str → Eff W Str Str
  iface_or_pick none w = (ok_or (machine.physical_iface w) (str "no physical interface"), w)
  iface_or_pick (some iface) w = (ok iface, w)

  -- The text that is checked, and the text that then goes to nft.
  unfoldable pub checked_ruleset : Str → Str → Result Str Str
  checked_ruleset path iface =
      if is_empty iface || not (all is_iface_char iface)
      then err (str "bad interface name")
      else ok (bypass_ruleset (level_of path) path iface)

  unfoldable pub bypass_up : Str → Option Str → Eff W Str Done
  unfolding cg_valid iface_or_pick checked_ruleset nft_apply
  bypass_up path iface_override =
      if not (cg_valid path)
      then throw (str "invalid cgroup path")
      else if level_of path == 0
      then throw (str "empty cgroup path")
      else do
        iface ← iface_or_pick iface_override
        rules ← lift_result (checked_ruleset path iface)
        nft_apply machine rules
        λ w. (ok tt, (machine.bypass_bpf path true w).1)

  detached : Option Str → W → W
  detached none w = w
  detached (some rel) w = if cg_valid rel then (machine.bypass_bpf rel false w).1 else w

  unfoldable pub bypass_down : Option Str → W → W
  unfolding detached
  bypass_down cgroup_rel w =
      detached cgroup_rel
        (machine.nft (str "delete" ∷ str "table" ∷ str "inet" ∷ bypass_table ∷ []) w)
