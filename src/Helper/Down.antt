-- ===== src/Helper/Down.antt =====
-- helper/src/main.rs, `route_down` and `route_up` with its rollback.
use varmlen_client_linux.Base.{
  ℕ, zero, suc, Bool, true, false, List, [], ◌∷◌, ◌++◌, Option, none, Result, ok, err, Done, Eff,
  on_err, ◌>>=◌, if◌then◌else◌, is_empty, String,
}
use varmlen_client_linux.Base.Text.{Str, str, trim, lines, hex, contains_char}
use varmlen_client_linux.Protocol.{IpAddr}
use varmlen_client_linux.System.Host.{Output}
use varmlen_client_linux.Helper.Machine.{Machine, ip_quiet, write_file}
use varmlen_client_linux.Helper.Killswitch.{bypass_mark, bypass_down, remove_killswitch}
use varmlen_client_linux.Helper.Routes.{
  state_file, rp_all, dns_rule, flush_dns, into_tun, xray_dial_mark, words,
}
use varmlen_client_linux.Helper.Up.{detect_default_route, lay_routes}

abbrev pub unblackhole : String → List Str
unblackhole net = words ("-6" ∷ "route" ∷ "del" ∷ net ∷ [])

abbrev pub flush_phys : List Str
flush_phys = words ("route" ∷ "flush" ∷ "table" ∷ "100" ∷ [])

abbrev pub delete_rule : Str → ℕ → List Str
delete_rule fam mark = fam ∷ str "rule" ∷ str "del" ∷ str "fwmark" ∷ hex mark ∷ []

abbrev pub delete_route : Str → List Str
delete_route address = str "route" ∷ str "del" ∷ (address ++ str "/32") ∷ []

abbrev pub delete_route6 : Str → List Str
delete_route6 address = str "-6" ∷ str "route" ∷ str "del" ∷ (address ++ str "/128") ∷ []

abbrev pub delete_pin : Str → List Str
delete_pin address =
    if contains_char b':' address then delete_route6 address else delete_route address

-- The lines that are not blank, trimmed.
unfoldable pub addresses : List Str → List Str
addresses [] = []
addresses (text ∷ rest) =
    let others = addresses rest in if is_empty (trim text) then others else trim text ∷ others

-- The way into the tunnel goes first, so that the physical one is reached again.
abbrev pub leave_tunnel : List (List Str)
leave_tunnel =
    into_tun "del" "0.0.0.0/1"
    ∷ into_tun "del" "128.0.0.0/1"
    ∷ dns_rule "del"
    ∷ flush_dns
    ∷ unblackhole "::/1"
    ∷ unblackhole "8000::/1"
    ∷ []

module _ {W : Type 0} (machine : Machine W) where
  unfoldable pub quietly : List (List Str) → W → W
  quietly [] w = w
  quietly (args ∷ rest) w = quietly rest (ip_quiet machine args w)

  unfoldable pub each : (Str → List Str) → List Str → List (List Str)
  each call [] = []
  each call (address ∷ rest) = call address ∷ each call rest

  unfoldable pub from_list : (Str → List Str) → Str → Result Str Str → W → W
  from_list call path (err e) w = w
  from_list call path (ok list) w =
      machine.remove_file path (quietly (each call (addresses (lines list))) w)

  -- The routes to the addresses of a file, and the file.
  unfoldable pub unpin : (Str → List Str) → String → W → W
  unfolding each from_list
  unpin call name w =
      from_list call (state_file name) (machine.read_to_string (state_file name) w) w

  unfoldable pub was_deleted : Result Str Output → Bool
  was_deleted (err e) = false
  was_deleted (ok output) = output.success

  -- The deletions that are left, until one fails.
  unfoldable pub delete_rules : ℕ → Str → ℕ → W → W
  unfolding was_deleted
  delete_rules zero fam mark w = w
  delete_rules (suc left) fam mark w =
      let (result, w') = machine.ip (delete_rule fam mark) w in
      let rest = delete_rules left fam mark w' in if was_deleted result then rest else w'

  unfoldable pub delete_mark_rules : W → W
  unfolding delete_rules
  delete_mark_rules w =
      let w1 = delete_rules 4 (str "-4") xray_dial_mark w in
      let w2 = delete_rules 4 (str "-6") xray_dial_mark w1 in
      let w3 = delete_rules 4 (str "-4") bypass_mark w2 in delete_rules 4 (str "-6") bypass_mark w3

  unfoldable pub drop_bypass : Bool → W → W
  unfolding unpin
  drop_bypass true w = w
  drop_bypass false w = unpin delete_pin "bypass_pins" (bypass_down machine none w)

  unfoldable pub restored : Result Str Str → W → W
  restored (err e) w = w
  restored (ok orig) w =
      let w' = if is_empty (trim orig) then w else (write_file machine rp_all (trim orig) w).1 in
      machine.remove_file (state_file "rp_filter_all.orig") w'

  unfoldable pub restore_rp_filter : W → W
  unfolding restored
  restore_rp_filter w = restored (machine.read_to_string (state_file "rp_filter_all.orig") w) w

  -- What follows the way out of the tunnel.
  unfoldable pub clear_rest : Bool → W → W
  unfolding unpin delete_mark_rules drop_bypass quietly restore_rp_filter
  clear_rest keep_bypass w =
      let w1 = unpin delete_route6 "servers6" w in
      let w2 = drop_bypass keep_bypass (delete_mark_rules w1) in
      let w3 = quietly (flush_phys ∷ (str "-6" ∷ flush_phys) ∷ []) w2 in
      restore_rp_filter (unpin delete_route "servers" w3)

  unfoldable pub route_down : Bool → W → W
  unfolding quietly clear_rest
  route_down keep_bypass w = clear_rest keep_bypass (quietly leave_tunnel w)

  unfoldable pub route_up : List IpAddr → Option Str → List Str → Eff W Str Done
  unfolding route_down
  route_up servers cgroup apps = do
    (gateway, iface) ← detect_default_route machine
    on_err (lay_routes machine gateway iface servers cgroup apps) (route_down false)

  unfoldable pub delete_tun : W → W
  delete_tun = ip_quiet machine (words ("link" ∷ "delete" ∷ "dev" ∷ "varmlen0" ∷ []))

  unfoldable pub cleanup : W → W
  unfolding route_down delete_tun
  cleanup w = delete_tun (route_down false (remove_killswitch machine w))
