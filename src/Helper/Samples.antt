-- ===== src/Helper/Samples.antt =====
-- Machines for runs of helper/src/main.rs: every call succeeds, or every `ip` that has to succeed fails.
use varmlen_client_linux.Base.{
  Bool, true, false, [], ◌∷◌, Option, some, none, ok, err, Done, Eff, ◌≡◌, refl,
}
use varmlen_client_linux.Base.Text.{Str, str}
use varmlen_client_linux.Protocol.{IpAddr, v4, v6}
use varmlen_client_linux.System.Host.{Output}
use varmlen_client_linux.Helper.Machine.{Machine}
use varmlen_client_linux.Helper.Trace.{Recorded}
use varmlen_client_linux.Helper.Args.{Commands, allow_lan_flag}

abbrev route_shown : Bool → Output
route_shown success = record {
  success = success;
  stdout = str "default via 192.0.2.254 dev eth0 proto dhcp metric 100";
  stderr = str "denied";
}

abbrev fine : {W E : Type 0} → Eff W E Done
fine w = (ok tt, w)

-- An address is its number, behind a character if it is one of version 6.
abbrev pub show_ip : IpAddr → Str
show_ip (v4 a) = a ∷ []
show_ip (v6 a) = b':' ∷ a ∷ []

unfoldable pub parse_ip : Str → Option IpAddr
parse_ip (a ∷ []) = some (v4 a)
parse_ip (colon ∷ a ∷ []) = some (v6 a)
parse_ip _ = none

pub reads : (ip : IpAddr) → parse_ip (show_ip ip) ≡ some ip
unfolding parse_ip
reads (v4 a) = refl
reads (v6 a) = refl

pub no_flag : parse_ip allow_lan_flag ≡ none
unfolding parse_ip
no_flag = refl

abbrev pub machine : Bool → Machine Done
machine success = record {
  show_ip = show_ip;
  parse_ip = parse_ip;
  ip = λ _ w. (ok (route_shown success), w);
  nft = λ _ w. w;
  nft_spawn = λ w. (ok 3, w);
  nft_write = λ _ _. fine;
  nft_wait = λ _ w. (ok true, w);
  exists = λ _ _. false;
  read_to_string = λ _ _. err (str "none");
  write = λ _ _. fine;
  create_private_dir = λ _ w. w;
  open_nofollow = λ _ w. (ok 4, w);
  write_all = λ _ _ w. w;
  remove_file = λ _ w. w;
  physical_iface = λ _. some (str "eth0");
  bypass_bpf = λ _ _. fine;
  read_dir = λ _ _. none;
  read_lossy = λ _ _. none;
  read_link = λ _ _. none;
}

abbrev pub commands : Commands Done
commands = record {
  machine = machine true;
  raise_ambient_net_admin = λ w. w;
  tcp_ping_bypass = λ _ _ _ w. (ok 20, w);
  icmp_ping = λ _ _ w. (ok 10, w);
  bypass_watch = λ _ _ w. (0, w);
}

abbrev pub idle : Recorded Done
idle = record { world = tt; trace = [] }
