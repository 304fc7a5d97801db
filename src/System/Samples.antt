-- ===== src/System/Samples.antt =====
-- An operating system on which every call succeeds, for runs of daemon/src/system.rs.
use varmlen_client_linux.Base.{true, false, [], ◌∷◌, none, some, ok, Done, Eff}
use varmlen_client_linux.Base.Text.{str}
use varmlen_client_linux.Protocol.{tun, v4, ConnectRequest}
use varmlen_client_linux.Split.{SplitBackend}
use varmlen_client_linux.System.Trust.{Machine}
use varmlen_client_linux.System.Host.{Output, Host, Env, System}

abbrev pub fine : {W E : Type 0} → Eff W E Done
fine w = (ok tt, w)

abbrev output : Output
output = record {
  success = true;
  stdout = str "policy drop 0x2024 0x2025 dev varmlen0";
  stderr = [];
}

abbrev pub host : (W : Type 0) → Host W
host W = record {
  run = λ _ _ w. (ok output, w);
  exists = λ _ _. true;
  connects = λ _ w. (true, w);
  sleep = λ _ w. w;
  spawn = λ _ _ w. (ok 1, w);
  child_id = λ _ _. some 4242;
  is_running = λ _ w. (true, w);
  terminate = λ _ w. w;
  ends_within = λ _ _ w. (true, w);
  kill = λ _. fine;
  wait = λ _ w. w;
  create_private = λ _ _. fine;
  temporary = λ path. path;
  rename = λ _ _. fine;
  remove_file = λ _ w. w;
  create_dir_all = λ _. fine;
  make_private = λ _. fine;
  clear_log = fine;
  identify = λ _ _. none;
  show_ip = λ _. str "192.0.2.1";
  show_split_error = λ _. str "unavailable";
}

abbrev split : (B : Type 0) → SplitBackend B
split B = record {
  create_cgroup = λ _. fine;
  attach_socket_mark_bpf = fine;
  install_route_rules = fine;
  start_permission_watcher = λ _. fine;
  reconcile_existing = λ _. fine;
  update_plan = λ _. fine;
  refresh_route_rules = fine;
  rollback = fine;
}

abbrev pub env : (W : Type 0) → Env Done W
env W = record {
  host = host W;
  paths = record {
    owner_uid = 1000;
    xray = str "/usr/lib/varmlen/xray";
    net_helper = str "/usr/libexec/varmlen/varmlen-net";
    runtime_dir = str "/run/varmlen/user-1000";
  };
  documents = record {
    ensure_trusted_binary = λ _. fine;
    validate_xray_document = λ _ _. ok tt;
    validation_config_ports = λ _. ok (2090 ∷ []);
    validate_ping_xray_document = λ _ _. ok tt;
    tun_devices_already_live = λ _ _. false;
    run_xray_validation = λ _. fine;
    run_validation_egress_probe = λ _. fine;
  };
  dns = record { apply = fine; probe_through_tunnel = λ w. (ok true, w); remove = fine };
  split = split (Done × W);
  new_split = tt;
  is_healthy = λ _ _. true;
}

abbrev pub fresh : {W : Type 0} → W → System Done W
fresh world = record {
  world = world;
  xray = none;
  xray_identity = none;
  mode = none;
  dns_active = false;
  split = none;
  split_apps = [];
}

abbrev pub request : ConnectRequest
request = record {
  mode = tun;
  xray_config = str "{}";
  validation_config = str "{}";
  server_ips = v4 1 ∷ [];
  excluded_apps = str "/usr/bin/ssh" ∷ [];
  killswitch = false;
  allow_lan = false;
}

abbrev pub machine : (W : Type 0) → Machine W
machine W = record {
  metadata = λ _ _. ok (record { is_file = true; uid = 0; mode = 493 });
  bind = λ w. (ok 7, w);
  local_port = λ _ _. ok 20000;
  release = λ _ w. w;
  start_timer = λ _ w. w;
  is_over = λ w. (false, w);
  probe_http_port = λ _ w. (ok 42, w);
}

abbrev pub checked_request : ConnectRequest
checked_request = record request { xray_config = str "tunnel"; validation_config = str "measured" }
