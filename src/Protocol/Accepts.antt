-- ===== src/Protocol/Accepts.antt =====
-- daemon/src/protocol.rs: what the checks accept, stated without their tests.
use varmlen_client_linux.Base.{
  ◌⊎◌, ℕ, ◌≤◌, ◌<◌, true, false, ◌||◌, List, [], ◌∷◌, ◌++◌, Option, none, some, ok, ◌≡◌, ◌≢◌, arith,
  length, any, All, ◌==◌, is_empty, or_false, ltb,
}
use varmlen_client_linux.Base.Text.{Str, len, trim, contains_char}
use varmlen_client_linux.Protocol.{
  max_config_bytes, max_server_ips, max_excluded_apps, max_app_selector_bytes, max_frame_bytes,
  min_ping_timeout_ms, max_ping_timeout_ms, max_ping_host_bytes, ConnectRequest, tun,
  TcpPingRequest, ProxyPingRequest, effective_socks_ports, DaemonCommand, connect, tcp_ping,
  proxy_ping, update_split, RequestEnvelope, protocol_version,
}
use varmlen_client_linux.Protocol.Validate.{
  Parsers, bad_application, validate_connect_request, validate_proxy_ping_request, contains_port,
  repeats, starts_with_port, validate_command, validate_request, validate_applications,
  validate_tcp_ping_request, dns_probe_urls_are_valid,
}
use varmlen_client_linux.Protocol.Frames.{Bytes, Serde, encode_frame, parsed, decode_request_frame}

abbrev pub Without : ℕ → List ℕ → Type 0
Without c s = All (λ x. x ≢ c) s

contains_char-Without : (c : ℕ) (s : Str) → contains_char c s ≡ false → Without c s
contains_char-Without c [] h = tt
contains_char-Without c (x ∷ s) h = ground (arith, contains_char-Without c s)

abbrev pub IsApplication : Str → Type 0
IsApplication app = (trim app ≢ []) × (len app ≤ max_app_selector_bytes) × Without 0 app

is_empty-false : (s : Str) → is_empty s ≡ false → s ≢ []
is_empty-false [] h = cc
is_empty-false (x ∷ s) h = ground arith

bad_application-false : (app : Str) → bad_application app ≡ false → IsApplication app
bad_application-false app h = ground (arith, is_empty-false (trim app), contains_char-Without 0 app)

any-bad_application : (apps : List Str) → any bad_application apps ≡ false → All IsApplication apps
any-bad_application [] h = tt
any-bad_application (app ∷ apps) h =
    let (here, later) = or_false (bad_application app) (any bad_application apps) h in
    (bad_application-false app here, any-bad_application apps later)

abbrev pub InRange : ℕ → Type 0
InRange timeout = (min_ping_timeout_ms ≤ timeout) × (timeout ≤ max_ping_timeout_ms)

pub record IsConnect (r : ConnectRequest) : Type 0 where
  pub config : (r.xray_config ≢ []) × (len r.xray_config ≤ max_config_bytes)
  pub validation : (r.validation_config ≢ []) × (len r.validation_config ≤ max_config_bytes)
  pub servers : (0 < length r.server_ips) × (length r.server_ips ≤ max_server_ips)
  pub applications : All IsApplication r.excluded_apps
  pub few_applications : length r.excluded_apps ≤ max_excluded_apps
  pub proxy_has_none : (r.mode ≡ tun) ⊎ (r.excluded_apps ≡ [])

validate_connect_request-IsConnect :
    (r : ConnectRequest) → validate_connect_request r ≡ ok tt → IsConnect r
unfolding validate_connect_request
validate_connect_request-IsConnect r h = record {
  config = ground (arith, is_empty-false r.xray_config);
  validation = ground (arith, is_empty-false r.validation_config);
  servers = ground arith;
  applications = any-bad_application r.excluded_apps (ground arith);
  few_applications = ground arith;
  proxy_has_none = ground arith;
}

abbrev pub IsTcpPing : TcpPingRequest → Type 0
IsTcpPing r =
    (trim r.host ≢ [])
    × (len r.host ≤ max_ping_host_bytes)
    × Without 0 r.host
    × (r.port ≢ 0)
    × InRange r.timeout_ms

validate_tcp_ping_request-IsTcpPing :
    (r : TcpPingRequest) → validate_tcp_ping_request r ≡ ok tt → IsTcpPing r
unfolding validate_tcp_ping_request
validate_tcp_ping_request-IsTcpPing r h =
    ground (arith, is_empty-false (trim r.host), contains_char-Without 0 r.host)

-- No port occurs twice.
abbrev pub AreDistinct : List ℕ → Type 0
AreDistinct [] = Unit
AreDistinct (p ∷ ps) = Without p ps × AreDistinct ps

contains_port-append :
    (xs : List ℕ) (q p : ℕ) → contains_port (xs ++ q ∷ []) p ≡ (contains_port xs p || q == p)
contains_port-append [] q p = ground arith
contains_port-append (x ∷ xs) q p = ground (arith, contains_port-append xs q p)

repeats-Without :
    (before ports : List ℕ) (p : ℕ)
    → contains_port before p ≡ true
    → repeats before ports ≡ false
    → Without p ports
repeats-Without before [] p c h = tt
repeats-Without before (q ∷ ports) p c h =
    let (fresh, rest) = or_false (contains_port before q) _ h in
    let later =
      repeats-Without (before ++ q ∷ []) ports p (rw contains_port-append (ground arith)) rest in
    ((λ e. ground (arith, c, fresh)), later)

repeats-AreDistinct : (before ports : List ℕ) → repeats before ports ≡ false → AreDistinct ports
repeats-AreDistinct before [] h = tt
repeats-AreDistinct before (q ∷ ports) h =
    let (fresh, rest) = or_false (contains_port before q) _ h in
    (
      repeats-Without (before ++ q ∷ []) ports q (rw contains_port-append (ground arith)) rest,
      repeats-AreDistinct (before ++ q ∷ []) ports rest,
    )

contains_port-Without : (ports : List ℕ) → contains_port ports 0 ≡ false → Without 0 ports
contains_port-Without [] h = tt
contains_port-Without (p ∷ ports) h = ground (arith, contains_port-Without ports)

-- The listeners of a probe are between one and 64 distinct ports that begin with the named one.
abbrev pub ArePorts : ℕ → List ℕ → Type 0
ArePorts first [] = ⊥
ArePorts first (p ∷ ps) =
    (p ≡ first) × (length (p ∷ ps) ≤ max_server_ips) × AreDistinct (p ∷ ps) × Without 0 (p ∷ ps)

ports-ArePorts :
    (first : ℕ) (ports : List ℕ)
    → is_empty ports ≡ false
    → starts_with_port ports first ≡ true
    → ltb max_server_ips (length ports) ≡ false
    → contains_port ports 0 ≡ false
    → repeats [] ports ≡ false
    → ArePorts first ports
ports-ArePorts first [] e s l z d = cc
ports-ArePorts first (p ∷ ps) e s l z d = (
  ground arith,
  ground arith,
  repeats-AreDistinct [] (p ∷ ps) d,
  contains_port-Without (p ∷ ps) z,
)

module _ (env : Parsers) where
  pub record IsProxyPing (r : ProxyPingRequest) : Type 0 where
    pub config : (r.xray_config ≢ []) × (len r.xray_config ≤ max_config_bytes)
    pub ports : ArePorts r.socks_port (effective_socks_ports r)
    pub probes : dns_probe_urls_are_valid env r.dns_probe_urls ≡ true
    pub timeout : InRange r.timeout_ms

  validate_proxy_ping_request-IsProxyPing :
      (r : ProxyPingRequest) → validate_proxy_ping_request env r ≡ ok tt → IsProxyPing r
  unfolding validate_proxy_ping_request
  validate_proxy_ping_request-IsProxyPing r h = record {
    config = ground (arith, is_empty-false r.xray_config);
    ports =
        ports-ArePorts r.socks_port (effective_socks_ports r) (ground arith) (ground arith)
          (ground arith) (ground arith) (ground arith);
    probes = ground arith;
    timeout = ground arith;
  }

  abbrev pub IsCommand : DaemonCommand → Type 0
  IsCommand (connect r) = IsConnect r
  IsCommand (tcp_ping r) = IsTcpPing r
  IsCommand (proxy_ping r) = IsProxyPing r
  IsCommand (update_split apps) = All IsApplication apps × (length apps ≤ max_excluded_apps)
  IsCommand _ = Unit

  validate_command-IsCommand : (c : DaemonCommand) → validate_command env c ≡ ok tt → IsCommand c
  unfolding validate_command validate_applications
  validate_command-IsCommand (connect r) h = validate_connect_request-IsConnect r h
  validate_command-IsCommand (tcp_ping r) h = validate_tcp_ping_request-IsTcpPing r h
  validate_command-IsCommand (proxy_ping r) h = validate_proxy_ping_request-IsProxyPing r h
  validate_command-IsCommand (update_split apps) h =
      (any-bad_application apps (ground arith), ground arith)
  validate_command-IsCommand _ h = tt

  validated :
      (found : Option RequestEnvelope) {r : RequestEnvelope}
      → parsed env found ≡ ok r
      → (r.version ≡ protocol_version) × (validate_command env r.command ≡ ok tt)
  unfolding validate_request
  validated none h = cc
  validated (some found) h = ground arith

  -- A frame that decodes into a request is at most a mebibyte long, and the request has the
  -- protocol's version and a command within all the bounds for its kind.
  pub decode_request_frame-IsCommand :
      (serde : Serde RequestEnvelope) (bytes : Bytes) {r : RequestEnvelope}
      → decode_request_frame env serde bytes ≡ ok r
      → (length bytes ≤ max_frame_bytes) × (r.version ≡ protocol_version) × IsCommand r.command
  unfolding decode_request_frame
  decode_request_frame-IsCommand serde bytes {r} h =
      let found : parsed env (serde.from_slice bytes) ≡ ok r = ground arith in
      let (version, valid) = validated (serde.from_slice bytes) found in
      (ground arith, version, validate_command-IsCommand r.command valid)

  -- A valid request that was encoded into a frame is decoded into the same request.
  pub decode_request_frame-encode_frame :
      (serde : Serde RequestEnvelope) (r : RequestEnvelope) (bytes : Bytes)
      → validate_request env r ≡ ok tt
      → encode_frame serde r ≡ ok bytes
      → decode_request_frame env serde bytes ≡ ok r
  unfolding decode_request_frame encode_frame
  decode_request_frame-encode_frame serde r bytes v e =
      let written : serde.to_vec r ≡ some bytes = ground arith in
      ground (arith, serde.round_trip r bytes written)
