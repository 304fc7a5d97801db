-- ===== src/Protocol/Validate.antt =====
-- daemon/src/protocol.rs, the checks on a request before it is handled. `reqwest::Url` is not part of
-- the repository, and the parser of `IpAddr` is not written out: both are arguments.
use varmlen_client_linux.Base.{
  ℕ, Bool, true, false, ◌&&◌, ◌||◌, not, List, [], ◌∷◌, ◌++◌, Option, none, some, Result, ok, err,
  Done, ltb, leb, ◌==◌, if◌then◌else◌, is_some, is_empty, length, any, all,
}
use varmlen_client_linux.Base.Text.{Str, str, len, str_eq, trim, contains_char}
use varmlen_client_linux.Protocol.{
  max_config_bytes, max_server_ips, max_excluded_apps, max_app_selector_bytes, max_ping_host_bytes,
  max_dns_probe_urls, max_dns_probe_url_bytes, min_ping_timeout_ms, max_ping_timeout_ms,
  protocol_version, ConnectionMode, tun, proxy, IpAddr, ConnectRequest, TcpPingRequest,
  ProxyPingRequest, effective_socks_ports, effective_dns_probe_urls, DaemonCommand, status, connect,
  disconnect, update_split, tcp_ping, proxy_ping, log_tail, clear_log, RequestEnvelope,
  DaemonErrorCode, invalid_request, unsupported_version,
}

-- The parts of a parsed `reqwest::Url` that the check reads.
pub record Url : Type 0 where
  pub scheme : Str
  pub username : Str
  pub password : Option Str
  pub fragment : Option Str
  pub host_str : Option Str

pub record Parsers : Type 0 where
  pub parse_url : Str → Option Url
  pub parse_ip : Str → Option IpAddr

abbrev reject_if : Bool → Result DaemonErrorCode Done
reject_if bad = if bad then err invalid_request else ok tt

abbrev pub bad_application : Str → Bool
bad_application application =
    is_empty (trim application)
    || ltb max_app_selector_bytes (len application)
    || contains_char 0 application

unfoldable pub validate_applications : List Str → Result DaemonErrorCode Done
validate_applications applications =
    reject_if (ltb max_excluded_apps (length applications) || any bad_application applications)

abbrev pub is_proxy : ConnectionMode → Bool
is_proxy proxy = true
is_proxy tun = false

unfoldable pub validate_connect_request : ConnectRequest → Result DaemonErrorCode Done
validate_connect_request r = reject_if (
    is_empty r.xray_config
    || is_empty r.validation_config
    || ltb max_config_bytes (len r.xray_config)
    || ltb max_config_bytes (len r.validation_config)
    || is_empty r.server_ips
    || ltb max_server_ips (length r.server_ips)
    || ltb max_excluded_apps (length r.excluded_apps)
    || any bad_application r.excluded_apps
    || (is_proxy r.mode && not (is_empty r.excluded_apps)))

-- `!(MIN_PING_TIMEOUT_MS..=MAX_PING_TIMEOUT_MS).contains(&timeout_ms)`
abbrev bad_timeout : ℕ → Bool
bad_timeout t = not (leb min_ping_timeout_ms t && leb t max_ping_timeout_ms)

unfoldable pub validate_tcp_ping_request : TcpPingRequest → Result DaemonErrorCode Done
validate_tcp_ping_request r = reject_if (
    is_empty (trim r.host)
    || ltb max_ping_host_bytes (len r.host)
    || contains_char 0 r.host
    || r.port == 0
    || bad_timeout r.timeout_ms)

abbrev pub contains_port : List ℕ → ℕ → Bool
contains_port ports port = any (λ p. p == port) ports

-- `ports.iter().enumerate().any(|(index, port)| ports[..index].contains(port))`, `before` being the
-- ports in front of the index.
abbrev pub repeats : List ℕ → List ℕ → Bool
repeats before [] = false
repeats before (port ∷ ports) = contains_port before port || repeats (before ++ port ∷ []) ports

abbrev pub starts_with_port : List ℕ → ℕ → Bool
starts_with_port [] port = false
starts_with_port (p ∷ ps) port = p == port

module _ (env : Parsers) where
  abbrev is_ip : Option Str → Bool
  is_ip none = false
  is_ip (some host) = is_some (env.parse_ip host)

  abbrev is_doh : Option Url → Bool
  is_doh none = false
  is_doh (some url) =
      str_eq url.scheme (str "https")
      && is_empty url.username
      && not (is_some url.password)
      && not (is_some url.fragment)
      && is_ip url.host_str

  unfoldable pub dns_probe_urls_are_valid : List Str → Bool
  dns_probe_urls_are_valid urls =
      leb (length urls) max_dns_probe_urls
      && all (λ raw. leb (len raw) max_dns_probe_url_bytes && is_doh (env.parse_url raw)) urls

  -- `ports[0]` is read after the test for an empty list.
  unfoldable pub validate_proxy_ping_request : ProxyPingRequest → Result DaemonErrorCode Done
  unfolding effective_socks_ports effective_dns_probe_urls dns_probe_urls_are_valid
  validate_proxy_ping_request r =
      let ports = effective_socks_ports r in
      reject_if (
        is_empty r.xray_config
        || ltb max_config_bytes (len r.xray_config)
        || r.socks_port == 0
        || is_empty ports
        || ltb max_server_ips (length ports)
        || not (starts_with_port ports r.socks_port)
        || contains_port ports 0
        || repeats [] ports
        || not (dns_probe_urls_are_valid (effective_dns_probe_urls r))
        || bad_timeout r.timeout_ms)

  unfoldable pub validate_command : DaemonCommand → Result DaemonErrorCode Done
  validate_command (connect r) = validate_connect_request r
  validate_command (tcp_ping r) = validate_tcp_ping_request r
  validate_command (proxy_ping r) = validate_proxy_ping_request r
  validate_command (update_split applications) = validate_applications applications
  validate_command status = ok tt
  validate_command disconnect = ok tt
  validate_command log_tail = ok tt
  validate_command clear_log = ok tt

  unfoldable pub validate_request : RequestEnvelope → Result DaemonErrorCode Done
  unfolding validate_command
  validate_request r =
      if r.version == protocol_version then validate_command r.command else err unsupported_version
