-- ===== src/Protocol.antt =====
-- daemon/src/protocol.rs, the messages between the desktop client and the daemon.
-- u16, u32 and u64 fields are numbers; `String` is a list of scalar values.
pub mod Validate
pub mod Frames
pub mod Accepts
pub mod Samples
mod Tests
use varmlen_client_linux.Base.{
  ℕ, ◌*◌, String, Bool, List, [], ◌∷◌, Option, if◌then◌else◌, is_empty, Result,
}
use varmlen_client_linux.Base.Text.{Str, str}

abbrev pub protocol_version : ℕ
protocol_version = 3

abbrev pub max_frame_bytes : ℕ
max_frame_bytes = 1024 * 1024

abbrev pub max_config_bytes : ℕ
max_config_bytes = 384 * 1024

abbrev pub max_server_ips : ℕ
max_server_ips = 64

abbrev pub max_excluded_apps : ℕ
max_excluded_apps = 256

abbrev pub max_app_selector_bytes : ℕ
max_app_selector_bytes = 4096

abbrev pub max_ping_host_bytes : ℕ
max_ping_host_bytes = 253

abbrev pub max_dns_probe_urls : ℕ
max_dns_probe_urls = 8

abbrev pub max_dns_probe_url_bytes : ℕ
max_dns_probe_url_bytes = 2048

abbrev pub min_ping_timeout_ms : ℕ
min_ping_timeout_ms = 100

abbrev pub max_ping_timeout_ms : ℕ
max_ping_timeout_ms = 15000

pub data ConnectionMode : Type 0 where
  tun proxy : ConnectionMode

-- `std::net::IpAddr`, each address as the number that its octets spell.
pub data IpAddr : Type 0 where
  v4 v6 : ℕ → IpAddr

pub record ConnectRequest : Type 0 where
  pub mode : ConnectionMode
  pub xray_config : Str
  pub validation_config : Str
  pub server_ips : List IpAddr
  pub excluded_apps : List Str
  pub killswitch : Bool
  pub allow_lan : Bool

pub record TcpPingRequest : Type 0 where
  pub host : Str
  pub port : ℕ
  pub timeout_ms : ℕ

pub record ProxyPingRequest : Type 0 where
  pub xray_config : Str
  pub socks_port : ℕ
  pub socks_ports : List ℕ
  pub dns_probe_urls : List Str
  pub timeout_ms : ℕ

unfoldable pub effective_socks_ports : ProxyPingRequest → List ℕ
effective_socks_ports r = if is_empty r.socks_ports then r.socks_port ∷ [] else r.socks_ports

unfoldable pub effective_dns_probe_urls : ProxyPingRequest → List Str
effective_dns_probe_urls r = r.dns_probe_urls

-- `update_split` carries the list of its `ApplicationsRequest`.
pub data DaemonCommand : Type 0 where
  status : DaemonCommand
  connect : ConnectRequest → DaemonCommand
  disconnect : DaemonCommand
  update_split : List Str → DaemonCommand
  tcp_ping : TcpPingRequest → DaemonCommand
  proxy_ping : ProxyPingRequest → DaemonCommand
  log_tail : DaemonCommand
  clear_log : DaemonCommand

pub record RequestEnvelope : Type 0 where
  pub version : ℕ
  pub operation_id : ℕ
  pub command : DaemonCommand

pub data ConnectionPhase : Type 0 where
  disconnected preparing connected blocking reconnecting recovery_required : ConnectionPhase

pub record DaemonState : Type 0 where
  pub phase : ConnectionPhase
  pub split_active : Bool
  pub dns_protected : Bool
  pub rtt_ms : Option ℕ
  pub log_tail : Option Str

pub data DaemonErrorCode : Type 0 where
  unsupported_version frame_too_large invalid_frame unauthorized : DaemonErrorCode
  hold_block_failed hold_block_verification_failed hold_block_removal_failed : DaemonErrorCode
  tunnel_preparation_failed tunnel_commit_failed tunnel_cleanup_failed : DaemonErrorCode
  dns_install_failed dns_verification_failed invalid_request : DaemonErrorCode
  xray_unavailable xray_validation_failed xray_start_failed : DaemonErrorCode
  split_unavailable ping_failed internal : DaemonErrorCode

pub record DaemonError : Type 0 where
  pub code : DaemonErrorCode
  pub message : Str

abbrev pub daemon_error : DaemonErrorCode → String → DaemonError
daemon_error code message = record { code = code; message = str message }

pub record ResponseEnvelope : Type 0 where
  pub version : ℕ
  pub operation_id : ℕ
  pub result : Result DaemonError DaemonState
