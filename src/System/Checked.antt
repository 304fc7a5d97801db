-- ===== src/System/Checked.antt =====
-- A connect with the checks of the documents and the probe of the candidate (daemon/src/system.rs).
use varmlen_client_linux.Base.{true, List, ℕ, ok, Done, ◌≡◌, refl}
use varmlen_client_linux.Base.Text.{str, decimal}
use varmlen_client_linux.Protocol.{disconnected, connected, DaemonState}
use varmlen_client_linux.Lifecycle.{LifecycleManager, new, bare, connect}
use varmlen_client_linux.Document.Json.{
  Value, has_other_key, lookup, get, pointer, items, as_object, insert,
}
use varmlen_client_linux.Document.Checks.{
  validate_xray_document, check_document, check_log, check_inbounds, check_outbounds,
  parse_document, inbound_by_tag, find, check_inbound, is_tun_inbound, outbounds_are_permitted,
  valid_tags, fresh_tag, count, is_proxy, is_direct, is_dns_out, is_block,
  contains_forbidden_file_key,
}
use varmlen_client_linux.Document.Permitted.{IsPermitted}
use varmlen_client_linux.Document.Ping.{
  validate_ping_xray_document, check_ping_document, check_ping_log, ping_inbounds,
  ping_inbound_tags, is_ping_inbound, ping_outbounds, ends_direct, last, before_last,
  ping_proxy_tags, is_marked, is_wireguard, check_ping_routing, check_ping_rules, targets_one,
  is_ping_rule,
}
use varmlen_client_linux.Document.Measured.{IsMeasured}
use varmlen_client_linux.Document.Ports.{
  validation_config_ports, validation_config_with_ports, document_ports, ports_of, serialized,
  configured_tun_devices, tun_names, tun_devices_already_live, with_ports, set_ports, set_port,
  length_items, put_inbounds, ports_are_fit,
}
use varmlen_client_linux.Document.Samples.{parser}
use varmlen_client_linux.System.Host.{System}
use varmlen_client_linux.System.Backend.{
  system_backend, activate_network, start_data_plane, validate, install_hold_block,
  verify_hold_block, verify_connection, remove_hold_block,
}
use varmlen_client_linux.System.Parts.{wait_until_ready, private_steps}
use varmlen_client_linux.System.Trust.{is_trusted}
use varmlen_client_linux.System.Probe.{documents}
use varmlen_client_linux.Split
use varmlen_client_linux.Dns
use varmlen_client_linux.System.Accepted.{checked, connect-IsPermitted}
use varmlen_client_linux.System.Samples.{env, fresh, machine, checked_request}

abbrev manager : LifecycleManager (System Done Done)
manager = new (fresh tt) disconnected

abbrev reported : DaemonState
reported = record (bare connected) { split_active = true; dns_protected = true }

returned :
    (connect (system_backend (checked (env Done) (machine Done) parser)) checked_request manager).0
    ≡ ok reported
unfolding connect new validate install_hold_block verify_hold_block start_data_plane
    wait_until_ready activate_network Split.apply Dns.install verify_connection remove_hold_block
    documents is_trusted private_steps validate_xray_document check_document check_log
    check_inbounds check_outbounds parse_document inbound_by_tag find check_inbound is_tun_inbound
    outbounds_are_permitted valid_tags fresh_tag count is_proxy is_direct is_dns_out is_block
    contains_forbidden_file_key has_other_key lookup get pointer items as_object
    validate_ping_xray_document check_ping_document check_ping_log ping_inbounds ping_inbound_tags
    is_ping_inbound ping_outbounds ends_direct last before_last ping_proxy_tags is_marked
    is_wireguard check_ping_routing check_ping_rules targets_one is_ping_rule decimal
    validation_config_ports validation_config_with_ports document_ports ports_of serialized
    configured_tun_devices tun_names tun_devices_already_live with_ports set_ports set_port
    length_items put_inbounds ports_are_fit insert
returned = refl

connect-IsPermitted_example :
    ((document : Value) × (parser.from_str (str "tunnel") ≡ ok document)
      × IsPermitted true document)
    × ((ports : List ℕ) × (document : Value) × (validation_config_ports parser (str "measured")
          ≡ ok ports)
        × (parser.from_str (str "measured") ≡ ok document)
        × IsMeasured ports document)
connect-IsPermitted_example =
    connect-IsPermitted (env Done) (machine Done) parser checked_request manager returned
