-- ===== src/Document/Tests.antt =====
-- Runs of the checks in daemon/src/system.rs.
use varmlen_client_linux.Base.{true, false, [], ◌∷◌, ok, some, is_ok, ◌≡◌, refl, arith}
use varmlen_client_linux.Base.Text.{str, decimal}
use varmlen_client_linux.Document.Json.{Value}
use varmlen_client_linux.Document.Checks.{
  validate_xray_document, check_document, check_log, check_inbounds, check_outbounds,
  parse_document, inbound_by_tag, find, check_inbound, is_tun_inbound, outbounds_are_permitted,
  valid_tags, fresh_tag, count, is_proxy, is_direct, is_dns_out, is_block,
  contains_forbidden_file_key,
}
use varmlen_client_linux.Document.Json.{has_other_key, lookup, get, pointer, items, as_object}
use varmlen_client_linux.Document.Permitted.{IsPermitted, validate_xray_document-IsPermitted}
use varmlen_client_linux.Document.Ping.{
  validate_ping_xray_document, check_ping_document, check_ping_log, ping_inbounds,
  ping_inbound_tags, is_ping_inbound, ping_outbounds, ends_direct, last, before_last,
  ping_proxy_tags, is_marked, is_wireguard, check_ping_routing, check_ping_rules, targets_one,
  is_ping_rule,
}
use varmlen_client_linux.Document.Measured.{IsMeasured, validate_ping_xray_document-IsMeasured}
use varmlen_client_linux.Document.Ports.{
  validation_config_ports, validation_config_with_ports, document_ports, ports_of, serialized,
  configured_tun_devices, tun_names,
}
use varmlen_client_linux.Document.Reserved.{validation_config_with_ports_lem}
use varmlen_client_linux.Document.Samples.{parser}

tunnel_passes : validate_xray_document parser (str "tunnel") true ≡ ok tt
unfolding validate_xray_document check_document check_log check_inbounds check_outbounds
    parse_document inbound_by_tag find check_inbound is_tun_inbound outbounds_are_permitted
    valid_tags fresh_tag count is_proxy is_direct is_dns_out is_block contains_forbidden_file_key
    has_other_key lookup get pointer items as_object
tunnel_passes = refl

validate_xray_document-IsPermitted_example :
    (document : Value) × (parser.from_str (str "tunnel") ≡ ok document) × IsPermitted true document
validate_xray_document-IsPermitted_example =
    validate_xray_document-IsPermitted parser (str "tunnel") true tunnel_passes

measured_passes : validate_ping_xray_document parser (str "measured") (2090 ∷ []) ≡ ok tt
unfolding validate_ping_xray_document check_ping_document check_ping_log ping_inbounds
    ping_inbound_tags is_ping_inbound ping_outbounds ends_direct last before_last ping_proxy_tags
    is_marked is_wireguard check_ping_routing check_ping_rules targets_one is_ping_rule
    parse_document fresh_tag is_proxy contains_forbidden_file_key has_other_key lookup get pointer
    items as_object decimal
measured_passes = refl

validate_ping_xray_document-IsMeasured_example :
    (document : Value) × (parser.from_str (str "measured") ≡ ok document)
    × IsMeasured (2090 ∷ []) document
validate_ping_xray_document-IsMeasured_example =
    validate_ping_xray_document-IsMeasured parser (str "measured") (2090 ∷ []) measured_passes

ports_read : validation_config_ports parser (str "measured") ≡ ok (2090 ∷ [])
unfolding validation_config_ports document_ports ports_of parse_document get lookup items
ports_read = refl

validation_config_with_ports_lem_example :
    (document : Value) × (validation_config_with_ports parser (str "measured") (20000 ∷ [])
      ≡ some (serialized parser document))
    × (document_ports document ≡ ok (20000 ∷ []))
validation_config_with_ports_lem_example =
    validation_config_with_ports_lem parser (str "measured") (20000 ∷ []) ports_read refl
      (omega arith) refl

devices : configured_tun_devices parser (str "tunnel") ≡ str "varmlen0" ∷ []
unfolding configured_tun_devices tun_names get lookup items pointer
devices = refl

-- The tunnel's document names no port of its own.
refused : is_ok (validation_config_ports parser (str "tunnel")) ≡ false
unfolding validation_config_ports document_ports ports_of parse_document get lookup items
refused = refl
