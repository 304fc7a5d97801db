-- ===== src/Document/Checks.antt =====
-- daemon/src/system.rs, lines 1325 to 1475 and 1732 to 1762: `validate_xray_document` and its helpers.
use varmlen_client_linux.Base.{
  ℕ, ◌+◌, Bool, true, false, not, ◌&&◌, ◌||◌, List, [], ◌∷◌, ◌++◌, Option, none, some, String,
  Result, Done, ok_or, map_err, length, is_empty, leb, ◌==◌, if◌then◌else◌, is_some,
}
use varmlen_client_linux.Base.Text.{Str, str}
use varmlen_client_linux.Base.Checked.{◌>>=◌, ◌>>◌, unless}
use varmlen_client_linux.Protocol.{DaemonError, daemon_error, invalid_request, max_server_ips}
use varmlen_client_linux.Document.Json.{
  Value, null, boolean, number, text, array, object, Items, empty, more, Fields, closed, member,
  Parser, as_object, as_str, str_at, u64_at, array_at, object_at, pointer, and_then, is_text,
  one_of, is_one_of, has_other_key,
}

abbrev pub tun_interface : Str
tun_interface = str "varmlen0"

abbrev pub proxy_port : ℕ
proxy_port = 2081

abbrev pub invalid : String → DaemonError
invalid message = daemon_error invalid_request message

-- `serde_json::from_str(raw)` with the error of the daemon.
unfoldable pub parse_document : Parser → String → Str → Result DaemonError Value
parse_document parser context raw =
    map_err (λ error. record { code = invalid_request; message = str context ++ error })
      (parser.from_str raw)

abbrev pub file_keys : List Str
file_keys = str "certificateFile" ∷ str "keyFile" ∷ str "certificatePath" ∷ str "keyPath" ∷ []

unfoldable mutual
  pub contains_forbidden_file_key : Value → Bool
  contains_forbidden_file_key null = false
  contains_forbidden_file_key (boolean b) = false
  contains_forbidden_file_key (number n) = false
  contains_forbidden_file_key (text s) = false
  contains_forbidden_file_key (array vs) = any_forbidden vs
  contains_forbidden_file_key (object fs) = any_forbidden_field fs

  pub any_forbidden : Items → Bool
  any_forbidden empty = false
  any_forbidden (more v vs) = contains_forbidden_file_key v || any_forbidden vs

  pub any_forbidden_field : Fields → Bool
  any_forbidden_field closed = false
  any_forbidden_field (member key v fs) =
      (one_of file_keys key || contains_forbidden_file_key v) || any_forbidden_field fs

abbrev pub has_tag_and_protocol : Str → Str → Value → Bool
has_tag_and_protocol tag protocol v =
    is_text (str_at (str "tag") v) tag && is_text (str_at (str "protocol") v) protocol

unfoldable pub find : (Value → Bool) → List Value → Option Value
find p [] = none
find p (v ∷ vs) = if p v then some v else find p vs

unfoldable pub inbound_by_tag : List Value → Str → Str → Result DaemonError Value
inbound_by_tag inbounds tag protocol =
    ok_or (find (has_tag_and_protocol tag protocol) inbounds) (record {
      code = invalid_request;
      message = str "required Xray inbound " ++ tag ++ str " is missing";
    })

-- `vs.iter().filter(p).count()`
unfoldable pub count : (Value → Bool) → List Value → ℕ
count p [] = 0
count p (v ∷ vs) = (if p v then 1 else 0) + count p vs

-- The tags are texts, not empty and all different; `seen` is the set of those before.
unfoldable pub fresh_tag : List Str → Option Str → Bool
fresh_tag seen none = false
fresh_tag seen (some tag) = not (is_empty tag) && not (one_of seen tag)

abbrev pub or_empty : Option Str → Str
or_empty none = []
or_empty (some s) = s

unfoldable pub valid_tags : List Str → List Value → Bool
valid_tags seen [] = true
valid_tags seen (v ∷ vs) =
    let rest = valid_tags (or_empty (str_at (str "tag") v) ∷ seen) vs in
    if fresh_tag seen (str_at (str "tag") v) then rest else false

abbrev pub proxy_protocols : List Str
proxy_protocols =
    str "http"
    ∷ str "socks"
    ∷ str "shadowsocks"
    ∷ str "vmess"
    ∷ str "vless"
    ∷ str "trojan"
    ∷ str "hysteria"
    ∷ str "wireguard"
    ∷ []

unfoldable pub is_proxy : Value → Bool
is_proxy v = is_one_of (str_at (str "protocol") v) proxy_protocols

unfoldable pub is_direct : Value → Bool
is_direct v = has_tag_and_protocol (str "direct") (str "freedom") v

unfoldable pub is_dns_out : Value → Bool
is_dns_out v = has_tag_and_protocol (str "dns-out") (str "dns") v

unfoldable pub is_block : Value → Bool
is_block v = has_tag_and_protocol (str "block") (str "blackhole") v

unfoldable pub outbounds_are_permitted : List Value → Bool
outbounds_are_permitted outbounds =
    valid_tags [] outbounds
    && (leb 1 (count is_proxy outbounds) && leb (count is_proxy outbounds) max_server_ips)
    && length outbounds == count is_proxy outbounds + 3
    && (count is_direct outbounds == 1
        && count is_dns_out outbounds == 1
        && count is_block outbounds == 1)

-- The one inbound, in TUN mode and otherwise.
unfoldable pub is_tun_inbound : Value → Bool
is_tun_inbound v =
    is_text (and_then (pointer (str "settings" ∷ str "name" ∷ []) v) as_str) tun_interface

abbrev pub is_number : Option ℕ → ℕ → Bool
is_number none n = false
is_number (some m) n = m == n

unfoldable pub is_socks_inbound : Value → Bool
is_socks_inbound v =
    is_text (str_at (str "listen") v) (str "127.0.0.1")
    && is_number (u64_at (str "port") v) proxy_port

unfoldable pub check_inbound : Bool → Value → Result DaemonError Done
check_inbound true v =
    unless (not (is_tun_inbound v)) (invalid "Xray TUN interface name is not permitted")
check_inbound false v =
    unless (not (is_socks_inbound v)) (invalid "Xray SOCKS inbound must remain loopback-only")

abbrev pub data_tag : Bool → Str
data_tag expects_tun = if expects_tun then str "tun-in" else str "socks-in"

abbrev pub data_protocol : Bool → Str
data_protocol expects_tun = if expects_tun then str "tun" else str "socks"

abbrev pub sections : List Str
sections =
    str "log"
    ∷ str "dns"
    ∷ str "inbounds"
    ∷ str "outbounds"
    ∷ str "routing"
    ∷ str "observatory"
    ∷ str "burstObservatory"
    ∷ []

unfoldable pub check_inbounds : Bool → Value → Result DaemonError Done
check_inbounds expects_tun document = do
  inbounds ← ok_or (array_at (str "inbounds") document) (invalid "Xray inbounds are missing")
  unless (not (length inbounds == 1)) (invalid "Xray must contain exactly one data inbound")
  inbound ← inbound_by_tag inbounds (data_tag expects_tun) (data_protocol expects_tun)
  check_inbound expects_tun inbound

unfoldable pub check_outbounds : Value → Result DaemonError Done
check_outbounds document = do
  outbounds ← ok_or (array_at (str "outbounds") document) (invalid "Xray outbounds are missing")
  unless (not (outbounds_are_permitted outbounds)) (invalid "Xray outbound set is not permitted")

unfoldable pub check_log : Value → Result DaemonError Done
check_log document = do
  log ← ok_or (object_at (str "log") document) (invalid "Xray log section is missing")
  unless (has_other_key (str "loglevel" ∷ []) log) (invalid "Xray file logging is not permitted")

unfoldable pub check_document : Bool → Value → Result DaemonError Done
check_document expects_tun document = do
  fields ← ok_or (as_object document) (invalid "Xray configuration must be an object")
  unless (has_other_key sections fields)
      (invalid "Xray configuration contains an unsupported privileged section")
  check_log document
  check_inbounds expects_tun document
  check_outbounds document
  unless
      (not (is_some (object_at (str "dns") document))
        || not (is_some (object_at (str "routing") document)))
      (invalid "Xray DNS or routing section is missing")
  unless (contains_forbidden_file_key document)
      (invalid "Xray configuration may not reference privileged files")

unfoldable pub validate_xray_document : Parser → Str → Bool → Result DaemonError Done
validate_xray_document parser raw expects_tun = do
  document ← parse_document parser "invalid generated Xray JSON: " raw
  check_document expects_tun document
