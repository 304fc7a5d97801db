-- ===== src/Document/Ping.antt =====
-- daemon/src/system.rs, lines 1477 to 1730: `validate_ping_xray_document`, one function per loop.
use varmlen_client_linux.Base.{
  ℕ, suc, ◌+◌, Bool, true, false, not, ◌&&◌, ◌||◌, List, [], ◌∷◌, ◌++◌, Option, none, some, Result,
  ok, Done, ok_or, length, any, is_empty, leb, ltb, ◌==◌, if◌then◌else◌,
}
use varmlen_client_linux.Base.Text.{Str, str, starts_with, decimal}
use varmlen_client_linux.Base.Checked.{◌>>=◌, ◌>>◌, unless}
use varmlen_client_linux.Protocol.{DaemonError, max_server_ips}
use varmlen_client_linux.Document.Json.{
  Value, text, Parser, as_u64, as_object, as_str, as_bool, str_at, u64_at, array_at, object_at,
  pointer, and_then, is_text, one_of, has_other_key, get, lookup, as_array,
}
use varmlen_client_linux.Document.Checks.{
  invalid, parse_document, contains_forbidden_file_key, is_proxy, fresh_tag, or_empty, is_number,
}

abbrev pub xray_dial_mark : ℕ
xray_dial_mark = 0x2024

abbrev pub ping_sections : List Str
ping_sections =
    str "log"
    ∷ str "inbounds"
    ∷ str "outbounds"
    ∷ str "routing"
    ∷ str "observatory"
    ∷ str "burstObservatory"
    ∷ []

abbrev pub is_flag : Option Bool → Bool → Bool
is_flag none b = false
is_flag (some true) b = b
is_flag (some false) b = not b

-- The tag of the inbound at an index, and the older one for a single inbound.
abbrev pub tag_fits : Bool → ℕ → Option Str → Bool
tag_fits single index tag =
    (single && is_text tag (str "socks-in")) || is_text tag (str "socks-in-" ++ decimal index)

unfoldable pub is_ping_inbound : ℕ → Value → Bool
is_ping_inbound port v =
    (is_text (str_at (str "protocol") v) (str "socks")
      && is_text (str_at (str "listen") v) (str "127.0.0.1"))
    && is_number (u64_at (str "port") v) port
    && is_text (and_then (pointer (str "settings" ∷ str "auth" ∷ []) v) as_str) (str "noauth")
    && is_flag (and_then (pointer (str "settings" ∷ str "udp" ∷ []) v) as_bool) false

-- The tags of the inbounds, each beside its port.
unfoldable pub ping_inbound_tags : Bool → ℕ → List Value → List ℕ → Result DaemonError (List Str)
ping_inbound_tags single index [] ports = ok []
ping_inbound_tags single index (v ∷ vs) [] = ok []
ping_inbound_tags single index (v ∷ vs) (port ∷ ports) =
    let rest = ping_inbound_tags single (suc index) vs ports in
    do
      unless (not (tag_fits single index (str_at (str "tag") v) && is_ping_inbound port v))
          (invalid "ping Xray SOCKS inbound must be loopback-only on the requested port")
      tags ← rest
      ok (or_empty (str_at (str "tag") v) ∷ tags)

unfoldable pub is_marked : Value → Bool
is_marked v =
    is_number (and_then (pointer (str "streamSettings" ∷ str "sockopt" ∷ str "mark" ∷ []) v) as_u64)
      xray_dial_mark

unfoldable pub is_wireguard : Value → Bool
is_wireguard v = is_text (str_at (str "protocol") v) (str "wireguard")

-- The tags of the proxies; `seen` are those before.
unfoldable pub ping_proxy_tags : List Str → List Value → Result DaemonError (List Str)
ping_proxy_tags seen [] = ok []
ping_proxy_tags seen (v ∷ vs) =
    let tag = str_at (str "tag") v in
    let rest = ping_proxy_tags (or_empty tag ∷ seen) vs in
    do
      unless (not (is_proxy v && fresh_tag seen tag) || (not (is_wireguard v) && not (is_marked v)))
          (invalid "ping Xray proxy outbound or bypass mark is not permitted")
      tags ← rest
      ok (or_empty tag ∷ tags)

unfoldable pub last : List Value → Option Value
last [] = none
last (v ∷ []) = some v
last (v ∷ w ∷ vs) = last (w ∷ vs)

unfoldable pub before_last : List Value → List Value
before_last [] = []
before_last (v ∷ []) = []
before_last (v ∷ w ∷ vs) = v ∷ before_last (w ∷ vs)

unfoldable pub ends_direct : List Value → Bool
ends_direct outbounds =
    is_text (and_then (last outbounds) (str_at (str "tag"))) (str "direct")
    && is_text (and_then (last outbounds) (str_at (str "protocol"))) (str "freedom")

unfoldable pub ping_outbounds : Value → Result DaemonError (List Str)
ping_outbounds document = do
  outbounds ←
      ok_or (array_at (str "outbounds") document) (invalid "ping Xray outbounds are missing")
  unless
      (not (leb 2 (length outbounds) && leb (length outbounds) (max_server_ips + 1))
        || not (ends_direct outbounds))
      (invalid "ping Xray outbound set or bypass mark is not permitted")
  ping_proxy_tags [] (before_last outbounds)

-- A selector is the beginning of a proxy's tag.
unfoldable pub selects : List Str → Value → Bool
selects proxy_tags (text selector) = any (starts_with selector) proxy_tags
selects proxy_tags _ = false

unfoldable pub filled : Option Str → Option Str
filled none = none
filled (some tag) = if is_empty tag then none else some tag

unfoldable pub ping_balancer_tags : List Str → List Str → List Value → Result DaemonError (List Str)
ping_balancer_tags proxy_tags seen [] = ok []
ping_balancer_tags proxy_tags seen (v ∷ vs) =
    let rest = ping_balancer_tags proxy_tags (or_empty (str_at (str "tag") v) ∷ seen) vs in
    do
      tag ← ok_or (filled (str_at (str "tag") v)) (invalid "ping Xray balancer tag is missing")
      selectors ←
          ok_or (array_at (str "selector") v) (invalid "ping Xray balancer selector is missing")
      unless (one_of seen tag || is_empty selectors || not (any (selects proxy_tags) selectors))
          (invalid "ping Xray balancer does not select a proxy")
      tags ← rest
      ok (tag ∷ tags)

abbrev pub ping_balancers : List Str → Option Value → Result DaemonError (List Str)
ping_balancers proxy_tags none = ok []
ping_balancers proxy_tags (some value) = do
  balancers ← ok_or (as_array value) (invalid "ping Xray balancers must be an array")
  unless (ltb max_server_ips (length balancers)) (invalid "ping Xray has too many balancers")
  ping_balancer_tags proxy_tags [] balancers

abbrev pub names_only : Str → List Value → Bool
names_only tag (v ∷ []) = is_text (as_str v) tag
names_only tag _ = false

abbrev pub names_listed : Str → Option (List Value) → Bool
names_listed tag none = false
names_listed tag (some vs) = names_only tag vs

abbrev pub inbound_matches : Bool → Str → Option Value → Bool
inbound_matches single tag none = single
inbound_matches single tag (some value) = names_listed tag (as_array value)

abbrev pub among : List Str → Option Str → Bool
among tags none = false
among tags (some tag) = one_of tags tag

unfoldable pub targets_one : List Str → List Str → Value → Bool
targets_one proxy_tags balancer_tags rule =
    let proxy = among proxy_tags (str_at (str "outboundTag") rule) in
    let balancer = among balancer_tags (str_at (str "balancerTag") rule) in
    if proxy then not balancer else balancer

unfoldable pub is_ping_rule : Bool → Str → Value → Bool
is_ping_rule single inbound_tag rule =
    is_text (str_at (str "type") rule) (str "field")
    && is_text (str_at (str "network") rule) (str "tcp,udp")
    && inbound_matches single inbound_tag (get (str "inboundTag") rule)

-- Each rule beside the tag of its inbound; there are as many of both.
unfoldable pub check_ping_rules :
    Bool → List Str → List Str → List Str → List Value → Result DaemonError Done
check_ping_rules single proxy_tags balancer_tags (tag ∷ tags) (rule ∷ rules) =
    let rest = check_ping_rules single proxy_tags balancer_tags tags rules in
    do
      unless (not (is_ping_rule single tag rule && targets_one proxy_tags balancer_tags rule))
          (invalid "ping Xray must route every request through its measured server")
      rest
check_ping_rules single proxy_tags balancer_tags _ _ = ok tt

unfoldable pub check_ping_routing : List ℕ → List Str → List Str → Value → Result DaemonError Done
check_ping_routing ports inbound_tags proxy_tags document = do
  routing ←
      ok_or (object_at (str "routing") document) (invalid "ping Xray routing section is missing")
  unless (has_other_key (str "rules" ∷ str "balancers" ∷ []) routing)
      (invalid "ping Xray routing contains unsupported policy")
  balancer_tags ← ping_balancers proxy_tags (lookup (str "balancers") routing)
  rules ←
      ok_or (and_then (lookup (str "rules") routing) as_array)
        (invalid "ping Xray routing rule is missing")
  unless (not (length rules == length ports))
      (invalid "ping Xray must contain one routing rule per requested port")
  check_ping_rules (length ports == 1) proxy_tags balancer_tags inbound_tags rules

unfoldable pub check_ping_log : Value → Result DaemonError Done
check_ping_log document = do
  log ← ok_or (object_at (str "log") document) (invalid "ping Xray log is missing")
  unless (has_other_key (str "loglevel" ∷ []) log)
      (invalid "ping Xray file logging is not permitted")

unfoldable pub ping_inbounds : List ℕ → Value → Result DaemonError (List Str)
ping_inbounds ports document = do
  inbounds ← ok_or (array_at (str "inbounds") document) (invalid "ping Xray inbound is missing")
  unless (not (length inbounds == length ports))
      (invalid "ping Xray must contain one inbound per requested port")
  ping_inbound_tags (length ports == 1) 0 inbounds ports

unfoldable pub check_ping_document : List ℕ → Value → Result DaemonError Done
check_ping_document ports document = do
  fields ← ok_or (as_object document) (invalid "ping Xray configuration must be an object")
  unless (has_other_key ping_sections fields)
      (invalid "ping Xray configuration contains an unsupported privileged section")
  check_ping_log document
  inbound_tags ← ping_inbounds ports document
  proxy_tags ← ping_outbounds document
  check_ping_routing ports inbound_tags proxy_tags document
  unless (contains_forbidden_file_key document)
      (invalid "ping Xray configuration may not reference privileged files")

unfoldable pub validate_ping_xray_document : Parser → Str → List ℕ → Result DaemonError Done
validate_ping_xray_document parser raw ports = do
  document ← parse_document parser "invalid ping Xray JSON: " raw
  check_ping_document ports document
