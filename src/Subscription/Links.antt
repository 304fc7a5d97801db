-- ===== src/Subscription/Links.antt =====
-- src-tauri/src/subscription.rs: the links of VLESS, Trojan and Shadowsocks.
use varmlen_client_linux.Base.{
  ℕ, Bool, true, false, not, [], ◌∷◌, ◌++◌, Option, none, some, Result, ok, Done, ok_or, map_err,
  if◌then◌else◌, is_empty, unwrap_or,
}
use varmlen_client_linux.Base.Text.{Str, str, str_eq, trim, parse_unsigned, decimal}
use varmlen_client_linux.Base.Checked.{◌>>=◌, ◌>>◌, unless}
use varmlen_client_linux.Document.Json.{Value, object, is_text}
use varmlen_client_linux.Subscription.{
  ParseError, invalid_uri, unsupported_scheme, missing_credentials, missing_host, missing_port,
  Params, VlessServer, Url, Codecs, base, param, collect,
}
use varmlen_client_linux.Subscription.Pieces.{
  strip_prefix, split_once, rsplit_once, before, trim_brackets, b64_decode_str,
}

abbrev pub u16_max : ℕ
u16_max = 65535

abbrev is_object : Value → Bool
is_object (object fs) = true
is_object _ = false

-- `filter(|s| !s.is_empty())`
abbrev pub filled : Option Str → Option Str
filled none = none
filled (some s) = if is_empty s then none else some s

module _ (codecs : Codecs) where
  unfoldable pub label_from : Option Str → Str → ℕ → Str
  label_from fragment host port = elim (filled fragment) [
    | none ↦ host ++ b':' ∷ decimal port
    | some f ↦ codecs.percent_decode f
  ]

  extra_object : Str → Result ParseError Done
  extra_object extra = do
    value ← map_err (λ e. invalid_uri (str "xhttp extra JSON: " ++ e)) (codecs.json.from_str extra)
    unless (not (is_object value)) (invalid_uri (str "xhttp extra JSON must be an object"))

  -- The settings of xhttp have to be an object.
  unfoldable pub check_extra : Params → Result ParseError Done
  unfolding extra_object param
  check_extra params =
      if is_text (param (str "type") params) (str "xhttp")
      then elim (param (str "extra") params) [ none ↦ ok tt | some extra ↦ extra_object extra ]
      else ok tt

  unfoldable pub vless_server : Str → Str → ℕ → Option Str → Params → VlessServer
  unfolding label_from param
  vless_server uuid host port fragment params =
      record (base (str "vless") host port (label_from fragment host port)) {
        uuid = uuid;
        transport = unwrap_or (param (str "type") params) (str "tcp");
        security = unwrap_or (param (str "security") params) (str "none");
        sni = param (str "sni") params;
        fingerprint = param (str "fp") params;
        public_key = param (str "pbk") params;
        short_id = param (str "sid") params;
        flow = param (str "flow") params;
        path = param (str "path") params;
        mode = param (str "mode") params;
        packet_encoding = param (str "packetEncoding") params;
        raw_params = params;
      }

  -- A host and a port have to be there.
  unfoldable pub address_of : Url → Result ParseError (Str × ℕ)
  address_of url = do
    host ← ok_or url.host_str missing_host
    port ← ok_or url.port missing_port
    ok (host, port)

  unfoldable pub vless_of_url : Url → Result ParseError VlessServer
  unfolding address_of check_extra vless_server collect
  vless_of_url url = do
    unless (not (str_eq url.scheme (str "vless"))) (unsupported_scheme url.scheme)
    unless (is_empty url.username) missing_credentials
    (host, port) ← address_of url
    check_extra (collect url.query_pairs [])
    ok (
        vless_server (codecs.percent_decode url.username) host port url.fragment
          (collect url.query_pairs []))

  unfoldable pub parse_vless : Str → Result ParseError VlessServer
  unfolding vless_of_url
  parse_vless uri = map_err invalid_uri (codecs.parse_url (trim uri)) >>= vless_of_url

  unfoldable pub trojan_server : Str → Str → ℕ → Option Str → Params → VlessServer
  unfolding label_from param
  trojan_server password host port fragment params =
      record (base (str "trojan") host port (label_from fragment host port)) {
        uuid = password;
        password = some password;
        transport = unwrap_or (param (str "type") params) (str "tcp");
        security = unwrap_or (param (str "security") params) (str "tls");
        sni = param (str "sni") params;
        fingerprint = param (str "fp") params;
        path = param (str "path") params;
        public_key = param (str "pbk") params;
        short_id = param (str "sid") params;
        flow = param (str "flow") params;
        mode = param (str "mode") params;
        raw_params = params;
      }

  unfoldable pub trojan_of_url : Url → Result ParseError VlessServer
  unfolding address_of trojan_server collect
  trojan_of_url url = do
    unless (not (str_eq url.scheme (str "trojan"))) (unsupported_scheme url.scheme)
    unless (is_empty (codecs.percent_decode url.username)) missing_credentials
    (host, port) ← address_of url
    ok (
        trojan_server (codecs.percent_decode url.username) host port url.fragment
          (collect url.query_pairs []))

  unfoldable pub parse_trojan : Str → Result ParseError VlessServer
  unfolding trojan_of_url
  parse_trojan uri = map_err invalid_uri (codecs.parse_url (trim uri)) >>= trojan_of_url

  -- The credentials and the address, of a text that is encoded in part or as a whole.
  unfoldable pub ss_parts : Str → Result ParseError (Str × Str)
  unfolding rsplit_once b64_decode_str
  ss_parts main = elim (rsplit_once b'@' main) [
    | some (u, hp) ↦ ok (unwrap_or (b64_decode_str codecs u) (codecs.percent_decode u), hp)
    | none ↦ ok_or (b64_decode_str codecs main) (invalid_uri (str "ss base64")) >>= λ decoded.
        ok_or (rsplit_once b'@' decoded) missing_host
  ]

  unfoldable pub ss_server : Str → Str → Str → ℕ → Option Str → VlessServer
  unfolding label_from
  ss_server method password host port fragment =
      record (base (str "shadowsocks") host port (label_from fragment host port)) {
        method = some method;
        password = some password;
      }

  abbrev pub fragment_of : Str → Str × Option Str
  fragment_of rest = elim (split_once b'#' rest) [
    | none ↦ (rest, none)
    | some (main, fragment) ↦ (main, some fragment)
  ]

  unfoldable pub parse_shadowsocks : Str → Result ParseError VlessServer
  unfolding split_once before rsplit_once ss_parts ss_server
  parse_shadowsocks uri = do
    let parts = fragment_of (unwrap_or (strip_prefix (str "ss://") (trim uri)) [])
    (creds, hostport) ← ss_parts (before b'?' parts.0)
    (method, password) ← ok_or (split_once b':' creds) missing_credentials
    (host, port_str) ← ok_or (rsplit_once b':' hostport) missing_port
    port ← ok_or (parse_unsigned u16_max port_str) missing_port
    ok (ss_server method password (trim_brackets host) port parts.1)
