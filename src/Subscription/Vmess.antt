-- ===== src/Subscription/Vmess.antt =====
-- src-tauri/src/subscription.rs: the links of VMess, which are JSON.
use varmlen_client_linux.Base.{
  ℕ, ◌&&◌, [], ◌∷◌, ◌++◌, Option, none, some, Result, ok, err, ok_or, map_err, if◌then◌else◌,
  is_empty, unwrap_or, leb, ◌==◌,
}
use varmlen_client_linux.Base.Text.{Str, str, str_eq, trim, parse_unsigned, decimal}
use varmlen_client_linux.Base.Checked.{◌>>=◌, ◌>>◌, unless}
use varmlen_client_linux.Document.Json.{Value, Number, unsigned, number, text, get, str_at}
use varmlen_client_linux.Subscription.{
  ParseError, invalid_uri, missing_credentials, missing_host, missing_port, Params, VlessServer,
  Codecs, base, set_param,
}
use varmlen_client_linux.Subscription.Pieces.{strip_prefix, b64_decode_str}
use varmlen_client_linux.Subscription.Links.{u16_max, filled}

-- The number of a port as JSON, or as text.
unfoldable pub json_port : Option Value → Option ℕ
json_port (some (number (unsigned n))) = if leb 1 n && leb n u16_max then some n else none
json_port (some (text s)) = parse_unsigned u16_max s
json_port _ = none

abbrev not_none : Option Str → Option Str
not_none none = none
not_none (some s) = if str_eq s (str "none") then none else some s

abbrev with_param : Str → Option Str → Params → Params
with_param key none params = params
with_param key (some v) params = set_param key v params

unfoldable pub tls_name : Option Str → Str
tls_name none = str "none"
tls_name (some s) =
    if str_eq s (str "tls")
    then str "tls"
    else if str_eq s (str "reality")
    then str "reality"
    else str "none"

module _ (codecs : Codecs) where
  -- `n.to_string()`
  number_text : Number → Str
  number_text n = elim (codecs.json.to_string (number n)) [ ok s ↦ s | err e ↦ [] ]

  aid_text : Option Value → Option Str
  unfolding number_text
  aid_text (some (number n)) = some (number_text n)
  aid_text (some (text s)) = filled (some s)
  aid_text _ = none

  -- What the keys of vmess become, which mean another thing for each transport.
  vmess_params : Value → Params
  unfolding set_param aid_text get
  vmess_params v = with_param (str "aid") (aid_text (get (str "aid") v)) (
      with_param (str "scy") (filled (str_at (str "scy") v)) (
        with_param (str "alpn") (filled (str_at (str "alpn") v))
          (with_param (str "host") (filled (str_at (str "host") v)) [])))

  unfoldable pub with_header : Str → Option Str → VlessServer → VlessServer
  unfolding set_param
  with_header net header_type s =
      if str_eq net (str "grpc")
      then record s {
        path = none;
        mode = header_type;
        raw_params = with_param (str "serviceName") (filled s.path) s.raw_params;
      }
      else record s { raw_params = with_param (str "headerType") header_type s.raw_params }

  unfoldable pub plain_vmess : Str → ℕ → Str → Value → VlessServer
  unfolding vmess_params tls_name get
  plain_vmess host port uuid v =
      record (base (str "vmess") host port
        (unwrap_or (str_at (str "ps") v) (host ++ b':' ∷ decimal port))) {
          uuid = uuid;
          transport = unwrap_or (str_at (str "net") v) (str "tcp");
          security = tls_name (str_at (str "tls") v);
          sni = str_at (str "sni") v;
          path = str_at (str "path") v;
          fingerprint = str_at (str "fp") v;
          raw_params = vmess_params v;
        }

  abbrev pub header_type : Value → Option Str
  header_type v = not_none (filled (str_at (str "type") v))

  unfoldable pub vmess_server : Str → ℕ → Str → Value → VlessServer
  unfolding with_header plain_vmess get
  vmess_server host port uuid v =
      with_header (unwrap_or (str_at (str "net") v) (str "tcp")) (header_type v)
        (plain_vmess host port uuid v)

  unfoldable pub vmess_document : Value → Result ParseError VlessServer
  unfolding vmess_server json_port get
  vmess_document v = do
    let host = unwrap_or (str_at (str "add") v) []
    unless (is_empty host) missing_host
    port ← ok_or (json_port (get (str "port") v)) missing_port
    unless (port == 0) missing_port
    let uuid = unwrap_or (str_at (str "id") v) []
    unless (is_empty uuid) missing_credentials
    ok (vmess_server host port uuid v)

  unfoldable pub parse_vmess : Str → Result ParseError VlessServer
  unfolding vmess_document b64_decode_str
  parse_vmess uri = do
    let payload = unwrap_or (strip_prefix (str "vmess://") (trim uri)) []
    json ← ok_or (b64_decode_str codecs payload) (invalid_uri (str "vmess base64"))
    v ← map_err invalid_uri (codecs.json.from_str json)
    vmess_document v
