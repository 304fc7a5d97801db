-- ===== src/Subscription.antt =====
-- src-tauri/src/subscription.rs: the servers of a subscription. What other libraries do is the record
-- `Codecs`: the parser of URLs, base64, percent encoding and JSON.
use varmlen_client_linux.Base.{
  ℕ, Bool, true, List, [], ◌∷◌, ◌++◌, map, Option, none, some, Result, if◌then◌else◌, is_empty,
}
use varmlen_client_linux.Base.Text.{
  Str, str, str_eq, trim, to_ascii_lowercase, decimal, starts_with,
}
use varmlen_client_linux.Document.Json.{Value, Parser}
pub mod Pieces
pub mod Links
pub mod Vmess
pub mod Uris
pub mod Body
pub mod Meta
pub mod Quota
pub mod Parsed
pub mod Sound
mod Tests

pub data ParseError : Type 0 where
  invalid_uri : Str → ParseError
  unsupported_scheme : Str → ParseError
  missing_credentials missing_host missing_port balancer_entry : ParseError

-- A `HashMap` of texts: each key stands once.
abbrev pub Params : Type 0
Params = List (Str × Str)

pub record VlessServer : Type 0 where
  pub id : Str
  pub protocol : Str
  pub uuid : Str
  pub password : Option Str
  pub method : Option Str
  pub host : Str
  pub port : ℕ
  pub label : Str
  pub transport : Str
  pub security : Str
  pub sni : Option Str
  pub fingerprint : Option Str
  pub public_key : Option Str
  pub short_id : Option Str
  pub flow : Option Str
  pub path : Option Str
  pub mode : Option Str
  pub packet_encoding : Option Str
  pub raw_params : Params
  pub source_json : Option Str
  pub raw_outbound : Option Value
  pub raw_profile : Option Value

-- The parts of a `url::Url` that are read.
pub record Url : Type 0 where
  pub scheme : Str
  pub username : Str
  pub host_str : Option Str
  pub port : Option ℕ
  pub query_pairs : List (Str × Str)
  pub fragment : Option Str

-- The four engines of the `base64` crate that are tried.
pub data Engine : Type 0 where
  standard url_safe standard_no_pad url_safe_no_pad : Engine

pub record Codecs : Type 0 where
  pub parse_url : Str → Result Str Url
  pub decode : Engine → Str → Option Str  -- the bytes, if they are UTF-8
  pub percent_decode : Str → Str
  pub json : Parser
  pub parse_json_subscription : Str → List VlessServer

unfoldable pub is_balancer_sentinel : Str → Bool
is_balancer_sentinel host = str_eq (map to_ascii_lowercase (trim host)) (str "balancer.host")

-- `VlessServer::base`
abbrev pub base : Str → Str → ℕ → Str → VlessServer
base protocol host port label = record {
  id = host ++ b'_' ∷ decimal port;
  protocol = protocol;
  uuid = [];
  password = none;
  method = none;
  host = host;
  port = port;
  label = label;
  transport = str "tcp";
  security = str "none";
  sni = none;
  fingerprint = none;
  public_key = none;
  short_id = none;
  flow = none;
  path = none;
  mode = none;
  packet_encoding = none;
  raw_params = [];
  source_json = none;
  raw_outbound = none;
  raw_profile = none;
}

unfoldable pub param : Str → Params → Option Str
param key [] = none
param key ((k, v) ∷ rest) = if str_eq k key then some v else param key rest

unfoldable pub set_param : Str → Str → Params → Params
set_param key value [] = (key, value) ∷ []
set_param key value ((k, v) ∷ rest) =
    let others = set_param key value rest in
    if str_eq k key then (k, value) ∷ rest else (k, v) ∷ others

-- `collect`: of two values with one key the later one stays.
unfoldable pub collect : List (Str × Str) → Params → Params
unfolding set_param
collect [] params = params
collect ((k, v) ∷ rest) params = collect rest (set_param k v params)
