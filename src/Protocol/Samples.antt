-- ===== src/Protocol/Samples.antt =====
-- Parsers and a partial encoding of requests for runs: a status request is its version and its number.
use varmlen_client_linux.Base.{ℕ, [], ◌∷◌, Option, none, some, ◌≡◌, sym, ap}
use mathlib.Core.Option.{some-injective}
use varmlen_client_linux.Protocol.{
  DaemonCommand, status, connect, disconnect, update_split, tcp_ping, proxy_ping, log_tail,
  clear_log, RequestEnvelope,
}
use varmlen_client_linux.Protocol.Validate.{Parsers}
use varmlen_client_linux.Protocol.Frames.{Bytes, Serde}

abbrev pub no_parsers : Parsers
no_parsers = record { parse_url = λ _. none; parse_ip = λ _. none }

abbrev encode : ℕ → ℕ → DaemonCommand → Option Bytes
encode version id status = some (version ∷ id ∷ [])
encode version id _ = none

abbrev decode : Bytes → Option RequestEnvelope
decode (version ∷ id ∷ []) =
    some (record { version = version; operation_id = id; command = status })
decode _ = none

pub decode-encode :
    (version id : ℕ) (command : DaemonCommand) (b : Bytes)
    → encode version id command ≡ some b
    → decode b ≡ some (record { version = version; operation_id = id; command = command })
decode-encode version id status b h = ap decode (sym (some-injective (version ∷ id ∷ []) b h))
decode-encode version id (connect r) b h = cc
decode-encode version id disconnect b h = cc
decode-encode version id (update_split apps) b h = cc
decode-encode version id (tcp_ping r) b h = cc
decode-encode version id (proxy_ping r) b h = cc
decode-encode version id log_tail b h = cc
decode-encode version id clear_log b h = cc

abbrev pub requests : Serde RequestEnvelope
requests = record {
  to_vec = λ r. encode r.version r.operation_id r.command;
  from_slice = decode;
  round_trip = λ r b h. decode-encode r.version r.operation_id r.command b h;
}
