-- ===== src/Server.antt =====
-- daemon/src/server.rs: one connection of the control socket. The socket, its timers and the handler
-- are a `Connection` over one state `X`.
pub mod Handled
mod Tests
use varmlen_client_linux.Base.{
  ℕ, zero, suc, List, Option, none, some, Result, ok, err, Done, Eff, Bool, true, false, not, ◌==◌,
  ltb, if◌then◌else◌, ok_or, map_err, ◌>>=◌, ◌>>◌, pure, throw, lift_result, length,
}
use varmlen_client_linux.Base.Text.{Str, str, parse_unsigned}
use varmlen_client_linux.Protocol.{
  DaemonCommand, status, DaemonState, DaemonError, daemon_error, DaemonErrorCode, invalid_frame,
  frame_too_large, unauthorized, internal, RequestEnvelope, ResponseEnvelope, max_frame_bytes,
  protocol_version,
}
use varmlen_client_linux.Protocol.Validate.{Parsers}
use varmlen_client_linux.Protocol.Frames.{
  Bytes, Serde, encode_frame, decode_request_frame, operation_id_of_rejected_request,
}

abbrev pub max_requests_per_connection : ℕ
max_requests_per_connection = 32

pub record PeerPolicy : Type 0 where
  pub allowed_uid : ℕ

abbrev pub authorize : PeerPolicy → ℕ → Bool
authorize policy uid = uid == policy.allowed_uid

abbrev u32_max : ℕ
u32_max = 4294967295

abbrev not_root : ℕ → Result Str ℕ
not_root uid = if uid == 0 then err (str "refusing to authorize root as desktop owner") else ok uid

parsed_uid : Option ℕ → Result Str ℕ
parsed_uid none = err (str "PKEXEC_UID is invalid")
parsed_uid (some uid) = not_root uid

unfoldable pub parse_owner_uid : Option Str → Result Str ℕ
unfolding parsed_uid
parse_owner_uid none = err (str "PKEXEC_UID is missing")
parse_owner_uid (some value) = parsed_uid (parse_unsigned u32_max value)

-- `expires` says whether the time limit of the next call runs out, and does what that call has done
-- until then. A handler that panics gives `none`; one that is too slow goes on by itself.
pub record Connection (X : Type 0) : Type 0 where
  pub peer_uid : X → Option ℕ
  pub expires : X → Bool × X
  pub read_u32 : Eff X Done ℕ
  pub read_exact : ℕ → Eff X Done Bytes
  pub write_u32 : ℕ → Eff X Done Done
  pub write_all : Bytes → Eff X Done Done
  pub handle : DaemonCommand → X → Option (Result DaemonError DaemonState) × X
  pub is_slow : X → Bool × X
  pub requests : Serde RequestEnvelope
  pub responses : Serde ResponseEnvelope
  pub parse_id : Bytes → Option ℕ

-- How a round ends: with the next one, or with the connection.
pub data Round : Type 0 where
  continue : Round
  closed : Result DaemonErrorCode Done → Round

-- A frame that breaks off ends the connection without an error.
abbrev end_of_read : DaemonErrorCode → Result DaemonErrorCode Done
end_of_read invalid_frame = ok tt
end_of_read code = err code

module _ {X : Type 0} (env : Parsers) (c : Connection X) where
  abbrev coded : {A : Type 0} → DaemonErrorCode → Eff X Done A → Eff X DaemonErrorCode A
  coded code op x = let (result, x') = op x in (map_err (λ _. code) result, x')

  unfoldable pub read_frame : Eff X DaemonErrorCode Bytes
  read_frame = do
    length ← coded invalid_frame c.read_u32
    if ltb max_frame_bytes length then throw frame_too_large else pure tt
    coded invalid_frame (c.read_exact length)

  unfoldable pub write_response : ResponseEnvelope → Eff X DaemonErrorCode Done
  write_response response = do
    bytes ← lift_result (encode_frame c.responses response)
    coded internal (c.write_u32 (length bytes))
    coded internal (c.write_all bytes)

  -- `timeout(io_timeout, op)`, where the time limit counts as the error `code`.
  abbrev limited :
      {A : Type 0} → DaemonErrorCode → Eff X DaemonErrorCode A → Eff X DaemonErrorCode A
  limited code op x = let (expired, x') = c.expires x in if expired then (err code, x') else op x

  abbrev after_write : Result DaemonErrorCode Done × X → Round × X
  after_write (ok _, x) = (continue, x)
  after_write (err code, x) = (closed (err code), x)

  respond : ResponseEnvelope → X → Round × X
  unfolding write_response
  respond response x = after_write (limited internal (write_response response) x)

  abbrev reject : DaemonErrorCode → Bytes → ResponseEnvelope
  reject code bytes = record {
    version = protocol_version;
    operation_id = operation_id_of_rejected_request c.parse_id bytes;
    result = err (daemon_error code "invalid daemon request");
  }

  answer : ℕ → Option (Result DaemonError DaemonState) → X → Round × X
  unfolding respond
  answer operation none x = (closed (err internal), x)
  answer operation (some result) x =
      respond (record { version = protocol_version; operation_id = operation; result = result }) x

  run : RequestEnvelope → X → Round × X
  unfolding answer
  run request x =
      let (result, x1) = c.handle request.command x in
      let (slow, x2) = c.is_slow x1 in
      if slow then (closed (err internal), x2) else answer request.operation_id result x2

  dispatch : Result DaemonErrorCode RequestEnvelope → Bytes → X → Round × X
  unfolding run respond
  dispatch (ok request) bytes x = run request x
  dispatch (err code) bytes x = respond (reject code bytes) x

  read_result : Result DaemonErrorCode Bytes × X → Round × X
  unfolding dispatch
  read_result (ok bytes, x) = dispatch (decode_request_frame env c.requests bytes) bytes x
  read_result (err code, x) = (closed (end_of_read code), x)

  -- A time limit that runs out while reading is an error, a frame that breaks off is not.
  serve_one : X → Round × X
  unfolding read_result read_frame
  serve_one x =
      let (expired, x') = c.expires x in
      if expired then (closed (err invalid_frame), x') else read_result (read_frame x)

  proceed : Round → Eff X DaemonErrorCode Done → Eff X DaemonErrorCode Done
  proceed continue rest x = rest x
  proceed (closed result) rest x = (result, x)

  serve_rounds : ℕ → Eff X DaemonErrorCode Done
  unfolding serve_one proceed
  serve_rounds zero x = (ok tt, x)
  serve_rounds (suc n) x = let (round, x') = serve_one x in proceed round (serve_rounds n) x'

  admit : Option ℕ → PeerPolicy → ℕ → Eff X DaemonErrorCode Done
  unfolding serve_rounds
  admit none policy max_requests x = (err unauthorized, x)
  admit (some uid) policy max_requests x =
      if authorize policy uid then serve_rounds max_requests x else (err unauthorized, x)

  unfoldable pub serve_connection_with_limits : PeerPolicy → ℕ → Eff X DaemonErrorCode Done
  unfolding admit
  serve_connection_with_limits policy max_requests x = admit (c.peer_uid x) policy max_requests x

  abbrev pub serve_connection : PeerPolicy → Eff X DaemonErrorCode Done
  serve_connection policy = serve_connection_with_limits policy max_requests_per_connection

-- `SnapshotHandler`
unfoldable pub snapshot : DaemonState → DaemonCommand → Result DaemonError DaemonState
snapshot state status = ok state
snapshot state _ = err (daemon_error internal "VPN lifecycle controller is unavailable")
