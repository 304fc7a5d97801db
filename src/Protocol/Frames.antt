-- ===== src/Protocol/Frames.antt =====
-- daemon/src/protocol.rs, frames. `serde_json` is not part of the repository: its two directions at
-- a message type are arguments, a frame being the list of its bytes.
use varmlen_client_linux.Base.{
  ℕ, List, Option, none, some, Result, ok, err, Done, ltb, ◌==◌, if◌then◌else◌, length, ◌≡◌,
  unwrap_or,
}
use varmlen_client_linux.Protocol.{
  max_frame_bytes, protocol_version, RequestEnvelope, ResponseEnvelope, DaemonErrorCode,
  frame_too_large, invalid_frame, unsupported_version,
}
use varmlen_client_linux.Protocol.Validate.{Parsers, validate_request}

abbrev pub Bytes : Type 0
Bytes = List ℕ

pub record Serde (A : Type 0) : Type 0 where
  pub to_vec : A → Option Bytes
  pub from_slice : Bytes → Option A
  pub round_trip : (a : A) (b : Bytes) → to_vec a ≡ some b → from_slice b ≡ some a

abbrev bounded : Option Bytes → Result DaemonErrorCode Bytes
bounded none = err invalid_frame
bounded (some encoded) =
    if ltb max_frame_bytes (length encoded) then err frame_too_large else ok encoded

unfoldable pub encode_frame : {A : Type 0} → Serde A → A → Result DaemonErrorCode Bytes
encode_frame serde value = bounded (serde.to_vec value)

abbrev accepted :
    Result DaemonErrorCode Done → RequestEnvelope → Result DaemonErrorCode RequestEnvelope
accepted (ok _) request = ok request
accepted (err e) request = err e

abbrev pub parsed : Parsers → Option RequestEnvelope → Result DaemonErrorCode RequestEnvelope
parsed env none = err invalid_frame
parsed env (some request) = accepted (validate_request env request) request

unfoldable pub decode_request_frame :
    Parsers → Serde RequestEnvelope → Bytes → Result DaemonErrorCode RequestEnvelope
decode_request_frame env serde bytes =
    if ltb max_frame_bytes (length bytes)
    then err frame_too_large
    else parsed env (serde.from_slice bytes)

-- `parse_id` is `serde_json` at the local struct with the one field `operation_id`.
unfoldable pub operation_id_of_rejected_request : (Bytes → Option ℕ) → Bytes → ℕ
operation_id_of_rejected_request parse_id bytes = unwrap_or (parse_id bytes) 0

abbrev current : Option ResponseEnvelope → Result DaemonErrorCode ResponseEnvelope
current none = err invalid_frame
current (some response) =
    if response.version == protocol_version then ok response else err unsupported_version

unfoldable pub decode_response_frame :
    Serde ResponseEnvelope → Bytes → Result DaemonErrorCode ResponseEnvelope
decode_response_frame serde bytes =
    if ltb max_frame_bytes (length bytes)
    then err frame_too_large
    else current (serde.from_slice bytes)
