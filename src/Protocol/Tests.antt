-- ===== src/Protocol/Tests.antt =====
-- One status request through the frames of daemon/src/protocol.rs.
use varmlen_client_linux.Base.{[], ◌∷◌, ok, ◌≡◌, ◌≤◌, refl, length}
use varmlen_client_linux.Protocol.{RequestEnvelope, status, protocol_version, max_frame_bytes}
use varmlen_client_linux.Protocol.Validate.{validate_request}
use varmlen_client_linux.Protocol.Frames.{Bytes, encode_frame, decode_request_frame}
use varmlen_client_linux.Protocol.Accepts.{
  IsCommand, decode_request_frame-IsCommand, decode_request_frame-encode_frame,
}
use varmlen_client_linux.Protocol.Samples.{no_parsers, requests}

abbrev request : RequestEnvelope
request = record { version = 3; operation_id = 17; command = status }

abbrev frame : Bytes
frame = 3 ∷ 17 ∷ []

valid : validate_request no_parsers request ≡ ok tt
unfolding validate_request
valid = refl

encoded : encode_frame requests request ≡ ok frame
unfolding encode_frame
encoded = refl

decode_request_frame-encode_frame_example :
    decode_request_frame no_parsers requests frame ≡ ok request
decode_request_frame-encode_frame_example =
    decode_request_frame-encode_frame no_parsers requests request frame valid encoded

decode_request_frame-IsCommand_example :
    (length frame ≤ max_frame_bytes)
    × (request.version ≡ protocol_version)
    × IsCommand no_parsers request.command
decode_request_frame-IsCommand_example =
    decode_request_frame-IsCommand no_parsers requests frame
      decode_request_frame-encode_frame_example
