-- ===== src/Server/Tests.antt =====
-- A connection of daemon/src/server.rs whose socket is a list of frames.
use varmlen_client_linux.Base.{
  ℕ, false, List, [], ◌∷◌, Option, none, some, ok, err, Done, Eff, ◌≡◌, ◌≤◌, ◌⊎◌, refl, length, All,
}
use varmlen_client_linux.Base.Text.{str, parse_digits}
use varmlen_client_linux.Protocol.{disconnected, ResponseEnvelope, status}
use varmlen_client_linux.Protocol.Frames.{Bytes, Serde, decode_request_frame, encode_frame}
use varmlen_client_linux.Protocol.Validate.{validate_request}
use varmlen_client_linux.Protocol.Accepts.{IsCommand}
use varmlen_client_linux.Protocol.Samples.{no_parsers, requests}
use varmlen_client_linux.Lifecycle.{bare}
use varmlen_client_linux.Server.{
  Connection, PeerPolicy, serve_connection_with_limits, parse_owner_uid,
}
use varmlen_client_linux.Server.Handled.{Noted, noted, serve_connection-IsCommand}

abbrev next_length : Eff (List Bytes) Done ℕ
next_length [] = (err tt, [])
next_length (b ∷ bs) = (ok (length b), b ∷ bs)

abbrev next_frame : ℕ → Eff (List Bytes) Done Bytes
next_frame n [] = (err tt, [])
next_frame n (b ∷ bs) = (ok b, bs)

abbrev fine : Eff (List Bytes) Done Done
fine x = (ok tt, x)

unsent :
    (a : ResponseEnvelope) (b : Bytes)
    → ◌≡◌ {A = Option Bytes} none (some b)
    → ◌≡◌ {A = Option ResponseEnvelope} none (some a)
unsent a b h = cc

abbrev responses : Serde ResponseEnvelope
responses = record { to_vec = λ _. none; from_slice = λ _. none; round_trip = unsent }

abbrev socket : Connection (List Bytes)
socket = record {
  peer_uid = λ _. some 1000;
  expires = λ x. (false, x);
  read_u32 = next_length;
  read_exact = next_frame;
  write_u32 = λ _. fine;
  write_all = λ _. fine;
  handle = λ _ x. (some (ok (bare disconnected)), x);
  is_slow = λ x. (false, x);
  requests = requests;
  responses = responses;
  parse_id = λ _. none;
}

abbrev policy : PeerPolicy
policy = record { allowed_uid = 1000 }

abbrev served : Noted (List Bytes)
served =
    (serve_connection_with_limits no_parsers (noted socket) policy 32
      (record { inner = (3 ∷ 17 ∷ []) ∷ []; handled = [] })).1

serve_connection-IsCommand_example :
    All (IsCommand no_parsers) served.handled
    × (length served.handled ≤ 32)
    × ((served.handled ≡ []) ⊎ (socket.peer_uid ((3 ∷ 17 ∷ []) ∷ []) ≡ some policy.allowed_uid))
serve_connection-IsCommand_example =
    serve_connection-IsCommand no_parsers socket policy 32 ((3 ∷ 17 ∷ []) ∷ [])

handed : served.handled ≡ status ∷ []
unfolding serve_connection_with_limits decode_request_frame validate_request encode_frame
handed = refl

owner : parse_owner_uid (some (str "1000")) ≡ ok 1000
unfolding parse_owner_uid parse_digits
owner = refl
