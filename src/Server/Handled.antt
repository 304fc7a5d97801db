-- ===== src/Server/Handled.antt =====
-- daemon/src/server.rs: which commands reach the handler.
use varmlen_client_linux.Base.{
  ℕ, zero, suc, List, [], ◌∷◌, Option, none, some, Result, ok, err, length, ◌≡◌, ◌≢◌, ◌⊎◌, inl, inr,
  ◌≤◌, ◌+◌, arith, All, Bool-cases, refl, ap, ==_iff,
}
use varmlen_client_linux.Base.Text.{Str}
use varmlen_client_linux.Protocol.{
  DaemonCommand, DaemonError, DaemonState, protocol_version, DaemonErrorCode, RequestEnvelope,
  ResponseEnvelope,
}
use varmlen_client_linux.Protocol.Validate.{Parsers}
use varmlen_client_linux.Protocol.Frames.{Bytes, decode_request_frame}
use varmlen_client_linux.Protocol.Accepts.{IsCommand, decode_request_frame-IsCommand}
use varmlen_client_linux.Server.{
  Connection, PeerPolicy, authorize, Round, continue, closed, serve_connection_with_limits,
  serve_rounds, serve_one, read_result, dispatch, run, respond, answer, reject, proceed, admit,
  read_frame, parse_owner_uid,
}

-- A connection that also keeps the commands that were handed on, the newest first.
pub record Noted (X : Type 0) : Type 0 where
  pub inner : X
  pub handled : List DaemonCommand

module _ {X : Type 0} where
  abbrev within : {R : Type 0} → (X → R × X) → Noted X → R × Noted X
  within op n = let (result, inner) = op n.inner in (result, record n { inner = inner })

  abbrev pub noted : Connection X → Connection (Noted X)
  noted c = record {
    peer_uid = λ n. c.peer_uid n.inner;
    expires = within c.expires;
    read_u32 = within c.read_u32;
    read_exact = λ n. within (c.read_exact n);
    write_u32 = λ n. within (c.write_u32 n);
    write_all = λ b. within (c.write_all b);
    handle = λ command n.
        let (result, inner) = c.handle command n.inner in
        (result, record { inner = inner; handled = command ∷ n.handled });
    is_slow = within c.is_slow;
    requests = c.requests;
    responses = c.responses;
    parse_id = c.parse_id;
  }

-- At most `n` more commands than before, all of them valid.
abbrev pub Adds : Parsers → ℕ → List DaemonCommand → List DaemonCommand → Type 0
Adds env n before after =
    (All (IsCommand env) before → All (IsCommand env) after) × (length after ≤ n + length before)

module _ {X : Type 0} (env : Parsers) (c : Connection X) where
  responds :
      (response : ResponseEnvelope) (n : Noted X)
      → (respond env (noted c) response n).1.handled ≡ n.handled
  unfolding respond
  responds response n = ground arith

  reads : (n : Noted X) → (read_frame env (noted c) n).1.handled ≡ n.handled
  unfolding read_frame
  reads n = ground arith

  answers :
      (operation : ℕ) (result : Option (Result DaemonError DaemonState)) (n : Noted X)
      → (answer env (noted c) operation result n).1.handled ≡ n.handled
  unfolding answer
  answers operation none n = refl
  answers operation (some result) n =
      responds (record { version = protocol_version; operation_id = operation; result = result }) n

  runs :
      (request : RequestEnvelope) (n : Noted X)
      → (run env (noted c) request n).1.handled ≡ request.command ∷ n.handled
  unfolding run
  runs request n =
      let (result, n1) = (noted c).handle request.command n in
      let (slow, n2) = (noted c).is_slow n1 in
      ground (arith, answers request.operation_id result n2)

  dispatch_lem :
      (bytes : Bytes) (r : Result DaemonErrorCode RequestEnvelope) (n : Noted X)
      → decode_request_frame env c.requests bytes ≡ r
      → Adds env 1 n.handled (dispatch env (noted c) r bytes n).1.handled
  unfolding dispatch
  dispatch_lem bytes (ok request) n e =
      let (_, _, valid) = decode_request_frame-IsCommand env c.requests bytes e in
      rw (runs request n) (λ h. (valid, h), omega arith)
  dispatch_lem bytes (err code) n e =
      rw (responds (reject env (noted c) code bytes) n) (λ h. h, omega arith)

  read_result_lem :
      (r : Result DaemonErrorCode Bytes) (n : Noted X)
      → Adds env 1 n.handled (read_result env (noted c) (r, n)).1.handled
  unfolding read_result
  read_result_lem (ok bytes) n =
      dispatch_lem bytes (decode_request_frame env c.requests bytes) n refl
  read_result_lem (err code) n = (λ h. h, omega arith)

  serve_one_lem : (n : Noted X) → Adds env 1 n.handled (serve_one env (noted c) n).1.handled
  unfolding serve_one
  serve_one_lem n =
      let (r, n1) = read_frame env (noted c) n in ground (arith, reads n, read_result_lem r n1)

  proceeds :
      (round : Round) (rounds : ℕ) (n n1 : Noted X)
      → Adds env 1 n.handled n1.handled
      → Adds env rounds n1.handled (serve_rounds env (noted c) rounds n1).1.handled
      → Adds env
          (suc rounds)
          n.handled
          (proceed env (noted c) round (serve_rounds env (noted c) rounds) n1).1.handled
  unfolding proceed
  proceeds continue rounds n n1 h k = (λ a. k.0 (h.0 a), omega (arith, h.1, k.1))
  proceeds (closed result) rounds n n1 h k = (h.0, omega (arith, h.1))

  serve_rounds_lem :
      (rounds : ℕ) (n : Noted X)
      → Adds env rounds n.handled (serve_rounds env (noted c) rounds n).1.handled
  unfolding serve_rounds
  serve_rounds_lem zero n = (λ h. h, omega arith)
  serve_rounds_lem (suc rounds) n =
      let (round, n1) = serve_one env (noted c) n in
      proceeds round rounds n n1 (serve_one_lem n) (serve_rounds_lem rounds n1)

  IsServed : PeerPolicy → ℕ → Option ℕ → Noted X → Type 0
  IsServed policy max_requests peer n =
      All (IsCommand env) n.handled
      × (length n.handled ≤ max_requests)
      × ((n.handled ≡ []) ⊎ (peer ≡ some policy.allowed_uid))

  admits :
      (peer : Option ℕ) (policy : PeerPolicy) (max_requests : ℕ) (x : X)
      → IsServed policy max_requests peer
          (admit env (noted c) peer policy max_requests (record { inner = x; handled = [] })).1
  unfolding admit IsServed
  admits none policy max_requests x = (tt, omega arith, inl refl)
  admits (some uid) policy max_requests x =
      let n0 : Noted X = record { inner = x; handled = [] } in
      let (valid, few) = serve_rounds_lem max_requests n0 in
      elim (Bool-cases (authorize policy uid)) [
        | inl e ↦
            rw e (valid tt, omega (arith, few), inr (ap some ((==_iff uid policy.allowed_uid).0 e)))
        | inr e ↦ rw e (tt, omega arith, inl refl)
      ]

  -- The handler of a connection only ever gets commands that are valid requests, at most as many as
  -- the connection may make requests, and none if the peer is not the owner, whatever the socket
  -- delivers and the timers do.
  pub serve_connection-IsCommand :
      (policy : PeerPolicy) (max_requests : ℕ) (x : X)
      → let n =
          (serve_connection_with_limits env
            (noted c)
            policy
            max_requests
            (record { inner = x; handled = [] })).1 in
        All (IsCommand env) n.handled
        × (length n.handled ≤ max_requests)
        × ((n.handled ≡ []) ⊎ (c.peer_uid x ≡ some policy.allowed_uid))
  unfolding serve_connection_with_limits IsServed
  serve_connection-IsCommand policy max_requests x = admits (c.peer_uid x) policy max_requests x

-- The owner that the daemon serves is never root.
pub parse_owner_uid-nonzero :
    (value : Option Str) (uid : ℕ) → parse_owner_uid value ≡ ok uid → uid ≢ 0
unfolding parse_owner_uid
parse_owner_uid-nonzero value uid h = ground arith
