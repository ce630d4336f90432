-- ===== src/Relay/Server/Admission.antt =====
-- Which first frames change the map of sessions of pkg/relay/server.go.
use zero_feed.Base.{
  ℕ, ◌≡◌, refl, Bool, true, false, not, ◌||◌, Option, none, some, ◌==◌, Key, Result, ok, err, eof,
  unexpected_eof, timeout, broken, arith,
}
use zero_feed.Protocol.Messages.{Envelope, msg_type_pake_init_pub, msg_type_pake_init_sub}
use zero_feed.Protocol.Frame.{
  DecodeError, read_failed, payload_failed, unsupported_ver, invalid_magic, too_large,
}
use zero_feed.Relay.RateLimit.{is_banned}
use zero_feed.Relay.Server.Sessions.{Server, lookup_session}
use zero_feed.Relay.Server.Handle.{
  handle_connection, handle_decoded, handle_frame, handle_error, sync_found, count_malformed,
}

-- The frames of a handshake.
abbrev pub opens_session : Result DecodeError Envelope → Bool
opens_session (err e) = false
opens_session (ok env) =
    env.msg_type == msg_type_pake_init_pub || env.msg_type == msg_type_pake_init_sub

-- The map of sessions and the sessions themselves are as before.
abbrev pub SameSessions : Server → Server → Type 0
SameSessions before after =
    (after.sessions ≡ before.sessions)
    × (after.heap ≡ before.heap)
    × (after.metrics.active_sessions ≡ before.metrics.active_sessions)

module _ (split_host_port : Key → Option Key) where
  sync_found-SameSessions :
      (now : ℕ) (addr : Key) (env : Envelope) (o : Option ℕ) (srv : Server)
      → SameSessions srv (sync_found split_host_port now addr env o srv)
  unfolding sync_found
  sync_found-SameSessions now addr env none srv = (refl, refl, refl)
  sync_found-SameSessions now addr env (some i) srv = (refl, refl, refl)

  handle_frame-SameSessions :
      (now : ℕ) (addr key : Key) (env : Envelope) (srv : Server)
      → opens_session (ok env) ≡ false
      → SameSessions srv (handle_frame split_host_port now addr key env srv).0
  unfolding handle_frame count_malformed
  handle_frame-SameSessions now addr key env srv kind =
      ground (arith, sync_found-SameSessions now addr env (lookup_session env.session_id srv) srv)

  handle_error-SameSessions :
      (now : ℕ) (addr : Key) (e : DecodeError) (srv : Server)
      → SameSessions srv (handle_error split_host_port now addr e srv).0
  unfolding handle_error count_malformed
  handle_error-SameSessions now addr (unsupported_ver w) srv = (refl, refl, refl)
  handle_error-SameSessions now addr (read_failed eof) srv = (refl, refl, refl)
  handle_error-SameSessions now addr (read_failed unexpected_eof) srv = (refl, refl, refl)
  handle_error-SameSessions now addr (read_failed timeout) srv = (refl, refl, refl)
  handle_error-SameSessions now addr (read_failed broken) srv = (refl, refl, refl)
  handle_error-SameSessions now addr (payload_failed eof) srv = (refl, refl, refl)
  handle_error-SameSessions now addr (payload_failed unexpected_eof) srv = (refl, refl, refl)
  handle_error-SameSessions now addr (payload_failed timeout) srv = (refl, refl, refl)
  handle_error-SameSessions now addr (payload_failed broken) srv = (refl, refl, refl)
  handle_error-SameSessions now addr invalid_magic srv = (refl, refl, refl)
  handle_error-SameSessions now addr too_large srv = (refl, refl, refl)

  handle_decoded-SameSessions :
      (now : ℕ) (addr key : Key) (decoded : Result DecodeError Envelope) (srv : Server)
      → opens_session decoded ≡ false
      → SameSessions srv (handle_decoded split_host_port now addr key decoded srv).0
  unfolding handle_decoded
  handle_decoded-SameSessions now addr key (ok env) srv kind =
      handle_frame-SameSessions now addr key env srv kind
  handle_decoded-SameSessions now addr key (err e) srv kind =
      handle_error-SameSessions now addr e srv

  -- A connection changes no session and the map of sessions not at all, if its address is banned
  -- or its first frame is none of the two that begin a handshake or does not decode.
  pub handle_connection-SameSessions :
      (now later : ℕ) (addr key : Key) (decoded : Result DecodeError Envelope) (srv : Server)
      → ((is_banned split_host_port now srv.limiter addr).0 || not (opens_session decoded)) ≡ true
      → SameSessions srv (handle_connection split_host_port now later addr key decoded srv).0
  unfolding handle_connection
  handle_connection-SameSessions now later addr key decoded srv kind =
      let (banned, limiter') = is_banned split_host_port now srv.limiter addr in
      ground (
        arith,
        handle_decoded-SameSessions later addr key decoded (record srv { limiter = limiter' }),
      )
