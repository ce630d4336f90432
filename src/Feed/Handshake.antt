-- ===== src/Feed/Handshake.antt =====
-- The publisher's side of the handshakes: `CompleteHandshake` and the answer to a PAKEInitSub frame of
-- `handleSyncRequests` of pkg/feed/publisher.go.
pub mod Joining
pub mod Engines
pub mod Answers
pub mod Session
pub mod Starting
pub mod Whole
pub mod Later
pub mod Requests
pub mod Running
pub mod Trust
pub mod Reconnect
pub mod Retries
pub mod Returning
mod Tests
use zero_feed.Base.{
  ℕ, zero, suc, Bool, true, false, not, ◌&&◌, Option, none, some, List, [], ◌∷◌, ◌++◌, replicate,
  ltb, ◌==◌, if◌then◌else◌, Result, ok, err, ◌>>=◌, map_err,
}
use zero_feed.Protocol.Messages.{
  Envelope, version, min_supported_version, msg_type_pake_init_pub, msg_type_pake_init_sub,
  msg_type_pake_step2, msg_type_key_confirm, msg_type_close,
}
use zero_feed.Crypto.Cipher.{Primitives, wrap_session_key}
use zero_feed.Crypto.Pake.{
  PakePrimitives, PakePeer, PakeError, crypto_error, Randomness, or_nil, bytes_of, new_pake_peer,
  update, session_key, confirm_tag, verify_peer_confirm,
}
use zero_feed.Feed.Publisher.{PublisherEngine, PublishError, send_envelope}

-- `no_peer` stands for the panic on a peer that is nil.
pub data HandshakeError : Type 0 where
  not_dialed no_connection not_received closed_by_peer incompatible_version unexpected_frame no_peer
        invalid_response not_confirmed :
      HandshakeError
  exchange_failed : PakeError → HandshakeError
  send_failed : PublishError → HandshakeError

-- A frame of the handshake.
abbrev pub handshake_frame : ℕ → List ℕ → List ℕ → Envelope
handshake_frame msg_type session_id payload = record {
  version_ = version;
  msg_type = msg_type;
  session_id = session_id;
  nonce = replicate 12 0;
  payload = payload;
}

-- The wait for the confirmation: `frames` are those that arrive before the deadline. Other frames are
-- passed over, up to the number of rounds.
unfoldable pub await_confirm :
    Primitives → ℕ → List Envelope → PakePeer → Result HandshakeError (Unit {0})
await_confirm prims zero frames peer = err not_confirmed
await_confirm prims (suc rounds) [] peer = err not_received
await_confirm prims (suc rounds) (env ∷ frames) peer =
    let rest = await_confirm prims rounds frames peer in
    if not (env.msg_type == msg_type_key_confirm)
    then rest
    else map_err exchange_failed (verify_peer_confirm prims env.payload peer)

-- The payload of the second step, from a peer that was updated. `random` is the nonce of the wrapping.
unfoldable pub pake_response :
    Primitives → List ℕ → Option (List ℕ) → PakePeer → Result PakeError (List ℕ)
pake_response prims random master_key peer = do
  p2p_key ← session_key peer
  wrapped ← map_err crypto_error (wrap_session_key prims random p2p_key (or_nil master_key))
  tag ← confirm_tag prims peer
  ok (bytes_of peer ++ wrapped ++ tag)

-- The peer of the engine, or a new one.
unfoldable pub peer_or_new :
    PakePrimitives
    → Randomness
    → ℕ
    → Option (List ℕ)
    → Option PakePeer
    → Result HandshakeError PakePeer
peer_or_new pake rand role passphrase none =
    map_err exchange_failed (new_pake_peer pake rand (or_nil passphrase) role)
peer_or_new pake rand role passphrase (some peer) = ok peer

-- A connection that fails is closed, but stays in the engine.
unfoldable pub first_sent :
    Result PublishError (Unit {0}) × PublisherEngine
    → Result HandshakeError (Unit {0}) × PublisherEngine
first_sent (err e, p) = (err (send_failed e), record p { writable = false })
first_sent (ok u, p) = (ok tt, p)

unfoldable pub connect_with :
    Result HandshakeError PakePeer
    → PublisherEngine
    → Result HandshakeError (Unit {0}) × PublisherEngine
unfolding first_sent
connect_with (err e) p = (err e, record p { writable = false })
connect_with (ok peer) p = first_sent (
    send_envelope (handshake_frame msg_type_pake_init_pub p.session_id (bytes_of peer))
      (record p { pake_peer = some peer }))

module _ (pake : PakePrimitives) (prims : Primitives) where
  -- `dialed` tells whether the relay was reached, `takes` whether the new connection takes frames.
  unfoldable pub connect_publisher :
      Randomness
      → Bool
      → Bool
      → PublisherEngine
      → Result HandshakeError (Unit {0}) × PublisherEngine
  unfolding connect_with peer_or_new
  connect_publisher rand dialed takes p =
      if not dialed
      then (err not_dialed, p)
      else connect_with (peer_or_new pake rand 1 p.passphrase p.pake_peer)
          (record p { connected = true; writable = takes })

  unfoldable pub response_sent :
      List Envelope
      → PakePeer
      → Result PublishError (Unit {0}) × PublisherEngine
      → Result HandshakeError (Unit {0}) × PublisherEngine
  unfolding await_confirm
  response_sent frames peer (err e, p) = (err (send_failed e), p)
  response_sent frames peer (ok u, p) = (await_confirm prims 8 frames peer, p)

  unfoldable pub respond :
      List Envelope
      → PakePeer
      → Result PakeError (List ℕ)
      → PublisherEngine
      → Result HandshakeError (Unit {0}) × PublisherEngine
  unfolding response_sent
  respond frames peer (err e) p = (err (exchange_failed e), p)
  respond frames peer (ok payload) p =
      response_sent frames peer
        (send_envelope (handshake_frame msg_type_pake_step2 p.session_id payload) p)

  unfoldable pub updated :
      List ℕ
      → List Envelope
      → Result PakeError (Unit {0}) × PakePeer
      → PublisherEngine
      → Result HandshakeError (Unit {0}) × PublisherEngine
  unfolding respond pake_response
  updated random frames (err e, peer) p =
      (err (exchange_failed e), record p { pake_peer = some peer })
  updated random frames (ok u, peer) p =
      respond frames peer (pake_response prims random p.master_key peer)
        (record p { pake_peer = some peer })

  unfoldable pub exchange :
      Randomness
      → List ℕ
      → Envelope
      → List Envelope
      → Option PakePeer
      → PublisherEngine
      → Result HandshakeError (Unit {0}) × PublisherEngine
  unfolding updated
  exchange rand random env frames none p = (err no_peer, p)
  exchange rand random env frames (some peer) p =
      updated random frames (update pake prims rand env.payload peer) p

  unfoldable pub first_frame :
      Randomness
      → List ℕ
      → List Envelope
      → PublisherEngine
      → Result HandshakeError (Unit {0}) × PublisherEngine
  unfolding exchange
  first_frame rand random [] p = (err not_received, p)
  first_frame rand random (env ∷ frames) p =
      if env.msg_type == msg_type_close
      then (err closed_by_peer, p)
      else if ltb env.version_ min_supported_version
      then (err incompatible_version, p)
      else if not (env.msg_type == msg_type_pake_init_sub)
          && not (env.msg_type == msg_type_pake_step2)
      then (err unexpected_frame, p)
      else exchange rand random env frames p.pake_peer p

  -- `CompleteHandshake`: `frames` are those that arrive before the deadline.
  unfoldable pub complete_publisher_handshake :
      Randomness
      → List ℕ
      → List Envelope
      → PublisherEngine
      → Result HandshakeError (Unit {0}) × PublisherEngine
  unfolding first_frame
  complete_publisher_handshake rand random frames p =
      if not p.connected then (err no_connection, p) else first_frame rand random frames p

  -- The answer to a subscriber that comes later, from a peer of its own that is closed again.
  answer : Result PakeError (List ℕ) → PublisherEngine → PublisherEngine
  answer (err e) p = p
  answer (ok payload) p =
      (send_envelope (handshake_frame msg_type_pake_step2 p.session_id payload) p).1

  answer_with :
      Randomness → List ℕ → Envelope → Result PakeError PakePeer → PublisherEngine → PublisherEngine
  unfolding answer
  answer_with rand random env (err e) p = p
  answer_with rand random env (ok peer) p =
      answer (pake_response prims random p.master_key (update pake prims rand env.payload peer).1) p

  answer_for : Randomness → List ℕ → Envelope → Option (List ℕ) → PublisherEngine → PublisherEngine
  unfolding answer_with
  answer_for rand random env none p = p
  answer_for rand random env (some passphrase) p =
      answer_with rand random env (new_pake_peer pake rand passphrase 1) p

  -- An error of the update or of the connection is dropped.
  unfoldable pub handle_pake_init_sub :
      Randomness → List ℕ → Envelope → PublisherEngine → PublisherEngine
  unfolding answer_for
  handle_pake_init_sub rand random env p = answer_for rand random env p.passphrase p
