-- ===== src/Feed/Handshake/Joining.antt =====
-- The subscriber's side of the handshake: `Connect`, `CompleteHandshake` and `reconnectLoop` of
-- pkg/feed/subscriber.go.
use zero_feed.Base.{
  ℕ, ◌+◌, ◌%◌, ◌^◌, Bool, true, false, not, Option, none, some, List, [], ◌∷◌, ◌++◌, length, take,
  drop, ltb, ◌==◌, if◌then◌else◌, Result, ok, err, ◌>>=◌, map_err,
}
use zero_feed.Protocol.Messages.{
  Envelope, min_supported_version, msg_type_pake_init_sub, msg_type_key_confirm, msg_type_close,
}
use zero_feed.Protocol.Frame.{max_payload_size}
use zero_feed.Crypto.Cipher.{Cipher, Primitives, new_cipher, unwrap_session_key}
use zero_feed.Crypto.Pake.{
  PakePrimitives, PakePeer, PakeError, crypto_error, Randomness, uniform_wire_msg_size, bytes_of,
  update, session_key, confirm_tag, verify_peer_confirm,
}
use zero_feed.Feed.Publisher.{PublishError, not_connected, frame_too_large, write_failed}
use zero_feed.Feed.Subscriber.{SubscriberEngine}
use zero_feed.Feed.Handshake.{
  HandshakeError, not_dialed, no_connection, not_received, closed_by_peer, incompatible_version,
  no_peer, invalid_response, exchange_failed, send_failed, handshake_frame, peer_or_new,
}

-- `protocol.Encode` on the connection, as for the publisher.
unfoldable pub send_to_relay :
    Envelope → SubscriberEngine → Result PublishError (Unit {0}) × SubscriberEngine
send_to_relay env s =
    if not s.connected
    then (err not_connected, s)
    else if ltb max_payload_size (length env.payload % 2 ^ 32)
    then (err frame_too_large, s)
    else if not s.writable
    then (err write_failed, s)
    else (ok tt, record s { sent = s.sent ++ (env ∷ []) })

-- A connection that fails is closed, but stays in the engine.
unfoldable pub init_sent :
    Result PublishError (Unit {0}) × SubscriberEngine
    → Result HandshakeError (Unit {0}) × SubscriberEngine
init_sent (err e, s) = (err (send_failed e), record s { writable = false })
init_sent (ok u, s) = (ok tt, s)

unfoldable pub join_with :
    Result HandshakeError PakePeer
    → SubscriberEngine
    → Result HandshakeError (Unit {0}) × SubscriberEngine
unfolding init_sent
join_with (err e) s = (err e, record s { writable = false })
join_with (ok peer) s = init_sent (
    send_to_relay (handshake_frame msg_type_pake_init_sub s.session_id (bytes_of peer))
      (record s { pake_peer = some peer }))

-- The cipher of the unwrapped key.
unfoldable pub received_cipher : Primitives → List ℕ → PakePeer → Result PakeError Cipher
received_cipher prims wrapped peer = do
  p2p_key ← session_key peer
  master ← map_err crypto_error (unwrap_session_key prims p2p_key wrapped)
  map_err crypto_error (new_cipher master)

unfoldable pub received :
    Result PakeError Cipher → SubscriberEngine → Result HandshakeError (Unit {0}) × SubscriberEngine
received (err e) s = (err (exchange_failed e), s)
received (ok c) s = (ok tt, record s { cipher = some c })

module _ (pake : PakePrimitives) (prims : Primitives) where
  -- `dialed` tells whether the relay was reached, `takes` whether the new connection takes frames.
  unfoldable pub connect_subscriber :
      Randomness
      → Bool
      → Bool
      → SubscriberEngine
      → Result HandshakeError (Unit {0}) × SubscriberEngine
  unfolding join_with
  connect_subscriber rand dialed takes s =
      if not dialed
      then (err not_dialed, s)
      else join_with (peer_or_new pake rand 2 s.passphrase s.pake_peer)
          (record s { connected = true; writable = takes })

  unfoldable pub confirm_sent :
      List ℕ
      → PakePeer
      → Result PublishError (Unit {0}) × SubscriberEngine
      → Result HandshakeError (Unit {0}) × SubscriberEngine
  unfolding received received_cipher
  confirm_sent wrapped peer (err e, s) = (err (send_failed e), s)
  confirm_sent wrapped peer (ok u, s) = received (received_cipher prims wrapped peer) s

  -- The peer's own tag, once the publisher's is verified.
  unfoldable pub own_tag : List ℕ → PakePeer → Result PakeError (List ℕ)
  own_tag pub_tag peer = do
    verified ← verify_peer_confirm prims pub_tag peer
    confirm_tag prims peer

  unfoldable pub confirm :
      List ℕ
      → PakePeer
      → Result PakeError (List ℕ)
      → SubscriberEngine
      → Result HandshakeError (Unit {0}) × SubscriberEngine
  unfolding confirm_sent
  confirm wrapped peer (err e) s = (err (exchange_failed e), s)
  confirm wrapped peer (ok tag) s =
      confirm_sent wrapped peer
        (send_to_relay (handshake_frame msg_type_key_confirm s.session_id tag) s)

  unfoldable pub answered :
      List ℕ
      → List ℕ
      → Result PakeError (Unit {0}) × PakePeer
      → SubscriberEngine
      → Result HandshakeError (Unit {0}) × SubscriberEngine
  unfolding confirm own_tag
  answered wrapped pub_tag (err e, peer) s =
      (err (exchange_failed e), record s { pake_peer = some peer })
  answered wrapped pub_tag (ok u, peer) s =
      confirm wrapped peer (own_tag pub_tag peer) (record s { pake_peer = some peer })

  unfoldable pub answer_received :
      Randomness
      → List ℕ
      → Option PakePeer
      → SubscriberEngine
      → Result HandshakeError (Unit {0}) × SubscriberEngine
  unfolding answered
  answer_received rand payload none s = (err no_peer, s)
  answer_received rand payload (some peer) s =
      let rest = drop uniform_wire_msg_size payload in
      answered (take 60 rest) (take 32 (drop 60 rest))
        (update pake prims rand (take uniform_wire_msg_size payload) peer) s

  unfoldable pub receive_answer :
      Randomness
      → List Envelope
      → SubscriberEngine
      → Result HandshakeError (Unit {0}) × SubscriberEngine
  unfolding answer_received
  receive_answer rand [] s = (err not_received, s)
  receive_answer rand (env ∷ frames) s =
      if env.msg_type == msg_type_close
      then (err closed_by_peer, s)
      else if ltb env.version_ min_supported_version
      then (err incompatible_version, s)
      else if ltb (length env.payload) (uniform_wire_msg_size + 60 + 32)
      then (err invalid_response, s)
      else answer_received rand env.payload s.pake_peer s

  -- `CompleteHandshake`: `frames` are those that arrive before the deadline. Only the first is read, of
  -- whatever type it is.
  unfoldable pub complete_subscriber_handshake :
      Randomness
      → List Envelope
      → SubscriberEngine
      → Result HandshakeError (Unit {0}) × SubscriberEngine
  unfolding receive_answer
  complete_subscriber_handshake rand frames s =
      if not s.connected then (err no_connection, s) else receive_answer rand frames s
