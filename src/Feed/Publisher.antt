-- ===== src/Feed/Publisher.antt =====
-- pkg/feed/publisher.go: tagging, publishing, ratcheting the key and replaying.
use zero_feed.Base.{
  ℕ, ◌+◌, ◌-◌, ◌%◌, ◌^◌, Bool, true, false, not, ◌&&◌, ◌||◌, Option, none, some, List, [], ◌∷◌,
  ◌++◌, length, take, replicate, ltb, leb, ◌==◌, if◌then◌else◌, Result, ok, err, put_be, get_be,
}
use zero_feed.Protocol.Messages.{
  Envelope, version, msg_type_data_stream, msg_type_rekey, msg_type_close, msg_type_heartbeat,
  tag_text, tag_file_start, tag_file_chunk, tag_file_end, header_size, serialize_header,
}
use zero_feed.Protocol.Frame.{max_payload_size}
use zero_feed.Protocol.Padding.{pad_payload, default_padding_target_size}
use zero_feed.Crypto.Hkdf.{CryptoError}
use zero_feed.Crypto.Cipher.{
  Cipher, Primitives, encrypt, ratchet_key, update_key, construct_nonce_rfc5116,
}
use zero_feed.Crypto.Pake.{PakePeer}
use zero_feed.Feed.Ring.{RingBuffer, Msg, push, get_after, wipe}

-- The frames given to the relay's connection stand in `sent`, oldest first; `connected` tells whether
-- there is a connection, `writable` whether it takes frames.
pub record PublisherEngine : Type 0 where
  pub session_id : List ℕ
  pub passphrase : Option (List ℕ)
  pub master_key : Option (List ℕ)
  pub pake_peer : Option PakePeer
  pub cipher : Option Cipher
  pub connected : Bool
  pub writable : Bool
  pub sent : List Envelope
  pub seq_counter : ℕ
  pub replay_buffer : RingBuffer
  pub bytes_since_rekey : ℕ
  pub last_rekey_time : ℕ
  pub rekey_byte_limit : ℕ
  pub rekey_time_limit : ℕ
  pub untagged_input : Bool
  pub closed : Bool

-- A payload from the input channel, with the time, the random salt and the pool's buffer at its turn.
pub record Input : Type 0 where
  pub now : ℕ
  pub salt : List ℕ
  pub pooled : List ℕ
  pub payload : List ℕ

pub data PublishError : Type 0 where
  not_connected frame_too_large write_failed no_cipher : PublishError
  crypto_failed : CryptoError → PublishError

-- The tag that `PublishStream` puts in front of a payload that is not empty.
unfoldable pub tagged : Bool → List ℕ → List ℕ
tagged untagged [] = []
tagged untagged (b ∷ payload) =
    if untagged
      || not (b == tag_text || b == tag_file_start || b == tag_file_chunk || b == tag_file_end)
    then tag_text ∷ b ∷ payload
    else b ∷ payload

-- `sendFrame`, with the size check and the write of `Encode`; frames of 4 GB and more, which `Encode` cuts,
-- do not occur.
unfoldable pub send_envelope :
    Envelope → PublisherEngine → Result PublishError (Unit {0}) × PublisherEngine
send_envelope env p =
    if not p.connected
    then (err not_connected, p)
    else if ltb max_payload_size (length env.payload % 2 ^ 32)
    then (err frame_too_large, p)
    else if not p.writable
    then (err write_failed, p)
    else (ok tt, record p { sent = p.sent ++ (env ∷ []) })

-- The header that is authenticated with a frame of `n` bytes of plaintext.
unfoldable pub aad_of : ℕ → List ℕ → List ℕ → ℕ → List ℕ
aad_of msg_type session_id nonce n =
    serialize_header (replicate header_size 0) version msg_type session_id nonce
      ((8 + n + 16) % 2 ^ 32)

unfoldable pub frame_of :
    ℕ → List ℕ → ℕ → List ℕ → Result CryptoError (List ℕ × List ℕ) → Result CryptoError Envelope
frame_of msg_type session_id seq nonce (err e) = err e
frame_of msg_type session_id seq nonce (ok (ciphertext, used)) = ok (record {
  version_ = version;
  msg_type = msg_type;
  session_id = session_id;
  nonce = nonce;
  payload = put_be 8 seq ++ ciphertext;
})

module _ (prims : Primitives) where
  -- The encrypted frame of a sequence number.
  unfoldable pub encrypted_frame : ℕ → List ℕ → Cipher → ℕ → List ℕ → Result CryptoError Envelope
  unfolding frame_of
  encrypted_frame msg_type session_id c seq plaintext =
      let nonce = construct_nonce_rfc5116 (take 4 session_id) seq in
      frame_of msg_type session_id seq nonce (
        encrypt prims [] c plaintext (some nonce)
          (aad_of msg_type session_id nonce (length plaintext)))

  unfoldable pub send_result :
      Result CryptoError Envelope
      → PublisherEngine
      → Result PublishError (Unit {0}) × PublisherEngine
  send_result (err e) p = (err (crypto_failed e), p)
  send_result (ok env) p = send_envelope env p

  -- The key after a rekey frame was sent.
  unfoldable pub with_key :
      ℕ → List ℕ → Result CryptoError Cipher → PublisherEngine → PublisherEngine
  with_key now next (err e) p = p
  with_key now next (ok c) p = record p {
    cipher = some c;
    master_key = some next;
    bytes_since_rekey = 0;
    last_rekey_time = now;
  }

  unfoldable pub ratcheted :
      ℕ → Cipher → Result CryptoError (List ℕ) → PublisherEngine → PublisherEngine
  unfolding with_key
  ratcheted now c (err e) p = p
  ratcheted now c (ok next) p = with_key now next (update_key c next) p

  unfoldable pub rekey_sent :
      ℕ
      → List ℕ
      → Cipher
      → List ℕ
      → Result PublishError (Unit {0}) × PublisherEngine
      → PublisherEngine
  unfolding ratcheted
  rekey_sent now salt c key (err e, p) = p
  rekey_sent now salt c key (ok u, p) = ratcheted now c (ratchet_key prims key salt) p

  unfoldable pub rekey_with :
      ℕ → List ℕ → Cipher → Option (List ℕ) → PublisherEngine → PublisherEngine
  unfolding send_result rekey_sent
  rekey_with now salt c none p = p
  rekey_with now salt c (some key) p =
      let seq = (p.seq_counter + 1) % 2 ^ 64 in
      let counted = record p { seq_counter = seq } in
      rekey_sent now salt c key
        (send_result (encrypted_frame msg_type_rekey p.session_id c seq salt) counted)

  -- `TriggerRekey`, whose error the caller drops. `salt` is what `GenerateNonce` gives.
  unfoldable pub trigger_rekey : ℕ → List ℕ → Option Cipher → PublisherEngine → PublisherEngine
  unfolding rekey_with
  trigger_rekey now salt none p = p
  trigger_rekey now salt (some c) p = rekey_with now salt c c.key p

  unfoldable pub should_rekey : ℕ → PublisherEngine → Bool
  should_rekey now p =
      (ltb 0 p.rekey_byte_limit && leb p.rekey_byte_limit p.bytes_since_rekey)
      || (ltb 0 p.rekey_time_limit && leb p.rekey_time_limit (now - p.last_rekey_time))

  unfoldable pub publish_with :
      List ℕ
      → List ℕ
      → Option Cipher
      → PublisherEngine
      → Result PublishError (Unit {0}) × PublisherEngine
  unfolding send_result
  publish_with pooled payload none p = (err no_cipher, p)
  publish_with pooled payload (some c) p =
      let seq = (p.seq_counter + 1) % 2 ^ 64 in
      let pushed = record p {
        seq_counter = seq;
        replay_buffer = (push pooled p.replay_buffer seq payload).0;
      } in
      send_result
        (encrypted_frame msg_type_data_stream p.session_id c seq
          (pad_payload payload default_padding_target_size))
        pushed

  unfoldable pub after_rekey : ℕ → List ℕ → PublisherEngine → PublisherEngine
  unfolding trigger_rekey
  after_rekey now salt p = if should_rekey now p then trigger_rekey now salt p.cipher p else p

  -- `pooled` is the buffer that the replay buffer gets for the payload.
  unfoldable pub publish_payload :
      ℕ
      → List ℕ
      → List ℕ
      → List ℕ
      → PublisherEngine
      → Result PublishError (Unit {0}) × PublisherEngine
  unfolding after_rekey publish_with
  publish_payload now salt pooled payload p =
      let counted = record p {
        bytes_since_rekey = (p.bytes_since_rekey + length payload) % 2 ^ 64;
      } in
      let ready = after_rekey now salt counted in publish_with pooled payload ready.cipher ready

  -- The rest of the loop, if the payload was published.
  unfoldable pub unless_failed :
      Result PublishError (Unit {0}) × PublisherEngine
      → Result PublishError (Unit {0}) × PublisherEngine
      → Result PublishError (Unit {0}) × PublisherEngine
  unless_failed (err e, p) rest = (err e, p)
  unless_failed (ok u, p) rest = rest

  -- The loop of `PublishStream` over its inputs. Empty payloads are passed over.
  unfoldable pub publish_each :
      List Input → PublisherEngine → Result PublishError (Unit {0}) × PublisherEngine
  unfolding unless_failed
  publish_each [] p = (ok tt, p)
  publish_each (i ∷ inputs) p =
      let first = publish_payload i.now i.salt i.pooled (tagged p.untagged_input i.payload) p in
      let rest = publish_each inputs p in
      let after = publish_each inputs first.1 in
      if length i.payload == 0 then rest else unless_failed first after

  -- A frame that cannot be encrypted is passed over, and an error of the connection is dropped.
  unfoldable pub replay_each : Cipher → List Msg → PublisherEngine → PublisherEngine
  unfolding send_result
  replay_each c [] p = p
  replay_each c (item ∷ items) p =
      replay_each c items
        (send_result
          (encrypted_frame msg_type_data_stream p.session_id c item.seq
            (pad_payload item.bytes default_padding_target_size))
          p).1

  unfoldable pub replay_with : Option Cipher → List Msg → PublisherEngine → PublisherEngine
  unfolding replay_each
  replay_with none items p = p
  replay_with (some c) items p = if p.connected then replay_each c items p else p

  -- `replaySyncForSubscriber`; `pooled` gives the buffers for the copies.
  unfoldable pub replay_sync : (ℕ → List ℕ) → ℕ → PublisherEngine → PublisherEngine
  unfolding replay_with
  replay_sync pooled last p = replay_with p.cipher (get_after pooled p.replay_buffer last) p

  -- A SyncReq of the publisher's loop: a payload that is too short is passed over.
  unfoldable pub handle_sync_req : (ℕ → List ℕ) → Envelope → PublisherEngine → PublisherEngine
  handle_sync_req pooled env p =
      if leb 8 (length env.payload) then replay_sync pooled (get_be (take 8 env.payload)) p else p

-- The closing frame is the last one; then the keys, the passphrase and the replay buffer go.
unfoldable pub close_publisher : PublisherEngine → PublisherEngine
close_publisher p =
    let goodbye : Envelope = record {
      version_ = version;
      msg_type = msg_type_close;
      session_id = p.session_id;
      nonce = replicate 12 0;
      payload = [];
    } in
    let told = if p.connected then (send_envelope goodbye p).1 else p in
    if p.closed then p else record told {
      closed = true;
      connected = false;
      cipher = none;
      pake_peer = none;
      master_key = none;
      passphrase = none;
      replay_buffer = (wipe told.replay_buffer).0;
    }

-- A tick of the heartbeat; an error of the connection is dropped.
unfoldable pub send_heartbeat : PublisherEngine → PublisherEngine
send_heartbeat p =
    let heartbeat : Envelope = record {
      version_ = version;
      msg_type = msg_type_heartbeat;
      session_id = p.session_id;
      nonce = replicate 12 0;
      payload = [];
    } in
    (send_envelope heartbeat p).1

abbrev pub set_rekey_thresholds : ℕ → ℕ → PublisherEngine → PublisherEngine
set_rekey_thresholds byte_limit time_limit p = record p {
  rekey_byte_limit = byte_limit;
  rekey_time_limit = time_limit;
}
