-- ===== src/Feed/Subscriber.antt =====
-- pkg/feed/subscriber.go: what `SubscribeStream` does with each decoded frame.
use zero_feed.Base.{
  ℕ, ◌+◌, ◌%◌, ◌^◌, Bool, true, false, not, Option, none, some, List, [], ◌∷◌, ◌++◌, length, take,
  drop, replicate, ltb, leb, ◌==◌, if◌then◌else◌, Result, ok, err, get_be, put_be,
}
use zero_feed.Protocol.Messages.{
  Envelope, version, msg_type_data_stream, msg_type_rekey, msg_type_close, msg_type_heartbeat,
  msg_type_sync_req, header_size, serialize_header,
}
use zero_feed.Protocol.Padding.{unpad_payload}
use zero_feed.Crypto.Hkdf.{CryptoError}
use zero_feed.Crypto.Cipher.{Cipher, Primitives, decrypt, ratchet_key, update_key}
use zero_feed.Crypto.Pake.{PakePeer}
use zero_feed.Feed.Ring.{RingBuffer, Msg, push, wipe}

-- `delivered` holds the plaintexts whose sequence numbers were new, oldest first: those go to the ring,
-- and to the switch over the tags if they are not empty. The frames given to the connections stand in
-- `sent`, oldest first; `writable` tells whether the connection takes frames.
pub record SubscriberEngine : Type 0 where
  pub session_id : List ℕ
  pub passphrase : Option (List ℕ)
  pub pake_peer : Option PakePeer
  pub cipher : Option Cipher
  pub connected : Bool
  pub writable : Bool
  pub sent : List Envelope
  pub ring_buffer : RingBuffer
  pub last_seq_num : ℕ
  pub delivered : List Msg
  pub closed : Bool

-- How the loop goes on after a frame.
pub data Flow : Type 0 where
  continues finished : Flow
  failed : CryptoError → Flow

-- The header as the subscriber writes it again from the envelope.
unfoldable pub aad_from : Envelope → List ℕ
aad_from env =
    serialize_header (replicate header_size 0) env.version_ env.msg_type env.session_id env.nonce
      (length env.payload % 2 ^ 32)

-- A payload whose padding is invalid is kept as it is.
unfoldable pub or_raw : List ℕ → Option (List ℕ) → List ℕ
or_raw plaintext none = plaintext
or_raw plaintext (some unpadded) = unpadded

-- A sequence number that is not new is dropped.
unfoldable pub deliver : List ℕ → ℕ → List ℕ → SubscriberEngine → SubscriberEngine
deliver pooled seq plaintext s =
    let item : Msg = record { seq = seq; bytes = plaintext } in
    if leb seq s.last_seq_num then s else record s {
      last_seq_num = seq;
      ring_buffer = (push pooled s.ring_buffer seq plaintext).0;
      delivered = s.delivered ++ (item ∷ []);
    }

unfoldable pub data_opened :
    List ℕ → ℕ → Result CryptoError (List ℕ) → SubscriberEngine → Flow × SubscriberEngine
unfolding deliver or_raw
data_opened pooled seq (err e) s = (failed e, s)
data_opened pooled seq (ok plaintext) s =
    (continues, deliver pooled seq (or_raw plaintext (unpad_payload plaintext)) s)

-- What the loop gives after a frame, if `rest` is what it gives for the others.
unfoldable pub go_on : Flow → SubscriberEngine → Flow × SubscriberEngine → Flow × SubscriberEngine
go_on continues s rest = rest
go_on finished s rest = (finished, s)
go_on (failed e) s rest = (failed e, s)

module _ (prims : Primitives) where
  unfoldable pub or_old : Cipher → Result CryptoError Cipher → Cipher
  or_old c (err e) = c
  or_old c (ok c') = c'

  unfoldable pub next_cipher : Cipher → Result CryptoError (List ℕ) → Cipher
  unfolding or_old
  next_cipher c (err e) = c
  next_cipher c (ok next) = or_old c (update_key c next)

  unfoldable pub rekeyed : Cipher → List ℕ → Option (List ℕ) → SubscriberEngine → SubscriberEngine
  unfolding next_cipher
  rekeyed c salt none s = s
  rekeyed c salt (some key) s = record s {
    cipher = some (next_cipher c (ratchet_key prims key salt));
  }

  unfoldable pub rekey_opened :
      Cipher → Result CryptoError (List ℕ) → SubscriberEngine → Flow × SubscriberEngine
  unfolding rekeyed
  rekey_opened c (err e) s = (failed e, s)
  rekey_opened c (ok salt) s = (continues, rekeyed c salt c.key s)

  unfoldable pub handle_rekey :
      Envelope → Option Cipher → SubscriberEngine → Flow × SubscriberEngine
  unfolding rekey_opened
  handle_rekey env none s = (continues, s)
  handle_rekey env (some c) s =
      rekey_opened c (decrypt prims c (drop 8 env.payload) env.nonce (aad_from env)) s

  unfoldable pub handle_data :
      List ℕ → Envelope → Option Cipher → SubscriberEngine → Flow × SubscriberEngine
  unfolding data_opened
  handle_data pooled env none s = (continues, s)
  handle_data pooled env (some c) s =
      data_opened pooled (get_be (take 8 env.payload))
        (decrypt prims c (drop 8 env.payload) env.nonce (aad_from env)) s

  -- One decoded frame; `pooled` is the buffer that the ring gets for it.
  unfoldable pub handle_envelope : List ℕ → Envelope → SubscriberEngine → Flow × SubscriberEngine
  unfolding handle_rekey handle_data
  handle_envelope pooled env s =
      if env.msg_type == msg_type_close
      then (finished, s)
      else if env.msg_type == msg_type_heartbeat
      then (continues, s)
      else if env.msg_type == msg_type_rekey
      then (if ltb (length env.payload) 8 then (continues, s) else handle_rekey env s.cipher s)
      else if not (env.msg_type == msg_type_data_stream)
      then (continues, s)
      else if ltb (length env.payload) 8
      then (continues, s)
      else handle_data pooled env s.cipher s

  -- The loop over the frames of one connection: the flow after the last one that was handled.
  unfoldable pub subscribe :
      (ℕ → List ℕ) → List Envelope → SubscriberEngine → Flow × SubscriberEngine
  unfolding handle_envelope go_on
  subscribe pooled [] s = (continues, s)
  subscribe pooled (env ∷ envs) s =
      let (flow, s') = handle_envelope (pooled 0) env s in
      let rest = subscribe (λ i. pooled (i + 1)) envs s' in go_on flow s' rest

-- The payload of `SendSyncRequest`.
unfoldable pub sync_request : SubscriberEngine → Option Envelope
sync_request s =
    if not s.connected
    then none
    else some (record {
      version_ = version;
      msg_type = msg_type_sync_req;
      session_id = s.session_id;
      nonce = replicate 12 0;
      payload = put_be 8 s.last_seq_num;
    })

unfoldable pub close_subscriber : SubscriberEngine → SubscriberEngine
close_subscriber s = if s.closed then s else record s {
  closed = true;
  connected = false;
  cipher = none;
  pake_peer = none;
  passphrase = none;
  ring_buffer = (wipe s.ring_buffer).0;
}
