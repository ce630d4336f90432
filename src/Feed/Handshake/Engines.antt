-- ===== src/Feed/Handshake/Engines.antt =====
-- NewPublisherEngine and NewSubscriberEngine of pkg/feed, and DeriveSessionID of pkg/feed/session_id.go.
use zero_feed.Base.{
  ℕ, ◌*◌, ◌^◌, false, none, some, List, [], ◌∷◌, take, Result, ok, ◌>>=◌, map_err, pos,
}
use zero_feed.Protocol.Messages.{session_id_size}
use zero_feed.Crypto.Cipher.{Cipher, Primitives, new_cipher}
use zero_feed.Crypto.Pake.{
  PakePrimitives, PakePeer, PakeError, crypto_error, Randomness, new_pake_peer,
  derive_master_key_argon2,
}
use zero_feed.Feed.Ring.{new_ring_buffer}
use zero_feed.Feed.Publisher.{PublisherEngine}
use zero_feed.Feed.Subscriber.{SubscriberEngine}

-- "zerofeed-relay-channel-rendezvous-v3"
abbrev pub rendezvous_info : List ℕ
rendezvous_info =
    b'z' ∷ b'e' ∷ b'r' ∷ b'o' ∷ b'f' ∷ b'e' ∷ b'e' ∷ b'd' ∷ b'-' ∷ b'r' ∷ b'e' ∷ b'l' ∷ b'a' ∷ b'y'
    ∷ b'-' ∷ b'c' ∷ b'h' ∷ b'a' ∷ b'n' ∷ b'n' ∷ b'e' ∷ b'l' ∷ b'-' ∷ b'r' ∷ b'e' ∷ b'n' ∷ b'd'
    ∷ b'e' ∷ b'z' ∷ b'v' ∷ b'o' ∷ b'u' ∷ b's' ∷ b'-' ∷ b'v' ∷ b'3' ∷ []

-- 1 GB and one hour.
abbrev pub default_rekey_byte_threshold : ℕ
default_rekey_byte_threshold = 1024 * 1024 * 1024

abbrev pub default_rekey_time_threshold : ℕ
default_rekey_time_threshold = 3600 * 10 ^ 9

module _ (pake : PakePrimitives) (prims : Primitives) where
  unfoldable pub derive_session_id : List ℕ → List ℕ
  derive_session_id passphrase =
      take session_id_size (prims.hmac (derive_master_key_argon2 pake passphrase) rendezvous_info)

  -- There is no connection yet.
  abbrev pub publisher_of : List ℕ → ℕ → List ℕ → PakePeer → Cipher → PublisherEngine
  publisher_of master now passphrase peer c = record {
    session_id = derive_session_id passphrase;
    passphrase = some passphrase;
    master_key = some master;
    pake_peer = some peer;
    cipher = some c;
    connected = false;
    writable = false;
    sent = [];
    seq_counter = 0;
    replay_buffer = new_ring_buffer (pos 100);
    bytes_since_rekey = 0;
    last_rekey_time = now;
    rekey_byte_limit = default_rekey_byte_threshold;
    rekey_time_limit = default_rekey_time_threshold;
    untagged_input = false;
    closed = false;
  }

  abbrev pub subscriber_of : List ℕ → PakePeer → SubscriberEngine
  subscriber_of passphrase peer = record {
    session_id = derive_session_id passphrase;
    passphrase = some passphrase;
    pake_peer = some peer;
    cipher = none;
    connected = false;
    writable = false;
    sent = [];
    ring_buffer = new_ring_buffer (pos 100);
    last_seq_num = 0;
    delivered = [];
    closed = false;
  }

  -- `master` is what the generator gives.
  unfoldable pub new_publisher_engine :
      Randomness → List ℕ → ℕ → List ℕ → Result PakeError PublisherEngine
  new_publisher_engine rand master now passphrase = do
    peer ← new_pake_peer pake rand passphrase 1
    c ← map_err crypto_error (new_cipher master)
    ok (publisher_of master now passphrase peer c)

  unfoldable pub new_subscriber_engine : Randomness → List ℕ → Result PakeError SubscriberEngine
  new_subscriber_engine rand passphrase = do
    peer ← new_pake_peer pake rand passphrase 2
    ok (subscriber_of passphrase peer)
