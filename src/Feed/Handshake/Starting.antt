-- ===== src/Feed/Handshake/Starting.antt =====
-- New engines of pkg/feed, and their connections to the relay.
use zero_feed.Base.{
  ℕ, ◌≤◌, ◌<◌, ◌≡◌, refl, ap, ◌∙◌, true, false, some, List, [], ◌∷◌, ◌++◌, length, length-take, ok,
  arith,
}
use zero_feed.Protocol.Messages.{msg_type_pake_init_pub, msg_type_pake_init_sub}
use zero_feed.Crypto.Cipher.{Primitives, IsLawful, new_cipher}
use zero_feed.Crypto.Pake.{
  PakePrimitives, IsLawfulPake, Randomness, bytes_of, derive_master_key_argon2,
}
use zero_feed.Crypto.Pake.Peers.{
  new_publisher, new_subscriber, new_pake_peer-publisher, new_pake_peer-subscriber, length-bytes_of,
}
use zero_feed.Feed.Publisher.{PublisherEngine}
use zero_feed.Feed.Subscriber.{SubscriberEngine}
use zero_feed.Feed.Stream.Frames.{of_key}
use zero_feed.Feed.Stream.Follow.{send_synced}
use zero_feed.Feed.Handshake.{
  handshake_frame, peer_or_new, connect_with, first_sent, connect_publisher,
}
use zero_feed.Feed.Handshake.Joining.{join_with, init_sent, connect_subscriber}
use zero_feed.Feed.Handshake.Answers.{send_to_relay_lem}
use zero_feed.Feed.Handshake.Engines.{
  rendezvous_info, derive_session_id, publisher_of, subscriber_of, new_publisher_engine,
  new_subscriber_engine,
}

module _ (pake : PakePrimitives) (lawful_pake : IsLawfulPake pake) (prims : Primitives)
    (lawful : IsLawful prims) where
  -- A publisher that waits for its first subscriber.
  pub record Waits (rand : Randomness) (passphrase master : List ℕ) (p : PublisherEngine)
      : Type 0 where
    pub has_peer : p.pake_peer ≡ some (new_publisher pake lawful_pake rand passphrase)
    pub has_master : p.master_key ≡ some master
    pub has_passphrase : p.passphrase ≡ some passphrase
    pub has_cipher : p.cipher ≡ some (of_key master)
    pub id_sized : length p.session_id ≡ 16
    pub is_connected : p.connected ≡ true
    pub is_writable : p.writable ≡ true
    pub at_start : p.seq_counter ≡ 0
    pub sniffs : p.untagged_input ≡ false

  -- A subscriber whose first frame is under way.
  pub record Asks (rand : Randomness) (passphrase : List ℕ) (s : SubscriberEngine) : Type 0 where
    pub has_peer : s.pake_peer ≡ some (new_subscriber pake lawful_pake rand passphrase)
    pub is_connected : s.connected ≡ true
    pub is_writable : s.writable ≡ true
    pub at_start : s.last_seq_num ≡ 0
    pub nothing_delivered : s.delivered ≡ []

  length-derive_session_id :
      (passphrase : List ℕ) → length (derive_session_id pake prims passphrase) ≡ 16
  unfolding derive_session_id
  length-derive_session_id passphrase =
      let tag = prims.hmac (derive_master_key_argon2 pake passphrase) rendezvous_info in
      omega (
        arith,
        length-take 16 tag,
        lawful.length-hmac (derive_master_key_argon2 pake passphrase) rendezvous_info,
      )

  connect_publisher_lem :
      (rand : Randomness) (passphrase : List ℕ) (p : PublisherEngine)
      → p.pake_peer ≡ some (new_publisher pake lawful_pake rand passphrase)
      → connect_publisher pake prims rand true true p ≡ (
        ok tt,
        record p {
          pake_peer = some (new_publisher pake lawful_pake rand passphrase);
          connected = true;
          writable = true;
          sent = p.sent ++ (handshake_frame msg_type_pake_init_pub p.session_id [] ∷ []);
        },
      )
  unfolding connect_publisher peer_or_new connect_with first_sent
  connect_publisher_lem rand passphrase p h =
      let peer = new_publisher pake lawful_pake rand passphrase in
      let q : PublisherEngine = record p { connected = true; writable = true } in
      ap (λ o. connect_with (peer_or_new pake rand 1 p.passphrase o) q) h
      ∙ ap first_sent (
          send_synced prims lawful (handshake_frame msg_type_pake_init_pub p.session_id [])
            (record q { pake_peer = some peer }) refl refl (omega arith))

  pub connect_subscriber_lem :
      (rand : Randomness) (passphrase : List ℕ) (s : SubscriberEngine)
      → 1280 ≤ length rand.noise
      → s.pake_peer ≡ some (new_subscriber pake lawful_pake rand passphrase)
      → connect_subscriber pake prims rand true true s ≡ (
        ok tt,
        record s {
          pake_peer = some (new_subscriber pake lawful_pake rand passphrase);
          connected = true;
          writable = true;
          sent =
              s.sent
              ++ (handshake_frame msg_type_pake_init_sub s.session_id
                    (bytes_of (new_subscriber pake lawful_pake rand passphrase))
                  ∷ []);
        },
      )
  unfolding connect_subscriber peer_or_new join_with init_sent
  connect_subscriber_lem rand passphrase s n h =
      let peer = new_subscriber pake lawful_pake rand passphrase in
      let q : SubscriberEngine = record s { connected = true; writable = true } in
      let sized = length-bytes_of pake lawful_pake rand passphrase n in
      ap (λ o. join_with (peer_or_new pake rand 2 s.passphrase o) q) h
      ∙ ap init_sent (
          send_to_relay_lem pake lawful_pake prims lawful
            (handshake_frame msg_type_pake_init_sub s.session_id (bytes_of peer))
            (record q { pake_peer = some peer }) refl refl (omega (arith, sized)))

  pub publisher_starts :
      (rand : Randomness) (passphrase master : List ℕ) (now : ℕ)
      → 0 < length passphrase
      → length master ≡ 32
      → (p0 : PublisherEngine) × (p : PublisherEngine) × (new_publisher_engine pake prims rand
            master now passphrase
          ≡ ok p0)
        × (connect_publisher pake prims rand true true p0 ≡ (ok tt, p))
        × Waits rand passphrase master p
  unfolding new_publisher_engine new_cipher
  publisher_starts rand passphrase master now h n = (
    publisher_of pake prims master now passphrase (new_publisher pake lawful_pake rand passphrase)
        (of_key master),
    _,
    rw (new_pake_peer-publisher pake lawful_pake rand passphrase h, n),
    connect_publisher_lem rand passphrase _ refl,
    record {
      has_peer = refl;
      has_master = refl;
      has_passphrase = refl;
      has_cipher = refl;
      id_sized = length-derive_session_id passphrase;
      is_connected = refl;
      is_writable = refl;
      at_start = refl;
      sniffs = refl;
    },
  )

  pub subscriber_starts :
      (rand : Randomness) (passphrase : List ℕ)
      → 0 < length passphrase
      → 1280 ≤ length rand.noise
      → (s0 : SubscriberEngine) × (s : SubscriberEngine) × (new_subscriber_engine pake prims rand
            passphrase
          ≡ ok s0)
        × (connect_subscriber pake prims rand true true s0 ≡ (ok tt, s))
        × (s.sent
            ≡ handshake_frame msg_type_pake_init_sub s.session_id
                (bytes_of (new_subscriber pake lawful_pake rand passphrase))
              ∷ [])
        × Asks rand passphrase s
  unfolding new_subscriber_engine
  subscriber_starts rand passphrase h n = (
    subscriber_of pake prims passphrase (new_subscriber pake lawful_pake rand passphrase),
    _,
    rw (new_pake_peer-subscriber pake lawful_pake rand passphrase h),
    connect_subscriber_lem rand passphrase _ n refl,
    refl,
    record {
      has_peer = refl;
      is_connected = refl;
      is_writable = refl;
      at_start = refl;
      nothing_delivered = refl;
    },
  )
