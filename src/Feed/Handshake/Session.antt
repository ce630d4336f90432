-- ===== src/Feed/Handshake/Session.antt =====
-- A handshake of both engines of pkg/feed, and the stream after it.
use zero_feed.Base.{
  ℕ, ◌≤◌, ◌≡◌, ap, sym, ◌∙◌, true, some, List, [], ◌∷◌, ◌++◌, length, length-append, append-nil, ok,
  arith,
}
use zero_feed.Protocol.Messages.{Envelope, msg_type_pake_step2, msg_type_key_confirm}
use zero_feed.Crypto.Cipher.{Primitives, IsLawful, unwrap_session_key}
use zero_feed.Crypto.Cipher.Laws.{unwrap_session_key-wrap_session_key}
use zero_feed.Crypto.Pake.{
  PakePrimitives, IsLawfulPake, PakePeer, Randomness, bytes_of, confirmation, update,
  verify_peer_confirm,
}
use zero_feed.Crypto.Pake.Agreement.{exchanged_lem, verify_peer_confirm-Agree}
use zero_feed.Crypto.Pake.Peers.{Agree, new_publisher, new_subscriber}
use zero_feed.Feed.Subscriber.{SubscriberEngine}
use zero_feed.Feed.Stream.Frames.{of_key}
use zero_feed.Feed.Handshake.{handshake_frame, pake_response}
use zero_feed.Feed.Handshake.Joining.{own_tag, complete_subscriber_handshake}
use zero_feed.Feed.Handshake.Answers.{
  pake_response_lem, received_cipher_lem, complete_subscriber_handshake_lem,
}

module _ (pake : PakePrimitives) (lawful_pake : IsLawfulPake pake) (prims : Primitives)
    (lawful : IsLawful prims) where
  own_tag_lem :
      (key : List ℕ) (p s : PakePeer)
      → Agree key p s
      → own_tag pake prims (prims.hmac key (confirmation 1)) s
        ≡ ok (prims.hmac key (confirmation 2))
  unfolding own_tag
  own_tag_lem key p s a =
      let facts = verify_peer_confirm-Agree pake lawful_pake prims lawful key p s a in
      rw (facts.4, facts.3)

  -- What an answer to a subscriber needs: the publisher's key, and the two random values.
  pub record CanAnswer (rp rs : Randomness) (random master : List ℕ) : Type 0 where
    pub publisher_noise : 1280 ≤ length rp.noise
    pub subscriber_noise : 1280 ≤ length rs.noise
    pub random_sized : length random ≡ 12
    pub master_sized : length master ≡ 32

  -- An answer: the publisher's peer gives it for the subscriber's bytes, and the subscriber gets the master
  -- key and a tag that the publisher's peer accepts.
  pub record IsAnswer (rp rs : Randomness) (passphrase random master answer tag : List ℕ)
      (p' s' : PakePeer) : Type 0 where
    pub updates :
        update pake prims rp
          (bytes_of (new_subscriber pake lawful_pake rs passphrase))
          (new_publisher pake lawful_pake rp passphrase)
        ≡ (ok tt, p')
    pub responds : pake_response prims random (some master) p' ≡ ok answer
    pub answer_sized : length answer ≡ 1372
    pub confirms : verify_peer_confirm prims tag p' ≡ ok tt
    pub joins :
        (sid : List ℕ) (frames : List Envelope) (s : SubscriberEngine)
        → s.connected ≡ true
        → s.writable ≡ true
        → s.pake_peer ≡ some (new_subscriber pake lawful_pake rs passphrase)
        → complete_subscriber_handshake pake prims rs
            (handshake_frame msg_type_pake_step2 sid answer ∷ frames)
            s
          ≡ (
            ok tt,
            record s {
              pake_peer = some s';
              sent = s.sent ++ (handshake_frame msg_type_key_confirm s.session_id tag ∷ []);
              cipher = some (of_key master);
            },
          )

  pub answers :
      (rp rs : Randomness) (passphrase random master : List ℕ)
      → CanAnswer rp rs random master
      → (answer : List ℕ) × (tag : List ℕ) × (p' : PakePeer) × (s' : PakePeer) × IsAnswer rp rs
          passphrase random master answer tag p' s'
  answers rp rs passphrase random master can =
      let (key, (p', s', up, us, agree)) =
        exchanged_lem pake lawful_pake prims lawful rp rs passphrase can.publisher_noise
          can.subscriber_noise in
      let (wrapped, wraps, sized, unwraps) =
        unwrap_session_key-wrap_session_key prims lawful random key master [] can.random_sized
          agree.key_sized can.master_sized in
      let facts = verify_peer_confirm-Agree pake lawful_pake prims lawful key p' s' agree in
      let cipher =
        received_cipher_lem pake lawful_pake prims lawful key master wrapped p' s' agree
          (ap (unwrap_session_key prims key) (sym (append-nil wrapped)) ∙ unwraps)
          can.master_sized in
      let n1 = lawful.length-hmac key (confirmation 1) in
      let n2 = lawful.length-hmac key (confirmation 2) in
      (
        (bytes_of p' ++ wrapped) ++ prims.hmac key (confirmation 1),
        prims.hmac key (confirmation 2),
        p',
        s',
        record {
          updates = up;
          responds =
              pake_response_lem pake lawful_pake prims lawful key random master wrapped p' s' agree
                wraps;
          answer_sized = omega (
            arith,
            length-append (bytes_of p' ++ wrapped) (prims.hmac key (confirmation 1)),
            length-append (bytes_of p') wrapped,
            agree.payload_sized,
            sized,
            n1,
          );
          confirms = facts.5;
          joins = λ sid frames s hc hw hp.
              complete_subscriber_handshake_lem pake lawful_pake prims lawful rs (bytes_of p')
                wrapped (prims.hmac key (confirmation 1)) (prims.hmac key (confirmation 2)) master
                sid frames (new_subscriber pake lawful_pake rs passphrase) s' s hc hw hp
                agree.payload_sized sized n1 us (own_tag_lem key p' s' agree) (omega (arith, n2))
                cipher;
        },
      )
