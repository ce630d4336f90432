-- ===== src/Feed/Handshake/Whole.antt =====
-- A session of pkg/feed from the passphrase to the last message.
use zero_feed.Base.{
  ℕ, ◌*◌, ◌^◌, ◌<◌, ◌≡◌, refl, ap, ◌∙◌, true, false, some, List, [], ◌∷◌, ◌++◌, length, All,
  map_err, ok, arith,
}
use zero_feed.Protocol.Messages.{
  Envelope, msg_type_pake_init_sub, msg_type_pake_step2, msg_type_key_confirm,
}
use zero_feed.Crypto.Cipher.{Primitives, IsLawful}
use zero_feed.Crypto.Pake.{PakePrimitives, IsLawfulPake, Randomness, bytes_of}
use zero_feed.Crypto.Pake.Peers.{new_publisher, new_subscriber}
use zero_feed.Feed.Publisher.{PublisherEngine, Input, publish_each}
use zero_feed.Feed.Subscriber.{SubscriberEngine, continues, subscribe}
use zero_feed.Feed.Stream.Frames.{of_key}
use zero_feed.Feed.Stream.Follow.{contents}
use zero_feed.Feed.Stream.Whole.{tagged_payloads, IsShort, subscribe-publish_each}
use zero_feed.Feed.Handshake.{
  exchange_failed, handshake_frame, connect_publisher, complete_publisher_handshake,
}
use zero_feed.Feed.Handshake.Joining.{connect_subscriber, complete_subscriber_handshake}
use zero_feed.Feed.Handshake.Engines.{new_publisher_engine, new_subscriber_engine}
use zero_feed.Feed.Handshake.Answers.{IsOther, await_confirm_lem, complete_publisher_handshake_lem}
use zero_feed.Feed.Handshake.Session.{CanAnswer, answers}
use zero_feed.Feed.Handshake.Starting.{publisher_starts, subscriber_starts}

module _ (pake : PakePrimitives) (lawful_pake : IsLawfulPake pake) (prims : Primitives)
    (lawful : IsLawful prims) where
  -- From one passphrase, which is not empty, random values of the sizes that the code asks for,
  -- and connections that take frames: a new publisher and a new subscriber connect; the
  -- publisher's handshake, given the subscriber's first frame, fewer than eight other frames and
  -- the subscriber's confirmation, succeeds and sends one answer; the subscriber's handshake,
  -- given that answer, succeeds and sends that confirmation. Fewer than 2^63 inputs that fit
  -- frames of 32 MB, with salts of 12 bytes, are then published without an error, and the
  -- subscriber that handles the frames delivers exactly those that are not empty, with their tags,
  -- in their order.
  pub session-delivers :
      (rp rs : Randomness) (passphrase random master : List ℕ) (now : ℕ) (skipped : List Envelope)
      (inputs : List Input) (pooled : ℕ → List ℕ)
      → 0 < length passphrase
      → CanAnswer pake lawful_pake prims lawful rp rs random master
      → length skipped < 8
      → All IsOther skipped
      → 2 * length inputs < 2 ^ 64
      → All IsShort inputs
      → (p0 : PublisherEngine) × (p1 : PublisherEngine) × (p2 : PublisherEngine)
        × (s0 : SubscriberEngine) × (s1 : SubscriberEngine) × (s2 : SubscriberEngine)
        × (init : Envelope) × (reply : Envelope) × (confirmation : Envelope) × (envs : List
            Envelope)
        × (new_publisher_engine pake prims rp master now passphrase ≡ ok p0)
        × (connect_publisher pake prims rp true true p0 ≡ (ok tt, p1))
        × (new_subscriber_engine pake prims rs passphrase ≡ ok s0)
        × (connect_subscriber pake prims rs true true s0 ≡ (ok tt, s1))
        × (s1.sent ≡ init ∷ [])
        × ((later : List Envelope)
            → complete_publisher_handshake pake prims rp random
                (init ∷ skipped ++ (confirmation ∷ later))
                p1
              ≡ (ok tt, p2))
        × (p2.sent ≡ p1.sent ++ (reply ∷ []))
        × ((later : List Envelope)
            → complete_subscriber_handshake pake prims rs (reply ∷ later) s1 ≡ (ok tt, s2))
        × (s2.sent ≡ init ∷ confirmation ∷ [])
        × ((publish_each prims inputs p2).0 ≡ ok tt)
        × ((publish_each prims inputs p2).1.sent ≡ p2.sent ++ envs)
        × ((subscribe prims pooled envs s2).0 ≡ continues)
        × (contents (subscribe prims pooled envs s2).1.delivered ≡ tagged_payloads false inputs)
  session-delivers rp rs passphrase random master now skipped inputs pooled h can few others hs hp =
      let (p0, p1, newp, conp, w) =
        publisher_starts pake lawful_pake prims lawful rp passphrase master now h
          can.master_sized in
      let (s0, s1, news, cons, first, a) =
        subscriber_starts pake lawful_pake prims lawful rs passphrase h can.subscriber_noise in
      let (ans, tag, p', s', is) =
        answers pake lawful_pake prims lawful rp rs passphrase random master can in
      let bytes = bytes_of (new_subscriber pake lawful_pake rs passphrase) in
      let confirmation = handshake_frame msg_type_key_confirm s1.session_id tag in
      let reply = handshake_frame msg_type_pake_step2 p1.session_id ans in
      let p2 : PublisherEngine = record p1 {
        pake_peer = some p';
        sent = p1.sent ++ (reply ∷ []);
      } in
      let s2 : SubscriberEngine = record s1 {
        pake_peer = some s';
        sent = s1.sent ++ (confirmation ∷ []);
        cipher = some (of_key master);
      } in
      let (published, (envs, sent, goes, got)) =
        subscribe-publish_each prims lawful master p2 s2 inputs pooled
          (record {
            publishes = w.has_cipher;
            key_sized = can.master_sized;
            id_sized = w.id_sized;
            is_connected = w.is_connected;
            is_writable = w.is_writable;
          })
          (record { subscribes = refl; not_ahead = omega (arith, a.at_start) })
          (omega (arith, w.at_start)) hp in
      (
        p0,
        p1,
        p2,
        s0,
        s1,
        s2,
        handshake_frame msg_type_pake_init_sub s1.session_id bytes,
        reply,
        confirmation,
        envs,
        newp,
        conp,
        news,
        cons,
        first,
        λ later.
            complete_publisher_handshake_lem pake lawful_pake prims lawful rp random master
              s1.session_id bytes ans (skipped ++ (confirmation ∷ later))
              (new_publisher pake lawful_pake rp passphrase) p' p1 w.is_connected w.is_writable
              w.has_peer w.has_master is.updates is.responds (omega (arith, is.answer_sized))
            ∙ ap (λ r. (r, p2))
                (await_confirm_lem prims 8 skipped confirmation later p' few others refl
                  ∙ ap (map_err exchange_failed) is.confirms),
        refl,
        λ later. is.joins p1.session_id later s1 a.is_connected a.is_writable a.has_peer,
        ap (λ l. l ++ (confirmation ∷ [])) first,
        published,
        sent,
        goes,
        got
            ∙ ap (λ l. contents l ++ tagged_payloads p1.untagged_input inputs) a.nothing_delivered
            ∙ ap (λ u. tagged_payloads u inputs) w.sniffs,
      )
