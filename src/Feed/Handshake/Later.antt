-- ===== src/Feed/Handshake/Later.antt =====
-- A subscriber that joins a running publisher of pkg/feed.
use zero_feed.Base.{
  ℕ, ◌+◌, ◌*◌, ◌^◌, ◌≤◌, ◌<◌, ◌≡◌, refl, ap, sym, ◌∙◌, true, some, List, [], ◌∷◌, ◌++◌, length, All,
  ok, arith,
}
use zero_feed.Protocol.Messages.{
  Envelope, msg_type_pake_init_sub, msg_type_pake_step2, msg_type_key_confirm,
}
use zero_feed.Crypto.Cipher.{Primitives, IsLawful}
use zero_feed.Crypto.Pake.{PakePrimitives, PakePeer, IsLawfulPake, Randomness, bytes_of, update}
use zero_feed.Crypto.Pake.Peers.{new_publisher, new_subscriber, new_pake_peer-publisher}
use zero_feed.Feed.Publisher.{PublisherEngine, Input, publish_each}
use zero_feed.Feed.Subscriber.{SubscriberEngine, continues, subscribe}
use zero_feed.Feed.Stream.Frames.{of_key}
use zero_feed.Feed.Stream.Follow.{IsReady, contents, send_synced}
use zero_feed.Feed.Stream.Whole.{tagged_payloads, IsShort, subscribe-publish_each}
use zero_feed.Feed.Handshake.{
  handshake_frame, pake_response, answer, answer_with, answer_for, handle_pake_init_sub,
}
use zero_feed.Feed.Handshake.Joining.{complete_subscriber_handshake}
use zero_feed.Feed.Handshake.Session.{CanAnswer, answers}

module _ (pake : PakePrimitives) (lawful_pake : IsLawfulPake pake) (prims : Primitives)
    (lawful : IsLawful prims) where
  -- The answer of a running publisher to the first frame of a new peer.
  pub handle_pake_init_sub_lem :
      (rand : Randomness) (random passphrase key sid payload reply : List ℕ) (peer' : PakePeer)
      (p : PublisherEngine)
      → 0 < length passphrase
      → IsReady key p
      → p.passphrase ≡ some passphrase
      → p.master_key ≡ some key
      → update pake prims rand payload (new_publisher pake lawful_pake rand passphrase)
        ≡ (ok tt, peer')
      → pake_response prims random (some key) peer' ≡ ok reply
      → length reply ≡ 1372
      → handle_pake_init_sub pake prims rand random
          (handshake_frame msg_type_pake_init_sub sid payload)
          p
        ≡ record p {
          sent = p.sent ++ (handshake_frame msg_type_pake_step2 p.session_id reply ∷ []);
        }
  unfolding handle_pake_init_sub answer_for answer_with answer
  handle_pake_init_sub_lem rand random passphrase key sid payload reply peer' p h y hp hm hu hr n =
      let env = handshake_frame msg_type_pake_init_sub sid payload in
      ap (λ o. answer_for pake prims rand random env o p) hp
      ∙ ap (λ r. answer_with pake prims rand random env r p)
          (new_pake_peer-publisher pake lawful_pake rand passphrase h)
      ∙ ap (λ r. answer pake prims (pake_response prims random p.master_key r.1) p) hu
      ∙ ap (λ o. answer pake prims (pake_response prims random o peer') p) hm
      ∙ ap (λ r. answer pake prims r p) hr
      ∙ ap (λ r. r.1)
          (send_synced prims lawful (handshake_frame msg_type_pake_step2 p.session_id reply) p
            y.is_connected y.is_writable (omega (arith, n)))

  -- A publisher that can publish under its master key, whatever key it has turned to, and has a
  -- passphrase that is not empty, answers the first frame of a new peer with that passphrase by
  -- one frame, if the random values have the sizes that the code asks for. A connected subscriber
  -- with that peer that handles the answer completes its handshake, keeps what it had, and then,
  -- if it has no number that the publisher has still to give, delivers exactly the inputs that the
  -- publisher publishes next, as far as they are not empty, with their tags, in their order, if
  -- they fit frames of 32 MB, their salts have 12 bytes and the sequence numbers suffice.
  pub handle_pake_init_sub-delivers :
      (rp rs : Randomness) (passphrase random key sid : List ℕ) (p : PublisherEngine)
      (s : SubscriberEngine) (later : List Envelope) (inputs : List Input) (pooled : ℕ → List ℕ)
      → 0 < length passphrase
      → CanAnswer pake lawful_pake prims lawful rp rs random key
      → IsReady key p
      → p.passphrase ≡ some passphrase
      → p.master_key ≡ some key
      → s.pake_peer ≡ some (new_subscriber pake lawful_pake rs passphrase)
      → s.connected ≡ true
      → s.writable ≡ true
      → s.last_seq_num ≤ p.seq_counter
      → p.seq_counter + 2 * length inputs < 2 ^ 64
      → All IsShort inputs
      → let bytes = bytes_of (new_subscriber pake lawful_pake rs passphrase) in
        let init = handshake_frame msg_type_pake_init_sub sid bytes in
        let p1 = handle_pake_init_sub pake prims rp random init p in
        (reply : Envelope) × (envs : List Envelope) × (s1 : SubscriberEngine) × (p1.sent
          ≡ p.sent ++ (reply ∷ []))
        × (complete_subscriber_handshake pake prims rs (reply ∷ later) s ≡ (ok tt, s1))
        × (s1.delivered ≡ s.delivered)
        × ((publish_each prims inputs p1).0 ≡ ok tt)
        × ((publish_each prims inputs p1).1.sent ≡ p1.sent ++ envs)
        × ((subscribe prims pooled envs s1).0 ≡ continues)
        × (contents (subscribe prims pooled envs s1).1.delivered
            ≡ contents s.delivered ++ tagged_payloads p.untagged_input inputs)
  handle_pake_init_sub-delivers rp rs passphrase random key sid p s later inputs pooled h can y hp
        hm hs hc hw behind enough short =
      let bytes = bytes_of (new_subscriber pake lawful_pake rs passphrase) in
      let (ans, tag, p', s', is) =
        answers pake lawful_pake prims lawful rp rs passphrase random key can in
      let reply = handshake_frame msg_type_pake_step2 p.session_id ans in
      let q : PublisherEngine = record p { sent = p.sent ++ (reply ∷ []) } in
      let s1 : SubscriberEngine = record s {
        pake_peer = some s';
        sent = s.sent ++ (handshake_frame msg_type_key_confirm s.session_id tag ∷ []);
        cipher = some (of_key key);
      } in
      let e =
        handle_pake_init_sub_lem rp random passphrase key sid bytes ans p' p h y hp hm is.updates
          is.responds is.answer_sized in
      let (published, (envs, sent, goes, got)) =
        subscribe-publish_each prims lawful key q s1 inputs pooled
          (record {
            publishes = y.publishes;
            key_sized = y.key_sized;
            id_sized = y.id_sized;
            is_connected = y.is_connected;
            is_writable = y.is_writable;
          })
          (record { subscribes = refl; not_ahead = behind }) enough short in
      (
        reply,
        envs,
        s1,
        ap (λ r. r.sent) e,
        is.joins p.session_id later s hc hw hs,
        refl,
        ap (λ r. (publish_each prims inputs r).0) e ∙ published,
        ap (λ r. (publish_each prims inputs r).1.sent) e ∙ sent ∙ ap (λ r. r.sent ++ envs) (sym e),
        goes,
        got,
      )
