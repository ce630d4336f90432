-- ===== src/Feed/Handshake/Answers.antt =====
-- The two sides of a handshake of pkg/feed, frame by frame.
use zero_feed.Base.{
  ℕ, zero, suc, ◌≤◌, ◌<◌, ◌≡◌, ◌≢◌, refl, ap, ◌∙◌, ◌%◌, ◌^◌, true, false, some, take_all, List, [],
  ◌∷◌, ◌++◌, length, take, drop, All, Bool, not, if◌then◌else◌, ltb, ◌==◌, length-append,
  take-append, drop-append, append_assoc, ok, err, map_err, arith,
}
use zero_feed.Protocol.Messages.{
  Envelope, msg_type_pake_init_sub, msg_type_pake_step2, msg_type_key_confirm,
}
use zero_feed.Protocol.Frame.{max_payload_size}
use zero_feed.Crypto.Cipher.{Primitives, IsLawful, new_cipher, wrap_session_key, unwrap_session_key}
use zero_feed.Crypto.Pake.{
  PakePrimitives, IsLawfulPake, PakePeer, Randomness, bytes_of, confirmation, update,
  verify_peer_confirm,
}
use zero_feed.Crypto.Pake.Agreement.{verify_peer_confirm-Agree}
use zero_feed.Crypto.Pake.Peers.{Agree}
use zero_feed.Feed.Publisher.{PublisherEngine}
use zero_feed.Feed.Subscriber.{SubscriberEngine}
use zero_feed.Feed.Stream.Frames.{of_key}
use zero_feed.Feed.Stream.Follow.{send_synced}
use zero_feed.Feed.Handshake.{
  exchange_failed, no_connection, invalid_response, handshake_frame, await_confirm, pake_response,
  response_sent, respond, updated, exchange, first_frame, complete_publisher_handshake,
}
use zero_feed.Feed.Handshake.Joining.{
  send_to_relay, received_cipher, received, confirm_sent, own_tag, confirm, answered,
  answer_received, receive_answer, complete_subscriber_handshake,
}

-- The branch of a test that holds.
if_not : {A : Type 0} (b : Bool) (x y : A) → b ≡ true → (if not b then x else y) ≡ y
if_not b x y h = rw h

if_long :
    {A : Type 0} (payload : List ℕ)
    → ltb (length payload) 1372 ≡ false
    → (x y : A) → (if ltb (length payload) 1372 then x else y) ≡ y
if_long payload h x y = rw h

abbrev pub IsOther : Envelope → Type 0
IsOther env = env.msg_type ≢ msg_type_key_confirm

module _ (prims : Primitives) where
  -- Fewer frames than rounds are passed over before the confirmation.
  pub await_confirm_lem :
      (rounds : ℕ) (skipped : List Envelope) (env : Envelope) (later : List Envelope)
      (peer : PakePeer)
      → length skipped < rounds
      → All IsOther skipped
      → env.msg_type ≡ msg_type_key_confirm
      → await_confirm prims rounds (skipped ++ (env ∷ later)) peer
        ≡ map_err exchange_failed (verify_peer_confirm prims env.payload peer)
  unfolding await_confirm
  await_confirm_lem zero skipped env later peer h others e = elim h [ ]
  await_confirm_lem (suc rounds) [] env later peer h others e = rw e
  await_confirm_lem (suc rounds) (other ∷ skipped) env later peer h others e =
      let ne : (other.msg_type == msg_type_key_confirm) ≡ false = ground (arith, others.0) in
      rw ne (await_confirm_lem rounds skipped env later peer (omega arith) others.1 e)

module _ (pake : PakePrimitives) (lawful_pake : IsLawfulPake pake) (prims : Primitives)
    (lawful : IsLawful prims) where
  pub pake_response_lem :
      (key random master wrapped : List ℕ) (p s : PakePeer)
      → Agree key p s
      → wrap_session_key prims random key master ≡ ok wrapped
      → pake_response prims random (some master) p
        ≡ ok (bytes_of p ++ wrapped ++ prims.hmac key (confirmation 1))
  unfolding pake_response
  pake_response_lem key random master wrapped p s a h =
      let facts = verify_peer_confirm-Agree pake lawful_pake prims lawful key p s a in
      rw (facts.0, h, facts.2)

  pub received_cipher_lem :
      (key master wrapped : List ℕ) (p s : PakePeer)
      → Agree key p s
      → unwrap_session_key prims key wrapped ≡ ok master
      → length master ≡ 32
      → received_cipher prims wrapped s ≡ ok (of_key master)
  unfolding received_cipher new_cipher
  received_cipher_lem key master wrapped p s a h n =
      let facts = verify_peer_confirm-Agree pake lawful_pake prims lawful key p s a in
      rw (facts.1, h, n)

  -- The publisher's run, if its peer takes the first payload and the answer fits a frame.
  pub complete_publisher_handshake_lem :
      (rand : Randomness) (random master sid payload answer : List ℕ) (frames : List Envelope)
      (peer peer' : PakePeer) (p : PublisherEngine)
      → p.connected ≡ true
      → p.writable ≡ true
      → p.pake_peer ≡ some peer
      → p.master_key ≡ some master
      → update pake prims rand payload peer ≡ (ok tt, peer')
      → pake_response prims random (some master) peer' ≡ ok answer
      → length answer ≤ max_payload_size
      → complete_publisher_handshake pake prims rand random
          (handshake_frame msg_type_pake_init_sub sid payload ∷ frames)
          p
        ≡ (
          await_confirm prims 8 frames peer',
          record p {
            pake_peer = some peer';
            sent = p.sent ++ (handshake_frame msg_type_pake_step2 p.session_id answer ∷ []);
          },
        )
  unfolding complete_publisher_handshake first_frame exchange updated respond response_sent
  complete_publisher_handshake_lem rand random master sid payload answer frames peer peer' p hc hw
        hp hm hu hr hn =
      let q : PublisherEngine = record p { pake_peer = some peer' } in
      let env = handshake_frame msg_type_pake_step2 p.session_id answer in
      if_not p.connected (err no_connection, p)
        (first_frame pake prims rand random
          (handshake_frame msg_type_pake_init_sub sid payload ∷ frames) p)
        hc
      ∙ ap
          (λ o.
            exchange pake prims rand random (handshake_frame msg_type_pake_init_sub sid payload)
              frames o p)
          hp
      ∙ ap (λ r. updated pake prims random frames r p) hu
      ∙ ap (λ o. respond pake prims frames peer' (pake_response prims random o peer') q) hm
      ∙ ap (λ r. respond pake prims frames peer' r q) hr
      ∙ ap (λ r. response_sent pake prims frames peer' r) (send_synced prims lawful env q hc hw hn)

  pub send_to_relay_lem :
      (env : Envelope) (s : SubscriberEngine)
      → s.connected ≡ true
      → s.writable ≡ true
      → length env.payload ≤ max_payload_size
      → send_to_relay env s ≡ (ok tt, record s { sent = s.sent ++ (env ∷ []) })
  unfolding send_to_relay
  send_to_relay_lem env s hc hw hn =
      let small : ltb max_payload_size (length env.payload % 2 ^ 32) ≡ false = ground (arith, hn) in
      rw (hc, hw, small)

  -- The parts of an answer.
  answer-parts :
      (a b c : List ℕ)
      → length a ≡ 1280
      → length b ≡ 60
      → length c ≡ 32
      → (length ((a ++ b) ++ c) ≡ 1372)
        × (take 1280 ((a ++ b) ++ c) ≡ a)
        × (take 60 (drop 1280 ((a ++ b) ++ c)) ≡ b)
        × (take 32 (drop 60 (drop 1280 ((a ++ b) ++ c))) ≡ c)
  answer-parts a b c ha hb hc =
      let e = append_assoc a b c in
      let d = ap (drop 1280) e ∙ drop-append 1280 a (b ++ c) ha in
      (
        omega (arith, length-append (a ++ b) c, length-append a b),
        ap (take 1280) e ∙ take-append 1280 a (b ++ c) ha,
        ap (take 60) d ∙ take-append 60 b c hb,
        ap (λ l. take 32 (drop 60 l)) d
            ∙ ap (take 32) (drop-append 60 b c hb)
            ∙ take_all 32 c (omega arith),
      )

  -- The subscriber's run, if its peer takes the publisher's bytes, the tag is right and the key unwraps.
  pub complete_subscriber_handshake_lem :
      (rand : Randomness) (theirs wrapped pub_tag tag master sid : List ℕ) (frames : List Envelope)
      (peer peer' : PakePeer) (s : SubscriberEngine)
      → s.connected ≡ true
      → s.writable ≡ true
      → s.pake_peer ≡ some peer
      → length theirs ≡ 1280
      → length wrapped ≡ 60
      → length pub_tag ≡ 32
      → update pake prims rand theirs peer ≡ (ok tt, peer')
      → own_tag pake prims pub_tag peer' ≡ ok tag
      → length tag ≤ max_payload_size
      → received_cipher prims wrapped peer' ≡ ok (of_key master)
      → complete_subscriber_handshake pake prims rand
          (handshake_frame msg_type_pake_step2 sid (theirs ++ wrapped ++ pub_tag) ∷ frames)
          s
        ≡ (
          ok tt,
          record s {
            pake_peer = some peer';
            sent = s.sent ++ (handshake_frame msg_type_key_confirm s.session_id tag ∷ []);
            cipher = some (of_key master);
          },
        )
  unfolding complete_subscriber_handshake receive_answer answer_received answered confirm
      confirm_sent received
  complete_subscriber_handshake_lem rand theirs wrapped pub_tag tag master sid frames peer peer' s
        hc hw hp ht hwr hpt hu htag hn hrc =
      let payload = theirs ++ wrapped ++ pub_tag in
      let (n, e1, e2, e3) = answer-parts theirs wrapped pub_tag ht hwr hpt in
      let q : SubscriberEngine = record s { pake_peer = some peer' } in
      let env = handshake_frame msg_type_key_confirm s.session_id tag in
      let long : ltb (length payload) 1372 ≡ false = rw n in
      if_not s.connected (err no_connection, s)
        (receive_answer pake prims rand (handshake_frame msg_type_pake_step2 sid payload ∷ frames)
          s)
        hc
      ∙ if_long payload long (err invalid_response, s)
          (answer_received pake prims rand payload s.pake_peer s)
      ∙ ap (λ o. answer_received pake prims rand payload o s) hp
      ∙ rw (e1, e2, e3) refl
      ∙ ap (λ r. answered pake prims wrapped pub_tag r s) hu
      ∙ ap (λ r. confirm pake prims wrapped peer' r q) htag
      ∙ ap (confirm_sent pake prims wrapped peer') (send_to_relay_lem env q hc hw hn)
      ∙ ap (λ r. received r (record q { sent = s.sent ++ (env ∷ []) })) hrc
