-- ===== src/Feed/Handshake/Trust.antt =====
-- When a subscriber of pkg/feed/subscriber.go takes a key.
use zero_feed.Base.{
  ℕ, ◌-◌, ◌≡◌, refl, ap, sym, ◌∙◌, Bool, true, false, not, Option, some, List, [], ◌∷◌, length,
  take, drop, ltb, ◌==◌, if_elim, if◌then◌else◌, bytes_equal_sound, Option-cases, Result-cases, inl,
  inr, ◌⊎◌, Result, ok, err, arith,
}
use mathlib.Core.Path.{subst}
use zero_feed.Protocol.Messages.{
  Envelope, min_supported_version, msg_type_key_confirm, msg_type_close,
}
use zero_feed.Crypto.Cipher.{Cipher, Primitives, new_cipher, unwrap_session_key}
use zero_feed.Crypto.Pake.{
  PakePrimitives, PakePeer, PakeError, Randomness, confirmation, update, session_key, checked,
  verify_peer_confirm,
}
use zero_feed.Feed.Publisher.{PublishError}
use zero_feed.Feed.Subscriber.{SubscriberEngine}
use zero_feed.Feed.Stream.Frames.{of_key}
use zero_feed.Feed.Handshake.{
  HandshakeError, no_connection, not_received, closed_by_peer, incompatible_version,
  invalid_response, handshake_frame,
}
use zero_feed.Feed.Handshake.Joining.{
  send_to_relay, received_cipher, received, confirm_sent, own_tag, confirm, answered,
  answer_received, receive_answer, complete_subscriber_handshake,
}

module _ (pake : PakePrimitives) (prims : Primitives) where
  -- A peer accepts the other role's tag under its key only.
  pub verify_peer_confirm-ok :
      (tag : List ℕ) (peer : PakePeer) {u : Unit {0}}
      → verify_peer_confirm prims tag peer ≡ ok u
      → (key : List ℕ) × (peer.shared_key ≡ some key)
        × (tag ≡ prims.hmac key (confirmation (259 - peer.role)))
  unfolding verify_peer_confirm session_key checked
  verify_peer_confirm-ok tag peer {u} h = elim (Option-cases peer.shared_key) [
    | inl e ↦ absurd (ground arith)
    | inr (key, e) ↦ (
      key,
      e,
      ground (arith, bytes_equal_sound tag (prims.hmac key (confirmation (259 - peer.role)))),
    )
  ]

  own_tag-ok :
      (tag : List ℕ) (peer : PakePeer) {t : List ℕ}
      → own_tag pake prims tag peer ≡ ok t
      → verify_peer_confirm prims tag peer ≡ ok tt
  unfolding own_tag
  own_tag-ok tag peer {t} h = ground arith

  received_cipher-ok :
      (wrapped : List ℕ) (peer : PakePeer) {c : Cipher}
      → received_cipher prims wrapped peer ≡ ok c
      → (key : List ℕ) × (master : List ℕ) × (peer.shared_key ≡ some key)
        × (unwrap_session_key prims key wrapped ≡ ok master)
        × (c ≡ of_key master)
  unfolding received_cipher session_key new_cipher
  received_cipher-ok wrapped peer {c} h = elim (Option-cases peer.shared_key) [
    | inl e ↦ absurd (ground arith)
    | inr (key, e) ↦ elim (Result-cases (unwrap_session_key prims key wrapped)) [
      | inl (x, f) ↦ absurd (ground arith)
      | inr (master, f) ↦ (key, master, e, f, ground arith)
    ]
  ]

  -- What a subscriber has, once it took a key from an answer: the tag and the wrapped key of the answer are
  -- those of the key that its peer agreed on, and its cipher has the key that was wrapped.
  abbrev pub Authenticated : Randomness → List ℕ → PakePeer → SubscriberEngine → Type 0
  Authenticated rand payload peer s' =
      (peer' : PakePeer) × (shared : List ℕ) × (master : List ℕ) × (update pake prims rand
          (take 1280 payload) peer
        ≡ (ok tt, peer'))
      × (peer'.shared_key ≡ some shared)
      × (take 32 (drop 60 (drop 1280 payload))
          ≡ prims.hmac shared (confirmation (259 - peer'.role)))
      × (unwrap_session_key prims shared (take 60 (drop 1280 payload)) ≡ ok master)
      × (s'.cipher ≡ some (of_key master))

  -- An error leaves the cipher, and success is for an authenticated answer.
  abbrev Outcome :
      Randomness
      → List ℕ
      → PakePeer
      → Option Cipher
      → Result HandshakeError (Unit {0}) × SubscriberEngine
      → Type 0
  Outcome rand payload peer c (err e, s') = s'.cipher ≡ c
  Outcome rand payload peer c (ok u, s') = Authenticated rand payload peer s'

  send_to_relay-cipher :
      (env : Envelope) (s : SubscriberEngine) → (send_to_relay env s).1.cipher ≡ s.cipher
  unfolding send_to_relay
  send_to_relay-cipher env s = ground arith

  module _ (rand : Randomness) (payload : List ℕ) (peer : PakePeer) (c : Option Cipher) where
    abbrev wrapped_part : List ℕ
    wrapped_part = take 60 (drop 1280 payload)

    abbrev tag_part : List ℕ
    tag_part = take 32 (drop 60 (drop 1280 payload))

    module _ (peer' : PakePeer)
        (up : update pake prims rand (take 1280 payload) peer ≡ (ok tt, peer')) where
      received_outcome :
          (o : Result PakeError Cipher) (s : SubscriberEngine)
          → received_cipher prims wrapped_part peer' ≡ o
          → verify_peer_confirm prims tag_part peer' ≡ ok tt
          → s.cipher ≡ c
          → Outcome rand payload peer c (received o s)
      unfolding received
      received_outcome (err e) s h v k = k
      received_outcome (ok found) s h v k =
          let (shared, e, tagged) = verify_peer_confirm-ok tag_part peer' v in
          let (shared', master, e', unwrapped, same) = received_cipher-ok wrapped_part peer' h in
          let one : shared' ≡ shared = cc in
          (
            peer',
            shared,
            master,
            up,
            e,
            tagged,
            ap (λ l. unwrap_session_key prims l wrapped_part) (sym one) ∙ unwrapped,
            ap some same,
          )

      sent_outcome :
          (r : Result PublishError (Unit {0}) × SubscriberEngine)
          → verify_peer_confirm prims tag_part peer' ≡ ok tt
          → r.1.cipher ≡ c
          → Outcome rand payload peer c (confirm_sent pake prims wrapped_part peer' r)
      unfolding confirm_sent
      sent_outcome (err e, s) v k = k
      sent_outcome (ok u, s) v k =
          received_outcome (received_cipher prims wrapped_part peer') s refl v k

      confirm_outcome :
          (o : Result PakeError (List ℕ)) (s : SubscriberEngine)
          → own_tag pake prims tag_part peer' ≡ o
          → s.cipher ≡ c
          → Outcome rand payload peer c (confirm pake prims wrapped_part peer' o s)
      unfolding confirm
      confirm_outcome (err e) s h k = k
      confirm_outcome (ok t) s h k =
          let env = handshake_frame msg_type_key_confirm s.session_id t in
          sent_outcome (send_to_relay env s) (own_tag-ok tag_part peer' h)
            (send_to_relay-cipher env s ∙ k)

    answered_outcome :
        (r : Result PakeError (Unit {0}) × PakePeer) (s : SubscriberEngine)
        → update pake prims rand (take 1280 payload) peer ≡ r
        → s.cipher ≡ c
        → Outcome rand payload peer c (answered pake prims wrapped_part tag_part r s)
    unfolding answered
    answered_outcome (err e, peer') s h k = k
    answered_outcome (ok u, peer') s h k =
        confirm_outcome peer' h (own_tag pake prims tag_part peer')
          (record s { pake_peer = some peer' }) refl k

  first_outcome :
      (rand : Randomness) (env : Envelope) (frames : List Envelope) (s : SubscriberEngine)
      (peer : PakePeer)
      → s.pake_peer ≡ some peer
      → Outcome rand env.payload peer s.cipher (receive_answer pake prims rand (env ∷ frames) s)
  unfolding receive_answer answer_received
  first_outcome rand env frames s peer hs =
      let P = Outcome rand env.payload peer s.cipher in
      let taken = answer_received pake prims rand env.payload s.pake_peer s in
      let good : P taken =
        subst (λ o. P (answer_received pake prims rand env.payload o s)) (sym hs)
          (answered_outcome rand env.payload peer s.cipher
            (update pake prims rand (take 1280 env.payload) peer) s refl refl) in
      let long =
        if_elim P (ltb (length env.payload) 1372) (err invalid_response, s) taken refl good in
      let new =
        if_elim P (ltb env.version_ min_supported_version) (err incompatible_version, s) _ refl
          long in
      if_elim P (env.msg_type == msg_type_close) (err closed_by_peer, s) _ refl new

  -- The two outcomes of a handshake with the given frames.
  abbrev Ends :
      Randomness
      → List Envelope
      → PakePeer
      → Option Cipher
      → Result HandshakeError (Unit {0}) × SubscriberEngine
      → Type 0
  Ends rand frames peer c r =
      ((e : HandshakeError) × (r.0 ≡ err e) × (r.1.cipher ≡ c))
      ⊎ ((env : Envelope) × (later : List Envelope) × (r.0 ≡ ok tt)
          × (frames ≡ env ∷ later)
          × Authenticated rand env.payload peer r.1)

  ends :
      (rand : Randomness) (env : Envelope) (later : List Envelope) (peer : PakePeer)
      (c : Option Cipher) (r : Result HandshakeError (Unit {0}) × SubscriberEngine)
      → Outcome rand env.payload peer c r
      → Ends rand (env ∷ later) peer c r
  ends rand env later peer c (err e, s') o = inl (e, refl, o)
  ends rand env later peer c (ok u, s') o = inr (env, later, refl, refl, o)

  fails :
      (rand : Randomness) (peer : PakePeer) (s : SubscriberEngine) (b : Bool)
      → Ends rand [] peer s.cipher (if b then (err no_connection, s) else (err not_received, s))
  fails rand peer s true = inl (no_connection, refl, refl)
  fails rand peer s false = inl (not_received, refl, refl)

  -- Whatever frames arrive at a subscriber, CompleteHandshake either fails, and then its cipher is
  -- what it was, or it succeeds, and then the first frame brought a confirmation tag that is the
  -- HMAC of the other role under the key on which its peer agreed by the frame's first 1280 bytes,
  -- and its cipher is that of the key which the next 60 bytes unwrap to under the same key.
  pub complete_subscriber_handshake-Authenticated :
      (rand : Randomness) (frames : List Envelope) (s : SubscriberEngine) (peer : PakePeer)
      → s.pake_peer ≡ some peer
      → let r = complete_subscriber_handshake pake prims rand frames s in
        ((e : HandshakeError) × (r.0 ≡ err e) × (r.1.cipher ≡ s.cipher))
        ⊎ ((env : Envelope) × (later : List Envelope) × (r.0 ≡ ok tt)
            × (frames ≡ env ∷ later)
            × Authenticated rand env.payload peer r.1)
  unfolding complete_subscriber_handshake receive_answer
  complete_subscriber_handshake-Authenticated rand [] s peer hs =
      fails rand peer s (not s.connected)
  complete_subscriber_handshake-Authenticated rand (env ∷ later) s peer hs =
      ends rand env later peer s.cipher
        (complete_subscriber_handshake pake prims rand (env ∷ later) s)
        (if_elim (Outcome rand env.payload peer s.cipher) (not s.connected) (err no_connection, s)
          (receive_answer pake prims rand (env ∷ later) s) refl
          (first_outcome rand env later s peer hs))
