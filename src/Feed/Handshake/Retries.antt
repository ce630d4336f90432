-- ===== src/Feed/Handshake/Retries.antt =====
-- What `reconnectLoop` of pkg/feed/subscriber.go keeps, and how long it takes.
use zero_feed.Base.{
  ℕ, zero, suc, ◌+◌, ◌*◌, ◌^◌, ◌≤◌, ◌<◌, ◌≡◌, refl, ◌∙◌, Bool, true, false, not, Option, none, some,
  List, [], ◌∷◌, length, ltb, ◌==◌, if_elim, Result, ok, err, arith,
}
use zero_feed.Protocol.Messages.{Envelope, min_supported_version, msg_type_close}
use zero_feed.Crypto.Cipher.{Cipher, Primitives}
use zero_feed.Crypto.Pake.{PakePrimitives, PakePeer, PakeError, Randomness}
use zero_feed.Feed.Ring.{RingBuffer, Msg}
use zero_feed.Feed.Publisher.{PublishError}
use zero_feed.Feed.Subscriber.{SubscriberEngine, sync_request}
use zero_feed.Feed.Handshake.{
  HandshakeError, no_connection, closed_by_peer, incompatible_version, invalid_response, not_dialed,
  peer_or_new,
}
use zero_feed.Feed.Handshake.Joining.{
  send_to_relay, init_sent, join_with, connect_subscriber, received_cipher, received, confirm_sent,
  own_tag, confirm, answered, answer_received, receive_answer, complete_subscriber_handshake,
}
use zero_feed.Feed.Handshake.Reconnect.{
  Attempt, Retry, gave_up, failed, joined, Reconnecting, doubled, wait, synced, handshaken,
  connected_with, retry_with, retry, after_retry, reconnect_loop,
}

-- What a handshake does not touch.
abbrev pub Kept : Type 0
Kept = List ℕ × Option (List ℕ) × RingBuffer × ℕ × List Msg × Bool

abbrev pub kept : SubscriberEngine → Kept
kept s = (s.session_id, s.passphrase, s.ring_buffer, s.last_seq_num, s.delivered, s.closed)

abbrev Keeps {ℓ} : {A : Type ℓ} → SubscriberEngine → A × SubscriberEngine → Type 0
Keeps s r = kept r.1 ≡ kept s

send_to_relay-Keeps : (env : Envelope) (s : SubscriberEngine) → Keeps s (send_to_relay env s)
unfolding send_to_relay
send_to_relay-Keeps env s = ground arith

init_sent-Keeps :
    (s : SubscriberEngine) (r : Result PublishError (Unit {0}) × SubscriberEngine)
    → Keeps s r
    → Keeps s (init_sent r)
unfolding init_sent
init_sent-Keeps s (err e, s') h = h
init_sent-Keeps s (ok u, s') h = h

join_with-Keeps :
    (r : Result HandshakeError PakePeer) (s : SubscriberEngine) → Keeps s (join_with r s)
unfolding join_with
join_with-Keeps (err e) s = refl
join_with-Keeps (ok peer) s = init_sent-Keeps s _ (send_to_relay-Keeps _ _)

received-Keeps : (r : Result PakeError Cipher) (s : SubscriberEngine) → Keeps s (received r s)
unfolding received
received-Keeps (err e) s = refl
received-Keeps (ok c) s = refl

synced-Keeps : (o : Option Envelope) (s : SubscriberEngine) → kept (synced o s) ≡ kept s
unfolding synced
synced-Keeps none s = refl
synced-Keeps (some env) s = send_to_relay-Keeps env s

module _ (pake : PakePrimitives) (prims : Primitives) where
  connect_subscriber-Keeps :
      (rand : Randomness) (dialed takes : Bool) (s : SubscriberEngine)
      → Keeps s (connect_subscriber pake prims rand dialed takes s)
  unfolding connect_subscriber
  connect_subscriber-Keeps rand dialed takes s =
      if_elim (Keeps s) (not dialed) (err not_dialed, s) _ refl
        (join_with-Keeps (peer_or_new pake rand 2 s.passphrase s.pake_peer)
          (record s { connected = true; writable = takes }))

  confirm_sent-Keeps :
      (wrapped : List ℕ) (peer : PakePeer) (s : SubscriberEngine)
      (r : Result PublishError (Unit {0}) × SubscriberEngine)
      → Keeps s r
      → Keeps s (confirm_sent pake prims wrapped peer r)
  unfolding confirm_sent
  confirm_sent-Keeps wrapped peer s (err e, s') h = h
  confirm_sent-Keeps wrapped peer s (ok u, s') h =
      received-Keeps (received_cipher prims wrapped peer) s' ∙ h

  confirm-Keeps :
      (wrapped : List ℕ) (peer : PakePeer) (r : Result PakeError (List ℕ)) (s : SubscriberEngine)
      → Keeps s (confirm pake prims wrapped peer r s)
  unfolding confirm
  confirm-Keeps wrapped peer (err e) s = refl
  confirm-Keeps wrapped peer (ok tag) s =
      confirm_sent-Keeps wrapped peer s _ (send_to_relay-Keeps _ _)

  answered-Keeps :
      (wrapped tag : List ℕ) (r : Result PakeError (Unit {0}) × PakePeer) (s : SubscriberEngine)
      → Keeps s (answered pake prims wrapped tag r s)
  unfolding answered
  answered-Keeps wrapped tag (err e, peer) s = refl
  answered-Keeps wrapped tag (ok u, peer) s =
      confirm-Keeps wrapped peer (own_tag pake prims tag peer) (record s { pake_peer = some peer })

  answer_received-Keeps :
      (rand : Randomness) (payload : List ℕ) (o : Option PakePeer) (s : SubscriberEngine)
      → Keeps s (answer_received pake prims rand payload o s)
  unfolding answer_received
  answer_received-Keeps rand payload none s = refl
  answer_received-Keeps rand payload (some peer) s = answered-Keeps _ _ _ s

  receive_answer-Keeps :
      (rand : Randomness) (frames : List Envelope) (s : SubscriberEngine)
      → Keeps s (receive_answer pake prims rand frames s)
  unfolding receive_answer
  receive_answer-Keeps rand [] s = refl
  receive_answer-Keeps rand (env ∷ frames) s =
      if_elim (Keeps s) (env.msg_type == msg_type_close) (err closed_by_peer, s) _ refl
        (if_elim (Keeps s) (ltb env.version_ min_supported_version) (err incompatible_version, s) _
          refl
          (if_elim (Keeps s) (ltb (length env.payload) 1372) (err invalid_response, s) _ refl
            (answer_received-Keeps rand env.payload s.pake_peer s)))

  complete_subscriber_handshake-Keeps :
      (rand : Randomness) (frames : List Envelope) (s : SubscriberEngine)
      → Keeps s (complete_subscriber_handshake pake prims rand frames s)
  unfolding complete_subscriber_handshake
  complete_subscriber_handshake-Keeps rand frames s =
      if_elim (Keeps s) (not s.connected) (err no_connection, s) _ refl
        (receive_answer-Keeps rand frames s)

  handshaken-Keeps :
      (s : SubscriberEngine) (r : Result HandshakeError (Unit {0}) × SubscriberEngine)
      → Keeps s r
      → Keeps s (handshaken r)
  unfolding handshaken
  handshaken-Keeps s (err e, s') h = h
  handshaken-Keeps s (ok u, s') h = synced-Keeps (sync_request s') s' ∙ h

  connected_with-Keeps :
      (a : Attempt) (s : SubscriberEngine) (r : Result HandshakeError (Unit {0}) × SubscriberEngine)
      → Keeps s r
      → Keeps s (connected_with pake prims a r)
  unfolding connected_with
  connected_with-Keeps a s (err e, s') h = h
  connected_with-Keeps a s (ok u, s') h =
      handshaken-Keeps s _ (complete_subscriber_handshake-Keeps a.rand a.frames s' ∙ h)

  retry_with-Keeps :
      (a : Attempt) (r : Result PakeError PakePeer) (s : SubscriberEngine)
      → Keeps s (retry_with pake prims a r s)
  unfolding retry_with
  retry_with-Keeps a (err e) s = refl
  retry_with-Keeps a (ok peer) s =
      connected_with-Keeps a s _
        (connect_subscriber-Keeps a.rand a.dialed a.takes (record s { pake_peer = some peer }))

  pub retry-Keeps :
      (a : Attempt) (o : Option (List ℕ)) (s : SubscriberEngine) → Keeps s (retry pake prims a o s)
  unfolding retry
  retry-Keeps a none s = refl
  retry-Keeps a (some passphrase) s = retry_with-Keeps a _ s

  -- The loop gives the retry up, goes on after it, or ends with it.
  abbrev Loops : Reconnecting → ℕ → Bool × Reconnecting → Type 0
  Loops w n r =
      (kept r.1.engine ≡ kept w.engine)
      × (r.1.backoff < 10 ^ 10)
      × (r.1.waited ≤ w.waited + n * 10 ^ 10)

  after_retry-Loops :
      (t : Retry) (w w' : Reconnecting) (n : ℕ) (rest : Bool × Reconnecting)
      → Loops w n (false, w')
      → Loops w n rest
      → Loops w n (after_retry pake prims t w' rest)
  unfolding after_retry
  after_retry-Loops gave_up w w' n rest h k = h
  after_retry-Loops failed w w' n rest h k = k
  after_retry-Loops joined w w' n rest h k = h

  waited-once :
      (w : Reconnecting)
      → w.backoff < 10 ^ 10
      → ((wait w).backoff < 10 ^ 10) × ((wait w).waited ≤ w.waited + 10 ^ 10)
  unfolding wait doubled
  waited-once w h = (ground arith, omega arith)

  -- From a backoff below ten seconds, as the source's, and whatever happens at the retries: the
  -- loop leaves the session, the passphrase, the ring buffer, the last sequence number, the
  -- delivered messages and the closing as they were, the backoff stays below ten seconds, and the
  -- loop waits less than ten seconds for each of its retries.
  pub reconnect_loop-bounded :
      (retries : ℕ) (attempts : ℕ → Attempt) (w : Reconnecting)
      → w.backoff < 10 ^ 10
      → let r = reconnect_loop pake prims retries attempts w in
        (kept r.1.engine ≡ kept w.engine)
        × (r.1.backoff < 10 ^ 10)
        × (r.1.waited ≤ w.waited + retries * 10 ^ 10)
  unfolding reconnect_loop
  reconnect_loop-bounded zero attempts w h = (refl, h, omega arith)
  reconnect_loop-bounded (suc retries) attempts w h =
      let r = retry pake prims (attempts 0) w.engine.passphrase w.engine in
      let w' : Reconnecting = record (wait w) { engine = r.1 } in
      let rest = reconnect_loop pake prims retries (λ i. attempts (suc i)) w' in
      let (b, t) = waited-once w h in
      let k = retry-Keeps (attempts 0) w.engine.passphrase w.engine in
      let (k', b', t') = reconnect_loop-bounded retries (λ i. attempts (suc i)) w' b in
      if_elim (Loops w (suc retries)) (attempts 0).cancelled (false, w) _ (refl, h, omega arith)
        (after_retry-Loops r.0 w w' (suc retries) rest (k, b, omega arith)
          (k' ∙ k, b', omega arith))
