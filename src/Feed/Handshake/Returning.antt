-- ===== src/Feed/Handshake/Returning.antt =====
-- A subscriber of pkg/feed/subscriber.go whose relay can be reached again.
use zero_feed.Base.{
  ℕ, zero, suc, ◌<◌, ◌≡◌, ◌≢◌, refl, ap, sym, ◌∙◌, true, false, none, some, List, [], ◌∷◌, ◌++◌,
  length, Bool, Option, if◌then◌else◌, put_be, length-put_be, ok, err, Result, arith,
}
use zero_feed.Protocol.Messages.{
  Envelope, msg_type_pake_init_sub, msg_type_pake_step2, msg_type_key_confirm, msg_type_sync_req,
}
use zero_feed.Crypto.Cipher.{Primitives, IsLawful}
use zero_feed.Crypto.Pake.{
  PakePrimitives, PakePeer, PakeError, IsLawfulPake, Randomness, bytes_of, new_pake_peer,
}
use zero_feed.Crypto.Pake.Peers.{new_subscriber, new_pake_peer-subscriber}
use zero_feed.Feed.Subscriber.{SubscriberEngine, sync_request}
use zero_feed.Feed.Stream.Frames.{of_key}
use zero_feed.Feed.Handshake.{HandshakeError, handshake_frame, handle_pake_init_sub}
use zero_feed.Feed.Handshake.Joining.{connect_subscriber, complete_subscriber_handshake}
use zero_feed.Feed.Handshake.Answers.{send_to_relay_lem}
use zero_feed.Feed.Handshake.Session.{CanAnswer, IsAnswer, answers}
use zero_feed.Feed.Handshake.Later.{handle_pake_init_sub_lem}
use zero_feed.Feed.Publisher.{PublisherEngine}
use zero_feed.Feed.Stream.Follow.{IsReady}
use zero_feed.Feed.Handshake.Starting.{connect_subscriber_lem}
use zero_feed.Feed.Handshake.Reconnect.{
  Attempt, Retry, gave_up, failed, joined, Reconnecting, wait, synced, handshaken, connected_with,
  retry_with, retry, after_retry, reconnect_loop,
}
use zero_feed.Feed.Handshake.Retries.{retry-Keeps}

-- The frame of `SendSyncRequest`.
abbrev pub sync_frame : SubscriberEngine → Envelope
sync_frame s = handshake_frame msg_type_sync_req s.session_id (put_be 8 s.last_seq_num)

last_equal : (xs : List Envelope) (a b : Envelope) → xs ++ (a ∷ []) ≡ xs ++ (b ∷ []) → a ≡ b
last_equal [] a b h = cc
last_equal (x ∷ xs) a b h =
    let rest : xs ++ (a ∷ []) ≡ xs ++ (b ∷ []) = cc in last_equal xs a b rest

module _ (pake : PakePrimitives) (lawful_pake : IsLawfulPake pake) (prims : Primitives)
    (lawful : IsLawful prims) where
  -- A retry at which the relay is reached and brings first the frame that a running publisher with
  -- the same passphrase sends for the new peer's first frame.
  pub record IsGood (rp : Randomness) (passphrase random key : List ℕ) (a : Attempt) : Type 0 where
    pub can : CanAnswer pake lawful_pake prims lawful rp a.rand random key
    pub reaches : a.dialed ≡ true
    pub writes : a.takes ≡ true
    pub goes_on : a.cancelled ≡ false
    pub publisher : PublisherEngine
    pub runs : IsReady key publisher
    pub shares : publisher.passphrase ≡ some passphrase
    pub holds : publisher.master_key ≡ some key
    pub sid : List ℕ
    pub reply : Envelope
    pub replies :
        (handle_pake_init_sub pake prims rp random
          (handshake_frame msg_type_pake_init_sub sid
            (bytes_of (new_subscriber pake lawful_pake a.rand passphrase)))
          publisher).sent
        ≡ publisher.sent ++ (reply ∷ [])
    pub later : List Envelope
    pub arrives : a.frames ≡ reply ∷ later

  sync_request_lem :
      (s : SubscriberEngine) → s.connected ≡ true → sync_request s ≡ some (sync_frame s)
  unfolding sync_request
  sync_request_lem s hc = rw hc

  handshaken_lem :
      (s : SubscriberEngine)
      → s.connected ≡ true
      → s.writable ≡ true
      → handshaken (ok tt, s) ≡ (joined, record s { sent = s.sent ++ (sync_frame s ∷ []) })
  unfolding handshaken synced sync_request
  handshaken_lem s hc hw =
      let n = length-put_be 8 s.last_seq_num in
      ap (λ o. (joined, synced o s)) (sync_request_lem s hc)
      ∙ ap (λ r. (joined, r.1))
          (send_to_relay_lem pake lawful_pake prims lawful (sync_frame s) s hc hw
            (omega (arith, n)))

  -- The frame that the publisher sent is the answer.
  reply_lem :
      (rp : Randomness) (passphrase random key answer tag : List ℕ) (p' s' : PakePeer) (a : Attempt)
      (g : IsGood rp passphrase random key a)
      → 0 < length passphrase
      → IsAnswer pake lawful_pake prims lawful rp a.rand passphrase random key answer tag p' s'
      → g.reply ≡ handshake_frame msg_type_pake_step2 g.publisher.session_id answer
  reply_lem rp passphrase random key answer tag p' s' a g h is =
      let peer = new_subscriber pake lawful_pake a.rand passphrase in
      last_equal g.publisher.sent g.reply
        (handshake_frame msg_type_pake_step2 g.publisher.session_id answer)
        (sym g.replies
          ∙ ap (λ p. p.sent)
              (handle_pake_init_sub_lem pake lawful_pake prims lawful rp random passphrase key g.sid
                (bytes_of peer) answer p' g.publisher h g.runs g.shares g.holds is.updates
                is.responds is.answer_sized))

  retry_lem :
      (rp : Randomness) (passphrase random key : List ℕ) (a : Attempt) (s : SubscriberEngine)
      → IsGood rp passphrase random key a
      → 0 < length passphrase
      → (retry pake prims a (some passphrase) s).0 ≡ joined
  unfolding retry retry_with connected_with
  retry_lem rp passphrase random key a s g h =
      let peer = new_subscriber pake lawful_pake a.rand passphrase in
      let (answer, tag, p', s', is) =
        answers pake lawful_pake prims lawful rp a.rand passphrase random key g.can in
      let sid = g.publisher.session_id in
      let frame = handshake_frame msg_type_pake_step2 sid answer in
      let q : SubscriberEngine = record s { pake_peer = some peer } in
      let s1 : SubscriberEngine = record q {
        connected = true;
        writable = true;
        sent = s.sent ++ (handshake_frame msg_type_pake_init_sub s.session_id (bytes_of peer) ∷ []);
      } in
      let s2 : SubscriberEngine = record s1 {
        pake_peer = some s';
        cipher = some (of_key key);
        sent = s1.sent ++ (handshake_frame msg_type_key_confirm s.session_id tag ∷ []);
      } in
      ap (λ r. r.0)
        (ap (λ r. retry_with pake prims a r s)
            (new_pake_peer-subscriber pake lawful_pake a.rand passphrase h)
          ∙ ap (λ b. connected_with pake prims a (connect_subscriber pake prims a.rand b a.takes q))
              g.reaches
          ∙ ap (λ b. connected_with pake prims a (connect_subscriber pake prims a.rand true b q))
              g.writes
          ∙ ap (connected_with pake prims a) (
              connect_subscriber_lem pake lawful_pake prims lawful a.rand passphrase q
                g.can.subscriber_noise refl)
          ∙ ap (λ f. handshaken (complete_subscriber_handshake pake prims a.rand f s1)) g.arrives
          ∙ ap (λ f. handshaken (complete_subscriber_handshake pake prims a.rand (f ∷ g.later) s1))
              (reply_lem rp passphrase random key answer tag p' s' a g h is)
          ∙ ap handshaken (is.joins sid g.later s1 refl refl refl)
          ∙ handshaken_lem s2 refl refl)

  -- A retry with a passphrase does not give up.
  handshaken_goes :
      (r : Result HandshakeError (Unit {0}) × SubscriberEngine) → (handshaken r).0 ≢ gave_up
  unfolding handshaken
  handshaken_goes (err e, s) h = cc
  handshaken_goes (ok u, s) h = cc

  connected_goes :
      (a : Attempt) (r : Result HandshakeError (Unit {0}) × SubscriberEngine)
      → (connected_with pake prims a r).0 ≢ gave_up
  unfolding connected_with
  connected_goes a (err e, s) h = cc
  connected_goes a (ok u, s) h = handshaken_goes _ h

  retry_goes :
      (a : Attempt) (passphrase : List ℕ) (r : Result PakeError PakePeer) (s : SubscriberEngine)
      → (retry_with pake prims a r s).0 ≢ gave_up
  unfolding retry_with
  retry_goes a passphrase (err e) s h = cc
  retry_goes a passphrase (ok peer) s h = connected_goes a _ h

  after_retry_joins :
      (t : Retry) (w : Reconnecting) (rest : Bool × Reconnecting)
      → t ≢ gave_up
      → rest.0 ≡ true
      → (after_retry pake prims t w rest).0 ≡ true
  unfolding after_retry
  after_retry_joins gave_up w rest h k = absurd (h refl)
  after_retry_joins failed w rest h k = k
  after_retry_joins joined w rest h k = refl

  joined_ends :
      (t : Retry) (w : Reconnecting) (rest : Bool × Reconnecting)
      → t ≡ joined
      → (after_retry pake prims t w rest).0 ≡ true
  unfolding after_retry
  joined_ends t w rest h = rw h

  retry_not_over :
      (a : Attempt) (passphrase : List ℕ) (o : Option (List ℕ)) (s : SubscriberEngine)
      → o ≡ some passphrase
      → (retry pake prims a o s).0 ≢ gave_up
  unfolding retry
  retry_not_over a passphrase none s h = absurd cc
  retry_not_over a passphrase (some p) s h = retry_goes a p (new_pake_peer pake a.rand p 2) s

  not_cancelled :
      (b : Bool) (w : Reconnecting) (r : Bool × Reconnecting)
      → b ≡ false
      → r.0 ≡ true
      → (if b then (false, w) else r).0 ≡ true
  not_cancelled b w r h k = rw h k

  -- If the subscriber has its passphrase, which is not empty, and among the retries that the loop
  -- makes is one up to which the context is not done, at which the relay is reached, takes the
  -- frames and brings first the frame that a running publisher with the same passphrase sends for
  -- the new peer's first frame, the random values having the sizes that the code asks for, then
  -- the loop ends with a connection, whatever happens at the other retries.
  pub reconnect_loop-joins :
      (retries k : ℕ) (attempts : ℕ → Attempt) (w : Reconnecting) (rp : Randomness)
      (passphrase random key : List ℕ)
      → 0 < length passphrase
      → w.engine.passphrase ≡ some passphrase
      → k < retries
      → ((i : ℕ) → i < k → (attempts i).cancelled ≡ false)
      → IsGood rp passphrase random key (attempts k)
      → (reconnect_loop pake prims retries attempts w).0 ≡ true
  unfolding reconnect_loop
  reconnect_loop-joins zero k attempts w rp passphrase random key n hp hk early good = elim hk [ ]
  reconnect_loop-joins (suc retries) zero attempts w rp passphrase random key n hp hk early good =
      let r = retry pake prims (attempts 0) w.engine.passphrase w.engine in
      let w' : Reconnecting = record (wait w) { engine = r.1 } in
      let e =
        ap (λ o. (retry pake prims (attempts 0) o w.engine).0) hp
        ∙ retry_lem rp passphrase random key (attempts 0) w.engine good n in
      not_cancelled (attempts 0).cancelled w _ good.goes_on (joined_ends r.0 w' _ e)
  reconnect_loop-joins (suc retries) (suc k) attempts w rp passphrase random key n hp hk early
        good =
      let r = retry pake prims (attempts 0) w.engine.passphrase w.engine in
      let w' : Reconnecting = record (wait w) { engine = r.1 } in
      let keeps = retry-Keeps pake prims (attempts 0) w.engine.passphrase w.engine in
      not_cancelled (attempts 0).cancelled w _ (early 0 (omega arith)) (
        after_retry_joins r.0 w' _
          (retry_not_over (attempts 0) passphrase w.engine.passphrase w.engine hp)
          (reconnect_loop-joins retries k (λ i. attempts (suc i)) w' rp passphrase random key n
            (ap (λ q. q.1) keeps ∙ hp) (omega arith) (λ i h. early (suc i) (omega arith)) good))
