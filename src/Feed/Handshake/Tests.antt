-- ===== src/Feed/Handshake/Tests.antt =====
-- The theorems of the handshake at concrete inputs, with toy primitives.
use zero_feed.Base.{
  ◌⊎◌, ℕ, zero, suc, ◌+◌, ◌*◌, ◌^◌, ◌≤◌, ◌<◌, ◌≡◌, refl, ap, true, false, none, List, [], ◌∷◌, ◌++◌,
  replicate, ok, err, arith,
}
use zero_feed.Protocol.Messages.{
  Envelope, msg_type_heartbeat, msg_type_pake_init_sub, msg_type_pake_step2, msg_type_sync_req,
}
use zero_feed.Crypto.Toy.{
  toy, toy-IsLawful, toy_pake, toy_pake-IsLawfulPake, toy_randomness, toy_noise,
}
use zero_feed.Crypto.Pake.{PakePeer, bytes_of}
use zero_feed.Crypto.Pake.Peers.{new_subscriber}
use zero_feed.Feed.Publisher.{PublisherEngine, Input, publish_each, tagged}
use zero_feed.Feed.Subscriber.{SubscriberEngine, continues, subscribe}
use zero_feed.Feed.Stream.Frames.{of_key}
use zero_feed.Feed.Stream.Follow.{IsReady, contents}
use zero_feed.Feed.Handshake.{
  HandshakeError, handshake_frame, connect_publisher, complete_publisher_handshake,
  handle_pake_init_sub,
}
use zero_feed.Feed.Handshake.Joining.{connect_subscriber, complete_subscriber_handshake}
use zero_feed.Feed.Handshake.Engines.{
  new_publisher_engine, new_subscriber_engine, publisher_of, subscriber_of,
}
use zero_feed.Feed.Handshake.Session.{CanAnswer, answers}
use zero_feed.Feed.Handshake.Whole.{session-delivers}
use zero_feed.Feed.Handshake.Later.{handle_pake_init_sub_lem, handle_pake_init_sub-delivers}
use zero_feed.Feed.Handshake.Requests.{
  timed_out, unreadable, arrived, handle_requests, IsAnswered, handle_requests-IsAnswered,
}
use zero_feed.Feed.Handshake.Trust.{Authenticated, complete_subscriber_handshake-Authenticated}
use zero_feed.Feed.Handshake.Reconnect.{Attempt, Reconnecting, reconnect_loop}
use zero_feed.Feed.Handshake.Retries.{kept, reconnect_loop-bounded}
use zero_feed.Feed.Handshake.Returning.{IsGood, reconnect_loop-joins}

abbrev nonce12 : List ℕ
nonce12 = replicate 12 4

abbrev master : List ℕ
master = replicate 32 2

can :
    CanAnswer toy_pake toy_pake-IsLawfulPake toy toy-IsLawful toy_randomness toy_randomness nonce12
      master
can = record {
  publisher_noise = toy_noise;
  subscriber_noise = toy_noise;
  random_sized = refl;
  master_sized = refl;
}

abbrev heartbeat : Envelope
heartbeat = handshake_frame msg_type_heartbeat [] []

abbrev one_input : List Input
one_input = record { now = 5; salt = nonce12; pooled = []; payload = 104 ∷ [] } ∷ []

-- A heartbeat arrives before the confirmation.
session-delivers_example :
    (p0 : PublisherEngine) × (p1 : PublisherEngine) × (p2 : PublisherEngine)
    × (s0 : SubscriberEngine) × (s1 : SubscriberEngine) × (s2 : SubscriberEngine)
    × (init : Envelope) × (reply : Envelope) × (confirmation : Envelope) × (envs : List Envelope)
    × (new_publisher_engine toy_pake toy toy_randomness master 1 (9 ∷ []) ≡ ok p0)
    × (connect_publisher toy_pake toy toy_randomness true true p0 ≡ (ok tt, p1))
    × (new_subscriber_engine toy_pake toy toy_randomness (9 ∷ []) ≡ ok s0)
    × (connect_subscriber toy_pake toy toy_randomness true true s0 ≡ (ok tt, s1))
    × (s1.sent ≡ init ∷ [])
    × ((later : List Envelope)
        → complete_publisher_handshake toy_pake toy toy_randomness nonce12
            (init ∷ heartbeat ∷ confirmation ∷ later)
            p1
          ≡ (ok tt, p2))
    × (p2.sent ≡ p1.sent ++ (reply ∷ []))
    × ((later : List Envelope)
        → complete_subscriber_handshake toy_pake toy toy_randomness (reply ∷ later) s1
          ≡ (ok tt, s2))
    × (s2.sent ≡ init ∷ confirmation ∷ [])
    × ((publish_each toy one_input p2).0 ≡ ok tt)
    × ((publish_each toy one_input p2).1.sent ≡ p2.sent ++ envs)
    × ((subscribe toy (λ i. []) envs s2).0 ≡ continues)
    × (contents (subscribe toy (λ i. []) envs s2).1.delivered ≡ (1 ∷ 104 ∷ []) ∷ [])
unfolding tagged
session-delivers_example =
    session-delivers toy_pake toy_pake-IsLawfulPake toy toy-IsLawful toy_randomness toy_randomness
      (9 ∷ []) nonce12 master 1 (heartbeat ∷ []) one_input (λ i. []) (omega arith) can (omega arith)
      ((λ e. absurd (omega arith)), tt) (omega arith) ((omega arith, refl), tt)

abbrev peer : PakePeer
peer = new_subscriber toy_pake toy_pake-IsLawfulPake toy_randomness (9 ∷ [])

-- A publisher after some messages, and a subscriber that is new.
abbrev running : PublisherEngine
running = record (publisher_of toy_pake toy master 1 (9 ∷ []) peer (of_key master)) {
  session_id = replicate 16 1;
  connected = true;
  writable = true;
  seq_counter = 7;
}

running-IsReady : IsReady master running
running-IsReady = record {
  publishes = refl;
  key_sized = refl;
  id_sized = refl;
  is_connected = refl;
  is_writable = refl;
}

abbrev joining : SubscriberEngine
joining = record (subscriber_of toy_pake toy (9 ∷ []) peer) { connected = true; writable = true }

handle_pake_init_sub-delivers_example :
    let init = handshake_frame msg_type_pake_init_sub [] (bytes_of peer) in
    let p1 = handle_pake_init_sub toy_pake toy toy_randomness nonce12 init running in
    (reply : Envelope) × (envs : List Envelope) × (s1 : SubscriberEngine) × (p1.sent
      ≡ running.sent ++ (reply ∷ []))
    × (complete_subscriber_handshake toy_pake toy toy_randomness (reply ∷ []) joining ≡ (ok tt, s1))
    × (s1.delivered ≡ joining.delivered)
    × ((publish_each toy one_input p1).0 ≡ ok tt)
    × ((publish_each toy one_input p1).1.sent ≡ p1.sent ++ envs)
    × ((subscribe toy (λ i. []) envs s1).0 ≡ continues)
    × (contents (subscribe toy (λ i. []) envs s1).1.delivered ≡ (1 ∷ 104 ∷ []) ∷ [])
unfolding tagged
handle_pake_init_sub-delivers_example =
    handle_pake_init_sub-delivers toy_pake toy_pake-IsLawfulPake toy toy-IsLawful toy_randomness
      toy_randomness (9 ∷ []) nonce12 master [] running joining [] one_input (λ i. []) (omega arith)
      can running-IsReady refl refl refl refl refl (omega arith) (omega arith)
      ((omega arith, refl), tt)

handle_requests-IsAnswered_example :
    let init = handshake_frame msg_type_pake_init_sub [] (bytes_of peer) in
    let sync = handshake_frame msg_type_sync_req [] (replicate 8 0) in
    IsAnswered running (
      handle_requests toy_pake toy
        (timed_out
          ∷ arrived toy_randomness nonce12 (λ i. []) init
          ∷ arrived toy_randomness nonce12 (λ i. []) sync
          ∷ unreadable
          ∷ [])
        running)
handle_requests-IsAnswered_example =
    handle_requests-IsAnswered toy_pake toy
      (timed_out
        ∷ arrived toy_randomness nonce12 (λ i. [])
            (handshake_frame msg_type_pake_init_sub [] (bytes_of peer))
        ∷ arrived toy_randomness nonce12 (λ i. [])
            (handshake_frame msg_type_sync_req [] (replicate 8 0))
        ∷ unreadable
        ∷ [])
      running

-- The answer to the new subscriber.
abbrev frames : List Envelope
frames =
    handshake_frame msg_type_pake_step2 []
      (answers toy_pake toy_pake-IsLawfulPake toy toy-IsLawful toy_randomness toy_randomness
        (9 ∷ []) nonce12 master can).0
    ∷ []

complete_subscriber_handshake-Authenticated_example :
    let r = complete_subscriber_handshake toy_pake toy toy_randomness frames joining in
    ((e : HandshakeError) × (r.0 ≡ err e) × (r.1.cipher ≡ none))
    ⊎ ((env : Envelope) × (later : List Envelope) × (r.0 ≡ ok tt)
        × (frames ≡ env ∷ later)
        × Authenticated toy_pake toy toy_randomness env.payload peer r.1)
complete_subscriber_handshake-Authenticated_example =
    complete_subscriber_handshake-Authenticated toy_pake toy toy_randomness frames joining peer refl

-- What the running publisher sends for the new peer.
abbrev from_running : Envelope
from_running =
    handshake_frame msg_type_pake_step2 running.session_id
      (answers toy_pake toy_pake-IsLawfulPake toy toy-IsLawful toy_randomness toy_randomness
        (9 ∷ []) nonce12 master can).0

-- The relay is not reached at first.
abbrev attempts : ℕ → Attempt
attempts zero = record {
  cancelled = false;
  dialed = false;
  takes = true;
  rand = toy_randomness;
  frames = [];
}
attempts (suc i) = record {
  cancelled = false;
  dialed = true;
  takes = true;
  rand = toy_randomness;
  frames = from_running ∷ [];
}

abbrev lost : Reconnecting
lost = record { backoff = 10 ^ 8; waited = 0; engine = record joining { connected = false } }

reconnect_loop-bounded_example :
    let r = reconnect_loop toy_pake toy 10 attempts lost in
    (kept r.1.engine ≡ kept lost.engine) × (r.1.backoff < 10 ^ 10) × (r.1.waited ≤ 0 + 10 * 10 ^ 10)
reconnect_loop-bounded_example = reconnect_loop-bounded toy_pake toy 10 attempts lost (omega arith)

good :
    IsGood toy_pake toy_pake-IsLawfulPake toy toy-IsLawful toy_randomness
      (9 ∷ [])
      nonce12
      master
      (attempts 1)
good =
    let (answer, tag, p', s', is) =
      answers toy_pake toy_pake-IsLawfulPake toy toy-IsLawful toy_randomness toy_randomness (9 ∷ [])
        nonce12 master can in
    record {
      can = can;
      reaches = refl;
      writes = refl;
      goes_on = refl;
      publisher = running;
      runs = running-IsReady;
      shares = refl;
      holds = refl;
      sid = [];
      reply = from_running;
      replies =
          ap (λ p. p.sent)
            (handle_pake_init_sub_lem toy_pake toy_pake-IsLawfulPake toy toy-IsLawful toy_randomness
              nonce12 (9 ∷ []) master [] (bytes_of peer) answer p' running (omega arith)
              running-IsReady refl refl is.updates is.responds is.answer_sized);
      later = [];
      arrives = refl;
    }

reconnect_loop-joins_example : (reconnect_loop toy_pake toy 10 attempts lost).0 ≡ true
reconnect_loop-joins_example =
    reconnect_loop-joins toy_pake toy_pake-IsLawfulPake toy toy-IsLawful 10 1 attempts lost
      toy_randomness (9 ∷ []) nonce12 master (omega arith) refl (omega arith) early good
  where
    early : (i : ℕ) → i < 1 → (attempts i).cancelled ≡ false
    early zero h = refl
    early (suc i) h = refl
