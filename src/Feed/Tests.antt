-- ===== src/Feed/Tests.antt =====
-- The theorems of the stream at concrete inputs, with toy primitives.
use zero_feed.Base.{
  ℕ, ◌+◌, ◌*◌, ◌^◌, ◌≤◌, ◌<◌, length, ◌≡◌, refl, true, false, none, some, List, [], ◌∷◌, replicate,
  ok, err, pos, arith,
}
use zero_feed.Protocol.Messages.{Envelope, msg_type_close, msg_type_data_stream}
use zero_feed.Protocol.Padding.{pad_payload}
use zero_feed.Crypto.Toy.{toy, toy-IsLawful, toy_pake, toy_randomness}
use zero_feed.Feed.Ring.{new_ring_buffer}
use zero_feed.Feed.Publisher.{
  PublisherEngine, no_cipher, Input, tagged, publish_each, publish_payload, replay_sync,
  close_publisher,
}
use zero_feed.Feed.Subscriber.{SubscriberEngine, continues, subscribe}
use zero_feed.Feed.Stream.Frames.{of_key, frame}
use zero_feed.Feed.Stream.Follow.{contents}
use zero_feed.Feed.Stream.Whole.{subscribe-publish_each}
use zero_feed.Feed.Stream.Order.{IsOrdered}
use zero_feed.Feed.Stream.Rounds.{Round, subscribe_stream, subscribe_stream-IsSound}
use zero_feed.Feed.Handshake.Reconnect.{Attempt, Reconnecting}
use zero_feed.Feed.Stream.Closing.{close_publisher_lem}

-- A publisher that turns to a new key after every two bytes.
abbrev some_publisher : PublisherEngine
some_publisher = record {
  session_id = replicate 16 1;
  passphrase = some (9 ∷ []);
  master_key = some (replicate 32 2);
  pake_peer = none;
  cipher = some (of_key (replicate 32 2));
  connected = true;
  writable = true;
  sent = [];
  seq_counter = 0;
  replay_buffer = new_ring_buffer (pos 100);
  bytes_since_rekey = 0;
  last_rekey_time = 0;
  rekey_byte_limit = 2;
  rekey_time_limit = 0;
  untagged_input = true;
  closed = false;
}

abbrev some_subscriber : SubscriberEngine
some_subscriber = record {
  session_id = replicate 16 1;
  passphrase = some (9 ∷ []);
  pake_peer = none;
  cipher = some (of_key (replicate 32 2));
  connected = true;
  writable = true;
  sent = [];
  ring_buffer = new_ring_buffer (pos 100);
  last_seq_num = 0;
  delivered = [];
  closed = false;
}

abbrev input_of : List ℕ → Input
input_of payload = record { now = 5; salt = replicate 12 4; pooled = []; payload = payload }

abbrev two_inputs : List Input
two_inputs = input_of (104 ∷ 105 ∷ []) ∷ input_of [] ∷ input_of (33 ∷ []) ∷ []

subscribe-publish_each_example :
    ((publish_each toy two_inputs some_publisher).0 ≡ ok tt)
    × ((envs : List Envelope) × ((publish_each toy two_inputs some_publisher).1.sent ≡ envs)
        × ((subscribe toy (λ i. []) envs some_subscriber).0 ≡ continues)
        × (contents (subscribe toy (λ i. []) envs some_subscriber).1.delivered
            ≡ (1 ∷ 104 ∷ 105 ∷ []) ∷ (1 ∷ 33 ∷ []) ∷ []))
unfolding tagged
subscribe-publish_each_example =
    subscribe-publish_each toy toy-IsLawful (replicate 32 2) some_publisher some_subscriber
      two_inputs (λ i. [])
      (record {
        publishes = refl;
        key_sized = refl;
        id_sized = refl;
        is_connected = refl;
        is_writable = refl;
      })
      (record { subscribes = refl; not_ahead = omega arith }) (omega arith)
      ((omega arith, refl), ((omega arith, refl), ((omega arith, refl), tt)))

abbrev goodbye : Envelope
goodbye = record {
  version_ = 3;
  msg_type = msg_type_close;
  session_id = replicate 16 1;
  nonce = replicate 12 0;
  payload = [];
}

abbrev data_frame : ℕ → Envelope
data_frame seq =
    frame toy toy-IsLawful msg_type_data_stream (replicate 16 1) (replicate 32 2) seq
      (pad_payload (1 ∷ 7 ∷ []) 1280)

-- The number 5 twice, and then 3.
abbrev repeated : List Envelope
repeated = data_frame 5 ∷ data_frame 5 ∷ data_frame 3 ∷ goodbye ∷ []

-- Two connections with the same frames; at the retries between them no relay is reached.
abbrev rounds : List Round
rounds = round ∷ round ∷ []
  where
    attempt : Attempt
    attempt = record {
      cancelled = false;
      dialed = false;
      takes = false;
      rand = toy_randomness;
      frames = [];
    }

    round : Round
    round = record {
      frames = repeated;
      pooled = λ i. [];
      cancelled = false;
      attempts_before = λ i. attempt;
      attempts_after = λ i. attempt;
    }

abbrev started : Reconnecting
started = record { backoff = 10 ^ 8; waited = 0; engine = some_subscriber }

subscribe_stream-IsSound_example :
    let w' = (subscribe_stream toy_pake toy rounds started).1 in
    IsOrdered w'.engine × (w'.backoff < 10 ^ 10) × (w'.waited ≤ 0 + length rounds * (20 * 10 ^ 10))
subscribe_stream-IsSound_example =
    subscribe_stream-IsSound toy_pake toy rounds started 0 (tt, tt) (omega arith) (omega arith)

close_publisher_lem_example :
    let q = close_publisher some_publisher in
    (q.cipher ≡ none)
    × (q.master_key ≡ none)
    × (q.passphrase ≡ none)
    × ((publish_payload toy 5 [] [] (7 ∷ []) q).0 ≡ err no_cipher)
    × ((publish_payload toy 5 [] [] (7 ∷ []) q).1.sent ≡ q.sent)
    × (replay_sync toy (λ i. []) 0 q ≡ q)
close_publisher_lem_example =
    close_publisher_lem toy some_publisher 5 [] [] (7 ∷ []) (λ i. []) 0 refl
