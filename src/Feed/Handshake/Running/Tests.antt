-- ===== src/Feed/Handshake/Running/Tests.antt =====
-- A publisher that ran and a subscriber that lost what came after the first message, with toy primitives.
use zero_feed.Base.{ℕ, true, false, none, some, List, [], ◌∷◌, replicate, pos}
use zero_feed.Crypto.Toy.{toy, toy_pake}
use zero_feed.Feed.Ring.{new_ring_buffer}
use zero_feed.Feed.Publisher.{PublisherEngine, Input}
use zero_feed.Feed.Stream.Frames.{of_key}
use zero_feed.Feed.Handshake.Requests.{timed_out, unreadable}
use zero_feed.Feed.Subscriber.{SubscriberEngine}
use zero_feed.Feed.Handshake.Running.{Step, published, beaten, requested, happen_all}

abbrev some_publisher : PublisherEngine
some_publisher = record {
  session_id = replicate 16 1;
  passphrase = some (9 ∷ []);
  master_key = some (replicate 32 2);
  pake_peer = none;
  cipher = some (of_key (replicate 32 2));
  connected = true;
  writable = true;
  sent = [];
  seq_counter = 0;
  replay_buffer = new_ring_buffer (pos 100);
  bytes_since_rekey = 0;
  last_rekey_time = 0;
  rekey_byte_limit = 0;
  rekey_time_limit = 0;
  untagged_input = true;
  closed = false;
}

abbrev input_of : List ℕ → Input
input_of payload = record { now = 5; salt = replicate 12 4; pooled = []; payload = payload }

abbrev steps : List Step
steps =
    published (input_of (104 ∷ 105 ∷ []))
    ∷ beaten
    ∷ requested (timed_out ∷ unreadable ∷ [])
    ∷ published (input_of (33 ∷ []))
    ∷ []

abbrev later_on : PublisherEngine
later_on = happen_all toy_pake toy steps some_publisher

abbrev behind : SubscriberEngine
behind = record {
  session_id = replicate 16 1;
  passphrase = some (9 ∷ []);
  pake_peer = none;
  cipher = some (of_key (replicate 32 2));
  connected = true;
  writable = true;
  sent = [];
  ring_buffer = new_ring_buffer (pos 100);
  last_seq_num = 1;
  delivered = [];
  closed = false;
}
