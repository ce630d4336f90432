-- ===== src/Relay/Server/Tests.antt =====
-- The theorems of the server and its sessions at concrete inputs.
use zero_feed.Base.{
  ℕ, ◌*◌, ◌^◌, ◌≡◌, refl, true, Option, none, some, List, [], ◌∷◌, lookup, insert, delete, Key, ok,
  arith, replicate, bytes_equal, ◌++◌, ◌==◌, if◌then◌else◌,
}
use zero_feed.Protocol.Messages.{
  Envelope, msg_type_pake_init_pub, msg_type_pake_init_sub, msg_type_data_stream,
}
use zero_feed.Relay.RateLimit.{is_banned}
use zero_feed.Relay.Session.{
  Conns, RelaySession, new_client_conn, new_relay_session, register_publisher, replace_publisher,
  take_publisher, register_subscriber, close_session,
}
use zero_feed.Relay.Server.Sessions.{
  Server, new_server, set_session, created, get_or_create, get_or_create_session, close_at, removed,
  remove_found, remove_session, reap_stale_sessions, close_all,
}
use zero_feed.Relay.Server.Handle.{
  handle_connection, handle_decoded, handle_frame, handle_publisher, handle_subscriber, registered,
  publisher_end, subscriber_end,
}
use zero_feed.Relay.Server.Kept.{IsValid, get_or_create_session-IsValid}
use zero_feed.Relay.Server.Reaping.{reap_stale_sessions_lem}
use zero_feed.Relay.Server.Events.{
  Event, connected, publisher_left, subscriber_left, ticked, run, run-IsValid,
}
use zero_feed.Relay.Server.Admission.{SameSessions, handle_connection-SameSessions}
use zero_feed.Relay.Server.Shutdown.{close_all_lem}
use zero_feed.Relay.Server.Successor.{subscriber_end-successor}
use zero_feed.Relay.Server.Limit.{
  accepted, counted, finished, new_listening, happen, happen_all, IsCounted, happen_all-IsCounted,
}

abbrev host_byte : Key → Option Key
host_byte (h ∷ p ∷ []) = some (h ∷ [])
host_byte _ = none

abbrev frame_of : ℕ → Envelope
frame_of t = record {
  version_ = 1;
  msg_type = t;
  session_id = 5 ∷ [];
  nonce = 0 ∷ [];
  payload = 9 ∷ [];
}

abbrev arrives : ℕ → ℕ → Event
arrives host t = connected 1 2 (host ∷ 80 ∷ []) (host ∷ []) (ok (frame_of t))

-- A publisher and a subscriber come, the publisher leaves and a new one comes.
abbrev steps : List Event
steps =
    arrives 7 msg_type_pake_init_pub
    ∷ arrives 8 msg_type_pake_init_sub
    ∷ publisher_left 0
    ∷ arrives 7 msg_type_pake_init_pub
    ∷ []

run-IsValid_example :
    IsValid (run host_byte (steps ++ (ticked 50 ∷ subscriber_left 0 (8 ∷ []) ∷ [])) new_server)
run-IsValid_example = run-IsValid host_byte (steps ++ (ticked 50 ∷ subscriber_left 0 (8 ∷ []) ∷ []))

abbrev empty_session : Server
empty_session = (get_or_create_session 0 (5 ∷ []) new_server).0

reap_stale_sessions_lem_example :
    lookup (5 ∷ []) (reap_stale_sessions (40 * 10 ^ 9) empty_session).sessions ≡ none
unfolding get_or_create_session get_or_create created insert lookup new_relay_session bytes_equal
reap_stale_sessions_lem_example =
    reap_stale_sessions_lem (40 * 10 ^ 9) (5 ∷ []) empty_session
      (get_or_create_session-IsValid 0 (5 ∷ []) new_server (run-IsValid host_byte []))

handle_connection-SameSessions_example :
    SameSessions new_server
      (handle_connection host_byte 1 2
        (7 ∷ 80 ∷ [])
        (7 ∷ [])
        (ok (frame_of msg_type_data_stream))
        new_server).0
unfolding is_banned lookup
handle_connection-SameSessions_example =
    handle_connection-SameSessions host_byte 1 2 (7 ∷ 80 ∷ []) (7 ∷ [])
      (ok (frame_of msg_type_data_stream)) new_server refl

abbrev after_steps : Server
after_steps = run host_byte steps new_server

-- Two subscribers, one of them with a full queue.
abbrev two_conns : Conns
two_conns = record {
  cells = λ i.
      if i == 0
      then record (new_client_conn 2 (frame_of 2)) { queue = replicate 200 (frame_of 9) }
      else new_client_conn 2 (frame_of 2);
  next = 2;
}

abbrev two_subscribers : RelaySession
two_subscribers = record (new_relay_session 0 (5 ∷ [])) {
  subscribers = ((7 ∷ []), 0) ∷ ((8 ∷ []), 1) ∷ [];
}

-- The first session's subscriber leaves, and the new publisher's session is closed.
subscriber_end-successor_example :
    (((subscriber_end 0 (8 ∷ []) after_steps).heap 1).closed ≡ true)
    × (lookup (5 ∷ []) (subscriber_end 0 (8 ∷ []) after_steps).sessions ≡ none)
unfolding handle_connection handle_decoded handle_frame handle_publisher handle_subscriber
    registered is_banned lookup insert delete get_or_create_session get_or_create created
    register_publisher replace_publisher take_publisher register_subscriber set_session
    publisher_end remove_session remove_found removed close_at close_session new_relay_session
    bytes_equal
subscriber_end-successor_example = subscriber_end-successor 0 1 (8 ∷ []) after_steps refl refl refl

-- One session was open: the map is empty, and the gauge still says 1.
close_all_lem_example :
    (lookup (5 ∷ []) (close_all empty_session).sessions ≡ none)
    × ((close_all empty_session).metrics ≡ empty_session.metrics)
close_all_lem_example = close_all_lem empty_session (5 ∷ [])

happen_all-IsCounted_example :
    IsCounted 2 (happen_all (accepted ∷ accepted ∷ counted ∷ finished ∷ counted ∷ []) new_listening)
happen_all-IsCounted_example =
    happen_all-IsCounted 2 (accepted ∷ accepted ∷ counted ∷ finished ∷ counted ∷ [])
      (unfold happen in omega arith)

-- Two handlers test before one counts: there is a connection too many.
above_limit :
    (happen_all
      (accepted ∷ accepted ∷ counted ∷ counted ∷ [])
      (record new_listening { active_conns = 9999 })).active_conns
    ≡ 10001
unfolding happen_all
above_limit = refl
