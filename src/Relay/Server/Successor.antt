-- ===== src/Relay/Server/Successor.antt =====
-- What the end of a subscriber of pkg/relay/server.go does to a session that came after its own.
use zero_feed.Base.{
  ℕ, ◌≡◌, ◌∙◌, true, none, some, [], Key, lookup, delete, lookup-delete, bytes_equal_refl, arith,
}
use zero_feed.Relay.Session.{Conns, RelaySession, close_session, remove_subscriber}
use zero_feed.Relay.Server.Sessions.{
  Server, set_session, close_at, removed, remove_found, remove_session,
}
use zero_feed.Relay.Server.Handle.{subscriber_end, nobody_left}

close_session-closed : (cs : Conns) (s : RelaySession) → (close_session cs s).1.closed ≡ true
unfolding close_session
close_session-closed cs s = ground arith

removed_lem :
    (id : Key) (j : ℕ) (srv : Server)
    → (((removed id j srv).heap j).closed ≡ true) × (lookup id (removed id j srv).sessions ≡ none)
unfolding removed close_at
removed_lem id j srv = (
  ground (arith, close_session-closed srv.conns (srv.heap j)),
  rw (lookup-delete id id srv.sessions, bytes_equal_refl id),
)

remove_session_found :
    (id : Key) (j : ℕ) (srv : Server)
    → lookup id srv.sessions ≡ some j
    → remove_session id srv ≡ removed id j srv
unfolding remove_session remove_found
remove_session_found id j srv e = rw e

-- What stays when the subscriber was the last one.
abbrev after_last : ℕ → Key → Server → Server
after_last i key srv =
    let (cs, s) = remove_subscriber key srv.conns (srv.heap i) in
    set_session (record srv { conns = cs }) i s

last_left :
    (i : ℕ) (key : Key) (srv : Server)
    → (srv.heap i).publisher ≡ none
    → delete key (srv.heap i).subscribers ≡ []
    → nobody_left (remove_subscriber key srv.conns (srv.heap i)).1 ≡ true
unfolding nobody_left remove_subscriber
last_left i key srv p s = rw (p, s)

subscriber_end_last :
    (i : ℕ) (key : Key) (srv : Server)
    → nobody_left (remove_subscriber key srv.conns (srv.heap i)).1 ≡ true
    → subscriber_end i key srv
      ≡ remove_session
          (remove_subscriber key srv.conns (srv.heap i)).1.session_id
          (after_last i key srv)
unfolding subscriber_end
subscriber_end_last i key srv e = rw e

-- If the session of a leaving subscriber has no publisher and no other subscriber, then the
-- session that the map holds under its identifier is closed and taken out of the map, its own or a
-- later one, whoever is in it.
pub subscriber_end-successor :
    (i j : ℕ) (key : Key) (srv : Server)
    → (srv.heap i).publisher ≡ none
    → delete key (srv.heap i).subscribers ≡ []
    → lookup (srv.heap i).session_id srv.sessions ≡ some j
    → (((subscriber_end i key srv).heap j).closed ≡ true)
      × (lookup (srv.heap i).session_id (subscriber_end i key srv).sessions ≡ none)
unfolding remove_subscriber set_session
subscriber_end-successor i j key srv p s e =
    let left = after_last i key srv in
    let same : subscriber_end i key srv ≡ removed (srv.heap i).session_id j left =
      subscriber_end_last i key srv (last_left i key srv p s)
      ∙ remove_session_found (srv.heap i).session_id j left e in
    rw same (removed_lem (srv.heap i).session_id j left)
