-- ===== src/Relay/Server/Events.antt =====
-- The steps by which the goroutines of pkg/relay/server.go change the server, in any order.
use zero_feed.Base.{
  ℕ, ◌≡◌, refl, Bool, true, false, Option, none, some, List, [], ◌∷◌, if◌then◌else◌, ◌==◌, Key,
  lookup, Result, ok, err, eof, unexpected_eof, timeout, broken, arith,
}
use zero_feed.Protocol.Messages.{
  Envelope, msg_type_heartbeat, msg_type_close, msg_type_pake_init_pub, msg_type_pake_init_sub,
  msg_type_sync_req,
}
use zero_feed.Protocol.Frame.{
  DecodeError, read_failed, payload_failed, unsupported_ver, invalid_magic, too_large,
}
use zero_feed.Relay.RateLimit.{is_banned, cleanup_stale}
use zero_feed.Relay.Session.{
  Wait, Conns, RelaySession, replace_publisher, take_publisher, register_publisher,
  register_subscriber, remove_subscriber, send_to,
}
use zero_feed.Relay.Server.Sessions.{
  Server, new_server, set_session, get_or_create_session, lookup_session, remove_session, stale_age,
  tick, set_rate_limiting,
}
use zero_feed.Relay.Server.Handle.{
  handle_connection, handle_decoded, handle_frame, handle_error, handle_publisher,
  handle_subscriber, registered, greet, sync_found, count_malformed, publisher_frame, publisher_end,
  subscriber_frame, subscriber_end, nobody_left,
}
use zero_feed.Relay.Server.Kept.{
  IsValid, set_session-IsValid, get_or_create_session-IsValid, remove_session-IsValid,
}
use zero_feed.Relay.Server.Reaping.{reap_stale_sessions-IsValid}

-- A step of a goroutine: a new connection's first frame, one frame of a loop, the end of a loop, a
-- tick, a setting of the limiter, or a change of a connection outside of the server's own code.
pub data Event : Type 0 where
  connected : ℕ → ℕ → Key → Key → Result DecodeError Envelope → Event
  publisher_sent : (ℕ → Wait) → ℕ → Envelope → Event
  publisher_left : ℕ → Event
  subscriber_sent : ℕ → Envelope → Event
  subscriber_left : ℕ → Key → Event
  ticked : ℕ → Event
  limiting_set : Bool → Event
  conns_changed : Conns → Event

register_publisher-session :
    (env : Envelope) (cs : Conns) (s : RelaySession)
    → ((register_publisher env cs s).1.session_id ≡ s.session_id)
      × ((register_publisher env cs s).1.closed ≡ s.closed)
unfolding register_publisher
register_publisher-session env cs s = cases s.publisher
  where
    cases :
        (o : Option ℕ)
        → ((replace_publisher o env cs s).1.session_id ≡ s.session_id)
          × ((replace_publisher o env cs s).1.closed ≡ s.closed)
    cases none = unfold replace_publisher take_publisher in (refl, refl)
    cases (some p) = unfold replace_publisher take_publisher in ground arith

register_subscriber-session :
    (key : Key) (env : Envelope) (cs : Conns) (s : RelaySession)
    → ((register_subscriber key env cs s).1.session_id ≡ s.session_id)
      × ((register_subscriber key env cs s).1.closed ≡ s.closed)
unfolding register_subscriber
register_subscriber-session key env cs s = (refl, refl)

remove_subscriber-session :
    (key : Key) (cs : Conns) (s : RelaySession)
    → ((remove_subscriber key cs s).1.session_id ≡ s.session_id)
      × ((remove_subscriber key cs s).1.closed ≡ s.closed)
unfolding remove_subscriber
remove_subscriber-session key cs s = (refl, refl)

registered-IsValid :
    (i : ℕ) (t : Conns × RelaySession × Option ℕ) (srv : Server)
    → IsValid srv
    → t.1.session_id ≡ (srv.heap i).session_id
    → t.1.closed ≡ (srv.heap i).closed
    → IsValid (registered i t srv).0
unfolding registered
registered-IsValid i (cs, s, none) srv v same_id same_closed = v
registered-IsValid i (cs, s, some p) srv v same_id same_closed =
    set_session-IsValid (record srv { conns = greet s.subscribers p cs }) i s v same_id same_closed

handle_publisher-IsValid :
    (now : ℕ) (env : Envelope) (srv : Server)
    → IsValid srv
    → IsValid (handle_publisher now env srv).0
unfolding handle_publisher
handle_publisher-IsValid now env srv v =
    let (srv', i) = get_or_create_session now env.session_id srv in
    let same = register_publisher-session env srv'.conns (srv'.heap i) in
    registered-IsValid i (register_publisher env srv'.conns (srv'.heap i)) srv'
      (get_or_create_session-IsValid now env.session_id srv v) same.0 same.1

handle_subscriber-IsValid :
    (now : ℕ) (key : Key) (env : Envelope) (srv : Server)
    → IsValid srv
    → IsValid (handle_subscriber now key env srv).0
unfolding handle_subscriber
handle_subscriber-IsValid now key env srv v =
    let (srv', i) = get_or_create_session now env.session_id srv in
    let same = register_subscriber-session key env srv'.conns (srv'.heap i) in
    let (cs, s, c) = register_subscriber key env srv'.conns (srv'.heap i) in
    set_session-IsValid (record srv' { conns = send_to s.publisher env cs }) i s
      (get_or_create_session-IsValid now env.session_id srv v) same.0 same.1

subscriber_end-IsValid :
    (i : ℕ) (key : Key) (srv : Server) → IsValid srv → IsValid (subscriber_end i key srv)
unfolding subscriber_end
subscriber_end-IsValid i key srv v = cases (nobody_left s)
  where
    cs : Conns
    cs = (remove_subscriber key srv.conns (srv.heap i)).0

    s : RelaySession
    s = (remove_subscriber key srv.conns (srv.heap i)).1

    left : Server
    left = set_session (record srv { conns = cs }) i s

    left-IsValid : IsValid left
    left-IsValid =
        let same = remove_subscriber-session key srv.conns (srv.heap i) in
        set_session-IsValid (record srv { conns = cs }) i s v same.0 same.1

    cases : (b : Bool) → IsValid (if b then remove_session s.session_id left else left)
    cases true = remove_session-IsValid s.session_id left left-IsValid
    cases false = left-IsValid

if-IsValid :
    {O : Type 0} (b : Bool) (x y : Server × O)
    → IsValid x.0
    → IsValid y.0
    → IsValid (if b then x else y).0
if-IsValid true x y hx hy = hx
if-IsValid false x y hx hy = hy

publisher_frame-IsValid :
    (waits : ℕ → Wait) (i : ℕ) (env : Envelope) (srv : Server)
    → IsValid srv
    → IsValid (publisher_frame waits i env srv).0
unfolding publisher_frame
publisher_frame-IsValid waits i env srv v =
    if-IsValid (env.msg_type == msg_type_heartbeat) _ _ v
      (if-IsValid (env.msg_type == msg_type_close) _ _ v v)

subscriber_frame-IsValid :
    (i : ℕ) (env : Envelope) (srv : Server) → IsValid srv → IsValid (subscriber_frame i env srv)
unfolding subscriber_frame
subscriber_frame-IsValid i env srv v = ground arith

module _ (split_host_port : Key → Option Key) where
  sync_found-IsValid :
      (now : ℕ) (addr : Key) (env : Envelope) (o : Option ℕ) (srv : Server)
      → IsValid srv
      → IsValid (sync_found split_host_port now addr env o srv)
  unfolding sync_found
  sync_found-IsValid now addr env none srv v = v
  sync_found-IsValid now addr env (some i) srv v = v

  handle_frame-IsValid :
      (now : ℕ) (addr key : Key) (env : Envelope) (srv : Server)
      → IsValid srv
      → IsValid (handle_frame split_host_port now addr key env srv).0
  unfolding handle_frame count_malformed
  handle_frame-IsValid now addr key env srv v =
      if-IsValid (env.msg_type == msg_type_pake_init_pub) _ _
        (handle_publisher-IsValid now env srv v)
        (if-IsValid (env.msg_type == msg_type_pake_init_sub) _ _
          (handle_subscriber-IsValid now key env srv v)
          (if-IsValid (env.msg_type == msg_type_sync_req) _ _
            (sync_found-IsValid now addr env (lookup_session env.session_id srv) srv v) v))

  handle_error-IsValid :
      (now : ℕ) (addr : Key) (e : DecodeError) (srv : Server)
      → IsValid srv
      → IsValid (handle_error split_host_port now addr e srv).0
  unfolding handle_error count_malformed
  handle_error-IsValid now addr (unsupported_ver w) srv v = v
  handle_error-IsValid now addr (read_failed eof) srv v = v
  handle_error-IsValid now addr (read_failed unexpected_eof) srv v = v
  handle_error-IsValid now addr (read_failed timeout) srv v = v
  handle_error-IsValid now addr (read_failed broken) srv v = v
  handle_error-IsValid now addr (payload_failed eof) srv v = v
  handle_error-IsValid now addr (payload_failed unexpected_eof) srv v = v
  handle_error-IsValid now addr (payload_failed timeout) srv v = v
  handle_error-IsValid now addr (payload_failed broken) srv v = v
  handle_error-IsValid now addr invalid_magic srv v = v
  handle_error-IsValid now addr too_large srv v = v

  handle_decoded-IsValid :
      (now : ℕ) (addr key : Key) (decoded : Result DecodeError Envelope) (srv : Server)
      → IsValid srv
      → IsValid (handle_decoded split_host_port now addr key decoded srv).0
  unfolding handle_decoded
  handle_decoded-IsValid now addr key (ok env) srv v = handle_frame-IsValid now addr key env srv v
  handle_decoded-IsValid now addr key (err e) srv v = handle_error-IsValid now addr e srv v

  handle_connection-IsValid :
      (now later : ℕ) (addr key : Key) (decoded : Result DecodeError Envelope) (srv : Server)
      → IsValid srv
      → IsValid (handle_connection split_host_port now later addr key decoded srv).0
  unfolding handle_connection
  handle_connection-IsValid now later addr key decoded srv v =
      let (banned, limiter') = is_banned split_host_port now srv.limiter addr in
      if-IsValid banned _ _ v
        (handle_decoded-IsValid later addr key decoded (record srv { limiter = limiter' }) v)

  abbrev pub perform : Event → Server → Server
  perform (connected now later addr key decoded) srv =
      (handle_connection split_host_port now later addr key decoded srv).0
  perform (publisher_sent waits i env) srv = (publisher_frame waits i env srv).0
  perform (publisher_left i) srv = publisher_end i srv
  perform (subscriber_sent i env) srv = subscriber_frame i env srv
  perform (subscriber_left i key) srv = subscriber_end i key srv
  perform (ticked now) srv = tick now srv
  perform (limiting_set enabled) srv = set_rate_limiting enabled srv
  perform (conns_changed cs) srv = record srv { conns = cs }

  abbrev pub run : List Event → Server → Server
  run [] srv = srv
  run (e ∷ es) srv = run es (perform e srv)

  perform-IsValid : (e : Event) (srv : Server) → IsValid srv → IsValid (perform e srv)
  perform-IsValid (connected now later addr key decoded) srv v =
      handle_connection-IsValid now later addr key decoded srv v
  perform-IsValid (publisher_sent waits i env) srv v = publisher_frame-IsValid waits i env srv v
  perform-IsValid (publisher_left i) srv v =
      unfold publisher_end in remove_session-IsValid (srv.heap i).session_id srv v
  perform-IsValid (subscriber_sent i env) srv v = subscriber_frame-IsValid i env srv v
  perform-IsValid (subscriber_left i key) srv v = subscriber_end-IsValid i key srv v
  perform-IsValid (ticked now) srv v =
      unfold tick in
      reap_stale_sessions-IsValid now
        (record srv { limiter = cleanup_stale now stale_age srv.limiter }) v
  perform-IsValid (limiting_set enabled) srv v = v
  perform-IsValid (conns_changed cs) srv v = v

  pub run-IsValid_from : (es : List Event) (srv : Server) → IsValid srv → IsValid (run es srv)
  run-IsValid_from [] srv v = v
  run-IsValid_from (e ∷ es) srv v = run-IsValid_from es (perform e srv) (perform-IsValid e srv v)

  -- After any steps of a new server but CloseAll, in any order, no identifier stands twice in the
  -- map of sessions, the gauge of active sessions is the number of entries, and each entry leads
  -- to an open session of its identifier.
  pub run-IsValid : (es : List Event) → IsValid (run es new_server)
  unfolding lookup
  run-IsValid es = run-IsValid_from es new_server (tt, refl, λ id i e. cc)
