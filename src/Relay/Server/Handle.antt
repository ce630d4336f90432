-- ===== src/Relay/Server/Handle.antt =====
-- `handleConnection` of pkg/relay/server.go up to the loops, and one frame of each loop.
use zero_feed.Base.{
  ℕ, ◌+◌, ◌%◌, ◌^◌, Bool, true, false, ◌||◌, Option, none, some, [], ◌∷◌, length, ◌==◌,
  if◌then◌else◌, Key, Dict, Result, ok, err, eof,
}
use zero_feed.Protocol.Messages.{
  Envelope, msg_type_pake_init_pub, msg_type_pake_init_sub, msg_type_sync_req, msg_type_heartbeat,
  msg_type_close, msg_type_key_confirm, msg_type_chunk_ack,
}
use zero_feed.Protocol.Frame.{DecodeError, read_failed, payload_failed, unsupported_ver}
use zero_feed.Relay.RateLimit.{is_banned, record_failure}
use zero_feed.Relay.Session.{
  Wait, Conns, RelaySession, register_publisher, register_subscriber, remove_subscriber,
  forward_from_publisher, forward_to_publisher, send_to,
}
use zero_feed.Relay.Server.Sessions.{
  Server, set_session, get_or_create_session, lookup_session, remove_session,
}

-- What becomes of the connection: it is closed, with or without a closing frame, or its loop starts.
pub data Outcome : Type 0 where
  dropped : Outcome
  version_refused : Outcome
  publisher_loop : ℕ → ℕ → Outcome
  subscriber_loop : ℕ → ℕ → Key → Outcome

unfoldable pub count_malformed : Server → Server
count_malformed srv = record srv {
  metrics = record srv.metrics {
    malformed_packets_dropped_total = (srv.metrics.malformed_packets_dropped_total + 1) % 2 ^ 64;
  };
}

-- The frames with which the subscribers came are sent to a new publisher.
unfoldable pub greet : Dict ℕ → ℕ → Conns → Conns
unfolding send_to
greet [] p cs = cs
greet ((key, i) ∷ subs) p cs =
    greet subs p (elim (cs.cells i).initial_env [ none ↦ cs | some env ↦ send_to (some p) env cs ])

unfoldable pub registered : ℕ → Conns × RelaySession × Option ℕ → Server → Server × Outcome
unfolding greet
registered i (cs, s, none) srv = (record srv { conns = cs }, dropped)
registered i (cs, s, some p) srv =
    (set_session (record srv { conns = greet s.subscribers p cs }) i s, publisher_loop i p)

unfoldable pub handle_publisher : ℕ → Envelope → Server → Server × Outcome
unfolding registered
handle_publisher now env srv =
    let (srv', i) = get_or_create_session now env.session_id srv in
    registered i (register_publisher env srv'.conns (srv'.heap i)) srv'

unfoldable pub handle_subscriber : ℕ → Key → Envelope → Server → Server × Outcome
handle_subscriber now key env srv =
    let (srv', i) = get_or_create_session now env.session_id srv in
    let (cs, s, c) = register_subscriber key env srv'.conns (srv'.heap i) in
    (set_session (record srv' { conns = send_to s.publisher env cs }) i s, subscriber_loop i c key)

module _ (split_host_port : Key → Option Key) where
  abbrev fail : ℕ → Key → Server → Server
  fail now addr srv = record srv { limiter = record_failure split_host_port now srv.limiter addr }

  -- A SyncReq of a connection that is not registered is passed on, if the session is there.
  unfoldable pub sync_found : ℕ → Key → Envelope → Option ℕ → Server → Server
  sync_found now addr env none srv = fail now addr srv
  sync_found now addr env (some i) srv = record srv {
    conns = forward_to_publisher env srv.conns (srv.heap i);
  }

  -- The switch over the type of the first frame.
  unfoldable pub handle_frame : ℕ → Key → Key → Envelope → Server → Server × Outcome
  unfolding sync_found handle_publisher handle_subscriber count_malformed
  handle_frame now addr key env srv =
      if env.msg_type == msg_type_pake_init_pub
      then handle_publisher now env srv
      else if env.msg_type == msg_type_pake_init_sub
      then handle_subscriber now key env srv
      else if env.msg_type == msg_type_sync_req
      then (sync_found now addr env (lookup_session env.session_id srv) srv, dropped)
      else (count_malformed (fail now addr srv), dropped)

  -- An error of the first frame: an old version gets an answer, and an end of the stream before the
  -- first byte of a read is no failure.
  unfoldable pub handle_error : ℕ → Key → DecodeError → Server → Server × Outcome
  unfolding count_malformed
  handle_error now addr (unsupported_ver v) srv = (srv, version_refused)
  handle_error now addr (read_failed eof) srv = (srv, dropped)
  handle_error now addr (payload_failed eof) srv = (srv, dropped)
  handle_error now addr _ srv = (count_malformed (fail now addr srv), dropped)

  unfoldable pub handle_decoded :
      ℕ → Key → Key → Result DecodeError Envelope → Server → Server × Outcome
  unfolding handle_frame handle_error
  handle_decoded now addr key (err e) srv = handle_error now addr e srv
  handle_decoded now addr key (ok env) srv = handle_frame now addr key env srv

  -- `handleConnection` after the PROXY header: `now` is the time of the ban's check, `later` that of
  -- the decoded frame, and `decoded` what `DecodeWithMax` gave, which is not looked at if the address
  -- is banned.
  unfoldable pub handle_connection :
      ℕ → ℕ → Key → Key → Result DecodeError Envelope → Server → Server × Outcome
  unfolding handle_decoded
  handle_connection now later addr key decoded srv =
      let (banned, limiter') = is_banned split_host_port now srv.limiter addr in
      let seen = record srv { limiter = limiter' } in
      let refused = record seen {
        metrics = record seen.metrics {
          rate_limit_bans_total = (seen.metrics.rate_limit_bans_total + 1) % 2 ^ 64;
        };
      } in
      if banned then (refused, dropped) else handle_decoded later addr key decoded seen

-- One frame of `loopPublisher`: the frames it passes on, and whether the loop goes on.
unfoldable pub publisher_frame : (ℕ → Wait) → ℕ → Envelope → Server → Server × Bool
publisher_frame waits i env srv =
    let sent = (forward_from_publisher waits env srv.conns (srv.heap i)).conns in
    let counted = record srv.metrics {
      messages_relayed_total = (srv.metrics.messages_relayed_total + 1) % 2 ^ 64;
      bytes_transferred_total = (srv.metrics.bytes_transferred_total + length env.payload) % 2 ^ 64;
    } in
    if env.msg_type == msg_type_heartbeat
    then (srv, true)
    else if env.msg_type == msg_type_close
    then (record srv { conns = sent }, false)
    else (record srv { conns = sent; metrics = counted }, true)

-- What follows the loop of a publisher.
unfoldable pub publisher_end : ℕ → Server → Server
publisher_end i srv = remove_session (srv.heap i).session_id srv

-- One frame of `loopSubscriber`.
unfoldable pub subscriber_frame : ℕ → Envelope → Server → Server
subscriber_frame i env srv =
    if env.msg_type == msg_type_heartbeat
    then srv
    else if env.msg_type == msg_type_sync_req
        || env.msg_type == msg_type_key_confirm
        || env.msg_type == msg_type_chunk_ack
    then record srv { conns = forward_to_publisher env srv.conns (srv.heap i) }
    else srv

-- What follows the loop of a subscriber: its session goes too, if nobody is left in it.
unfoldable pub nobody_left : RelaySession → Bool
nobody_left s = elim s.publisher [ none ↦ length s.subscribers == 0 | some p ↦ false ]

unfoldable pub subscriber_end : ℕ → Key → Server → Server
unfolding nobody_left
subscriber_end i key srv =
    let (cs, s) = remove_subscriber key srv.conns (srv.heap i) in
    let left = set_session (record srv { conns = cs }) i s in
    if nobody_left s then remove_session s.session_id left else left
