-- ===== src/Relay/Server/Sessions.antt =====
-- The sessions of pkg/relay/server.go: a map from identifiers to references, over a store in which a
-- session lives on after its entry is deleted.
use zero_feed.Base.{
  ℕ, ◌+◌, ◌-◌, ◌*◌, ◌%◌, ◌^◌, Bool, Option, none, some, [], ◌∷◌, length, ◌==◌, if◌then◌else◌, Key,
  Dict, lookup, insert, delete,
}
use zero_feed.Relay.RateLimit.{RateLimiter, new_rate_limiter, set_enabled, cleanup_stale}
use zero_feed.Relay.Session.{
  Conns, no_conn, RelaySession, new_relay_session, is_reapable, close_session,
}

-- The counters of pkg/relay/metrics.go that the server moves. `active_sessions` is signed in the source: it
-- is lowered only with an entry of the map, for which it was raised.
pub record Metrics : Type 0 where
  pub active_sessions : ℕ
  pub sessions_created_total : ℕ
  pub bytes_transferred_total : ℕ
  pub messages_relayed_total : ℕ
  pub rate_limit_bans_total : ℕ
  pub malformed_packets_dropped_total : ℕ

pub record Server : Type 0 where
  pub sessions : Dict ℕ
  pub heap : ℕ → RelaySession
  pub next_session : ℕ
  pub conns : Conns
  pub limiter : RateLimiter
  pub metrics : Metrics

-- `NewServer`; references that were not handed out lead to an empty session or connection.
abbrev pub new_server : Server
new_server = record {
  sessions = [];
  heap = λ i. new_relay_session 0 [];
  next_session = 0;
  conns = record { cells = λ i. no_conn; next = 0 };
  limiter = new_rate_limiter;
  metrics = record {
    active_sessions = 0;
    sessions_created_total = 0;
    bytes_transferred_total = 0;
    messages_relayed_total = 0;
    rate_limit_bans_total = 0;
    malformed_packets_dropped_total = 0;
  };
}

unfoldable pub set_session : Server → ℕ → RelaySession → Server
set_session srv i s = record srv { heap = λ j. if j == i then s else srv.heap j }

unfoldable pub created : ℕ → Key → Server → Server
created now id srv = record srv {
  sessions = insert id srv.next_session srv.sessions;
  heap = λ j. if j == srv.next_session then new_relay_session now id else srv.heap j;
  next_session = srv.next_session + 1;
  metrics = record srv.metrics {
    active_sessions = srv.metrics.active_sessions + 1;
    sessions_created_total = (srv.metrics.sessions_created_total + 1) % 2 ^ 64;
  };
}

unfoldable pub get_or_create : ℕ → Key → Option ℕ → Server → Server × ℕ
unfolding created
get_or_create now id none srv = (created now id srv, srv.next_session)
get_or_create now id (some i) srv = (srv, i)

unfoldable pub get_or_create_session : ℕ → Key → Server → Server × ℕ
unfolding get_or_create created
get_or_create_session now id srv = get_or_create now id (lookup id srv.sessions) srv

unfoldable pub lookup_session : Key → Server → Option ℕ
lookup_session id srv = lookup id srv.sessions

-- The session behind a reference is closed.
unfoldable pub close_at : ℕ → Server → Server
close_at i srv =
    let (conns', s) = close_session srv.conns (srv.heap i) in
    record srv { conns = conns'; heap = λ j. if j == i then s else srv.heap j }

-- A session is closed, its entry deleted and the gauge lowered.
unfoldable pub removed : Key → ℕ → Server → Server
unfolding close_at
removed id i srv =
    let closed' = close_at i srv in
    record closed' {
      sessions = delete id closed'.sessions;
      metrics = record closed'.metrics { active_sessions = closed'.metrics.active_sessions - 1 };
    }

unfoldable pub remove_found : Key → Option ℕ → Server → Server
unfolding removed
remove_found id none srv = srv
remove_found id (some i) srv = removed id i srv

-- `removeSession` goes by the identifier: it closes whatever session the map holds under it.
unfoldable pub remove_session : Key → Server → Server
unfolding remove_found
remove_session id srv = remove_found id (lookup id srv.sessions) srv

-- `CloseAll` closes and deletes each session of the map; it leaves the counters alone.
unfoldable pub close_each : Dict ℕ → Server → Server
close_each [] srv = srv
close_each ((id, i) ∷ rest) srv =
    let closed' = close_at i srv in
    close_each rest (record closed' { sessions = delete id closed'.sessions })

unfoldable pub close_all : Server → Server
unfolding close_each close_at
close_all srv = close_each srv.sessions srv

-- `reapStaleSessions`
unfoldable pub reap_each : ℕ → Dict ℕ → Server → Server
unfolding removed
reap_each now [] srv = srv
reap_each now ((id, i) ∷ rest) srv =
    reap_each now rest (if is_reapable now (srv.heap i) then removed id i srv else srv)

unfoldable pub reap_stale_sessions : ℕ → Server → Server
unfolding reap_each
reap_stale_sessions now srv = reap_each now srv.sessions srv

abbrev pub session_count : Server → ℕ
session_count srv = length srv.sessions

abbrev pub stale_age : ℕ
stale_age = 15 * 60 * 10 ^ 9

-- A tick of the ticker of `Start`.
unfoldable pub tick : ℕ → Server → Server
tick now srv =
    reap_stale_sessions now (record srv { limiter = cleanup_stale now stale_age srv.limiter })

-- `SetRateLimiting`, which `DisableRateLimiting` is with false.
abbrev pub set_rate_limiting : Bool → Server → Server
set_rate_limiting enabled srv = record srv { limiter = set_enabled srv.limiter enabled }
