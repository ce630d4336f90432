-- ===== src/Relay/Server/Kept.antt =====
-- The map of sessions of pkg/relay/server.go under the changes of a single session.
use zero_feed.Base.{
  ℕ, ◌<◌, ◌≡◌, refl, false, Option, none, some, ◌∷◌, length, Key, Dict, lookup, lookup-insert,
  lookup-delete, IsDistinct, length-delete, length-insert, delete-IsDistinct, insert-IsDistinct,
  key_iff, arith,
}
use zero_feed.Relay.Session.{Conns, RelaySession, new_relay_session, close_session}
use zero_feed.Relay.Server.Sessions.{
  Server, set_session, created, get_or_create, get_or_create_session, removed, remove_found,
  close_at, remove_session,
}

-- What the map holds: references that were handed out, each to an open session of that identifier.
abbrev pub HoldsOpen : Server → Type 0
HoldsOpen srv =
    (id : Key) (i : ℕ)
    → lookup id srv.sessions ≡ some i
    → (i < srv.next_session) × ((srv.heap i).session_id ≡ id) × ((srv.heap i).closed ≡ false)

-- No identifier stands twice, the gauge is the number of entries, and the entries are open.
abbrev pub IsValid : Server → Type 0
IsValid srv =
    IsDistinct srv.sessions × (srv.metrics.active_sessions ≡ length srv.sessions) × HoldsOpen srv

-- A session may change as long as it keeps its identifier and stays open.
pub set_session-IsValid :
    (srv : Server) (i : ℕ) (s : RelaySession)
    → IsValid srv
    → s.session_id ≡ (srv.heap i).session_id
    → s.closed ≡ (srv.heap i).closed
    → IsValid (set_session srv i s)
unfolding set_session
set_session-IsValid srv i s (d, n, h) same_id same_closed =
    (d, n, λ id j found. let held = h id j found in ground arith)

get_or_create-IsValid :
    (now : ℕ) (id : Key) (o : Option ℕ) (srv : Server)
    → lookup id srv.sessions ≡ o
    → IsValid srv
    → IsValid (get_or_create now id o srv).0
unfolding get_or_create created
get_or_create-IsValid now id (some i) srv e v = v
get_or_create-IsValid now id none srv e (d, n, h) = (
  insert-IsDistinct id srv.next_session srv.sessions d,
  omega (arith, length-insert id srv.next_session srv.sessions e),
  λ k j found.
      unfold new_relay_session in
      ground (arith, lookup-insert id k srv.next_session srv.sessions, key_iff id k, h k j),
)

pub get_or_create_session-IsValid :
    (now : ℕ) (id : Key) (srv : Server) → IsValid srv → IsValid (get_or_create_session now id srv).0
unfolding get_or_create_session
get_or_create_session-IsValid now id srv v =
    get_or_create-IsValid now id (lookup id srv.sessions) srv refl v

close_session-session_id :
    (cs : Conns) (s : RelaySession) → (close_session cs s).1.session_id ≡ s.session_id
unfolding close_session
close_session-session_id cs s = ground arith

-- An entry can be removed: no other entry leads to its session.
pub removed-IsValid :
    (id : Key) (i : ℕ) (srv : Server)
    → lookup id srv.sessions ≡ some i
    → IsValid srv
    → IsValid (removed id i srv)
unfolding removed close_at
removed-IsValid id i srv e (d, n, h) = (
  delete-IsDistinct id srv.sessions d,
  omega (arith, length-delete id srv.sessions {v = i} d e),
  λ k j found. ground (arith, lookup-delete id k srv.sessions, key_iff id k, h k j, h id i e),
)

pub remove_session-IsValid :
    (id : Key) (srv : Server) → IsValid srv → IsValid (remove_session id srv)
unfolding remove_session
remove_session-IsValid id srv v = cases (lookup id srv.sessions) refl
  where
    cases : (o : Option ℕ) → lookup id srv.sessions ≡ o → IsValid (remove_found id o srv)
    cases none e = unfold remove_found in v
    cases (some i) e = unfold remove_found in removed-IsValid id i srv e v

-- The entries that the loop has still to visit stand in the map.
abbrev pub IsAhead : Dict ℕ → Server → Type 0
IsAhead rest srv = (k : Key) (j : ℕ) → lookup k rest ≡ some j → lookup k srv.sessions ≡ some j

pub removed-IsAhead :
    (id : Key) (i : ℕ) (rest : Dict ℕ) (srv : Server)
    → IsDistinct ((id, i) ∷ rest)
    → IsAhead ((id, i) ∷ rest) srv
    → IsAhead rest (removed id i srv)
unfolding removed close_at lookup
removed-IsAhead id i rest srv d h k j found =
    ground (arith, lookup-delete id k srv.sessions, key_iff id k, h k j)
