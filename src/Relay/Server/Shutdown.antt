-- ===== src/Relay/Server/Shutdown.antt =====
-- What `CloseAll` of pkg/relay/server.go leaves.
use zero_feed.Base.{
  ℕ, ◌≡◌, refl, Option, none, some, [], ◌∷◌, if◌then◌else◌, Key, Dict, lookup, delete,
  lookup-delete, bytes_equal, arith,
}
use zero_feed.Relay.Server.Sessions.{Server, close_at, close_each, close_all}

-- What a key holds after the keys of a map were deleted.
abbrev unless_deleted : Option ℕ → Option ℕ → Option ℕ
unless_deleted none kept = kept
unless_deleted (some i) kept = none

close_each-lookup :
    (k : Key) (rest : Dict ℕ) (srv : Server)
    → lookup k (close_each rest srv).sessions
      ≡ unless_deleted (lookup k rest) (lookup k srv.sessions)
unfolding close_each close_at lookup
close_each-lookup k [] srv = refl
close_each-lookup k ((id, i) ∷ rest) srv =
    let closed' = close_at i srv in
    rw (close_each-lookup k rest (record closed' { sessions = delete id closed'.sessions }))
      (deleted (lookup k rest))
  where
    deleted :
        (o : Option ℕ)
        → unless_deleted o (lookup k (delete id srv.sessions))
          ≡ unless_deleted (if bytes_equal id k then some i else o) (lookup k srv.sessions)
    deleted none = ground (arith, lookup-delete id k srv.sessions)
    deleted (some j) = ground arith

close_each-metrics : (rest : Dict ℕ) (srv : Server) → (close_each rest srv).metrics ≡ srv.metrics
unfolding close_each close_at
close_each-metrics [] srv = refl
close_each-metrics ((id, i) ∷ rest) srv =
    let closed' = close_at i srv in
    close_each-metrics rest (record closed' { sessions = delete id closed'.sessions })

-- After CloseAll the map of sessions holds nothing under any identifier, and all counters are as
-- before, the gauge of active sessions among them.
pub close_all_lem :
    (srv : Server) (id : Key)
    → (lookup id (close_all srv).sessions ≡ none) × ((close_all srv).metrics ≡ srv.metrics)
unfolding close_all
close_all_lem srv id = (
  rw (close_each-lookup id srv.sessions srv) (gone (lookup id srv.sessions)),
  close_each-metrics srv.sessions srv,
)
  where
    gone : (o : Option ℕ) → unless_deleted o o ≡ none
    gone none = refl
    gone (some i) = refl
