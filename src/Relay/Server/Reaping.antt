-- ===== src/Relay/Server/Reaping.antt =====
-- Which sessions the sweep of pkg/relay/server.go closes.
use zero_feed.Base.{
  ℕ, ◌≡◌, refl, ap, ◌∙◌, ◌+◌, leb, length, ◌-◌, ◌==◌, ◌&&◌, ◌||◌, Bool, true, false, Option, none,
  some, [], ◌∷◌, if◌then◌else◌, Key, Dict, lookup, lookup-delete, IsDistinct, key_iff, arith,
}
use zero_feed.Relay.Session.{RelaySession, is_reapable, is_empty, is_none, session_grace_period}
use zero_feed.Relay.Server.Sessions.{Server, close_at, removed, reap_each, reap_stale_sessions}
use zero_feed.Relay.Server.Kept.{IsValid, IsAhead, removed-IsValid, removed-IsAhead}

reaped_first :
    (now : ℕ) (id : Key) (i : ℕ) (rest : Dict ℕ) (srv : Server)
    → IsDistinct ((id, i) ∷ rest)
    → IsAhead ((id, i) ∷ rest) srv
    → IsValid srv
    → let srv' = if is_reapable now (srv.heap i) then removed id i srv else srv in
      IsValid srv' × IsAhead rest srv'
reaped_first now id i rest srv d a v = cases (is_reapable now (srv.heap i))
  where
    found : lookup id srv.sessions ≡ some i
    found = a id i (unfold lookup in ground (arith, key_iff id id))

    cases :
        (b : Bool)
        → let srv' = if b then removed id i srv else srv in IsValid srv' × IsAhead rest srv'
    cases true = (removed-IsValid id i srv found v, removed-IsAhead id i rest srv d a)
    cases false = (v, λ k j e. a k j (unfold lookup in ground (arith, key_iff id k)))

reap_each-IsValid :
    (now : ℕ) (rest : Dict ℕ) (srv : Server)
    → IsDistinct rest
    → IsAhead rest srv
    → IsValid srv
    → IsValid (reap_each now rest srv)
unfolding reap_each
reap_each-IsValid now [] srv d a v = v
reap_each-IsValid now ((id, i) ∷ rest) srv d a v =
    let (v', a') = reaped_first now id i rest srv d a v in
    reap_each-IsValid now rest (if is_reapable now (srv.heap i) then removed id i srv else srv) d.1
      a' v'

pub reap_stale_sessions-IsValid :
    (now : ℕ) (srv : Server) → IsValid srv → IsValid (reap_stale_sessions now srv)
unfolding reap_stale_sessions
reap_stale_sessions-IsValid now srv v = reap_each-IsValid now srv.sessions srv v.0 (λ k j e. e) v

-- What an entry becomes.
abbrev kept_entry : ℕ → Server → Option ℕ → Option ℕ
kept_entry now srv none = none
kept_entry now srv (some j) = if is_reapable now (srv.heap j) then none else some j

abbrev or_entry : ℕ → Server → Option ℕ → Option ℕ → Option ℕ
or_entry now srv none other = other
or_entry now srv (some j) other = if is_reapable now (srv.heap j) then none else some j

or_entry-first :
    (now : ℕ) (id : Key) (i : ℕ) (k : Key) (rest : Dict ℕ) (srv : Server)
    → IsDistinct ((id, i) ∷ rest)
    → IsAhead ((id, i) ∷ rest) srv
    → IsValid srv
    → let srv' = if is_reapable now (srv.heap i) then removed id i srv else srv in
      or_entry now srv' (lookup k rest) (lookup k srv'.sessions)
      ≡ or_entry now srv (lookup k ((id, i) ∷ rest)) (lookup k srv.sessions)
or_entry-first now id i k rest srv d a v =
    cases (is_reapable now (srv.heap i)) refl (lookup k rest) refl
  where
    found : lookup id srv.sessions ≡ some i
    found = a id i (unfold lookup in ground (arith, key_iff id id))

    cases :
        (b : Bool)
        → is_reapable now (srv.heap i) ≡ b
        → (o : Option ℕ) → lookup k rest ≡ o
        → let srv' = if b then removed id i srv else srv in
          or_entry now srv' o (lookup k srv'.sessions)
          ≡ or_entry now srv (lookup k ((id, i) ∷ rest)) (lookup k srv.sessions)
    cases true e none eo =
        unfold lookup removed close_at in
        ground (arith, key_iff id k, lookup-delete id k srv.sessions)
    cases true e (some j) eo =
        unfold lookup removed close_at in
        ground (arith, key_iff id k, v.2 id i found, v.2 k j, a k j)
    cases false e none eo = unfold lookup in ground (arith, key_iff id k, a k i)
    cases false e (some j) eo = unfold lookup in ground (arith, key_iff id k)

reap_each-lookup :
    (now : ℕ) (k : Key) (rest : Dict ℕ) (srv : Server)
    → IsDistinct rest
    → IsAhead rest srv
    → IsValid srv
    → lookup k (reap_each now rest srv).sessions
      ≡ or_entry now srv (lookup k rest) (lookup k srv.sessions)
unfolding reap_each lookup
reap_each-lookup now k [] srv d a v = refl
reap_each-lookup now k ((id, i) ∷ rest) srv d a v =
    let (v', a') = reaped_first now id i rest srv d a v in
    rw
      (reap_each-lookup now k rest (if is_reapable now (srv.heap i) then removed id i srv else srv)
        d.1 a' v')
      (or_entry-first now id i k rest srv d a v)

reap_stale_sessions-lookup :
    (now : ℕ) (k : Key) (srv : Server)
    → IsValid srv
    → lookup k (reap_stale_sessions now srv).sessions ≡ kept_entry now srv (lookup k srv.sessions)
unfolding reap_stale_sessions
reap_stale_sessions-lookup now k srv v =
    rw (reap_each-lookup now k srv.sessions srv v.0 (λ k j e. e) v) (same (lookup k srv.sessions))
  where
    same : (o : Option ℕ) → or_entry now srv o o ≡ kept_entry now srv o
    same none = refl
    same (some j) = refl

-- A session with neither publisher nor subscribers that is 30 seconds old, in nanoseconds.
abbrev pub is_abandoned : ℕ → Option ℕ → Dict ℕ → ℕ → Bool
is_abandoned now none [] created_at = leb (created_at + 30000000000) now
is_abandoned now none (sub ∷ subs) created_at = false
is_abandoned now (some p) subs created_at = false

abandoned :
    (now : ℕ) (closed : Bool) (publisher : Option ℕ) (subs : Dict ℕ) (created_at : ℕ)
    → closed ≡ false
    → ((closed || (is_none publisher && length subs == 0))
        && leb session_grace_period (now - created_at))
      ≡ is_abandoned now publisher subs created_at
unfolding is_none
abandoned now closed none [] created_at h = ground arith
abandoned now closed none (sub ∷ subs) created_at h = ground arith
abandoned now closed (some p) subs created_at h = ground arith

is_reapable_lem :
    (now : ℕ) (s : RelaySession)
    → s.closed ≡ false
    → is_reapable now s ≡ is_abandoned now s.publisher s.subscribers s.created_at
unfolding is_reapable is_empty
is_reapable_lem now s h = abandoned now s.closed s.publisher s.subscribers s.created_at h

-- What the sweep leaves of an entry.
abbrev pub left_entry : ℕ → Server → Option ℕ → Option ℕ
left_entry now srv none = none
left_entry now srv (some j) =
    let s = srv.heap j in
    if is_abandoned now s.publisher s.subscribers s.created_at then none else some j

-- In a valid server, after the sweep, exactly the abandoned sessions are gone: an identifier leads
-- where it led before unless its session has neither publisher nor subscribers and is 30 seconds
-- old.
pub reap_stale_sessions_lem :
    (now : ℕ) (k : Key) (srv : Server)
    → IsValid srv
    → lookup k (reap_stale_sessions now srv).sessions ≡ left_entry now srv (lookup k srv.sessions)
reap_stale_sessions_lem now k srv v =
    reap_stale_sessions-lookup now k srv v ∙ told (lookup k srv.sessions) refl
  where
    told : (o : Option ℕ) → lookup k srv.sessions ≡ o → kept_entry now srv o ≡ left_entry now srv o
    told none e = refl
    told (some j) e =
        ap (λ b. if b then none else some j) (is_reapable_lem now (srv.heap j) (v.2 k j e).2)
