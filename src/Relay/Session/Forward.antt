-- ===== src/Relay/Session/Forward.antt =====
-- Whom a frame of the publisher reaches in pkg/relay/session.go.
use zero_feed.Base.{
  ℕ, ◌≡◌, Bool, true, false, ◌||◌, [], ◌∷◌, ◌++◌, length, take, drop, not, ltb, if◌then◌else◌, ◌==◌,
  Dict,
}
use zero_feed.Protocol.Messages.{Envelope}
use zero_feed.Relay.Session.{
  ClientConn, Wait, drains, closes, expires, write_round, close_conn, write_round, close_conn,
}

-- A reference is among the subscribers.
abbrev pub has_ref : ℕ → Dict ℕ → Bool
has_ref j [] = false
has_ref j ((key, i) ∷ subs) = j == i || has_ref j subs

-- No reference stands twice.
abbrev pub HasDistinctRefs : Dict ℕ → Type 0
HasDistinctRefs [] = Unit
HasDistinctRefs ((key, i) ∷ subs) = (has_ref i subs ≡ false) × HasDistinctRefs subs

-- A subscriber after a frame for it, if its queue has room, and if it has none.
abbrev pub with_room : Wait → Envelope → ClientConn → ClientConn
with_room closes env c = if c.done then c else record c { queue = c.queue ++ (env ∷ []) }
with_room drains env c = record c { queue = c.queue ++ (env ∷ []) }
with_room expires env c = record c { queue = c.queue ++ (env ∷ []) }

abbrev pub with_none : Wait → Envelope → ClientConn → ClientConn
with_none drains env c = record c {
  queue = drop 1 c.queue ++ (env ∷ []);
  sent = if c.net_open then c.sent ++ take 1 c.queue else c.sent;
  done = not c.net_open;
}
with_none closes env c = record c { done = true }
with_none expires env c = c

abbrev pub reached : Wait → Envelope → ClientConn → ClientConn
reached w env c =
    if ltb (length c.queue) 200 then with_room w env c else if c.done then c else with_none w env c
