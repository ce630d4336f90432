-- ===== src/Relay/Server/Limit.antt =====
-- The limit on the active connections in pkg/relay/server.go. The accept loop of `Start` and every
-- handler of the WebSocket server test the counter and then raise it, in two atomic steps.
use zero_feed.Base.{
  ℕ, zero, suc, ◌+◌, ◌-◌, ◌≤◌, ◌<◌, ◌≡◌, refl, List, [], ◌∷◌, leb, if◌then◌else◌, arith,
}

abbrev pub max_active_connections : ℕ
max_active_connections = 10000

-- `tested` goroutines have passed the test and not yet raised the counters, `handled` ones run
-- handleConnection, and `closed` connections were turned away.
pub record Listening : Type 0 where
  pub active_conns : ℕ
  pub active_connections : ℕ
  pub tested : ℕ
  pub handled : ℕ
  pub closed : ℕ

abbrev pub new_listening : Listening
new_listening = record {
  active_conns = 0;
  active_connections = 0;
  tested = 0;
  handled = 0;
  closed = 0;
}

unfoldable pub accept : Listening → Listening
accept l =
    if leb max_active_connections l.active_conns
    then record l { closed = suc l.closed }
    else record l { tested = suc l.tested }

unfoldable pub count_up : ℕ → Listening → Listening
count_up zero l = l
count_up (suc n) l = record l {
  active_conns = suc l.active_conns;
  active_connections = suc l.active_connections;
  tested = n;
  handled = suc l.handled;
}

-- The deferred calls.
unfoldable pub count_down : ℕ → Listening → Listening
count_down zero l = l
count_down (suc n) l = record l {
  active_conns = l.active_conns - 1;
  active_connections = l.active_connections - 1;
  handled = n;
}

-- A step of some goroutine: its test, its counting, or its end.
pub data Event : Type 0 where
  accepted counted finished : Event

unfoldable pub happen : Event → Listening → Listening
unfolding accept count_up count_down
happen accepted l = accept l
happen counted l = count_up l.tested l
happen finished l = count_down l.handled l

unfoldable pub happen_all : List Event → Listening → Listening
unfolding happen
happen_all [] l = l
happen_all (e ∷ events) l = happen_all events (happen e l)

-- At most `k` goroutines stand between their test and their counting: with the accept loop alone,
-- one.
abbrev pub IsWithin : ℕ → List Event → Listening → Type 0
IsWithin k [] l = l.tested ≤ k
IsWithin k (e ∷ events) l = (l.tested ≤ k) × IsWithin k events (happen e l)

pub record IsCounted (k : ℕ) (l : Listening) : Type 0 where
  pub counts : l.active_conns ≡ l.handled
  pub gauges : l.active_connections ≡ l.handled
  pub limited : l.active_conns + l.tested < max_active_connections + k

count_up-IsCounted :
    (k n : ℕ) (l : Listening) → l.tested ≡ n → IsCounted k l → IsCounted k (count_up n l)
unfolding count_up
count_up-IsCounted k zero l e h = h
count_up-IsCounted k (suc n) l e h = omega arith

count_down-IsCounted :
    (k n : ℕ) (l : Listening) → l.handled ≡ n → IsCounted k l → IsCounted k (count_down n l)
unfolding count_down
count_down-IsCounted k zero l e h = h
count_down-IsCounted k (suc n) l e h = omega arith

accept-IsCounted :
    (k : ℕ) (l : Listening) → (accept l).tested ≤ k → IsCounted k l → IsCounted k (accept l)
unfolding accept
accept-IsCounted k l w h = ground arith

happen-IsCounted :
    (k : ℕ) (e : Event) (l : Listening)
    → (happen e l).tested ≤ k
    → IsCounted k l
    → IsCounted k (happen e l)
unfolding happen
happen-IsCounted k accepted l w h = accept-IsCounted k l w h
happen-IsCounted k counted l w h = count_up-IsCounted k l.tested l refl h
happen-IsCounted k finished l w h = count_down-IsCounted k l.handled l refl h

IsWithin-now : (k : ℕ) (events : List Event) (l : Listening) → IsWithin k events l → l.tested ≤ k
IsWithin-now k [] l w = w
IsWithin-now k (e ∷ events) l w = w.0

after_all-IsCounted :
    (k : ℕ) (events : List Event) (l : Listening)
    → IsWithin k events l
    → IsCounted k l
    → IsCounted k (happen_all events l)
unfolding happen_all
after_all-IsCounted k [] l w h = h
after_all-IsCounted k (e ∷ events) l w h =
    after_all-IsCounted k events (happen e l) w.1
      (happen-IsCounted k e l (IsWithin-now k events (happen e l) w.1) h)

-- In any order of the steps of the accept loop and the handlers: the count of active connections
-- and its gauge are the number of connections that are being handled, and if never more than k
-- goroutines stand between their test of the limit and their counting, fewer than 10000 + k
-- connections are active or about to be. The accept loop alone is one such goroutine and keeps the
-- limit.
pub happen_all-IsCounted :
    (k : ℕ) (events : List Event)
    → IsWithin k events new_listening
    → IsCounted k (happen_all events new_listening)
happen_all-IsCounted k events w = after_all-IsCounted k events new_listening w (omega arith)
