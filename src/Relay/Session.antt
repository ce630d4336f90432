-- ===== src/Relay/Session.antt =====
-- pkg/relay/session.go: the connections of a session and the frames that pass between them.
-- Connections and sessions are shared between goroutines: they are references into a store.
pub mod Forward
use zero_feed.Base.{
  ℕ, ◌+◌, ◌*◌, ◌^◌, ◌-◌, Bool, true, false, not, ◌&&◌, ◌||◌, Option, none, some, List, [], ◌∷◌,
  ◌++◌, length, ltb, leb, ◌==◌, if◌then◌else◌, Key, Dict, lookup, insert, delete, Result, ok, err,
}
use zero_feed.Protocol.Messages.{Envelope}

abbrev pub subscriber_queue_size : ℕ
subscriber_queue_size = 200

abbrev pub high_watermark : ℕ
high_watermark = 160

abbrev pub low_watermark : ℕ
low_watermark = 80

-- `queue` is the buffered channel, `sent` what was written to the socket, `done` the closed channel
-- `done`; `net_open` tells whether the socket still takes frames.
pub record ClientConn : Type 0 where
  pub role : ℕ
  pub initial_env : Option Envelope
  pub queue : List Envelope
  pub sent : List Envelope
  pub done : Bool
  pub net_open : Bool

unfoldable pub new_client_conn : ℕ → Envelope → ClientConn
new_client_conn role env = record {
  role = role;
  initial_env = some env;
  queue = [];
  sent = [];
  done = false;
  net_open = true;
}

-- What stands under a number that was not handed out.
abbrev pub no_conn : ClientConn
no_conn = record {
  role = 0;
  initial_env = none;
  queue = [];
  sent = [];
  done = true;
  net_open = false;
}

unfoldable pub queue_len : ClientConn → ℕ
queue_len c = if not (c.role == 2) then 0 else length c.queue

unfoldable pub is_high_watermark : ClientConn → Bool
unfolding queue_len
is_high_watermark c = leb high_watermark (queue_len c)

unfoldable pub is_low_watermark : ClientConn → Bool
unfolding queue_len
is_low_watermark c = leb (queue_len c) low_watermark

pub data SendError : Type 0 where
  subscriber_closed queue_full write_failed : SendError

-- One round of `writeLoop`: the oldest queued frame is written; a failed write closes.
unfoldable pub write_round : ClientConn → List Envelope → ClientConn
write_round c [] = c
write_round c (env ∷ rest) =
    if c.net_open
    then record c { queue = rest; sent = c.sent ++ (env ∷ []) }
    else if c.done
    then record c { queue = rest }
    else record c { queue = rest; done = true }

-- The socket of a subscriber is closed 20 ms later, by a step of its own.
unfoldable pub close_conn : ClientConn → ClientConn
close_conn c =
    if c.done
    then c
    else if c.role == 2
    then record c { done = true }
    else record c { done = true; net_open = false }

-- What ends the wait of `SendFrameWithTimeout` at a full queue: the writer takes a frame, the connection
-- is closed, or the timer fires.
pub data Wait : Type 0 where
  drains closes expires : Wait

abbrev prefers_done : Wait → Bool
prefers_done drains = false
prefers_done closes = true
prefers_done expires = false

abbrev enqueue : Envelope → ClientConn → ClientConn
enqueue env c = record c { queue = c.queue ++ (env ∷ []) }

-- The frame is queued as soon as the writer has taken one from the full queue.
unfoldable pub waited : Wait → Envelope → ClientConn → Result SendError (Unit {0}) × ClientConn
unfolding write_round close_conn
waited drains env c = (ok tt, enqueue env (write_round c c.queue))
waited closes env c = (err subscriber_closed, close_conn c)
waited expires env c = (err queue_full, c)

-- `SendFrameWithTimeout` with a timeout above 0. A subscriber's frame is queued if there is room; if
-- the connection is closed too, `select` may take either case. With no room it waits, unless the
-- connection is closed already. Any other role writes to its socket.
unfoldable pub send_frame : Wait → ClientConn → Envelope → Result SendError (Unit {0}) × ClientConn
unfolding waited
send_frame w c env =
    if c.role == 2
    then if leb subscriber_queue_size (length c.queue)
      then if c.done then (err subscriber_closed, c) else waited w env c
      else if c.done && prefers_done w
      then (err subscriber_closed, c)
      else (ok tt, enqueue env c)
    else if c.net_open
    then (ok tt, record c { sent = c.sent ++ (env ∷ []) })
    else (err write_failed, c)

-- The store of connections, and the numbers of subscribers handed out.
pub record Conns : Type 0 where
  pub cells : ℕ → ClientConn
  pub next : ℕ

unfoldable pub set_cell : Conns → ℕ → ClientConn → Conns
set_cell cs i c = record cs { cells = λ j. if j == i then c else cs.cells j }

unfoldable pub alloc : Conns → ClientConn → Conns
alloc cs c = record { cells = λ j. if j == cs.next then c else cs.cells j; next = cs.next + 1 }

pub record RelaySession : Type 0 where
  pub session_id : Key
  pub publisher : Option ℕ
  pub subscribers : Dict ℕ
  pub created_at : ℕ
  pub closed : Bool

abbrev pub session_grace_period : ℕ
session_grace_period = 30 * 10 ^ 9

unfoldable pub new_relay_session : ℕ → Key → RelaySession
new_relay_session now session_id = record {
  session_id = session_id;
  publisher = none;
  subscribers = [];
  created_at = now;
  closed = false;
}

unfoldable pub is_none : Option ℕ → Bool
is_none none = true
is_none (some p) = false

-- A registered publisher always has a socket.
unfoldable pub is_empty : RelaySession → Bool
unfolding is_none
is_empty s = s.closed || (is_none s.publisher && length s.subscribers == 0)

unfoldable pub is_reapable : ℕ → RelaySession → Bool
unfolding is_empty
is_reapable now s = is_empty s && leb session_grace_period (now - s.created_at)

-- The new publisher, or none if a live one is there.
unfoldable pub take_publisher : Envelope → Conns → RelaySession → Conns × RelaySession × Option ℕ
take_publisher env cs s =
    (alloc cs (new_client_conn 1 env), record s { publisher = some cs.next }, some cs.next)

unfoldable pub replace_publisher :
    Option ℕ → Envelope → Conns → RelaySession → Conns × RelaySession × Option ℕ
unfolding take_publisher
replace_publisher none env cs s = take_publisher env cs s
replace_publisher (some p) env cs s =
    if not (cs.cells p).done
    then (cs, s, none)
    else take_publisher env (set_cell cs p (close_conn (cs.cells p)))
        (record s { publisher = none })

unfoldable pub register_publisher :
    Envelope → Conns → RelaySession → Conns × RelaySession × Option ℕ
unfolding replace_publisher take_publisher
register_publisher env cs s = replace_publisher s.publisher env cs s

-- `key` is the text of the address, `#` and the next number.
unfoldable pub register_subscriber :
    Key → Envelope → Conns → RelaySession → Conns × RelaySession × ℕ
register_subscriber key env cs s = (
  alloc cs (new_client_conn 2 env),
  record s { subscribers = insert key cs.next s.subscribers },
  cs.next,
)

close_found : Option ℕ → Conns → Conns
close_found none cs = cs
close_found (some i) cs = set_cell cs i (close_conn (cs.cells i))

unfoldable pub remove_subscriber : Key → Conns → RelaySession → Conns × RelaySession
unfolding close_found
remove_subscriber key cs s =
    (close_found (lookup key s.subscribers) cs, record s { subscribers = delete key s.subscribers })

-- The frame goes to each subscriber in turn; the keys of those that failed are removed by goroutines
-- of their own, and a queue at the high watermark makes the publisher wait for a drain.
pub record Broadcast : Type 0 where
  pub conns : Conns
  pub failed : List Key
  pub pause : Bool

unfoldable pub send_one : (ℕ → Wait) → Envelope → Key → ℕ → Conns → Broadcast
unfolding send_frame
send_one waits env key i cs =
    let (result, c) = send_frame (waits i) (cs.cells i) env in
    elim result [
      | ok _ ↦ record { conns = set_cell cs i c; failed = []; pause = is_high_watermark c }
      | err _ ↦ record { conns = set_cell cs i c; failed = key ∷ []; pause = false }
    ]

unfoldable pub broadcast : (ℕ → Wait) → Envelope → Dict ℕ → Conns → Broadcast
unfolding send_one
broadcast waits env [] cs = record { conns = cs; failed = []; pause = false }
broadcast waits env ((key, i) ∷ subs) cs =
    let first = send_one waits env key i cs in
    let rest = broadcast waits env subs first.conns in
    record {
      conns = rest.conns;
      failed = first.failed ++ rest.failed;
      pause = first.pause || rest.pause;
    }

unfoldable pub forward_from_publisher : (ℕ → Wait) → Envelope → Conns → RelaySession → Broadcast
unfolding broadcast
forward_from_publisher waits env cs s = broadcast waits env s.subscribers cs

unfoldable pub send_to : Option ℕ → Envelope → Conns → Conns
unfolding send_frame
send_to none env cs = cs
send_to (some p) env cs = set_cell cs p (send_frame expires (cs.cells p) env).1

-- The error of a missing publisher is dropped by every caller.
unfoldable pub forward_to_publisher : Envelope → Conns → RelaySession → Conns
unfolding send_to
forward_to_publisher env cs s = send_to s.publisher env cs

close_all_conns : Dict ℕ → Conns → Conns
close_all_conns [] cs = cs
close_all_conns ((key, i) ∷ subs) cs =
    close_all_conns subs (set_cell cs i (close_conn (cs.cells i)))

unfoldable pub close_session : Conns → RelaySession → Conns × RelaySession
unfolding close_all_conns close_found
close_session cs s = if s.closed then (cs, s) else (
  close_all_conns s.subscribers (close_found s.publisher cs),
  record s { closed = true; publisher = none; subscribers = [] },
)
