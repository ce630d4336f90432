-- ===== src/Feed/Stream/Rounds.antt =====
-- The loop of `SubscribeStream` of pkg/feed/subscriber.go over its connections: the frames of one,
-- the reconnection after a frame that cannot be decoded, and the ways in which the loop ends. The
-- goroutine that closes the subscriber when the context is done is left out.
use zero_feed.Base.{
  ℕ, suc, ◌+◌, ◌*◌, ◌^◌, ◌≤◌, ◌<◌, sym, Bool, true, false, List, [], ◌∷◌, length, if◌then◌else◌,
  if_elim, arith,
}
use mathlib.Core.Path.{subst}
use zero_feed.Protocol.Messages.{Envelope}
use zero_feed.Crypto.Hkdf.{CryptoError}
use zero_feed.Crypto.Cipher.{Primitives}
use zero_feed.Crypto.Pake.{PakePrimitives}
use zero_feed.Feed.Subscriber.{Flow, continues, finished, failed, subscribe}
use zero_feed.Feed.Handshake.Reconnect.{Attempt, Reconnecting, reconnect_loop}
use zero_feed.Feed.Handshake.Retries.{Kept, reconnect_loop-bounded}
use zero_feed.Feed.Stream.Order.{IsIncreasing, IsOrdered, subscribe-IsOrdered}
use zero_feed.Base.{All}

-- What a connection brings: the frames that are decoded, the buffers that the ring gets for them, whether
-- the context is done at their end, and what happens at the retries before and after.
pub record Round : Type 0 where
  pub frames : List Envelope
  pub pooled : ℕ → List ℕ
  pub cancelled : Bool
  pub attempts_before : ℕ → Attempt
  pub attempts_after : ℕ → Attempt

-- The loop waits for the next connection, or has returned: nil, or the error of the context, of a
-- cipher, or of a reconnection that failed.
pub data Ending : Type 0 where
  waits returned context_done not_reconnected : Ending
  rejected : CryptoError → Ending

-- A frame that was decoded sets the backoff back.
unfoldable pub reset_backoff : List Envelope → ℕ → ℕ
reset_backoff [] backoff = backoff
reset_backoff (env ∷ envs) backoff = 10 ^ 8

module _ (pake : PakePrimitives) (prims : Primitives) where
  -- A reconnection, and what follows if it succeeds.
  unfoldable pub resumed :
      Bool × Reconnecting → (Reconnecting → Ending × Reconnecting) → Ending × Reconnecting
  resumed (false, w) go = (not_reconnected, w)
  resumed (true, w) go = go w

  -- After the last frame that could be decoded.
  unfoldable pub after_frames :
      Round → Flow → Reconnecting → (Reconnecting → Ending × Reconnecting) → Ending × Reconnecting
  unfolding resumed
  after_frames r finished w go = (returned, w)
  after_frames r (failed e) w go = (rejected e, w)
  after_frames r continues w go =
      if r.cancelled
      then (context_done, w)
      else if w.engine.closed
      then (returned, w)
      else resumed (reconnect_loop pake prims 10 r.attempts_after w) go

  unfoldable pub read_frames :
      Round → (Reconnecting → Ending × Reconnecting) → Reconnecting → Ending × Reconnecting
  unfolding after_frames reset_backoff
  read_frames r go w =
      let read = subscribe prims r.pooled r.frames w.engine in
      after_frames r read.0
        (record w { backoff = reset_backoff r.frames w.backoff; engine = read.1 }) go

  -- Without a connection the loop reconnects first, unless the subscriber is closed.
  unfoldable pub subscribe_stream : List Round → Reconnecting → Ending × Reconnecting
  unfolding read_frames
  subscribe_stream [] w = (waits, w)
  subscribe_stream (r ∷ rounds) w =
      let go = read_frames r (subscribe_stream rounds) in
      if w.engine.connected
      then go w
      else if w.engine.closed
      then (returned, w)
      else resumed (reconnect_loop pake prims 10 r.attempts_before w) go

  -- The subscriber's numbers are ordered, and the time is bounded.
  abbrev pub IsSound : ℕ → Reconnecting → Type 0
  IsSound time w = IsOrdered w.engine × (w.backoff < 10 ^ 10) × (w.waited ≤ time)

  IsSound-later : (a b : ℕ) (w : Reconnecting) → a ≤ b → IsSound a w → IsSound b w
  IsSound-later a b w l (o, s, t) = (o, s, omega arith)

  abbrev Ordered : Kept → Type 0
  Ordered k = IsIncreasing k.4 × All (λ m. m.seq ≤ k.3) k.4

  reconnect_loop-IsSound :
      (attempts : ℕ → Attempt) (w : Reconnecting) (time : ℕ)
      → IsSound time w
      → IsSound (time + 10 * 10 ^ 10) (reconnect_loop pake prims 10 attempts w).1
  reconnect_loop-IsSound attempts w time (o, b, t) =
      let (k, b', t') = reconnect_loop-bounded pake prims 10 attempts w b in
      (subst Ordered (sym k) o, b', omega arith)

  resumed_by :
      (r : Bool × Reconnecting) (go : Reconnecting → Ending × Reconnecting) (time : ℕ)
      → IsSound time r.1
      → IsSound time (go r.1).1
      → IsSound time (resumed r go).1
  unfolding resumed
  resumed_by (false, w) go time h k = h
  resumed_by (true, w) go time h k = k

  after_frames-IsSound :
      (r : Round) (flow : Flow) (w : Reconnecting) (go : Reconnecting → Ending × Reconnecting)
      (time more : ℕ)
      → IsSound time w
      → ((w' : Reconnecting)
          → IsSound (time + 10 * 10 ^ 10) w'
          → IsSound (time + 10 * 10 ^ 10 + more) (go w').1)
      → IsSound (time + 10 * 10 ^ 10 + more) (after_frames r flow w go).1
  unfolding after_frames
  after_frames-IsSound r finished w go time more h k = IsSound-later time _ w (omega arith) h
  after_frames-IsSound r (failed e) w go time more h k = IsSound-later time _ w (omega arith) h
  after_frames-IsSound r continues w go time more h k =
      let late = IsSound-later time (time + 10 * 10 ^ 10 + more) w (omega arith) h in
      let P = λ (p : Ending × Reconnecting). IsSound (time + 10 * 10 ^ 10 + more) p.1 in
      if_elim P r.cancelled (context_done, w) _ late
        (if_elim P w.engine.closed (returned, w) _ late
          (let p = reconnect_loop pake prims 10 r.attempts_after w in
            let s = reconnect_loop-IsSound r.attempts_after w time h in
            resumed_by p go (time + 10 * 10 ^ 10 + more) (IsSound-later _ _ p.1 (omega arith) s)
              (k p.1 s)))

  reset_backoff-lt :
      (envs : List Envelope) (backoff : ℕ)
      → backoff < 10 ^ 10
      → reset_backoff envs backoff < 10 ^ 10
  unfolding reset_backoff
  reset_backoff-lt [] backoff h = h
  reset_backoff-lt (env ∷ envs) backoff h = omega arith

  read_frames-IsSound :
      (r : Round) (go : Reconnecting → Ending × Reconnecting) (w : Reconnecting) (time more : ℕ)
      → IsSound time w
      → ((w' : Reconnecting)
          → IsSound (time + 10 * 10 ^ 10) w'
          → IsSound (time + 10 * 10 ^ 10 + more) (go w').1)
      → IsSound (time + 10 * 10 ^ 10 + more) (read_frames r go w).1
  unfolding read_frames
  read_frames-IsSound r go w time more (o, b, t) k =
      after_frames-IsSound r _ _ go time more
        (
          subscribe-IsOrdered prims r.pooled r.frames w.engine o,
          reset_backoff-lt r.frames w.backoff b,
          t,
        )
        k

  -- A subscriber whose delivered sequence numbers grow and are not above its last one stays such
  -- through SubscribeStream, whatever frames its connections bring, whichever of them end or are
  -- reconnected, and whatever happens at the retries: over all connections no number is delivered
  -- twice or after a greater one. From a backoff below ten seconds the backoff stays below it, and
  -- the loop waits no more than 200 seconds for each connection.
  pub subscribe_stream-IsSound :
      (rounds : List Round) (w : Reconnecting) (time : ℕ)
      → IsOrdered w.engine
      → w.backoff < 10 ^ 10
      → w.waited ≤ time
      → let w' = (subscribe_stream rounds w).1 in
        IsOrdered w'.engine
        × (w'.backoff < 10 ^ 10)
        × (w'.waited ≤ time + length rounds * (20 * 10 ^ 10))
  unfolding subscribe_stream
  subscribe_stream-IsSound [] w time o b t = (o, b, omega arith)
  subscribe_stream-IsSound (r ∷ rounds) w time o b t =
      let more = length rounds * (20 * 10 ^ 10) in
      let go = read_frames r (subscribe_stream rounds) in
      let whole = time + suc (length rounds) * (20 * 10 ^ 10) in
      let reads : (start : ℕ) (v : Reconnecting)
          → start ≤ time + 10 * 10 ^ 10
          → IsSound start v
          → IsSound whole (go v).1 =
        λ start v l h. IsSound-later (start + 10 * 10 ^ 10 + more) whole (go v).1 (omega arith) (
          read_frames-IsSound r (subscribe_stream rounds) v start more h
            (λ u k. subscribe_stream-IsSound rounds u (start + 10 * 10 ^ 10) k.0 k.1 k.2)) in
      let P = λ (p : Ending × Reconnecting). IsSound whole p.1 in
      if_elim P w.engine.connected (go w) _ (reads time w (omega arith) (o, b, t)) (
        if_elim P w.engine.closed (returned, w) _ (o, b, omega arith)
          (let p = reconnect_loop pake prims 10 r.attempts_before w in
            let s = reconnect_loop-IsSound r.attempts_before w time (o, b, t) in
            resumed_by p go whole (IsSound-later _ _ p.1 (omega arith) s)
              (reads (time + 10 * 10 ^ 10) p.1 (omega arith) s)))
