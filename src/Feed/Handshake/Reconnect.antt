-- ===== src/Feed/Handshake/Reconnect.antt =====
-- `reconnectLoop` of pkg/feed/subscriber.go.
use zero_feed.Base.{
  ℕ, zero, suc, ◌+◌, ◌*◌, ◌^◌, Bool, true, false, Option, none, some, List, ltb, if◌then◌else◌,
  Result, ok, err,
}
use zero_feed.Protocol.Messages.{Envelope}
use zero_feed.Crypto.Cipher.{Primitives}
use zero_feed.Crypto.Pake.{PakePrimitives, PakePeer, PakeError, Randomness, new_pake_peer}
use zero_feed.Feed.Subscriber.{SubscriberEngine, sync_request}
use zero_feed.Feed.Handshake.{HandshakeError}
use zero_feed.Feed.Handshake.Joining.{
  send_to_relay, connect_subscriber, complete_subscriber_handshake,
}

-- What happens at a retry: whether the context is done first, whether the relay is reached and the connection
-- takes frames, the randomness of the new peer, and the frames that arrive within five seconds.
pub record Attempt : Type 0 where
  pub cancelled : Bool
  pub dialed : Bool
  pub takes : Bool
  pub rand : Randomness
  pub frames : List Envelope

-- How a retry ends: no passphrase is left, or an error, or the subscriber is back.
pub data Retry : Type 0 where
  gave_up failed joined : Retry

-- The time before the next retry and the time waited so far, in nanoseconds.
pub record Reconnecting : Type 0 where
  pub backoff : ℕ
  pub waited : ℕ
  pub engine : SubscriberEngine

unfoldable pub doubled : ℕ → ℕ
doubled backoff = if ltb backoff (5 * 10 ^ 9) then backoff * 2 else backoff

unfoldable pub wait : Reconnecting → Reconnecting
unfolding doubled
wait w = record w { backoff = doubled w.backoff; waited = w.waited + w.backoff }

-- The error of the sync request is dropped.
unfoldable pub synced : Option Envelope → SubscriberEngine → SubscriberEngine
synced none s = s
synced (some env) s = (send_to_relay env s).1

unfoldable pub handshaken :
    Result HandshakeError (Unit {0}) × SubscriberEngine → Retry × SubscriberEngine
unfolding synced
handshaken (err e, s) = (failed, record s { connected = false })
handshaken (ok u, s) = (joined, synced (sync_request s) s)

module _ (pake : PakePrimitives) (prims : Primitives) where
  unfoldable pub connected_with :
      Attempt → Result HandshakeError (Unit {0}) × SubscriberEngine → Retry × SubscriberEngine
  unfolding handshaken
  connected_with a (err e, s) = (failed, s)
  connected_with a (ok u, s) =
      handshaken (complete_subscriber_handshake pake prims a.rand a.frames s)

  unfoldable pub retry_with :
      Attempt → Result PakeError PakePeer → SubscriberEngine → Retry × SubscriberEngine
  unfolding connected_with
  retry_with a (err e) s = (failed, s)
  retry_with a (ok peer) s =
      connected_with a
        (connect_subscriber pake prims a.rand a.dialed a.takes (record s { pake_peer = some peer }))

  unfoldable pub retry : Attempt → Option (List ℕ) → SubscriberEngine → Retry × SubscriberEngine
  unfolding retry_with
  retry a none s = (gave_up, s)
  retry a (some passphrase) s = retry_with a (new_pake_peer pake a.rand passphrase 2) s

  -- The loop after a retry, if `rest` is what it gives for the others.
  unfoldable pub after_retry : Retry → Reconnecting → Bool × Reconnecting → Bool × Reconnecting
  after_retry gave_up w rest = (false, w)
  after_retry failed w rest = rest
  after_retry joined w rest = (true, w)

  -- The source gives ten retries.
  unfoldable pub reconnect_loop : ℕ → (ℕ → Attempt) → Reconnecting → Bool × Reconnecting
  unfolding wait retry after_retry
  reconnect_loop zero attempts w = (false, w)
  reconnect_loop (suc retries) attempts w =
      let r = retry (attempts 0) w.engine.passphrase w.engine in
      let w' = record (wait w) { engine = r.1 } in
      let rest = reconnect_loop retries (λ i. attempts (suc i)) w' in
      if (attempts 0).cancelled then (false, w) else after_retry r.0 w' rest
