-- ===== src/Feed/Stream/Order.antt =====
-- The order in which the subscriber of pkg/feed/subscriber.go delivers, whatever frames arrive.
use zero_feed.Base.{
  ℕ, ◌+◌, ◌≤◌, ◌<◌, ◌≡◌, refl, Bool, true, false, not, Option, none, some, List, [], ◌∷◌, ◌++◌,
  length, All, leb, ltb, ◌==◌, if◌then◌else◌, Result, ok, err, arith,
}
use zero_feed.Protocol.Messages.{
  Envelope, msg_type_close, msg_type_heartbeat, msg_type_rekey, msg_type_data_stream,
}
use zero_feed.Crypto.Hkdf.{CryptoError}
use zero_feed.Crypto.Cipher.{Cipher, Primitives}
use zero_feed.Feed.Ring.{Msg, push}
use zero_feed.Feed.Subscriber.{
  SubscriberEngine, Flow, continues, finished, failed, deliver, data_opened, rekeyed, rekey_opened,
  handle_data, handle_rekey, handle_envelope, go_on, subscribe,
}

-- Each message has a greater number than those before it.
abbrev pub IsIncreasing : List Msg → Type 0
IsIncreasing [] = Unit
IsIncreasing (m ∷ ms) = All (λ n. m.seq < n.seq) ms × IsIncreasing ms

-- The delivered numbers grow, and none is above the last one.
abbrev pub IsOrdered : SubscriberEngine → Type 0
IsOrdered s = IsIncreasing s.delivered × All (λ m. m.seq ≤ s.last_seq_num) s.delivered

All-snoc : (P : Msg → Type 0) (ms : List Msg) (n : Msg) → All P ms → P n → All P (ms ++ (n ∷ []))
All-snoc P [] n h hn = (hn, tt)
All-snoc P (m ∷ ms) n h hn = (h.0, All-snoc P ms n h.1 hn)

All-later : (ms : List Msg) (a b : ℕ) → a ≤ b → All (λ m. m.seq ≤ a) ms → All (λ m. m.seq ≤ b) ms
All-later [] a b h hs = tt
All-later (m ∷ ms) a b h hs = (omega (arith, hs.0), All-later ms a b h hs.1)

IsIncreasing-snoc :
    (ms : List Msg) (n : Msg) (last : ℕ)
    → IsIncreasing ms
    → All (λ m. m.seq ≤ last) ms
    → last < n.seq
    → IsIncreasing (ms ++ (n ∷ []))
IsIncreasing-snoc [] n last i h l = (tt, tt)
IsIncreasing-snoc (m ∷ ms) n last i h l = (
  All-snoc (λ k. m.seq < k.seq) ms n i.0 (omega (arith, h.0)),
  IsIncreasing-snoc ms n last i.1 h.1 l,
)

deliver-IsOrdered :
    (pooled : List ℕ) (seq : ℕ) (plaintext : List ℕ) (s : SubscriberEngine)
    → IsOrdered s
    → IsOrdered (deliver pooled seq plaintext s)
unfolding deliver
deliver-IsOrdered pooled seq plaintext s (i, h) = cases (leb seq s.last_seq_num) refl
  where
    item : Msg
    item = record { seq = seq; bytes = plaintext }

    cases :
        (b : Bool)
        → leb seq s.last_seq_num ≡ b
        → IsOrdered (
            if b then s else record s {
              last_seq_num = seq;
              ring_buffer = (push pooled s.ring_buffer seq plaintext).0;
              delivered = s.delivered ++ (item ∷ []);
            })
    cases true e = (i, h)
    cases false e =
        let new : s.last_seq_num < seq = ground arith in
        (
          IsIncreasing-snoc s.delivered item s.last_seq_num i h new,
          All-snoc (λ m. m.seq ≤ seq) s.delivered item
              (All-later s.delivered s.last_seq_num seq (omega arith) h) (omega arith),
        )

module _ (prims : Primitives) where
  data_opened-IsOrdered :
      (pooled : List ℕ) (seq : ℕ) (r : Result CryptoError (List ℕ)) (s : SubscriberEngine)
      → IsOrdered s
      → IsOrdered (data_opened pooled seq r s).1
  unfolding data_opened
  data_opened-IsOrdered pooled seq (err e) s h = h
  data_opened-IsOrdered pooled seq (ok plaintext) s h = deliver-IsOrdered pooled seq _ s h

  handle_data-IsOrdered :
      (pooled : List ℕ) (env : Envelope) (o : Option Cipher) (s : SubscriberEngine)
      → IsOrdered s
      → IsOrdered (handle_data prims pooled env o s).1
  unfolding handle_data
  handle_data-IsOrdered pooled env none s h = h
  handle_data-IsOrdered pooled env (some c) s h = data_opened-IsOrdered pooled _ _ s h

  rekeyed-IsOrdered :
      (c : Cipher) (salt : List ℕ) (o : Option (List ℕ)) (s : SubscriberEngine)
      → IsOrdered s
      → IsOrdered (rekeyed prims c salt o s)
  unfolding rekeyed
  rekeyed-IsOrdered c salt none s h = h
  rekeyed-IsOrdered c salt (some key) s h = h

  rekey_opened-IsOrdered :
      (c : Cipher) (r : Result CryptoError (List ℕ)) (s : SubscriberEngine)
      → IsOrdered s
      → IsOrdered (rekey_opened prims c r s).1
  unfolding rekey_opened
  rekey_opened-IsOrdered c (err e) s h = h
  rekey_opened-IsOrdered c (ok salt) s h = rekeyed-IsOrdered c salt c.key s h

  handle_rekey-IsOrdered :
      (env : Envelope) (o : Option Cipher) (s : SubscriberEngine)
      → IsOrdered s
      → IsOrdered (handle_rekey prims env o s).1
  unfolding handle_rekey
  handle_rekey-IsOrdered env none s h = h
  handle_rekey-IsOrdered env (some c) s h = rekey_opened-IsOrdered c _ s h

  if-IsOrdered :
      (b : Bool) (x y : Flow × SubscriberEngine)
      → IsOrdered x.1
      → IsOrdered y.1
      → IsOrdered (if b then x else y).1
  if-IsOrdered true x y hx hy = hx
  if-IsOrdered false x y hx hy = hy

  handle_envelope-IsOrdered :
      (pooled : List ℕ) (env : Envelope) (s : SubscriberEngine)
      → IsOrdered s
      → IsOrdered (handle_envelope prims pooled env s).1
  unfolding handle_envelope
  handle_envelope-IsOrdered pooled env s h = if-IsOrdered (env.msg_type == msg_type_close) _ _ h (
      if-IsOrdered (env.msg_type == msg_type_heartbeat) _ _ h (
        if-IsOrdered (env.msg_type == msg_type_rekey) _ _
          (if-IsOrdered (ltb (length env.payload) 8) _ _ h
            (handle_rekey-IsOrdered env s.cipher s h))
          (if-IsOrdered (not (env.msg_type == msg_type_data_stream)) _ _ h (
            if-IsOrdered (ltb (length env.payload) 8) _ _ h
              (handle_data-IsOrdered pooled env s.cipher s h)))))

  go_on-IsOrdered :
      (flow : Flow) (s : SubscriberEngine) (rest : Flow × SubscriberEngine)
      → IsOrdered s
      → IsOrdered rest.1
      → IsOrdered (go_on flow s rest).1
  unfolding go_on
  go_on-IsOrdered continues s rest h hr = hr
  go_on-IsOrdered finished s rest h hr = h
  go_on-IsOrdered (failed e) s rest h hr = h

  -- Whatever frames arrive, a subscriber whose delivered sequence numbers grow and are not above
  -- its last one stays so: no number is delivered twice, and none after a greater one.
  pub subscribe-IsOrdered :
      (pooled : ℕ → List ℕ) (envs : List Envelope) (s : SubscriberEngine)
      → IsOrdered s
      → IsOrdered (subscribe prims pooled envs s).1
  unfolding subscribe
  subscribe-IsOrdered pooled [] s h = h
  subscribe-IsOrdered pooled (env ∷ envs) s h =
      let (flow, s') = handle_envelope prims (pooled 0) env s in
      let h' = handle_envelope-IsOrdered (pooled 0) env s h in
      go_on-IsOrdered flow s' _ h' (subscribe-IsOrdered (λ i. pooled (i + 1)) envs s' h')
