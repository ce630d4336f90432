-- ===== src/Feed/Stream/Resync.antt =====
-- What a subscriber of pkg/feed gets for its sync request.
use zero_feed.Base.{
  ℕ, ◌+◌, ◌^◌, ◌<◌, ◌≡◌, ◌≢◌, refl, ap, sym, ◌∙◌, false, true, some, List, [], ◌∷◌, ◌++◌,
  append-nil, append_assoc, length, take, All, leb, ltb, Bool, if◌then◌else◌, if_elim, get_be,
  put_be, get_be-put_be, length-put_be, take_all, ℤ, arith,
}
use mathlib.Core.Path.{subst}
use zero_feed.Protocol.Messages.{Envelope, msg_type_data_stream}
use zero_feed.Protocol.Padding.{pad_payload, default_padding_target_size}
use zero_feed.Protocol.Padding.Laws.{length-pad_payload}
use zero_feed.Crypto.Cipher.{Primitives, IsLawful}
use zero_feed.Feed.Ring.{Msg, new_ring_buffer, get_after, is_overflow}
use zero_feed.Feed.Ring.Replay.{pushes, pushed, after, IsIncreasing, get_after_complete}
use zero_feed.Feed.Publisher.{
  PublisherEngine, send_result, replay_each, replay_with, replay_sync, handle_sync_req,
}
use zero_feed.Feed.Subscriber.{SubscriberEngine, continues, deliver, subscribe, sync_request}
use zero_feed.Feed.Stream.Frames.{
  of_key, frame, encrypted_frame_lem, length-frame, handle_envelope-data,
}
use zero_feed.Feed.Stream.Follow.{
  IsReady, contents, contents-append, FitsFrame, send_synced, subscribe_next,
}

-- A message can be sent again.
abbrev pub IsSendable : Msg → Type 0
IsSendable m = FitsFrame m.bytes × (m.seq < 2 ^ 64)

abbrev IsAfter : ℕ → Msg → Type 0
IsAfter last m = last < m.seq

after-All : (P : Msg → Type 0) (last : ℕ) (ms : List Msg) → All P ms → All P (after last ms)
after-All P last [] h = tt
after-All P last (m ∷ ms) h =
    let rest = after-All P last ms h.1 in
    if_elim (All P) (ltb last m.seq) (m ∷ after last ms) (after last ms) (h.0, rest) rest

after-IsAfter : (last : ℕ) (ms : List Msg) → All (IsAfter last) (after last ms)
after-IsAfter last [] = tt
after-IsAfter last (m ∷ ms) = ground (arith, after-IsAfter last ms)

after-IsIncreasing : (last : ℕ) (ms : List Msg) → IsIncreasing ms → IsIncreasing (after last ms)
after-IsIncreasing last [] h = tt
after-IsIncreasing last (m ∷ ms) h =
    let rest = after-IsIncreasing last ms h.1 in
    if_elim IsIncreasing (ltb last m.seq) (m ∷ after last ms) (after last ms)
      (after-All (IsAfter m.seq) last ms h.0, rest) rest

module _ (prims : Primitives) (lawful : IsLawful prims) (key : List ℕ) where
  abbrev data_frame : List ℕ → Msg → Envelope
  data_frame sid m =
      frame prims lawful msg_type_data_stream sid key m.seq
        (pad_payload m.bytes default_padding_target_size)

  abbrev data_frames : List ℕ → List Msg → List Envelope
  data_frames sid [] = []
  data_frames sid (m ∷ ms) = data_frame sid m ∷ data_frames sid ms

  replay_each_lem :
      (items : List Msg) (p : PublisherEngine)
      → IsReady key p
      → All IsSendable items
      → replay_each prims (of_key key) items p
        ≡ record p { sent = p.sent ++ data_frames p.session_id items }
  unfolding replay_each send_result
  replay_each_lem [] p y h = ap (λ l. record p { sent = l }) (sym (append-nil p.sent))
  replay_each_lem (m ∷ ms) p y h =
      let plaintext = pad_payload m.bytes default_padding_target_size in
      let env = data_frame p.session_id m in
      let q : PublisherEngine = record p { sent = p.sent ++ (env ∷ []) } in
      ap (λ r. replay_each prims (of_key key) ms (send_result prims r p).1)
        (encrypted_frame_lem prims lawful msg_type_data_stream p.session_id key m.seq plaintext
          y.id_sized)
      ∙ ap (λ r. replay_each prims (of_key key) ms r.1)
          (send_synced prims lawful env p y.is_connected y.is_writable (
            omega (
              arith,
              h.0.0,
              length-frame prims lawful msg_type_data_stream p.session_id key m.seq plaintext
                  y.id_sized,
              length-pad_payload m.bytes default_padding_target_size,
            )))
      ∙ replay_each_lem ms q
          (record {
            publishes = y.publishes;
            key_sized = y.key_sized;
            id_sized = y.id_sized;
            is_connected = y.is_connected;
            is_writable = y.is_writable;
          })
          h.1
      ∙ ap (λ l. record p { sent = l })
          (append_assoc p.sent (env ∷ []) (data_frames p.session_id ms))

  deliver_next :
      (pooled : List ℕ) (m : Msg) (s : SubscriberEngine)
      → s.last_seq_num < m.seq
      → let s' = deliver pooled m.seq m.bytes s in
        (contents s'.delivered ≡ contents s.delivered ++ (m.bytes ∷ []))
        × (s'.cipher ≡ s.cipher)
        × (s'.last_seq_num ≡ m.seq)
  unfolding deliver
  deliver_next pooled m s h =
      let new : leb m.seq s.last_seq_num ≡ false = ground arith in
      (rw new (contents-append s.delivered (m ∷ [])), rw new, rw new)

  subscribe-data_frames :
      (sid : List ℕ) (items : List Msg) (pooled : ℕ → List ℕ) (s : SubscriberEngine)
      → length sid ≡ 16
      → s.cipher ≡ some (of_key key)
      → All IsSendable items
      → All (IsAfter s.last_seq_num) items
      → IsIncreasing items
      → ((subscribe prims pooled (data_frames sid items) s).0 ≡ continues)
        × (contents (subscribe prims pooled (data_frames sid items) s).1.delivered
            ≡ contents s.delivered ++ contents items)
  unfolding subscribe
  subscribe-data_frames sid [] pooled s n hc h later inc =
      (refl, sym (append-nil (contents s.delivered)))
  subscribe-data_frames sid (m ∷ ms) pooled s n hc h later inc =
      let s' = deliver (pooled 0) m.seq m.bytes s in
      let rest = data_frames sid ms in
      let (d, c, e) = deliver_next (pooled 0) m s later.0 in
      let step = subscribe_next prims lawful pooled (data_frame sid m) rest s s' (
        handle_envelope-data prims lawful (pooled 0) sid key m.seq default_padding_target_size
          m.bytes s n h.0.1 (omega (arith, h.0.0)) hc) in
      let (goes, got) =
        subscribe-data_frames sid ms (λ i. pooled (i + 1)) s' n (c ∙ hc) h.1
          (subst (λ k. All (IsAfter k) ms) (sym e) inc.0) inc.1 in
      (
        ap (λ r. r.0) step ∙ goes,
        ap (λ r. contents r.1.delivered) step
            ∙ got
            ∙ ap (λ l. l ++ contents ms) d
            ∙ append_assoc (contents s.delivered) (m.bytes ∷ []) (contents ms),
      )

  sync_payload :
      (s : SubscriberEngine) (env : Envelope)
      → sync_request s ≡ some env
      → env.payload ≡ put_be 8 s.last_seq_num
  unfolding sync_request
  sync_payload s env h = ground arith

  if_true : {A : Type 0} (b : Bool) (x y : A) → b ≡ true → (if b then x else y) ≡ x
  if_true b x y h = rw h

  handle_sync_req_lem :
      (buffers : ℕ → List ℕ) (last : ℕ) (env : Envelope) (p : PublisherEngine)
      → env.payload ≡ put_be 8 last
      → last < 2 ^ 64
      → handle_sync_req prims buffers env p ≡ replay_sync prims buffers last p
  unfolding handle_sync_req
  handle_sync_req_lem buffers last env p e h =
      let n : length env.payload ≡ 8 = ap length e ∙ length-put_be 8 last in
      let read : get_be (take 8 env.payload) ≡ last =
        ap get_be (take_all 8 env.payload (omega arith) ∙ e) ∙ get_be-put_be 8 last (omega arith) in
      rw (n, read)

  replay_sync_lem :
      (buffers : ℕ → List ℕ) (last : ℕ) (items : List Msg) (p : PublisherEngine)
      → IsReady key p
      → get_after buffers p.replay_buffer last ≡ items
      → All IsSendable items
      → replay_sync prims buffers last p
        ≡ record p { sent = p.sent ++ data_frames p.session_id items }
  unfolding replay_sync replay_with
  replay_sync_lem buffers last items p y e h =
      ap (λ l. replay_with prims p.cipher l p) e
      ∙ ap (λ c. replay_with prims c items p) y.publishes
      ∙ if_true p.connected (replay_each prims (of_key key) items p) p y.is_connected
      ∙ replay_each_lem items p y h

  -- A publisher that can publish, whose ring buffer comes from any pushes of messages that fit
  -- frames and whose numbers grow, gets the sync request of a connected subscriber with its key.
  -- If the subscriber's last number is not 0 and the ring denies a loss for it, then the publisher
  -- sends frames such that the subscriber that handles them goes on and has delivered, after what
  -- it had, exactly the messages of the whole history that come after its last number, in their
  -- order.
  pub handle_sync_req-delivers :
      (p : PublisherEngine) (s : SubscriberEngine) (capacity : ℤ) (ms : List (List ℕ × Msg))
      (env : Envelope) (buffers pooled : ℕ → List ℕ)
      → IsReady key p
      → s.cipher ≡ some (of_key key)
      → sync_request s ≡ some env
      → s.last_seq_num < 2 ^ 64
      → s.last_seq_num ≢ 0
      → p.replay_buffer ≡ pushes (new_ring_buffer capacity) ms
      → IsIncreasing (pushed ms)
      → All IsSendable (pushed ms)
      → is_overflow p.replay_buffer s.last_seq_num ≡ false
      → (envs : List Envelope) × ((handle_sync_req prims buffers env p).sent ≡ p.sent ++ envs)
        × ((subscribe prims pooled envs s).0 ≡ continues)
        × (contents (subscribe prims pooled envs s).1.delivered
            ≡ contents s.delivered ++ contents (after s.last_seq_num (pushed ms)))
  handle_sync_req-delivers p s capacity ms env buffers pooled y hc hq hb nz hr inc send over =
      let last = s.last_seq_num in
      let items = after last (pushed ms) in
      let sendable = after-All IsSendable last (pushed ms) send in
      let kept : get_after buffers p.replay_buffer last ≡ items =
        ap (λ rb. get_after buffers rb last) hr
        ∙ get_after_complete capacity ms buffers last inc nz
            (ap (λ rb. is_overflow rb last) (sym hr) ∙ over) in
      let e =
        handle_sync_req_lem buffers last env p (sync_payload s env hq) hb
        ∙ replay_sync_lem buffers last items p y kept sendable in
      let (goes, got) =
        subscribe-data_frames p.session_id items pooled s y.id_sized hc sendable
          (after-IsAfter last (pushed ms)) (after-IsIncreasing last (pushed ms) inc) in
      (data_frames p.session_id items, ap (λ q. q.sent) e, goes, got)
