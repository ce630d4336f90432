-- ===== src/Feed/Stream/Follow.antt =====
-- The subscriber of pkg/feed/subscriber.go follows the publisher of pkg/feed/publisher.go.
use zero_feed.Base.{
  ltb, ℕ, ◌+◌, ◌%◌, ◌^◌, ◌≤◌, ◌<◌, ◌≡◌, refl, ap, sym, ◌∙◌, true, false, some, List, [], ◌∷◌, ◌++◌,
  append-nil, length, leb, ok, arith,
}
use zero_feed.Protocol.Messages.{Envelope, msg_type_data_stream, msg_type_rekey}
use zero_feed.Protocol.Frame.{max_payload_size}
use zero_feed.Protocol.Padding.Laws.{length-pad_payload}
use zero_feed.Protocol.Padding.{pad_payload, default_padding_target_size}
use zero_feed.Crypto.Cipher.{Primitives, IsLawful, ratchet_key, update_key}
use zero_feed.Feed.Ring.{Msg, push}
use zero_feed.Feed.Publisher.{
  PublisherEngine, send_envelope, send_result, ratcheted, with_key, rekey_sent, rekey_with,
  trigger_rekey, publish_with,
}
use zero_feed.Feed.Subscriber.{
  SubscriberEngine, continues, deliver, rekeyed, or_old, next_cipher, go_on, handle_envelope,
  subscribe,
}
use zero_feed.Feed.Stream.Frames.{
  of_key, frame, encrypted_frame_lem, length-frame, handle_envelope-data, handle_envelope-rekey,
}

-- The publisher can publish under a key.
pub record IsReady (key : List ℕ) (p : PublisherEngine) : Type 0 where
  pub publishes : p.cipher ≡ some (of_key key)
  pub key_sized : length key ≡ 32
  pub id_sized : length p.session_id ≡ 16
  pub is_connected : p.connected ≡ true
  pub is_writable : p.writable ≡ true

-- The subscriber has the key, and no number that the publisher has still to give.
pub record IsBehind (key : List ℕ) (p : PublisherEngine) (s : SubscriberEngine) : Type 0 where
  pub subscribes : s.cipher ≡ some (of_key key)
  pub not_ahead : s.last_seq_num ≤ p.seq_counter

-- The payloads of messages.
abbrev pub contents : List Msg → List (List ℕ)
contents [] = []
contents (m ∷ ms) = m.bytes ∷ contents ms

pub contents-append : (ms ns : List Msg) → contents (ms ++ ns) ≡ contents ms ++ contents ns
contents-append [] ns = refl
contents-append (m ∷ ms) ns = ap (λ l. m.bytes ∷ l) (contents-append ms ns)

-- The frame of a payload is not too large to be sent: 28 bytes stand around it.
abbrev pub FitsFrame : List ℕ → Type 0
FitsFrame payload = length payload + 28 ≤ max_payload_size

module _ (prims : Primitives) (lawful : IsLawful prims) where
  -- The publisher sends frames after those it sent, with at most so many numbers, and can go on; every
  -- subscriber that was behind it handles them all, delivers the given payloads and is behind again.
  abbrev pub Follows : List ℕ → PublisherEngine → PublisherEngine → List (List ℕ) → ℕ → Type 0
  Follows key p p' payloads numbers =
      (envs : List Envelope) × (key' : List ℕ) × (p'.sent ≡ p.sent ++ envs)
      × (p'.seq_counter ≤ p.seq_counter + numbers)
      × (p'.untagged_input ≡ p.untagged_input)
      × IsReady key' p'
      × ((s : SubscriberEngine) (pooled : ℕ → List ℕ) (rest : List Envelope)
          → IsBehind key p s
          → (pooled' : ℕ → List ℕ) × (s' : SubscriberEngine) × (subscribe prims pooled
                (envs ++ rest) s
              ≡ subscribe prims pooled' rest s')
            × (contents s'.delivered ≡ contents s.delivered ++ payloads)
            × IsBehind key' p' s')

  update_key_lem :
      (key next : List ℕ) → length next ≡ 32 → update_key (of_key key) next ≡ ok (of_key next)
  unfolding update_key
  update_key_lem key next n = rw n

  pub subscribe_next :
      (pooled : ℕ → List ℕ) (env : Envelope) (envs : List Envelope) (s s' : SubscriberEngine)
      → handle_envelope prims (pooled 0) env s ≡ (continues, s')
      → subscribe prims pooled (env ∷ envs) s ≡ subscribe prims (λ i. pooled (i + 1)) envs s'
  unfolding subscribe go_on
  subscribe_next pooled env envs s s' e = rw (subscribe, e)

  pub send_synced :
      (env : Envelope) (p : PublisherEngine)
      → p.connected ≡ true
      → p.writable ≡ true
      → length env.payload ≤ max_payload_size
      → send_envelope env p ≡ (ok tt, record p { sent = p.sent ++ (env ∷ []) })
  unfolding send_envelope
  send_synced env p hc hw hn =
      let small : ltb max_payload_size (length env.payload % 2 ^ 32) ≡ false = ground (arith, hn) in
      rw (hc, hw, small)

  module _ (key : List ℕ) (p : PublisherEngine) (y : IsReady key p) where
    seq_below : p.seq_counter + 1 < 2 ^ 64 → (p.seq_counter + 1) % 2 ^ 64 ≡ p.seq_counter + 1
    seq_below h = omega arith

    -- The frame of the next number, and the publisher that sent it.
    abbrev next_frame : ℕ → List ℕ → Envelope
    next_frame msg_type plaintext =
        frame prims lawful msg_type p.session_id key (p.seq_counter + 1) plaintext

    abbrev pub published : List ℕ → List ℕ → PublisherEngine
    published pooled payload = record p {
      seq_counter = p.seq_counter + 1;
      replay_buffer = (push pooled p.replay_buffer (p.seq_counter + 1) payload).0;
      sent =
          p.sent
          ++ (next_frame msg_type_data_stream (pad_payload payload default_padding_target_size)
              ∷ []);
    }

    pub publish_with_lem :
        (pooled payload : List ℕ)
        → p.seq_counter + 1 < 2 ^ 64
        → FitsFrame payload
        → publish_with prims pooled payload (some (of_key key)) p
          ≡ (ok tt, published pooled payload)
    unfolding publish_with send_result
    publish_with_lem pooled payload hs hp =
        let plaintext = pad_payload payload default_padding_target_size in
        rw (
          seq_below hs,
          encrypted_frame_lem prims lawful msg_type_data_stream p.session_id key (p.seq_counter + 1)
              plaintext y.id_sized,
          send_synced (next_frame msg_type_data_stream plaintext)
              (record p {
                seq_counter = p.seq_counter + 1;
                replay_buffer = (push pooled p.replay_buffer (p.seq_counter + 1) payload).0;
              })
              y.is_connected y.is_writable
              (omega (
                arith,
                hp,
                length-frame prims lawful msg_type_data_stream p.session_id key (p.seq_counter + 1)
                    plaintext y.id_sized,
                length-pad_payload payload default_padding_target_size,
              )),
        )

    abbrev message : List ℕ → Msg
    message payload = record { seq = p.seq_counter + 1; bytes = payload }

    deliver_lem :
        (pooled payload : List ℕ) (s : SubscriberEngine)
        → s.last_seq_num ≤ p.seq_counter
        → let s' = deliver pooled (p.seq_counter + 1) payload s in
          (s'.delivered ≡ s.delivered ++ (message payload ∷ []))
          × (s'.cipher ≡ s.cipher)
          × (s'.last_seq_num ≡ p.seq_counter + 1)
    unfolding deliver
    deliver_lem pooled payload s h =
        let new : leb (p.seq_counter + 1) s.last_seq_num ≡ false = ground arith in
        (rw new, rw new, rw new)

    pub published-Follows :
        (pooled payload : List ℕ)
        → p.seq_counter + 1 < 2 ^ 64
        → FitsFrame payload
        → Follows key p (published pooled payload) (payload ∷ []) 1
    published-Follows pooled payload hs hp =
        let env =
          next_frame msg_type_data_stream (pad_payload payload default_padding_target_size) in
        (
          env ∷ [],
          key,
          refl,
          omega arith,
          refl,
          record {
            publishes = y.publishes;
            key_sized = y.key_sized;
            id_sized = y.id_sized;
            is_connected = y.is_connected;
            is_writable = y.is_writable;
          },
          λ s buffers rest behind.
              let s' = deliver (buffers 0) (p.seq_counter + 1) payload s in
              let (d, c, n) = deliver_lem (buffers 0) payload s behind.not_ahead in
              (
                (λ i. buffers (i + 1)),
                s',
                subscribe_next buffers env rest s s' (
                    handle_envelope-data prims lawful (buffers 0) p.session_id key
                      (p.seq_counter + 1) default_padding_target_size payload s y.id_sized hs
                      (omega (arith, hp)) behind.subscribes),
                ap contents d ∙ contents-append s.delivered (message payload ∷ []),
                record { subscribes = c ∙ behind.subscribes; not_ahead = omega (arith, n) },
              ),
        )

    -- The publisher with the next key.
    abbrev pub turned : ℕ → List ℕ → List ℕ → PublisherEngine
    turned now salt next = record p {
      seq_counter = p.seq_counter + 1;
      sent = p.sent ++ (next_frame msg_type_rekey salt ∷ []);
      cipher = some (of_key next);
      master_key = some next;
      bytes_since_rekey = 0;
      last_rekey_time = now;
    }

    pub trigger_rekey_lem :
        (now : ℕ) (salt next : List ℕ)
        → p.seq_counter + 1 < 2 ^ 64
        → ratchet_key prims key salt ≡ ok next
        → length next ≡ 32
        → length salt ≡ 12
        → trigger_rekey prims now salt (some (of_key key)) p ≡ turned now salt next
    unfolding trigger_rekey rekey_with send_result rekey_sent ratcheted with_key
    trigger_rekey_lem now salt next hs e n hn = rw (
      seq_below hs,
      encrypted_frame_lem prims lawful msg_type_rekey p.session_id key (p.seq_counter + 1) salt
          y.id_sized,
      send_synced (next_frame msg_type_rekey salt) (record p { seq_counter = p.seq_counter + 1 })
          y.is_connected y.is_writable
          (omega (
            arith,
            hn,
            length-frame prims lawful msg_type_rekey p.session_id key (p.seq_counter + 1) salt
                y.id_sized,
          )),
      e,
      update_key_lem key next n,
    )

    rekeyed_lem :
        (salt next : List ℕ) (s : SubscriberEngine)
        → ratchet_key prims key salt ≡ ok next
        → length next ≡ 32
        → rekeyed prims (of_key key) salt (some key) s ≡ record s { cipher = some (of_key next) }
    unfolding rekeyed next_cipher or_old
    rekeyed_lem salt next s e n = rw (e, update_key_lem key next n)

    pub turned-Follows :
        (now : ℕ) (salt next : List ℕ)
        → ratchet_key prims key salt ≡ ok next
        → length next ≡ 32
        → Follows key p (turned now salt next) [] 1
    turned-Follows now salt next e n =
        let env = next_frame msg_type_rekey salt in
        (
          env ∷ [],
          next,
          refl,
          omega arith,
          refl,
          record {
            publishes = refl;
            key_sized = n;
            id_sized = y.id_sized;
            is_connected = y.is_connected;
            is_writable = y.is_writable;
          },
          λ s buffers rest behind.
              let s' = record s { cipher = some (of_key next) } in
              (
                (λ i. buffers (i + 1)),
                s',
                subscribe_next buffers env rest s s' (
                    handle_envelope-rekey prims lawful (buffers 0) p.session_id key
                      (p.seq_counter + 1) salt s y.id_sized behind.subscribes
                    ∙ ap (λ t. (continues, t)) (rekeyed_lem salt next s e n)),
                sym (append-nil (contents s.delivered)),
                record { subscribes = refl; not_ahead = omega (arith, behind.not_ahead) },
              ),
        )
