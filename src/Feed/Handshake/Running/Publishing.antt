-- ===== src/Feed/Handshake/Running/Publishing.antt =====
-- What PublishPayload of pkg/feed/publisher.go adds to the history of the replay buffer.
use mathlib.Core.Path.{subst}
use zero_feed.Base.{
  ℕ, suc, ◌+◌, ◌^◌, ◌%◌, ◌≤◌, ◌<◌, ◌≡◌, refl, sym, Bool, true, not, Option, none, some, List, [],
  ◌∷◌, ◌++◌, append-nil, length, ltb, if_elim, Result, ok, err, ℤ, arith,
}
use zero_feed.Protocol.Messages.{Envelope, msg_type_rekey, msg_type_data_stream}
use zero_feed.Protocol.Padding.{pad_payload, default_padding_target_size}
use zero_feed.Protocol.Frame.{max_payload_size}
use zero_feed.Crypto.Hkdf.{CryptoError}
use zero_feed.Crypto.Cipher.{Primitives, Cipher}
use zero_feed.Feed.Ring.{push}
use zero_feed.Feed.Publisher.{
  PublisherEngine, PublishError, send_envelope, send_result, encrypted_frame, with_key, ratcheted,
  rekey_sent, rekey_with, trigger_rekey, should_rekey, after_rekey, publish_with, publish_payload,
}
use zero_feed.Feed.Handshake.Running.{has_cipher, IsRecorded, Recorded, counted_on, push-IsRecorded}

module _ (capacity : ℤ) (untagged : Bool) (prims : Primitives) where
  pub send_envelope-Recorded :
      (texts : List (List ℕ)) (n : ℕ) (env : Envelope) (p : PublisherEngine)
      → Recorded capacity untagged texts n p
      → Recorded capacity untagged texts n (send_envelope env p).1
  unfolding send_envelope
  send_envelope-Recorded texts n env p r =
      let P : Result PublishError (Unit {0}) × PublisherEngine → Type 0 =
        λ q. Recorded capacity untagged texts n q.1 in
      if_elim P (not p.connected) _ _ r (
        if_elim P (ltb max_payload_size (length env.payload % 2 ^ 32)) _ _ r
          (if_elim P (not p.writable) _ _ r r))

  send_result-Recorded :
      (texts : List (List ℕ)) (n : ℕ) (e : Result CryptoError Envelope) (p : PublisherEngine)
      → Recorded capacity untagged texts n p
      → Recorded capacity untagged texts n (send_result prims e p).1
  unfolding send_result
  send_result-Recorded texts n (err e) p r = r
  send_result-Recorded texts n (ok env) p r = send_envelope-Recorded texts n env p r

  rekeyed-Recorded :
      (texts : List (List ℕ)) (n now : ℕ) (next : List ℕ) (e : Result CryptoError Cipher)
      (p : PublisherEngine)
      → Recorded capacity untagged texts n p
      → Recorded capacity untagged texts n (with_key prims now next e p)
  unfolding with_key
  rekeyed-Recorded texts n now next (err e) p r = r
  rekeyed-Recorded texts n now next (ok c) p r =
      let b = r.bounded in
      counted_on capacity untagged texts n n p.seq_counter p.seq_counter p.replay_buffer
        p.untagged_input p.cipher (some c) (omega arith) b refl r

  ratcheted-Recorded :
      (texts : List (List ℕ)) (n now : ℕ) (c : Cipher) (e : Result CryptoError (List ℕ))
      (p : PublisherEngine)
      → Recorded capacity untagged texts n p
      → Recorded capacity untagged texts n (ratcheted prims now c e p)
  unfolding ratcheted
  ratcheted-Recorded texts n now c (err e) p r = r
  ratcheted-Recorded texts n now c (ok next) p r = rekeyed-Recorded texts n now next _ p r

  rekey_sent-Recorded :
      (texts : List (List ℕ)) (n now : ℕ) (salt : List ℕ) (c : Cipher) (key : List ℕ)
      (q : Result PublishError (Unit {0}) × PublisherEngine)
      → Recorded capacity untagged texts n q.1
      → Recorded capacity untagged texts n (rekey_sent prims now salt c key q)
  unfolding rekey_sent
  rekey_sent-Recorded texts n now salt c key (err e, p) r = r
  rekey_sent-Recorded texts n now salt c key (ok u, p) r = ratcheted-Recorded texts n now c _ p r

  pub later :
      (texts : List (List ℕ)) (m n : ℕ) (p : PublisherEngine)
      → m ≤ n
      → Recorded capacity untagged texts m p
      → Recorded capacity untagged texts n p
  later texts m n p h r =
      let b = r.bounded in
      counted_on capacity untagged texts m n p.seq_counter p.seq_counter p.replay_buffer
        p.untagged_input p.cipher p.cipher (omega arith) (omega arith) r.ciphered r

  pub unheard :
      (texts : List (List ℕ)) (n : ℕ) (p : PublisherEngine)
      → Recorded capacity untagged texts n p
      → Recorded capacity untagged (texts ++ []) (suc (suc n)) p
  unheard texts n p r =
      subst (λ l. Recorded capacity untagged l (suc (suc n)) p) (sym (append-nil texts))
        (later texts n (suc (suc n)) p (omega arith) r)

  next_number : (n seq : ℕ) → seq ≤ n → suc n < 2 ^ 64 → (seq + 1) % 2 ^ 64 ≡ suc seq
  next_number n seq h b = omega arith

  rekey_with-Recorded :
      (texts : List (List ℕ)) (n now : ℕ) (salt : List ℕ) (c : Cipher) (key : Option (List ℕ))
      (p : PublisherEngine)
      → suc n < 2 ^ 64
      → Recorded capacity untagged texts n p
      → Recorded capacity untagged texts (suc n) (rekey_with prims now salt c key p)
  unfolding rekey_with
  rekey_with-Recorded texts n now salt c none p b r = later texts n (suc n) p (omega arith) r
  rekey_with-Recorded texts n now salt c (some key) p b r =
      let seq = (p.seq_counter + 1) % 2 ^ 64 in
      let counted = record p { seq_counter = seq } in
      let env = encrypted_frame prims msg_type_rekey p.session_id c seq salt in
      let h = r.bounded in
      let e = next_number n p.seq_counter h b in
      rekey_sent-Recorded texts (suc n) now salt c key (send_result prims env counted) (
        send_result-Recorded texts (suc n) env counted (
          counted_on capacity untagged texts n (suc n) p.seq_counter seq p.replay_buffer
            p.untagged_input p.cipher p.cipher (omega arith) (omega arith) r.ciphered r))

  trigger_rekey-Recorded :
      (texts : List (List ℕ)) (n now : ℕ) (salt : List ℕ) (c : Option Cipher) (p : PublisherEngine)
      → suc n < 2 ^ 64
      → Recorded capacity untagged texts n p
      → Recorded capacity untagged texts (suc n) (trigger_rekey prims now salt c p)
  unfolding trigger_rekey
  trigger_rekey-Recorded texts n now salt none p b r = later texts n (suc n) p (omega arith) r
  trigger_rekey-Recorded texts n now salt (some c) p b r =
      rekey_with-Recorded texts n now salt c c.key p b r

  after_rekey-Recorded :
      (texts : List (List ℕ)) (n now : ℕ) (salt : List ℕ) (p : PublisherEngine)
      → suc n < 2 ^ 64
      → Recorded capacity untagged texts n p
      → Recorded capacity untagged texts (suc n) (after_rekey prims now salt p)
  unfolding after_rekey
  after_rekey-Recorded texts n now salt p b r =
      if_elim (Recorded capacity untagged texts (suc n)) (should_rekey prims now p)
        (trigger_rekey prims now salt p.cipher p) p
        (trigger_rekey-Recorded texts n now salt p.cipher p b r)
        (later texts n (suc n) p (omega arith) r)

  -- A publisher with a key records what it publishes, whether the frame is sent or not.
  publish_with-Recorded :
      (texts : List (List ℕ)) (n : ℕ) (pooled payload : List ℕ) (c : Option Cipher)
      (p : PublisherEngine)
      → suc n < 2 ^ 64
      → has_cipher c ≡ true
      → Recorded capacity untagged texts n p
      → Recorded capacity untagged
          (texts ++ (payload ∷ []))
          (suc n)
          (publish_with prims pooled payload c p).1
  unfolding publish_with
  publish_with-Recorded texts n pooled payload none p b k r = absurd cc
  publish_with-Recorded texts n pooled payload (some c) p b k r =
      let seq = (p.seq_counter + 1) % 2 ^ 64 in
      let pushed' = record p {
        seq_counter = seq;
        replay_buffer = (push pooled p.replay_buffer seq payload).0;
      } in
      let h = r.bounded in
      let e = next_number n p.seq_counter h b in
      send_result-Recorded (texts ++ (payload ∷ [])) (suc n)
        (encrypted_frame prims msg_type_data_stream p.session_id c seq
          (pad_payload payload default_padding_target_size))
        pushed'
        (subst
          (λ s.
            IsRecorded capacity untagged (texts ++ (payload ∷ [])) (suc n)
              (push pooled p.replay_buffer s payload).0 s p.untagged_input p.cipher)
          (sym e)
          (push-IsRecorded capacity untagged texts n p.seq_counter p.replay_buffer p.untagged_input
            p.cipher pooled payload r))

  pub publish_payload-Recorded :
      (texts : List (List ℕ)) (n now : ℕ) (salt pooled payload : List ℕ) (p : PublisherEngine)
      → suc (suc n) < 2 ^ 64
      → Recorded capacity untagged texts n p
      → Recorded capacity untagged
          (texts ++ (payload ∷ []))
          (suc (suc n))
          (publish_payload prims now salt pooled payload p).1
  unfolding publish_payload
  publish_payload-Recorded texts n now salt pooled payload p b r =
      let counted = record p {
        bytes_since_rekey = (p.bytes_since_rekey + length payload) % 2 ^ 64;
      } in
      let ready = after_rekey prims now salt counted in
      let r' = after_rekey-Recorded texts n now salt counted (omega arith) r in
      publish_with-Recorded texts (suc n) pooled payload ready.cipher ready b r'.ciphered r'
