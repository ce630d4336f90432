-- ===== src/Feed/Stream/Closing.antt =====
-- What is left of a publisher of pkg/feed/publisher.go after `Close`.
use zero_feed.Base.{ℕ, ◌+◌, ◌%◌, ◌^◌, ◌≡◌, ap, ◌∙◌, false, none, List, length, err, arith}
use zero_feed.Crypto.Cipher.{Primitives}
use zero_feed.Feed.Ring.{get_after}
use zero_feed.Feed.Publisher.{
  PublisherEngine, no_cipher, trigger_rekey, after_rekey, publish_with, publish_payload,
  replay_with, replay_sync, close_publisher,
}

module _ (prims : Primitives) where
  after_rekey-closed :
      (now : ℕ) (salt : List ℕ) (p : PublisherEngine)
      → p.cipher ≡ none
      → after_rekey prims now salt p ≡ p
  unfolding after_rekey trigger_rekey
  after_rekey-closed now salt p h = rw h (ground arith)

  publish_with-closed :
      (pooled payload : List ℕ) (p : PublisherEngine)
      → p.cipher ≡ none
      → publish_with prims pooled payload p.cipher p ≡ (err no_cipher, p)
  unfolding publish_with
  publish_with-closed pooled payload p h = ap (λ c. publish_with prims pooled payload c p) h

  publish_payload-closed :
      (now : ℕ) (salt pooled payload : List ℕ) (p : PublisherEngine)
      → p.cipher ≡ none
      → ((publish_payload prims now salt pooled payload p).0 ≡ err no_cipher)
        × ((publish_payload prims now salt pooled payload p).1.sent ≡ p.sent)
  unfolding publish_payload
  publish_payload-closed now salt pooled payload p h =
      let counted : PublisherEngine = record p {
        bytes_since_rekey = (p.bytes_since_rekey + length payload) % 2 ^ 64;
      } in
      let same : publish_payload prims now salt pooled payload p ≡ (err no_cipher, counted) =
        ap (λ q. publish_with prims pooled payload q.cipher q)
          (after_rekey-closed now salt counted h)
        ∙ publish_with-closed pooled payload counted h in
      (ap (λ r. r.0) same, ap (λ r. r.1.sent) same)

  replay_sync-closed :
      (buffers : ℕ → List ℕ) (last : ℕ) (p : PublisherEngine)
      → p.cipher ≡ none
      → replay_sync prims buffers last p ≡ p
  unfolding replay_sync replay_with
  replay_sync-closed buffers last p h =
      ap (λ c. replay_with prims c (get_after buffers p.replay_buffer last) p) h

  closed_lem :
      (p : PublisherEngine)
      → p.closed ≡ false
      → ((close_publisher p).cipher ≡ none)
        × ((close_publisher p).master_key ≡ none)
        × ((close_publisher p).passphrase ≡ none)
  unfolding close_publisher
  closed_lem p h = (ground arith, ground arith, ground arith)

  -- After the first Close of a publisher it has no key, no master key and no passphrase;
  -- publishing fails, and neither publishing nor a replay sends a frame.
  pub close_publisher_lem :
      (p : PublisherEngine) (now : ℕ) (salt pooled payload : List ℕ) (buffers : ℕ → List ℕ)
      (last : ℕ)
      → p.closed ≡ false
      → let q = close_publisher p in
        (q.cipher ≡ none)
        × (q.master_key ≡ none)
        × (q.passphrase ≡ none)
        × ((publish_payload prims now salt pooled payload q).0 ≡ err no_cipher)
        × ((publish_payload prims now salt pooled payload q).1.sent ≡ q.sent)
        × (replay_sync prims buffers last q ≡ q)
  close_publisher_lem p now salt pooled payload buffers last h =
      let (c, m, f) = closed_lem p h in
      let (failed, silent) = publish_payload-closed now salt pooled payload (close_publisher p) c in
      (c, m, f, failed, silent, replay_sync-closed buffers last (close_publisher p) c)
