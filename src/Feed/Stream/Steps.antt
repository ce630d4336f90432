-- ===== src/Feed/Stream/Steps.antt =====
-- One payload of pkg/feed, published with or without a new key before it.
use zero_feed.Base.{
  ℕ, ◌+◌, ◌%◌, ◌^◌, ◌≤◌, ◌<◌, ◌≡◌, refl, ap, sym, ◌∙◌, Bool, true, false, List, [], ◌∷◌, ◌++◌,
  append_assoc, length, if◌then◌else◌, ok, arith,
}
use mathlib.Core.Path.{subst}
use zero_feed.Crypto.Cipher.{Primitives, IsLawful}
use zero_feed.Crypto.Cipher.Laws.{ratchet_key_lem}
use zero_feed.Feed.Publisher.{
  PublisherEngine, trigger_rekey, should_rekey, after_rekey, publish_with, publish_payload,
}
use zero_feed.Feed.Subscriber.{subscribe}
use zero_feed.Feed.Stream.Follow.{
  IsReady, FitsFrame, contents, Follows, publish_with_lem, published-Follows, trigger_rekey_lem,
  turned-Follows,
}

module _ (prims : Primitives) (lawful : IsLawful prims) where
  pub Follows-trans :
      (key : List ℕ) (p p1 p2 : PublisherEngine) (xs ys : List (List ℕ)) (m n : ℕ)
      → Follows prims lawful key p p1 xs m
      → ((key1 : List ℕ) → IsReady key1 p1 → Follows prims lawful key1 p1 p2 ys n)
      → Follows prims lawful key p p2 (xs ++ ys) (m + n)
  Follows-trans key p p1 p2 xs ys m n (envs1, key1, sent1, seq1, tag1, ready1, run1) next =
      let (envs2, key2, sent2, seq2, tag2, ready2, run2) = next key1 ready1 in
      (
        envs1 ++ envs2,
        key2,
        sent2 ∙ ap (λ l. l ++ envs2) sent1 ∙ append_assoc p.sent envs1 envs2,
        omega arith,
        tag2 ∙ tag1,
        ready2,
        λ s pooled rest behind.
            let (pooled1, s1, e1, d1, behind1) = run1 s pooled (envs2 ++ rest) behind in
            let (pooled2, s2, e2, d2, behind2) = run2 s1 pooled1 rest behind1 in
            (
              pooled2,
              s2,
              ap (λ l. subscribe prims pooled l s) (append_assoc envs1 envs2 rest) ∙ e1 ∙ e2,
              d2 ∙ ap (λ l. l ++ ys) d1 ∙ append_assoc (contents s.delivered) xs ys,
              behind2,
            ),
      )

  -- The counter of bytes does not matter.
  Follows-counted :
      (key : List ℕ) (p p' : PublisherEngine) (xs : List (List ℕ)) (n bytes : ℕ)
      → Follows prims lawful key (record p { bytes_since_rekey = bytes }) p' xs n
      → Follows prims lawful key p p' xs n
  Follows-counted key p p' xs n bytes (envs, key', sent, seq, tag, ready, run) = (
    envs,
    key',
    sent,
    seq,
    tag,
    ready,
    λ s pooled rest behind.
        run s pooled rest (record { subscribes = behind.subscribes; not_ahead = behind.not_ahead }),
  )

  publish_now :
      (key : List ℕ) (p : PublisherEngine) (pooled payload : List ℕ)
      → IsReady key p
      → p.seq_counter + 1 < 2 ^ 64
      → FitsFrame payload
      → let r = publish_with prims pooled payload p.cipher p in
        (r.0 ≡ ok tt) × Follows prims lawful key p r.1 (payload ∷ []) 1
  publish_now key p pooled payload y hs hp =
      let same =
        ap (λ c. publish_with prims pooled payload c p) y.publishes
        ∙ publish_with_lem prims lawful key p y pooled payload hs hp in
      subst (λ r. (r.0 ≡ ok tt) × Follows prims lawful key p r.1 (payload ∷ []) 1) (sym same)
        (refl, published-Follows prims lawful key p y pooled payload hs hp)

  rekey_now :
      (key : List ℕ) (p : PublisherEngine) (now : ℕ) (salt : List ℕ)
      → IsReady key p
      → p.seq_counter + 1 < 2 ^ 64
      → length salt ≡ 12
      → Follows prims lawful key p (trigger_rekey prims now salt p.cipher p) [] 1
  rekey_now key p now salt y hs hn =
      let (next, e, n) = ratchet_key_lem prims lawful key salt (omega (arith, y.key_sized)) in
      let same =
        ap (λ c. trigger_rekey prims now salt c p) y.publishes
        ∙ trigger_rekey_lem prims lawful key p y now salt next hs e n hn in
      subst (λ r. Follows prims lawful key p r [] 1) (sym same)
        (turned-Follows prims lawful key p y now salt next e n)

  IsReady-counted :
      (key : List ℕ) (p : PublisherEngine) (bytes : ℕ)
      → IsReady key p
      → IsReady key (record p { bytes_since_rekey = bytes })
  IsReady-counted key p bytes y = record {
    publishes = y.publishes;
    key_sized = y.key_sized;
    id_sized = y.id_sized;
    is_connected = y.is_connected;
    is_writable = y.is_writable;
  }

  publish_after :
      (key : List ℕ) (p p1 : PublisherEngine) (pooled payload : List ℕ)
      → Follows prims lawful key p p1 [] 1
      → p.seq_counter + 2 < 2 ^ 64
      → FitsFrame payload
      → let r = publish_with prims pooled payload p1.cipher p1 in
        (r.0 ≡ ok tt) × Follows prims lawful key p r.1 (payload ∷ []) 2
  publish_after key p p1 pooled payload f hs hp =
      let (envs, key1, sent, seq, tag, ready, run) = f in
      (
        (publish_now key1 p1 pooled payload ready (omega arith) hp).0,
        Follows-trans key p p1 (publish_with prims pooled payload p1.cipher p1).1 [] (payload ∷ [])
            1 1 f (λ k y. (publish_now k p1 pooled payload y (omega arith) hp).1),
      )

  pub more_numbers :
      (key : List ℕ) (p p' : PublisherEngine) (xs : List (List ℕ)) (m n : ℕ)
      → m ≤ n
      → Follows prims lawful key p p' xs m
      → Follows prims lawful key p p' xs n
  more_numbers key p p' xs m n h (envs, key', sent, seq, tag, ready, run) =
      (envs, key', sent, omega arith, tag, ready, run)

  pub publish_payload-Follows :
      (key : List ℕ) (p : PublisherEngine) (now : ℕ) (salt pooled payload : List ℕ)
      → IsReady key p
      → p.seq_counter + 2 < 2 ^ 64
      → FitsFrame payload
      → length salt ≡ 12
      → let r = publish_payload prims now salt pooled payload p in
        (r.0 ≡ ok tt) × Follows prims lawful key p r.1 (payload ∷ []) 2
  unfolding publish_payload after_rekey
  publish_payload-Follows key p now salt pooled payload y hs hp hn =
      cases (should_rekey prims now counted)
    where
      bytes : ℕ
      bytes = (p.bytes_since_rekey + length payload) % 2 ^ 64

      counted : PublisherEngine
      counted = record p { bytes_since_rekey = bytes }

      cases :
          (b : Bool)
          → let ready =
              if b then trigger_rekey prims now salt counted.cipher counted else counted in
            let r = publish_with prims pooled payload ready.cipher ready in
            (r.0 ≡ ok tt) × Follows prims lawful key p r.1 (payload ∷ []) 2
      cases true =
          publish_after key p (trigger_rekey prims now salt counted.cipher counted) pooled payload
            (Follows-counted key p (trigger_rekey prims now salt counted.cipher counted) [] 1 bytes
              (rekey_now key counted now salt (IsReady-counted key p bytes y) (omega arith) hn))
            hs hp
      cases false =
          let (e, f) =
            publish_now key counted pooled payload (IsReady-counted key p bytes y) (omega arith)
              hp in
          let p' = (publish_with prims pooled payload counted.cipher counted).1 in
          (
            e,
            more_numbers key p p' (payload ∷ []) 1 2 (omega arith)
                (Follows-counted key p p' (payload ∷ []) 1 bytes f),
          )
