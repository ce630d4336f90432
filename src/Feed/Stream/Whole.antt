-- ===== src/Feed/Stream/Whole.antt =====
-- A whole stream of pkg/feed, from the publisher's inputs to what the subscriber delivers.
use zero_feed.Base.{
  ℕ, suc, ◌+◌, ◌*◌, ◌^◌, ◌≤◌, ◌<◌, ◌≡◌, refl, ap, sym, ◌∙◌, Bool, true, false, List, [], ◌∷◌, ◌++◌,
  append-nil, length, All, ◌==◌, if◌then◌else◌, Result, ok, err, arith,
}
use mathlib.Core.Path.{subst}
use zero_feed.Protocol.Messages.{Envelope}
use zero_feed.Protocol.Frame.{max_payload_size}
use zero_feed.Crypto.Cipher.{Primitives, IsLawful}
use zero_feed.Feed.Publisher.{
  PublisherEngine, PublishError, Input, tagged, publish_payload, unless_failed, publish_each,
}
use zero_feed.Feed.Subscriber.{SubscriberEngine, continues, subscribe}
use zero_feed.Feed.Stream.Follow.{IsReady, IsBehind, contents, Follows}
use zero_feed.Feed.Stream.Steps.{Follows-trans, more_numbers, publish_payload-Follows}

-- What the inputs should arrive as: each that is not empty, with its tag.
abbrev pub tagged_payloads : Bool → List Input → List (List ℕ)
tagged_payloads untagged [] = []
tagged_payloads untagged (i ∷ inputs) =
    if length i.payload == 0
    then tagged_payloads untagged inputs
    else tagged untagged i.payload ∷ tagged_payloads untagged inputs

-- A payload fits a frame with its tag, and the salt is as long as a nonce.
abbrev pub IsShort : Input → Type 0
IsShort i = (length i.payload + 29 ≤ max_payload_size) × (length i.salt ≡ 12)

length-tagged :
    (untagged : Bool) (payload : List ℕ) → length (tagged untagged payload) ≤ length payload + 1
unfolding tagged
length-tagged untagged [] = omega arith
length-tagged untagged (b ∷ payload) = ground arith

module _ (prims : Primitives) (lawful : IsLawful prims) where
  Follows-refl :
      (key : List ℕ) (p : PublisherEngine) (n : ℕ)
      → IsReady key p
      → Follows prims lawful key p p [] n
  Follows-refl key p n y = (
    [],
    key,
    sym (append-nil p.sent),
    omega arith,
    refl,
    y,
    λ s pooled rest behind. (pooled, s, refl, sym (append-nil (contents s.delivered)), behind),
  )

  unless_failed_ok :
      (first rest : Result PublishError (Unit {0}) × PublisherEngine)
      → first.0 ≡ ok tt
      → unless_failed prims first rest ≡ rest
  unfolding unless_failed
  unless_failed_ok (err e, p) rest h = cc
  unless_failed_ok (ok u, p) rest h = refl

  -- A loop that publishes all its inputs.
  abbrev pub Publishes :
      List ℕ
      → PublisherEngine
      → Result PublishError (Unit {0}) × PublisherEngine
      → List (List ℕ)
      → ℕ
      → Type 0
  Publishes key p r payloads n = (r.0 ≡ ok tt) × Follows prims lawful key p r.1 payloads n

  -- One input, if the others are published from wherever it leads.
  publish_next :
      (key : List ℕ) (p : PublisherEngine) (i : Input) (inputs : List Input)
      → IsReady key p
      → p.seq_counter + 2 * suc (length inputs) < 2 ^ 64
      → IsShort i
      → ((k : List ℕ) (q : PublisherEngine)
          → IsReady k q
          → q.seq_counter + 2 * length inputs < 2 ^ 64
          → Publishes k q
              (publish_each prims inputs q)
              (tagged_payloads q.untagged_input inputs)
              (2 * length inputs))
      → (b : Bool)
      → let payload = tagged p.untagged_input i.payload in
        let first = publish_payload prims i.now i.salt i.pooled payload p in
        let others = tagged_payloads p.untagged_input inputs in
        Publishes key p
          (if b
            then publish_each prims inputs p
            else unless_failed prims first (publish_each prims inputs first.1))
          (if b then others else payload ∷ others)
          (2 * suc (length inputs))
  publish_next key p i inputs y hs hp next true =
      let (e, f) = next key p y (omega arith) in
      (
        e,
        more_numbers prims lawful key p (publish_each prims inputs p).1
            (tagged_payloads p.untagged_input inputs) (2 * length inputs) (2 * suc (length inputs))
            (omega arith) f,
      )
  publish_next key p i inputs y hs hp next false =
      let payload = tagged p.untagged_input i.payload in
      let first = publish_payload prims i.now i.salt i.pooled payload p in
      let rest = publish_each prims inputs first.1 in
      let others = tagged_payloads p.untagged_input inputs in
      let (e, f) =
        publish_payload-Follows prims lawful key p i.now i.salt i.pooled payload y (omega arith)
          (omega (arith, length-tagged p.untagged_input i.payload, hp.0)) hp.1 in
      let (envs, key1, sent, seq, tag, ready, run) = f in
      let goes : first.1.seq_counter + 2 * length inputs < 2 ^ 64 = omega arith in
      let same : tagged_payloads first.1.untagged_input inputs ≡ others =
        ap (λ u. tagged_payloads u inputs) tag in
      let then_ : (k : List ℕ)
          → IsReady k first.1
          → Follows prims lawful k first.1 rest.1 others (2 * length inputs) =
        λ k z.
          subst (λ l. Follows prims lawful k first.1 rest.1 l (2 * length inputs)) same
            (next k first.1 z goes).1 in
      subst (λ r. Publishes key p r (payload ∷ others) (2 * suc (length inputs)))
        (sym (unless_failed_ok first rest e))
        (
          (next key1 first.1 ready goes).0,
          more_numbers prims lawful key p rest.1 (payload ∷ others) (2 + 2 * length inputs)
              (2 * suc (length inputs)) (omega arith)
              (Follows-trans prims lawful key p first.1 rest.1 (payload ∷ []) others 2
                (2 * length inputs) f then_),
        )

  publish_each-Follows :
      (key : List ℕ) (p : PublisherEngine) (inputs : List Input)
      → IsReady key p
      → p.seq_counter + 2 * length inputs < 2 ^ 64
      → All IsShort inputs
      → Publishes key p
          (publish_each prims inputs p)
          (tagged_payloads p.untagged_input inputs)
          (2 * length inputs)
  unfolding publish_each
  publish_each-Follows key p [] y hs hp = (refl, Follows-refl key p 0 y)
  publish_each-Follows key p (i ∷ inputs) y hs hp =
      publish_next key p i inputs y hs hp.0 (λ k q z h. publish_each-Follows k q inputs z h hp.1)
        (length i.payload == 0)

  -- From a publisher and a subscriber with the same key, of which the subscriber is not ahead: if
  -- the connection takes frames, the inputs fit frames of 32 MB, the salts have 12 bytes and the
  -- sequence numbers suffice, then the publisher publishes all inputs without an error, whenever
  -- it turns to a new key, and the subscriber that handles the frames it sent goes on and has
  -- delivered, after what it had, exactly the inputs that are not empty, with their tags, in their
  -- order.
  pub subscribe-publish_each :
      (key : List ℕ) (p : PublisherEngine) (s : SubscriberEngine) (inputs : List Input)
      (pooled : ℕ → List ℕ)
      → IsReady key p
      → IsBehind key p s
      → p.seq_counter + 2 * length inputs < 2 ^ 64
      → All IsShort inputs
      → let r = publish_each prims inputs p in
        (r.0 ≡ ok tt)
        × ((envs : List Envelope) × (r.1.sent ≡ p.sent ++ envs)
            × ((subscribe prims pooled envs s).0 ≡ continues)
            × (contents (subscribe prims pooled envs s).1.delivered
                ≡ contents s.delivered ++ tagged_payloads p.untagged_input inputs))
  unfolding subscribe
  subscribe-publish_each key p s inputs pooled y z hs hp =
      let (e, (envs, key1, sent, seq, tag, ready, run)) =
        publish_each-Follows key p inputs y hs hp in
      let (pooled1, s1, e1, d1, behind1) = run s pooled [] z in
      let e2 : subscribe prims pooled envs s ≡ (continues, s1) =
        ap (λ l. subscribe prims pooled l s) (sym (append-nil envs)) ∙ e1 in
      (e, (envs, sent, ap (λ r. r.0) e2, ap (λ r. contents r.1.delivered) e2 ∙ d1))
