-- ===== src/Feed/Handshake/Running/History.antt =====
-- The history of a running publisher of pkg/feed/publisher.go is what it was given to publish.
use mathlib.Core.Path.{subst}
use zero_feed.Base.{
  ℕ, suc, ◌+◌, ◌*◌, ◌^◌, ◌<◌, ◌≡◌, refl, sym, Bool, true, false, List, [], ◌∷◌, ◌++◌, append-nil,
  append_assoc, length, ◌==◌, if◌then◌else◌, ℤ, arith,
}
use zero_feed.Crypto.Cipher.{Primitives}
use zero_feed.Crypto.Pake.{PakePrimitives}
use zero_feed.Feed.Ring.{new_ring_buffer}
use zero_feed.Feed.Ring.Replay.{pushes}
use zero_feed.Feed.Publisher.{
  PublisherEngine, tagged, publish_payload, send_heartbeat, set_rekey_thresholds,
}
use zero_feed.Feed.Handshake.Requests.{handle_requests, handle_requests-IsAnswered}
use zero_feed.Feed.Handshake.Running.{
  Step, published, beaten, lost, requested, limits_set, happen, happen_all, text_of, texts_of,
  has_cipher, Recorded,
}
use zero_feed.Feed.Handshake.Running.Publishing.{
  send_envelope-Recorded, later, unheard, publish_payload-Recorded,
}

module _ (capacity : ℤ) (untagged : Bool) (prims : Primitives) where
  send_heartbeat-Recorded :
      (texts : List (List ℕ)) (n : ℕ) (p : PublisherEngine)
      → Recorded capacity untagged texts n p
      → Recorded capacity untagged texts n (send_heartbeat p)
  unfolding send_heartbeat
  send_heartbeat-Recorded texts n p r = send_envelope-Recorded capacity untagged prims texts n _ p r

  heard :
      (empty : Bool) (texts : List (List ℕ)) (n : ℕ) (text : List ℕ) (p q : PublisherEngine)
      → Recorded capacity untagged texts n p
      → Recorded capacity untagged (texts ++ (text ∷ [])) (suc (suc n)) q
      → Recorded capacity untagged
          (texts ++ (if empty then [] else text ∷ []))
          (suc (suc n))
          (if empty then p else q)
  heard true texts n text p q r r' = unheard capacity untagged prims texts n p r
  heard false texts n text p q r r' = r'

  module _ (pake : PakePrimitives) where
    happen-Recorded :
        (texts : List (List ℕ)) (n : ℕ) (s : Step) (p : PublisherEngine)
        → suc (suc n) < 2 ^ 64
        → Recorded capacity untagged texts n p
        → Recorded capacity untagged
            (texts ++ text_of untagged s)
            (suc (suc n))
            (happen pake prims s p)
    unfolding happen
    happen-Recorded texts n (published i) p b r =
        let text = tagged p.untagged_input i.payload in
        let q = (publish_payload prims i.now i.salt i.pooled text p).1 in
        heard (length i.payload == 0) texts n (tagged untagged i.payload) p q r (
          subst
            (λ u. Recorded capacity untagged (texts ++ (tagged u i.payload ∷ [])) (suc (suc n)) q)
            r.tags
            (publish_payload-Recorded capacity untagged prims texts n i.now i.salt i.pooled text p b
              r))
    happen-Recorded texts n beaten p b r =
        unheard capacity untagged prims texts n (send_heartbeat p)
          (send_heartbeat-Recorded texts n p r)
    happen-Recorded texts n lost p b r =
        unheard capacity untagged prims texts n (record p { writable = false }) r
    happen-Recorded texts n (requested turns) p b r =
        let a = handle_requests-IsAnswered pake prims turns p in
        unheard capacity untagged prims texts n (handle_requests pake prims turns p)
          (subst (Recorded capacity untagged texts n) (sym a.is_sent) r)
    happen-Recorded texts n (limits_set byte_limit time_limit) p b r =
        unheard capacity untagged prims texts n (set_rekey_thresholds byte_limit time_limit p) r

    happen_all-Recorded_from :
        (texts : List (List ℕ)) (n : ℕ) (steps : List Step) (p : PublisherEngine)
        → n + 2 * length steps < 2 ^ 64
        → Recorded capacity untagged texts n p
        → Recorded capacity untagged
            (texts ++ texts_of untagged steps)
            (n + 2 * length steps)
            (happen_all pake prims steps p)
    unfolding happen_all
    happen_all-Recorded_from texts n [] p b r =
        subst (λ l. Recorded capacity untagged l (n + 0) p) (sym (append-nil texts))
          (later capacity untagged prims texts n (n + 0) p (omega arith) r)
    happen_all-Recorded_from texts n (s ∷ steps) p b r =
        let said = text_of untagged s in
        let rest = texts_of untagged steps in
        let m = suc (suc n) + 2 * length steps in
        let q = happen_all pake prims steps (happen pake prims s p) in
        let r' = happen-Recorded texts n s p (omega arith) r in
        let all =
          happen_all-Recorded_from (texts ++ said) (suc (suc n)) steps (happen pake prims s p)
            (omega arith) r' in
        later capacity untagged prims (texts ++ (said ++ rest)) m (n + 2 * suc (length steps)) q
          (omega arith)
          (subst (λ l. Recorded capacity untagged l m q) (append_assoc texts said rest) all)

-- C
pub happen_all-IsRecorded :
    (pake : PakePrimitives) (prims : Primitives) (capacity : ℤ) (steps : List Step)
    (p : PublisherEngine)
    → p.replay_buffer ≡ new_ring_buffer capacity
    → p.seq_counter ≡ 0
    → has_cipher p.cipher ≡ true
    → 2 * length steps < 2 ^ 64
    → Recorded capacity p.untagged_input
        (texts_of p.untagged_input steps)
        (2 * length steps)
        (happen_all pake prims steps p)
unfolding pushes
happen_all-IsRecorded pake prims capacity steps p hr hs hc b =
    let fresh : Recorded capacity p.untagged_input [] 0 p = record {
      history = [];
      replays = hr;
      increasing = tt;
      below = tt;
      bounded = omega arith;
      recorded = refl;
      tags = refl;
      ciphered = hc;
    } in
    later capacity p.untagged_input prims (texts_of p.untagged_input steps) (0 + 2 * length steps)
      (2 * length steps) (happen_all pake prims steps p) (omega arith)
      (happen_all-Recorded_from capacity p.untagged_input prims pake [] 0 steps p (omega arith)
        fresh)
