-- ===== src/Feed/Handshake/Running.antt =====
-- A running publisher of pkg/feed/publisher.go: the goroutines of `PublishStream` up to its end, in any
-- order of their steps, and the history that its replay buffer holds.
pub mod Publishing
pub mod History
pub mod Synced
mod Tests
use mathlib.Core.Path.{subst}
use zero_feed.Base.{
  ℕ, suc, ◌+◌, ◌*◌, ◌^◌, ◌%◌, ◌≤◌, ◌<◌, ◌≡◌, refl, ap, sym, ◌∙◌, Bool, true, false, not, Option,
  none, some, List, [], ◌∷◌, ◌++◌, append-nil, append_assoc, length, ltb, ◌==◌, if◌then◌else◌,
  if_elim, All, All-append, Result, ok, err, ℤ, arith,
}
use zero_feed.Protocol.Messages.{Envelope, msg_type_rekey, msg_type_data_stream}
use zero_feed.Protocol.Padding.{pad_payload, default_padding_target_size}
use zero_feed.Protocol.Frame.{max_payload_size}
use zero_feed.Crypto.Hkdf.{CryptoError}
use zero_feed.Crypto.Cipher.{Primitives, Cipher, update_key}
use zero_feed.Crypto.Pake.{PakePrimitives}
use zero_feed.Feed.Ring.{RingBuffer, Msg, new_ring_buffer, push}
use zero_feed.Feed.Ring.Replay.{pushes, pushed, IsIncreasing}
use zero_feed.Feed.Publisher.{
  PublisherEngine, PublishError, Input, tagged, send_envelope, send_result, encrypted_frame,
  with_key, ratcheted, rekey_sent, rekey_with, trigger_rekey, should_rekey, after_rekey,
  publish_with, publish_payload, send_heartbeat, set_rekey_thresholds,
}
use zero_feed.Feed.Stream.Follow.{contents, contents-append}
use zero_feed.Feed.Handshake.Requests.{Turn, handle_requests, handle_requests-IsAnswered, with_sent}

-- A step of the loop of inputs, of its heartbeat, of `handleSyncRequests`, or of the program around them.
-- With `lost` the connection stops to take frames.
pub data Step : Type 0 where
  published : Input → Step
  beaten lost : Step
  requested : List Turn → Step
  limits_set : ℕ → ℕ → Step

module _ (pake : PakePrimitives) (prims : Primitives) where
  unfoldable pub happen : Step → PublisherEngine → PublisherEngine
  happen (published i) p =
      if length i.payload == 0
      then p
      else (publish_payload prims i.now i.salt i.pooled (tagged p.untagged_input i.payload) p).1
  happen beaten p = send_heartbeat p
  happen lost p = record p { writable = false }
  happen (requested turns) p = handle_requests pake prims turns p
  happen (limits_set byte_limit time_limit) p = set_rekey_thresholds byte_limit time_limit p

  unfoldable pub happen_all : List Step → PublisherEngine → PublisherEngine
  unfolding happen
  happen_all [] p = p
  happen_all (s ∷ steps) p = happen_all steps (happen s p)

-- The payloads of the steps, as far as they are not empty, with their tags.
abbrev pub text_of : Bool → Step → List (List ℕ)
text_of untagged (published i) =
    if length i.payload == 0 then [] else tagged untagged i.payload ∷ []
text_of untagged beaten = []
text_of untagged lost = []
text_of untagged (requested turns) = []
text_of untagged (limits_set byte_limit time_limit) = []

abbrev pub texts_of : Bool → List Step → List (List ℕ)
texts_of untagged [] = []
texts_of untagged (s ∷ steps) = text_of untagged s ++ texts_of untagged steps

abbrev pub has_cipher : Option Cipher → Bool
has_cipher none = false
has_cipher (some c) = true

abbrev pub IsUpTo : ℕ → Msg → Type 0
IsUpTo seq m = m.seq ≤ seq

-- The ring comes from pushes of exactly the texts, under numbers that grow up to the counter.
pub record IsRecorded (capacity : ℤ) (untagged : Bool) (texts : List (List ℕ)) (n : ℕ)
    (rb : RingBuffer) (seq : ℕ) (untagged_input : Bool) (c : Option Cipher) : Type 0 where
  pub history : List (List ℕ × Msg)
  pub replays : rb ≡ pushes (new_ring_buffer capacity) history
  pub increasing : IsIncreasing (pushed history)
  pub below : All (IsUpTo seq) (pushed history)
  pub bounded : seq ≤ n
  pub recorded : contents (pushed history) ≡ texts
  pub tags : untagged_input ≡ untagged
  pub ciphered : has_cipher c ≡ true

abbrev pub Recorded : ℤ → Bool → List (List ℕ) → ℕ → PublisherEngine → Type 0
Recorded capacity untagged texts n p =
    IsRecorded capacity untagged texts n p.replay_buffer p.seq_counter p.untagged_input p.cipher

pushes-append :
    (rb : RingBuffer) (ms : List (List ℕ × Msg)) (pooled : List ℕ) (m : Msg)
    → pushes rb (ms ++ ((pooled, m) ∷ [])) ≡ (push pooled (pushes rb ms) m.seq m.bytes).0
unfolding pushes
pushes-append rb [] pooled m = refl
pushes-append rb ((old, k) ∷ ms) pooled m = pushes-append (push old rb k.seq k.bytes).0 ms pooled m

pushed-append :
    (ms : List (List ℕ × Msg)) (pooled : List ℕ) (m : Msg)
    → pushed (ms ++ ((pooled, m) ∷ [])) ≡ pushed ms ++ (m ∷ [])
pushed-append [] pooled m = refl
pushed-append ((old, k) ∷ ms) pooled m = ap (λ l. k ∷ l) (pushed-append ms pooled m)

IsUpTo-All : (a b : ℕ) (ms : List Msg) → a ≤ b → All (IsUpTo a) ms → All (IsUpTo b) ms
IsUpTo-All a b [] h all = tt
IsUpTo-All a b (m ∷ ms) h all = (omega arith, IsUpTo-All a b ms h all.1)

IsIncreasing-append :
    (seq : ℕ) (ms : List Msg) (m : Msg)
    → IsIncreasing ms
    → All (IsUpTo seq) ms
    → seq < m.seq
    → IsIncreasing (ms ++ (m ∷ []))
IsIncreasing-append seq [] m h all l = (tt, tt)
IsIncreasing-append seq (k ∷ ms) m h all l =
    (All-append _ ms (m ∷ []) h.0 (omega arith, tt), IsIncreasing-append seq ms m h.1 all.1 l)

-- More numbers, and another cipher, change nothing of the history.
pub counted_on :
    (capacity : ℤ) (untagged : Bool) (texts : List (List ℕ)) (m n seq seq' : ℕ) (rb : RingBuffer)
    (u : Bool) (c c' : Option Cipher)
    → seq ≤ seq'
    → seq' ≤ n
    → has_cipher c' ≡ true
    → IsRecorded capacity untagged texts m rb seq u c
    → IsRecorded capacity untagged texts n rb seq' u c'
counted_on capacity untagged texts m n seq seq' rb u c c' h b k r = record {
  history = r.history;
  replays = r.replays;
  increasing = r.increasing;
  below = IsUpTo-All seq seq' (pushed r.history) h r.below;
  bounded = b;
  recorded = r.recorded;
  tags = r.tags;
  ciphered = k;
}

pub push-IsRecorded :
    (capacity : ℤ) (untagged : Bool) (texts : List (List ℕ)) (n seq : ℕ) (rb : RingBuffer)
    (u : Bool) (c : Option Cipher) (pooled payload : List ℕ)
    → IsRecorded capacity untagged texts n rb seq u c
    → IsRecorded capacity untagged
        (texts ++ (payload ∷ []))
        (suc n)
        (push pooled rb (suc seq) payload).0
        (suc seq)
        u
        c
push-IsRecorded capacity untagged texts n seq rb u c pooled payload r =
    let m : Msg = record { seq = suc seq; bytes = payload } in
    let listed = pushed-append r.history pooled m in
    record {
      history = r.history ++ ((pooled, m) ∷ []);
      replays =
          ap (λ b. (push pooled b (suc seq) payload).0) r.replays
          ∙ sym (pushes-append (new_ring_buffer capacity) r.history pooled m);
      increasing =
          subst IsIncreasing (sym listed)
            (IsIncreasing-append seq (pushed r.history) m r.increasing r.below (omega arith));
      below = subst (All (IsUpTo (suc seq))) (sym listed) (
          All-append (IsUpTo (suc seq)) (pushed r.history) (m ∷ [])
            (IsUpTo-All seq (suc seq) (pushed r.history) (omega arith) r.below) (omega arith, tt));
      bounded = let b = r.bounded in omega arith;
      recorded =
          ap contents listed
          ∙ contents-append (pushed r.history) (m ∷ [])
          ∙ ap (λ l. l ++ (payload ∷ [])) r.recorded;
      tags = r.tags;
      ciphered = r.ciphered;
    }
