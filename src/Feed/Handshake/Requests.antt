-- ===== src/Feed/Handshake/Requests.antt =====
-- The loop of `handleSyncRequests` of pkg/feed/publisher.go: what a publisher answers to whatever the
-- relay passes on to it.
use mathlib.Core.Path.{subst}
use zero_feed.Base.{
  ℕ, ◌≡◌, refl, ap, sym, ◌∙◌, ◌⊎◌, inl, inr, not, Option, none, some, List, [], ◌∷◌, ◌++◌,
  append-nil, append_assoc, length, leb, ltb, ◌==◌, ◌%◌, ◌^◌, if◌then◌else◌, if_elim, All,
  All-append, Result, ok, err,
}
use zero_feed.Protocol.Messages.{
  Envelope, msg_type_pake_init_sub, msg_type_pake_step2, msg_type_sync_req, msg_type_data_stream,
}
use zero_feed.Protocol.Frame.{max_payload_size}
use zero_feed.Crypto.Hkdf.{CryptoError}
use zero_feed.Crypto.Cipher.{Primitives, Cipher}
use zero_feed.Crypto.Pake.{PakePrimitives, PakePeer, PakeError, Randomness, new_pake_peer}
use zero_feed.Feed.Ring.{Msg}
use zero_feed.Feed.Publisher.{
  PublisherEngine, PublishError, send_envelope, send_result, frame_of, encrypted_frame, replay_each,
  replay_with, replay_sync, handle_sync_req,
}
use zero_feed.Feed.Handshake.{
  handshake_frame, answer, answer_with, answer_for, handle_pake_init_sub,
}

-- How a read ends, before which the context is looked at: with a frame, and the random values and the
-- buffers of the pool that the answer takes.
pub data Turn : Type 0 where
  cancelled unreadable timed_out : Turn
  arrived : Randomness → List ℕ → (ℕ → List ℕ) → Envelope → Turn

module _ (pake : PakePrimitives) (prims : Primitives) where
  -- An acknowledgement of a chunk only wakes `SendFile`.
  unfoldable pub handle_request :
      Randomness → List ℕ → (ℕ → List ℕ) → Envelope → PublisherEngine → PublisherEngine
  unfolding handle_pake_init_sub handle_sync_req
  handle_request rand random pooled env p =
      if env.msg_type == msg_type_pake_init_sub
      then handle_pake_init_sub pake prims rand random env p
      else if env.msg_type == msg_type_sync_req
      then handle_sync_req prims pooled env p
      else p

  unfoldable pub handle_requests : List Turn → PublisherEngine → PublisherEngine
  unfolding handle_request
  handle_requests [] p = p
  handle_requests (cancelled ∷ turns) p = p
  handle_requests (unreadable ∷ turns) p = p
  handle_requests (timed_out ∷ turns) p =
      let rest = handle_requests turns p in if p.connected then rest else p
  handle_requests (arrived rand random pooled env ∷ turns) p =
      let rest = handle_requests turns (handle_request rand random pooled env p) in
      if p.connected then rest else p

-- A frame of the session that answers a handshake or replays a message.
abbrev pub IsAnswer : List ℕ → Envelope → Type 0
IsAnswer sid env =
    (env.session_id ≡ sid)
    × ((env.msg_type ≡ msg_type_pake_step2) ⊎ (env.msg_type ≡ msg_type_data_stream))

abbrev pub with_sent : PublisherEngine → List Envelope → PublisherEngine
with_sent p envs = record p { sent = p.sent ++ envs }

-- Answers were sent, and nothing else changed.
pub record IsAnswered (p q : PublisherEngine) : Type 0 where
  pub answers : List Envelope
  pub is_sent : q ≡ with_sent p answers
  pub are_answers : All (IsAnswer p.session_id) answers

unchanged : (p : PublisherEngine) → IsAnswered p p
unchanged p = record {
  answers = [];
  is_sent = ap (λ s. record p { sent = s }) (sym (append-nil p.sent));
  are_answers = tt;
}

sent_more :
    (p q : PublisherEngine) (envs : List Envelope)
    → All (IsAnswer p.session_id) envs
    → IsAnswered (with_sent p envs) q
    → IsAnswered p q
sent_more p q envs h a = record {
  answers = envs ++ a.answers;
  is_sent = a.is_sent ∙ ap (λ s. record p { sent = s }) (append_assoc p.sent envs a.answers);
  are_answers = All-append (IsAnswer p.session_id) envs a.answers h a.are_answers;
}

followed_by : (p q r : PublisherEngine) → IsAnswered p q → IsAnswered q r → IsAnswered p r
followed_by p q r a b =
    sent_more p r a.answers a.are_answers (subst (λ x. IsAnswered x r) a.is_sent b)

send_envelope-IsAnswered :
    (env : Envelope) (p : PublisherEngine)
    → IsAnswer p.session_id env
    → IsAnswered p (send_envelope env p).1
unfolding send_envelope
send_envelope-IsAnswered env p h =
    let P : Result PublishError (Unit {0}) × PublisherEngine → Type 0 = λ r. IsAnswered p r.1 in
    if_elim P (not p.connected) _ _ (unchanged p) (
      if_elim P (ltb max_payload_size (length env.payload % 2 ^ 32)) _ _ (unchanged p) (
        if_elim P (not p.writable) _ _ (unchanged p)
          (record { answers = env ∷ []; is_sent = refl; are_answers = (h, tt) })))

module _ (pake : PakePrimitives) (prims : Primitives) where
  answer-IsAnswered :
      (r : Result PakeError (List ℕ)) (p : PublisherEngine) → IsAnswered p (answer pake prims r p)
  unfolding answer
  answer-IsAnswered (err e) p = unchanged p
  answer-IsAnswered (ok payload) p =
      send_envelope-IsAnswered (handshake_frame msg_type_pake_step2 p.session_id payload) p
        (refl, inl refl)

  answer_with-IsAnswered :
      (rand : Randomness) (random : List ℕ) (env : Envelope) (r : Result PakeError PakePeer)
      (p : PublisherEngine)
      → IsAnswered p (answer_with pake prims rand random env r p)
  unfolding answer_with
  answer_with-IsAnswered rand random env (err e) p = unchanged p
  answer_with-IsAnswered rand random env (ok peer) p = answer-IsAnswered _ p

  answer_for-IsAnswered :
      (rand : Randomness) (random : List ℕ) (env : Envelope) (o : Option (List ℕ))
      (p : PublisherEngine)
      → IsAnswered p (answer_for pake prims rand random env o p)
  unfolding answer_for
  answer_for-IsAnswered rand random env none p = unchanged p
  answer_for-IsAnswered rand random env (some passphrase) p =
      answer_with-IsAnswered rand random env (new_pake_peer pake rand passphrase 1) p

  send_frame_of-IsAnswered :
      (seq : ℕ) (nonce : List ℕ) (r : Result CryptoError (List ℕ × List ℕ)) (p : PublisherEngine)
      → IsAnswered p
          (send_result prims (frame_of msg_type_data_stream p.session_id seq nonce r) p).1
  unfolding send_result frame_of
  send_frame_of-IsAnswered seq nonce (err e) p = unchanged p
  send_frame_of-IsAnswered seq nonce (ok (ciphertext, used)) p =
      send_envelope-IsAnswered _ p (refl, inr refl)

  replay_each-IsAnswered :
      (c : Cipher) (items : List Msg) (p : PublisherEngine)
      → IsAnswered p (replay_each prims c items p)
  unfolding replay_each encrypted_frame
  replay_each-IsAnswered c [] p = unchanged p
  replay_each-IsAnswered c (item ∷ items) p =
      followed_by p _ _ (send_frame_of-IsAnswered item.seq _ _ p) (replay_each-IsAnswered c items _)

  replay_with-IsAnswered :
      (o : Option Cipher) (items : List Msg) (p : PublisherEngine)
      → IsAnswered p (replay_with prims o items p)
  unfolding replay_with
  replay_with-IsAnswered none items p = unchanged p
  replay_with-IsAnswered (some c) items p =
      if_elim (IsAnswered p) p.connected _ _ (replay_each-IsAnswered c items p) (unchanged p)

  handle_request-IsAnswered :
      (rand : Randomness) (random : List ℕ) (pooled : ℕ → List ℕ) (env : Envelope)
      (p : PublisherEngine)
      → IsAnswered p (handle_request pake prims rand random pooled env p)
  unfolding handle_request handle_pake_init_sub handle_sync_req replay_sync
  handle_request-IsAnswered rand random pooled env p =
      if_elim (IsAnswered p) (env.msg_type == msg_type_pake_init_sub) _ _
        (answer_for-IsAnswered rand random env p.passphrase p)
        (if_elim (IsAnswered p) (env.msg_type == msg_type_sync_req) _ _
          (if_elim (IsAnswered p) (leb 8 (length env.payload)) _ _
            (replay_with-IsAnswered p.cipher _ p) (unchanged p))
          (unchanged p))

  -- Whatever the relay passes on to a publisher and however the reads end, the loop of
  -- handleSyncRequests changes nothing of the engine but its sent frames: neither key, passphrase,
  -- sequence counter nor replay buffer. It only adds frames to them, and each of these carries the
  -- id of the publisher's session and is an answer to a handshake or a data frame.
  pub handle_requests-IsAnswered :
      (turns : List Turn) (p : PublisherEngine) → IsAnswered p (handle_requests pake prims turns p)
  unfolding handle_requests
  handle_requests-IsAnswered [] p = unchanged p
  handle_requests-IsAnswered (cancelled ∷ turns) p = unchanged p
  handle_requests-IsAnswered (unreadable ∷ turns) p = unchanged p
  handle_requests-IsAnswered (timed_out ∷ turns) p =
      if_elim (IsAnswered p) p.connected _ _ (handle_requests-IsAnswered turns p) (unchanged p)
  handle_requests-IsAnswered (arrived rand random pooled env ∷ turns) p =
      let first = handle_request-IsAnswered rand random pooled env p in
      if_elim (IsAnswered p) p.connected _ _
        (followed_by p _ _ first (handle_requests-IsAnswered turns _)) (unchanged p)
