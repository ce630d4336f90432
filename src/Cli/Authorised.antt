-- ===== src/Cli/Authorised.antt =====
-- What main.go lets its engines do before the handshake: nothing leaves before both ends are known.
use zero_feed.Base.{
  ◌≡◌, refl, inl, inr, Bool, true, false, not, ◌&&◌, ◌||◌, List, [], ◌∷◌, ◌++◌, if◌then◌else◌,
  if_elim, drop, Option-cases, Result-cases, bytes_equal, bytes_equal_refl, ℤ, pos, Result, ok, err,
}
use zero_feed.Feed.Invite.{Bytes, Invite, InviteError, is_empty}
use zero_feed.Protocol.Messages.{tag_text}
use zero_feed.Cli.Shell.{Shell, engine_failed, resolve_relay_addr}
use zero_feed.Cli.Sessions.{
  Action, makes_engine, sets_rekey_thresholds, sets_pin, sets_quic, connects, completes_handshake,
  sends_file, sets_untagged, publishes, subscribes, Answers, Stdin, PublishOptions,
  SubscribeOptions, Run, after, when, Joined, line_action, line_actions, chunk_actions,
  until_failed, publish_stream, transmit, link, link_by, is_command, publish_settings, publish_to,
  run_publish, subscribe_to, join_text, given_code, run_subscribe,
}

-- How far an engine is: made, connected, known to its peer, or at an end.
pub data Phase : Type 0 where
  unmade made connected authenticated ended : Phase

abbrev pub on_answer : Bool → Phase → Phase
on_answer b p = if b then p else ended

-- The calls come in their order: an engine is made before all, connects only with the pin set, if
-- there is one, completes the handshake only if it is connected, and sends, publishes or subscribes
-- only after a handshake that succeeded.
unfoldable pub permitted : Bytes → (Bool × Bool × Bool) → Phase → Bool → List Action → Bool
permitted pin ends p pinned [] = true
permitted pin ends unmade pinned (makes_engine pass relay ∷ rest) =
    permitted pin ends (on_answer ends.0 made) false rest
permitted pin ends made pinned (sets_pin fingerprint ∷ rest) =
    bytes_equal fingerprint pin && permitted pin ends made true rest
permitted pin ends made pinned (sets_rekey_thresholds b t ∷ rest) =
    permitted pin ends made pinned rest
permitted pin ends made pinned (sets_quic ∷ rest) = permitted pin ends made pinned rest
permitted pin ends made pinned (connects ∷ rest) =
    (pinned || is_empty pin) && permitted pin ends (on_answer ends.1 connected) pinned rest
permitted pin ends connected pinned (completes_handshake ttl ∷ rest) =
    permitted pin ends (on_answer ends.2 authenticated) pinned rest
permitted pin ends authenticated pinned (sends_file path ∷ rest) =
    permitted pin ends authenticated pinned rest
permitted pin ends authenticated pinned (sets_untagged b ∷ rest) =
    permitted pin ends authenticated pinned rest
permitted pin ends authenticated pinned (publishes payload ∷ rest) =
    permitted pin ends authenticated pinned rest
permitted pin ends authenticated pinned (subscribes ∷ rest) =
    permitted pin ends authenticated pinned rest
permitted pin ends p pinned (a ∷ rest) = false

abbrev pub ends_of : Answers → Bool × Bool × Bool
ends_of answers = (answers.is_made, answers.is_connected, answers.is_authenticated)

module _ (pin : Bytes) (ends : Bool × Bool × Bool) (answers : Answers) (pinned : Bool) where
  Sending : List Action → Type 0
  Sending actions = permitted pin ends authenticated pinned actions ≡ true

  until_failed-Sending :
      (actions : List Action) → Sending actions → Sending (until_failed answers actions)
  unfolding Sending permitted until_failed
  until_failed-Sending [] h = refl
  until_failed-Sending (publishes payload ∷ rest) h =
      if_elim Sending (answers.is_published payload) (until_failed answers rest) []
        (until_failed-Sending rest h) refl
  until_failed-Sending (sends_file path ∷ rest) h = until_failed-Sending rest h
  until_failed-Sending (sets_untagged b ∷ rest) h = until_failed-Sending rest h
  until_failed-Sending (subscribes ∷ rest) h = until_failed-Sending rest h
  until_failed-Sending (makes_engine pass relay ∷ rest) h = cc
  until_failed-Sending (sets_rekey_thresholds b t ∷ rest) h = cc
  until_failed-Sending (sets_pin fingerprint ∷ rest) h = cc
  until_failed-Sending (sets_quic ∷ rest) h = cc
  until_failed-Sending (connects ∷ rest) h = cc
  until_failed-Sending (completes_handshake ttl ∷ rest) h = cc

  line_actions-Sending : (shell : Shell) (lines : List Bytes) → Sending (line_actions shell lines)
  unfolding Sending permitted line_actions line_action
  line_actions-Sending shell [] = refl
  line_actions-Sending shell (line ∷ lines) =
      if_elim (λ a. Sending (a ∷ line_actions shell lines)) (is_command line)
        (sends_file (shell.texts.trim_space (drop 6 line)))
        (publishes (tag_text ∷ (line ++ (b'\n' ∷ [])))) (line_actions-Sending shell lines)
        (line_actions-Sending shell lines)

  chunk_actions-Sending : (chunks : List Bytes) → Sending (chunk_actions chunks)
  unfolding Sending permitted chunk_actions
  chunk_actions-Sending [] = refl
  chunk_actions-Sending (chunk ∷ chunks) =
      if_elim Sending (is_empty chunk) (chunk_actions chunks)
        (publishes chunk ∷ chunk_actions chunks) (chunk_actions-Sending chunks)
        (chunk_actions-Sending chunks)

  transmit-Sending :
      (shell : Shell) (stdin : Stdin) (file : Bytes) → Sending (transmit shell answers stdin file).1
  unfolding Sending permitted transmit publish_stream
  transmit-Sending shell stdin file =
      if_elim {A = Run} (λ r. Sending r.1) (is_empty file) _ _
        (until_failed-Sending
          (if stdin.is_terminal then line_actions shell stdin.lines else chunk_actions stdin.chunks)
          (if_elim Sending stdin.is_terminal (line_actions shell stdin.lines)
            (chunk_actions stdin.chunks) (line_actions-Sending shell stdin.lines)
            (chunk_actions-Sending stdin.chunks)))
        refl

-- From the connection on.
link-permitted :
    (pin : Bytes) (m c a pinned : Bool) (ttl : ℤ) (session : Run)
    → (pinned || is_empty pin) ≡ true
    → permitted pin (m, c, a) authenticated pinned session.1 ≡ true
    → permitted pin (m, c, a) made pinned (link_by c a ttl session).1 ≡ true
unfolding link_by permitted
link-permitted pin m false a pinned ttl session p h = rw p refl
link-permitted pin m true false pinned ttl session p h = rw p refl
link-permitted pin m true true pinned ttl session p h = rw p h

abbrev pub pinning : Bytes → Bool → List Action
pinning pin quic = when (not (is_empty pin)) (sets_pin pin) ++ when quic sets_quic

settings-permitted :
    (pin : Bytes) (ends : Bool × Bool × Bool) (quic : Bool) (rest : List Action)
    → ((pinned : Bool)
        → (pinned || is_empty pin) ≡ true
        → permitted pin ends made pinned rest ≡ true)
    → permitted pin ends made false (pinning pin quic ++ rest) ≡ true
unfolding permitted
settings-permitted [] ends true rest h = h false refl
settings-permitted [] ends false rest h = h false refl
settings-permitted (c ∷ pin) ends true rest h = rw (bytes_equal_refl (c ∷ pin)) (h true refl)
settings-permitted (c ∷ pin) ends false rest h = rw (bytes_equal_refl (c ∷ pin)) (h true refl)

-- What may come between the making of the engine and the connection.
abbrev Settles : Bytes → Bool × Bool × Bool → List Action → Type 0
Settles pin ends settings =
    (rest : List Action)
    → ((pinned : Bool)
        → (pinned || is_empty pin) ≡ true
        → permitted pin ends made pinned rest ≡ true)
    → permitted pin ends made false (settings ++ rest) ≡ true

made-permitted :
    (pin : Bytes) (m c a : Bool) (settings : List Action) (pass relay : Bytes) (ttl : ℤ)
    (session : Run)
    → Settles pin (true, c, a) settings
    → ((pinned : Bool) → permitted pin (true, c, a) authenticated pinned session.1 ≡ true)
    → permitted pin
        (m, c, a)
        unmade
        false
        (if m
          then after (makes_engine pass relay ∷ settings) (link_by c a ttl session)
          else (err engine_failed, makes_engine pass relay ∷ [])).1
      ≡ true
unfolding permitted
made-permitted pin false c a settings pass relay ttl session k h = refl
made-permitted pin true c a settings pass relay ttl session k h =
    k (link_by c a ttl session).1
      (λ pinned p. link-permitted pin true c a pinned ttl session p (h pinned))

publish_settings-Settles :
    (shell : Shell) (o : PublishOptions) (ends : Bool × Bool × Bool)
    → Settles o.fingerprint ends (publish_settings shell o)
unfolding publish_settings permitted
publish_settings-Settles shell o ends rest h =
    settings-permitted o.fingerprint ends o.is_quic rest h

publish_to-permitted :
    (shell : Shell) (answers : Answers) (stdin : Stdin) (o : PublishOptions) (relay_addr : Bytes)
    (ttl : ℤ)
    → permitted o.fingerprint
        (ends_of answers)
        unmade
        false
        (publish_to shell answers stdin o relay_addr ttl).1
      ≡ true
unfolding publish_to link
publish_to-permitted shell answers stdin o relay_addr ttl =
    made-permitted o.fingerprint answers.is_made answers.is_connected answers.is_authenticated
      (publish_settings shell o) _ relay_addr ttl _ (publish_settings-Settles shell o _)
      (λ pinned. unfold Sending in transmit-Sending o.fingerprint _ answers pinned shell stdin _)

-- Whatever the flags, the environment, the input and the answers of the engine: publish makes an
-- engine before all other calls, sets the fingerprint of its flag, if there is one, before it
-- connects, completes the handshake only after a connection, sends files and publishes payloads
-- only after a handshake that succeeded, and makes no call after one of these three failed.
pub run_publish-permitted :
    (shell : Shell) (answers : Answers) (stdin : Stdin) (o : PublishOptions)
    → permitted o.fingerprint (ends_of answers) unmade false (run_publish shell answers stdin o).1
      ≡ true
unfolding run_publish
run_publish-permitted shell answers stdin o =
    elim (Result-cases (resolve_relay_addr shell o.relay o.r)) [
      | inl (e, q) ↦ rw q (unfold permitted in refl)
      | inr (relay_addr, q) ↦ rw q (elim (Option-cases (shell.parse_duration o.ttl)) [
        | inl n ↦ rw n (unfold permitted in refl)
        | inr (ttl, n) ↦ rw n (publish_to-permitted shell answers stdin o relay_addr ttl)
      ])
    ]

subscribe_to-permitted :
    (answers : Answers) (j : Joined)
    → permitted j.pin (ends_of answers) unmade false (subscribe_to answers j).1 ≡ true
unfolding subscribe_to link
subscribe_to-permitted answers j =
    made-permitted j.pin answers.is_made answers.is_connected answers.is_authenticated
      (pinning j.pin j.over_quic) j.pass j.relay_addr (pos 0) (ok tt, subscribes ∷ [])
      (settings-permitted j.pin (true, answers.is_connected, answers.is_authenticated) j.over_quic)
      (λ pinned. unfold permitted in refl)

-- The same for subscribe, with the pin of the invite or of the flag.
pub run_subscribe-permitted :
    (shell : Shell) (answers : Answers) (parse : Bytes → Result InviteError Invite)
    (o : SubscribeOptions) (j : Joined)
    → join_text shell o (given_code shell o) (parse (given_code shell o)) ≡ ok j
    → permitted j.pin (ends_of answers) unmade false (run_subscribe shell answers parse o).1 ≡ true
unfolding run_subscribe
run_subscribe-permitted shell answers parse o j e =
    if_elim {A = Run} (λ r. permitted j.pin (ends_of answers) unmade false r.1 ≡ true)
      (is_empty (given_code shell o)) _ _ (unfold permitted in refl)
      (rw e (subscribe_to-permitted answers j))
