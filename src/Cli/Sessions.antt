-- ===== src/Cli/Sessions.antt =====
-- main.go: runPublish and runSubscribe as the calls that they make of the engines. The flags are read
-- and the banners left out; `Answers` says how the engine's calls end. The goroutine that reads the
-- standard input and the stream that publishes are taken in the order of the input.
use zero_feed.Base.{
  ℕ, Bool, true, false, not, ◌&&◌, ◌||◌, Option, none, some, List, [], ◌∷◌, ◌++◌, drop,
  if◌then◌else◌, has_prefix, bytes_equal, codes, ℤ, pos, Result, ok, err,
}
use zero_feed.Protocol.Messages.{tag_text}
use zero_feed.Feed.Invite.{Bytes, Invite, InviteError, is_empty, generate_invite}
use zero_feed.Cli.Shell.{
  Shell, CliError, no_passphrase, invalid_ttl, engine_failed, connect_failed, handshake_failed,
  send_failed, parse_passphrase, resolve_relay_addr,
}
use zero_feed.Cli.Sizes.{parse_byte_size}

-- A call of an engine, with its arguments.
pub data Action : Type 0 where
  makes_engine : Bytes → Bytes → Action
  sets_rekey_thresholds : ℕ → ℤ → Action
  sets_pin : Bytes → Action
  sets_quic : Action
  connects : Action
  completes_handshake : ℤ → Action
  sends_file : Bytes → Action
  sets_untagged : Bool → Action
  publishes : Bytes → Action
  subscribes : Action

pub record Answers : Type 0 where
  pub is_made : Bool
  pub is_connected : Bool
  pub is_authenticated : Bool
  pub is_sent : Bytes → Bool
  pub is_published : Bytes → Bool

pub record Stdin : Type 0 where
  pub is_terminal : Bool
  pub chunks : List Bytes
  pub lines : List Bytes

-- `passphrases` has the five aliases in their order.
pub record PublishOptions : Type 0 where
  pub passphrases : List Bytes
  pub relay : Bytes
  pub r : Bytes
  pub ttl : Bytes
  pub file : Bytes
  pub f : Bytes
  pub is_quic : Bool
  pub fingerprint : Bytes
  pub rekey_bytes : Bytes
  pub rekey_time : Bytes

pub record SubscribeOptions : Type 0 where
  pub passphrases : List Bytes
  pub arguments : List Bytes
  pub relay : Bytes
  pub r : Bytes
  pub is_quic : Bool
  pub fingerprint : Bytes

abbrev pub Run : Type 0
Run = Result CliError (Unit {0}) × List Action

abbrev pub after : List Action → Run → Run
after actions (r, rest) = (r, actions ++ rest)

abbrev pub when : Bool → Action → List Action
when b a = if b then a ∷ [] else []

abbrev pub or_zero : Option ℤ → ℤ
or_zero none = pos 0
or_zero (some t) = t

abbrev pub with_text : Bytes → Bytes → Bytes
with_text s default = if is_empty s then default else s

unfoldable pub is_command : Bytes → Bool
is_command line = has_prefix line (codes "/send ") || has_prefix line (codes "/file ")

-- A line of the terminal: a command to send a file, or a text with its tag.
unfoldable pub line_action : Shell → Bytes → Action
unfolding is_command
line_action shell line =
    if is_command line
    then sends_file (shell.texts.trim_space (drop 6 line))
    else publishes (tag_text ∷ (line ++ (b'\n' ∷ [])))

unfoldable pub line_actions : Shell → List Bytes → List Action
unfolding line_action
line_actions shell [] = []
line_actions shell (line ∷ lines) = line_action shell line ∷ line_actions shell lines

unfoldable pub chunk_actions : List Bytes → List Action
chunk_actions [] = []
chunk_actions (chunk ∷ chunks) =
    if is_empty chunk then chunk_actions chunks else publishes chunk ∷ chunk_actions chunks

-- PublishStream ends at the first payload that cannot be published.
unfoldable pub until_failed : Answers → List Action → List Action
until_failed answers [] = []
until_failed answers (publishes payload ∷ rest) =
    publishes payload ∷ (if answers.is_published payload then until_failed answers rest else [])
until_failed answers (a ∷ rest) = a ∷ until_failed answers rest

unfoldable pub publish_stream : Shell → Answers → Stdin → Run
unfolding line_actions chunk_actions until_failed
publish_stream shell answers stdin = (
  ok tt,
  sets_untagged (not stdin.is_terminal)
      ∷ until_failed answers (
          if stdin.is_terminal then line_actions shell stdin.lines else chunk_actions stdin.chunks),
)

unfoldable pub transmit : Shell → Answers → Stdin → Bytes → Run
unfolding publish_stream
transmit shell answers stdin file =
    if is_empty file
    then publish_stream shell answers stdin
    else ((if answers.is_sent file then ok tt else err send_failed), sends_file file ∷ [])

-- Connect and CompleteHandshake, and what follows if both succeed.
unfoldable pub link_by : Bool → Bool → ℤ → Run → Run
link_by false authenticated ttl session = (err connect_failed, connects ∷ [])
link_by true false ttl session = (err handshake_failed, connects ∷ completes_handshake ttl ∷ [])
link_by true true ttl session = after (connects ∷ completes_handshake ttl ∷ []) session

unfoldable pub link : Answers → ℤ → Run → Run
unfolding link_by
link answers = link_by answers.is_connected answers.is_authenticated

unfoldable pub publish_settings : Shell → PublishOptions → List Action
publish_settings shell o =
    sets_rekey_thresholds (parse_byte_size shell o.rekey_bytes)
      (or_zero (shell.parse_duration o.rekey_time))
    ∷ (when (not (is_empty o.fingerprint)) (sets_pin o.fingerprint) ++ when o.is_quic sets_quic)

unfoldable pub publish_to : Shell → Answers → Stdin → PublishOptions → Bytes → ℤ → Run
unfolding link publish_settings transmit
publish_to shell answers stdin o relay_addr ttl =
    let pass = with_text (parse_passphrase shell o.passphrases) shell.new_code in
    if answers.is_made
    then after (makes_engine pass relay_addr ∷ publish_settings shell o)
        (link answers ttl (transmit shell answers stdin (with_text o.f o.file)))
    else (err engine_failed, makes_engine pass relay_addr ∷ [])

abbrev pub with_ttl : Option ℤ → (ℤ → Run) → Run
with_ttl none run = (err invalid_ttl, [])
with_ttl (some ttl) run = run ttl

abbrev pub with_relay : Result CliError Bytes → (Bytes → Run) → Run
with_relay (err e) run = (err e, [])
with_relay (ok relay_addr) run = run relay_addr

unfoldable pub run_publish : Shell → Answers → Stdin → PublishOptions → Run
unfolding publish_to
run_publish shell answers stdin o = with_relay (resolve_relay_addr shell o.relay o.r) λ relay_addr.
    with_ttl (shell.parse_duration o.ttl) (publish_to shell answers stdin o relay_addr)

-- What the flags and the invite give a subscriber.
pub record Joined : Type 0 where
  pub pass : Bytes
  pub relay_addr : Bytes
  pub over_quic : Bool
  pub pin : Bytes

abbrev pub joined_at : SubscribeOptions → Invite → Bytes → Joined
joined_at o inv relay_addr = record {
  pass = inv.channel_code;
  relay_addr = relay_addr;
  over_quic = bytes_equal inv.transport_mode (codes "quic") || o.is_quic;
  pin = with_text o.fingerprint inv.spki_fingerprint;
}

abbrev pub at_relay : (Bytes → Joined) → Result CliError Bytes → Result CliError Joined
at_relay at (err e) = err e
at_relay at (ok relay_addr) = ok (at relay_addr)

-- The invite's relay is taken if no flag names one.
unfoldable pub join_invite : Shell → SubscribeOptions → Invite → Result CliError Joined
join_invite shell o inv =
    if not (is_empty inv.relay_addr) && is_empty o.relay && is_empty o.r
    then ok (joined_at o inv inv.relay_addr)
    else at_relay (joined_at o inv) (resolve_relay_addr shell o.relay o.r)

abbrev pub first_argument : List Bytes → Bytes
first_argument [] = []
first_argument (a ∷ arguments) = a

unfoldable pub given_code : Shell → SubscribeOptions → Bytes
given_code shell o = with_text (parse_passphrase shell o.passphrases) (first_argument o.arguments)

-- A text that ParseInvite refuses is the code itself.
unfoldable pub join_text :
    Shell → SubscribeOptions → Bytes → Result InviteError Invite → Result CliError Joined
unfolding join_invite generate_invite
join_text shell o pass (ok inv) = join_invite shell o inv
join_text shell o pass (err e) =
    at_relay (joined_at o (generate_invite pass [])) (resolve_relay_addr shell o.relay o.r)

unfoldable pub subscribe_to : Answers → Joined → Run
unfolding link
subscribe_to answers j =
    if answers.is_made
    then after
        (makes_engine j.pass j.relay_addr
          ∷ (when (not (is_empty j.pin)) (sets_pin j.pin) ++ when j.over_quic sets_quic))
        (link answers (pos 0) (ok tt, subscribes ∷ []))
    else (err engine_failed, makes_engine j.pass j.relay_addr ∷ [])

abbrev pub with_joined : Result CliError Joined → (Joined → Run) → Run
with_joined (err e) run = (err e, [])
with_joined (ok j) run = run j

unfoldable pub run_subscribe :
    Shell → Answers → (Bytes → Result InviteError Invite) → SubscribeOptions → Run
unfolding given_code join_text subscribe_to
run_subscribe shell answers parse o =
    if is_empty (given_code shell o)
    then (err no_passphrase, [])
    else with_joined (join_text shell o (given_code shell o) (parse (given_code shell o)))
        (subscribe_to answers)
