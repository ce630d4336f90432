-- ===== src/Cli/Sharing.antt =====
-- main.go: runMain's choice of a command, runInvite and runJoin, and what a shared invite makes of
-- the subscriber that is given it.
use zero_feed.Base.{
  ◌≡◌, refl, ap, ◌∙◌, Bool, true, false, ◌||◌, List, [], ◌∷◌, if◌then◌else◌, All, IsByte,
  bytes_equal, codes, Result, ok, err,
}
use zero_feed.Feed.Invite.{
  Bytes, Invite, InviteError, is_empty, generate_invite, parse_invite, to_uri, to_web_url,
}
use zero_feed.Feed.Invite.Escapes.{IsPlainByte}
use zero_feed.Feed.Invite.Query.{IsGraphic}
use zero_feed.Feed.Invite.Whole.{IsWritable, parse_invite-to_uri, to_uri-filled, to_web_url-filled}
use zero_feed.Cli.Shell.{
  Shell, CliError, no_subcommand, unknown_subcommand, no_invite, first_text, parse_passphrase,
}
use zero_feed.Cli.Sessions.{
  Answers, SubscribeOptions, Run, with_text, first_argument, given_code, joined_at, join_invite,
  join_text, subscribe_to, run_subscribe,
}

pub data Command : Type 0 where
  publish subscribe invite join relay gen version help : Command

abbrev pub one_of : Bytes → Bytes → Bytes → Bool
one_of s a b = bytes_equal s a || bytes_equal s b

abbrev pub one_of_three : Bytes → Bytes → Bytes → Bytes → Bool
one_of_three s a b c = one_of s a b || bytes_equal s c

unfoldable pub command_of : Bytes → Result CliError Command
command_of s =
    if one_of s (codes "publish") (codes "pub")
    then ok publish
    else if one_of s (codes "subscribe") (codes "sub")
    then ok subscribe
    else if bytes_equal s (codes "invite")
    then ok invite
    else if bytes_equal s (codes "join")
    then ok join
    else if bytes_equal s (codes "relay")
    then ok relay
    else if one_of s (codes "gen") (codes "generate")
    then ok gen
    else if one_of_three s (codes "version") (codes "-v") (codes "--version")
    then ok version
    else if one_of_three s (codes "help") (codes "-h") (codes "--help")
    then ok help
    else err unknown_subcommand

-- The arguments after the program's name.
unfoldable pub run_main : List Bytes → Result CliError (Command × List Bytes)
unfolding command_of
run_main [] = err no_subcommand
run_main (s ∷ arguments) = elim (command_of s) [ err e ↦ err e | ok c ↦ ok (c, arguments) ]

-- `passphrases` has the two aliases.
pub record InviteOptions : Type 0 where
  pub passphrases : List Bytes
  pub arguments : List Bytes
  pub relay : Bytes
  pub r : Bytes

abbrev pub default_relay : Bytes
default_relay = codes "relay.zerofeed.app:8443"

-- The invite that is printed, as its URI or in a banner.
unfoldable pub run_invite : Shell → InviteOptions → Invite
unfolding first_text generate_invite
run_invite shell o =
    generate_invite
      (with_text (with_text (parse_passphrase shell o.passphrases) (first_argument o.arguments))
        shell.new_code)
      (first_text (o.relay ∷ o.r ∷ shell.relay_env ∷ []) default_relay)

unfoldable pub run_join :
    Shell → Answers → (Bytes → Result InviteError Invite) → List Bytes → SubscribeOptions → Run
run_join shell answers parse [] o = (err no_invite, [])
run_join shell answers parse (a ∷ arguments) o = run_subscribe shell answers parse o

is_empty-first_text :
    (texts : List Bytes) (last : Bytes)
    → is_empty last ≡ false
    → is_empty (first_text texts last) ≡ false
unfolding first_text
is_empty-first_text [] last h = h
is_empty-first_text ([] ∷ texts) last h = is_empty-first_text texts last h
is_empty-first_text ((c ∷ s) ∷ texts) last h = refl

-- A subscriber that is given a text which reads as an invite with a relay, and no relay by a flag.
subscribe-invite :
    (shell : Shell) (answers : Answers) (parse : Bytes → Result InviteError Invite)
    (o : SubscribeOptions) (text : Bytes) (i : Invite)
    → given_code shell o ≡ text
    → is_empty text ≡ false
    → parse text ≡ ok i
    → is_empty i.relay_addr ≡ false
    → is_empty o.relay ≡ true
    → is_empty o.r ≡ true
    → run_subscribe shell answers parse o ≡ subscribe_to answers (joined_at o i i.relay_addr)
unfolding run_subscribe join_text join_invite
subscribe-invite shell answers parse o text i g t p ra rl rr = rw (g, t, p) (rw (ra, rl, rr) refl)

with_text-nil : (s : Bytes) → with_text s [] ≡ s
with_text-nil [] = refl
with_text-nil (c ∷ s) = refl

with_text-filled :
    (s default : Bytes) → is_empty default ≡ false → is_empty (with_text s default) ≡ false
with_text-filled [] default h = h
with_text-filled (c ∷ s) default h = refl

abbrev pub shared : Bool → Invite → Bytes
shared as_link i = if as_link then to_web_url i else to_uri i

module _ (publisher : Shell) (io : InviteOptions) (coded : is_empty publisher.new_code ≡ false)
    (code_bytes : All IsByte (run_invite publisher io).channel_code)
    (relay_plain : All IsPlainByte (run_invite publisher io).relay_addr) where
  run_invite-IsWritable : IsWritable (run_invite publisher io)
  run_invite-IsWritable = record {
    coded = unfold run_invite in with_text-filled _ publisher.new_code coded;
    code_bytes = code_bytes;
    relay_plain = relay_plain;
    transport_bytes = unfold run_invite in tt;
    fingerprint_bytes = unfold run_invite in tt;
  }

  shared-filled : (as_link : Bool) → is_empty (shared as_link (run_invite publisher io)) ≡ false
  shared-filled true = to_web_url-filled (run_invite publisher io) run_invite-IsWritable
  shared-filled false = to_uri-filled (run_invite publisher io) run_invite-IsWritable

  module _ (accepts : Bytes → Bytes → Bool) (joins : accepts (codes "join") [] ≡ true)
      (subscriber : Shell)
      (trims : (s : Bytes) → All IsGraphic s → subscriber.texts.trim_space s ≡ s) where
    parse-shared :
        (as_link : Bool)
        → parse_invite subscriber.texts accepts (shared as_link (run_invite publisher io))
          ≡ ok (run_invite publisher io)
    parse-shared true =
        (parse_invite-to_uri (run_invite publisher io) run_invite-IsWritable subscriber.texts trims
          accepts joins).1
    parse-shared false =
        (parse_invite-to_uri (run_invite publisher io) run_invite-IsWritable subscriber.texts trims
          accepts joins).0

    relay-filled : is_empty (run_invite publisher io).relay_addr ≡ false
    unfolding run_invite
    relay-filled =
        is_empty-first_text (io.relay ∷ io.r ∷ publisher.relay_env ∷ []) default_relay refl

    joined-run_invite :
        (o : SubscribeOptions)
        → joined_at o (run_invite publisher io) (run_invite publisher io).relay_addr ≡ record {
          pass = (run_invite publisher io).channel_code;
          relay_addr = (run_invite publisher io).relay_addr;
          over_quic = o.is_quic;
          pin = o.fingerprint;
        }
    unfolding run_invite bytes_equal
    joined-run_invite o =
        ap
          (λ pin. record {
            pass = (run_invite publisher io).channel_code;
            relay_addr = (run_invite publisher io).relay_addr;
            over_quic = o.is_quic;
            pin = pin;
          })
          (with_text-nil o.fingerprint)

    -- A subscriber that is given the URI or the web link of an invite that the invite command
    -- made, and no relay by a flag, makes its engine with the code and the relay of the invite,
    -- whatever else its environment has, with its own fingerprint flag as the pin and its own
    -- choice of QUIC. The code consists of bytes, the relay of printable ASCII without the space
    -- and & # ; % +, generateChannelCode gives no empty code, TrimSpace leaves printable ASCII as
    -- it is, and url.Parse accepts the host join.
    pub run_subscribe-run_invite :
        (answers : Answers) (o : SubscribeOptions) (as_link : Bool)
        → given_code subscriber o ≡ shared as_link (run_invite publisher io)
        → is_empty o.relay ≡ true
        → is_empty o.r ≡ true
        → run_subscribe subscriber answers (parse_invite subscriber.texts accepts) o
          ≡ subscribe_to answers (record {
            pass = (run_invite publisher io).channel_code;
            relay_addr = (run_invite publisher io).relay_addr;
            over_quic = o.is_quic;
            pin = o.fingerprint;
          })
    run_subscribe-run_invite answers o as_link g rl rr =
        subscribe-invite subscriber answers (parse_invite subscriber.texts accepts) o
          (shared as_link (run_invite publisher io)) (run_invite publisher io) g
          (shared-filled as_link) (parse-shared as_link) relay-filled rl rr
        ∙ ap (subscribe_to answers) (joined-run_invite o)
