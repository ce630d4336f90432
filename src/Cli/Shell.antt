-- ===== src/Cli/Shell.antt =====
-- main.go: the environment of a command, and how it finds the passphrase and the relay.
use zero_feed.Base.{
  ℕ, ◌-◌, Bool, Option, List, [], ◌∷◌, ◌++◌, length, take, drop, replicate, leb, ◌==◌, ℤ,
  if◌then◌else◌, Strings, Result, ok, err,
}
use zero_feed.Feed.Dial.{parse_relay_list, dial_first_available, resolve_default_relays}
use zero_feed.Feed.Invite.{Bytes, is_empty}

pub data CliError : Type 0 where
  no_subcommand unknown_subcommand no_passphrase no_relay relay_unreachable invalid_ttl : CliError
  engine_failed connect_failed handshake_failed send_failed relay_failed no_invite : CliError

-- What a command finds outside: the variables ZEROFEED_PASSPHRASE and ZEROFEED_RELAY, the texts of the
-- standard library, the duration in nanoseconds that a text gives, the resolver's answer with
-- JoinHostPort, which relays can be reached, and the code that generateChannelCode gives.
pub record Shell : Type 0 where
  pub passphrase_env : Bytes
  pub relay_env : Bytes
  pub texts : Strings
  pub to_upper : Bytes → Bytes
  pub parse_duration : Bytes → Option ℤ
  pub looked_up : Option (List Bytes)
  pub join_host_port : Bytes → Bytes
  pub reaches : Bytes → Bool
  pub new_code : Bytes

-- The first text that is not empty.
unfoldable pub first_text : List Bytes → Bytes → Bytes
first_text [] last = last
first_text (s ∷ texts) last = if is_empty s then first_text texts last else s

-- The flags in the order of the call; a nil pointer is left out.
unfoldable pub parse_passphrase : Shell → List Bytes → Bytes
unfolding first_text
parse_passphrase shell flags = first_text flags shell.passphrase_env

-- `maskSecret`, on the runes of the text.
unfoldable pub mask_secret : List ℕ → List ℕ
mask_secret r =
    if leb (length r) 4
    then replicate (length r) b'*'
    else take 2 r ++ (replicate (length r - 4) b'*' ++ drop (length r - 2) r)

-- The list that `resolveRelayAddr` probes: -r, then --relay, then the variable, then the resolver.
unfoldable pub relay_list : Shell → Bytes → Bytes → List Bytes
unfolding first_text
relay_list shell r1 r2 =
    let raw = first_text (r2 ∷ r1 ∷ []) shell.relay_env in
    if is_empty raw
    then resolve_default_relays shell.join_host_port shell.looked_up
    else parse_relay_list shell.texts raw

unfoldable pub probe : Shell → List Bytes → Result CliError Bytes
probe shell list = elim (dial_first_available shell.reaches list) [
  | ok addr ↦ ok addr
  | err e ↦ err relay_unreachable
]

-- `raw == ""` and an empty answer of the resolver is an error of its own.
unfoldable pub resolve_relay_addr : Shell → Bytes → Bytes → Result CliError Bytes
unfolding first_text relay_list probe
resolve_relay_addr shell r1 r2 =
    if is_empty (first_text (r2 ∷ r1 ∷ []) shell.relay_env)
    then (if length (relay_list shell r1 r2) == 0
        then err no_relay
        else probe shell (relay_list shell r1 r2))
    else probe shell (relay_list shell r1 r2)
