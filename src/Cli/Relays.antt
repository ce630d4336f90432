-- ===== src/Cli/Relays.antt =====
-- main.go: runRelay as what it sets up, in its order. A port is an `int` of the flag package.
use zero_feed.Base.{
  zero, suc, Bool, true, false, not, List, [], ◌∷◌, ◌++◌, if◌then◌else◌, codes, ℤ, pos, negsuc,
  Result, ok, err,
}
use zero_feed.Feed.Invite.{Bytes, is_empty}
use zero_feed.Cli.Shell.{CliError, relay_failed}
use zero_feed.Cli.Codes.{decimal_steps}

pub record RelayOptions : Type 0 where
  pub port : ℤ
  pub is_quic : Bool
  pub ws_port : ℤ
  pub ws_cert : Bytes
  pub ws_key : Bytes
  pub no_rate_limit : Bool
  pub trust_proxy : Bool
  pub metrics_port : ℤ
  pub metrics_addr : Bytes

-- A call of the relay's server, or of the registry of wipers with its Close.
pub data Setup : Type 0 where
  makes_server : Bytes → Setup
  sets_rate_limiting : Bool → Setup
  sets_trust_proxy : Bool → Setup
  registers_close : Setup
  starts_metrics : Bytes → Setup
  starts_websocket : Bytes → Bytes → Bytes → Setup
  starts_quic : Setup
  starts : Setup

-- `%d`; an `int` has 20 digits at most.
unfoldable pub print_int : ℤ → Bytes
unfolding decimal_steps
print_int (pos n) = decimal_steps 20 n
print_int (negsuc n) = b'-' ∷ decimal_steps 20 (suc n)

abbrev pub is_positive : ℤ → Bool
is_positive (pos zero) = false
is_positive (pos (suc n)) = true
is_positive (negsuc n) = false

-- `0.0.0.0:%d`
unfoldable pub any_address : ℤ → Bytes
unfolding print_int
any_address port = codes "0.0.0.0:" ++ print_int port

unfoldable pub metrics_address : RelayOptions → Bytes
unfolding any_address
metrics_address o =
    if is_empty o.metrics_addr
    then (if is_positive o.metrics_port then any_address o.metrics_port else [])
    else o.metrics_addr

abbrev pub setup_if : Bool → Setup → List Setup
setup_if b s = if b then s ∷ [] else []

unfoldable pub relay_setup : RelayOptions → List Setup
unfolding metrics_address
relay_setup o =
    makes_server (any_address o.port)
    ∷ (setup_if o.no_rate_limit (sets_rate_limiting false)
        ++ (setup_if o.trust_proxy (sets_trust_proxy true)
            ++ (registers_close
                ∷ (setup_if (not (is_empty (metrics_address o)))
                      (starts_metrics (metrics_address o))
                    ++ (setup_if (is_positive o.ws_port)
                          (starts_websocket (any_address o.ws_port) o.ws_cert o.ws_key)
                        ++ (setup_if o.is_quic starts_quic ++ (starts ∷ [])))))))

-- `serves` says whether Start returns without an error.
unfoldable pub run_relay : Bool → RelayOptions → Result CliError (Unit {0}) × List Setup
unfolding relay_setup
run_relay serves o = ((if serves then ok tt else err relay_failed), relay_setup o)
