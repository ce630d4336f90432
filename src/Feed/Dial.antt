-- ===== src/Feed/Dial.antt =====
-- DialRelayWithPin of pkg/feed/session_id.go, and the choice of a relay in pkg/feed/relay_list.go.
pub mod Pinned
mod Tests
use zero_feed.Base.{
  ℕ, Bool, true, false, not, ◌&&◌, ◌||◌, Option, none, some, List, [], ◌∷◌, ◌++◌, length, ◌==◌,
  if◌then◌else◌, bytes_equal, Strings, Result, ok, err,
}

abbrev pub port_https : List ℕ
port_https = b'4' ∷ b'4' ∷ b'3' ∷ []

abbrev pub port_relay : List ℕ
port_relay = b'8' ∷ b'4' ∷ b'4' ∷ b'3' ∷ []

abbrev pub default_server_name : List ℕ
default_server_name =
    b'z' ∷ b'e' ∷ b'r' ∷ b'o' ∷ b'f' ∷ b'e' ∷ b'e' ∷ b'd' ∷ b'.' ∷ b'd' ∷ b'u' ∷ b'c' ∷ b'k' ∷ b'd'
    ∷ b'n' ∷ b's' ∷ b'.' ∷ b'o' ∷ b'r' ∷ b'g' ∷ []

pub data Network : Type 0 where
  tcp tcp4 tcp6 : Network

-- A connection that was made: over TLS with the certificates that the server presented, or plain.
pub data Connection : Type 0 where
  over_tls : List ℕ → Network → List (List ℕ) → Connection
  plain : Network → Connection

pub data DialError : Type 0 where
  pin_failed unreachable no_relays : DialError

-- What the standard library says of addresses: SplitHostPort, and ParseIP with whether the address has a colon.
-- `fingerprint` is CalculateSPKIFingerprint, a hash.
pub record Addresses : Type 0 where
  pub split_host_port : List ℕ → Option (List ℕ × List ℕ)
  pub is_ip : List ℕ → Bool
  pub has_colon : List ℕ → Bool
  pub fingerprint : List ℕ → List ℕ

-- The relay at the other end: the certificates that it presents if TLS gets that far, whether the system trusts
-- them for the server name, and whether plain TCP connects.
pub record Peer : Type 0 where
  pub presents : Option (List (List ℕ))
  pub is_trusted : List ℕ → Bool
  pub accepts : Bool

module _ (addresses : Addresses) where
  -- `VerifyPeerCertificate`
  unfoldable pub verify_peer_certificate : List ℕ → List (List ℕ) → Bool
  verify_peer_certificate pin [] = length pin == 0
  verify_peer_certificate pin (cert ∷ certs) =
      length pin == 0 || bytes_equal (addresses.fingerprint cert) pin

  -- `tls.DialWithDialer`: the chain is verified unless it is skipped, and then the callback is asked.
  tls_accepts : Peer → List ℕ → List ℕ → List (List ℕ) → Bool
  unfolding verify_peer_certificate
  tls_accepts peer server_name pin certs =
      (not (length pin == 0) || peer.is_trusted server_name) && verify_peer_certificate pin certs

  unfoldable pub tls_dial :
      Peer → List ℕ → List ℕ → Network → Option (List (List ℕ)) → Option Connection
  unfolding tls_accepts
  tls_dial peer server_name pin network none = none
  tls_dial peer server_name pin network (some certs) =
      if tls_accepts peer server_name pin certs
      then some (over_tls server_name network certs)
      else none

  unfoldable pub tcp_dial : Peer → Network → Result DialError Connection
  tcp_dial peer network = if peer.accepts then ok (plain network) else err unreachable

  -- After the attempt with TLS: with a pin there is no other attempt.
  unfoldable pub after_tls :
      Peer → List ℕ → Network → Option Connection → Result DialError Connection
  unfolding tcp_dial
  after_tls peer pin network (some c) = ok c
  after_tls peer pin network none =
      if not (length pin == 0) then err pin_failed else tcp_dial peer network

  abbrev host_and_port : List ℕ → Option (List ℕ × List ℕ) → List ℕ × List ℕ
  host_and_port addr none = (addr, [])
  host_and_port addr (some parts) = parts

  -- `env_sni` is the variable ZEROFEED_TLS_SNI.
  unfoldable pub server_name_of : List ℕ → List ℕ → List ℕ
  server_name_of env_sni host =
      if addresses.is_ip host
      then (if length env_sni == 0 then default_server_name else env_sni)
      else host

  unfoldable pub network_of : List ℕ → Network
  network_of host =
      if addresses.is_ip host then (if addresses.has_colon host then tcp6 else tcp4) else tcp

  unfoldable pub dial_host : List ℕ → Peer → List ℕ → List ℕ → List ℕ → Result DialError Connection
  unfolding after_tls tls_dial server_name_of network_of tcp_dial
  dial_host env_sni peer pin host port =
      let network = network_of host in
      if (not (addresses.is_ip host)
          && (bytes_equal port port_https || bytes_equal port port_relay))
        || not (length pin == 0)
      then after_tls peer pin network
          (tls_dial peer (server_name_of env_sni host) pin network peer.presents)
      else tcp_dial peer network

  unfoldable pub dial_relay_with_pin :
      Strings → List ℕ → Peer → List ℕ → List ℕ → Result DialError Connection
  unfolding dial_host
  dial_relay_with_pin strings env_sni peer relay_addr expected_fingerprint =
      let (host, port) = host_and_port relay_addr (addresses.split_host_port relay_addr) in
      dial_host env_sni peer (strings.trim_space (strings.to_lower expected_fingerprint)) host port

abbrev non_empty : Strings → List (List ℕ) → List (List ℕ)
non_empty strings [] = []
non_empty strings (part ∷ parts) =
    let rest = non_empty strings parts in
    if length (strings.trim_space part) == 0 then rest else strings.trim_space part ∷ rest

unfoldable pub parse_relay_list : Strings → List ℕ → List (List ℕ)
parse_relay_list strings s = non_empty strings (strings.split_commas s)

-- The first relay of the list that can be reached; `reaches` tells which.
unfoldable pub first_reached : (List ℕ → Bool) → List (List ℕ) → Result DialError (List ℕ)
first_reached reaches [] = err unreachable
first_reached reaches (addr ∷ relays) =
    let rest = first_reached reaches relays in if reaches addr then ok addr else rest

-- DialFirstAvailable and ProbeFirstAvailable, which give the address.
unfoldable pub dial_first_available : (List ℕ → Bool) → List (List ℕ) → Result DialError (List ℕ)
unfolding first_reached
dial_first_available reaches relays =
    if length relays == 0 then err no_relays else first_reached reaches relays

abbrev pub default_public_relay_ip : List ℕ
default_public_relay_ip =
    b'9' ∷ b'2' ∷ b'.' ∷ b'4' ∷ b'.' ∷ b'2' ∷ b'1' ∷ b'6' ∷ b'.' ∷ b'1' ∷ b'5' ∷ b'0' ∷ b':' ∷ b'8'
    ∷ b'4' ∷ b'4' ∷ b'3' ∷ []

-- ResolveDefaultRelays: `looked_up` is the answer of the resolver, and `join` is JoinHostPort.
unfoldable pub joined_relays : (List ℕ → List ℕ) → List (List ℕ) → List (List ℕ)
joined_relays join [] = default_public_relay_ip ∷ []
joined_relays join (addr ∷ addrs) = join addr ∷ joined_relays join addrs

unfoldable pub resolve_default_relays : (List ℕ → List ℕ) → Option (List (List ℕ)) → List (List ℕ)
unfolding joined_relays
resolve_default_relays join none = default_public_relay_ip ∷ []
resolve_default_relays join (some addrs) = joined_relays join addrs
