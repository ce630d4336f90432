-- ===== src/Feed/Dial/Tests.antt =====
-- The theorem of pinned dials at a concrete input.
use zero_feed.Base.{◌≡◌, refl, true, false, none, some, [], ◌∷◌, bytes_equal, Strings, ok, arith}
use zero_feed.Feed.Dial.{
  tcp, Connection, over_tls, Addresses, Peer, verify_peer_certificate, tls_accepts, tls_dial,
  after_tls, network_of, server_name_of, dial_host, dial_relay_with_pin,
}
use zero_feed.Feed.Dial.Pinned.{IsPinned, dial_relay_with_pin-IsPinned}

abbrev plain_strings : Strings
plain_strings = record {
  to_lower = λ s. s;
  trim_space = λ s. s;
  equal_fold = bytes_equal;
  split_commas = λ s. s ∷ [];
}

abbrev some_addresses : Addresses
some_addresses = record {
  split_host_port = λ addr. none;
  is_ip = λ host. false;
  has_colon = λ host. false;
  fingerprint = λ cert. cert;
}

-- A relay with a certificate of its own.
abbrev some_relay : Peer
some_relay = record { presents = some ((1 ∷ []) ∷ []); is_trusted = λ name. false; accepts = true }

abbrev dialed : Connection
dialed = over_tls (b'r' ∷ []) tcp ((1 ∷ []) ∷ [])

reached :
    dial_relay_with_pin some_addresses plain_strings [] some_relay (b'r' ∷ []) (1 ∷ []) ≡ ok dialed
unfolding dial_relay_with_pin dial_host network_of server_name_of after_tls tls_dial tls_accepts
    verify_peer_certificate bytes_equal
reached = refl

dial_relay_with_pin-IsPinned_example : IsPinned some_addresses (1 ∷ []) some_relay dialed
dial_relay_with_pin-IsPinned_example =
    dial_relay_with_pin-IsPinned some_addresses plain_strings [] (b'r' ∷ []) (1 ∷ []) some_relay
      dialed (omega arith) reached
