-- ===== src/Feed/Dial/Pinned.antt =====
-- What a pinned certificate guarantees, and what no pin does, in pkg/feed/session_id.go.
use zero_feed.Base.{
  ℕ, ◌<◌, ◌≡◌, refl, ap, sym, ◌∙◌, Bool, true, false, not, ◌&&◌, ◌||◌, Option, none, some, List, [],
  ◌∷◌, length, ◌==◌, if◌then◌else◌, bytes_equal, bytes_equal_sound, if_elim, Strings, ok, arith,
}
use zero_feed.Feed.Dial.{
  port_https, port_relay, Network, Connection, over_tls, plain, Addresses, Peer,
  verify_peer_certificate, tls_accepts, tls_dial, tcp_dial, after_tls, network_of, server_name_of,
  host_and_port, dial_host, dial_relay_with_pin,
}

module _ (addresses : Addresses) where
  -- A connection over TLS whose first certificate has the fingerprint.
  abbrev pub IsPinned : List ℕ → Peer → Connection → Type 0
  IsPinned pin peer c =
      (server_name : List ℕ) × (network : Network) × (cert : List ℕ) × (certs : List (List ℕ)) × (c
        ≡ over_tls server_name network (cert ∷ certs))
      × (peer.presents ≡ some (cert ∷ certs))
      × (addresses.fingerprint cert ≡ pin)

  tls_dial-IsPinned :
      (peer : Peer) (server_name pin : List ℕ) (network : Network)
      (presents : Option (List (List ℕ))) (c : Connection)
      → 0 < length pin
      → peer.presents ≡ presents
      → tls_dial addresses peer server_name pin network presents ≡ some c
      → IsPinned pin peer c
  unfolding tls_dial tls_accepts verify_peer_certificate
  tls_dial-IsPinned peer server_name pin network none c h hp e = absurd cc
  tls_dial-IsPinned peer server_name pin network (some []) c h hp e = absurd (ground arith)
  tls_dial-IsPinned peer server_name pin network (some (cert ∷ certs)) c h hp e = (
    server_name,
    network,
    cert,
    certs,
    ground arith,
    hp,
    ground (arith, bytes_equal_sound (addresses.fingerprint cert) pin),
  )

  after_tls-pinned :
      (peer : Peer) (pin : List ℕ) (network : Network) (o : Option Connection) (c : Connection)
      → 0 < length pin
      → after_tls addresses peer pin network o ≡ ok c
      → o ≡ some c
  unfolding after_tls
  after_tls-pinned peer pin network none c h e = absurd (ground arith)
  after_tls-pinned peer pin network (some c') c h e = cc

  either_true : {A : Type 0} (a b : Bool) (x y : A) → b ≡ true → (if a || b then x else y) ≡ x
  either_true a b x y h = ground arith

  tls_dial-untrusted :
      (peer : Peer) (server_name pin : List ℕ) (network : Network)
      (presents : Option (List (List ℕ)))
      → length pin ≡ 0
      → peer.is_trusted server_name ≡ false
      → tls_dial addresses peer server_name pin network presents ≡ none
  unfolding tls_dial tls_accepts
  tls_dial-untrusted peer server_name pin network none h u = refl
  tls_dial-untrusted peer server_name pin network (some certs) h u = rw (h, u)

  dial_host-plain :
      (env_sni pin host port : List ℕ) (peer : Peer)
      → length pin ≡ 0
      → ((name : List ℕ) → peer.is_trusted name ≡ false)
      → peer.accepts ≡ true
      → dial_host addresses env_sni peer pin host port ≡ ok (plain (network_of addresses host))
  unfolding dial_host after_tls tcp_dial
  dial_host-plain env_sni pin host port peer h u t =
      let network = network_of addresses host in
      let server_name = server_name_of addresses env_sni host in
      let failed =
        tls_dial-untrusted peer server_name pin network peer.presents h (u server_name) in
      let direct : tcp_dial addresses peer network ≡ ok (plain network) = rw t in
      let fallen : after_tls addresses peer pin network
            (tls_dial addresses peer server_name pin network peer.presents)
          ≡ ok (plain network) =
        ap (after_tls addresses peer pin network) failed ∙ rw h direct in
      if_elim (λ r. r ≡ ok (plain network))
        ((not (addresses.is_ip host)
            && (bytes_equal port port_https || bytes_equal port port_relay))
          || not (length pin == 0))
        _ _ fallen direct

  dial_host-IsPinned :
      (env_sni pin host port : List ℕ) (peer : Peer) (c : Connection)
      → 0 < length pin
      → dial_host addresses env_sni peer pin host port ≡ ok c
      → IsPinned pin peer c
  unfolding dial_host
  dial_host-IsPinned env_sni pin host port peer c h e =
      let network = network_of addresses host in
      let server_name = server_name_of addresses env_sni host in
      let probes =
        not (addresses.is_ip host)
        && (bytes_equal port port_https || bytes_equal port port_relay) in
      let asked : not (length pin == 0) ≡ true = ground arith in
      tls_dial-IsPinned peer server_name pin network peer.presents c h refl (
        after_tls-pinned peer pin network
          (tls_dial addresses peer server_name pin network peer.presents) c h
          (sym (
              either_true probes (not (length pin == 0))
                (after_tls addresses peer pin network
                  (tls_dial addresses peer server_name pin network peer.presents))
                (tcp_dial addresses peer network) asked)
            ∙ e))

  -- If there is a pin that is not blank, and the dial succeeds, then the connection is over TLS,
  -- and the first certificate that the relay presented has the pinned fingerprint, in lower case
  -- and without spaces around it.
  pub dial_relay_with_pin-IsPinned :
      (strings : Strings) (env_sni relay_addr fingerprint : List ℕ) (peer : Peer) (c : Connection)
      → 0 < length (strings.trim_space (strings.to_lower fingerprint))
      → dial_relay_with_pin addresses strings env_sni peer relay_addr fingerprint ≡ ok c
      → IsPinned (strings.trim_space (strings.to_lower fingerprint)) peer c
  unfolding dial_relay_with_pin
  dial_relay_with_pin-IsPinned strings env_sni relay_addr fingerprint peer c h e =
      let pin = strings.trim_space (strings.to_lower fingerprint) in
      let (host, port) =
        host_and_port addresses relay_addr (addresses.split_host_port relay_addr) in
      dial_host-IsPinned env_sni pin host port peer c h e

  -- Without a pin, a relay that the system does not trust and that takes plain TCP is connected to in plain,
  -- whatever its port.
  pub dial_relay_with_pin-plain :
      (strings : Strings) (env_sni relay_addr fingerprint : List ℕ) (peer : Peer)
      → length (strings.trim_space (strings.to_lower fingerprint)) ≡ 0
      → ((name : List ℕ) → peer.is_trusted name ≡ false)
      → peer.accepts ≡ true
      → (network : Network) × (dial_relay_with_pin addresses strings env_sni peer relay_addr
            fingerprint
          ≡ ok (plain network))
  unfolding dial_relay_with_pin
  dial_relay_with_pin-plain strings env_sni relay_addr fingerprint peer h untrusted takes =
      let pin = strings.trim_space (strings.to_lower fingerprint) in
      let (host, port) =
        host_and_port addresses relay_addr (addresses.split_host_port relay_addr) in
      (network_of addresses host, dial_host-plain env_sni pin host port peer h untrusted takes)
