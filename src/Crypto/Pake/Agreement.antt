-- ===== src/Crypto/Pake/Agreement.antt =====
-- Two peers of pkg/crypto/pake.go with the same passphrase.
use zero_feed.Base.{
  ℕ, ◌%◌, ◌≤◌, ◌<◌, ◌≡◌, refl, ap, ◌∙◌, some, List, [], ◌∷◌, ◌++◌, length, take, drop,
  length-append, ok, bytes_equal_refl, arith,
}
use zero_feed.Crypto.Hkdf.{hkdf_sha256}
use zero_feed.Crypto.Hkdf.Rfc5869.{hkdf_sha256_lem}
use zero_feed.Crypto.Cipher.{Primitives, IsLawful}
use zero_feed.Crypto.Pake.{
  PakePrimitives, IsLawfulPake, PakePeer, Randomness, master_info, auth_info, or_nil, bytes_of,
  uniform, confirmation, new_pake_peer, derive_master_key_argon2, keyed, combined, as_publisher,
  decapsulated, as_subscriber, exchanged, update, session_key, checked, confirm_tag,
  verify_peer_confirm,
}
use zero_feed.Crypto.Pake.Peers.{
  Agree, new_publisher, new_subscriber, new_pake_peer-publisher, new_pake_peer-subscriber,
  length-bytes_of, length-uniform, uniform-parts,
}

module _ (pake : PakePrimitives) (lawful_pake : IsLawfulPake pake) where
  module _ (prims : Primitives) (lawful : IsLawful prims) where
    -- The peer with a key.
    abbrev with_key : List ℕ → PakePeer → PakePeer
    with_key key p = record p {
      shared_key = some key;
      mac_tag = some (prims.hmac key (auth_info ++ (p.role % 256 ∷ [])));
    }

    -- The master key of two shared secrets and a passphrase.
    abbrev IsMaster : List ℕ → List ℕ → List ℕ → List ℕ → Type 0
    IsMaster x m passphrase key =
        hkdf_sha256 prims.hmac (x ++ m) (derive_master_key_argon2 pake passphrase) master_info 32
        ≡ ok key

    combined_lem :
        (x m passphrase key : List ℕ) (p : PakePeer)
        → p.passphrase ≡ some passphrase
        → IsMaster x m passphrase key
        → combined pake prims x m p ≡ (ok tt, with_key key p)
    unfolding combined keyed
    combined_lem x m passphrase key p e h =
        ap
          (λ q.
            keyed pake prims
              (hkdf_sha256 prims.hmac (x ++ m) (derive_master_key_argon2 pake (or_nil q))
                master_info 32)
              p)
          e
        ∙ ap (λ r. keyed pake prims r p) h

    update-publisher :
        (rand : Randomness) (theirs x m c passphrase key : List ℕ)
        → length theirs ≡ 1280
        → pake.ecdh rand.x25519_key (take 32 theirs) ≡ some x
        → pake.encapsulate rand.encapsulation (take 1184 (drop 32 theirs)) ≡ some (m, c)
        → IsMaster x m passphrase key
        → update pake prims rand theirs (new_publisher pake lawful_pake rand passphrase) ≡ (
          ok tt,
          with_key key (record (new_publisher pake lawful_pake rand passphrase) {
            pub_bytes = some (uniform rand.noise (pake.x25519_public rand.x25519_key ++ c));
          }),
        )
    unfolding update exchanged as_publisher
    update-publisher rand theirs x m c passphrase key n hx hm hk =
        let q : PakePeer = record (new_publisher pake lawful_pake rand passphrase) {
          pub_bytes = some (uniform rand.noise (pake.x25519_public rand.x25519_key ++ c));
        } in
        rw (n, hx, hm) (combined_lem x m passphrase key q refl hk)

    update-subscriber :
        (rand : Randomness) (theirs x m passphrase key : List ℕ)
        → length theirs ≡ 1280
        → pake.ecdh rand.x25519_key (take 32 theirs) ≡ some x
        → pake.decapsulate rand.mlkem_key (take 1088 (drop 32 theirs)) ≡ some m
        → IsMaster x m passphrase key
        → update pake prims rand theirs (new_subscriber pake lawful_pake rand passphrase)
          ≡ (ok tt, with_key key (new_subscriber pake lawful_pake rand passphrase))
    unfolding update exchanged as_subscriber decapsulated
    update-subscriber rand theirs x m passphrase key n hx hm hk =
        rw (n, hx, hm)
          (combined_lem x m passphrase key (new_subscriber pake lawful_pake rand passphrase) refl
            hk)

    -- The exchange: the publisher takes the subscriber's bytes, and the subscriber the publisher's answer.
    abbrev pub Exchanged : Randomness → Randomness → PakePeer → PakePeer → List ℕ → Type 0
    Exchanged rp rs p s key =
        (p' : PakePeer) × (s' : PakePeer) × (update pake prims rp (bytes_of s) p ≡ (ok tt, p'))
        × (update pake prims rs (bytes_of p') s ≡ (ok tt, s'))
        × Agree key p' s'

    pub exchanged_lem :
        (rp rs : Randomness) (passphrase : List ℕ)
        → 1280 ≤ length rp.noise
        → 1280 ≤ length rs.noise
        → (key : List ℕ) × Exchanged rp rs
            (new_publisher pake lawful_pake rp passphrase)
            (new_subscriber pake lawful_pake rs passphrase)
            key
    exchanged_lem rp rs passphrase np ns =
        let (x, xn, xp, xs) = lawful_pake.ecdh_agrees rp.x25519_key rs.x25519_key in
        let (m, c, cn, enc, dec) =
          lawful_pake.decapsulate-encapsulate rp.encapsulation rs.mlkem_key in
        let (hk, kn) =
          hkdf_sha256_lem prims.hmac lawful.length-hmac (x ++ m)
            (derive_master_key_argon2 pake passphrase) master_info 32 1
            (omega (arith, length-append x m)) (omega arith) in
        let subs =
          uniform-parts rs.noise (pake.x25519_public rs.x25519_key)
            (pake.encapsulation_key rs.mlkem_key) 1184
            (lawful_pake.length-x25519_public rs.x25519_key)
            (lawful_pake.length-encapsulation_key rs.mlkem_key) in
        let pubs =
          uniform-parts rp.noise (pake.x25519_public rp.x25519_key) c 1088
            (lawful_pake.length-x25519_public rp.x25519_key) cn in
        let sized : length (uniform rp.noise (pake.x25519_public rp.x25519_key ++ c)) ≡ 1280 =
          length-uniform rp.noise (pake.x25519_public rp.x25519_key ++ c)
            (omega (
              arith,
              length-append (pake.x25519_public rp.x25519_key) c,
              lawful_pake.length-x25519_public rp.x25519_key,
              cn,
            ))
            np in
        (
          _,
          (
            _,
            _,
            update-publisher rp (bytes_of (new_subscriber pake lawful_pake rs passphrase)) x m c
                passphrase _ (length-bytes_of pake lawful_pake rs passphrase ns)
                (ap (pake.ecdh rp.x25519_key) subs.0 ∙ xp)
                (ap (pake.encapsulate rp.encapsulation) subs.1 ∙ enc) hk,
            update-subscriber rs (uniform rp.noise (pake.x25519_public rp.x25519_key ++ c)) x m
                passphrase _ sized (ap (pake.ecdh rs.x25519_key) pubs.0 ∙ xs)
                (ap (pake.decapsulate rs.mlkem_key) pubs.1 ∙ dec) hk,
            record {
              publisher_key = refl;
              subscriber_key = refl;
              publisher_role = refl;
              subscriber_role = refl;
              key_sized = kn;
              payload_sized = sized;
            },
          ),
        )

    -- Each peer's tag is the other's.
    pub verify_peer_confirm-Agree :
        (key : List ℕ) (p s : PakePeer)
        → Agree key p s
        → (session_key p ≡ ok key)
          × (session_key s ≡ ok key)
          × (confirm_tag prims p ≡ ok (prims.hmac key (confirmation 1)))
          × (confirm_tag prims s ≡ ok (prims.hmac key (confirmation 2)))
          × (verify_peer_confirm prims (prims.hmac key (confirmation 1)) s ≡ ok tt)
          × (verify_peer_confirm prims (prims.hmac key (confirmation 2)) p ≡ ok tt)
    unfolding session_key confirm_tag verify_peer_confirm checked confirmation
    verify_peer_confirm-Agree key p s a = (
      rw a.publisher_key,
      rw a.subscriber_key,
      rw (a.publisher_key, a.publisher_role),
      rw (a.subscriber_key, a.subscriber_role),
      rw (
        a.subscriber_key,
        a.subscriber_role,
        lawful.length-hmac key (confirmation 1),
        bytes_equal_refl (prims.hmac key (confirmation 1)),
      ),
      rw (
        a.publisher_key,
        a.publisher_role,
        lawful.length-hmac key (confirmation 2),
        bytes_equal_refl (prims.hmac key (confirmation 2)),
      ),
    )

    -- If a publisher and a subscriber start from the same passphrase, which is not empty, each has
    -- at least 1280 bytes of noise for the padding, the publisher takes the subscriber's bytes and
    -- the subscriber those that the publisher answers with, then both calls of Update succeed,
    -- both have the same session key of 32 bytes, and each one accepts the other's confirmation
    -- tag.
    pub update-agrees :
        (rp rs : Randomness) (passphrase : List ℕ)
        → 0 < length passphrase
        → 1280 ≤ length rp.noise
        → 1280 ≤ length rs.noise
        → (p : PakePeer) × (s : PakePeer) × (p' : PakePeer) × (s' : PakePeer) × (key : List ℕ)
          × (tp : List ℕ) × (ts : List ℕ) × (new_pake_peer pake rp passphrase 1 ≡ ok p)
          × (new_pake_peer pake rs passphrase 2 ≡ ok s)
          × (update pake prims rp (bytes_of s) p ≡ (ok tt, p'))
          × (update pake prims rs (bytes_of p') s ≡ (ok tt, s'))
          × (length key ≡ 32)
          × (session_key p' ≡ ok key)
          × (session_key s' ≡ ok key)
          × (confirm_tag prims p' ≡ ok tp)
          × (confirm_tag prims s' ≡ ok ts)
          × (verify_peer_confirm prims tp s' ≡ ok tt)
          × (verify_peer_confirm prims ts p' ≡ ok tt)
    update-agrees rp rs passphrase h np ns =
        let (key, (p', s', up, us, agree)) = exchanged_lem rp rs passphrase np ns in
        let (kp, ks, cp, cs, vs, vp) = verify_peer_confirm-Agree key p' s' agree in
        (
          _,
          _,
          p',
          s',
          key,
          _,
          _,
          new_pake_peer-publisher pake lawful_pake rp passphrase h,
          new_pake_peer-subscriber pake lawful_pake rs passphrase h,
          up,
          us,
          agree.key_sized,
          kp,
          ks,
          cp,
          cs,
          vs,
          vp,
        )
