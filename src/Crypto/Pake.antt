-- ===== src/Crypto/Pake.antt =====
-- pkg/crypto/pake.go: the two sides of the key exchange with X25519, ML-KEM-768 and Argon2id.
pub mod Peers
pub mod Agreement
mod Tests
use zero_feed.Base.{
  ℕ, ◌+◌, ◌-◌, ◌%◌, Bool, not, Option, none, some, List, [], ◌∷◌, ◌++◌, ◌||◌, length, take, drop,
  ◌==◌, if◌then◌else◌, bytes_equal, ◌≡◌, Result, ok, err, ◌>>=◌, map_err,
}
use zero_feed.Crypto.Hkdf.{CryptoError, hkdf_sha256}
use zero_feed.Crypto.Cipher.{Primitives, key_size}

abbrev pub uniform_wire_msg_size : ℕ
uniform_wire_msg_size = 1280

-- "zerofeed-v3-pake-master-secret"
abbrev pub master_info : List ℕ
master_info =
    b'z' ∷ b'e' ∷ b'r' ∷ b'o' ∷ b'f' ∷ b'e' ∷ b'e' ∷ b'd' ∷ b'-' ∷ b'v' ∷ b'3' ∷ b'-' ∷ b'p' ∷ b'a'
    ∷ b'k' ∷ b'e' ∷ b'-' ∷ b'm' ∷ b'a' ∷ b's' ∷ b't' ∷ b'e' ∷ b'r' ∷ b'-' ∷ b's' ∷ b'e' ∷ b'c'
    ∷ b'r' ∷ b'e' ∷ b't' ∷ []

-- "zerofeed-v3-pake-handshake-auth"
abbrev pub auth_info : List ℕ
auth_info =
    b'z' ∷ b'e' ∷ b'r' ∷ b'o' ∷ b'f' ∷ b'e' ∷ b'e' ∷ b'd' ∷ b'-' ∷ b'v' ∷ b'3' ∷ b'-' ∷ b'p' ∷ b'a'
    ∷ b'k' ∷ b'e' ∷ b'-' ∷ b'h' ∷ b'a' ∷ b'n' ∷ b'd' ∷ b's' ∷ b'h' ∷ b'a' ∷ b'k' ∷ b'e' ∷ b'-'
    ∷ b'a' ∷ b'u' ∷ b't' ∷ b'h' ∷ []

-- "zerofeed-v3-pake-key-confirmation-v1"
abbrev pub confirm_info : List ℕ
confirm_info =
    b'z' ∷ b'e' ∷ b'r' ∷ b'o' ∷ b'f' ∷ b'e' ∷ b'e' ∷ b'd' ∷ b'-' ∷ b'v' ∷ b'3' ∷ b'-' ∷ b'p' ∷ b'a'
    ∷ b'k' ∷ b'e' ∷ b'-' ∷ b'k' ∷ b'e' ∷ b'y' ∷ b'-' ∷ b'c' ∷ b'o' ∷ b'n' ∷ b'f' ∷ b'i' ∷ b'r'
    ∷ b'm' ∷ b'a' ∷ b't' ∷ b'i' ∷ b'o' ∷ b'n' ∷ b'-' ∷ b'v' ∷ b'1' ∷ []

-- "zerofeed-v3-argon2id-static-context:"
abbrev pub argon2_context : List ℕ
argon2_context =
    b'z' ∷ b'e' ∷ b'r' ∷ b'o' ∷ b'f' ∷ b'e' ∷ b'e' ∷ b'd' ∷ b'-' ∷ b'v' ∷ b'3' ∷ b'-' ∷ b'a' ∷ b'r'
    ∷ b'g' ∷ b'o' ∷ b'n' ∷ b'2' ∷ b'i' ∷ b'd' ∷ b'-' ∷ b's' ∷ b't' ∷ b'a' ∷ b't' ∷ b'i' ∷ b'c'
    ∷ b'-' ∷ b'c' ∷ b'o' ∷ b'n' ∷ b't' ∷ b'e' ∷ b'x' ∷ b't' ∷ b':' ∷ []

pub data PakeError : Type 0 where
  pake_failed invalid_peer_msg empty_passphrase : PakeError
  crypto_error : CryptoError → PakeError

-- A private key and a decapsulation key are their bytes. `ecdh` fails if the public key is invalid or
-- the shared secret is zero, `encapsulate random key` if the key is invalid, and it gives the shared
-- secret and the ciphertext. `argon2 passphrase salt` has the cost and the size of the source.
pub record PakePrimitives : Type 0 where
  pub x25519_public : List ℕ → List ℕ
  pub ecdh : List ℕ → List ℕ → Option (List ℕ)
  pub encapsulation_key : List ℕ → List ℕ
  pub encapsulate : List ℕ → List ℕ → Option (List ℕ × List ℕ)
  pub decapsulate : List ℕ → List ℕ → Option (List ℕ)
  pub argon2 : List ℕ → List ℕ → List ℕ
  pub sha256 : List ℕ → List ℕ

-- What the packages document of keys that they generated.
pub record IsLawfulPake (pake : PakePrimitives) : Type 0 where
  pub length-x25519_public : (a : List ℕ) → length (pake.x25519_public a) ≡ 32
  pub ecdh_agrees :
      (a b : List ℕ)
      → (s : List ℕ) × (length s ≡ 32)
        × (pake.ecdh a (pake.x25519_public b) ≡ some s)
        × (pake.ecdh b (pake.x25519_public a) ≡ some s)
  pub length-encapsulation_key : (d : List ℕ) → length (pake.encapsulation_key d) ≡ 1184
  pub decapsulate-encapsulate :
      (random d : List ℕ)
      → (s : List ℕ) × (c : List ℕ) × (length c ≡ 1088)
        × (pake.encapsulate random (pake.encapsulation_key d) ≡ some (s, c))
        × (pake.decapsulate d c ≡ some s)

-- The publisher has role 1, the subscriber role 2.
pub record PakePeer : Type 0 where
  pub priv_key : List ℕ
  pub mlkem_decap : Option (List ℕ)
  pub pub_bytes : Option (List ℕ)
  pub role : ℕ
  pub shared_key : Option (List ℕ)
  pub mac_tag : Option (List ℕ)
  pub passphrase : Option (List ℕ)

-- What the generators give for one peer: the two keys, the randomness of an encapsulation, and noise.
pub record Randomness : Type 0 where
  pub x25519_key : List ℕ
  pub mlkem_key : List ℕ
  pub encapsulation : List ℕ
  pub noise : List ℕ

-- The bytes of a slice, which may be nil.
abbrev pub or_nil : Option (List ℕ) → List ℕ
or_nil none = []
or_nil (some bs) = bs

-- The raw payload, padded to the uniform size with noise.
unfoldable pub uniform : List ℕ → List ℕ → List ℕ
uniform noise raw = raw ++ take (uniform_wire_msg_size - length raw) noise

abbrev pub bytes_of : PakePeer → List ℕ
bytes_of p = or_nil p.pub_bytes

unfoldable pub confirmation : ℕ → List ℕ
confirmation role = confirm_info ++ (role % 256 ∷ [])

-- The generators do not fail.
module _ (pake : PakePrimitives) where
  unfoldable pub new_pake_peer : Randomness → List ℕ → ℕ → Result PakeError PakePeer
  unfolding uniform
  new_pake_peer rand passphrase role =
      let decap = if role == 2 then some rand.mlkem_key else none in
      let raw = pake.x25519_public rand.x25519_key ++ pake.encapsulation_key rand.mlkem_key in
      if length passphrase == 0
      then err empty_passphrase
      else ok (record {
        priv_key = rand.x25519_key;
        mlkem_decap = decap;
        pub_bytes = if role == 2 then some (uniform rand.noise raw) else none;
        role = role;
        shared_key = none;
        mac_tag = none;
        passphrase = some passphrase;
      })

  unfoldable pub derive_master_key_argon2 : List ℕ → List ℕ
  derive_master_key_argon2 passphrase =
      pake.argon2 passphrase (pake.sha256 (argon2_context ++ passphrase))

  module _ (prims : Primitives) where
    keyed : Result CryptoError (List ℕ) → PakePeer → Result PakeError (Unit {0}) × PakePeer
    keyed (err e) p = (err (crypto_error e), p)
    keyed (ok key) p = (
      ok tt,
      record p {
        shared_key = some key;
        mac_tag = some (prims.hmac key (auth_info ++ (p.role % 256 ∷ [])));
      },
    )

    -- The master key of the two shared secrets and the passphrase.
    combined : List ℕ → List ℕ → PakePeer → Result PakeError (Unit {0}) × PakePeer
    unfolding keyed
    combined x25519 mlkem p =
        keyed
          (hkdf_sha256 prims.hmac (x25519 ++ mlkem) (derive_master_key_argon2 (or_nil p.passphrase))
            master_info key_size)
          p

    as_publisher :
        List ℕ
        → List ℕ
        → Option (List ℕ × List ℕ)
        → PakePeer
        → Result PakeError (Unit {0}) × PakePeer
    unfolding combined uniform
    as_publisher noise x25519 none p = (err pake_failed, p)
    as_publisher noise x25519 (some (mlkem, ciphertext)) p = combined x25519 mlkem (record p {
      pub_bytes = some (uniform noise (pake.x25519_public p.priv_key ++ ciphertext));
    })

    decapsulated : List ℕ → Option (List ℕ) → PakePeer → Result PakeError (Unit {0}) × PakePeer
    unfolding combined
    decapsulated x25519 none p = (err pake_failed, p)
    decapsulated x25519 (some mlkem) p = combined x25519 mlkem p

    as_subscriber :
        List ℕ → List ℕ → Option (List ℕ) → PakePeer → Result PakeError (Unit {0}) × PakePeer
    unfolding decapsulated
    as_subscriber x25519 ciphertext none p = (err pake_failed, p)
    as_subscriber x25519 ciphertext (some d) p =
        decapsulated x25519 (pake.decapsulate d ciphertext) p

    exchanged :
        Randomness → List ℕ → Option (List ℕ) → PakePeer → Result PakeError (Unit {0}) × PakePeer
    unfolding as_publisher as_subscriber
    exchanged rand peer_bytes none p = (err pake_failed, p)
    exchanged rand peer_bytes (some x25519) p =
        if p.role == 1
        then as_publisher rand.noise x25519
            (pake.encapsulate rand.encapsulation (take 1184 (drop 32 peer_bytes))) p
        else as_subscriber x25519 (take 1088 (drop 32 peer_bytes)) p.mlkem_decap p

    -- `Update`, which gives the peer after the call, whether it succeeds or not.
    unfoldable pub update : Randomness → List ℕ → PakePeer → Result PakeError (Unit {0}) × PakePeer
    unfolding exchanged
    update rand peer_bytes p =
        if not (length peer_bytes == uniform_wire_msg_size)
        then (err invalid_peer_msg, p)
        else exchanged rand peer_bytes (pake.ecdh p.priv_key (take 32 peer_bytes)) p

unfoldable pub session_key : PakePeer → Result PakeError (List ℕ)
session_key p = elim p.shared_key [ none ↦ err pake_failed | some key ↦ ok key ]

-- An error if the test holds.
unfoldable pub checked : Bool → Result PakeError (Unit {0})
checked bad = if bad then err pake_failed else ok tt

module _ (prims : Primitives) where
  unfoldable pub confirm_tag : PakePeer → Result PakeError (List ℕ)
  unfolding session_key
  confirm_tag p = do key ← session_key p; ok (prims.hmac key (confirmation p.role))

  -- The peer has the other role, 3 - role as a byte.
  unfoldable pub verify_peer_confirm : List ℕ → PakePeer → Result PakeError (Unit {0})
  unfolding session_key checked
  verify_peer_confirm peer_tag p = do
    key ← session_key p
    checked (
        length peer_tag == 0
        || not (bytes_equal peer_tag (prims.hmac key (confirmation (259 - p.role)))))

-- The private key of X25519 stays.
unfoldable pub close_pake_peer : PakePeer → PakePeer
close_pake_peer p = record p {
  mlkem_decap = none;
  pub_bytes = none;
  shared_key = none;
  mac_tag = none;
  passphrase = none;
}

-- DeriveBlindMatchTag, "zerofeed-relay-blind-match-tag-v3"
unfoldable pub derive_blind_match_tag : Primitives → List ℕ → List ℕ
derive_blind_match_tag prims argon2_key = prims.hmac argon2_key (
    b'z' ∷ b'e' ∷ b'r' ∷ b'o' ∷ b'f' ∷ b'e' ∷ b'e' ∷ b'd' ∷ b'-' ∷ b'r' ∷ b'e' ∷ b'l' ∷ b'a' ∷ b'y'
    ∷ b'-' ∷ b'b' ∷ b'l' ∷ b'i' ∷ b'n' ∷ b'd' ∷ b'-' ∷ b'm' ∷ b'a' ∷ b't' ∷ b'c' ∷ b'h' ∷ b'-'
    ∷ b't' ∷ b'a' ∷ b'g' ∷ b'-' ∷ b'v' ∷ b'3' ∷ [])
