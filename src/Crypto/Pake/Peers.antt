-- ===== src/Crypto/Pake/Peers.antt =====
-- New peers of pkg/crypto/pake.go, and the payloads that they send.
use zero_feed.Base.{
  ℕ, ◌-◌, ◌≤◌, ◌<◌, ◌≡◌, ap, ◌∙◌, none, some, List, ◌++◌, length, take, drop, length-append,
  length-take, take-append, drop-append, append_assoc, ok, arith,
}
use zero_feed.Crypto.Pake.{
  PakePrimitives, IsLawfulPake, PakePeer, Randomness, bytes_of, uniform, new_pake_peer,
}

pub length-uniform :
    (noise raw : List ℕ)
    → length raw ≤ 1280
    → 1280 ≤ length noise
    → length (uniform noise raw) ≡ 1280
unfolding uniform
length-uniform noise raw hr hn = omega (
  arith,
  length-append raw (take (1280 - length raw) noise),
  length-take (1280 - length raw) noise,
)

-- The parts of a payload: 32 bytes, and then those of the key or the ciphertext.
pub uniform-parts :
    (noise a b : List ℕ) (n : ℕ)
    → length a ≡ 32
    → length b ≡ n
    → (take 32 (uniform noise (a ++ b)) ≡ a) × (take n (drop 32 (uniform noise (a ++ b))) ≡ b)
unfolding uniform
uniform-parts noise a b n ha hb =
    let pad = take (1280 - length (a ++ b)) noise in
    let e : (a ++ b) ++ pad ≡ a ++ (b ++ pad) = append_assoc a b pad in
    (
      ap (take 32) e ∙ take-append 32 a (b ++ pad) ha,
      ap (λ l. take n (drop 32 l)) e
          ∙ ap (take n) (drop-append 32 a (b ++ pad) ha)
          ∙ take-append n b pad hb,
    )

-- Two peers that can go on: they have the same key, and the publisher its payload.
pub record Agree (key : List ℕ) (p s : PakePeer) : Type 0 where
  pub publisher_key : p.shared_key ≡ some key
  pub subscriber_key : s.shared_key ≡ some key
  pub publisher_role : p.role ≡ 1
  pub subscriber_role : s.role ≡ 2
  pub key_sized : length key ≡ 32
  pub payload_sized : length (bytes_of p) ≡ 1280

module _ (pake : PakePrimitives) (lawful_pake : IsLawfulPake pake) where
  -- A new peer for a passphrase that is not empty.
  abbrev pub new_publisher : Randomness → List ℕ → PakePeer
  new_publisher rand passphrase = record {
    priv_key = rand.x25519_key;
    mlkem_decap = none;
    pub_bytes = none;
    role = 1;
    shared_key = none;
    mac_tag = none;
    passphrase = some passphrase;
  }

  abbrev pub new_subscriber : Randomness → List ℕ → PakePeer
  new_subscriber rand passphrase = record {
    priv_key = rand.x25519_key;
    mlkem_decap = some rand.mlkem_key;
    pub_bytes = some (
        uniform rand.noise
          (pake.x25519_public rand.x25519_key ++ pake.encapsulation_key rand.mlkem_key));
    role = 2;
    shared_key = none;
    mac_tag = none;
    passphrase = some passphrase;
  }

  pub new_pake_peer-publisher :
      (rand : Randomness) (passphrase : List ℕ)
      → 0 < length passphrase
      → new_pake_peer pake rand passphrase 1 ≡ ok (new_publisher rand passphrase)
  unfolding new_pake_peer
  new_pake_peer-publisher rand passphrase h = ground arith

  pub new_pake_peer-subscriber :
      (rand : Randomness) (passphrase : List ℕ)
      → 0 < length passphrase
      → new_pake_peer pake rand passphrase 2 ≡ ok (new_subscriber rand passphrase)
  unfolding new_pake_peer
  new_pake_peer-subscriber rand passphrase h = ground arith

  pub length-bytes_of :
      (rand : Randomness) (passphrase : List ℕ)
      → 1280 ≤ length rand.noise
      → length (bytes_of (new_subscriber rand passphrase)) ≡ 1280
  length-bytes_of rand passphrase h =
      let a = pake.x25519_public rand.x25519_key in
      let b = pake.encapsulation_key rand.mlkem_key in
      length-uniform rand.noise (a ++ b)
        (omega (
          arith,
          length-append a b,
          lawful_pake.length-x25519_public rand.x25519_key,
          lawful_pake.length-encapsulation_key rand.mlkem_key,
        ))
        h
