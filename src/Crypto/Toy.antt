-- ===== src/Crypto/Toy.antt =====
-- Primitives to run the models of pkg/crypto and pkg/feed with. They hide nothing, but they are lawful.
use zero_feed.Base.{
  ℕ, ◌-◌, ◌≤◌, ◌≡◌, refl, ap, ◌∙◌, Option, some, List, [], ◌∷◌, ◌++◌, length, take, replicate,
  length-append, length-replicate, take-append, arith,
}
use zero_feed.Crypto.Cipher.{Primitives, IsLawful}
use zero_feed.Crypto.Pake.{PakePrimitives, IsLawfulPake, Randomness}

abbrev pub toy_seal : List ℕ → List ℕ → List ℕ → List ℕ → List ℕ
toy_seal key nonce plaintext aad = plaintext ++ replicate 16 0

abbrev pub toy_open : List ℕ → List ℕ → List ℕ → List ℕ → Option (List ℕ)
toy_open key nonce ciphertext aad = some (take (length ciphertext - 16) ciphertext)

abbrev pub toy_hmac : List ℕ → List ℕ → List ℕ
toy_hmac key message = replicate 32 7

abbrev pub toy : Primitives
toy = record { seal = toy_seal; open_ = toy_open; hmac = toy_hmac }

toy_open-toy_seal :
    (plaintext : List ℕ)
    → take (length (plaintext ++ replicate 16 0) - 16) (plaintext ++ replicate 16 0) ≡ plaintext
toy_open-toy_seal plaintext =
    let n : length (plaintext ++ replicate 16 0) - 16 ≡ length plaintext =
      omega (arith, length-append plaintext (replicate 16 0), length-replicate {A = ℕ} 16 0) in
    ap (λ k. take k (plaintext ++ replicate 16 0)) n
    ∙ take-append (length plaintext) plaintext (replicate 16 0) refl

pub toy-IsLawful : IsLawful toy
toy-IsLawful = record {
  open-seal = λ key nonce plaintext aad. ap some (toy_open-toy_seal plaintext);
  length-seal = λ key nonce plaintext aad. length-append plaintext (replicate 16 0);
  length-hmac = λ key message. refl;
}

-- Keys that all have the same bytes.
abbrev pub toy_pake : PakePrimitives
toy_pake = record {
  x25519_public = λ a. replicate 32 5;
  ecdh = λ a b. some (replicate 32 6);
  encapsulation_key = λ d. replicate 1184 7;
  encapsulate = λ random key. some (replicate 32 8, replicate 1088 9);
  decapsulate = λ d c. some (replicate 32 8);
  argon2 = λ passphrase salt. replicate 32 4;
  sha256 = λ message. replicate 32 3;
}

pub toy_pake-IsLawfulPake : IsLawfulPake toy_pake
toy_pake-IsLawfulPake = record {
  length-x25519_public = λ a. length-replicate {A = ℕ} 32 5;
  ecdh_agrees = λ a b. (replicate 32 6, length-replicate {A = ℕ} 32 6, refl, refl);
  length-encapsulation_key = λ d. length-replicate {A = ℕ} 1184 7;
  decapsulate-encapsulate =
      λ random d. (replicate 32 8, replicate 1088 9, length-replicate {A = ℕ} 1088 9, refl, refl);
}

abbrev pub toy_randomness : Randomness
toy_randomness = record {
  x25519_key = 1 ∷ [];
  mlkem_key = 2 ∷ [];
  encapsulation = 3 ∷ [];
  noise = replicate 1280 0;
}

pub toy_noise : 1280 ≤ length toy_randomness.noise
toy_noise = omega (arith, length-replicate {A = ℕ} 1280 0)
