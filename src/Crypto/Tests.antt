-- ===== src/Crypto/Tests.antt =====
-- The theorems of the cipher at concrete inputs, with toy primitives.
use zero_feed.Base.{ℕ, ◌≡◌, refl, List, [], ◌∷◌, length, take, replicate, ok, arith}
use zero_feed.Crypto.Hkdf.{hkdf_sha256, default_salt}
use zero_feed.Crypto.Hkdf.Rfc5869.{blocks, hkdf_sha256_lem}
use zero_feed.Crypto.Toy.{toy_hmac}

abbrev nonce12 : List ℕ
nonce12 = replicate 12 3

hkdf_sha256_lem_example :
    (hkdf_sha256 toy_hmac (1 ∷ []) [] (8 ∷ []) 40
      ≡ ok (take 40 (blocks toy_hmac (toy_hmac default_salt (1 ∷ [])) (8 ∷ []) 2)))
    × (length (take 40 (blocks toy_hmac (toy_hmac default_salt (1 ∷ [])) (8 ∷ []) 2)) ≡ 40)
hkdf_sha256_lem_example =
    hkdf_sha256_lem toy_hmac (λ key message. refl) (1 ∷ []) [] (8 ∷ []) 40 2 (omega arith)
      (omega arith)
