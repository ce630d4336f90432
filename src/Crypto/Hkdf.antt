-- ===== src/Crypto/Hkdf.antt =====
-- HKDFSHA256 of pkg/crypto/cipher.go, over a parameter for HMAC with SHA-256.
pub mod Rfc5869
use zero_feed.Base.{
  ℕ, zero, suc, ◌+◌, ◌%◌, Option, none, some, List, [], ◌∷◌, ◌++◌, length, take, ltb, ◌==◌,
  if◌then◌else◌, Result, ok, err,
}

pub data CryptoError : Type 0 where
  decryption_failed invalid_key_size invalid_nonce_size empty_secret cipher_closed
        invalid_wrapped_size :
      CryptoError

abbrev pub default_salt : List ℕ
default_salt =
    b'z' ∷ b'e' ∷ b'r' ∷ b'o' ∷ b'f' ∷ b'e' ∷ b'e' ∷ b'd' ∷ b'-' ∷ b'v' ∷ b'2' ∷ b'-' ∷ b'd' ∷ b'e'
    ∷ b'f' ∷ b'a' ∷ b'u' ∷ b'l' ∷ b't' ∷ b'-' ∷ b's' ∷ b'a' ∷ b'l' ∷ b't' ∷ []

-- `hmac key message`
module _ (hmac : List ℕ → List ℕ → List ℕ) where
  -- The loop of the expand step, with a bound on its rounds.
  unfoldable pub expand : ℕ → List ℕ → List ℕ → ℕ → List ℕ → ℕ → List ℕ → List ℕ
  expand zero prk info len okm counter prev = okm
  expand (suc rounds) prk info len okm counter prev =
      let next = hmac prk (prev ++ info ++ (counter ∷ [])) in
      let rest = expand rounds prk info len (okm ++ next) ((counter + 1) % 256) next in
      if ltb (length okm) len then rest else okm

  -- A round adds a byte at least, so `len` rounds are enough.
  unfoldable pub hkdf_sha256 : List ℕ → List ℕ → List ℕ → ℕ → Result CryptoError (List ℕ)
  unfolding expand
  hkdf_sha256 secret salt info len =
      let prk = hmac (if length salt == 0 then default_salt else salt) secret in
      if length secret == 0
      then err empty_secret
      else ok (take len (expand len prk info len [] 1 []))
