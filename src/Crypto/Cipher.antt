-- ===== src/Crypto/Cipher.antt =====
-- pkg/crypto/cipher.go: the AEAD cipher, its nonces, and the wrapping of a session key.
pub mod Laws
use zero_feed.Base.{
  ℕ, ◌+◌, ◌≡◌, Bool, not, Option, none, some, List, [], ◌∷◌, ◌++◌, length, take, drop, leb, ltb,
  ◌==◌, if◌then◌else◌, Result, ok, err, put_be,
}
use zero_feed.Crypto.Hkdf.{
  CryptoError, decryption_failed, invalid_key_size, invalid_nonce_size, cipher_closed,
  invalid_wrapped_size, hkdf_sha256,
}

abbrev pub key_size : ℕ
key_size = 32

abbrev pub aead_nonce_size : ℕ
aead_nonce_size = 12

-- "zerofeed-v3-pqc-key-wrap"
abbrev pub wrap_info : List ℕ
wrap_info =
    b'z' ∷ b'e' ∷ b'r' ∷ b'o' ∷ b'f' ∷ b'e' ∷ b'e' ∷ b'd' ∷ b'-' ∷ b'v' ∷ b'3' ∷ b'-' ∷ b'p' ∷ b'q'
    ∷ b'c' ∷ b'-' ∷ b'k' ∷ b'e' ∷ b'y' ∷ b'-' ∷ b'w' ∷ b'r' ∷ b'a' ∷ b'p' ∷ []

-- "zerofeed-v2-key-ratchet-pfs"
abbrev pub ratchet_info : List ℕ
ratchet_info =
    b'z' ∷ b'e' ∷ b'r' ∷ b'o' ∷ b'f' ∷ b'e' ∷ b'e' ∷ b'd' ∷ b'-' ∷ b'v' ∷ b'2' ∷ b'-' ∷ b'k' ∷ b'e'
    ∷ b'y' ∷ b'-' ∷ b'r' ∷ b'a' ∷ b't' ∷ b'c' ∷ b'h' ∷ b'e' ∷ b't' ∷ b'-' ∷ b'p' ∷ b'f' ∷ b's' ∷ []

-- The salt stands before the counter.
unfoldable pub construct_nonce_rfc5116 : List ℕ → ℕ → List ℕ
construct_nonce_rfc5116 session_salt seq_num = session_salt ++ put_be 8 seq_num

-- `aead` is the key that the AEAD instance was made from.
pub record Cipher : Type 0 where
  pub aead : Option (List ℕ)
  pub key : Option (List ℕ)

-- `aes.NewCipher` takes any key of 32 bytes, and `cipher.NewGCM` any AES block.
unfoldable pub new_cipher : List ℕ → Result CryptoError Cipher
new_cipher key =
    if not (length key == key_size)
    then err invalid_key_size
    else ok (record { aead = some key; key = some key })

-- The cipher after the call, changed only if the call succeeds.
unfoldable pub update_key : Cipher → List ℕ → Result CryptoError Cipher
update_key c new_key =
    if not (length new_key == key_size)
    then err invalid_key_size
    else ok (record { aead = some new_key; key = some new_key })

abbrev pub get_key : Cipher → Option (List ℕ)
get_key c = c.key

abbrev pub close_cipher : Cipher → Cipher
close_cipher c = record { aead = none; key = none }

-- `seal key nonce plaintext aad` and `open_ key nonce ciphertext aad` are AES-256-GCM, and `hmac` is HMAC
-- with SHA-256.
pub record Primitives : Type 0 where
  pub seal : List ℕ → List ℕ → List ℕ → List ℕ → List ℕ
  pub open_ : List ℕ → List ℕ → List ℕ → List ℕ → Option (List ℕ)
  pub hmac : List ℕ → List ℕ → List ℕ

-- What the package documents of them.
pub record IsLawful (prims : Primitives) : Type 0 where
  pub open-seal :
      (key nonce plaintext aad : List ℕ)
      → prims.open_ key nonce (prims.seal key nonce plaintext aad) aad ≡ some plaintext
  pub length-seal :
      (key nonce plaintext aad : List ℕ)
      → length (prims.seal key nonce plaintext aad) ≡ length plaintext + 16
  pub length-hmac : (key message : List ℕ) → length (prims.hmac key message) ≡ 32

opened : Option (List ℕ) → Result CryptoError (List ℕ)
opened none = err decryption_failed
opened (some plaintext) = ok plaintext

module _ (prims : Primitives) where
  sealed : Option (List ℕ) → List ℕ → List ℕ → List ℕ → Result CryptoError (List ℕ × List ℕ)
  sealed none plaintext nonce aad = err cipher_closed
  sealed (some key) plaintext nonce aad = ok (prims.seal key nonce plaintext aad, nonce)

  -- `random` is what `GenerateNonce` gives, for a call without a nonce.
  unfoldable pub encrypt :
      List ℕ → Cipher → List ℕ → Option (List ℕ) → List ℕ → Result CryptoError (List ℕ × List ℕ)
  unfolding sealed
  encrypt random c plaintext none aad = sealed c.aead plaintext random aad
  encrypt random c plaintext (some nonce) aad =
      if not (length nonce == aead_nonce_size)
      then err invalid_nonce_size
      else sealed c.aead plaintext nonce aad

  open_with : Option (List ℕ) → List ℕ → List ℕ → List ℕ → Result CryptoError (List ℕ)
  unfolding opened
  open_with none ciphertext nonce aad = err cipher_closed
  open_with (some key) ciphertext nonce aad = opened (prims.open_ key nonce ciphertext aad)

  unfoldable pub decrypt : Cipher → List ℕ → List ℕ → List ℕ → Result CryptoError (List ℕ)
  unfolding open_with
  decrypt c ciphertext nonce aad =
      if not (length nonce == aead_nonce_size)
      then err invalid_nonce_size
      else open_with c.aead ciphertext nonce aad

  unfoldable pub ratchet_key : List ℕ → List ℕ → Result CryptoError (List ℕ)
  ratchet_key current_key salt = hkdf_sha256 prims.hmac current_key salt ratchet_info key_size

  joined : Result CryptoError (List ℕ × List ℕ) → Result CryptoError (List ℕ)
  joined (err e) = err e
  joined (ok (ciphertext, nonce)) = ok (nonce ++ ciphertext)

  wrap_with : List ℕ → List ℕ → Result CryptoError Cipher → Result CryptoError (List ℕ)
  unfolding joined
  wrap_with random master_key (err e) = err e
  wrap_with random master_key (ok c) = joined (encrypt random c master_key none wrap_info)

  unfoldable pub wrap_session_key : List ℕ → List ℕ → List ℕ → Result CryptoError (List ℕ)
  unfolding wrap_with
  wrap_session_key random p2p_key master_key = wrap_with random master_key (new_cipher p2p_key)

  unwrap_with : List ℕ → Result CryptoError Cipher → Result CryptoError (List ℕ)
  unwrap_with wrapped (err e) = err e
  unwrap_with wrapped (ok c) =
      decrypt c (drop aead_nonce_size wrapped) (take aead_nonce_size wrapped) wrap_info

  -- Bytes after the first 60 are not looked at.
  unfoldable pub unwrap_session_key : List ℕ → List ℕ → Result CryptoError (List ℕ)
  unfolding unwrap_with
  unwrap_session_key p2p_key wrapped =
      if ltb (length wrapped) (aead_nonce_size + 48)
      then err invalid_wrapped_size
      else unwrap_with
          (if ltb (aead_nonce_size + 48) (length wrapped)
            then take (aead_nonce_size + 48) wrapped
            else wrapped)
          (new_cipher p2p_key)
