-- ===== src/Crypto/Badges.antt =====
-- pkg/crypto/cipher.go: DeriveKey, and the short authentication string, whose four symbols are given
-- by their indices in the table of sixteen. SHA-256 and HMAC are parameters.
use zero_feed.Base.{
  ℕ, ◌+◌, ◌/◌, ◌%◌, List, [], ◌∷◌, ◌++◌, ltb, if◌then◌else◌, get_or, take, codes, Result,
}
use zero_feed.Crypto.Hkdf.{CryptoError, hkdf_sha256}
use zero_feed.Crypto.Cipher.{key_size}

-- `%08X` of the first four bytes: two digits for each.
unfoldable pub hex_upper : ℕ → ℕ
hex_upper n = if ltb n 10 then 48 + n else 55 + n

unfoldable pub hex_bytes : List ℕ → List ℕ
unfolding hex_upper
hex_bytes [] = []
hex_bytes (b ∷ bs) = hex_upper (b / 16) ∷ hex_upper (b % 16) ∷ hex_bytes bs

unfoldable pub calculate_sas : (List ℕ → List ℕ) → List ℕ → List ℕ × List ℕ
unfolding hex_bytes
calculate_sas sha256 key =
    let h = sha256 key in
    (
      hex_bytes (take 4 h),
      get_or h 4 0 % 16 ∷ get_or h 5 0 % 16 ∷ get_or h 6 0 % 16 ∷ get_or h 7 0 % 16 ∷ [],
    )

abbrev pub session_key_salt : List ℕ
session_key_salt = codes "zerofeed-v2-session-key-salt:"

abbrev pub domain_info : List ℕ
domain_info = codes "zerofeed-v2-hkdf-aead"

unfoldable pub derive_key :
    (List ℕ → List ℕ → List ℕ) → List ℕ → List ℕ → Result CryptoError (List ℕ)
derive_key hmac secret session_id =
    hkdf_sha256 hmac secret (session_key_salt ++ session_id) domain_info key_size
