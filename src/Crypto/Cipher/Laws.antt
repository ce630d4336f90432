-- ===== src/Crypto/Cipher/Laws.antt =====
-- What encryption, wrapping and nonces of pkg/crypto/cipher.go promise together.
use zero_feed.Base.{
  ℕ, ◌^◌, ◌<◌, ◌≡◌, ◌≢◌, refl, ap, sym, ◌∙◌, false, some, List, ◌++◌, length, take, drop,
  length-append, take-append, drop-append, take_all, ltb, nltb→le, Bool-cases, inl, inr,
  if◌then◌else◌, ok, get_be, get_be-put_be, put_be, length-put_be, arith,
}
use zero_feed.Crypto.Hkdf.Rfc5869.{hkdf_sha256_lem}
use zero_feed.Crypto.Cipher.{
  Cipher, Primitives, IsLawful, new_cipher, encrypt, decrypt, sealed, opened, open_with, joined,
  wrap_with, unwrap_with, wrap_session_key, unwrap_session_key, construct_nonce_rfc5116,
  ratchet_key, wrap_info, ratchet_info,
}

pub length-construct_nonce_rfc5116 :
    (salt : List ℕ) (seq : ℕ) → length salt ≡ 4 → length (construct_nonce_rfc5116 salt seq) ≡ 12
unfolding construct_nonce_rfc5116
length-construct_nonce_rfc5116 salt seq h =
    omega (arith, length-append salt (put_be 8 seq), length-put_be 8 seq)

-- Nonces of one session with different sequence numbers are different, as long as the numbers fit
-- 64 bits.
pub construct_nonce_rfc5116_injective :
    (salt : List ℕ) (m n : ℕ)
    → m < 2 ^ 64
    → n < 2 ^ 64
    → m ≢ n
    → construct_nonce_rfc5116 salt m ≢ construct_nonce_rfc5116 salt n
unfolding construct_nonce_rfc5116
construct_nonce_rfc5116_injective salt m n hm hn ne e = ne (
    sym (get_be-put_be 8 m (omega arith))
    ∙ ap get_be (sym (drop-append (length salt) salt (put_be 8 m) refl))
    ∙ ap (λ l. get_be (drop (length salt) l)) e
    ∙ ap get_be (drop-append (length salt) salt (put_be 8 n) refl)
    ∙ get_be-put_be 8 n (omega arith))

-- A list cut to the length of its front, if it is longer.
cut_to :
    (n : ℕ) (xs ys : List ℕ)
    → length xs ≡ n
    → (if ltb n (length (xs ++ ys)) then take n (xs ++ ys) else (xs ++ ys)) ≡ xs
cut_to n xs ys e = elim (Bool-cases (ltb n (length (xs ++ ys)))) [
  | inl longer ↦ rw longer (take-append n xs ys e)
  | inr h ↦
      rw h (sym (take_all n (xs ++ ys) (nltb→le n (length (xs ++ ys)) h)) ∙ take-append n xs ys e)
]

module _ (prims : Primitives) (lawful : IsLawful prims) where
  -- A ciphertext is decrypted to its plaintext under the same key, nonce and additional data.
  pub decrypt-encrypt :
      (random key nonce plaintext aad : List ℕ)
      → length nonce ≡ 12
      → let c : Cipher = record { aead = some key; key = some key } in
        (encrypt prims random c plaintext (some nonce) aad
          ≡ ok (prims.seal key nonce plaintext aad, nonce))
        × (decrypt prims c (prims.seal key nonce plaintext aad) nonce aad ≡ ok plaintext)
  unfolding encrypt decrypt sealed open_with opened
  decrypt-encrypt random key nonce plaintext aad h =
      (rw h, rw (h, lawful.open-seal key nonce plaintext aad))

  -- Wrapping a master key of 32 bytes succeeds with 60 bytes, from which, whatever follows them,
  -- the same PAKE key unwraps the master key.
  pub unwrap_session_key-wrap_session_key :
      (random p2p_key master_key extra : List ℕ)
      → length random ≡ 12
      → length p2p_key ≡ 32
      → length master_key ≡ 32
      → (wrapped : List ℕ) × (wrap_session_key prims random p2p_key master_key ≡ ok wrapped)
        × (length wrapped ≡ 60)
        × (unwrap_session_key prims p2p_key (wrapped ++ extra) ≡ ok master_key)
  unfolding wrap_session_key wrap_with joined encrypt sealed new_cipher
  unwrap_session_key-wrap_session_key random p2p_key master_key extra hr hp hm =
      (random ++ ct, rw hp, n60, unwrapped)
    where
      ct : List ℕ
      ct = prims.seal p2p_key random master_key wrap_info

      n60 : length (random ++ ct) ≡ 60
      n60 =
          omega
            (arith, length-append random ct, lawful.length-seal p2p_key random master_key wrap_info)

      short : ltb (length ((random ++ ct) ++ extra)) 60 ≡ false
      short = ground (arith, length-append (random ++ ct) extra, n60)

      unwrap_with_lem : unwrap_with prims (random ++ ct) (new_cipher p2p_key) ≡ ok master_key
      unwrap_with_lem =
          unfold unwrap_with decrypt open_with opened in
          rw (
            hp,
            take-append 12 random ct hr,
            drop-append 12 random ct hr,
            hr,
            lawful.open-seal p2p_key random master_key wrap_info,
          )

      unwrapped : unwrap_session_key prims p2p_key ((random ++ ct) ++ extra) ≡ ok master_key
      unwrapped =
          unfold unwrap_session_key in
          rw (short, cut_to 60 (random ++ ct) extra n60) (unwrap_with_lem)

  -- Ratcheting a key that is not empty gives a key of 32 bytes.
  pub ratchet_key_lem :
      (key salt : List ℕ)
      → 0 < length key
      → (next : List ℕ) × (ratchet_key prims key salt ≡ ok next) × (length next ≡ 32)
  unfolding ratchet_key
  ratchet_key_lem key salt h =
      let (e, n) =
        hkdf_sha256_lem prims.hmac lawful.length-hmac key salt ratchet_info 32 1 h (omega arith) in
      (_, e, n)
