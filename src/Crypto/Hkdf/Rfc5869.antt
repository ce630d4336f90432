-- ===== src/Crypto/Hkdf/Rfc5869.antt =====
-- The output of HKDFSHA256 of pkg/crypto/cipher.go against the formulas of RFC 5869.
use zero_feed.Base.{
  ℕ, zero, suc, ◌+◌, ◌*◌, ◌%◌, ◌≤◌, ◌<◌, ◌≡◌, refl, ap, sym, ◌∙◌, List, [], ◌∷◌, ◌++◌, length, take,
  length-append, length-take, ltb, nltb→le, Bool-cases, ◌==◌, inl, inr, if◌then◌else◌, ok, arith,
}
use zero_feed.Crypto.Hkdf.{expand, hkdf_sha256, default_salt}

take_front : (n : ℕ) (xs ys : List ℕ) → n ≤ length xs → take n (xs ++ ys) ≡ take n xs
take_front zero xs ys h = refl
take_front (suc n) [] ys h = absurd (omega arith)
take_front (suc n) (x ∷ xs) ys h = ap (λ l. x ∷ l) (take_front n xs ys (omega arith))

module _ (hmac : List ℕ → List ℕ → List ℕ) where
  -- T(0) is empty, and T(n) = HMAC(PRK, T(n-1) | info | n), with n as one byte.
  abbrev pub block : List ℕ → List ℕ → ℕ → List ℕ
  block prk info zero = []
  block prk info (suc n) = hmac prk (block prk info n ++ info ++ (suc n % 256 ∷ []))

  -- T(1) | T(2) | ... | T(n)
  abbrev pub blocks : List ℕ → List ℕ → ℕ → List ℕ
  blocks prk info zero = []
  blocks prk info (suc n) = blocks prk info n ++ block prk info (suc n)

  module _ (length-hmac : (key message : List ℕ) → length (hmac key message) ≡ 32) where
    length-blocks : (prk info : List ℕ) (n : ℕ) → length (blocks prk info n) ≡ 32 * n
    length-blocks prk info zero = refl
    length-blocks prk info (suc n) = omega (
      arith,
      length-append (blocks prk info n) (block prk info (suc n)),
      length-blocks prk info n,
      length-hmac prk (block prk info n ++ info ++ (suc n % 256 ∷ [])),
    )

    take-blocks_at :
        (prk info : List ℕ) (len : ℕ) {a b : ℕ}
        → a ≡ b
        → take len (blocks prk info a) ≡ take len (blocks prk info b)
    take-blocks_at prk info len e = ap (λ k. take len (blocks prk info k)) e

    take-blocks :
        (prk info : List ℕ) (len n k : ℕ)
        → len ≤ 32 * n
        → take len (blocks prk info (k + n)) ≡ take len (blocks prk info n)
    take-blocks prk info len n zero h =
        take-blocks_at prk info len {a = 0 + n} {b = n} (omega arith)
    take-blocks prk info len n (suc k) h =
        take-blocks_at prk info len {a = suc k + n} {b = suc (k + n)} (omega arith)
        ∙ take_front len (blocks prk info (k + n)) (block prk info (suc (k + n)))
            (omega (arith, length-blocks prk info (k + n)))
        ∙ take-blocks prk info len n k h

    expand_lem :
        (rounds : ℕ) (prk info : List ℕ) (len n : ℕ)
        → take len
            (expand hmac rounds prk info len (blocks prk info n) (suc n % 256) (block prk info n))
          ≡ take len (blocks prk info (rounds + n))
    unfolding expand
    expand_lem zero prk info len n = take-blocks_at prk info len {a = n} {b = 0 + n} (omega arith)
    expand_lem (suc rounds) prk info len n =
        elim (Bool-cases (ltb (length (blocks prk info n)) len)) [
          | inl more ↦
              rw (more, counter)
                (expand_lem rounds prk info len (suc n) ∙ take-blocks_at prk info len shifted)
          | inr enough ↦ rw enough (
              sym (
                take-blocks prk info len n (suc rounds) (
                  omega (
                    arith,
                    length-blocks prk info n,
                    nltb→le (length (blocks prk info n)) len enough,
                  ))))
        ]
      where
        counter : (suc n % 256 + 1) % 256 ≡ suc (suc n) % 256
        counter = omega arith

        shifted : rounds + suc n ≡ suc rounds + n
        shifted = omega arith

    -- For a secret that is not empty, HKDFSHA256 gives the first bytes of T(1) | T(2) | ... |
    -- T(n), for every n whose blocks are long enough, with HMAC(salt, secret) as the key; and as
    -- many bytes as asked for. HMAC with SHA-256 gives 32 bytes.
    pub hkdf_sha256_lem :
        (secret salt info : List ℕ) (len n : ℕ)
        → 0 < length secret
        → len ≤ 32 * n
        → let prk = hmac (if length salt == 0 then default_salt else salt) secret in
          (hkdf_sha256 hmac secret salt info len ≡ ok (take len (blocks prk info n)))
          × (length (take len (blocks prk info n)) ≡ len)
    unfolding hkdf_sha256
    hkdf_sha256_lem secret salt info len n nonempty h =
        let prk = hmac (if length salt == 0 then default_salt else salt) secret in
        let enough : take len (blocks prk info (len + 0)) ≡ take len (blocks prk info n) =
          sym (take-blocks prk info len (len + 0) n (omega arith))
          ∙ take-blocks_at prk info len {a = n + (len + 0)} {b = len + n} (omega arith)
          ∙ take-blocks prk info len n len h in
        (
          ground (arith, expand_lem len prk info len 0, enough),
          omega (arith, length-take len (blocks prk info n), length-blocks prk info n),
        )
