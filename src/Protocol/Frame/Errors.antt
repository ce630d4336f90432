-- ===== src/Protocol/Frame/Errors.antt =====
-- What `DecodeWithMax` accepts, and how much of a stream it takes.
use zero_feed.Base.{
  ℕ, zero, suc, [], ◌+◌, ◌≤◌, ◌≡◌, refl, ap, ◌∙◌, true, List, ◌∷◌, ◌++◌, append_assoc, length, take,
  drop, get_or, take-append-drop, drop-drop, length-take, length-drop, length-append, All, IsByte,
  All-take, All-drop, All-append_left, drop-get_or, take_all, put_be, get_be, put_be-get_be,
  bytes_equal, bytes_equal_sound, Result, ok, err, IoError, Reader, read_full, read_full-bounded,
  read_full-ok, arith,
}
use zero_feed.Protocol.Messages.{
  Envelope, HasSizes, header_size, magic_header, min_supported_version,
}
use zero_feed.Protocol.Frame.{envelope_of, read_payload, decode_header, decode_with_max}
use zero_feed.Protocol.Frame.Encoded.{header_bytes}

decode_header-bounded :
    (max_payload : ℕ) (got : Result IoError (List ℕ)) (r : Reader)
    → length r.bytes ≤ length (decode_header max_payload (got, r)).1.bytes + max_payload
unfolding decode_header
decode_header-bounded max_payload (err e) r = omega arith
decode_header-bounded max_payload (ok header) r =
    let n = get_be (take 4 (drop 34 header)) in
    ground (arith, read_full-bounded n r, left header (read_full n r))
  where
    left :
        (header : List ℕ) (got : Result IoError (List ℕ) × Reader)
        → (read_payload header got).1 ≡ got.1
    left header (ok p, r) = unfold read_payload in refl
    left header (err e, r) = unfold read_payload in refl

-- DecodeWithMax takes at most 38 + maxPayload bytes from a stream, whether it accepts the frame or
-- not.
pub decode_with_max-bounded :
    (r : Reader) (max_payload : ℕ)
    → length r.bytes ≤ length (decode_with_max r max_payload).1.bytes + (header_size + max_payload)
unfolding decode_with_max
decode_with_max-bounded r max_payload =
    let (got, r') = read_full header_size r in
    omega (arith, read_full-bounded header_size r, decode_header-bounded max_payload got r')

-- The nine fields of a header of 38 bytes.
split_header :
    (hd : List ℕ)
    → length hd ≡ header_size
    → bytes_equal (take 4 hd) magic_header ≡ true
    → All IsByte hd
    → hd
      ≡ header_bytes
          (get_or hd 4 0)
          (get_or hd 5 0)
          (take 16 (drop 6 hd))
          (take 12 (drop 22 hd))
          (get_be (take 4 (drop 34 hd)))
split_header hd hl hm hb =
    let e4 : take 4 hd ++ drop 4 hd ≡ hd = take-append-drop 4 hd in
    let e5 : drop 4 hd ≡ get_or hd 4 0 ∷ drop 5 hd = drop-get_or 4 hd 0 (omega arith) in
    let e6 : drop 5 hd ≡ get_or hd 5 0 ∷ drop 6 hd = drop-get_or 5 hd 0 (omega arith) in
    let e22 : take 16 (drop 6 hd) ++ drop 22 hd ≡ drop 6 hd =
      rw (← drop-drop 6 16 22 hd refl) (take-append-drop 16 (drop 6 hd)) in
    let e34 : take 12 (drop 22 hd) ++ drop 34 hd ≡ drop 22 hd =
      rw (← drop-drop 22 12 34 hd refl) (take-append-drop 12 (drop 22 hd)) in
    let n = get_be (take 4 (drop 34 hd)) in
    let e38 : put_be 4 n ≡ drop 34 hd =
      put_be-get_be 4 (take 4 (drop 34 hd))
        (omega (arith, length-take 4 (drop 34 hd), length-drop 34 hd))
        (All-take IsByte 4 (drop 34 hd) (All-drop IsByte 34 hd hb))
      ∙ take_all 4 (drop 34 hd) (omega (arith, length-drop 34 hd)) in
    let magic : take 4 hd ≡ magic_header = bytes_equal_sound (take 4 hd) magic_header hm in
    cc (e4, e5, e6, e22, e34, e38, magic)

-- What the payload's read says of the envelope.
read_payload-ok :
    (n : ℕ) (hd : List ℕ) (r : Reader) (got : Result IoError (List ℕ) × Reader) {env : Envelope}
    {r' : Reader}
    → read_full n r ≡ got
    → read_payload hd got ≡ (ok env, r')
    → (env ≡ envelope_of hd env.payload)
      × (length env.payload ≡ n)
      × (r.bytes ≡ env.payload ++ r'.bytes)
unfolding read_payload envelope_of
read_payload-ok n hd r (err e, r1) eq h = cc
read_payload-ok n hd r (ok p, r1) {env} {r'} eq h =
    let (front, sized, _) = read_full-ok n r eq in ground (arith, front, sized)

module _ (max_payload : ℕ) (hd : List ℕ) where
  abbrev payload_len : ℕ
  payload_len = get_be (take 4 (drop 34 hd))

  -- An accepted header passed every check, and its payload was read whole.
  decode_header-ok :
      (r : Reader) {env : Envelope} {r' : Reader}
      → decode_header max_payload (ok hd, r) ≡ (ok env, r')
      → (bytes_equal (take 4 hd) magic_header ≡ true)
        × (min_supported_version ≤ get_or hd 4 0)
        × (payload_len ≤ max_payload)
        × (env ≡ envelope_of hd env.payload)
        × (length env.payload ≡ payload_len)
        × (r.bytes ≡ env.payload ++ r'.bytes)
  unfolding decode_header envelope_of
  decode_header-ok r {env} {r'} h =
      ground (
        arith,
        read_payload-ok payload_len hd r (read_full payload_len r) {env = env} {r' = r'} refl,
      )

-- If DecodeWithMax accepts a frame from a stream of bytes, the stream starts with the 38-byte
-- header of the envelope that it gives and its payload, the id and nonce are sized, the version is
-- supported, the payload is within the bound, and what is left is the rest of the stream.
pub decode_with_max_sound :
    (r : Reader) (max_payload : ℕ) {env : Envelope} {r' : Reader}
    → All IsByte r.bytes
    → decode_with_max r max_payload ≡ (ok env, r')
    → HasSizes env
      × (min_supported_version ≤ env.version_)
      × (length env.payload ≤ max_payload)
      × (r.bytes
          ≡ (header_bytes env.version_ env.msg_type env.session_id env.nonce (length env.payload)
              ++ env.payload)
            ++ r'.bytes)
unfolding decode_with_max
decode_with_max_sound r max_payload {env} {r'} hb h = go (read_full header_size r) refl h
  where
    go :
        (got : Result IoError (List ℕ) × Reader)
        → read_full header_size r ≡ got
        → decode_header max_payload got ≡ (ok env, r')
        → HasSizes env
          × (min_supported_version ≤ env.version_)
          × (length env.payload ≤ max_payload)
          × (r.bytes
              ≡ (header_bytes env.version_ env.msg_type env.session_id env.nonce
                    (length env.payload)
                  ++ env.payload)
                ++ r'.bytes)
    go (err e, r1) eq k = unfold decode_header in cc
    go (ok hd, r1) eq k =
        let (front, sized, _) = read_full-ok header_size r eq in
        let (magic, ver, fits, fields, len, rest) = decode_header-ok max_payload hd r1 k in
        let whole =
          split_header hd sized magic (All-append_left IsByte hd r1.bytes (rw front at hb)) in
        let v : env.version_ ≡ get_or hd 4 0 = unfold envelope_of in ap (λ x. x.version_) fields in
        let t : env.msg_type ≡ get_or hd 5 0 = unfold envelope_of in ap (λ x. x.msg_type) fields in
        let i : env.session_id ≡ take 16 (drop 6 hd) =
          unfold envelope_of in ap (λ x. x.session_id) fields in
        let n : env.nonce ≡ take 12 (drop 22 hd) = unfold envelope_of in ap (λ x. x.nonce) fields in
        let header : hd
            ≡ header_bytes env.version_ env.msg_type env.session_id env.nonce (length env.payload) =
          cc (whole, v, t, i, n, len) in
        (
          record {
            session_id_sized =
                omega (arith, ap length i, length-take 16 (drop 6 hd), length-drop 6 hd);
            nonce_sized =
                omega (arith, ap length n, length-take 12 (drop 22 hd), length-drop 22 hd);
          },
          omega arith,
          omega arith,
          rw append_assoc (cc (front, rest, header)),
        )

take_front : (n : ℕ) (xs ys : List ℕ) → n ≤ length xs → take n (xs ++ ys) ≡ take n xs
take_front zero xs ys h = refl
take_front (suc n) [] ys h = absurd (omega arith)
take_front (suc n) (x ∷ xs) ys h = ap (λ l. x ∷ l) (take_front n xs ys (omega arith))

-- A stream from which a frame is decoded starts with the four magic bytes, and has a header.
pub decode_with_max-starts :
    (r : Reader) (max_payload : ℕ) {env : Envelope} {r' : Reader}
    → decode_with_max r max_payload ≡ (ok env, r')
    → (take 4 r.bytes ≡ magic_header) × (header_size ≤ length r.bytes)
unfolding decode_with_max
decode_with_max-starts r max_payload {env} {r'} h = go (read_full header_size r) refl h
  where
    go :
        (got : Result IoError (List ℕ) × Reader)
        → read_full header_size r ≡ got
        → decode_header max_payload got ≡ (ok env, r')
        → (take 4 r.bytes ≡ magic_header) × (header_size ≤ length r.bytes)
    go (err e, r1) eq k = unfold decode_header in cc
    go (ok hd, r1) eq k =
        let (front, sized, _) = read_full-ok header_size r eq in
        let checks = decode_header-ok max_payload hd r1 k in
        let front4 : take 4 (hd ++ r1.bytes) ≡ take 4 hd = take_front 4 hd r1.bytes (omega arith) in
        (
          ap (take 4) front ∙ front4 ∙ bytes_equal_sound (take 4 hd) magic_header checks.0,
          omega (arith, ap length front, length-append hd r1.bytes),
        )
