-- ===== src/Protocol/Frame/Encoded.antt =====
-- What `SerializeHeader` and `Encode` write, without the buffers.
use zero_feed.Base.{
  ℕ, ◌+◌, ◌%◌, ◌^◌, ◌≤◌, ◌≡◌, refl, ap, sym, ◌∙◌, inl, inr, List, [], ◌∷◌, ◌++◌, append_assoc,
  length, take, drop, set, copy_at, length-append, length-take, length-drop, length-replicate,
  length-put_be, nil_of_length, copy_at-append, copy_at-cut, copy_at-drop, set-drop, put_be, ltb,
  leb, if◌then◌else◌, Bool-cases, leb→le, ok, err, arith,
}
use zero_feed.Protocol.Messages.{Envelope, HasSizes, header_size, magic_header, serialize_header}
use zero_feed.Protocol.Frame.{
  max_payload_size, pool_size, payload_too_large, frame_buffer, frame_bytes,
}

-- The 38 bytes of a header.
abbrev pub header_bytes : ℕ → ℕ → List ℕ → List ℕ → ℕ → List ℕ
header_bytes ver msg_type session_id nonce payload_len =
    magic_header ++ (ver ∷ msg_type ∷ (session_id ++ (nonce ++ put_be 4 payload_len)))

-- `SerializeHeader` writes exactly the header, and leaves what follows it in the buffer.
pub serialize_header_lem :
    (buf : List ℕ) (ver msg_type : ℕ) (session_id nonce : List ℕ) (payload_len : ℕ)
    → header_size ≤ length buf
    → length session_id ≡ 16
    → length nonce ≡ 12
    → serialize_header buf ver msg_type session_id nonce payload_len
      ≡ header_bytes ver msg_type session_id nonce payload_len ++ drop header_size buf
unfolding serialize_header
serialize_header_lem buf ver ty sid nonce n h hs hn =
    let pre : List ℕ = magic_header ++ (ver ∷ ty ∷ []) in
    let e1 : copy_at 0 buf magic_header ≡ magic_header ++ drop 4 buf =
      copy_at-append 0 [] buf magic_header refl (omega arith) in
    let e2 : set (magic_header ++ drop 4 buf) 4 ver ≡ magic_header ++ (ver ∷ drop 5 buf) =
      set-drop 4 5 magic_header buf refl ver refl (omega arith) in
    let e3 : set (magic_header ++ (ver ∷ drop 5 buf)) 5 ty ≡ pre ++ drop 6 buf =
      set-drop 5 6 (magic_header ++ (ver ∷ [])) buf refl ty refl (omega arith) in
    let e4 : copy_at 6 (pre ++ drop 6 buf) sid ≡ (pre ++ sid) ++ drop 22 buf =
      copy_at-drop 6 22 pre buf refl sid (omega arith) (omega arith) in
    let e5 : copy_at 22 ((pre ++ sid) ++ drop 22 buf) nonce
        ≡ (pre ++ sid) ++ (nonce ++ drop 34 buf) =
      copy_at-drop 22 34 (pre ++ sid) buf (omega arith) nonce (omega arith) (omega arith) in
    let e6 : (pre ++ sid) ++ (nonce ++ drop 34 buf) ≡ ((pre ++ sid) ++ nonce) ++ drop 34 buf =
      sym (append_assoc (pre ++ sid) nonce (drop 34 buf)) in
    let e7 : copy_at 34 (((pre ++ sid) ++ nonce) ++ drop 34 buf) (put_be 4 n)
        ≡ ((pre ++ sid) ++ nonce) ++ (put_be 4 n ++ drop 38 buf) =
      copy_at-drop 34 38 ((pre ++ sid) ++ nonce) buf (omega (arith, length-append sid nonce))
        (put_be 4 n) (omega (arith, length-put_be 4 n)) h in
    let after_type = λ (b : List ℕ). copy_at 34 (copy_at 22 (copy_at 6 b sid) nonce) (put_be 4 n) in
    ap (λ b. after_type (set (set b 4 ver) 5 ty)) e1
    ∙ ap (λ b. after_type (set b 5 ty)) e2
    ∙ ap after_type e3
    ∙ rw (e4, e5, e6, e7) (simp append_assoc)

pub length-header_bytes :
    (ver msg_type : ℕ) (session_id nonce : List ℕ) (payload_len : ℕ)
    → length session_id ≡ 16
    → length nonce ≡ 12
    → length (header_bytes ver msg_type session_id nonce payload_len) ≡ header_size
length-header_bytes ver ty sid nonce n hs hn = omega (
  arith,
  length-append sid (nonce ++ put_be 4 n),
  length-append nonce (put_be 4 n),
  length-put_be 4 n,
)

-- The header and the payload of a frame, at a length of the payload.
abbrev pub frame_of : Envelope → ℕ → List ℕ
frame_of env n =
    header_bytes env.version_ env.msg_type env.session_id env.nonce n ++ take n env.payload

length-frame_buffer :
    (pooled : List ℕ) (n : ℕ) → length pooled ≡ pool_size → length (frame_buffer pooled n) ≡ n
unfolding frame_buffer
length-frame_buffer pooled n h = elim (Bool-cases (leb n pool_size)) [
  | inl small ↦ rw small (omega (arith, length-take n pooled, leb→le n pool_size small))
  | inr big ↦ rw big (length-replicate n 0)
]

module _ (pooled : List ℕ) (env : Envelope) (hp : length pooled ≡ pool_size)
    (s : HasSizes env) where
  open env use {version_, msg_type, session_id, nonce, payload}

  abbrev payload_len : ℕ
  payload_len = length payload % 2 ^ 32

  abbrev buffer : List ℕ
  buffer = frame_buffer pooled (header_size + payload_len)

  abbrev header : List ℕ
  header = header_bytes version_ msg_type session_id nonce payload_len

  headed :
      serialize_header buffer version_ msg_type session_id nonce payload_len
      ≡ header ++ drop header_size buffer
  headed =
      serialize_header_lem buffer version_ msg_type session_id nonce payload_len
        (omega (arith, length-frame_buffer pooled (header_size + payload_len) hp))
        s.session_id_sized s.nonce_sized

  length-rest : length (drop header_size buffer) ≡ payload_len
  length-rest = omega (
    arith,
    length-drop header_size buffer,
    length-frame_buffer pooled (header_size + payload_len) hp,
  )

  filled :
      copy_at header_size (header ++ drop header_size buffer) payload
      ≡ header ++ take payload_len payload
  filled =
      copy_at-cut header_size header (drop header_size buffer) payload
        (length-header_bytes version_ msg_type session_id nonce payload_len s.session_id_sized
          s.nonce_sized)
        (omega (arith, length-rest))
      ∙ ap (λ n. header ++ take n payload) length-rest

  empty_rest : payload_len ≡ 0 → drop header_size buffer ≡ take payload_len payload
  empty_rest e =
      nil_of_length (drop header_size buffer) (length-rest ∙ e) ∙ ap (λ n. take n payload) (sym e)

  body :
      (if ltb 0 payload_len
        then copy_at header_size (header ++ drop header_size buffer) payload
        else (header ++ drop header_size buffer))
      ≡ header ++ take payload_len payload
  body = elim (Bool-cases (ltb 0 payload_len)) [
    | inl some_bytes ↦
        ap
          (λ b.
            if b
            then copy_at header_size (header ++ drop header_size buffer) payload
            else (header ++ drop header_size buffer))
          some_bytes
        ∙ filled
    | inr no_bytes ↦
        ap
          (λ b.
            if b
            then copy_at header_size (header ++ drop header_size buffer) payload
            else (header ++ drop header_size buffer))
          no_bytes
        ∙ ap (λ l. header ++ l) (empty_rest (ground arith))
  ]

  -- Whatever the pooled buffer holds, `Encode` gives the header and the payload to `Write`, at the
  -- length modulo 2 ^ 32, or refuses a length above 32 MB.
  pub frame_bytes_lem : frame_bytes pooled env ≡ (
      if ltb max_payload_size payload_len
      then err payload_too_large
      else ok (header ++ take payload_len payload))
  unfolding frame_bytes
  frame_bytes_lem =
      rw headed
        (ap (λ l. if ltb max_payload_size payload_len then err payload_too_large else ok l) body)
