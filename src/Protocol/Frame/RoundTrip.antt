-- ===== src/Protocol/Frame/RoundTrip.antt =====
-- `Decode` of pkg/protocol/envelope.go after `Encode`, and the other way round.
use zero_feed.Base.{
  ℕ, ◌%◌, ◌^◌, ◌≤◌, ◌<◌, ◌≡◌, refl, ap, sym, ◌∙◌, true, List, [], ◌∷◌, ◌++◌, append_assoc, length,
  take, drop, take-append, drop-append, drop-drop, take_all, length-take, put_be, get_be,
  get_be-put_be, length-put_be, bytes_equal_refl, ok, IoError, Reader, read_full, read_full-append,
  arith, Writer,
}
use mathlib.Core.Path.{subst}
use zero_feed.Protocol.Messages.{
  Envelope, HasSizes, header_size, magic_header, min_supported_version,
}
use zero_feed.Protocol.Frame.{
  max_payload_size, pool_size, encode, envelope_of, decode_header, decode_with_max,
}
use zero_feed.Protocol.Frame.Encoded.{header_bytes, length-header_bytes, frame_bytes_lem}

-- The fields of a header, read back from its bytes.
module _ (ver ty : ℕ) (sid nonce : List ℕ) (n : ℕ) (hs : length sid ≡ 16)
    (hn : length nonce ≡ 12) where
  abbrev header : List ℕ
  header = header_bytes ver ty sid nonce n

  session_id-header : take 16 (drop 6 header) ≡ sid
  session_id-header = take-append 16 sid (nonce ++ put_be 4 n) hs

  nonce-header : take 12 (drop 22 header) ≡ nonce
  nonce-header =
      ap (take 12) (drop-append 16 sid (nonce ++ put_be 4 n) hs)
      ∙ take-append 12 nonce (put_be 4 n) hn

  len-header : n < 2 ^ 32 → get_be (take 4 (drop 34 header)) ≡ n
  len-header h =
      ap (λ l. get_be (take 4 l))
        (sym (drop-drop 16 12 28 (sid ++ (nonce ++ put_be 4 n)) refl)
          ∙ ap (drop 12) (drop-append 16 sid (nonce ++ put_be 4 n) hs)
          ∙ drop-append 12 nonce (put_be 4 n) hn)
      ∙ ap get_be (take_all 4 (put_be 4 n) (omega (arith, length-put_be 4 n)))
      ∙ get_be-put_be 4 n h

  -- The envelope of a header and a payload.
  envelope_of-header :
      (payload : List ℕ)
      → envelope_of header payload ≡ record {
        version_ = ver;
        msg_type = ty;
        session_id = sid;
        nonce = nonce;
        payload = payload;
      }
  unfolding envelope_of
  envelope_of-header payload = λ i. record {
    version_ = ver;
    msg_type = ty;
    session_id = session_id-header i;
    nonce = nonce-header i;
    payload = payload;
  }

  -- The checks of `DecodeWithMax` pass, and the payload is what follows the header.
  decode_header-header :
      (max_payload : ℕ) (payload rest : List ℕ) (e : IoError)
      → min_supported_version ≤ ver
      → length payload ≡ n
      → n ≤ max_payload
      → n < 2 ^ 32
      → decode_header max_payload (ok header, record { bytes = payload ++ rest; final = e })
        ≡ (ok (envelope_of header payload), record { bytes = rest; final = e })
  unfolding decode_header
  decode_header-header max_payload [] rest e hv hp hm hw =
      ground (arith, bytes_equal_refl magic_header, len-header hw)
  decode_header-header max_payload (b ∷ payload) rest e hv hp hm hw = ground (
    arith,
    bytes_equal_refl magic_header,
    len-header hw,
    read_full-append n (b ∷ payload) rest e hp,
  )

-- A header and a payload of the length that it gives are decoded, and what follows is left.
pub decode-frame :
    (env : Envelope) (max_payload : ℕ) (rest : List ℕ) (e : IoError)
    → HasSizes env
    → min_supported_version ≤ env.version_
    → length env.payload ≤ max_payload
    → length env.payload < 2 ^ 32
    → decode_with_max
        (record {
          bytes =
              (header_bytes env.version_ env.msg_type env.session_id env.nonce (length env.payload)
                ++ env.payload)
              ++ rest;
          final = e;
        })
        max_payload
      ≡ (ok env, record { bytes = rest; final = e })
decode-frame env max_payload rest e s hv hm hw =
    let hd : List ℕ =
      header_bytes env.version_ env.msg_type env.session_id env.nonce (length env.payload) in
    let whole : read_full header_size (record { bytes = (hd ++ env.payload) ++ rest; final = e })
        ≡ (ok hd, record { bytes = env.payload ++ rest; final = e }) =
      rw append_assoc (
        read_full-append header_size hd (env.payload ++ rest) e (
          length-header_bytes env.version_ env.msg_type env.session_id env.nonce
            (length env.payload) s.session_id_sized s.nonce_sized)) in
    let left : Reader = record { bytes = rest; final = e } in
    unfold decode_with_max in
    (ap (decode_header max_payload) whole
      ∙ decode_header-header env.version_ env.msg_type env.session_id env.nonce (length env.payload)
          s.session_id_sized s.nonce_sized max_payload env.payload rest e hv refl hm hw
      ∙ ap (λ v. (ok v, left))
          (envelope_of-header env.version_ env.msg_type env.session_id env.nonce
            (length env.payload) s.session_id_sized s.nonce_sized env.payload))

-- The envelope as it travels: the payload is cut at its length modulo 2 ^ 32.
abbrev pub cut : Envelope → Envelope
cut env = record env { payload = take (length env.payload % 2 ^ 32) env.payload }

-- Encode checks the length of the payload modulo 2 ^ 32: for an envelope with a supported version
-- and sized id and nonce, if that remainder is at most 32 MB it writes one frame and reports no
-- error, however long the payload is, and DecodeWithMax with a bound that is no smaller reads the
-- frame as the envelope with its payload cut to the remainder.
pub decode-encode-cut :
    (pooled : List ℕ) (w : Writer) (env : Envelope) (max_payload : ℕ) (rest : List ℕ) (e : IoError)
    → length pooled ≡ pool_size
    → w.open_ ≡ true
    → HasSizes env
    → min_supported_version ≤ env.version_
    → length env.payload % 2 ^ 32 ≤ max_payload_size
    → length env.payload % 2 ^ 32 ≤ max_payload
    → (frame : List ℕ) × (encode pooled w env
        ≡ (ok tt, record w { writes = w.writes ++ (frame ∷ []) }))
      × (decode_with_max (record { bytes = frame ++ rest; final = e }) max_payload
          ≡ (ok (cut env), record { bytes = rest; final = e }))
unfolding encode
decode-encode-cut pooled w env max_payload rest e hp ho s hv hl hm =
    let n = length env.payload % 2 ^ 32 in
    let payload = take n env.payload in
    let sized : length payload ≡ n = omega (arith, length-take n env.payload) in
    let hd = λ (k : ℕ). header_bytes env.version_ env.msg_type env.session_id env.nonce k in
    (
      (hd n ++ payload),
      ground (arith, frame_bytes_lem pooled env hp s),
      subst
          (λ k.
            decode_with_max (record { bytes = (hd k ++ payload) ++ rest; final = e }) max_payload
            ≡ (ok (cut env), record { bytes = rest; final = e }))
          sized
          (decode-frame (cut env) max_payload rest e
            (record { session_id_sized = s.session_id_sized; nonce_sized = s.nonce_sized }) hv
            (omega arith) (omega arith)),
    )

-- On a connection that takes bytes, Encode writes exactly one slice, whatever the 64 KiB pooled
-- buffer holds, for an envelope with a supported version, sized id and nonce and a payload of at
-- most 32 MB; wherever that slice stands in a stream, DecodeWithMax with a bound that is no
-- smaller than the payload gives the envelope back and leaves what follows.
pub decode-encode :
    (pooled : List ℕ) (w : Writer) (env : Envelope) (max_payload : ℕ) (rest : List ℕ) (e : IoError)
    → length pooled ≡ pool_size
    → w.open_ ≡ true
    → HasSizes env
    → min_supported_version ≤ env.version_
    → length env.payload ≤ max_payload_size
    → length env.payload ≤ max_payload
    → (frame : List ℕ) × (encode pooled w env
        ≡ (ok tt, record w { writes = w.writes ++ (frame ∷ []) }))
      × (decode_with_max (record { bytes = frame ++ rest; final = e }) max_payload
          ≡ (ok env, record { bytes = rest; final = e }))
decode-encode pooled w env max_payload rest e hp ho s hv hl hm =
    let whole : take (length env.payload % 2 ^ 32) env.payload ≡ env.payload =
      take_all (length env.payload % 2 ^ 32) env.payload (omega arith) in
    let same : cut env ≡ env = ap (λ p. record env { payload = p }) whole in
    let (frame, written, back) =
      decode-encode-cut pooled w env max_payload rest e hp ho s hv (omega arith) (omega arith) in
    (frame, written, back ∙ ap (λ v. (ok v, record { bytes = rest; final = e })) same)
