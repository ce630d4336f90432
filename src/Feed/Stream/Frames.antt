-- ===== src/Feed/Stream/Frames.antt =====
-- A frame of pkg/feed/publisher.go as pkg/feed/subscriber.go reads it.
use zero_feed.Base.{
  ℕ, ◌+◌, ◌^◌, ◌<◌, ◌≡◌, ap, ◌∙◌, false, some, List, [], ◌++◌, length, take, drop, length-append,
  length-take, take-append, drop-append, ltb, ok, get_be, put_be, get_be-put_be, length-put_be,
  arith,
}
use zero_feed.Protocol.Messages.{Envelope, version, msg_type_data_stream, msg_type_rekey}
use zero_feed.Protocol.Padding.{pad_payload}
use zero_feed.Protocol.Padding.Laws.{unpad_payload-pad_payload}
use zero_feed.Crypto.Cipher.{Cipher, Primitives, IsLawful, decrypt, construct_nonce_rfc5116}
use zero_feed.Crypto.Cipher.Laws.{decrypt-encrypt, length-construct_nonce_rfc5116}
use zero_feed.Feed.Publisher.{aad_of, frame_of, encrypted_frame}
use zero_feed.Feed.Subscriber.{
  SubscriberEngine, continues, aad_from, or_raw, deliver, data_opened, handle_data, handle_envelope,
  handle_rekey, rekey_opened, rekeyed,
}

abbrev pub of_key : List ℕ → Cipher
of_key key = record { aead = some key; key = some key }

module _ (prims : Primitives) (lawful : IsLawful prims) where
  abbrev pub frame : ℕ → List ℕ → List ℕ → ℕ → List ℕ → Envelope
  frame msg_type sid key seq plaintext =
      let nonce = construct_nonce_rfc5116 (take 4 sid) seq in
      record {
        version_ = version;
        msg_type = msg_type;
        session_id = sid;
        nonce = nonce;
        payload =
            put_be 8 seq
            ++ prims.seal key nonce plaintext (aad_of msg_type sid nonce (length plaintext));
      }

  module _ (msg_type : ℕ) (sid key : List ℕ) (seq : ℕ) (plaintext : List ℕ)
      (h : length sid ≡ 16) where
    length-nonce : length (construct_nonce_rfc5116 (take 4 sid) seq) ≡ 12
    length-nonce =
        length-construct_nonce_rfc5116 (take 4 sid) seq (omega (arith, length-take 4 sid))

    pub encrypted_frame_lem :
        encrypted_frame prims msg_type sid (of_key key) seq plaintext
        ≡ ok (frame msg_type sid key seq plaintext)
    unfolding encrypted_frame frame_of
    encrypted_frame_lem =
        let n = construct_nonce_rfc5116 (take 4 sid) seq in
        rw
          (decrypt-encrypt prims lawful [] key n plaintext
            (aad_of msg_type sid n (length plaintext)) length-nonce).0

    pub length-frame :
        length (frame msg_type sid key seq plaintext).payload ≡ 8 + length plaintext + 16
    length-frame =
        let n = construct_nonce_rfc5116 (take 4 sid) seq in
        let aad = aad_of msg_type sid n (length plaintext) in
        omega (
          arith,
          length-append (put_be 8 seq) (prims.seal key n plaintext aad),
          length-put_be 8 seq,
          lawful.length-seal key n plaintext aad,
        )

    -- The subscriber writes the publisher's header again.
    aad_from-frame :
        aad_from (frame msg_type sid key seq plaintext)
        ≡ aad_of msg_type sid (construct_nonce_rfc5116 (take 4 sid) seq) (length plaintext)
    unfolding aad_from aad_of
    aad_from-frame = rw length-frame

    pub decrypt-frame :
        let env = frame msg_type sid key seq plaintext in
        decrypt prims (of_key key) (drop 8 env.payload) env.nonce (aad_from env) ≡ ok plaintext
    decrypt-frame =
        let n = construct_nonce_rfc5116 (take 4 sid) seq in
        let aad = aad_of msg_type sid n (length plaintext) in
        rw
          (
            drop-append 8 (put_be 8 seq) (prims.seal key n plaintext aad) (length-put_be 8 seq),
            aad_from-frame,
          )
          (decrypt-encrypt prims lawful [] key n plaintext aad length-nonce).1

    pub seq-frame :
        seq < 2 ^ 64 → get_be (take 8 (frame msg_type sid key seq plaintext).payload) ≡ seq
    seq-frame hs =
        let n = construct_nonce_rfc5116 (take 4 sid) seq in
        ap get_be (
          take-append 8 (put_be 8 seq)
            (prims.seal key n plaintext (aad_of msg_type sid n (length plaintext)))
            (length-put_be 8 seq))
        ∙ get_be-put_be 8 seq (omega arith)

    long-frame : ltb (length (frame msg_type sid key seq plaintext).payload) 8 ≡ false
    long-frame = ground (arith, length-frame)

  -- The frame of a payload is opened, and its payload delivered.
  pub handle_envelope-data :
      (pooled sid key : List ℕ) (seq target : ℕ) (payload : List ℕ) (s : SubscriberEngine)
      → length sid ≡ 16
      → seq < 2 ^ 64
      → length payload < 2 ^ 32
      → s.cipher ≡ some (of_key key)
      → handle_envelope prims pooled
          (frame msg_type_data_stream sid key seq (pad_payload payload target))
          s
        ≡ (continues, deliver pooled seq payload s)
  unfolding handle_envelope handle_data data_opened or_raw
  handle_envelope-data pooled sid key seq target payload s h hs hp hc =
      let plaintext = pad_payload payload target in
      rw (
        long-frame msg_type_data_stream sid key seq plaintext h,
        hc,
        decrypt-frame msg_type_data_stream sid key seq plaintext h,
        seq-frame msg_type_data_stream sid key seq plaintext h hs,
        unpad_payload-pad_payload payload target hp,
      )

  -- The frame of a new key is opened, and its salt used.
  pub handle_envelope-rekey :
      (pooled sid key : List ℕ) (seq : ℕ) (salt : List ℕ) (s : SubscriberEngine)
      → length sid ≡ 16
      → s.cipher ≡ some (of_key key)
      → handle_envelope prims pooled (frame msg_type_rekey sid key seq salt) s
        ≡ (continues, rekeyed prims (of_key key) salt (some key) s)
  unfolding handle_envelope handle_rekey rekey_opened
  handle_envelope-rekey pooled sid key seq salt s h hc = rw (
    long-frame msg_type_rekey sid key seq salt h,
    hc,
    decrypt-frame msg_type_rekey sid key seq salt h,
  )
