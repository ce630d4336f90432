-- ===== src/Relay/Proxy/Direct.antt =====
-- A client of pkg/relay/server.go that connects without a proxy to a relay that expects one.
use zero_feed.Base.{
  ℕ, ◌≤◌, ◌≡◌, refl, ap, ◌∙◌, Bool, true, false, ◌&&◌, List, [], ◌∷◌, ◌++◌, length, take, drop,
  drop-append, leb, bytes_equal, ok, IoError, Reader, Writer, if◌then◌else◌,
}
use zero_feed.Protocol.Messages.{Envelope, HasSizes, magic_header, min_supported_version}
use zero_feed.Protocol.Frame.{max_payload_size, pool_size, encode, decode_with_max}
use zero_feed.Protocol.Frame.Errors.{decode_with_max-starts}
use zero_feed.Protocol.Frame.RoundTrip.{decode-encode}
use zero_feed.Relay.Proxy.{proxy_v2_magic, peer, Parsed, parse_proxy_header_v2}

-- A frame does not start with the magic bytes of a PROXY header.
no_proxy_magic :
    (bytes : List ℕ)
    → take 4 bytes ≡ magic_header
    → bytes_equal (take 12 bytes) proxy_v2_magic ≡ false
unfolding bytes_equal
no_proxy_magic [] h = refl
no_proxy_magic (b ∷ bytes) h =
    let first : b ≡ b'Z' = cc in ap (λ c. bytes_equal (take 12 (c ∷ bytes)) proxy_v2_magic) first

not_both : {A : Type 0} (b : Bool) (x y : A) → (if b && false then x else y) ≡ y
not_both true x y = refl
not_both false x y = refl

-- Without a PROXY header, what was buffered is dropped.
dropped :
    (filled : ℕ) (r : Reader)
    → take 4 r.bytes ≡ magic_header
    → parse_proxy_header_v2 filled r
      ≡ ok (record { addr = peer; stream = record r { bytes = drop filled r.bytes } })
unfolding parse_proxy_header_v2
dropped filled r h = rw (no_proxy_magic r.bytes h) (not_both (leb 12 (length r.bytes)) _ _)

-- Encode writes two envelopes with supported versions and sized ids and nonces, each with a
-- payload within 32 MB and the bound of the decoding. Where their frames stand one after the other
-- in a stream, DecodeWithMax gives the first envelope. If the stream goes through
-- ParseProxyHeaderV2 while exactly the first frame has been buffered, it is accepted with the
-- peer's address, but DecodeWithMax then gives the second envelope: the first is lost.
pub decode_with_max-parse_proxy_header_v2 :
    (pooled : List ℕ) (w : Writer) (env1 env2 : Envelope) (max_payload : ℕ) (rest : List ℕ)
    (e : IoError)
    → length pooled ≡ pool_size
    → w.open_ ≡ true
    → HasSizes env1
    → HasSizes env2
    → min_supported_version ≤ env1.version_
    → min_supported_version ≤ env2.version_
    → length env1.payload ≤ max_payload_size
    → length env2.payload ≤ max_payload_size
    → length env1.payload ≤ max_payload
    → length env2.payload ≤ max_payload
    → (first : List ℕ) × (second : List ℕ) × (parsed : Parsed) × (encode pooled w env1
        ≡ (ok tt, record w { writes = w.writes ++ (first ∷ []) }))
      × (encode pooled w env2 ≡ (ok tt, record w { writes = w.writes ++ (second ∷ []) }))
      × (decode_with_max (record { bytes = first ++ (second ++ rest); final = e }) max_payload
          ≡ (ok env1, record { bytes = second ++ rest; final = e }))
      × (parse_proxy_header_v2
            (length first)
            (record { bytes = first ++ (second ++ rest); final = e })
          ≡ ok parsed)
      × (parsed.addr ≡ peer)
      × (decode_with_max parsed.stream max_payload ≡ (ok env2, record { bytes = rest; final = e }))
decode_with_max-parse_proxy_header_v2 pooled w env1 env2 max_payload rest e hp ho s1 s2 v1 v2 l1 l2
      m1 m2 =
    let (second, written2, back2) =
      decode-encode pooled w env2 max_payload rest e hp ho s2 v2 l2 m2 in
    let (first, written1, back1) =
      decode-encode pooled w env1 max_payload (second ++ rest) e hp ho s1 v1 l1 m1 in
    let r : Reader = record { bytes = first ++ (second ++ rest); final = e } in
    let starts = decode_with_max-starts r max_payload back1 in
    let left : drop (length first) (first ++ (second ++ rest)) ≡ second ++ rest =
      drop-append (length first) first (second ++ rest) refl in
    (
      first,
      second,
      record { addr = peer; stream = record { bytes = second ++ rest; final = e } },
      written1,
      written2,
      back1,
      dropped (length first) r starts.0
          ∙ ap (λ l. ok (record { addr = peer; stream = record { bytes = l; final = e } })) left,
      refl,
      back2,
    )
