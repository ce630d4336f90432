-- ===== src/Relay/Proxy/Tests.antt =====
-- The theorems of the PROXY header at concrete inputs.
use zero_feed.Base.{
  ℕ, ◌≡◌, refl, true, List, [], ◌∷◌, ◌++◌, length, replicate, length-replicate, Writer, get_be, ok,
  eof, arith,
}
use zero_feed.Relay.Proxy.{ipv4, peer, Parsed, addr_of, parse_proxy_header_v2}
use zero_feed.Relay.Proxy.Stripping.{header, parse_proxy_header_v2_lem}
use zero_feed.Relay.Proxy.Direct.{decode_with_max-parse_proxy_header_v2}
use zero_feed.Protocol.Messages.{Envelope}
use zero_feed.Protocol.Frame.{pool_size, encode, decode_with_max}

abbrev addresses : List ℕ
addresses = 10 ∷ 0 ∷ 0 ∷ 7 ∷ 10 ∷ 0 ∷ 0 ∷ 1 ∷ 1 ∷ 2 ∷ 0 ∷ 80 ∷ []

parse_proxy_header_v2_lem_example :
    parse_proxy_header_v2 64
      (record { bytes = header 0x21 0x11 addresses (5 ∷ 6 ∷ []); final = eof })
    ≡ ok (record {
      addr = ipv4 (10 ∷ 0 ∷ 0 ∷ 7 ∷ []) 258;
      stream = record { bytes = 5 ∷ 6 ∷ []; final = eof };
    })
unfolding addr_of get_be
parse_proxy_header_v2_lem_example =
    parse_proxy_header_v2_lem 64 0x21 0x11 addresses (5 ∷ 6 ∷ []) eof (omega arith)

-- The first two frames of a client.
abbrev session : List ℕ
session = replicate 16 1

abbrev opening : Envelope
opening = record {
  version_ = 3;
  msg_type = 1;
  session_id = session;
  nonce = replicate 12 0;
  payload = b'h' ∷ [];
}

abbrev next_one : Envelope
next_one = record opening { msg_type = 4; payload = [] }

abbrev socket : Writer
socket = record { writes = []; open_ = true }

abbrev pool_buffer : List ℕ
pool_buffer = replicate pool_size 7

decode_with_max-parse_proxy_header_v2_example :
    (first : List ℕ) × (second : List ℕ) × (parsed : Parsed) × (encode pool_buffer socket opening
      ≡ (ok tt, record socket { writes = first ∷ [] }))
    × (encode pool_buffer socket next_one ≡ (ok tt, record socket { writes = second ∷ [] }))
    × (decode_with_max (record { bytes = first ++ (second ++ []); final = eof }) 8192
        ≡ (ok opening, record { bytes = second ++ []; final = eof }))
    × (parse_proxy_header_v2
          (length first)
          (record { bytes = first ++ (second ++ []); final = eof })
        ≡ ok parsed)
    × (parsed.addr ≡ peer)
    × (decode_with_max parsed.stream 8192 ≡ (ok next_one, record { bytes = []; final = eof }))
decode_with_max-parse_proxy_header_v2_example =
    decode_with_max-parse_proxy_header_v2 pool_buffer socket opening next_one 8192 [] eof
      (length-replicate {A = ℕ} pool_size 7) refl
      (record { session_id_sized = refl; nonce_sized = refl })
      (record { session_id_sized = refl; nonce_sized = refl }) (omega arith) (omega arith)
      (omega arith) (omega arith) (omega arith) (omega arith)
