-- ===== src/Relay/Proxy/Stripping.antt =====
-- What pkg/relay/proxy_proto.go leaves of a stream with and without a header.
use zero_feed.Base.{
  ℕ, ◌/◌, ◌≤◌, ◌≡◌, refl, true, false, List, [], ◌∷◌, ◌++◌, length, length-append, take-append,
  drop-append, leb, ltb, le→leb, bytes_equal_refl, get_be, put_be, get_be-put_be, length-put_be, ok,
  IoError, read_full-append, arith,
}
use zero_feed.Relay.Proxy.{proxy_v2_magic, addr_of, bind_read, parse_header, parse_proxy_header_v2}

-- A header with the given version byte, family byte and addresses.
abbrev pub header : ℕ → ℕ → List ℕ → List ℕ → List ℕ
header ver family payload rest =
    proxy_v2_magic
    ++ ((ver ∷ []) ++ ((family ∷ []) ++ (put_be 2 (length payload) ++ (payload ++ rest))))

parse_header_lem :
    (ver family : ℕ) (payload rest : List ℕ) (e : IoError)
    → length payload ≤ 512
    → parse_header (record {
      bytes = (ver ∷ []) ++ ((family ∷ []) ++ (put_be 2 (length payload) ++ (payload ++ rest)));
      final = e;
    })
      ≡ ok (record {
        addr = addr_of (family / 16) payload;
        stream = record { bytes = rest; final = e };
      })
unfolding parse_header bind_read
parse_header_lem ver family payload rest e h =
    let n : get_be (put_be 2 (length payload)) ≡ length payload =
      get_be-put_be 2 (length payload) (omega arith) in
    let small : ltb 512 (length payload) ≡ false = ground arith in
    rw (
      read_full-append 1 (ver ∷ [])
          ((family ∷ []) ++ (put_be 2 (length payload) ++ (payload ++ rest))) e refl,
      read_full-append 1 (family ∷ []) (put_be 2 (length payload) ++ (payload ++ rest)) e refl,
      read_full-append 2 (put_be 2 (length payload)) (payload ++ rest) e
          (length-put_be 2 (length payload)),
      n,
      small,
      read_full-append (length payload) payload rest e refl,
    )

-- A header of at most 512 bytes of addresses is stripped exactly, however much was buffered: the
-- connection reads on after it, and the address is the one it tells.
pub parse_proxy_header_v2_lem :
    (filled ver family : ℕ) (payload rest : List ℕ) (e : IoError)
    → length payload ≤ 512
    → parse_proxy_header_v2 filled (record { bytes = header ver family payload rest; final = e })
      ≡ ok (record {
        addr = addr_of (family / 16) payload;
        stream = record { bytes = rest; final = e };
      })
unfolding parse_proxy_header_v2
parse_proxy_header_v2_lem filled ver family payload rest e h =
    let after = (ver ∷ []) ++ ((family ∷ []) ++ (put_be 2 (length payload) ++ (payload ++ rest))) in
    let long : leb 12 (length (proxy_v2_magic ++ after)) ≡ true =
      le→leb 12 (length (proxy_v2_magic ++ after))
        (omega (arith, length-append proxy_v2_magic after)) in
    rw
      (
        long,
        take-append 12 proxy_v2_magic after refl,
        bytes_equal_refl proxy_v2_magic,
        drop-append 12 proxy_v2_magic after refl,
      )
      (parse_header_lem ver family payload rest e h)
