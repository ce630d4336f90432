-- ===== src/Relay/Proxy.antt =====
-- pkg/relay/proxy_proto.go: the header in which a proxy tells the client's address.
pub mod Stripping
pub mod Direct
mod Tests
use zero_feed.Base.{
  ℕ, ◌+◌, ◌/◌, Bool, true, false, ◌&&◌, List, [], ◌∷◌, length, take, drop, leb, ltb, ◌==◌,
  if◌then◌else◌, bytes_equal, get_be, get_or, Result, ok, err, IoError, Reader, read_full,
}

abbrev pub proxy_v2_magic : List ℕ
proxy_v2_magic =
    0x0D ∷ 0x0A ∷ 0x0D ∷ 0x0A ∷ 0x00 ∷ 0x0D ∷ 0x0A ∷ 0x51 ∷ 0x55 ∷ 0x49 ∷ 0x54 ∷ 0x0A ∷ []

-- The address of the peer itself, or the bytes of an IP address and a port, which the source prints.
pub data ClientAddr : Type 0 where
  peer : ClientAddr
  ipv4 ipv6 : List ℕ → ℕ → ClientAddr

pub data ProxyError : Type 0 where
  read_error : IoError → ProxyError
  too_long : ProxyError

-- The address, and what the connection that is handed on will read.
pub record Parsed : Type 0 where
  pub addr : ClientAddr
  pub stream : Reader

unfoldable pub addr_of : ℕ → List ℕ → ClientAddr
addr_of family payload =
    if family == 1 && leb 12 (length payload)
    then ipv4 (take 4 payload) (get_be (take 2 (drop 8 payload)))
    else if family == 2 && leb 36 (length payload)
    then ipv6 (take 16 payload) (get_be (take 2 (drop 32 payload)))
    else peer

unfoldable pub bind_read :
    Result IoError (List ℕ) × Reader
    → (List ℕ → Reader → Result ProxyError Parsed)
    → Result ProxyError Parsed
bind_read (err e, r) next = err (read_error e)
bind_read (ok bytes, r) next = next bytes r

-- What follows the magic bytes.
unfoldable pub parse_header : Reader → Result ProxyError Parsed
unfolding bind_read
parse_header r = bind_read (read_full 1 r) (λ ver_cmd r1.
    bind_read (read_full 1 r1) (λ family_buf r2. bind_read (read_full 2 r2) (λ len_buf r3.
      if ltb 512 (get_be len_buf)
      then err too_long
      else bind_read (read_full (get_be len_buf) r3) (λ payload r4.
        ok (record { addr = addr_of (get_or family_buf 0 0 / 16) payload; stream = r4 })))))

-- `filled` is the number of bytes that `bufio` took from the connection for `Peek`. With a header, the
-- buffered reader is handed on; without one, the bare connection.
unfoldable pub parse_proxy_header_v2 : ℕ → Reader → Result ProxyError Parsed
unfolding parse_header
parse_proxy_header_v2 filled r =
    if leb 12 (length r.bytes) && bytes_equal (take 12 r.bytes) proxy_v2_magic
    then parse_header (record r { bytes = drop 12 r.bytes })
    else ok (record { addr = peer; stream = record r { bytes = drop filled r.bytes } })
