-- ===== src/Relay/WebSocket.antt =====
-- pkg/relay/websocket.go: the frames of RFC 6455 under a connection, and the origins that may upgrade.
pub mod Frames
pub mod Reads
pub mod Origins
mod Tests
use zero_feed.Base.{
  ℕ, zero, suc, ◌+◌, ◌*◌, ◌/◌, ◌%◌, ◌^◌, Bool, true, false, not, ◌||◌, List, [], ◌∷◌, ◌++◌, length,
  take, drop, get_or, ltb, leb, ◌==◌, if◌then◌else◌, Result, ok, err, map_err, IoError, eof, broken,
  Reader, read_full, Writer, put_be, get_be,
}

pub data WsError : Type 0 where
  io : IoError → WsError
  too_large : WsError

-- `a ^ b`, on the low bits.
unfoldable pub xor_bits : ℕ → ℕ → ℕ → ℕ
xor_bits zero a b = 0
xor_bits (suc bits) a b = (a % 2 + b % 2) % 2 + 2 * xor_bits bits (a / 2) (b / 2)

-- The loop over the payload, from index i of the mask.
unfoldable pub unmask_from : ℕ → List ℕ → List ℕ → List ℕ
unfolding xor_bits
unmask_from i key [] = []
unmask_from i key (b ∷ bs) = xor_bits 8 b (get_or key (i % 4) 0) ∷ unmask_from (i + 1) key bs

-- A part of `Read` that may fail, on the bytes that are still to come.
abbrev pub Reading : Type 0 → Type 0
Reading A = Reader → Result WsError A × Reader

abbrev pub bound :
    {A B : Type 0} → Result WsError A × Reader → (A → Reading B) → Result WsError B × Reader
bound (err e, r) f = (err e, r)
bound (ok a, r) f = f a r

infixl 5 ◌>>=◌
abbrev pub ◌>>=◌ : {A B : Type 0} → Reading A → (A → Reading B) → Reading B
m >>= f = λ r. bound (m r) f

abbrev pub give : {A : Type 0} → A → Reading A
give a = λ r. (ok a, r)

abbrev pub fail : {A : Type 0} → WsError → Reading A
fail e = λ r. (err e, r)

unfoldable pub read_bytes : ℕ → Reading (List ℕ)
read_bytes n = λ r. let (bs, r') = read_full n r in (map_err io bs, r')

abbrev pub max_ws_payload : ℕ
max_ws_payload = 64 * 1024 * 1024

-- The 64 MB limit, which stands only for lengths of eight bytes.
unfoldable pub limited : ℕ → Reading ℕ
limited n = if ltb max_ws_payload n then fail too_large else give n

-- `binary.Read` of a big-endian number of `size` bytes.
unfoldable pub read_number : ℕ → Reading ℕ
unfolding read_bytes
read_number size = do bs ← read_bytes size; give (get_be bs)

-- `ReadByte`
unfoldable pub read_byte : Reading ℕ
unfolding read_number
read_byte = read_number 1

unfoldable pub payload_length : ℕ → Reading ℕ
unfolding read_number limited
payload_length short =
    if short == 126
    then read_number 2
    else if short == 127
    then (read_number 8 >>= limited)
    else give short

unfoldable pub mask_key : Bool → Reading (List ℕ)
unfolding read_bytes
mask_key masked = if masked then read_bytes 4 else give []

unfoldable pub unmasked : Bool → List ℕ → List ℕ → List ℕ
unfolding unmask_from
unmasked masked key payload = if masked then unmask_from 0 key payload else payload

pub record Frame : Type 0 where
  pub opcode : ℕ
  pub payload : List ℕ

-- The frame after its first byte.
unfoldable pub frame_after : ℕ → Reading Frame
unfolding read_byte payload_length mask_key read_bytes unmasked
frame_after header = do
  len_byte ← read_byte
  n ← payload_length (len_byte % 128)
  key ← mask_key (leb 128 len_byte)
  payload ← read_bytes n
  give (record { opcode = header % 16; payload = unmasked (leb 128 len_byte) key payload })

-- One round of the loop of `Read`, up to the payload. A close frame ends the stream.
unfoldable pub read_frame : Reading Frame
unfolding read_byte frame_after
read_frame = do header ← read_byte; (if header % 16 == 8 then fail (io eof) else frame_after header)

pub record WsConn : Type 0 where
  pub reader : Reader
  pub read_buf : List ℕ
  pub writer : Writer

unfoldable pub pong : List ℕ → List ℕ
pong payload =
    let n = length payload in
    0x8a ∷ (if leb n 125 then n % 256 ∷ [] else 126 ∷ (n / 256) % 256 ∷ n % 256 ∷ []) ++ payload

-- `Conn.Write`, whose error is dropped.
unfoldable pub write_through : List ℕ → Writer → Writer
write_through bytes w = if w.open_ then record w { writes = w.writes ++ (bytes ∷ []) } else w

unfoldable pub take_payload : Frame → WsConn → WsConn
take_payload f c = record c { read_buf = f.payload }

unfoldable pub send_pong : Frame → WsConn → WsConn
unfolding pong write_through
send_pong f c = record c { writer = write_through (pong f.payload) c.writer }

unfoldable pub is_data : ℕ → Bool
is_data opcode = opcode == 0x01 || opcode == 0x02 || opcode == 0x00

-- What a round of the loop does with its frame; `again` is the loop's next round.
unfoldable pub after_frame :
    (WsConn → Result WsError (Unit {0}) × WsConn)
    → WsConn
    → Result WsError Frame × Reader
    → Result WsError (Unit {0}) × WsConn
unfolding is_data take_payload send_pong
after_frame again c (err e, r) = (err e, record c { reader = r })
after_frame again c (ok f, r) =
    let c' = record c { reader = r } in
    if f.opcode == 0x09
    then again (send_pong f c')
    else if is_data f.opcode
    then (ok tt, take_payload f c')
    else again c'

-- The loop of `Read`. A frame takes a byte at least, so one round more than there are bytes is enough.
unfoldable pub fill : ℕ → WsConn → Result WsError (Unit {0}) × WsConn
unfolding read_frame after_frame
fill zero c = (err (io eof), c)
fill (suc rounds) c = after_frame (fill rounds) c (read_frame c.reader)

unfoldable pub handed : ℕ → Result WsError (Unit {0}) × WsConn → Result WsError (List ℕ) × WsConn
handed size (err e, c) = (err e, c)
handed size (ok u, c) = (ok (take size c.read_buf), record c { read_buf = drop size c.read_buf })

-- `Read` into a slice of `size` bytes gives the bytes that it copied.
unfoldable pub read : ℕ → WsConn → Result WsError (List ℕ) × WsConn
unfolding fill handed
read size c =
    handed size (if length c.read_buf == 0 then fill (length c.reader.bytes + 1) c else (ok tt, c))

unfoldable pub ws_frame : List ℕ → List ℕ
ws_frame p =
    let n = length p in
    (0x82
      ∷ (if leb n 125 then n ∷ [] else if leb n 65535 then 126 ∷ put_be 2 n else 127 ∷ put_be 8 n))
    ++ p

-- `Write` gives the length of its argument.
unfoldable pub write : List ℕ → WsConn → Result IoError ℕ × WsConn
unfolding ws_frame
write p c =
    if c.writer.open_
    then (
      ok (length p),
      record c { writer = record c.writer { writes = c.writer.writes ++ (ws_frame p ∷ []) } },
    )
    else (err broken, c)
