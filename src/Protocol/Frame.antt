-- ===== src/Protocol/Frame.antt =====
-- pkg/protocol/envelope.go: a frame is a header of 38 bytes and a payload.
pub mod Encoded
pub mod RoundTrip
pub mod Errors
use zero_feed.Base.{
  ℕ, ◌+◌, ◌*◌, ◌%◌, ◌^◌, Bool, true, false, not, List, [], ◌∷◌, ◌++◌, length, take, drop, get_or,
  replicate, copy_at, ltb, leb, if◌then◌else◌, bytes_equal, get_be, Result, ok, err, IoError,
  Reader, read_full, Writer,
}
use zero_feed.Protocol.Messages.{
  Envelope, header_size, magic_header, min_supported_version, serialize_header,
}

abbrev pub max_payload_size : ℕ
max_payload_size = 32 * 1024 * 1024

abbrev pub max_handshake_payload : ℕ
max_handshake_payload = 8192

-- The size of the pooled buffers.
abbrev pub pool_size : ℕ
pool_size = 64 * 1024

pub data EncodeError : Type 0 where
  payload_too_large : EncodeError
  write_failed : EncodeError

-- The buffer of a frame: a prefix of the pooled one, which holds what earlier frames left there, or
-- a fresh one.
pub frame_buffer : List ℕ → ℕ → List ℕ
frame_buffer pooled full_size =
    if leb full_size pool_size then take full_size pooled else replicate full_size 0

-- The slice that `Encode` gives to `Write`. `uint32(len)` keeps the length modulo 2 ^ 32.
pub frame_bytes : List ℕ → Envelope → Result EncodeError (List ℕ)
unfolding frame_buffer
frame_bytes pooled env =
    let payload_len = length env.payload % 2 ^ 32 in
    let full_size = header_size + payload_len in
    let buf =
      serialize_header (frame_buffer pooled full_size) env.version_ env.msg_type env.session_id
        env.nonce payload_len in
    if ltb max_payload_size payload_len
    then err payload_too_large
    else ok (if ltb 0 payload_len then copy_at header_size buf env.payload else buf)

-- One `Write` of the whole frame.
write_frame : Writer → Result EncodeError (List ℕ) → Result EncodeError (Unit {0}) × Writer
write_frame w (err e) = (err e, w)
write_frame w (ok frame) =
    if w.open_
    then (ok tt, record w { writes = w.writes ++ (frame ∷ []) })
    else (err write_failed, w)

pub encode : List ℕ → Writer → Envelope → Result EncodeError (Unit {0}) × Writer
unfolding frame_bytes write_frame
encode pooled w env = write_frame w (frame_bytes pooled env)

pub data DecodeError : Type 0 where
  read_failed : IoError → DecodeError
  invalid_magic : DecodeError
  unsupported_ver : ℕ → DecodeError
  too_large : DecodeError
  payload_failed : IoError → DecodeError

-- `errors.Is(err, target)` where the wrapped chain ends in an error of the reader.
unfoldable pub io_cause : DecodeError → Result (Unit {0}) IoError
io_cause (read_failed e) = ok e
io_cause (payload_failed e) = ok e
io_cause _ = err tt

unfoldable pub envelope_of : List ℕ → List ℕ → Envelope
envelope_of header payload = record {
  version_ = get_or header 4 0;
  msg_type = get_or header 5 0;
  session_id = take 16 (drop 6 header);
  nonce = take 12 (drop 22 header);
  payload = payload;
}

unfoldable pub read_payload :
    List ℕ → Result IoError (List ℕ) × Reader → Result DecodeError Envelope × Reader
unfolding envelope_of
read_payload header (ok payload, r) = (ok (envelope_of header payload), r)
read_payload header (err e, r) = (err (payload_failed e), r)

unfoldable pub decode_header :
    ℕ → Result IoError (List ℕ) × Reader → Result DecodeError Envelope × Reader
unfolding read_payload
decode_header max_payload (err e, r) = (err (read_failed e), r)
decode_header max_payload (ok header, r) =
    let payload_len = get_be (take 4 (drop 34 header)) in
    let ver = get_or header 4 0 in
    if not (bytes_equal (take 4 header) magic_header)
    then (err invalid_magic, r)
    else if ltb ver min_supported_version
    then (err (unsupported_ver ver), r)
    else if ltb max_payload payload_len
    then (err too_large, r)
    else if ltb 0 payload_len
    then read_payload header (read_full payload_len r)
    else (ok (envelope_of header []), r)

unfoldable pub decode_with_max : Reader → ℕ → Result DecodeError Envelope × Reader
unfolding decode_header read_payload envelope_of
decode_with_max r max_payload = decode_header max_payload (read_full header_size r)

unfoldable pub decode : Reader → Result DecodeError Envelope × Reader
decode r = decode_with_max r max_payload_size
