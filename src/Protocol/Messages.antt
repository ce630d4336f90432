-- ===== src/Protocol/Messages.antt =====
-- pkg/protocol/messages.go: the constants of the wire format, the envelope, and the frame header.
use zero_feed.Base.{ℕ, ◌+◌, ◌≡◌, List, [], ◌∷◌, length, set, copy_at, put_be}

abbrev pub version : ℕ
version = 0x03

abbrev pub min_supported_version : ℕ
min_supported_version = 0x03

-- The frame types.
abbrev pub msg_type_pake_init_pub : ℕ
msg_type_pake_init_pub = 0x01

abbrev pub msg_type_pake_init_sub : ℕ
msg_type_pake_init_sub = 0x02

abbrev pub msg_type_pake_step2 : ℕ
msg_type_pake_step2 = 0x03

abbrev pub msg_type_data_stream : ℕ
msg_type_data_stream = 0x04

abbrev pub msg_type_heartbeat : ℕ
msg_type_heartbeat = 0x05

abbrev pub msg_type_close : ℕ
msg_type_close = 0x06

abbrev pub msg_type_sync_req : ℕ
msg_type_sync_req = 0x07

abbrev pub msg_type_chunk_ack : ℕ
msg_type_chunk_ack = 0x08

abbrev pub msg_type_rekey : ℕ
msg_type_rekey = 0x09

abbrev pub msg_type_key_confirm : ℕ
msg_type_key_confirm = 0x0a

-- The tags of the encrypted payloads.
abbrev pub tag_text : ℕ
tag_text = 0x01

abbrev pub tag_file_start : ℕ
tag_file_start = 0x02

abbrev pub tag_file_chunk : ℕ
tag_file_chunk = 0x03

abbrev pub tag_file_end : ℕ
tag_file_end = 0x04

abbrev pub magic_size : ℕ
magic_size = 4

abbrev pub session_id_size : ℕ
session_id_size = 16

abbrev pub nonce_size : ℕ
nonce_size = 12

abbrev pub header_size : ℕ
header_size = magic_size + 1 + 1 + session_id_size + nonce_size + 4

-- "ZFED"
abbrev pub magic_header : List ℕ
magic_header = b'Z' ∷ b'F' ∷ b'E' ∷ b'D' ∷ []

-- The fixed-size arrays are lists, with their lengths in `HasSizes`.
pub record Envelope : Type 0 where
  pub version_ : ℕ
  pub msg_type : ℕ
  pub session_id : List ℕ
  pub nonce : List ℕ
  pub payload : List ℕ

pub record HasSizes (env : Envelope) : Type 0 where
  pub session_id_sized : length env.session_id ≡ session_id_size
  pub nonce_sized : length env.nonce ≡ nonce_size

-- The header is written into the front of `buf`; `buf` holds `header_size` bytes at least.
unfoldable pub serialize_header : List ℕ → ℕ → ℕ → List ℕ → List ℕ → ℕ → List ℕ
serialize_header buf ver msg_type session_id nonce payload_len =
    let with_magic = copy_at 0 buf magic_header in
    let with_version = set with_magic 4 ver in
    let with_type = set with_version 5 msg_type in
    let with_session = copy_at 6 with_type session_id in
    let with_nonce = copy_at 22 with_session nonce in copy_at 34 with_nonce (put_be 4 payload_len)
