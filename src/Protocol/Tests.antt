-- ===== src/Protocol/Tests.antt =====
-- The theorems of the wire format at concrete inputs, and runs of its functions.
use zero_feed.Base.{
  ℕ, ◌+◌, ◌^◌, ◌≤◌, ◌≡◌, refl, true, some, List, [], ◌∷◌, ◌++◌, length, replicate, length-replicate,
  get_be, IsByte, All, ok, err, eof, broken, unexpected_eof, read_full, short_read, Writer,
  bytes_equal, arith,
}
use zero_feed.Protocol.Messages.{Envelope, HasSizes, min_supported_version}
use zero_feed.Protocol.Frame.{
  pool_size, encode, decode_with_max, invalid_magic, too_large, read_failed,
}
use zero_feed.Protocol.Frame.Encoded.{header_bytes}
use zero_feed.Protocol.Frame.RoundTrip.{decode-encode, decode-encode-cut, cut}
use zero_feed.Protocol.Frame.Errors.{decode_with_max_sound}
use zero_feed.Protocol.Padding.{unpad_payload}

abbrev session : List ℕ
session = 1 ∷ 2 ∷ 3 ∷ 4 ∷ 5 ∷ 6 ∷ 7 ∷ 8 ∷ 9 ∷ 10 ∷ 11 ∷ 12 ∷ 13 ∷ 14 ∷ 15 ∷ 16 ∷ []

abbrev zero_nonce : List ℕ
zero_nonce = 0 ∷ 0 ∷ 0 ∷ 0 ∷ 0 ∷ 0 ∷ 0 ∷ 0 ∷ 0 ∷ 0 ∷ 0 ∷ 0 ∷ []

abbrev hello : Envelope
hello = record {
  version_ = 3;
  msg_type = 4;
  session_id = session;
  nonce = zero_nonce;
  payload = b'h' ∷ b'i' ∷ [];
}

abbrev wire : List ℕ
wire =
    b'Z'
    ∷ b'F'
    ∷ b'E'
    ∷ b'D'
    ∷ 3
    ∷ 4
    ∷ (session ++ (zero_nonce ++ (0 ∷ 0 ∷ 0 ∷ 2 ∷ b'h' ∷ b'i' ∷ [])))

abbrev connection : Writer
connection = record { writes = []; open_ = true }

-- A pooled buffer that an earlier frame has filled.
abbrev dirty : List ℕ
dirty = replicate pool_size 7

decode_wire :
    decode_with_max (record { bytes = wire ++ (9 ∷ []); final = eof }) 8192
    ≡ (ok hello, record { bytes = 9 ∷ []; final = eof })
unfolding decode_with_max read_full bytes_equal get_be
decode_wire = refl

decode_refusals :
    ((decode_with_max (record { bytes = wire; final = eof }) 1).0 ≡ err too_large)
    × ((decode_with_max (record { bytes = b'Z' ∷ []; final = eof }) 1).0
        ≡ err (read_failed unexpected_eof))
    × ((decode_with_max (record { bytes = 0 ∷ wire; final = eof }) 9).0 ≡ err invalid_magic)
unfolding decode_with_max read_full short_read bytes_equal get_be
decode_refusals = (refl, refl, refl)

hello-HasSizes : HasSizes hello
hello-HasSizes = omega arith

decode-encode_example :
    (frame : List ℕ) × (encode dirty connection hello
      ≡ (ok tt, record { writes = frame ∷ []; open_ = true }))
    × (decode_with_max (record { bytes = frame ++ (9 ∷ []); final = eof }) 8192
        ≡ (ok hello, record { bytes = 9 ∷ []; final = eof }))
decode-encode_example =
    decode-encode dirty connection hello 8192 (9 ∷ []) eof (length-replicate {A = ℕ} pool_size 7)
      refl hello-HasSizes (omega arith) (omega arith) (omega arith)

-- 4 GiB and two bytes.
four_gib_and_two : List ℕ
four_gib_and_two = replicate (2 ^ 32 + 2) 5

length-four_gib_and_two : length four_gib_and_two ≡ 2 ^ 32 + 2
unfolding four_gib_and_two
length-four_gib_and_two = length-replicate {A = ℕ} (2 ^ 32 + 2) 5

abbrev huge : Envelope
huge = record hello { payload = four_gib_and_two }

huge-HasSizes : HasSizes huge
huge-HasSizes = record { session_id_sized = refl; nonce_sized = refl }

decode-encode-cut_example :
    (frame : List ℕ) × (encode dirty connection huge
      ≡ (ok tt, record { writes = frame ∷ []; open_ = true }))
    × (decode_with_max (record { bytes = frame ++ []; final = broken }) 8192
        ≡ (ok (cut huge), record { bytes = []; final = broken }))
decode-encode-cut_example =
    decode-encode-cut dirty connection huge 8192 [] broken (length-replicate {A = ℕ} pool_size 7)
      refl huge-HasSizes (omega arith) (omega (arith, length-four_gib_and_two))
      (omega (arith, length-four_gib_and_two))

wire-All : All IsByte (wire ++ (9 ∷ []))
wire-All = omega arith

decode_with_max_sound_example :
    HasSizes hello
    × (min_supported_version ≤ 3)
    × (2 ≤ 8192)
    × (wire ++ (9 ∷ []) ≡ (header_bytes 3 4 session zero_nonce 2 ++ (b'h' ∷ b'i' ∷ [])) ++ (9 ∷ []))
decode_with_max_sound_example =
    decode_with_max_sound (record { bytes = wire ++ (9 ∷ []); final = eof }) 8192 wire-All
      decode_wire

unpad_runs : unpad_payload (0 ∷ 0 ∷ 0 ∷ 1 ∷ 5 ∷ 0 ∷ []) ≡ some (5 ∷ [])
unfolding unpad_payload get_be
unpad_runs = refl
