-- ===== src/Relay/WebSocket/Frames.antt =====
-- What `Read` of pkg/relay/websocket.go gets from the frames that a peer writes.
use zero_feed.Base.{
  ℕ, zero, suc, ◌+◌, ◌*◌, ◌/◌, ◌%◌, ◌^◌, ◌≤◌, ◌<◌, ◌≡◌, refl, ap, ap₂, sym, ◌∙◌, true, false,
  Option, none, some, List, [], ◌∷◌, ◌++◌, length, get_or, All, IsByte, append_assoc, ◌≢◌, leb→le,
  Bool-cases, inl, inr, ltb, leb, ◌==◌, if◌then◌else◌, ok, IoError, read_full-append, put_be,
  get_be, get_be-put_be, length-put_be, arith,
}
use native.Mathlib.Nat.{pow-suc, zero-add}
use zero_feed.Relay.WebSocket.{
  xor_bits, unmask_from, bound, give, limited, read_bytes, read_number, read_byte, max_ws_payload,
  payload_length, mask_key, unmasked, frame_after, read_frame,
}

-- Masking twice gives the byte back.
xor_bits_twice : (bits a b : ℕ) → a < 2 ^ bits → xor_bits bits (xor_bits bits a b) b ≡ a
unfolding xor_bits
xor_bits_twice zero a b h = omega arith
xor_bits_twice (suc bits) a b h =
    let x = xor_bits bits (a / 2) (b / 2) in
    let d = (a % 2 + b % 2) % 2 in
    let half : (d + 2 * x) / 2 ≡ x = omega arith in
    let low : (d + 2 * x) % 2 ≡ d = omega arith in
    rw (half, low, xor_bits_twice bits (a / 2) (b / 2) (omega (arith, pow-suc 2 bits)))
      (omega arith)

unmask_from_twice :
    (i : ℕ) (key bs : List ℕ) → All IsByte bs → unmask_from i key (unmask_from i key bs) ≡ bs
unfolding unmask_from
unmask_from_twice i key [] h = refl
unmask_from_twice i key (b ∷ bs) h =
    ap₂ (λ x xs. x ∷ xs) (xor_bits_twice 8 b (get_or key (i % 4) 0) (omega (arith, h.0)))
      (unmask_from_twice (i + 1) key bs h.1)

length-unmask_from : (i : ℕ) (key bs : List ℕ) → length (unmask_from i key bs) ≡ length bs
unfolding unmask_from
length-unmask_from i key [] = refl
length-unmask_from i key (b ∷ bs) = ap suc (length-unmask_from (i + 1) key bs)

-- The length of a payload, by the number that RFC 6455 puts into the second byte, and the bytes after it.
abbrev short_length : ℕ → ℕ
short_length n = if leb n 125 then n else if leb n 65535 then 126 else 127

abbrev long_length : ℕ → List ℕ
long_length n = if leb n 125 then [] else if leb n 65535 then put_be 2 n else put_be 8 n

-- A frame of RFC 6455 whose payload has a mask, as a browser writes it, or none, as a server does.
abbrev pub wire : ℕ → Option (List ℕ) → List ℕ → List ℕ
wire opcode none payload =
    (128 + opcode) ∷ short_length (length payload) ∷ long_length (length payload) ++ payload
wire opcode (some key) payload =
    (128 + opcode) ∷ (128 + short_length (length payload)) ∷ long_length (length payload)
    ++ (key ++ unmask_from 0 key payload)

read_bytes_lem :
    (bs rest : List ℕ) (n : ℕ) (e : IoError)
    → length bs ≡ n
    → read_bytes n (record { bytes = bs ++ rest; final = e })
      ≡ (ok bs, record { bytes = rest; final = e })
unfolding read_bytes
read_bytes_lem bs rest n e h = rw (read_full-append n bs rest e h)

read_number_lem :
    (n v : ℕ) (rest : List ℕ) (e : IoError)
    → v < 256 ^ n
    → read_number n (record { bytes = put_be n v ++ rest; final = e })
      ≡ (ok v, record { bytes = rest; final = e })
unfolding read_number
read_number_lem n v rest e h =
    rw (read_bytes_lem (put_be n v) rest n e (length-put_be n v), get_be-put_be n v h)

read_byte_lem :
    (b : ℕ) (rest : List ℕ) (e : IoError)
    → read_byte (record { bytes = b ∷ rest; final = e })
      ≡ (ok b, record { bytes = rest; final = e })
unfolding read_byte read_number get_be
read_byte_lem b rest e =
    ap (λ q. bound q (λ bs. give (get_be bs))) (read_bytes_lem (b ∷ []) rest 1 e refl)
    ∙ ap (λ k. (ok k, record { bytes = rest; final = e })) (zero-add b)

payload_length_lem :
    (n : ℕ) (rest : List ℕ) (e : IoError)
    → n ≤ max_ws_payload
    → payload_length (short_length n) (record { bytes = long_length n ++ rest; final = e })
      ≡ (ok n, record { bytes = rest; final = e })
unfolding payload_length limited
payload_length_lem n rest e h = elim (Bool-cases (leb n 125)) [
  | inl short ↦
      let not126 : (n == 126) ≡ false = ground (arith, leb→le n 125 short) in
      let not127 : (n == 127) ≡ false = ground (arith, leb→le n 125 short) in
      rw (short, not126, not127)
  | inr long ↦ elim (Bool-cases (leb n 65535)) [
    | inl middle ↦
        rw (long, middle) (read_number_lem 2 n rest e (omega (arith, leb→le n 65535 middle)))
    | inr big ↦
        let fits : ltb max_ws_payload n ≡ false = ground (arith, h) in
        rw (long, big, read_number_lem 8 n rest e (omega (arith, h)), fits)
  ]
]

-- The first byte of a frame, and whether the second tells of a mask.
abbrev mask_bytes : Option (List ℕ) → List ℕ
mask_bytes none = []
mask_bytes (some key) = key

-- A mask has four bytes.
abbrev pub IsMask : Option (List ℕ) → Type 0
IsMask none = Unit
IsMask (some key) = length key ≡ 4

short_bound : (n : ℕ) → short_length n < 128
short_bound n = ground arith

plain_lem :
    (header short n : ℕ) (long payload rest : List ℕ) (e : IoError)
    → short < 128
    → payload_length short (record { bytes = long ++ (payload ++ rest); final = e })
      ≡ (ok n, record { bytes = payload ++ rest; final = e })
    → length payload ≡ n
    → frame_after header (record { bytes = short ∷ (long ++ (payload ++ rest)); final = e }) ≡ (
      ok (record { opcode = header % 16; payload = payload }),
      record { bytes = rest; final = e },
    )
unfolding frame_after mask_key unmasked
plain_lem header short n long payload rest e h hn hp =
    let low : short % 128 ≡ short = omega arith in
    let bare : leb 128 short ≡ false = ground arith in
    rw (
      read_byte_lem short (long ++ (payload ++ rest)) e,
      low,
      hn,
      bare,
      read_bytes_lem payload rest n e hp,
    )

masked_lem :
    (header short n : ℕ) (long key payload rest : List ℕ) (e : IoError)
    → short < 128
    → payload_length short (record { bytes = long ++ (key ++ (payload ++ rest)); final = e })
      ≡ (ok n, record { bytes = key ++ (payload ++ rest); final = e })
    → length key ≡ 4
    → length payload ≡ n
    → frame_after header
        (record { bytes = (128 + short) ∷ (long ++ (key ++ (payload ++ rest))); final = e })
      ≡ (
        ok (record { opcode = header % 16; payload = unmask_from 0 key payload }),
        record { bytes = rest; final = e },
      )
unfolding frame_after mask_key unmasked
masked_lem header short n long key payload rest e h hn hk hp =
    let low : (128 + short) % 128 ≡ short = omega arith in
    let masked : leb 128 (128 + short) ≡ true = ground arith in
    rw (
      read_byte_lem (128 + short) (long ++ (key ++ (payload ++ rest))) e,
      low,
      hn,
      masked,
      read_bytes_lem key (payload ++ rest) 4 e hk,
      read_bytes_lem payload rest n e hp,
    )

header_lem :
    (header : ℕ) (rest : List ℕ) (e : IoError)
    → header % 16 ≢ 8
    → read_frame (record { bytes = header ∷ rest; final = e })
      ≡ frame_after header (record { bytes = rest; final = e })
unfolding read_frame
header_lem header rest e ne =
    let open_ : (header % 16 == 8) ≡ false = ground arith in rw (read_byte_lem header rest e, open_)

pub read_frame_lem :
    (opcode : ℕ) (mask : Option (List ℕ)) (payload rest : List ℕ) (e : IoError)
    → opcode < 16
    → opcode ≢ 8
    → IsMask mask
    → All IsByte payload
    → length payload ≤ max_ws_payload
    → read_frame (record { bytes = wire opcode mask payload ++ rest; final = e })
      ≡ (ok (record { opcode = opcode; payload = payload }), record { bytes = rest; final = e })
unfolding read_frame frame_after mask_key unmasked
read_frame_lem opcode none payload rest e h ne hm hb hl =
    let n = length payload in
    let op : (128 + opcode) % 16 ≡ opcode = omega arith in
    ap (λ l. read_frame (record { bytes = (128 + opcode) ∷ short_length n ∷ l; final = e }))
      (append_assoc (long_length n) payload rest)
    ∙ header_lem (128 + opcode) (short_length n ∷ (long_length n ++ (payload ++ rest))) e
        (λ k. ne (sym op ∙ k))
    ∙ plain_lem (128 + opcode) (short_length n) n (long_length n) payload rest e (short_bound n)
        (payload_length_lem n (payload ++ rest) e hl) refl
    ∙ ap (λ k. (ok (record { opcode = k; payload = payload }), record { bytes = rest; final = e }))
        op
read_frame_lem opcode (some key) payload rest e h ne hm hb hl =
    let n = length payload in
    let hidden = unmask_from 0 key payload in
    let op : (128 + opcode) % 16 ≡ opcode = omega arith in
    ap (λ l. read_frame (record { bytes = (128 + opcode) ∷ (128 + short_length n) ∷ l; final = e }))
      (append_assoc (long_length n) (key ++ hidden) rest
        ∙ ap (λ l. long_length n ++ l) (append_assoc key hidden rest))
    ∙ header_lem (128 + opcode)
        ((128 + short_length n) ∷ (long_length n ++ (key ++ (hidden ++ rest)))) e
        (λ k. ne (sym op ∙ k))
    ∙ masked_lem (128 + opcode) (short_length n) n (long_length n) key hidden rest e (short_bound n)
        (payload_length_lem n (key ++ (hidden ++ rest)) e hl) hm (length-unmask_from 0 key payload)
    ∙ ap₂ (λ k bs. (ok (record { opcode = k; payload = bs }), record { bytes = rest; final = e }))
        op (unmask_from_twice 0 key payload hb)
