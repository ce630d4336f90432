-- ===== src/Protocol/Padding/Laws.antt =====
-- What padding writes, and that unpadding undoes it.
use zero_feed.Base.{
  ℕ, ◌+◌, ◌-◌, ◌%◌, ◌^◌, ◌≤◌, ◌<◌, max, ◌≡◌, refl, ap, ◌∙◌, some, List, [], ◌∷◌, ◌++◌, length, take,
  drop, replicate, length-append, length-take, length-drop, length-replicate, drop-replicate,
  take-append, drop-append, take-append-drop, copy_at, copy_at-append, ltb, if◌then◌else◌, All,
  IsByte, All-take, put_be, get_be, get_be-put_be, length-put_be, put_be-get_be, arith,
}
use zero_feed.Protocol.Padding.{padded_size, pad_payload, unpad_payload}

-- The payload is copied behind the prefix, if there is any.
copied :
    (bytes prefix after : List ℕ)
    → length prefix ≡ 4
    → length bytes ≤ length after
    → (if ltb 0 (length bytes) then copy_at 4 (prefix ++ after) bytes else (prefix ++ after))
      ≡ prefix ++ (bytes ++ drop (length bytes) after)
copied [] prefix after e h = refl
copied (b ∷ bytes) prefix after e h = ground (arith, copy_at-append 4 prefix after (b ∷ bytes) e h)

-- The prefix, the payload, and zeros up to the target.
pub pad_payload_lem :
    (bytes : List ℕ) (target_size : ℕ)
    → pad_payload bytes target_size
      ≡ put_be 4 (length bytes % 2 ^ 32)
        ++ (bytes ++ replicate (target_size - (length bytes + 4)) 0)
unfolding pad_payload
pad_payload_lem bytes target_size =
    let prefix = put_be 4 (length bytes % 2 ^ 32) in
    let size = padded_size (length bytes) target_size in
    let zeros : List ℕ = replicate size 0 in
    let after : List ℕ = replicate (size - 4) 0 in
    let enough : (size ≡ max target_size (length bytes + 4)) × (length bytes + 4 ≤ size) =
      ground arith in
    let four : length prefix ≡ 4 = length-put_be 4 (length bytes % 2 ^ 32) in
    let headed : copy_at 0 zeros prefix ≡ prefix ++ after =
      copy_at-append 0 [] zeros prefix refl (omega (arith, enough, length-replicate {A = ℕ} size 0))
      ∙ ap (λ k. prefix ++ drop k zeros) four
      ∙ ap (λ l. prefix ++ l) (drop-replicate 4 size 0) in
    let room : size - 4 - length bytes ≡ target_size - (length bytes + 4) = omega arith in
    ap (λ out. if ltb 0 (length bytes) then copy_at 4 out bytes else out) headed
    ∙ copied bytes prefix after four (omega (arith, length-replicate {A = ℕ} (size - 4) 0))
    ∙ ap (λ l. prefix ++ (bytes ++ l)) (drop-replicate (length bytes) (size - 4) 0)
    ∙ ap (λ k. prefix ++ (bytes ++ replicate k 0)) room

-- A padded payload has the target's size, or just room for the prefix if it is larger.
pub length-pad_payload :
    (bytes : List ℕ) (target_size : ℕ)
    → length (pad_payload bytes target_size) ≡ max target_size (length bytes + 4)
length-pad_payload bytes target_size =
    let prefix = put_be 4 (length bytes % 2 ^ 32) in
    let zeros : List ℕ = replicate (target_size - (length bytes + 4)) 0 in
    rw pad_payload_lem (
      omega (
        arith,
        length-append prefix (bytes ++ zeros),
        length-append bytes zeros,
        length-put_be 4 (length bytes % 2 ^ 32),
        length-replicate {A = ℕ} (target_size - (length bytes + 4)) 0,
      ))

-- UnpadPayload gives back what PadPayload padded, for every target size, if the payload is shorter
-- than 2 ^ 32 bytes.
pub unpad_payload-pad_payload :
    (bytes : List ℕ) (target_size : ℕ)
    → length bytes < 2 ^ 32
    → unpad_payload (pad_payload bytes target_size) ≡ some bytes
unfolding unpad_payload
unpad_payload-pad_payload bytes target_size h =
    let n : length bytes % 2 ^ 32 ≡ length bytes = omega arith in
    let prefix = put_be 4 (length bytes) in
    let zeros : List ℕ = replicate (target_size - (length bytes + 4)) 0 in
    let padded : pad_payload bytes target_size ≡ prefix ++ (bytes ++ zeros) =
      pad_payload_lem bytes target_size ∙ ap (λ k. put_be 4 k ++ (bytes ++ zeros)) n in
    let four : length prefix ≡ 4 = length-put_be 4 (length bytes) in
    rw
      (
        padded,
        take-append 4 prefix (bytes ++ zeros) four,
        drop-append 4 prefix (bytes ++ zeros) four,
        get_be-put_be 4 (length bytes) h,
        take-append (length bytes) bytes zeros refl,
      )
      (ground (arith, length-append prefix (bytes ++ zeros), length-append bytes zeros, four))

-- If UnpadPayload accepts a buffer of bytes, the buffer is the 4-byte length of the payload that
-- it gives, that payload, and some rest.
pub unpad_payload_sound :
    (padded : List ℕ) {bytes : List ℕ}
    → All IsByte padded
    → unpad_payload padded ≡ some bytes
    → (rest : List ℕ) × (padded ≡ put_be 4 (length bytes) ++ (bytes ++ rest))
unfolding unpad_payload
unpad_payload_sound padded {bytes} hb h = (
  drop (length bytes) (drop 4 padded),
  ground (
    arith,
    λ (e : length (take 4 padded) ≡ 4).
        put_be-get_be 4 (take 4 padded) e (All-take IsByte 4 padded hb),
    length-take 4 padded,
    take-append-drop 4 padded,
    take-append-drop (length bytes) (drop 4 padded),
    length-take (get_be (take 4 padded)) (drop 4 padded),
    length-drop 4 padded,
  ),
)
