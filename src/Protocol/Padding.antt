-- ===== src/Protocol/Padding.antt =====
-- The padding of pkg/protocol/envelope.go: a length prefix of 4 bytes, then zeros up to a target.
pub mod Laws
use zero_feed.Base.{
  ℕ, ◌+◌, ◌%◌, ◌^◌, Option, none, some, List, length, take, drop, replicate, copy_at, ltb,
  if◌then◌else◌, put_be, get_be,
}

abbrev pub default_padding_target_size : ℕ
default_padding_target_size = 1280

abbrev pub len_prefix_size : ℕ
len_prefix_size = 4

-- The buffer's size: the target, or what the payload needs.
abbrev pub padded_size : ℕ → ℕ → ℕ
padded_size real_len target_size =
    let needed = real_len + len_prefix_size in
    if ltb target_size needed then needed else target_size

-- `uint32(realLen)` keeps the length modulo 2 ^ 32.
unfoldable pub pad_payload : List ℕ → ℕ → List ℕ
pad_payload bytes target_size =
    let real_len = length bytes in
    let zeros = replicate (padded_size real_len target_size) 0 in
    let out = copy_at 0 zeros (put_be 4 (real_len % 2 ^ 32)) in
    if ltb 0 real_len then copy_at len_prefix_size out bytes else out

-- `none` is ErrInvalidPadding.
unfoldable pub unpad_payload : List ℕ → Option (List ℕ)
unpad_payload bytes =
    let real_len = get_be (take 4 bytes) in
    if ltb (length bytes) len_prefix_size
    then none
    else if ltb (length bytes) (real_len + len_prefix_size)
    then none
    else some (take real_len (drop len_prefix_size bytes))
