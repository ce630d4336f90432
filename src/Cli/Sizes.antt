-- ===== src/Cli/Sizes.antt =====
-- main.go: parseByteSize. strings.ToUpper and TrimSpace are parameters; `Sscanf` with %d is written
-- out: the digits at the start, and 0 for none or for a number above 64 bits.
pub mod Units
use zero_feed.Base.{
  ℕ, zero, suc, ◌+◌, ◌-◌, ◌*◌, ◌%◌, ◌^◌, ◌≤◌, ◌<◌, ◌≡◌, refl, sym, ap, ◌∙◌, inl, inr, Bool, true,
  false, ◌&&◌, ◌||◌, List, [], ◌∷◌, ◌++◌, length, take, drop, ltb, leb, leb→le, ◌==◌, if◌then◌else◌,
  Bool-cases, All, All-append, length-append, take-append, drop-append, bytes_equal,
  bytes_equal_refl, bytes_equal_sound, has_suffix, codes, arith,
}
use zero_feed.Feed.Invite.{Bytes, is_empty}
use zero_feed.Cli.Shell.{Shell}

unfoldable pub trim_suffix : Bytes → Bytes → Bytes
trim_suffix s suffix = if has_suffix s suffix then take (length s - length suffix) s else s

abbrev pub is_digit : ℕ → Bool
is_digit c = leb b'0' c && leb c b'9'

unfoldable pub take_digits : Bytes → Bytes
take_digits [] = []
take_digits (c ∷ s) = if is_digit c then c ∷ take_digits s else []

unfoldable pub value_from : ℕ → Bytes → ℕ
value_from acc [] = acc
value_from acc (c ∷ s) = value_from (acc * 10 + (c - b'0')) s

unfoldable pub scan_uint : Bytes → ℕ
unfolding take_digits value_from
scan_uint s =
    let digits = take_digits s in
    let value = value_from 0 digits in
    if is_empty digits then 0 else if ltb value (2 ^ 64) then value else 0

unfoldable pub scaled : Bytes → ℕ → ℕ
unfolding scan_uint
scaled s mult = scan_uint s * mult % 2 ^ 64

unfoldable pub trim_unit : Bytes → Bytes → Bytes → Bytes
unfolding trim_suffix
trim_unit s long short = trim_suffix (trim_suffix s long) short

unfoldable pub ends_in : Bytes → Bytes → Bytes → Bool
ends_in s short long = has_suffix s short || has_suffix s long

unfoldable pub size_of : Bytes → ℕ
unfolding scaled trim_unit ends_in
size_of s =
    if is_empty s || bytes_equal s (codes "0")
    then 0
    else if ends_in s (codes "G") (codes "GB")
    then scaled (trim_unit s (codes "GB") (codes "G")) (1024 * 1024 * 1024)
    else if ends_in s (codes "M") (codes "MB")
    then scaled (trim_unit s (codes "MB") (codes "M")) (1024 * 1024)
    else if ends_in s (codes "K") (codes "KB")
    then scaled (trim_unit s (codes "KB") (codes "K")) 1024
    else scaled s 1

unfoldable pub parse_byte_size : Shell → Bytes → ℕ
unfolding size_of
parse_byte_size shell s = size_of (shell.texts.trim_space (shell.to_upper s))
