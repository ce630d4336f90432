-- ===== src/Feed/Sanitize.antt =====
-- The terminal filter of pkg/feed/subscriber.go: the regular expression of `getAnsiRe`, read as the standard
-- library reads it, at each rune from left to right and by its alternatives in their order, and
-- `sanitizeTextOutput`.
pub mod Removal
pub mod Sequences
mod Tests
use zero_feed.Base.{
  ℕ, zero, suc, ◌+◌, ◌-◌, Bool, true, false, not, ◌&&◌, ◌||◌, List, [], ◌∷◌, ltb, leb, ◌==◌,
  if◌then◌else◌,
}

abbrev pub esc : ℕ
esc = 0x1B

abbrev pub bel : ℕ
bel = 0x07

abbrev pub within : ℕ → ℕ → ℕ → Bool
within lo hi b = leb lo b && leb b hi

-- `utf8.DecodeRune`: what may follow the first byte of a rune of more than one byte.
unfoldable pub is_tail : ℕ → Bool
is_tail b = within 0x80 0xBF b

unfoldable pub second_of : ℕ → ℕ → Bool
unfolding is_tail
second_of first b =
    is_tail b
    && (if first == 0xE0
        then leb 0xA0 b
        else if first == 0xED
        then leb b 0x9F
        else if first == 0xF0
        then leb 0x90 b
        else not (first == 0xF4) || leb b 0x8F)

unfoldable pub tail_count : ℕ → ℕ
tail_count first =
    if within 0xC2 0xDF first
    then 1
    else if within 0xE0 0xEF first
    then 2
    else if within 0xF0 0xF4 first
    then 3
    else 0

unfoldable pub begins_with_tails : ℕ → List ℕ → Bool
unfolding is_tail
begins_with_tails zero bytes = true
begins_with_tails (suc n) [] = false
begins_with_tails (suc n) (b ∷ bytes) = is_tail b && begins_with_tails n bytes

-- The bytes of a rune after its first; an encoding that is not valid is read as a rune of one byte.
unfoldable pub tail_size : ℕ → List ℕ → ℕ
unfolding second_of tail_count begins_with_tails
tail_size first [] = 0
tail_size first (b ∷ bytes) =
    if second_of first b && begins_with_tails (tail_count first - 1) bytes
    then tail_count first
    else 0

-- The size of a match that goes on, where 0 stands for no match.
abbrev pub matched : ℕ → ℕ → ℕ
matched n size = if size == 0 then 0 else n + size

-- `[0-9;]*[A-Za-z]`
unfoldable pub csi_end : List ℕ → ℕ
csi_end [] = 0
csi_end (b ∷ bytes) =
    let rest = csi_end bytes in
    if within b'A' b'Z' b || within b'a' b'z' b
    then 1
    else if within b'0' b'9' b || b == b';'
    then matched 1 rest
    else 0

-- `[^\x07\x1b]*(?:\x07|\x1b\\)`
unfoldable pub osc_end : List ℕ → ℕ
osc_end [] = 0
osc_end (b ∷ []) = if b == bel then 1 else 0
osc_end (b ∷ c ∷ bytes) =
    let rest = osc_end (c ∷ bytes) in
    if b == bel then 1 else if b == esc then if c == 0x5C then 2 else 0 else matched 1 rest

-- `[\x00-\x08\x0B\x0C\x0E-\x1F\x7F]`
unfoldable pub is_control : ℕ → Bool
is_control b = leb b 0x08 || within 0x0B 0x0C b || within 0x0E 0x1F b || b == 0x7F

-- The alternatives after an escape: `\[` with its end, `]` with its end, and `[^\x1b]`.
unfoldable pub after_escape : List ℕ → ℕ
unfolding csi_end osc_end tail_size
after_escape [] = 0
after_escape (b ∷ bytes) =
    let csi = if b == b'[' then matched 1 (csi_end bytes) else 0 in
    let osc = if b == b']' then matched 1 (osc_end bytes) else 0 in
    if not (csi == 0)
    then csi
    else if not (osc == 0)
    then osc
    else if b == esc
    then 0
    else suc (tail_size b bytes)

-- The size of the match at the start, which is 0 where the expression does not match.
unfoldable pub match_size : ℕ → List ℕ → ℕ
unfolding after_escape is_control
match_size b bytes = if is_control b then suc (if b == esc then after_escape bytes else 0) else 0

-- `ReplaceAll` with nothing. The first argument tells whether the next bytes, as many as the second, are kept:
-- they are the rest of a rune that is copied, or of a match.
unfoldable pub replace_all : Bool → ℕ → List ℕ → List ℕ
unfolding match_size tail_size
replace_all keep n [] = []
replace_all keep (suc n) (b ∷ bytes) =
    let rest = replace_all keep n bytes in if keep then b ∷ rest else rest
replace_all keep zero (b ∷ bytes) =
    let size = match_size b bytes in
    let rest = replace_all (size == 0) (if size == 0 then tail_size b bytes else size - 1) bytes in
    if size == 0 then b ∷ rest else rest

unfoldable pub sanitize_text_output : List ℕ → List ℕ
unfolding replace_all
sanitize_text_output bytes = replace_all true 0 bytes
