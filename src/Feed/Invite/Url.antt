-- ===== src/Feed/Invite/Url.antt =====
-- What pkg/feed/invite.go uses of Go's net/url and strings: query escaping, the query of a URL, and
-- the search for a text.
use zero_feed.Base.{
  ℕ, ◌+◌, ◌-◌, ◌*◌, ◌/◌, ◌%◌, Bool, true, false, ◌&&◌, ◌||◌, Option, none, some, List, [], ◌∷◌,
  ◌++◌, ltb, leb, ◌==◌, if◌then◌else◌, length, drop, has_prefix, bytes_equal,
}

unfoldable pub is_unreserved : ℕ → Bool
is_unreserved c =
    (leb b'a' c && leb c b'z')
    || (leb b'A' c && leb c b'Z')
    || (leb b'0' c && leb c b'9')
    || c == b'-'
    || c == b'_'
    || c == b'.'
    || c == b'~'

unfoldable pub hex_digit : ℕ → ℕ
hex_digit n = if ltb n 10 then 48 + n else 55 + n

unfoldable pub escape_byte : ℕ → List ℕ
unfolding is_unreserved hex_digit
escape_byte c =
    if c == b' '
    then b'+' ∷ []
    else if is_unreserved c
    then c ∷ []
    else b'%' ∷ hex_digit (c / 16) ∷ hex_digit (c % 16) ∷ []

unfoldable pub query_escape : List ℕ → List ℕ
unfolding escape_byte
query_escape [] = []
query_escape (c ∷ s) = escape_byte c ++ query_escape s

unfoldable pub unhex : ℕ → Option ℕ
unhex c =
    if leb b'0' c && leb c b'9'
    then some (c - 48)
    else if leb b'a' c && leb c b'f'
    then some (c - 87)
    else if leb b'A' c && leb c b'F'
    then some (c - 55)
    else none

abbrev pub prepend : ℕ → Option (List ℕ) → Option (List ℕ)
prepend c none = none
prepend c (some s) = some (c ∷ s)

abbrev pub with_hex : Option ℕ → Option ℕ → Option (List ℕ) → Option (List ℕ)
with_hex none l rest = none
with_hex (some h) none rest = none
with_hex (some h) (some l) rest = prepend (h * 16 + l) rest

abbrev pub unplus : ℕ → ℕ
unplus c = if c == b'+' then b' ' else c

unfoldable pub query_unescape : List ℕ → Option (List ℕ)
unfolding unhex
query_unescape [] = some []
query_unescape (c ∷ []) = if c == b'%' then none else some (unplus c ∷ [])
query_unescape (c ∷ d ∷ []) =
    let rest = query_unescape (d ∷ []) in if c == b'%' then none else prepend (unplus c) rest
query_unescape (c ∷ d ∷ e ∷ s) =
    let escaped = with_hex (unhex d) (unhex e) (query_unescape s) in
    let plain = prepend (unplus c) (query_unescape (d ∷ e ∷ s)) in
    if c == b'%' then escaped else plain

-- `strings.Cut` at a byte.
abbrev pub before : ℕ → (List ℕ × List ℕ) → List ℕ × List ℕ
before c (front, back) = (c ∷ front, back)

unfoldable pub cut_byte : ℕ → List ℕ → List ℕ × List ℕ
cut_byte b [] = ([], [])
cut_byte b (c ∷ s) = let rest = cut_byte b s in if c == b then ([], s) else before c rest

-- `strings.Cut` at a text that is not empty: `none` if it does not occur.
abbrev pub before_text : ℕ → Option (List ℕ × List ℕ) → Option (List ℕ × List ℕ)
before_text c none = none
before_text c (some (front, back)) = some (c ∷ front, back)

unfoldable pub cut_text : List ℕ → List ℕ → Option (List ℕ × List ℕ)
cut_text text [] = none
cut_text text (c ∷ s) =
    let rest = before_text c (cut_text text s) in
    if has_prefix (c ∷ s) text then some ([], drop (length text) (c ∷ s)) else rest

unfoldable pub contains_text : List ℕ → List ℕ → Bool
unfolding cut_text
contains_text text s = elim (cut_text text s) [ none ↦ false | some p ↦ true ]

unfoldable pub contains_byte : ℕ → List ℕ → Bool
contains_byte b [] = false
contains_byte b (c ∷ s) = c == b || contains_byte b s

unfoldable pub has_control : List ℕ → Bool
has_control [] = false
has_control (c ∷ s) = ltb c 32 || c == 127 || has_control s

-- `strings.Split` at a byte.
abbrev pub push_first : ℕ → List (List ℕ) → List (List ℕ)
push_first c [] = (c ∷ []) ∷ []
push_first c (p ∷ ps) = (c ∷ p) ∷ ps

unfoldable pub split_byte : ℕ → List ℕ → List (List ℕ)
split_byte b [] = [] ∷ []
split_byte b (c ∷ s) = let rest = split_byte b s in if c == b then [] ∷ rest else push_first c rest

-- `url.Parse` of a text with the scheme at its start, and the query of the URL. `accepts` says
-- whether what stands before the query, and the fragment, are valid.
unfoldable pub parse_url : (List ℕ → List ℕ → Bool) → List ℕ → List ℕ → Option (List ℕ)
unfolding cut_byte has_control
parse_url accepts scheme raw =
    let url = (cut_byte b'#' raw).0 in
    let fragment = (cut_byte b'#' raw).1 in
    let parts = cut_byte b'?' (drop (length scheme) url) in
    if has_control url then none else if accepts parts.0 fragment then some parts.1 else none

-- An entry of `ParseQuery`, which skips what it cannot read.
abbrev pub entry_of : Option (List ℕ) → Option (List ℕ) → List (List ℕ × List ℕ)
entry_of none v = []
entry_of (some k) none = []
entry_of (some k) (some v) = (k, v) ∷ []

abbrev pub is_nil : List ℕ → Bool
is_nil [] = true
is_nil (c ∷ s) = false

unfoldable pub parse_part : List ℕ → List (List ℕ × List ℕ)
unfolding contains_byte cut_byte query_unescape
parse_part part =
    let parts = cut_byte b'=' part in
    if is_nil part || contains_byte b';' part
    then []
    else entry_of (query_unescape parts.0) (query_unescape parts.1)

unfoldable pub parse_parts : List (List ℕ) → List (List ℕ × List ℕ)
unfolding parse_part
parse_parts [] = []
parse_parts (p ∷ ps) = parse_part p ++ parse_parts ps

unfoldable pub parse_query : List ℕ → List (List ℕ × List ℕ)
unfolding split_byte parse_parts
parse_query query = parse_parts (split_byte b'&' query)

-- `Values.Get`: the first value.
unfoldable pub get : List ℕ → List (List ℕ × List ℕ) → List ℕ
get key [] = []
get key ((k, v) ∷ entries) = if bytes_equal k key then v else get key entries
