-- ===== src/Feed/Invite.antt =====
-- pkg/feed/invite.go: the texts of an invite. Texts are lists of bytes; net/url is in the child Url,
-- and what it accepts between the scheme and the query is a parameter.
pub mod Url
pub mod Escapes
pub mod Query
pub mod Whole
mod Tests
use zero_feed.Base.{
  ℕ, Bool, true, false, Option, none, some, List, [], ◌∷◌, ◌++◌, if◌then◌else◌, length, ◌==◌, take,
  has_prefix, codes, Strings, Result, ok, err, ◌>>=◌, drop,
}
use Url.{query_escape, query_unescape, cut_text, contains_text, parse_url, parse_query, get}

abbrev pub Bytes : Type 0
Bytes = List ℕ

abbrev pub default_landing_url : Bytes
default_landing_url = codes "https://nicolainzerillo.github.io/ZeroFeed-Landing/"

pub record Invite : Type 0 where
  pub channel_code : Bytes
  pub relay_addr : Bytes
  pub transport_mode : Bytes
  pub spki_fingerprint : Bytes

pub data InviteError : Type 0 where
  empty_invite invalid_uri missing_code : InviteError

abbrev pub is_empty : Bytes → Bool
is_empty [] = true
is_empty (c ∷ s) = false

unfoldable pub generate_invite : Bytes → Bytes → Invite
generate_invite channel_code relay_addr = record {
  channel_code = channel_code;
  relay_addr = relay_addr;
  transport_mode = [];
  spki_fingerprint = [];
}

abbrev pub link_mark : Bytes
link_mark = codes "#join="

abbrev pub scheme_prefix : Bytes
scheme_prefix = codes "zerofeed://"

abbrev pub or_text : Option Bytes → Bytes → Bytes
or_text none s = s
or_text (some t) s = t

-- The parts around the mark: with more than two of them the text stays as it is.
pub linked : Option (Bytes × Bytes) → Bytes → Bytes
linked none raw = raw
linked (some (front, back)) raw =
    if contains_text link_mark back then raw else or_text (query_unescape back) back

pub unwrap_link : Bytes → Bytes
unfolding linked
unwrap_link raw = linked (cut_text link_mark raw) raw

pub invite_of_query : List (Bytes × Bytes) → Result InviteError Invite
invite_of_query q =
    if is_empty (get (codes "code") q)
    then err missing_code
    else ok (record {
      channel_code = get (codes "code") q;
      relay_addr = get (codes "relay") q;
      transport_mode = get (codes "transport") q;
      spki_fingerprint = get (codes "fingerprint") q;
    })

abbrev pub or_invalid : Option Bytes → Result InviteError Bytes
or_invalid none = err invalid_uri
or_invalid (some query) = ok query

pub parse_uri : (Bytes → Bytes → Bool) → Bytes → Result InviteError Invite
unfolding invite_of_query
parse_uri accepts raw = do
  query ← or_invalid (parse_url accepts scheme_prefix raw)
  invite_of_query (parse_query query)

pub parse_text : (Bytes → Bytes → Bool) → Bytes → Result InviteError Invite
unfolding parse_uri
parse_text accepts raw =
    if has_prefix raw scheme_prefix then parse_uri accepts raw else ok (generate_invite raw [])

parse_trimmed : (Bytes → Bytes → Bool) → Bytes → Result InviteError Invite
parse_trimmed accepts raw =
    if is_empty raw then err empty_invite else parse_text accepts (unwrap_link raw)

unfoldable pub parse_invite : Strings → (Bytes → Bytes → Bool) → Bytes → Result InviteError Invite
unfolding parse_trimmed
parse_invite texts accepts raw = parse_trimmed accepts (texts.trim_space raw)

-- A parameter of a query, if its value is not empty.
pub optional : Bytes → Bytes → Bytes → List Bytes
optional key value written = if is_empty value then [] else (key ++ written) ∷ []

pub params : Invite → List Bytes
unfolding optional
params i =
    optional (codes "code=") i.channel_code (query_escape i.channel_code)
    ++ (optional (codes "relay=") i.relay_addr i.relay_addr
        ++ (optional (codes "transport=") i.transport_mode (query_escape i.transport_mode)
            ++ optional (codes "fingerprint=") i.spki_fingerprint
                (query_escape i.spki_fingerprint)))

-- `strings.Join(params, "&")`
unfoldable pub join_params : List Bytes → Bytes
join_params [] = []
join_params (p ∷ []) = p
join_params (p ∷ (q ∷ ps)) = p ++ (b'&' ∷ join_params (q ∷ ps))

unfoldable pub to_uri : Invite → Bytes
unfolding params join_params
to_uri i = codes "zerofeed://join?" ++ join_params (params i)

unfoldable pub to_web_url : Invite → Bytes
to_web_url i = default_landing_url ++ (codes "#join=" ++ query_escape (to_uri i))
