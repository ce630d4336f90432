-- ===== src/Feed/Invite/Whole.antt =====
-- The texts of an invite read back: ToURI and ToWebURL against ParseInvite of pkg/feed/invite.go.
use zero_feed.Base.{
  ◌≡◌, refl, sym, ap, ◌∙◌, Bool, true, false, some, [], ◌∷◌, ◌++◌, append-nil, All, All-append,
  IsByte, has_prefix, bytes_equal, codes, Strings, ok,
}
use zero_feed.Feed.Invite.{
  Bytes, Invite, is_empty, optional, params, join_params, to_uri, to_web_url, link_mark,
  scheme_prefix, default_landing_url, linked, unwrap_link, parse_uri, parse_text, parse_invite,
}
use zero_feed.Feed.Invite.Url.{
  query_escape, cut_byte, cut_text, split_byte, parse_url, parse_parts, parse_query,
}
use zero_feed.Feed.Invite.Escapes.{
  IsQueryByte, IsPlainByte, is_uri_byte, IsUriByte, Avoids, query_byte-Avoids, query_escape-All,
  query_unescape-query_escape, query_unescape-IsPlain, cut_byte-absent, has_control-absent,
  cut_text-absent,
}
use zero_feed.Feed.Invite.Query.{
  is_graphic, IsGraphic, plain-query, query-IsGraphic, IsKey, all, all_sound, entries, optional_lem,
  optional-Avoids, entries_of, invite_of_query-entries, code-IsKey, relay-IsKey, transport-IsKey,
  fingerprint-IsKey, split-params, contains_text-absent, linked-some, uri-IsGraphic, uri-bytes,
  uri_byte-Avoids, optional-uri, join-All,
}

-- An invite with a code, whose relay address needs no escape.
pub record IsWritable (i : Invite) : Type 0 where
  pub coded : is_empty i.channel_code ≡ false
  pub code_bytes : All IsByte i.channel_code
  pub relay_plain : All IsPlainByte i.relay_addr
  pub transport_bytes : All IsByte i.transport_mode
  pub fingerprint_bytes : All IsByte i.spki_fingerprint

module _ (i : Invite) (w : IsWritable i) where
  code_query : All IsQueryByte (query_escape i.channel_code)
  code_query = query_escape-All i.channel_code w.code_bytes

  relay_query : All IsQueryByte i.relay_addr
  relay_query = plain-query i.relay_addr w.relay_plain

  transport_query : All IsQueryByte (query_escape i.transport_mode)
  transport_query = query_escape-All i.transport_mode w.transport_bytes

  fingerprint_query : All IsQueryByte (query_escape i.spki_fingerprint)
  fingerprint_query = query_escape-All i.spki_fingerprint w.fingerprint_bytes

  params-All :
      (P : Bytes → Type 0)
      → ((key value raw : Bytes)
          → IsKey key
          → All IsQueryByte raw
          → All P (optional (key ++ (b'=' ∷ [])) value raw))
      → All P (params i)
  unfolding params
  params-All P h = All-append P _ _ (h (codes "code") i.channel_code _ code-IsKey code_query) (
      All-append P _ _ (h (codes "relay") i.relay_addr _ relay-IsKey relay_query) (
        All-append P _ _ (h (codes "transport") i.transport_mode _ transport-IsKey transport_query)
          (h (codes "fingerprint") i.spki_fingerprint _ fingerprint-IsKey fingerprint_query)))

  parse_parts-params : parse_parts (params i) ≡ entries_of i
  unfolding params
  parse_parts-params =
      let transport =
        optional (codes "transport=") i.transport_mode (query_escape i.transport_mode) in
      let fingerprint =
        optional (codes "fingerprint=") i.spki_fingerprint (query_escape i.spki_fingerprint) in
      let relay = optional (codes "relay=") i.relay_addr i.relay_addr in
      optional_lem (codes "code") i.channel_code _ code-IsKey code_query
        (query_unescape-query_escape i.channel_code w.code_bytes)
        (relay ++ (transport ++ fingerprint))
      ∙ ap (λ l. entries (codes "code") i.channel_code ++ l)
          (optional_lem (codes "relay") i.relay_addr _ relay-IsKey relay_query
              (query_unescape-IsPlain i.relay_addr w.relay_plain) (transport ++ fingerprint)
            ∙ ap (λ l. entries (codes "relay") i.relay_addr ++ l)
                (optional_lem (codes "transport") i.transport_mode _ transport-IsKey transport_query
                    (query_unescape-query_escape i.transport_mode w.transport_bytes) fingerprint
                  ∙ ap (λ l. entries (codes "transport") i.transport_mode ++ l)
                      (ap parse_parts (sym (append-nil fingerprint))
                        ∙ optional_lem (codes "fingerprint") i.spki_fingerprint _ fingerprint-IsKey
                            fingerprint_query
                            (query_unescape-query_escape i.spki_fingerprint w.fingerprint_bytes) []
                        ∙ ap (λ l. entries (codes "fingerprint") i.spki_fingerprint ++ l)
                            (unfold parse_parts in refl))))

  split-params_of : split_byte b'&' (join_params (params i)) ≡ params i
  unfolding params
  split-params_of =
      split-params (codes "code=") i.channel_code (query_escape i.channel_code) _ w.coded
        (params-All (Avoids b'&') optional-Avoids)

  parse_query-params : parse_query (join_params (params i)) ≡ entries_of i
  unfolding parse_query
  parse_query-params = ap parse_parts split-params_of ∙ parse_parts-params

  uri-All : All IsUriByte (to_uri i)
  unfolding to_uri all
  uri-All =
      All-append IsUriByte (codes "zerofeed://join?") (join_params (params i))
        (all_sound is_uri_byte (codes "zerofeed://join?") refl)
        (join-All IsUriByte (params i) (params-All (All IsUriByte) optional-uri) refl)

  uri-Avoids : Avoids b'#' (to_uri i)
  uri-Avoids = uri_byte-Avoids (to_uri i) uri-All

  parse_url-to_uri :
      (accepts : Bytes → Bytes → Bool)
      → accepts (codes "join") [] ≡ true
      → parse_url accepts scheme_prefix (to_uri i) ≡ some (join_params (params i))
  unfolding parse_url
  parse_url-to_uri accepts a =
      rw (cut_byte-absent b'#' (to_uri i) uri-Avoids, has_control-absent (to_uri i) uri-All)
        (unfold to_uri cut_byte in rw a refl)

  parse_text-to_uri :
      (accepts : Bytes → Bytes → Bool)
      → accepts (codes "join") [] ≡ true
      → parse_text accepts (to_uri i) ≡ ok i
  unfolding parse_text parse_uri
  parse_text-to_uri accepts a =
      let e : has_prefix (to_uri i) scheme_prefix ≡ true = unfold to_uri bytes_equal in refl in
      rw (e, parse_url-to_uri accepts a, parse_query-params) (invite_of_query-entries i w.coded)

  unwrap_link-to_uri : unwrap_link (to_uri i) ≡ to_uri i
  unfolding unwrap_link
  unwrap_link-to_uri =
      ap (λ c. linked c (to_uri i)) (cut_text-absent b'#' (codes "join=") (to_uri i) uri-Avoids)

  escaped-All : All IsQueryByte (query_escape (to_uri i))
  escaped-All = query_escape-All (to_uri i) (uri-bytes (to_uri i) uri-All)

  cut_text-to_web_url :
      cut_text link_mark (to_web_url i) ≡ some (default_landing_url, query_escape (to_uri i))
  unfolding to_web_url cut_text bytes_equal
  cut_text-to_web_url = refl

  unwrap_link-to_web_url : unwrap_link (to_web_url i) ≡ to_uri i
  unfolding unwrap_link
  unwrap_link-to_web_url =
      ap (λ c. linked c (to_web_url i)) cut_text-to_web_url
      ∙ linked-some default_landing_url (query_escape (to_uri i)) (to_web_url i) (to_uri i)
          (contains_text-absent b'#' (codes "join=") (query_escape (to_uri i))
            (query_byte-Avoids b'#' (query_escape (to_uri i)) refl escaped-All))
          (query_unescape-query_escape (to_uri i) (uri-bytes (to_uri i) uri-All))

  web-All : All IsGraphic (to_web_url i)
  unfolding to_web_url all
  web-All =
      All-append IsGraphic default_landing_url (codes "#join=" ++ query_escape (to_uri i))
        (all_sound is_graphic default_landing_url refl)
        (All-append IsGraphic (codes "#join=") (query_escape (to_uri i))
          (all_sound is_graphic (codes "#join=") refl) (query-IsGraphic _ escaped-All))

  pub to_uri-filled : is_empty (to_uri i) ≡ false
  unfolding to_uri
  to_uri-filled = refl

  pub to_web_url-filled : is_empty (to_web_url i) ≡ false
  unfolding to_web_url
  to_web_url-filled = refl

  module _ (texts : Strings) (trims : (s : Bytes) → All IsGraphic s → texts.trim_space s ≡ s)
      (accepts : Bytes → Bytes → Bool) (joins : accepts (codes "join") [] ≡ true) where
    -- ParseInvite gives back the invite from its zerofeed:// URI and from its web link, whatever
    -- bytes its code, transport and fingerprint hold, if it has a code and each byte of its relay
    -- address is printable ASCII and none of the space and & # ; % +. TrimSpace leaves printable
    -- ASCII as it is, and url.Parse accepts the host join.
    pub parse_invite-to_uri :
        (parse_invite texts accepts (to_uri i) ≡ ok i)
        × (parse_invite texts accepts (to_web_url i) ≡ ok i)
    unfolding parse_invite
    parse_invite-to_uri = (
      rw (trims (to_uri i) (uri-IsGraphic (to_uri i) uri-All), to_uri-filled, unwrap_link-to_uri)
          (parse_text-to_uri accepts joins),
      rw (trims (to_web_url i) web-All, to_web_url-filled, unwrap_link-to_web_url)
          (parse_text-to_uri accepts joins),
    )
