-- ===== src/Feed/Invite/Tests.antt =====
-- Invites at concrete inputs.
use zero_feed.Base.{◌≡◌, refl, true, none, Bool, [], ◌∷◌, arith, codes, Strings, ok, bytes_equal}
use zero_feed.Feed.Invite.{Bytes, Invite, parse_invite, to_uri, to_web_url}
use zero_feed.Feed.Invite.Url.{query_escape, query_unescape}
use zero_feed.Feed.Invite.Query.{all, all_sound}
use zero_feed.Feed.Invite.Whole.{IsWritable, parse_invite-to_uri}
use zero_feed.Feed.Invite.Escapes.{is_plain_byte}

-- Trimming as it is for a text without spaces.
abbrev plain_texts : Strings
plain_texts = record {
  to_lower = λ s. s;
  trim_space = λ s. s;
  equal_fold = bytes_equal;
  split_commas = λ s. s ∷ [];
}

abbrev any_url : Bytes → Bytes → Bool
any_url rest fragment = true

abbrev invite : Invite
invite = record {
  channel_code = codes "nova & co";
  relay_addr = codes "[::1]:8443";
  transport_mode = codes "quic";
  spki_fingerprint = [];
}

invite-IsWritable : IsWritable invite
unfolding all
invite-IsWritable = record {
  coded = refl;
  code_bytes = omega arith;
  relay_plain = all_sound is_plain_byte (codes "[::1]:8443") refl;
  transport_bytes = omega arith;
  fingerprint_bytes = tt;
}

invite_uri :
    to_uri invite ≡ codes "zerofeed://join?code=nova+%26+co&relay=[::1]:8443&transport=quic"
unfolding to_uri query_escape
invite_uri = refl

parse_invite-to_uri_example :
    (parse_invite plain_texts any_url (to_uri invite) ≡ ok invite)
    × (parse_invite plain_texts any_url (to_web_url invite) ≡ ok invite)
parse_invite-to_uri_example =
    parse_invite-to_uri invite invite-IsWritable plain_texts (λ s h. refl) any_url refl

-- An escape of a zone in an IPv6 address is written as it is: the address does not come back.
zone_lost : query_unescape (codes "[fe80::1%eth0]:8443") ≡ none
unfolding query_unescape
zone_lost = refl
