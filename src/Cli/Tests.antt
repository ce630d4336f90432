-- ===== src/Cli/Tests.antt =====
-- The command line at concrete inputs.
use zero_feed.Base.{
  ℕ, get_be, ◌*◌, ◌%◌, ◌^◌, ◌≤◌, ◌<◌, ◌≡◌, refl, true, false, none, some, List, [], ◌∷◌, ◌++◌,
  length, replicate, All, codes, Strings, bytes_equal, pos, arith,
}
use zero_feed.Feed.Invite.{parse_invite, to_uri}
use zero_feed.Feed.Invite.Url.{query_escape}
use zero_feed.Feed.Invite.Escapes.{is_plain_byte}
use zero_feed.Feed.Invite.Query.{all, all_sound}
use zero_feed.Cli.Shell.{Shell, first_text, mask_secret, parse_passphrase, resolve_relay_addr}
use zero_feed.Cli.Codes.{
  words, format_code, acceptable, get_unbiased_word, generate_channel_code,
  generate_channel_code-few,
}
use zero_feed.Cli.Sizes.{is_digit, parse_byte_size}
use zero_feed.Cli.Sizes.Units.{giga, unit_size, read_number, parse_byte_size-number}
use zero_feed.Cli.Sessions.{
  makes_engine, sets_rekey_thresholds, sets_pin, sets_quic, connects, completes_handshake,
  sends_file, sets_untagged, publishes, PublishOptions, SubscribeOptions, Answers, Stdin,
  subscribe_to, run_publish, run_subscribe, given_code,
}
use zero_feed.Cli.Authorised.{permitted, unmade, ends_of, run_publish-permitted}
use zero_feed.Cli.Sharing.{InviteOptions, run_invite, run_subscribe-run_invite}
use zero_feed.Feed.Dial.{dial_first_available, parse_relay_list}
use zero_feed.Cli.Relays.{any_address}

abbrev texts : Strings
texts = record {
  to_lower = λ s. s;
  trim_space = λ s. s;
  equal_fold = bytes_equal;
  split_commas = λ s. s ∷ [];
}

abbrev shell : Shell
shell = record {
  passphrase_env = [];
  relay_env = [];
  texts = texts;
  to_upper = λ s. s;
  parse_duration = λ s. some (pos 300);
  looked_up = none;
  join_host_port = λ s. s;
  reaches = λ s. true;
  new_code = codes "nova-nova-nova-nova-nova-123456";
}

masked : mask_secret (codes "secret") ≡ codes "se**et"
unfolding mask_secret
masked = refl

masked_short : mask_secret (codes "abcd") ≡ codes "****"
unfolding mask_secret
masked_short = refl

printed : any_address (pos 8443) ≡ codes "0.0.0.0:8443"
unfolding any_address
printed = refl

generated :
    generate_channel_code (0 ∷ 240 ∷ 2 ∷ 3 ∷ 231 ∷ 0 ∷ 0 ∷ 0 ∷ 7 ∷ 0 ∷ 0 ∷ 0 ∷ []) (255 ∷ 9 ∷ [])
    ≡ some (codes "quantum-horizon-cipher-falcon-exoplanet-100007")
unfolding generate_channel_code get_unbiased_word get_be
generated = refl

generate_channel_code-few_example :
    (ws : List ℕ) × (num : ℕ) × (generate_channel_code (replicate 12 250) (replicate 5 3)
      ≡ some (format_code ws num))
    × (length ws ≡ 5)
    × All (λ w. w < length words) ws
    × (100000 ≤ num)
    × (num < 1000000)
    × (length words ^ 5 * 900000 < 2 ^ 60)
generate_channel_code-few_example =
    generate_channel_code-few (replicate 12 250) (replicate 5 3) (omega arith)
      (unfold acceptable in omega arith)

-- 2 ^ 34 GB are 2 ^ 64 bytes, which wrap to none.
parse_byte_size-number_example :
    parse_byte_size shell (codes "17179869184G")
    ≡ read_number (codes "1717986918" ++ (b'4' ∷ [])) * unit_size giga % 2 ^ 64
parse_byte_size-number_example =
    parse_byte_size-number shell (codes "17179869184G") (codes "1717986918") b'4' giga
      (unfold all in all_sound is_digit (codes "1717986918") refl) refl refl

wrapped : parse_byte_size shell (codes "17179869184G") ≡ 0
unfolding parse_byte_size bytes_equal
wrapped = refl

abbrev answers : Answers
answers = record {
  is_made = true;
  is_connected = true;
  is_authenticated = true;
  is_sent = λ path. true;
  is_published = λ payload. true;
}

abbrev stdin : Stdin
stdin = record { is_terminal = true; chunks = []; lines = codes "hello" ∷ codes "/file a.txt" ∷ [] }

abbrev publish_options : PublishOptions
publish_options = record {
  passphrases = [] ∷ codes "correct horse" ∷ [];
  relay = codes "[::1]:8443";
  r = [];
  ttl = codes "5m";
  file = [];
  f = [];
  is_quic = true;
  fingerprint = codes "ab12";
  rekey_bytes = codes "1G";
  rekey_time = codes "1h";
}

run_publish-permitted_example :
    permitted
      (codes "ab12")
      (ends_of answers)
      unmade
      false
      (run_publish shell answers stdin publish_options).1
    ≡ true
run_publish-permitted_example = run_publish-permitted shell answers stdin publish_options

published :
    (run_publish shell answers stdin publish_options).1
    ≡ makes_engine (codes "correct horse") (codes "[::1]:8443")
      ∷ sets_rekey_thresholds (1024 ^ 3) (pos 300)
      ∷ sets_pin (codes "ab12")
      ∷ sets_quic
      ∷ connects
      ∷ completes_handshake (pos 300)
      ∷ sets_untagged false
      ∷ publishes (1 ∷ codes "hello\n")
      ∷ sends_file (codes "a.txt")
      ∷ []
unfolding run_publish bytes_equal resolve_relay_addr parse_byte_size dial_first_available
    parse_relay_list parse_passphrase
published = refl

abbrev invite_options : InviteOptions
invite_options = record {
  passphrases = [];
  arguments = codes "correct horse" ∷ [];
  relay = [];
  r = codes "[::1]:8443";
}

abbrev subscribe_options : SubscribeOptions
subscribe_options = record {
  passphrases = [];
  arguments = codes "zerofeed://join?code=correct+horse&relay=[::1]:8443" ∷ [];
  relay = [];
  r = [];
  is_quic = false;
  fingerprint = codes "ab12";
}

run_subscribe-run_invite_example :
    run_subscribe shell answers (parse_invite shell.texts (λ rest fragment. true)) subscribe_options
    ≡ subscribe_to answers (record {
      pass = (run_invite shell invite_options).channel_code;
      relay_addr = (run_invite shell invite_options).relay_addr;
      over_quic = false;
      pin = codes "ab12";
    })
run_subscribe-run_invite_example =
    run_subscribe-run_invite shell invite_options refl
      (unfold run_invite parse_passphrase in omega arith)
      (unfold run_invite first_text all in all_sound is_plain_byte (codes "[::1]:8443") refl)
      (λ rest fragment. true) refl shell (λ s h. refl) answers subscribe_options false
      (unfold given_code parse_passphrase run_invite to_uri query_escape in refl) refl refl
