-- ===== src/Cli/Logger.antt =====
-- pkg/logger/logger.go: the configuration of the log. The output itself is left out.
use zero_feed.Base.{ℕ, ◌||◌, Option, none, some, if◌then◌else◌, bytes_equal, codes, Strings}
use zero_feed.Feed.Invite.{Bytes}

pub data Level : Type 0 where
  debug info warn error : Level

pub data Format : Type 0 where
  text json : Format

-- A writer is a number; 2 is the standard error.
pub record Log : Type 0 where
  pub format : Format
  pub level : Level
  pub output_writer : ℕ

unfoldable pub parse_level : Strings → Bytes → Level
parse_level texts level_str =
    let s = texts.to_lower (texts.trim_space level_str) in
    if bytes_equal s (codes "debug")
    then debug
    else if bytes_equal s (codes "warn") || bytes_equal s (codes "warning")
    then warn
    else if bytes_equal s (codes "error")
    then error
    else info

abbrev pub or_stderr : Option ℕ → ℕ
or_stderr none = 2
or_stderr (some w) = w

unfoldable pub init_with_writer : Strings → Bytes → Bytes → Option ℕ → Log
unfolding parse_level
init_with_writer texts format_str level_str w = record {
  format =
      if bytes_equal (texts.to_lower (texts.trim_space format_str)) (codes "json")
      then json
      else text;
  level = parse_level texts level_str;
  output_writer = or_stderr w;
}

unfoldable pub init : Strings → Bytes → Bytes → Log
unfolding init_with_writer
init texts format_str level_str = init_with_writer texts format_str level_str (some 2)
