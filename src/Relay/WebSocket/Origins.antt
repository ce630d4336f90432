-- ===== src/Relay/WebSocket/Origins.antt =====
-- `isAllowedOrigin` and the checks of `UpgradeWebSocket` of pkg/relay/websocket.go. What Unicode decides about
-- strings is a parameter.
use zero_feed.Base.{
  ℕ, Bool, true, false, not, ◌&&◌, ◌||◌, List, [], ◌∷◌, ◌++◌, length, ◌==◌, if◌then◌else◌,
  bytes_equal, Strings, has_prefix, has_suffix, Result, ok, err,
}

abbrev pub http : List ℕ
http = b'h' ∷ b't' ∷ b't' ∷ b'p' ∷ b':' ∷ b'/' ∷ b'/' ∷ []

abbrev pub https : List ℕ
https = b'h' ∷ b't' ∷ b't' ∷ b'p' ∷ b's' ∷ b':' ∷ b'/' ∷ b'/' ∷ []

abbrev pub localhost : List ℕ
localhost = b'l' ∷ b'o' ∷ b'c' ∷ b'a' ∷ b'l' ∷ b'h' ∷ b'o' ∷ b's' ∷ b't' ∷ []

abbrev pub loopback : List ℕ
loopback = b'1' ∷ b'2' ∷ b'7' ∷ b'.' ∷ b'0' ∷ b'.' ∷ b'0' ∷ b'.' ∷ b'1' ∷ []

abbrev pub pages : List ℕ
pages = b'.' ∷ b'g' ∷ b'i' ∷ b't' ∷ b'h' ∷ b'u' ∷ b'b' ∷ b'.' ∷ b'i' ∷ b'o' ∷ []

abbrev pub own_page : List ℕ
own_page =
    b'h' ∷ b't' ∷ b't' ∷ b'p' ∷ b's' ∷ b':' ∷ b'/' ∷ b'/' ∷ b'n' ∷ b'i' ∷ b'c' ∷ b'o' ∷ b'l' ∷ b'a'
    ∷ b'i' ∷ b'n' ∷ b'z' ∷ b'e' ∷ b'r' ∷ b'i' ∷ b'l' ∷ b'l' ∷ b'o' ∷ b'.' ∷ b'g' ∷ b'i' ∷ b't'
    ∷ b'h' ∷ b'u' ∷ b'b' ∷ b'.' ∷ b'i' ∷ b'o' ∷ []

pub data UpgradeError : Type 0 where
  not_websocket missing_key origin_not_allowed no_hijacking hijack_failed write_failed :
      UpgradeError

-- The headers of the request, and what its server does: whether the connection can be taken over, whether
-- that succeeds, and whether it takes the response.
pub record Request : Type 0 where
  pub upgrade : List ℕ
  pub client_key : List ℕ
  pub origin : List ℕ
  pub host : List ℕ
  pub is_hijacker : Bool
  pub hijacked : Bool
  pub takes : Bool

module _ (strings : Strings) where
  unfoldable pub is_listed : List (List ℕ) → List ℕ → Bool
  is_listed [] origin = false
  is_listed (allowed ∷ others) origin =
      let rest = is_listed others origin in
      if strings.equal_fold (strings.trim_space allowed) origin then true else rest

  -- What is allowed without the variable, of an origin in lower case.
  unfoldable pub is_known_origin : List ℕ → List ℕ → Bool
  is_known_origin lower host =
      if has_prefix lower (http ++ localhost)
        || has_prefix lower (https ++ localhost)
        || has_prefix lower (http ++ loopback)
        || has_prefix lower (https ++ loopback)
      then true
      else if bytes_equal lower own_page || has_suffix lower pages
      then true
      else if not (length host == 0)
          && (bytes_equal lower (http ++ strings.to_lower host)
              || bytes_equal lower (https ++ strings.to_lower host))
      then true
      else false

  -- `env_allowed` is the variable ZEROFEED_ALLOWED_ORIGINS.
  unfoldable pub is_allowed_origin : List ℕ → List ℕ → List ℕ → Bool
  unfolding is_listed is_known_origin
  is_allowed_origin env_allowed origin host =
      if not (length env_allowed == 0) && bytes_equal env_allowed (b'*' ∷ [])
      then true
      else if not (length env_allowed == 0) && is_listed (strings.split_commas env_allowed) origin
      then true
      else is_known_origin (strings.to_lower origin) host

  -- `accept_key` is `computeAcceptKey`, a hash. The result is the key of the response.
  unfoldable pub upgrade_web_socket :
      (List ℕ → List ℕ) → List ℕ → Request → Result UpgradeError (List ℕ)
  unfolding is_allowed_origin
  upgrade_web_socket accept_key env_allowed r =
      let client_key = strings.trim_space r.client_key in
      let origin = strings.trim_space r.origin in
      if not (
        strings.equal_fold r.upgrade
          (b'w' ∷ b'e' ∷ b'b' ∷ b's' ∷ b'o' ∷ b'c' ∷ b'k' ∷ b'e' ∷ b't' ∷ []))
      then err not_websocket
      else if length client_key == 0
      then err missing_key
      else if not (length origin == 0) && not (is_allowed_origin env_allowed origin r.host)
      then err origin_not_allowed
      else if not r.is_hijacker
      then err no_hijacking
      else if not r.hijacked
      then err hijack_failed
      else if not r.takes
      then err write_failed
      else ok (accept_key client_key)
