-- ===== src/Relay/RateLimit/Tests.antt =====
-- The theorems of the rate limiter at concrete inputs.
use zero_feed.Base.{
  ◌*◌, ◌^◌, ◌≡◌, ◌≢◌, refl, false, List, bytes_equal, Option, none, some, [], ◌∷◌, lookup, Key,
}
use zero_feed.Relay.RateLimit.{new_rate_limiter, ip_of, is_banned}
use zero_feed.Relay.RateLimit.History.{Event, fails, checks, happen_all, is_banned-happen_all}

-- An address is its host byte and a port byte.
abbrev host_byte : Key → Option Key
host_byte (h ∷ p ∷ []) = some (h ∷ [])
host_byte _ = none

abbrev here : Key
here = 7 ∷ 80 ∷ []

abbrev there : Key
there = 8 ∷ 80 ∷ []

-- A check deletes a record whose ban is over, and the next failure is a first one again.
abbrev history : List Event
history =
    fails here 10
    ∷ fails here 20
    ∷ checks there 25
    ∷ fails here 30
    ∷ checks here (390 * 10 ^ 9)
    ∷ fails here (400 * 10 ^ 9)
    ∷ []

is_banned-happen_all_example :
    (is_banned host_byte (401 * 10 ^ 9) (happen_all host_byte new_rate_limiter history) here).0
    ≡ false
unfolding lookup bytes_equal ip_of
is_banned-happen_all_example =
    is_banned-happen_all host_byte new_rate_limiter here history (401 * 10 ^ 9) refl refl

here-ne-there : ip_of host_byte here ≢ ip_of host_byte there
unfolding ip_of
here-ne-there e = cc
