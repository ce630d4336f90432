-- ===== src/Relay/RateLimit.antt =====
-- pkg/relay/ratelimit.go: failed attempts and temporary bans for each IP address.
-- Times are nanoseconds since the zero time, and each method is given the time that it reads.
pub mod Bans
pub mod History
mod Tests
use zero_feed.Base.{
  ℕ, ◌+◌, ◌-◌, ◌*◌, ◌^◌, Bool, true, false, not, ◌&&◌, Option, none, some, [], length, ltb, leb,
  if◌then◌else◌, Key, Dict, lookup, insert, delete, delete_if,
}

abbrev pub max_failed_attempts : ℕ
max_failed_attempts = 3

abbrev pub ban_duration : ℕ
ban_duration = 5 * 60 * 10 ^ 9

pub record IpRecord : Type 0 where
  pub attempts : ℕ
  pub banned_until : ℕ
  pub last_activity : ℕ

pub record RateLimiter : Type 0 where
  pub records : Dict IpRecord
  pub enabled : Bool

abbrev pub new_rate_limiter : RateLimiter
new_rate_limiter = record { records = []; enabled = true }

abbrev pub set_enabled : RateLimiter → Bool → RateLimiter
set_enabled r enabled = record r { enabled = enabled }

-- `now.Before(t)` and `now.After(t)`
abbrev before : ℕ → ℕ → Bool
before now t = ltb now t

abbrev after : ℕ → ℕ → Bool
after now t = ltb t now

-- The verdict on a record, and the records afterwards.
banned_record : ℕ → Key → Option IpRecord → RateLimiter → Bool × RateLimiter
banned_record now ip none r = (false, r)
banned_record now ip (some rec) r =
    let touched = record r { records = insert ip (record rec { last_activity = now }) r.records } in
    if before now rec.banned_until
    then (true, touched)
    else if after now rec.banned_until && leb max_failed_attempts rec.attempts
    then (false, record r { records = delete ip touched.records })
    else (false, touched)

fresh_record : Option IpRecord → IpRecord
fresh_record none = record { attempts = 0; banned_until = 0; last_activity = 0 }
fresh_record (some rec) = rec

failed : ℕ → IpRecord → IpRecord
failed now rec =
    let attempts' = rec.attempts + 1 in
    record {
      attempts = attempts';
      banned_until =
          if leb max_failed_attempts attempts' then now + ban_duration else rec.banned_until;
      last_activity = now;
    }

-- The address without its port, or the whole address where it cannot be split.
or_whole : Key → Option Key → Key
or_whole addr none = addr
or_whole addr (some host) = host

-- `net.SplitHostPort`: the host of an address, if it has a host and a port.
module _ (split_host_port : Key → Option Key) where
  pub ip_of : Key → Key
  unfolding or_whole
  ip_of addr = or_whole addr (split_host_port addr)

  unfoldable pub is_banned : ℕ → RateLimiter → Key → Bool × RateLimiter
  unfolding banned_record
  is_banned now r addr =
      if not r.enabled
      then (false, r)
      else banned_record now (ip_of addr) (lookup (ip_of addr) r.records) r

  unfoldable pub record_failure : ℕ → RateLimiter → Key → RateLimiter
  unfolding failed fresh_record
  record_failure now r addr =
      let rec = failed now (fresh_record (lookup (ip_of addr) r.records)) in
      if not r.enabled then r else record r { records = insert (ip_of addr) rec r.records }

  unfoldable pub record_success : RateLimiter → Key → RateLimiter
  record_success r addr = record r { records = delete (ip_of addr) r.records }

-- Stale records: the ban is over and the last activity is longer ago than `max_age`.
is_stale : ℕ → ℕ → IpRecord → Bool
is_stale now max_age rec = after now rec.banned_until && ltb max_age (now - rec.last_activity)

unfoldable pub cleanup_stale : ℕ → ℕ → RateLimiter → RateLimiter
unfolding is_stale
cleanup_stale now max_age r = record r { records = delete_if (is_stale now max_age) r.records }

pub count : RateLimiter → ℕ
count r = length r.records
