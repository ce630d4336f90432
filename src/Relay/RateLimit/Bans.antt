-- ===== src/Relay/RateLimit/Bans.antt =====
-- When an address is banned by pkg/relay/ratelimit.go.
use zero_feed.Base.{
  ℕ, ◌≤◌, ◌≡◌, ◌≢◌, refl, ap, Bool, false, ◌&&◌, Option, none, some, ltb, if◌then◌else◌, Key,
  lookup, lookup-insert, lookup-delete_if, IsDistinct, key_iff, arith,
}
use zero_feed.Relay.RateLimit.{
  IpRecord, RateLimiter, banned_record, fresh_record, failed, ip_of, is_banned, record_failure,
  is_stale, cleanup_stale,
}

-- What an entry says at a time.
abbrev pub verdict : ℕ → Option IpRecord → Bool
verdict now none = false
verdict now (some rec) = ltb now rec.banned_until

banned_record_lem :
    (now : ℕ) (ip : Key) (o : Option IpRecord) (r : RateLimiter)
    → (banned_record now ip o r).0 ≡ verdict now o
unfolding banned_record
banned_record_lem now ip none r = refl
banned_record_lem now ip (some rec) r = ground arith

module _ (split_host_port : Key → Option Key) where
  abbrev ip : Key → Key
  ip = ip_of split_host_port

  pub is_banned_lem :
      (now : ℕ) (r : RateLimiter) (addr : Key)
      → (is_banned split_host_port now r addr).0
        ≡ (r.enabled && verdict now (lookup (ip addr) r.records))
  unfolding is_banned
  is_banned_lem now r addr =
      ground (arith, banned_record_lem now (ip addr) (lookup (ip addr) r.records) r)

  -- A sweep does not change who is banned, now or later.
  pub is_banned-cleanup_stale :
      (r : RateLimiter) (addr : Key) (now later max_age : ℕ)
      → IsDistinct r.records
      → now ≤ later
      → (is_banned split_host_port later (cleanup_stale now max_age r) addr).0
        ≡ (is_banned split_host_port later r addr).0
  unfolding cleanup_stale
  is_banned-cleanup_stale r addr now later max_age d h =
      rw
        (
          is_banned_lem,
          is_banned_lem,
          lookup-delete_if (ip addr) (is_stale now max_age) r.records d,
        )
        (ap (λ b. r.enabled && b) (kept (lookup (ip addr) r.records)))
    where
      kept :
          (o : Option IpRecord)
          → verdict later
              (elim o [ none ↦ none | some v ↦ if is_stale now max_age v then none else some v ])
            ≡ verdict later o
      kept none = refl
      kept (some rec) = unfold is_stale in ground arith

  -- A failure of one address does not change whether an address with another host is banned.
  pub is_banned-record_failure :
      (r : RateLimiter) (a b : Key) (t now : ℕ)
      → ip a ≢ ip b
      → (is_banned split_host_port now (record_failure split_host_port t r a) b).0
        ≡ (is_banned split_host_port now r b).0
  is_banned-record_failure r a b t now ne =
      rw (is_banned_lem, is_banned_lem)
        (unfold record_failure in
          ground (
            arith,
            lookup-insert (ip a) (ip b) (failed t (fresh_record (lookup (ip a) r.records)))
                r.records,
            key_iff (ip a) (ip b),
          ))
