-- ===== src/Relay/RateLimit/History.antt =====
-- Whom pkg/relay/ratelimit.go bans after any history of failures, successes and checks.
use zero_feed.Base.{
  ℕ, ◌+◌, ◌*◌, ◌^◌, if_elim, not, sym, Dict, insert, lookup-delete, bytes_equal, ◌≡◌, refl, ap, ◌∙◌,
  Bool, true, false, ◌&&◌, Option, none, some, List, [], ◌∷◌, ltb, leb, if◌then◌else◌, Key, lookup,
  lookup-insert, key_iff, bytes_equal_sound, arith,
}
use mathlib.Core.Path.{subst}
use zero_feed.Relay.RateLimit.{
  IpRecord, RateLimiter, banned_record, fresh_record, failed, ip_of, is_banned, record_failure,
  record_success,
}
use zero_feed.Relay.RateLimit.Bans.{verdict, is_banned_lem}

-- The five minutes of a ban, in nanoseconds.
abbrev pub five_minutes : ℕ
five_minutes = 300 * 10 ^ 9

-- What the relay calls for an address, and the times that the methods read.
pub data Event : Type 0 where
  fails : Key → ℕ → Event
  succeeds : Key → Event
  checks : Key → ℕ → Event

module _ (split_host_port : Key → Option Key) where
  abbrev ip : Key → Key
  ip = ip_of split_host_port

  abbrev pub happen : RateLimiter → Event → RateLimiter
  happen r (fails addr t) = record_failure split_host_port t r addr
  happen r (succeeds addr) = record_success split_host_port r addr
  happen r (checks addr t) = (is_banned split_host_port t r addr).1

  abbrev pub happen_all : RateLimiter → List Event → RateLimiter
  happen_all r [] = r
  happen_all r (e ∷ es) = happen_all (happen r e) es

  -- The failures of an IP address that count, and the time of the last one: a success ends the
  -- count, as does a check more than five minutes after the last of three failures or more.
  abbrev pub counted : Key → Event → ℕ × ℕ → ℕ × ℕ
  counted k (fails addr t) (n, last) = if bytes_equal (ip addr) k then (n + 1, t) else (n, last)
  counted k (succeeds addr) (n, last) = if bytes_equal (ip addr) k then (0, last) else (n, last)
  counted k (checks addr t) (n, last) =
      if bytes_equal (ip addr) k
      then if leb 3 n && ltb (last + five_minutes) t then (0, last) else (n, last)
      else (n, last)

  abbrev pub counted_all : Key → List Event → ℕ × ℕ → ℕ × ℕ
  counted_all k [] s = s
  counted_all k (e ∷ es) s = counted_all k es (counted k e s)

  -- An entry that says what is counted.
  abbrev Knows : Option IpRecord → ℕ × ℕ → Type 0
  Knows none (n, last) = n ≡ 0
  Knows (some rec) (n, last) =
      (rec.attempts ≡ n) × (rec.banned_until ≡ (if leb 3 n then last + five_minutes else 0))

  verdict_lem :
      (now : ℕ) (o : Option IpRecord) (s : ℕ × ℕ)
      → Knows o s
      → verdict now o ≡ (leb 3 s.0 && ltb now (s.1 + five_minutes))
  verdict_lem now none (n, last) h = ground arith
  verdict_lem now (some rec) (n, last) h = ground arith

  failed-Knows :
      (t : ℕ) (o : Option IpRecord) (s : ℕ × ℕ)
      → Knows o s
      → Knows (some (failed t (fresh_record o))) (s.0 + 1, t)
  unfolding failed fresh_record
  failed-Knows t none (n, last) h = ground arith
  failed-Knows t (some rec) (n, last) h = ground arith

  -- An entry after a check.
  abbrev entry_checked : ℕ → Option IpRecord → Option IpRecord
  entry_checked now none = none
  entry_checked now (some rec) =
      if not (ltb now rec.banned_until) && (ltb rec.banned_until now && leb 3 rec.attempts)
      then none
      else some (record rec { last_activity = now })

  both_branches :
      (b : Bool) (rec : IpRecord) (n last : ℕ)
      → Knows (some rec) (n, last)
      → Knows (if b then none else some rec) (if b then (0, last) else (n, last))
  both_branches true rec n last h = refl
  both_branches false rec n last h = h

  entry_checked-Knows :
      (t : ℕ) (o : Option IpRecord) (s : ℕ × ℕ)
      → Knows o s
      → Knows (entry_checked t o) (if leb 3 s.0 && ltb (s.1 + five_minutes) t then (0, s.1) else s)
  entry_checked-Knows t none (n, last) h =
      if_elim {A = ℕ × ℕ} (Knows none) (leb 3 n && ltb (last + five_minutes) t) _ _ refl h
  entry_checked-Knows t (some rec) (n, last) h =
      let e : (not (ltb t rec.banned_until) && (ltb rec.banned_until t && leb 3 rec.attempts))
          ≡ (leb 3 n && ltb (last + five_minutes) t) =
        ground arith in
      let rec' = record rec { last_activity = t } in
      subst
        (λ b.
          Knows (if b then none else some rec')
            (if leb 3 n && ltb (last + five_minutes) t then (0, last) else (n, last)))
        (sym e) (both_branches (leb 3 n && ltb (last + five_minutes) t) rec' n last h)

  banned_record_found :
      (now : ℕ) (k j : Key) (o : Option IpRecord) (r : RateLimiter)
      → lookup k r.records ≡ o
      → lookup j (banned_record now k o r).1.records
        ≡ (if bytes_equal k j then entry_checked now o else lookup j r.records)
  unfolding banned_record
  banned_record_found now k j none r h = ground (arith, key_iff k j)
  banned_record_found now k j (some rec) r h = ground (
    arith,
    lookup-insert k j (record rec { last_activity = now }) r.records,
    lookup-delete k j (insert k (record rec { last_activity = now }) r.records),
  )

  is_banned_found :
      (now : ℕ) (r : RateLimiter) (addr j : Key)
      → r.enabled ≡ true
      → lookup j (is_banned split_host_port now r addr).1.records ≡ (
          if bytes_equal (ip addr) j
          then entry_checked now (lookup (ip addr) r.records)
          else lookup j r.records)
  unfolding is_banned
  is_banned_found now r addr j on =
      let found = lookup (ip addr) r.records in
      ap
        (λ b.
          lookup j (if not b then (false, r) else banned_record now (ip addr) found r).1.records)
        on
      ∙ banned_record_found now (ip addr) j found r refl

  banned_record_on :
      (now : ℕ) (k : Key) (o : Option IpRecord) (r : RateLimiter)
      → (banned_record now k o r).1.enabled ≡ r.enabled
  unfolding banned_record
  banned_record_on now k none r = refl
  banned_record_on now k (some rec) r = ground arith

  happen_on : (r : RateLimiter) (e : Event) → (happen r e).enabled ≡ r.enabled
  unfolding record_failure record_success is_banned
  happen_on r (fails addr t) = ground arith
  happen_on r (succeeds addr) = refl
  happen_on r (checks addr t) =
      ground (arith, banned_record_on t (ip addr) (lookup (ip addr) r.records) r)

  entry_cases :
      (b : Bool) (f : Option IpRecord → Option IpRecord) (x y : Option IpRecord) (s s' : ℕ × ℕ)
      → (b ≡ true → x ≡ y)
      → Knows y s
      → (Knows y s → Knows (f y) s')
      → Knows (if b then f x else y) (if b then s' else s)
  entry_cases true f x y s s' e h step = subst (λ o. Knows (f o) s') (sym (e refl)) (step h)
  entry_cases false f x y s s' e h step = h

  -- What an event does to the entry of one address.
  entry_after :
      (k j : Key) (o : Option IpRecord) (m : Dict IpRecord) (f : Option IpRecord → Option IpRecord)
      (s s' : ℕ × ℕ)
      → o ≡ (if bytes_equal j k then f (lookup j m) else lookup k m)
      → Knows (lookup k m) s
      → (Knows (lookup k m) s → Knows (f (lookup k m)) s')
      → Knows o (if bytes_equal j k then s' else s)
  entry_after k j o m f s s' e h step =
      subst (λ l. Knows l (if bytes_equal j k then s' else s)) (sym e)
        (entry_cases (bytes_equal j k) f (lookup j m) (lookup k m) s s'
          (λ t. ap (λ i. lookup i m) (bytes_equal_sound j k t)) h step)

  happen-Knows :
      (k : Key) (r : RateLimiter) (e : Event) (s : ℕ × ℕ)
      → r.enabled ≡ true
      → Knows (lookup k r.records) s
      → Knows (lookup k (happen r e).records) (counted k e s)
  unfolding record_failure record_success
  happen-Knows k r (fails addr t) (n, last) on h =
      entry_after k (ip addr) _ r.records (λ o. some (failed t (fresh_record o))) (n, last)
        (n + 1, t) (rw (on, lookup-insert)) h (failed-Knows t (lookup k r.records) (n, last))
  happen-Knows k r (succeeds addr) (n, last) on h =
      entry_after k (ip addr) _ r.records (λ o. none) (n, last) (0, last)
        (lookup-delete (ip addr) k r.records) h (λ g. refl)
  happen-Knows k r (checks addr t) (n, last) on h =
      entry_after k (ip addr) _ r.records (entry_checked t) (n, last) _
        (is_banned_found t r addr k on) h (entry_checked-Knows t (lookup k r.records) (n, last))

  happen_all-Knows :
      (k : Key) (r : RateLimiter) (es : List Event) (s : ℕ × ℕ)
      → r.enabled ≡ true
      → Knows (lookup k r.records) s
      → Knows (lookup k (happen_all r es).records) (counted_all k es s)
        × ((happen_all r es).enabled ≡ true)
  happen_all-Knows k r [] s on h = (h, on)
  happen_all-Knows k r (e ∷ es) s on h =
      happen_all-Knows k (happen r e) es (counted k e s) (happen_on r e ∙ on)
        (happen-Knows k r e s on h)

  -- From a limiter that is on and knows nothing of an address, after any sequence of failures,
  -- successes and checks of any addresses, at any times, the address is banned exactly if three
  -- failures of its IP at least count and the last of them is less than five minutes ago, where a
  -- success of the IP ends the count, as does a check of it more than five minutes after the last
  -- of three counted failures or more.
  pub is_banned-happen_all :
      (r : RateLimiter) (addr : Key) (es : List Event) (now : ℕ)
      → r.enabled ≡ true
      → lookup (ip addr) r.records ≡ none
      → let (n, last) = counted_all (ip addr) es (0, 0) in
        (is_banned split_host_port now (happen_all r es) addr).0
        ≡ (leb 3 n && ltb now (last + five_minutes))
  is_banned-happen_all r addr es now on absent =
      let (knows, still_on) =
        happen_all-Knows (ip addr) r es (0, 0) on (subst (λ o. Knows o (0, 0)) (sym absent) refl) in
      is_banned_lem split_host_port now (happen_all r es) addr
      ∙ ap (λ b. b && verdict now (lookup (ip addr) (happen_all r es).records)) still_on
      ∙ verdict_lem now _ _ knows
