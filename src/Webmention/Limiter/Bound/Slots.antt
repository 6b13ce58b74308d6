-- ===== src/Webmention/Limiter/Bound/Slots.antt =====
-- indieweb2-bastion/services/webmention-rate-limiter/src/limiter.rs: what one check does to the
-- buckets of one IP and of one source.
use civic_connect.Prelude.{
  ℕ, ◌+◌, ◌≤◌, ◌≡◌, refl, Bool, true, false, Option, none, some, arith, ok, err, Result,
}
use civic_connect.Webmention.Url.{IpAddr}
use civic_connect.Webmention.Config.{F32, RateLimitConfig}
use civic_connect.Webmention.Limiter.Bucket.{
  TokenBucket, Panic, refill, try_consume, detect_burst, time_until_available,
}
use civic_connect.Webmention.Limiter.Rate.{
  one_if, Conforms, SlotConforms, try_consume-Conforms, detect_burst-Conforms, or_insert-Conforms,
  later-SlotConforms,
}
use civic_connect.Webmention.Limiter.Cases.{ip_bucket, scanned, check_ip_cases, ip_eq_refl}
use civic_connect.Webmention.Limiter.{
  ip_eq, RateLimitReason, ip_rate_exceeded, RateLimitResult, allowed, limited, RateLimiter,
  Readings, reply, consume_ip, check_ip,
}

abbrev pub is_allowed : Result Panic RateLimitResult → Bool
is_allowed (ok (allowed remaining reset_in)) = true
is_allowed (ok (limited reason retry_after)) = false
is_allowed (err p) = false

pub is_allowed-reply :
    (c : RateLimitConfig) (reason : RateLimitReason) (taken : TokenBucket × Bool)
    → is_allowed (reply c reason taken) ≡ taken.1
unfolding reply time_until_available
is_allowed-reply c reason (b, true) = refl
is_allowed-reply c reason (b, false) = ground arith

pub fewer-SlotConforms :
    (rate t0 m n now : ℕ) (slot : Option TokenBucket)
    → m ≤ n
    → SlotConforms rate t0 n now slot
    → SlotConforms rate t0 m now slot
fewer-SlotConforms rate t0 m n now none h c = omega arith
fewer-SlotConforms rate t0 m n now (some b) h c =
    let spent = c.0.spent in
    (
      record {
        refills = c.0.refills;
        capacity = c.0.capacity;
        full = c.0.full;
        spent = omega (arith, spent);
      },
      c.1,
    )

pub one_if_mono : (a b : Bool) → (a ≡ true → b ≡ true) → one_if a ≤ one_if b
one_if_mono a b h = ground arith

pub refilled_at : (t p : ℕ) (b : TokenBucket) → (try_consume t p b).0.last_refill ≡ t
unfolding try_consume refill
refilled_at t p b = ground arith

scanned_at :
    (t : ℕ) (k : F32) (b : TokenBucket) → (detect_burst t k b).0.last_refill ≡ b.last_refill
unfolding detect_burst
scanned_at t k b = refl

-- A check of another IP leaves the bucket alone.
pub check_ip-other :
    (r : Readings) (ip from : IpAddr) (l : RateLimiter)
    → ip_eq from ip ≡ false
    → (check_ip r from l).0.ip_buckets ip ≡ l.ip_buckets ip
unfolding consume_ip
check_ip-other r ip from l h =
    check_ip_cases (λ x. x.0.ip_buckets ip ≡ l.ip_buckets ip) r from l (λ left e. refl)
      (λ e hit. rw h) (λ e miss. rw h)

pub source_buckets-check_ip :
    (r : Readings) (ip : IpAddr) (l : RateLimiter)
    → (check_ip r ip l).0.source_buckets ≡ l.source_buckets
unfolding consume_ip
source_buckets-check_ip r ip l =
    check_ip_cases (λ x. x.0.source_buckets ≡ l.source_buckets) r ip l (λ left e. refl)
      (λ e hit. refl) (λ e miss. refl)

pub config-check_ip :
    (r : Readings) (ip : IpAddr) (l : RateLimiter) → (check_ip r ip l).0.config ≡ l.config
unfolding consume_ip
config-check_ip r ip l =
    check_ip_cases (λ x. x.0.config ≡ l.config) r ip l (λ left e. refl) (λ e hit. refl)
      (λ e miss. refl)

module _ (rate t0 count : ℕ) where
  pub none_more :
      (now : ℕ) (slot : Option TokenBucket)
      → SlotConforms rate t0 count now slot
      → SlotConforms rate t0 (count + 0) now slot
  none_more now slot c = fewer-SlotConforms rate t0 (count + 0) count now slot (omega arith) c

  pub check_ip-SlotConforms :
      (r : Readings) (ip : IpAddr) (l : RateLimiter) (now : ℕ)
      → l.config.max_rate_rpm ≡ rate
      → now ≤ r.created
      → r.created ≤ r.refilled
      → SlotConforms rate t0 count now (l.ip_buckets ip)
      → SlotConforms rate t0
          (count + one_if (is_allowed (check_ip r ip l).1))
          r.refilled
          ((check_ip r ip l).0.ip_buckets ip)
  unfolding consume_ip detect_burst
  check_ip-SlotConforms r ip l now cfg h k c =
      check_ip_cases
        (λ x. SlotConforms rate t0 (count + one_if (is_allowed x.1)) r.refilled (x.0.ip_buckets ip))
        r ip l
        (λ left e.
          none_more r.refilled (l.ip_buckets ip)
            (later-SlotConforms rate t0 count now r.refilled (l.ip_buckets ip) (omega arith) c))
        (λ e hit.
          rw (ip_eq_refl ip)
            (none_more r.refilled (some seen) (seen-Conforms, omega (arith, found.1))))
        (λ e miss.
          rw (ip_eq_refl ip, is_allowed-reply l.config ip_rate_exceeded taken)
            (rw (refilled_at r.refilled r.pushed seen) (
              try_consume-Conforms rate t0 count r.refilled r.pushed seen (omega (arith, found.1))
                  seen-Conforms,
              omega arith,
            )))
    where
      seen : TokenBucket
      seen = (scanned r ip l).0

      found : SlotConforms rate t0 count r.created (some (ip_bucket r ip l))
      found = rw cfg (or_insert-Conforms rate t0 count now r.created (l.ip_buckets ip) h c)

      seen-Conforms : Conforms rate t0 count seen
      seen-Conforms =
          detect_burst-Conforms rate t0 count r.burst l.config.burst_threshold_multiplier
            (ip_bucket r ip l) found.0

      taken : TokenBucket × Bool
      taken = try_consume r.refilled r.pushed seen
