-- ===== src/Webmention/Limiter/Cases.antt =====
-- indieweb2-bastion/services/webmention-rate-limiter/src/limiter.rs: the ways that a check can end.
use civic_connect.Prelude.{
  ℕ, ◌+◌, ◌≡◌, Bool, true, false, none, some, arith, inl, inr, ok, Result, Bool-cases, Option-cases,
}
use civic_connect.Prelude.Table.{put, or_insert}
use civic_connect.Webmention.Config.{cooldown_duration}
use civic_connect.Webmention.Url.{IpAddr, v4, v6}
use civic_connect.Webmention.Limiter.Bucket.{TokenBucket, Panic, new, detect_burst}
use civic_connect.Webmention.Limiter.{
  ip_eq, burst_cooldown, RateLimitResult, limited, RateLimiter, Readings, cooling_left, consume_ip,
  check_bucket, check_ip,
}

pub ip_eq_refl : (ip : IpAddr) → ip_eq ip ip ≡ true
ip_eq_refl (v4 a) = ground arith
ip_eq_refl (v6 a) = ground arith

pub eq_of_ip_eq : (a b : IpAddr) → ip_eq a b ≡ true → a ≡ b
eq_of_ip_eq (v4 a) (v4 b) h = ground arith
eq_of_ip_eq (v6 a) (v6 b) h = ground arith
eq_of_ip_eq (v4 a) (v6 b) h = cc
eq_of_ip_eq (v6 a) (v4 b) h = cc

abbrev pub Reply : Type 0
Reply = RateLimiter × Result Panic RateLimitResult

-- The bucket of the IP when `check_ip` has looked it up or made it.
abbrev pub ip_bucket : Readings → IpAddr → RateLimiter → TokenBucket
ip_bucket r ip l = or_insert (l.ip_buckets ip) (new r.created l.config.max_rate_rpm)

abbrev pub scanned : Readings → IpAddr → RateLimiter → TokenBucket × Bool
scanned r ip l = detect_burst r.burst l.config.burst_threshold_multiplier (ip_bucket r ip l)

-- A burst was found: the scanned bucket and the cooldown are stored.
abbrev pub burst_reply : Readings → IpAddr → RateLimiter → Reply
burst_reply r ip l = (
  record l {
    ip_buckets = put ip_eq ip (scanned r ip l).0 l.ip_buckets;
    cooldowns = put ip_eq ip (r.cooled + cooldown_duration l.config) l.cooldowns;
  },
  ok (limited burst_cooldown (cooldown_duration l.config)),
)

-- What holds of the three ways that `check_ip` ends holds of its end.
pub check_ip_cases :
    (P : Reply → Type 0) (r : Readings) (ip : IpAddr) (l : RateLimiter)
    → ((left : ℕ)
        → cooling_left (l.cooldowns ip) r.cooling ≡ some left
        → P (l, ok (limited burst_cooldown left)))
    → (cooling_left (l.cooldowns ip) r.cooling ≡ none
        → (scanned r ip l).1 ≡ true
        → P (burst_reply r ip l))
    → (cooling_left (l.cooldowns ip) r.cooling ≡ none
        → (scanned r ip l).1 ≡ false
        → P (consume_ip r ip (scanned r ip l).0 l))
    → P (check_ip r ip l)
unfolding check_ip
check_ip_cases P r ip l cool burst take =
    elim (Option-cases (cooling_left (l.cooldowns ip) r.cooling)) [
      | inr (left, e) ↦ rw (e, check_ip) (cool left e)
      | inl e ↦ elim (Bool-cases (scanned r ip l).1) [
        | inl hit ↦ rw (e, check_ip) (rw (hit, check_bucket) (burst e hit))
        | inr miss ↦ rw (e, check_ip) (rw (miss, check_bucket) (take e miss))
      ]
    ]
