-- ===== src/Webmention/Limiter.antt =====
-- indieweb2-bastion/services/webmention-rate-limiter/src/limiter.rs: the limiter over its tables.
-- Each reading of the clock is an argument. A call is atomic here (Interleaved takes it apart); its
-- readings may be any numbers, and the theorems say what order they need.
pub mod Bucket
pub mod Rate
pub mod Retry
pub mod Cases
pub mod Bound
pub mod Safety
pub mod Cooldown
pub mod Isolation
pub mod Forgetting
pub mod Interleaved
use civic_connect.Prelude.{
  ℕ, ◌+◌, ◌-◌, ◌*◌, ◌<◌, String, Bool, true, false, Option, none, some, eqb, ltb, if◌then◌else◌,
  ◌==◌, Result, ok, err, ◌>>=◌,
}
use civic_connect.Prelude.Table.{Table, new_table, put, retain, or_insert}
use civic_connect.Webmention.Config.{RateLimitConfig, cooldown_duration, window_duration}
use civic_connect.Webmention.Url.{IpAddr, v4, v6, UrlLib}
use Bucket.{TokenBucket, Panic, new, try_consume, remaining, time_until_available, detect_burst}

abbrev pub ip_eq : IpAddr → IpAddr → Bool
ip_eq (v4 a) (v4 b) = eqb a b
ip_eq (v6 a) (v6 b) = eqb a b
ip_eq _ _ = false

pub data RateLimitReason : Type 0 where
  ip_rate_exceeded source_rate_exceeded burst_cooldown : RateLimitReason

-- `allowed remaining reset_in`, `limited reason retry_after`
pub data RateLimitResult : Type 0 where
  allowed : ℕ → ℕ → RateLimitResult
  limited : RateLimitReason → ℕ → RateLimitResult

pub record RateLimiter : Type 0 where
  pub config : RateLimitConfig
  pub ip_buckets : Table IpAddr TokenBucket
  pub source_buckets : Table String TokenBucket
  -- The `until` of each `CooldownState`.
  pub cooldowns : Table IpAddr ℕ

unfoldable pub new_limiter : RateLimitConfig → RateLimiter
new_limiter config = record {
  config = config;
  ip_buckets = new_table;
  source_buckets = new_table;
  cooldowns = new_table;
}

-- The calls of `Instant::now()` in `check_ip`, in the order of the text.
pub record Readings : Type 0 where
  pub cooling : ℕ
  pub created : ℕ
  pub burst : ℕ
  pub cooled : ℕ
  pub refilled : ℕ
  pub pushed : ℕ

-- The calls of `Instant::now()` in `check_source`.
pub record SourceReadings : Type 0 where
  pub created : ℕ
  pub refilled : ℕ
  pub pushed : ℕ

-- What is left of a cooldown at the time `now`.
unfoldable pub cooling_left : Option ℕ → ℕ → Option ℕ
cooling_left none now = none
cooling_left (some until) now = if ltb now until then some (until - now) else none

-- The reply for a bucket from which a token was taken or not.
unfoldable pub reply :
    RateLimitConfig → RateLimitReason → TokenBucket × Bool → Result Panic RateLimitResult
reply config reason (bucket, true) = ok (allowed (remaining bucket) (window_duration config))
reply config reason (bucket, false) = do
  retry_after ← time_until_available bucket
  ok (limited reason retry_after)

unfoldable pub consume_ip :
    Readings → IpAddr → TokenBucket → RateLimiter → RateLimiter × Result Panic RateLimitResult
unfolding reply
consume_ip r ip bucket l =
    let taken = try_consume r.refilled r.pushed bucket in
    (
      record l { ip_buckets = put ip_eq ip taken.0 l.ip_buckets },
      reply l.config ip_rate_exceeded taken,
    )

unfoldable pub check_bucket :
    Readings → IpAddr → RateLimiter → RateLimiter × Result Panic RateLimitResult
unfolding consume_ip
check_bucket r ip l =
    let bucket = or_insert (l.ip_buckets ip) (new r.created l.config.max_rate_rpm) in
    let (bucket', burst) = detect_burst r.burst l.config.burst_threshold_multiplier bucket in
    if burst
    then (
      record l {
        ip_buckets = put ip_eq ip bucket' l.ip_buckets;
        cooldowns = put ip_eq ip (r.cooled + cooldown_duration l.config) l.cooldowns;
      },
      ok (limited burst_cooldown (cooldown_duration l.config)),
    )
    else consume_ip r ip bucket' l

unfoldable pub check_ip :
    Readings → IpAddr → RateLimiter → RateLimiter × Result Panic RateLimitResult
unfolding check_bucket cooling_left
check_ip r ip l = elim (cooling_left (l.cooldowns ip) r.cooling) [
  | some retry_after ↦ (l, ok (limited burst_cooldown retry_after))
  | none ↦ check_bucket r ip l
]

-- `key` is the normalised source URL.
unfoldable pub check_key :
    SourceReadings → String → RateLimiter → RateLimiter × Result Panic RateLimitResult
unfolding reply
check_key r key l =
    let bucket = or_insert (l.source_buckets key) (new r.created l.config.max_rate_per_source) in
    let taken = try_consume r.refilled r.pushed bucket in
    (
      record l { source_buckets = put (λ a b. a == b) key taken.0 l.source_buckets },
      reply l.config source_rate_exceeded taken,
    )

-- `normalize_source_url`
unfoldable pub normalize_source_url : (u : UrlLib) → String → String
normalize_source_url u url = elim (u.parse url) [
  | none ↦ u.to_lowercase url
  | some parsed ↦
      let bare = u.clear_fragment (u.clear_query parsed) in
      elim (u.host_str bare) [
        | none ↦ u.to_string bare
        | some host ↦ u.to_string (or_insert (u.set_host (u.to_lowercase host) bare) bare)
      ]
]

unfoldable pub check_source :
    UrlLib → SourceReadings → String → RateLimiter → RateLimiter × Result Panic RateLimitResult
check_source u r source_url l = check_key r (normalize_source_url u source_url) l

-- The end of `check`: a limited source prevails, otherwise the reply for the IP stands.
unfoldable pub merge :
    Result Panic RateLimitResult
    → RateLimiter × Result Panic RateLimitResult
    → RateLimiter × Result Panic RateLimitResult
merge ip_result (l, ok (allowed remaining reset_in)) = (l, ip_result)
merge ip_result (l, ok (limited reason retry_after)) = (l, ok (limited reason retry_after))
merge ip_result (l, err p) = (l, err p)

unfoldable pub then_source :
    UrlLib
    → SourceReadings
    → Option String
    → RateLimiter × Result Panic RateLimitResult
    → RateLimiter × Result Panic RateLimitResult
unfolding merge
then_source u r none (l, result) = (l, result)
then_source u r (some source) (l, ok (allowed remaining reset_in)) =
    merge (ok (allowed remaining reset_in)) (check_source u r source l)
then_source u r (some source) (l, ok (limited reason retry_after)) =
    (l, ok (limited reason retry_after))
then_source u r (some source) (l, err p) = (l, err p)

unfoldable pub check :
    UrlLib
    → Readings
    → SourceReadings
    → IpAddr
    → Option String
    → RateLimiter
    → RateLimiter × Result Panic RateLimitResult
unfolding then_source
check u r s ip source_url l = then_source u s source_url (check_ip r ip l)

abbrev pub stale_threshold : ℕ
stale_threshold = 300 * 1000000000

-- `cleanup` at the time `now`.
unfoldable pub cleanup : ℕ → RateLimiter → RateLimiter
cleanup now l = record l {
  ip_buckets = retain (λ b. ltb (now - b.last_refill) stale_threshold) l.ip_buckets;
  source_buckets = retain (λ b. ltb (now - b.last_refill) stale_threshold) l.source_buckets;
  cooldowns = retain (λ until. ltb now until) l.cooldowns;
}
