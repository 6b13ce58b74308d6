-- ===== src/Webmention/Limiter/Bucket.antt =====
-- indieweb2-bastion/services/webmention-rate-limiter/src/limiter.rs: TokenBucket.
-- An `Instant` and a `Duration` are numbers of nanoseconds; `duration_since` stops at 0. The `f64`
-- fields are exact: a token is 60 * 10 ^ 9 units, so that the refill rate, the maximum divided by 60
-- tokens a second, is a whole number of units a nanosecond. The rounding of `f64` is not modelled.
use civic_connect.Prelude.{
  ℕ, ◌+◌, ◌-◌, ◌*◌, ◌/◌, ◌%◌, ◌^◌, min, max, Bool, true, false, List, [], ◌∷◌, ◌++◌, length, ltb,
  leb, eqb, if◌then◌else◌, Result, ok, err,
}
use civic_connect.Webmention.Config.{F32}

-- One token.
abbrev pub token : ℕ
token = 60 * 1000000000

pub record TokenBucket : Type 0 where
  pub tokens : ℕ
  pub max_tokens : ℕ
  pub refill_rate : ℕ
  pub last_refill : ℕ
  pub request_times : List ℕ

-- `Duration::from_secs_f64` panics at infinity, which is what a positive number divided by 0.0 is.
pub data Panic : Type 0 where
  duration_not_finite : Panic

unfoldable pub new : ℕ → ℕ → TokenBucket
new now max_rate_per_minute = record {
  tokens = max_rate_per_minute * token;
  max_tokens = max_rate_per_minute * token;
  refill_rate = max_rate_per_minute;
  last_refill = now;
  request_times = [];
}

unfoldable pub refill : ℕ → TokenBucket → TokenBucket
refill now b = record b {
  tokens = min (b.tokens + (now - b.last_refill) * b.refill_rate) b.max_tokens;
  last_refill = now;
}

-- `refilled` and `pushed` are its two readings of the clock.
unfoldable pub try_consume : ℕ → ℕ → TokenBucket → TokenBucket × Bool
try_consume refilled pushed b =
    let full = refill refilled b in
    if leb token full.tokens
    then (
      record full {
        tokens = full.tokens - token;
        request_times = full.request_times ++ pushed ∷ [];
      },
      true,
    )
    else (full, false)

-- `floor() as u32`
unfoldable pub remaining : TokenBucket → ℕ
remaining b = min (b.tokens / token) (2 ^ 32 - 1)

-- A quotient rounded to the nearest number, a tie to the even one.
unfoldable pub nearest : ℕ → ℕ → ℕ
nearest n d =
    let q = n / d in
    let r = n % d in if ltb (2 * r) d then q else if ltb d (2 * r) then q + 1 else q + q % 2

unfoldable pub time_until_available : TokenBucket → Result Panic ℕ
time_until_available b =
    if leb token b.tokens
    then ok 0
    else if eqb b.refill_rate 0
    then err duration_not_finite
    else ok (nearest (token - b.tokens) b.refill_rate)

unfoldable pub recent : ℕ → List ℕ → List ℕ
recent now [] = []
recent now (t ∷ ts) =
    let rest = recent now ts in if ltb (now - t) (10 * 1000000000) then t ∷ rest else rest

-- `(expected_in_window * multiplier).max(3.0) as usize`
unfoldable pub burst_threshold : F32 → TokenBucket → ℕ
burst_threshold multiplier b =
    min
      (max 3 (
        max b.max_tokens (6 * token) * multiplier.mantissa / (6 * token * 2 ^ multiplier.exponent)))
      (2 ^ 64 - 1)

unfoldable pub detect_burst : ℕ → F32 → TokenBucket → TokenBucket × Bool
detect_burst now multiplier b =
    let kept = recent now b.request_times in
    (record b { request_times = kept }, ltb (burst_threshold multiplier b) (length kept))
