-- ===== src/Webmention/Handlers.antt =====
-- indieweb2-bastion/services/webmention-rate-limiter/src/handlers.rs: the two handlers that decide.
-- `debug` is `Debug` of a text; a header is the number it holds.
pub mod Admission
pub mod Served
use civic_connect.Prelude.{ℕ, ◌/◌, String, Bool, true, false, Option, none, some, Result, ok, err}
use civic_connect.Webmention.Config.{Config, ValidationConfig}
use civic_connect.Webmention.Url.{IpAddr, UrlLib}
use civic_connect.Webmention.Limiter.Bucket.{Panic}
use civic_connect.Webmention.Limiter.{
  RateLimitReason, ip_rate_exceeded, source_rate_exceeded, burst_cooldown, RateLimitResult, allowed,
  limited, RateLimiter, Readings, SourceReadings, check_ip, check,
}
use civic_connect.Webmention.Validator.{
  show_error, ValidationResult, valid, invalid, validate_content_type, validate,
}

-- `validator` is the configuration that the WebmentionValidator holds.
pub record AppState : Type 0 where
  pub limiter : RateLimiter
  pub validator : ValidationConfig
  pub config : Config

pub data StatusCode : Type 0 where
  status_ok bad_request unsupported_media_type too_many_requests : StatusCode

pub record CheckRequest : Type 0 where
  pub ip : String
  pub source : Option String
  pub target : Option String
  pub content_type : Option String

pub record CheckResponse : Type 0 where
  pub allowed : Bool
  pub reason : Option String
  pub retry_after_secs : Option ℕ
  pub remaining : Option ℕ

pub record ErrorResponse : Type 0 where
  pub error : String
  pub code : String
  pub retry_after_secs : Option ℕ

-- `validated remaining`: 200 with the header X-RateLimit-Remaining.
-- `refused status retry_after body`: with the header Retry-After where there is one.
pub data ProxyResponse : Type 0 where
  validated : ℕ → ProxyResponse
  refused : StatusCode → Option ℕ → ErrorResponse → ProxyResponse

-- `Display` of a RateLimitReason
abbrev pub show_reason : RateLimitReason → String
show_reason ip_rate_exceeded = "IP rate limit exceeded"
show_reason source_rate_exceeded = "Source URL rate limit exceeded"
show_reason burst_cooldown = "Burst detected, in cooldown"

-- `Duration::as_secs`
abbrev pub as_secs : ℕ → ℕ
as_secs nanos = nanos / 1000000000

abbrev pub denial : String → CheckResponse
denial reason = record {
  allowed = false;
  reason = some reason;
  retry_after_secs = none;
  remaining = none;
}

abbrev pub permit : ℕ → CheckResponse
permit n = record { allowed = true; reason = none; retry_after_secs = none; remaining = some n }

abbrev pub delay : RateLimitReason → ℕ → CheckResponse
delay reason retry_after = record (denial (show_reason reason)) {
  retry_after_secs = some (as_secs retry_after);
}

-- The end of `check`, from the reply of the limiter.
unfoldable pub check_reply :
    Result Panic RateLimitResult → Result Panic (StatusCode × CheckResponse)
check_reply (ok (allowed remaining reset_in)) = ok (status_ok, permit remaining)
check_reply (ok (limited reason retry_after)) = ok (status_ok, delay reason retry_after)
check_reply (err p) = err p

-- The end of `proxy_handler`, from the reply of the limiter.
unfoldable pub proxy_reply : Result Panic RateLimitResult → Result Panic ProxyResponse
proxy_reply (ok (allowed remaining reset_in)) = ok (validated remaining)
proxy_reply (ok (limited reason retry_after)) = ok (
    refused too_many_requests (some (as_secs retry_after)) (record {
      error = show_reason reason;
      code = "RATE_LIMITED";
      retry_after_secs = some (as_secs retry_after);
    }))
proxy_reply (err p) = err p

-- The state after a call of the limiter, and what it replied.
abbrev pub limit :
    AppState → RateLimiter × Result Panic RateLimitResult → AppState × Result Panic RateLimitResult
limit state (l, reply) = (record state { limiter = l }, reply)

module _ (u : UrlLib) (debug : String → String) where
  unfoldable pub check_valid :
      Readings
      → SourceReadings
      → IpAddr
      → CheckRequest
      → AppState
      → AppState × Result Panic (StatusCode × CheckResponse)
  check_valid r s ip req state =
      let done = limit state (check u r s ip req.source state.limiter) in
      (done.0, check_reply done.1)

  unfoldable pub check_parsed :
      Readings
      → SourceReadings
      → IpAddr
      → CheckRequest
      → AppState
      → AppState × Result Panic (StatusCode × CheckResponse)
  unfolding check_valid
  check_parsed r s ip req state =
      elim (validate u state.validator req.content_type req.source req.target) [
        | invalid e ↦ (state, ok (status_ok, denial (show_error debug e)))
        | valid ↦ check_valid r s ip req state
      ]

  -- The handler `check`.
  unfoldable pub check_request :
      Readings
      → SourceReadings
      → CheckRequest
      → AppState
      → AppState × Result Panic (StatusCode × CheckResponse)
  unfolding check_parsed
  check_request r s req state = elim (u.parse_ip req.ip) [
    | none ↦ (state, ok (bad_request, denial "Invalid IP address format"))
    | some ip ↦ check_parsed r s ip req state
  ]

  unfoldable pub proxy_handler :
      Readings → IpAddr → Option String → AppState → AppState × Result Panic ProxyResponse
  proxy_handler r ip content_type state =
      elim (validate_content_type u state.validator content_type) [
        | invalid e ↦ (
          state,
          ok (
              refused unsupported_media_type none (record {
                error = show_error debug e;
                code = "INVALID_CONTENT_TYPE";
                retry_after_secs = none;
              })),
        )
        | valid ↦
            (let done = limit state (check_ip r ip state.limiter) in (done.0, proxy_reply done.1))
      ]
