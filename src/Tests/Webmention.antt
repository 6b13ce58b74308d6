-- ===== src/Tests/Webmention.antt =====
-- Inputs for indieweb2-bastion/services/webmention-rate-limiter/src/limiter.rs.
use civic_connect.Prelude.{
  ℕ, ◌+◌, ◌-◌, ◌*◌, ◌≤◌, ◌<◌, String, ◌≡◌, refl, true, false, none, some, List, [], ◌∷◌, ◌++◌, inr,
  arith, ok, ◌==◌, if◌then◌else◌,
}
use civic_connect.Prelude.Table.{new_table, put}
use civic_connect.Prelude.Text.{is_empty}
use civic_connect.Webmention.Config.{RateLimitConfig, default_rate_limit, cooldown_duration}
use civic_connect.Webmention.Url.{v4, UrlLib}
use civic_connect.Webmention.Limiter.Bucket.{
  TokenBucket, token, nearest, try_consume, time_until_available, detect_burst, recent,
  burst_threshold,
}
use civic_connect.Webmention.Limiter.{
  ip_eq, RateLimiter, RateLimitResult, limited, burst_cooldown, Readings, SourceReadings,
  new_limiter, cooling_left, check_ip, check,
}
use civic_connect.Webmention.Limiter.Cases.{scanned}
use civic_connect.Webmention.Limiter.Bound.{
  Event, request, sweep, run, admits_ip, admits_source, admitted, InOrder, ip_bound, source_bound,
}
use civic_connect.Webmention.Limiter.Retry.{retry_after_exact}
use civic_connect.Webmention.Limiter.Safety.{check_replies}
use civic_connect.Webmention.Limiter.Cooldown.{burst_cools}
use civic_connect.Webmention.Limiter.Isolation.{check_isolated}
use civic_connect.Webmention.Limiter.Forgetting.{idle_forgotten}
use civic_connect.Webmention.Limiter.Interleaved
use civic_connect.Webmention.Limiter.Interleaved.{Action, begin, go_on, sweep_ips, act_all, quiet}
use civic_connect.Webmention.Limiter.Interleaved.Load.{let_through, load}
use civic_connect.Webmention.Limiter.Interleaved.Bound.{interleaved_bound}

-- A library in which a URL is its host.
abbrev pub hosts_only : UrlLib
hosts_only = record {
  Url = String;
  parse = λ s. if is_empty s then none else some s;
  scheme = λ url. "https";
  host_str = λ url. some url;
  clear_query = λ url. url;
  clear_fragment = λ url. url;
  set_host = λ host url. some host;
  to_string = λ url. url;
  to_lowercase = λ s. s;
  parse_ip = λ s. if s == "1.2.3.4" then some (v4 16909060) else none;
}

abbrev slow : RateLimitConfig
slow = record default_rate_limit { max_rate_rpm = 2; max_rate_per_source = 1 }

abbrev pub at_time : ℕ → Readings
at_time t = record { cooling = t; created = t; burst = t; cooled = t; refilled = t; pushed = t }

abbrev pub at_source_time : ℕ → SourceReadings
at_source_time t = record { created = t; refilled = t; pushed = t }

abbrev ask : ℕ → Event
ask t = request (at_time t) (at_source_time t) (v4 7) (some "a.example")

abbrev history : List Event
history = ask 5 ∷ ask 6 ∷ sweep 7 ∷ ask 8 ∷ []

history-InOrder : InOrder 5 history
history-InOrder = (
  (omega arith, omega arith, omega arith, omega arith),
  (
    (omega arith, omega arith, omega arith, omega arith),
    (omega arith, ((omega arith, omega arith, omega arith, omega arith), tt)),
  ),
)

ip_bound_example :
    admitted hosts_only (admits_ip hosts_only (v4 7)) (new_limiter slow) history * token
    ≤ 2 * token + (8 - 5) * 2
ip_bound_example = ip_bound hosts_only slow 5 history history-InOrder (v4 7)

source_bound_example :
    admitted hosts_only (admits_source hosts_only "a.example") (new_limiter slow) history * token
    ≤ 1 * token + (8 - 5) * 1
source_bound_example = source_bound hosts_only slow 5 history history-InOrder "a.example"

check_replies_example :
    (result : RateLimitResult) × ((check hosts_only
        (at_time 9)
        (at_source_time 9)
        (v4 7)
        none
        (run hosts_only (new_limiter slow) history)).1
      ≡ ok result)
check_replies_example =
    check_replies hosts_only slow history (at_time 9) (at_source_time 9) (v4 7) none (omega arith)
      (omega arith)

abbrev stopped : RateLimiter
stopped = record {
  config = record slow { max_rate_rpm = 0 };
  ip_buckets = new_table;
  source_buckets = new_table;
  cooldowns = new_table;
}

-- A bucket of the rate 2 that has seen four requests.
abbrev busy : TokenBucket
busy = record {
  tokens = 0;
  max_tokens = 2 * token;
  refill_rate = 2;
  last_refill = 1;
  request_times = 1 ∷ 1 ∷ 1 ∷ 1 ∷ [];
}

abbrev loaded : RateLimiter
loaded = record stopped { config = slow; ip_buckets = put ip_eq (v4 7) busy new_table }

bursts : (scanned (at_time 2) (v4 7) loaded).1 ≡ true
unfolding detect_burst recent burst_threshold
bursts = refl

not_cooling : cooling_left (loaded.cooldowns (v4 7)) 2 ≡ none
unfolding cooling_left
not_cooling = refl

abbrev later : RateLimiter
later = run hosts_only (check_ip (at_time 2) (v4 7) loaded).0 (ask 3 ∷ sweep 4 ∷ [])

burst_cools_example :
    check hosts_only (at_time 1000) (at_source_time 1000) (v4 7) none later
    ≡ (later, ok (limited burst_cooldown (2 + cooldown_duration slow - 1000)))
burst_cools_example =
    burst_cools hosts_only (at_time 2) (at_time 1000) (at_source_time 1000) (v4 7) none loaded later
      (ask 3 ∷ sweep 4 ∷ []) (2 + cooldown_duration slow) not_cooling bursts refl
      (omega arith, (omega arith, tt)) refl (omega arith)

waits : time_until_available busy ≡ ok 30000000000
unfolding time_until_available nearest
waits = refl

retry_after_exact_example :
    (30000000001 < 40000000000 → (try_consume 40000000000 5 busy).1 ≡ true)
    × (40000000000 < 30000000001 → (try_consume 40000000000 5 busy).1 ≡ false)
retry_after_exact_example =
    retry_after_exact busy 30000000000 40000000000 5 (omega arith) (omega arith) waits

-- A request of the IP, one of another, and a cleanup.
abbrev mixed : List Event
mixed = ask 5 ∷ request (at_time 6) (at_source_time 6) (v4 8) (some "a.example") ∷ sweep 7 ∷ []

check_isolated_example :
    (check hosts_only
      (at_time 9)
      (at_source_time 9)
      (v4 7)
      none
      (run hosts_only (new_limiter slow) mixed)).1
    ≡ (check hosts_only
        (at_time 9)
        (at_source_time 9)
        (v4 7)
        none
        (run hosts_only (new_limiter slow) (ask 5 ∷ sweep 7 ∷ []))).1
check_isolated_example =
    check_isolated hosts_only (v4 7) (new_limiter slow) mixed (at_time 9) (at_source_time 9)

-- Two checks of the IP look at the cooldowns before either takes a token; a cleanup that read the clock
-- before them sweeps in between.
abbrev overlapping : List Action
overlapping =
    begin 5 (v4 7) (some "a.example")
    ∷ begin 5 (v4 7) none
    ∷ go_on 1 (at_time 6) (at_source_time 6)
    ∷ sweep_ips 4
    ∷ go_on 1 (at_time 7) (at_source_time 7)
    ∷ []

overlapping-InOrder : Interleaved.InOrder 5 overlapping
overlapping-InOrder =
    (tt, (tt, ((omega arith, omega arith), (tt, ((omega arith, omega arith), tt)))))

interleaved_bound_example :
    (let p = act_all hosts_only (quiet (new_limiter slow)) overlapping in
      (let_through (v4 7) p.replies + load (v4 7) p.flights) * token ≤ 2 * token + (7 - 5) * 2)
interleaved_bound_example =
    interleaved_bound hosts_only slow (v4 7) 5 overlapping overlapping-InOrder

-- A request of the IP, a cleanup after six minutes, and a request of another.
idle_forgotten_example :
    (let l = run hosts_only (new_limiter slow) (
        (ask 5 ∷ [])
        ++ sweep 360000000005
          ∷ request (at_time 360000000006) (at_source_time 360000000006) (v4 8) none
          ∷ []) in
      (l.ip_buckets (v4 7) ≡ none)
      × (l.cooldowns (v4 7) ≡ none)
      × ((check hosts_only (at_time 360000000009) (at_source_time 360000000009) (v4 7) none l).1
          ≡ (check hosts_only
              (at_time 360000000009)
              (at_source_time 360000000009)
              (v4 7)
              none
              (new_limiter slow)).1))
idle_forgotten_example =
    idle_forgotten hosts_only slow (v4 7) 5 360000000005 (ask 5 ∷ [])
      (request (at_time 360000000006) (at_source_time 360000000006) (v4 8) none ∷ [])
      (at_time 360000000009) (at_source_time 360000000009) (omega arith) (omega arith)
      (inr (omega arith, omega arith, omega arith), tt) (refl, tt)
