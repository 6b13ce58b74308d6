-- ===== src/Webmention/Limiter/Isolation.antt =====
-- indieweb2-bastion/services/webmention-rate-limiter/src/limiter.rs: what the limiter does with one IP.
-- It is a limiter of this IP alone, which the requests of others do not reach.
use civic_connect.Prelude.{
  ℕ, ◌+◌, ◌-◌, String, ◌≡◌, refl, sym, ap, subst, ◌∙◌, inl, inr, Bool, true, false, Option, none,
  some, List, [], ◌∷◌, ltb, if◌then◌else◌, Bool-cases, Result, ok,
}
use civic_connect.Webmention.Config.{RateLimitConfig, cooldown_duration}
use civic_connect.Webmention.Url.{IpAddr, UrlLib}
use civic_connect.Webmention.Limiter.Bucket.{TokenBucket, Panic, new, try_consume, detect_burst}
use civic_connect.Webmention.Limiter.Cases.{eq_of_ip_eq, ip_eq_refl, check_ip_cases}
use civic_connect.Webmention.Limiter.Cooldown.{cooldowns-then_source, cooldowns-check_ip_other}
use civic_connect.Webmention.Limiter.Bound.Slots.{check_ip-other}
use civic_connect.Webmention.Limiter.Bound.Checks.{ip_buckets-then_source}
use civic_connect.Webmention.Limiter.Bound.{Event, request, sweep, after, run, config-after}
use civic_connect.Webmention.Limiter.{
  ip_eq, burst_cooldown, ip_rate_exceeded, RateLimitResult, limited, RateLimiter, Readings,
  SourceReadings, cooling_left, reply, consume_ip, check_ip, then_source, check, cleanup,
  stale_threshold,
}
use std.Path.{ap₂}
use civic_connect.Prelude.Table.{keep, or_insert}

-- What the limiter keeps of one IP.
pub record Lane : Type 0 where
  pub bucket : Option TokenBucket
  pub until : Option ℕ

abbrev pub lane_of : IpAddr → RateLimiter → Lane
lane_of ip l = record { bucket = l.ip_buckets ip; until = l.cooldowns ip }

-- A check of the IP, from what is kept of it alone.
unfoldable pub lane_check : RateLimitConfig → Readings → Lane → Lane × Result Panic RateLimitResult
lane_check config r lane = elim (cooling_left lane.until r.cooling) [
  | some left ↦ (lane, ok (limited burst_cooldown left))
  | none ↦
      let bucket = or_insert lane.bucket (new r.created config.max_rate_rpm) in
      let seen = detect_burst r.burst config.burst_threshold_multiplier bucket in
      let taken = try_consume r.refilled r.pushed seen.0 in
      if seen.1
      then (
        record { bucket = some seen.0; until = some (r.cooled + cooldown_duration config) },
        ok (limited burst_cooldown (cooldown_duration config)),
      )
      else (record lane { bucket = some taken.0 }, reply config ip_rate_exceeded taken)
]

unfoldable pub lane_sweep : ℕ → Lane → Lane
lane_sweep now lane = record {
  bucket = keep (λ b. ltb (now - b.last_refill) stale_threshold) lane.bucket;
  until = keep (λ t. ltb now t) lane.until;
}

pub check_ip-lane :
    (r : Readings) (ip : IpAddr) (l : RateLimiter)
    → (lane_of ip (check_ip r ip l).0, (check_ip r ip l).1) ≡ lane_check l.config r (lane_of ip l)
unfolding lane_check consume_ip
check_ip-lane r ip l =
    check_ip_cases (λ x. (lane_of ip x.0, x.1) ≡ lane_check l.config r (lane_of ip l)) r ip l
      (λ left e. rw (e, lane_check)) (λ e hit. rw (e, lane_check) (rw (hit, ip_eq_refl ip)))
      (λ e miss. rw (e, lane_check) (rw (miss, ip_eq_refl ip)))

-- Whether an event can reach what is kept of the IP: a request of this IP, or a cleanup.
abbrev pub concerns : IpAddr → Event → Bool
concerns ip (request r s from source) = ip_eq from ip
concerns ip (sweep now) = true

abbrev pub of_ip : IpAddr → List Event → List Event
of_ip ip [] = []
of_ip ip (e ∷ es) = let rest = of_ip ip es in if concerns ip e then e ∷ rest else rest

-- The event as the lane sees it.
unfoldable pub lane_after : RateLimitConfig → Lane → Event → Lane
lane_after config lane (request r s ip source) = (lane_check config r lane).0
lane_after config lane (sweep now) = lane_sweep now lane

module _ (u : UrlLib) (ip : IpAddr) where
  lane_of-then_source :
      (s : SourceReadings) (source : Option String) (x : RateLimiter × Result Panic RateLimitResult)
      → lane_of ip (then_source u s source x).0 ≡ lane_of ip x.0
  lane_of-then_source s source x =
      rw (ip_buckets-then_source u s source x, cooldowns-then_source u s source x)

  pub lane_of-after :
      (l : RateLimiter) (e : Event)
      → concerns ip e ≡ true
      → lane_of ip (after u l e) ≡ lane_after l.config (lane_of ip l) e
  unfolding after check lane_after cleanup lane_sweep
  lane_of-after l (request r s from source) same =
      lane_of-then_source s source (check_ip r from l)
      ∙ subst (λ x. lane_of x (check_ip r from l).0 ≡ (lane_check l.config r (lane_of x l)).0)
          (eq_of_ip_eq from ip same) (ap (λ x. x.0) (check_ip-lane r from l))
  lane_of-after l (sweep now) same = refl

  pub lane_of-after_foreign :
      (l : RateLimiter) (e : Event)
      → concerns ip e ≡ false
      → lane_of ip (after u l e) ≡ lane_of ip l
  unfolding after check
  lane_of-after_foreign l (request r s from source) other =
      lane_of-then_source s source (check_ip r from l)
      ∙ rw (check_ip-other r ip from l other, cooldowns-check_ip_other r ip from l other)
  lane_of-after_foreign l (sweep now) other = cc

  -- Two limiters of one configuration that keep the same of the IP.
  abbrev Agrees : RateLimiter → RateLimiter → Type 0
  Agrees l l' = (l.config ≡ l'.config) × (lane_of ip l ≡ lane_of ip l')

  run-Agrees :
      (l l' : RateLimiter) (es : List Event)
      → Agrees l l'
      → Agrees (run u l es) (run u l' (of_ip ip es))
  unfolding run
  run-Agrees l l' [] h = h
  run-Agrees l l' (e ∷ es) (same_config, same_lane) = elim (Bool-cases (concerns ip e)) [
    | inl own ↦ rw own (
        run-Agrees (after u l e) (after u l' e) es (
          config-after u l e ∙ same_config ∙ sym (config-after u l' e),
          lane_of-after l e own
              ∙ ap₂ (λ c x. lane_after c x e) same_config same_lane
              ∙ sym (lane_of-after l' e own),
        ))
    | inr other ↦ rw other (
        run-Agrees (after u l e) l' es
          (config-after u l e ∙ same_config, lane_of-after_foreign l e other ∙ same_lane))
  ]

  -- Whatever the history, a request without a source URL is answered as if of the history only the
  -- requests of its own IP, and the cleanups, had happened.
  pub check_isolated :
      (l : RateLimiter) (es : List Event) (r : Readings) (s : SourceReadings)
      → (check u r s ip none (run u l es)).1 ≡ (check u r s ip none (run u l (of_ip ip es))).1
  unfolding check then_source
  check_isolated l es r s =
      let (same_config, same_lane) = run-Agrees l l es (refl, refl) in
      ap (λ x. x.1) (check_ip-lane r ip (run u l es))
      ∙ ap₂ (λ c x. (lane_check c r x).1) same_config same_lane
      ∙ sym (ap (λ x. x.1) (check_ip-lane r ip (run u l (of_ip ip es))))
