-- ===== src/Webmention/Limiter/Forgetting.antt =====
-- indieweb2-bastion/services/webmention-rate-limiter/src/limiter.rs: what the cleanup leaves of an IP
-- that has been idle.
use civic_connect.Prelude.{
  ℕ, ◌+◌, ◌-◌, ◌≤◌, ◌≡◌, refl, sym, ap, subst, ◌∙◌, ◌⊎◌, inl, inr, false, Option, none, some, List,
  [], ◌∷◌, ◌++◌, ltb, Bool-cases, Option-cases, All,
}
use native.Mathlib.Omega.{arith}
use civic_connect.Webmention.Config.{RateLimitConfig, cooldown_duration}
use civic_connect.Webmention.Url.{IpAddr, UrlLib}
use civic_connect.Webmention.Limiter.Bucket.{TokenBucket, new, detect_burst}
use civic_connect.Webmention.Limiter.Isolation.{
  Lane, lane_of, lane_check, lane_sweep, lane_after, check_ip-lane, lane_of-after,
  lane_of-after_foreign,
}
use civic_connect.Webmention.Limiter.Bound.Slots.{refilled_at}
use civic_connect.Webmention.Limiter.Bound.{Event, request, sweep, after, run, config-after}
use civic_connect.Webmention.Limiter.{
  ip_eq, RateLimiter, Readings, SourceReadings, check, then_source, new_limiter, cooling_left,
  stale_threshold,
}
use std.Path.{ap₂}
use civic_connect.Prelude.Table.{keep, or_insert}

abbrev BucketBy : ℕ → Option TokenBucket → Type 0
BucketBy t none = Unit
BucketBy t (some b) = b.last_refill ≤ t

abbrev UntilBy : ℕ → Option ℕ → Type 0
UntilBy t none = Unit
UntilBy t (some until) = until ≤ t

abbrev empty : Lane
empty = record { bucket = none; until = none }

or_insert-BucketBy :
    (t created rate : ℕ) (slot : Option TokenBucket)
    → created ≤ t
    → BucketBy t slot
    → (or_insert slot (new created rate)).last_refill ≤ t
unfolding new
or_insert-BucketBy t created rate none h o = h
or_insert-BucketBy t created rate (some b) h o = o

stale_gone :
    (t now : ℕ) (slot : Option TokenBucket)
    → t + stale_threshold ≤ now
    → BucketBy t slot
    → keep (λ b. ltb (now - b.last_refill) stale_threshold) slot ≡ none
stale_gone t now none h o = refl
stale_gone t now (some b) h o = ground (arith, h, o)

expired_gone :
    (t now : ℕ) (slot : Option ℕ)
    → t ≤ now
    → UntilBy t slot
    → keep (λ until. ltb now until) slot ≡ none
expired_gone t now none h o = refl
expired_gone t now (some until) h o = ground (arith, h, o)

module _ (config : RateLimitConfig) (t : ℕ) where
  -- The IP was last seen by the time `t`.
  abbrev Old : Lane → Type 0
  Old lane = BucketBy t lane.bucket × UntilBy (t + cooldown_duration config) lane.until

  lane_check-Old :
      (r : Readings) (lane : Lane)
      → r.created ≤ t
      → r.cooled ≤ t
      → r.refilled ≤ t
      → Old lane
      → Old (lane_check config r lane).0
  unfolding lane_check detect_burst
  lane_check-Old r lane a b c o = elim (Option-cases (cooling_left lane.until r.cooling)) [
    | inr (left, e) ↦ rw (e, lane_check) o
    | inl e ↦
        let bucket = or_insert lane.bucket (new r.created config.max_rate_rpm) in
        let seen = detect_burst r.burst config.burst_threshold_multiplier bucket in
        elim (Bool-cases seen.1) [
          | inl hit ↦
              rw (e, lane_check)
                (rw hit (
                  or_insert-BucketBy t r.created config.max_rate_rpm lane.bucket a o.0,
                  omega (arith, b),
                ))
          | inr miss ↦
              rw (e, lane_check)
                (rw miss (omega (arith, c, refilled_at r.refilled r.pushed seen.0), o.1))
        ]
  ]

  lane_sweep-Old :
      (now : ℕ) (lane : Lane)
      → t + stale_threshold ≤ now
      → t + cooldown_duration config ≤ now
      → Old lane
      → lane_sweep now lane ≡ empty
  unfolding lane_sweep
  lane_sweep-Old now lane a b o =
      ap₂ (λ bucket until. record { bucket = bucket; until = until })
        (stale_gone t now lane.bucket a o.0)
        (expired_gone (t + cooldown_duration config) now lane.until b o.1)

  lane_sweep_early : (now : ℕ) (lane : Lane) → Old lane → Old (lane_sweep now lane)
  unfolding lane_sweep
  lane_sweep_early now lane o = (kept_bucket lane.bucket o.0, kept_until lane.until o.1)
    where
      kept_bucket :
          (slot : Option TokenBucket)
          → BucketBy t slot
          → BucketBy t (keep (λ b. ltb (now - b.last_refill) stale_threshold) slot)
      kept_bucket none h = h
      kept_bucket (some b) h = ground (arith, h)

      kept_until :
          (slot : Option ℕ)
          → UntilBy (t + cooldown_duration config) slot
          → UntilBy (t + cooldown_duration config) (keep (λ until. ltb now until) slot)
      kept_until none h = h
      kept_until (some until) h = ground (arith, h)

-- A request of the IP has read no time after `t`.
abbrev pub Early : IpAddr → ℕ → Event → Type 0
Early ip t (request r s from source) =
    (ip_eq from ip ≡ false) ⊎ ((r.created ≤ t) × (r.cooled ≤ t) × (r.refilled ≤ t))
Early ip t (sweep now) = Unit

-- The event is not a request of the IP.
abbrev pub Spares : IpAddr → Event → Type 0
Spares ip (request r s from source) = ip_eq from ip ≡ false
Spares ip (sweep now) = Unit

config-run : (u : UrlLib) (l : RateLimiter) (es : List Event) → (run u l es).config ≡ l.config
unfolding run
config-run u l [] = refl
config-run u l (e ∷ es) = config-run u (after u l e) es ∙ config-after u l e

module _ (u : UrlLib) (config : RateLimitConfig) (ip : IpAddr) where
  Old-after :
      (t : ℕ) (l : RateLimiter) (e : Event)
      → l.config ≡ config
      → Early ip t e
      → Old config t (lane_of ip l)
      → Old config t (lane_of ip (after u l e))
  unfolding lane_after
  Old-after t l (request r s from source) c early o = elim (Bool-cases (ip_eq from ip)) [
    | inr other ↦
        subst (Old config t) (sym (lane_of-after_foreign u ip l (request r s from source) other)) o
    | inl own ↦ subst (Old config t) (sym (lane_of-after u ip l (request r s from source) own)) (
        rw c (elim early [
          | inl other ↦ cc
          | inr times ↦ lane_check-Old config t r (lane_of ip l) times.0 times.1 times.2 o
        ]))
  ]
  Old-after t l (sweep now) c early o =
      subst (Old config t) (sym (lane_of-after u ip l (sweep now) refl))
        (lane_sweep_early config t now (lane_of ip l) o)

  after-empty :
      (l : RateLimiter) (e : Event)
      → Spares ip e
      → lane_of ip l ≡ empty
      → lane_of ip (after u l e) ≡ empty
  unfolding lane_after lane_sweep
  after-empty l (request r s from source) other h =
      lane_of-after_foreign u ip l (request r s from source) other ∙ h
  after-empty l (sweep now) other h = lane_of-after u ip l (sweep now) refl ∙ ap (lane_sweep now) h

  run-empty :
      (l : RateLimiter) (es : List Event)
      → All (Spares ip) es
      → lane_of ip l ≡ empty
      → lane_of ip (run u l es) ≡ empty
  unfolding run
  run-empty l [] spares h = h
  run-empty l (e ∷ es) spares h = run-empty (after u l e) es spares.1 (after-empty l e spares.0 h)

  run-forgets :
      (t now : ℕ) (es later : List Event) (l : RateLimiter)
      → t + stale_threshold ≤ now
      → t + cooldown_duration config ≤ now
      → l.config ≡ config
      → All (Early ip t) es
      → All (Spares ip) later
      → Old config t (lane_of ip l)
      → (lane_of ip (run u l (es ++ sweep now ∷ later)) ≡ empty)
        × ((run u l (es ++ sweep now ∷ later)).config ≡ config)
  unfolding run lane_after
  run-forgets t now [] later l a b c early spares o = (
    run-empty (after u l (sweep now)) later spares
        (lane_of-after u ip l (sweep now) refl ∙ lane_sweep-Old config t now (lane_of ip l) a b o),
    config-run u (after u l (sweep now)) later ∙ config-after u l (sweep now) ∙ c,
  )
  run-forgets t now (e ∷ es) later l a b c early spares o =
      run-forgets t now es later (after u l e) a b (config-after u l e ∙ c) early.1 spares
        (Old-after t l e c early.0 o)

  -- An idle IP is forgotten: when the requests of an IP in a history of a new limiter read no time after
  -- `t`, and the cleanup comes five minutes and the time of a cooldown after `t` or later, then as long
  -- as the IP is silent the limiter keeps no bucket and no cooldown of it, and its next request, when it
  -- has no source URL, is answered as it is by a new limiter.
  pub idle_forgotten :
      (t now : ℕ) (es later : List Event) (r : Readings) (s : SourceReadings)
      → t + stale_threshold ≤ now
      → t + cooldown_duration config ≤ now
      → All (Early ip t) es
      → All (Spares ip) later
      → (let l = run u (new_limiter config) (es ++ sweep now ∷ later) in
          (l.ip_buckets ip ≡ none)
          × (l.cooldowns ip ≡ none)
          × ((check u r s ip none l).1 ≡ (check u r s ip none (new_limiter config)).1))
  unfolding new_limiter check then_source
  idle_forgotten t now es later r s a b early spares =
      let l = run u (new_limiter config) (es ++ sweep now ∷ later) in
      let (gone, same_config) =
        run-forgets t now es later (new_limiter config) a b refl early spares (tt, tt) in
      (
        ap (λ x. x.bucket) gone,
        ap (λ x. x.until) gone,
        ap (λ x. x.1) (check_ip-lane r ip l)
            ∙ ap₂ (λ c x. (lane_check c r x).1) same_config gone
            ∙ sym (ap (λ x. x.1) (check_ip-lane r ip (new_limiter config))),
      )
