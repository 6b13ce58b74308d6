-- ===== src/Webmention/Limiter/Cooldown.antt =====
-- indieweb2-bastion/services/webmention-rate-limiter/src/limiter.rs: a cooldown holds for its whole
-- time.
use civic_connect.Prelude.{
  ℕ, ◌+◌, String, ◌≡◌, refl, true, false, Option, none, some, arith, inl, inr, ok, err, Bool-cases,
}
use civic_connect.Webmention.Url.{IpAddr, UrlLib}
use civic_connect.Webmention.Limiter.Cases.{Reply, scanned, check_ip_cases, ip_eq_refl}
use civic_connect.Webmention.Limiter.{
  ip_eq, RateLimitReason, allowed, limited, RateLimiter, Readings, SourceReadings, consume_ip,
  check_ip, check_key, check_source, then_source, check,
}
use civic_connect.Prelude.Table.{keep}
use civic_connect.Webmention.Config.{cooldown_duration}
use civic_connect.Webmention.Limiter.Cases.{eq_of_ip_eq}
use civic_connect.Webmention.Limiter.{cooling_left, cleanup, burst_cooldown}
use civic_connect.Webmention.Limiter.Bound.Checks.{merge_state}
use civic_connect.Webmention.Limiter.Bound.{Event, request, sweep, after, run}
use civic_connect.Prelude.{lt→ltb, ◌<◌, ◌-◌, List, [], ◌∷◌, All}

cooling_left-some :
    (slot : Option ℕ) (until now : ℕ)
    → slot ≡ some until
    → now < until
    → cooling_left slot now ≡ some (until - now)
unfolding cooling_left
cooling_left-some slot until now e h = ground arith

pub cooldowns-check_ip_other :
    (r : Readings) (ip from : IpAddr) (l : RateLimiter)
    → ip_eq from ip ≡ false
    → (check_ip r from l).0.cooldowns ip ≡ l.cooldowns ip
unfolding consume_ip
cooldowns-check_ip_other r ip from l h =
    check_ip_cases (λ x. x.0.cooldowns ip ≡ l.cooldowns ip) r from l (λ left e. refl)
      (λ e hit. rw h) (λ e miss. refl)

check_ip-cooling :
    (r : Readings) (ip : IpAddr) (l : RateLimiter) (until : ℕ)
    → l.cooldowns ip ≡ some until
    → r.cooling < until
    → check_ip r ip l ≡ (l, ok (limited burst_cooldown (until - r.cooling)))
unfolding check_ip
check_ip-cooling r ip l until e h =
    rw (cooling_left-some (l.cooldowns ip) until r.cooling e h, check_ip)

module _ (u : UrlLib) where
  pub cooldowns-then_source :
      (s : SourceReadings) (source : Option String) (x : Reply)
      → (then_source u s source x).0.cooldowns ≡ x.0.cooldowns
  unfolding then_source check_source check_key
  cooldowns-then_source s none (l, y) = refl
  cooldowns-then_source s (some source) (l, ok (allowed a b)) =
      rw (merge_state (ok (allowed a b)) (check_source u s source l))
  cooldowns-then_source s (some source) (l, ok (limited a b)) = refl
  cooldowns-then_source s (some source) (l, err p) = refl

  -- The event looks at cooldowns before the time `until`.
  abbrev pub Before : ℕ → Event → Type 0
  Before until (request r s ip source) = r.cooling < until
  Before until (sweep now) = now < until

  cooldowns-after :
      (ip : IpAddr) (until : ℕ) (l : RateLimiter) (e : Event)
      → Before until e
      → l.cooldowns ip ≡ some until
      → (after u l e).cooldowns ip ≡ some until
  unfolding after check cleanup
  cooldowns-after ip until l (request r s from source) b h = elim (Bool-cases (ip_eq from ip)) [
    | inl same ↦
        (let e = eq_of_ip_eq from ip same in
          let stay = check_ip-cooling r from l until (ground (arith, e)) b in
          rw (cooldowns-then_source s source (check_ip r from l), stay) h)
    | inr other ↦
        rw
          (
            cooldowns-then_source s source (check_ip r from l),
            cooldowns-check_ip_other r ip from l other,
          )
          h
  ]
  cooldowns-after ip until l (sweep now) b h = rw (h, keep) (rw (lt→ltb now until b))

  cooldowns-run :
      (ip : IpAddr) (until : ℕ) (l : RateLimiter) (es : List Event)
      → All (Before until) es
      → l.cooldowns ip ≡ some until
      → (run u l es).cooldowns ip ≡ some until
  unfolding run
  cooldowns-run ip until l [] b h = h
  cooldowns-run ip until l (e ∷ es) b h =
      cooldowns-run ip until (after u l e) es b.1 (cooldowns-after ip until l e b.0 h)

  then_source_limited :
      (s : SourceReadings) (source : Option String) (l : RateLimiter) (reason : RateLimitReason)
      (n : ℕ)
      → then_source u s source (l, ok (limited reason n)) ≡ (l, ok (limited reason n))
  unfolding then_source
  then_source_limited s none l reason n = refl
  then_source_limited s (some source) l reason n = refl

  -- A burst keeps an IP out for the whole cooldown: when `check_ip` has found a burst, then until the
  -- end of the cooldown every check of that IP is refused with the time that is left and changes
  -- nothing, whatever checks and cleanups came in between.
  pub burst_cools :
      (r r' : Readings) (s : SourceReadings) (ip : IpAddr) (source : Option String)
      (l l' : RateLimiter) (es : List Event) (until : ℕ)
      → cooling_left (l.cooldowns ip) r.cooling ≡ none
      → (scanned r ip l).1 ≡ true
      → until ≡ r.cooled + cooldown_duration l.config
      → All (Before until) es
      → l' ≡ run u (check_ip r ip l).0 es
      → r'.cooling < until
      → check u r' s ip source l' ≡ (l', ok (limited burst_cooldown (until - r'.cooling)))
  unfolding check
  burst_cools r r' s ip source l l' es until free hit at before now in_time =
      rw
        (check_ip-cooling r' ip l' until
          (rw now (cooldowns-run ip until (check_ip r ip l).0 es before start)) in_time)
        (then_source_limited s source l' burst_cooldown (until - r'.cooling))
    where
      start : (check_ip r ip l).0.cooldowns ip ≡ some until
      start =
          check_ip_cases (λ x. x.0.cooldowns ip ≡ some until) r ip l (λ left e. cc)
            (λ e b. rw (ip_eq_refl ip, at)) (λ e miss. cc)
