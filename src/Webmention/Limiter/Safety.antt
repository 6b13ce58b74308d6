-- ===== src/Webmention/Limiter/Safety.antt =====
-- indieweb2-bastion/services/webmention-rate-limiter/src/limiter.rs: a check replies and does not
-- panic while the rates are positive, and a cooldown holds for its whole time.
use civic_connect.Prelude.{
  ℕ, String, ◌≡◌, refl, sym, subst, Bool, true, false, Option, none, some, arith, inl, inr, ok, err,
  Result, Bool-cases, if◌then◌else◌, ◌==◌,
}
use civic_connect.Prelude.Table.{or_insert}
use civic_connect.Webmention.Url.{IpAddr, UrlLib}
use civic_connect.Webmention.Config.{F32, RateLimitConfig}
use civic_connect.Webmention.Limiter.Bucket.{
  TokenBucket, Panic, new, refill, try_consume, detect_burst, time_until_available,
}
use civic_connect.Webmention.Limiter.Cases.{Reply, scanned, check_ip_cases}
use civic_connect.Webmention.Limiter.{
  ip_eq, RateLimitReason, ip_rate_exceeded, source_rate_exceeded, RateLimitResult, allowed, limited,
  RateLimiter, Readings, SourceReadings, reply, consume_ip, check_ip, check_key, check_source,
  normalize_source_url, merge, then_source, check,
}
use civic_connect.Prelude.Table.{keep}
use civic_connect.Webmention.Limiter.Bucket.{
  detect_burst, recent, burst_threshold, duration_not_finite, refill,
}
use civic_connect.Webmention.Limiter.{cooling_left, cleanup, new_limiter}
use civic_connect.Webmention.Limiter.Bound.Checks.{merge_state}
use civic_connect.Webmention.Limiter.Bound.{Event, request, sweep, after, run}
use civic_connect.Prelude.{◌<◌, List, [], ◌∷◌}

-- A bucket that refills.
abbrev pub Positive : Option TokenBucket → Type 0
Positive none = Unit
Positive (some b) = 0 < b.refill_rate

Positive-put :
    (c : Bool) (b : TokenBucket) (slot : Option TokenBucket)
    → 0 < b.refill_rate
    → Positive slot
    → Positive (if c then some b else slot)
Positive-put true b slot h k = h
Positive-put false b slot h k = k

Positive-keep :
    (p : TokenBucket → Bool) (slot : Option TokenBucket) → Positive slot → Positive (keep p slot)
Positive-keep p none h = tt
Positive-keep p (some b) h = elim (Bool-cases (p b)) [ inl e ↦ rw e h | inr e ↦ rw e tt ]

-- Every rate of the limiter is positive.
pub record IsRunning (l : RateLimiter) : Type 0 where
  pub ip_rate : 0 < l.config.max_rate_rpm
  pub source_rate : 0 < l.config.max_rate_per_source
  pub ips : (ip : IpAddr) → Positive (l.ip_buckets ip)
  pub sources : (key : String) → Positive (l.source_buckets key)

or_insert-Positive :
    (slot : Option TokenBucket) (now rate : ℕ)
    → 0 < rate
    → Positive slot
    → 0 < (or_insert slot (new now rate)).refill_rate
unfolding new
or_insert-Positive none now rate h k = h
or_insert-Positive (some b) now rate h k = k

-- A reply that is not a panic.
abbrev pub Replies : Result Panic RateLimitResult → Type 0
Replies (ok r) = Unit
Replies (err p) = ⊥

Replies-reply :
    (c : RateLimitConfig) (reason : RateLimitReason) (t p : ℕ) (b : TokenBucket)
    → 0 < b.refill_rate
    → Replies (reply c reason (try_consume t p b))
unfolding reply try_consume refill time_until_available
Replies-reply c reason t p b h = ground arith

pub Replies-ok : (x : Result Panic RateLimitResult) → Replies x → (r : RateLimitResult) × (x ≡ ok r)
Replies-ok (ok r) h = (r, refl)
Replies-ok (err p) h = absurd h

consumed_rate : (t p : ℕ) (b : TokenBucket) → (try_consume t p b).0.refill_rate ≡ b.refill_rate
unfolding try_consume refill
consumed_rate t p b = ground arith

module _ (r : Readings) (ip : IpAddr) (l : RateLimiter) (h : IsRunning l) where
  seen_positive : 0 < (scanned r ip l).0.refill_rate
  unfolding detect_burst
  seen_positive =
      or_insert-Positive (l.ip_buckets ip) r.created l.config.max_rate_rpm h.ip_rate (h.ips ip)

  check_ip-IsRunning : IsRunning (check_ip r ip l).0
  unfolding consume_ip
  check_ip-IsRunning =
      check_ip_cases (λ x. IsRunning x.0) r ip l (λ left e. h)
        (λ e hit. record {
          ip_rate = h.ip_rate;
          source_rate = h.source_rate;
          ips = λ j.
              Positive-put (ip_eq ip j) (scanned r ip l).0 (l.ip_buckets j) seen_positive (h.ips j);
          sources = h.sources;
        })
        (λ e miss. record {
          ip_rate = h.ip_rate;
          source_rate = h.source_rate;
          ips = λ j.
              Positive-put (ip_eq ip j) _ (l.ip_buckets j)
                (rw (consumed_rate r.refilled r.pushed (scanned r ip l).0) seen_positive) (h.ips j);
          sources = h.sources;
        })

  check_ip-Replies : Replies (check_ip r ip l).1
  unfolding consume_ip
  check_ip-Replies =
      check_ip_cases (λ x. Replies x.1) r ip l (λ left e. tt) (λ e hit. tt)
        (λ e miss.
          Replies-reply l.config ip_rate_exceeded r.refilled r.pushed (scanned r ip l).0
            seen_positive)

module _ (s : SourceReadings) (key : String) (l : RateLimiter) (h : IsRunning l) where
  found_positive :
      0
      < (or_insert (l.source_buckets key) (new s.created l.config.max_rate_per_source)).refill_rate
  found_positive =
      or_insert-Positive (l.source_buckets key) s.created l.config.max_rate_per_source h.source_rate
        (h.sources key)

  check_key-IsRunning : IsRunning (check_key s key l).0
  unfolding check_key
  check_key-IsRunning = record {
    ip_rate = h.ip_rate;
    source_rate = h.source_rate;
    ips = h.ips;
    sources = λ j.
        Positive-put (key == j) _ (l.source_buckets j)
          (rw
            (consumed_rate s.refilled s.pushed
              (or_insert (l.source_buckets key) (new s.created l.config.max_rate_per_source)))
            found_positive)
          (h.sources j);
  }

  check_key-Replies : Replies (check_key s key l).1
  unfolding check_key
  check_key-Replies =
      Replies-reply l.config source_rate_exceeded s.refilled s.pushed _ found_positive

Replies-merge :
    (a : Result Panic RateLimitResult) (y : Reply) → Replies a → Replies y.1 → Replies (merge a y).1
unfolding merge
Replies-merge a (l, ok (allowed m n)) h k = h
Replies-merge a (l, ok (limited m n)) h k = tt
Replies-merge a (l, err p) h k = k

module _ (u : UrlLib) where
  then_source-IsRunning :
      (s : SourceReadings) (source : Option String) (x : Reply)
      → IsRunning x.0
      → IsRunning (then_source u s source x).0
  unfolding then_source check_source
  then_source-IsRunning s none (l, y) h = h
  then_source-IsRunning s (some source) (l, ok (allowed m n)) h =
      subst IsRunning
        (sym (merge_state (ok (allowed m n)) (check_key s (normalize_source_url u source) l)))
        (check_key-IsRunning s (normalize_source_url u source) l h)
  then_source-IsRunning s (some source) (l, ok (limited m n)) h = h
  then_source-IsRunning s (some source) (l, err p) h = h

  then_source-Replies :
      (s : SourceReadings) (source : Option String) (x : Reply)
      → IsRunning x.0
      → Replies x.1
      → Replies (then_source u s source x).1
  unfolding then_source check_source
  then_source-Replies s none (l, y) h k = k
  then_source-Replies s (some source) (l, ok (allowed m n)) h k =
      Replies-merge (ok (allowed m n)) (check_key s (normalize_source_url u source) l) tt
        (check_key-Replies s (normalize_source_url u source) l h)
  then_source-Replies s (some source) (l, ok (limited m n)) h k = tt
  then_source-Replies s (some source) (l, err p) h k = k

  after-IsRunning : (l : RateLimiter) (e : Event) → IsRunning l → IsRunning (after u l e)
  unfolding after check cleanup
  after-IsRunning l (request r s ip source) h =
      then_source-IsRunning s source (check_ip r ip l) (check_ip-IsRunning r ip l h)
  after-IsRunning l (sweep now) h = record {
    ip_rate = h.ip_rate;
    source_rate = h.source_rate;
    ips = λ j. Positive-keep _ (l.ip_buckets j) (h.ips j);
    sources = λ j. Positive-keep _ (l.source_buckets j) (h.sources j);
  }

  run-IsRunning : (l : RateLimiter) (es : List Event) → IsRunning l → IsRunning (run u l es)
  unfolding run
  run-IsRunning l [] h = h
  run-IsRunning l (e ∷ es) h = run-IsRunning (after u l e) es (after-IsRunning l e h)

  -- With positive rates, every check of a new limiter returns a reply, whatever checks and cleanups
  -- came before and whatever the clock reads: the wait that it computes is finite.
  pub check_replies :
      (config : RateLimitConfig) (es : List Event) (r : Readings) (s : SourceReadings) (ip : IpAddr)
      (source : Option String)
      → 0 < config.max_rate_rpm
      → 0 < config.max_rate_per_source
      → (result : RateLimitResult) × ((check u r s ip source (run u (new_limiter config) es)).1
          ≡ ok result)
  unfolding check new_limiter
  check_replies config es r s ip source h k =
      let l : RateLimiter = run u (new_limiter config) es in
      let start : IsRunning (new_limiter config) = record {
        ip_rate = h;
        source_rate = k;
        ips = λ j. tt;
        sources = λ j. tt;
      } in
      let running = run-IsRunning (new_limiter config) es start in
      Replies-ok _ (
        then_source-Replies s source (check_ip r ip l) (check_ip-IsRunning r ip l running)
          (check_ip-Replies r ip l running))

quiet_at_first : (t c : ℕ) (k : F32) (rate : ℕ) → (detect_burst t k (new c rate)).1 ≡ false
unfolding detect_burst new recent burst_threshold
quiet_at_first t c k rate = ground arith

zero_reply :
    (cfg : RateLimitConfig) (reason : RateLimitReason) (t c t' p : ℕ) (k : F32)
    → reply cfg reason (try_consume t' p (detect_burst t k (new c 0)).0) ≡ err duration_not_finite
unfolding reply try_consume refill time_until_available detect_burst new
zero_reply cfg reason t c t' p k = ground arith

then_source_err :
    (u : UrlLib) (s : SourceReadings) (source : Option String) (x : Reply) (p : Panic)
    → x.1 ≡ err p
    → (then_source u s source x).1 ≡ err p
unfolding then_source
then_source_err u s none (l, y) p h = h
then_source_err u s (some source) (l, ok (allowed a b)) p h = cc
then_source_err u s (some source) (l, ok (limited a b)) p h = cc
then_source_err u s (some source) (l, err q) p h = h

-- A rate of 0 panics: whatever the clock reads, the first check of an IP, not cooling, computes an
-- infinite wait for which no Duration exists.
pub zero_rate_panics :
    (u : UrlLib) (r : Readings) (s : SourceReadings) (ip : IpAddr) (source : Option String)
    (l : RateLimiter)
    → l.config.max_rate_rpm ≡ 0
    → l.ip_buckets ip ≡ none
    → l.cooldowns ip ≡ none
    → (check u r s ip source l).1 ≡ err duration_not_finite
unfolding check consume_ip cooling_left
zero_rate_panics u r s ip source l zero_rate fresh cool =
    then_source_err u s source (check_ip r ip l) duration_not_finite (
      check_ip_cases (λ x. x.1 ≡ err duration_not_finite) r ip l
        (λ left e. absurd (not_cooling left e)) (λ e hit. absurd (not_burst hit))
        (λ e miss.
          rw (fresh, zero_rate)
            (zero_reply l.config ip_rate_exceeded r.burst r.created r.refilled r.pushed
              l.config.burst_threshold_multiplier)))
  where
    not_cooling : (left : ℕ) → cooling_left (l.cooldowns ip) r.cooling ≡ some left → ⊥
    not_cooling left e = (let e' = rw (cool, cooling_left) at e in cc e')

    not_burst : (scanned r ip l).1 ≡ true → ⊥
    not_burst hit =
        (let hit' = rw fresh at hit in
          cc (
            hit',
            quiet_at_first r.burst r.created l.config.burst_threshold_multiplier
                l.config.max_rate_rpm,
          ))
