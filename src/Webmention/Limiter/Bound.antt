-- ===== src/Webmention/Limiter/Bound.antt =====
-- indieweb2-bastion/services/webmention-rate-limiter/src/limiter.rs: how many requests the limiter
-- lets through, whatever the history of checks and cleanups.
pub mod Slots
pub mod Checks
use native.Mathlib.Nat.{add-zero}
use civic_connect.Prelude.{
  ℕ, ◌+◌, ◌-◌, ◌*◌, ◌≤◌, String, ◌≡◌, refl, sym, subst, ◌∙◌, Bool, true, false, Option, none, some,
  List, [], ◌∷◌, arith, inl, inr, ok, err, Result, Bool-cases, if◌then◌else◌, ◌==◌, eq_iff, ◌&&◌,
}
use civic_connect.Webmention.Url.{IpAddr, UrlLib}
use civic_connect.Webmention.Limiter.Bucket.{TokenBucket, token}
use civic_connect.Webmention.Config.{RateLimitConfig}
use civic_connect.Webmention.Limiter.Rate.{
  sub_mul, one_if, SlotConforms, later-SlotConforms, keep-SlotConforms, spent_bound,
}
use civic_connect.Webmention.Limiter.Cases.{Reply, eq_of_ip_eq, ip_eq_refl}
use civic_connect.Webmention.Limiter.{
  ip_eq, RateLimiter, Readings, SourceReadings, new_limiter, check_ip, normalize_source_url,
  then_source, check, cleanup,
}
use Slots.{
  is_allowed, fewer-SlotConforms, one_if_mono, none_more, check_ip-SlotConforms, check_ip-other,
  source_buckets-check_ip, config-check_ip,
}
use Checks.{
  about, ip_buckets-then_source, config-then_source, is_allowed-then_source,
  then_source-SlotConforms,
}

-- A check of a request, with its readings of the clock, or the periodic cleanup.
pub data Event : Type 0 where
  request : Readings → SourceReadings → IpAddr → Option String → Event
  sweep : ℕ → Event

module _ (u : UrlLib) where
  unfoldable pub after : RateLimiter → Event → RateLimiter
  after l (request r s ip source) = (check u r s ip source l).0
  after l (sweep now) = cleanup now l

  unfoldable pub run : RateLimiter → List Event → RateLimiter
  run l [] = l
  run l (e ∷ es) = run (after l e) es

  -- The event is a request from the IP, and it is let through.
  unfoldable pub admits_ip : IpAddr → RateLimiter → Event → Bool
  admits_ip ip l (request r s from source) =
      ip_eq from ip && is_allowed (check u r s from source l).1
  admits_ip ip l (sweep now) = false

  -- The event is a request for a source URL that normalises to the key, and it is let through.
  unfoldable pub admits_source : String → RateLimiter → Event → Bool
  admits_source key l (request r s from source) =
      about u key source && is_allowed (check u r s from source l).1
  admits_source key l (sweep now) = false

  -- How many events of a history are let through.
  unfoldable pub admitted : (RateLimiter → Event → Bool) → RateLimiter → List Event → ℕ
  admitted admits l [] = 0
  admitted admits l (e ∷ es) = one_if (admits l e) + admitted admits (after l e) es

-- The readings of the clock of one event follow one another, from the time `now`.
abbrev pub Follows : ℕ → Event → Type 0
Follows now (request r s ip source) =
    (now ≤ r.created)
    × (r.created ≤ r.refilled)
    × (r.refilled ≤ s.created)
    × (s.created ≤ s.refilled)
Follows now (sweep later) = now ≤ later

-- The last reading of an event.
abbrev pub stamp : Event → ℕ
stamp (request r s ip source) = s.refilled
stamp (sweep later) = later

abbrev pub InOrder : ℕ → List Event → Type 0
InOrder now [] = Unit
InOrder now (e ∷ es) = Follows now e × InOrder (stamp e) es

abbrev pub finish : ℕ → List Event → ℕ
finish now [] = now
finish now (e ∷ es) = finish (stamp e) es

module _ (u : UrlLib) where
  pub config-after : (l : RateLimiter) (e : Event) → (after u l e).config ≡ l.config
  unfolding after check cleanup
  config-after l (request r s ip source) =
      config-then_source u s source (check_ip r ip l) ∙ config-check_ip r ip l
  config-after l (sweep later) = refl

  module _ (rate t0 : ℕ) where
    pub step_ip :
        (ip : IpAddr) (count now : ℕ) (l : RateLimiter) (e : Event)
        → l.config.max_rate_rpm ≡ rate
        → Follows now e
        → SlotConforms rate t0 count now (l.ip_buckets ip)
        → SlotConforms rate t0
            (count + one_if (admits_ip u ip l e))
            (stamp e)
            ((after u l e).ip_buckets ip)
    unfolding after admits_ip check cleanup
    step_ip ip count now l (request r s from source) cfg o c = elim (Bool-cases (ip_eq from ip)) [
      | inl same ↦
          (let e : ip ≡ from = sym (eq_of_ip_eq from ip same) in
            let own : SlotConforms rate t0 count now (l.ip_buckets from) =
              subst (λ x. SlotConforms rate t0 count now (l.ip_buckets x)) e c in
            let x : Reply = check_ip r from l in
            let slot : Option TokenBucket = x.0.ip_buckets from in
            let taken =
              later-SlotConforms rate t0 (count + one_if (is_allowed x.1)) r.refilled s.refilled
                slot (omega arith)
                (check_ip-SlotConforms rate t0 count r from l now cfg o.0 o.1 own) in
            rw (same, ip_buckets-then_source u s source x)
              (subst
                (λ y.
                  SlotConforms rate t0 (count + one_if (is_allowed (then_source u s source x).1))
                    s.refilled (x.0.ip_buckets y))
                (sym e)
                (fewer-SlotConforms rate t0 _ (count + one_if (is_allowed x.1)) s.refilled slot
                  (omega (
                    arith,
                    one_if_mono (is_allowed (then_source u s source x).1) (is_allowed x.1)
                        (is_allowed-then_source u s source x),
                  ))
                  taken)))
      | inr other ↦
          rw
            (
              other,
              ip_buckets-then_source u s source (check_ip r from l),
              check_ip-other r ip from l other,
            )
            (none_more rate t0 count s.refilled (l.ip_buckets ip)
              (later-SlotConforms rate t0 count now s.refilled (l.ip_buckets ip) (omega arith) c))
    ]
    step_ip ip count now l (sweep later) cfg o c =
        none_more rate t0 count later _
          (keep-SlotConforms rate t0 count now later later (l.ip_buckets ip) o (omega arith) c)

    run_ip :
        (ip : IpAddr) (count now : ℕ) (l : RateLimiter) (es : List Event)
        → l.config.max_rate_rpm ≡ rate
        → InOrder now es
        → SlotConforms rate t0 count now (l.ip_buckets ip)
        → (count + admitted u (admits_ip u ip) l es) * token + t0 * rate
          ≤ rate * token + finish now es * rate
    unfolding admitted
    run_ip ip count now l [] cfg o c =
        omega (arith, spent_bound rate t0 count now (l.ip_buckets ip) c)
    run_ip ip count now l (e ∷ es) cfg o c = omega (
      arith,
      run_ip ip (count + one_if (admits_ip u ip l e)) (stamp e) (after u l e) es
          (rw (config-after l e) cfg) o.1 (step_ip ip count now l e cfg o.0 c),
    )

    step_source :
        (key : String) (count now : ℕ) (l : RateLimiter) (e : Event)
        → l.config.max_rate_per_source ≡ rate
        → Follows now e
        → SlotConforms rate t0 count now (l.source_buckets key)
        → SlotConforms rate t0
            (count + one_if (admits_source u key l e))
            (stamp e)
            ((after u l e).source_buckets key)
    unfolding after admits_source check cleanup
    step_source key count now l (request r s ip source) cfg o c =
        then_source-SlotConforms u s rate t0 count key source (check_ip r ip l) now
          (rw (config-check_ip r ip l) cfg) (omega arith) o.3
          (rw (source_buckets-check_ip r ip l) c)
    step_source key count now l (sweep later) cfg o c =
        none_more rate t0 count later _
          (keep-SlotConforms rate t0 count now later later (l.source_buckets key) o (omega arith) c)

    run_source :
        (key : String) (count now : ℕ) (l : RateLimiter) (es : List Event)
        → l.config.max_rate_per_source ≡ rate
        → InOrder now es
        → SlotConforms rate t0 count now (l.source_buckets key)
        → (count + admitted u (admits_source u key) l es) * token + t0 * rate
          ≤ rate * token + finish now es * rate
    unfolding admitted
    run_source key count now l [] cfg o c =
        omega (arith, spent_bound rate t0 count now (l.source_buckets key) c)
    run_source key count now l (e ∷ es) cfg o c = omega (
      arith,
      run_source key (count + one_if (admits_source u key l e)) (stamp e) (after u l e) es
          (rw (config-after l e) cfg) o.1 (step_source key count now l e cfg o.0 c),
    )

le-finish : (now : ℕ) (es : List Event) → InOrder now es → now ≤ finish now es
le-finish now [] o = omega arith
le-finish now (request r s ip source ∷ es) o = omega (arith, o.0, le-finish s.refilled es o.1)
le-finish now (sweep later ∷ es) o = omega (arith, o.0, le-finish later es o.1)

module _ (u : UrlLib) (config : RateLimitConfig) (t0 : ℕ) (es : List Event)
    (o : InOrder t0 es) where
  -- The rate of one IP: over any history of checks and cleanups of a new limiter, from the time `t0`
  -- and with readings of the clock in order, the requests of an IP that are let through number at
  -- most max_rate_rpm and max_rate_rpm for each minute of the history. (A token is 60 * 10 ^ 9 units,
  -- one for each nanosecond of a minute.)
  pub ip_bound :
      (ip : IpAddr)
      → admitted u (admits_ip u ip) (new_limiter config) es * token
        ≤ config.max_rate_rpm * token + (finish t0 es - t0) * config.max_rate_rpm
  unfolding new_limiter
  ip_bound ip = omega (
    arith,
    run_ip u config.max_rate_rpm t0 ip 0 t0 (new_limiter config) es refl o (omega arith),
    sub_mul config.max_rate_rpm t0 (finish t0 es) (le-finish t0 es o),
  )

  -- The rate of one source: over any history of checks and cleanups of a new limiter, from the time
  -- `t0` and with readings of the clock in order, the requests for source URLs of one normal form
  -- that are let through number at most max_rate_per_source and max_rate_per_source for each minute of
  -- the history.
  pub source_bound :
      (key : String)
      → admitted u (admits_source u key) (new_limiter config) es * token
        ≤ config.max_rate_per_source * token + (finish t0 es - t0) * config.max_rate_per_source
  unfolding new_limiter
  source_bound key = omega (
    arith,
    run_source u config.max_rate_per_source t0 key 0 t0 (new_limiter config) es refl o
        (omega arith),
    sub_mul config.max_rate_per_source t0 (finish t0 es) (le-finish t0 es o),
  )
