-- ===== src/Webmention/Limiter/Bound/Checks.antt =====
-- indieweb2-bastion/services/webmention-rate-limiter/src/limiter.rs: what one whole check does to the
-- buckets of one IP and of one source.
use civic_connect.Prelude.{
  ℕ, ◌+◌, ◌≤◌, String, ◌≡◌, refl, sym, subst, Bool, true, false, Option, none, some, arith, inl,
  inr, ok, err, Result, Bool-cases, ◌&&◌, ◌==◌, eq_iff,
}
use civic_connect.Prelude.Table.{or_insert}
use civic_connect.Webmention.Url.{UrlLib}
use civic_connect.Webmention.Limiter.Bucket.{TokenBucket, Panic, new, try_consume}
use civic_connect.Webmention.Limiter.Rate.{
  one_if, SlotConforms, try_consume-Conforms, or_insert-Conforms, later-SlotConforms,
}
use civic_connect.Webmention.Limiter.Cases.{Reply}
use civic_connect.Webmention.Limiter.{
  source_rate_exceeded, RateLimitResult, allowed, limited, RateLimiter, SourceReadings, check_key,
  check_source, normalize_source_url, merge, then_source,
}
use civic_connect.Webmention.Limiter.Bound.Slots.{
  is_allowed, is_allowed-reply, fewer-SlotConforms, refilled_at, none_more,
}

check_key-SlotConforms :
    (rate t0 count : ℕ) (s : SourceReadings) (key : String) (l : RateLimiter) (now : ℕ)
    → l.config.max_rate_per_source ≡ rate
    → now ≤ s.created
    → s.created ≤ s.refilled
    → SlotConforms rate t0 count now (l.source_buckets key)
    → SlotConforms rate t0
        (count + one_if (is_allowed (check_key s key l).1))
        s.refilled
        ((check_key s key l).0.source_buckets key)
unfolding check_key
check_key-SlotConforms rate t0 count s key l now cfg h k c =
    let seen : TokenBucket =
      or_insert (l.source_buckets key) (new s.created l.config.max_rate_per_source) in
    let found : SlotConforms rate t0 count s.created (some seen) =
      rw cfg (or_insert-Conforms rate t0 count now s.created (l.source_buckets key) h c) in
    rw
      (
        (eq_iff key key).1 refl,
        is_allowed-reply l.config source_rate_exceeded (try_consume s.refilled s.pushed seen),
      )
      (rw (refilled_at s.refilled s.pushed seen) (
        try_consume-Conforms rate t0 count s.refilled s.pushed seen (omega (arith, found.1))
            found.0,
        omega arith,
      ))

check_key_same :
    (rate t0 count : ℕ) (s : SourceReadings) (own key : String) (l : RateLimiter) (now : ℕ)
    → l.config.max_rate_per_source ≡ rate
    → now ≤ s.created
    → s.created ≤ s.refilled
    → (own == key) ≡ true
    → SlotConforms rate t0 count now (l.source_buckets key)
    → SlotConforms rate t0
        (count + one_if (is_allowed (check_key s own l).1))
        s.refilled
        ((check_key s own l).0.source_buckets key)
check_key_same rate t0 count s own key l now cfg h k same c =
    let e : key ≡ own = sym ((eq_iff own key).0 same) in
    subst
      (λ x.
        SlotConforms rate t0 (count + one_if (is_allowed (check_key s own l).1)) s.refilled
          ((check_key s own l).0.source_buckets x))
      (sym e)
      (check_key-SlotConforms rate t0 count s own l now cfg h k
        (subst (λ x. SlotConforms rate t0 count now (l.source_buckets x)) e c))

check_key-other :
    (s : SourceReadings) (own key : String) (l : RateLimiter)
    → (own == key) ≡ false
    → (check_key s own l).0.source_buckets key ≡ l.source_buckets key
unfolding check_key
check_key-other s own key l other = rw other

-- The request names a source whose normal form is the key.
abbrev pub about : UrlLib → String → Option String → Bool
about u key none = false
about u key (some source) = normalize_source_url u source == key

pub merge_state : (a : Result Panic RateLimitResult) (y : Reply) → (merge a y).0 ≡ y.0
unfolding merge
merge_state a (l, ok (allowed m n)) = refl
merge_state a (l, ok (limited m n)) = refl
merge_state a (l, err p) = refl

is_allowed-merge :
    (m n : ℕ) (y : Reply) → is_allowed (merge (ok (allowed m n)) y).1 ≡ is_allowed y.1
unfolding merge
is_allowed-merge m n (l, ok (allowed a b)) = refl
is_allowed-merge m n (l, ok (limited a b)) = refl
is_allowed-merge m n (l, err p) = refl

module _ (u : UrlLib) (s : SourceReadings) where
  pub ip_buckets-then_source :
      (source : Option String) (x : Reply)
      → (then_source u s source x).0.ip_buckets ≡ x.0.ip_buckets
  unfolding then_source check_source check_key
  ip_buckets-then_source none (l, y) = refl
  ip_buckets-then_source (some source) (l, ok (allowed a b)) =
      rw (merge_state (ok (allowed a b)) (check_source u s source l))
  ip_buckets-then_source (some source) (l, ok (limited a b)) = refl
  ip_buckets-then_source (some source) (l, err p) = refl

  pub config-then_source :
      (source : Option String) (x : Reply) → (then_source u s source x).0.config ≡ x.0.config
  unfolding then_source check_source check_key
  config-then_source none (l, y) = refl
  config-then_source (some source) (l, ok (allowed a b)) =
      rw (merge_state (ok (allowed a b)) (check_source u s source l))
  config-then_source (some source) (l, ok (limited a b)) = refl
  config-then_source (some source) (l, err p) = refl

  pub is_allowed-then_source :
      (source : Option String) (x : Reply)
      → is_allowed (then_source u s source x).1 ≡ true
      → is_allowed x.1 ≡ true
  unfolding then_source
  is_allowed-then_source none (l, y) h = h
  is_allowed-then_source (some source) (l, ok (allowed a b)) h = refl
  is_allowed-then_source (some source) (l, ok (limited a b)) h = h
  is_allowed-then_source (some source) (l, err p) h = h

  pub then_source-SlotConforms :
      (rate t0 count : ℕ) (key : String) (source : Option String) (x : Reply) (now : ℕ)
      → x.0.config.max_rate_per_source ≡ rate
      → now ≤ s.created
      → s.created ≤ s.refilled
      → SlotConforms rate t0 count now (x.0.source_buckets key)
      → SlotConforms rate t0
          (count + one_if (about u key source && is_allowed (then_source u s source x).1))
          s.refilled
          ((then_source u s source x).0.source_buckets key)
  unfolding then_source check_source
  then_source-SlotConforms rate t0 count key none (l, y) now cfg h k c =
      none_more rate t0 count s.refilled (l.source_buckets key)
        (later-SlotConforms rate t0 count now s.refilled (l.source_buckets key) (omega arith) c)
  then_source-SlotConforms rate t0 count key (some source) (l, ok (allowed a b)) now cfg h k c =
      rw
        (
          merge_state (ok (allowed a b)) (check_key s (normalize_source_url u source) l),
          is_allowed-merge a b (check_key s (normalize_source_url u source) l),
        )
        (elim (Bool-cases (normalize_source_url u source == key)) [
          | inl same ↦ rw same (
              check_key_same rate t0 count s (normalize_source_url u source) key l now cfg h k same
                c)
          | inr other ↦
              rw (other, check_key-other s (normalize_source_url u source) key l other)
                (none_more rate t0 count s.refilled (l.source_buckets key) (
                  later-SlotConforms rate t0 count now s.refilled (l.source_buckets key)
                    (omega arith) c))
        ])
  then_source-SlotConforms rate t0 count key (some source) (l, ok (limited a b)) now cfg h k c =
      let b = normalize_source_url u source == key in
      let later =
        later-SlotConforms rate t0 count now s.refilled (l.source_buckets key) (omega arith) c in
      fewer-SlotConforms rate t0 (count + one_if (b && false)) count s.refilled
        (l.source_buckets key) (ground arith) later
  then_source-SlotConforms rate t0 count key (some source) (l, err p) now cfg h k c =
      let b = normalize_source_url u source == key in
      let later =
        later-SlotConforms rate t0 count now s.refilled (l.source_buckets key) (omega arith) c in
      fewer-SlotConforms rate t0 (count + one_if (b && false)) count s.refilled
        (l.source_buckets key) (ground arith) later
