-- ===== src/Webmention/Limiter/Interleaved/Load.antt =====
-- indieweb2-bastion/services/webmention-rate-limiter/src/limiter.rs: the tokens that checks under way
-- and replies account for.
use civic_connect.Prelude.{
  ℕ, zero, suc, ◌+◌, String, ◌≡◌, refl, sym, ap, ◌∙◌, inl, inr, true, ◌&&◌, Option, none, some,
  List, [], ◌∷◌, Bool-cases, Option-cases, Result, ok, err,
}
use native.Mathlib.Omega.{arith}
use civic_connect.Webmention.Url.{IpAddr}
use civic_connect.Webmention.Limiter.Bucket.{Panic}
use civic_connect.Webmention.Limiter.Rate.{one_if}
use civic_connect.Webmention.Limiter.Cases.{Reply, scanned}
use civic_connect.Webmention.Limiter.Bound.Slots.{is_allowed, config-check_ip}
use civic_connect.Webmention.Limiter.{
  ip_eq, RateLimitResult, allowed, limited, RateLimiter, Readings, cooling_left, check_ip,
  check_bucket, consume_ip, merge,
}
use civic_connect.Webmention.Limiter.Interleaved.{Flight, looked, granted, Pool, resume, after_ip}
use civic_connect.Prelude.Table.{new_table}

-- The bucket of an IP does not depend on the cooldowns.
pub record SameBuckets (x y : Reply) : Type 0 where
  pub buckets : x.0.ip_buckets ≡ y.0.ip_buckets
  pub result : x.1 ≡ y.1
  pub config : x.0.config ≡ y.0.config

pub check_bucket-check_ip :
    (r : Readings) (ip : IpAddr) (l : RateLimiter)
    → SameBuckets (check_ip r ip (record l { cooldowns = new_table })) (check_bucket r ip l)
unfolding check_ip check_bucket cooling_left consume_ip
check_bucket-check_ip r ip l = elim (Bool-cases (scanned r ip l).1) [
  | inl hit ↦ record { buckets = rw hit refl; result = rw hit refl; config = rw hit refl }
  | inr miss ↦ record { buckets = rw miss refl; result = rw miss refl; config = rw miss refl }
]

pub config-check_bucket :
    (r : Readings) (ip : IpAddr) (l : RateLimiter)
    → (check_bucket r ip l).0.config.max_rate_rpm ≡ l.config.max_rate_rpm
config-check_bucket r ip l =
    ap (λ c. c.max_rate_rpm)
      (sym (check_bucket-check_ip r ip l).config
        ∙ config-check_ip r ip (record l { cooldowns = new_table }))

abbrev pub weight : IpAddr → Flight → ℕ
weight ip (looked from source) = 0
weight ip (granted from source remaining reset_in) = one_if (ip_eq from ip)

-- How many of the checks under way were let through for the IP.
abbrev pub load : IpAddr → List Flight → ℕ
load ip [] = 0
load ip (f ∷ fs) = weight ip f + load ip fs

-- How many requests of the IP were let through.
abbrev pub let_through : IpAddr → List (IpAddr × Result Panic RateLimitResult) → ℕ
let_through ip [] = 0
let_through ip ((from, x) ∷ xs) = one_if (ip_eq from ip && is_allowed x) + let_through ip xs

abbrev pub tokens_taken : IpAddr → Pool → ℕ
tokens_taken ip p = let_through ip p.replies + load ip p.flights

pub load-resume :
    (ip : IpAddr) (i : ℕ) (fs rest : List Flight) (f : Flight)
    → resume i fs ≡ some (f, rest)
    → load ip fs ≡ weight ip f + load ip rest
load-resume ip i [] rest f h = absurd (cc h)
load-resume ip zero (g ∷ fs) rest f h =
    let same : ◌≡◌ {A = Flight × List Flight} (g, fs) (f, rest) = cc h in
    ap (λ x. weight ip x.0 + load ip x.1) same
load-resume ip (suc i) (g ∷ fs) rest f h = elim (Option-cases (resume i fs)) [
  | inl gone ↦ absurd (let h' = rw (gone, resume) at h in cc h')
  | inr ((k, ks), e) ↦
      let h' = rw (e, resume) at h in
      let same : ◌≡◌ {A = Flight × List Flight} (k, g ∷ ks) (f, rest) = cc h' in
      omega (
        arith,
        load-resume ip i fs ks k e,
        ap (λ (x : Flight × List Flight). weight ip x.0 + load ip x.1) same,
      )
]

pub tokens_taken-after_ip :
    (ip from : IpAddr) (source : Option String) (x : Result Panic RateLimitResult) (p : Pool)
    → tokens_taken ip (after_ip from source x p)
      ≡ tokens_taken ip p + one_if (ip_eq from ip && is_allowed x)
unfolding after_ip
tokens_taken-after_ip ip from (some source) (ok (allowed m n)) p = ground arith
tokens_taken-after_ip ip from (some source) (ok (limited m n)) p = omega arith
tokens_taken-after_ip ip from (some source) (err e) p = omega arith
tokens_taken-after_ip ip from none x p = omega arith

pub limiter-after_ip :
    (from : IpAddr) (source : Option String) (x : Result Panic RateLimitResult) (p : Pool)
    → (after_ip from source x p).limiter ≡ p.limiter
unfolding after_ip
limiter-after_ip from (some source) (ok (allowed m n)) p = refl
limiter-after_ip from (some source) (ok (limited m n)) p = refl
limiter-after_ip from (some source) (err e) p = refl
limiter-after_ip from none x p = refl

pub is_allowed-merge :
    (m n : ℕ) (x : Reply) → is_allowed (merge (ok (allowed m n)) x).1 ≡ true → is_allowed x.1 ≡ true
unfolding merge
is_allowed-merge m n (l, ok (allowed a b)) h = refl
is_allowed-merge m n (l, ok (limited a b)) h = h
is_allowed-merge m n (l, err e) h = h

pub limiter-merge : (x : Result Panic RateLimitResult) (y : Reply) → (merge x y).0 ≡ y.0
unfolding merge
limiter-merge x (l, ok (allowed a b)) = refl
limiter-merge x (l, ok (limited a b)) = refl
limiter-merge x (l, err e) = refl
