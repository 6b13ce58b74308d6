-- ===== src/Webmention/Limiter/Retry.antt =====
-- indieweb2-bastion/services/webmention-rate-limiter/src/limiter.rs: the time that a limited request
-- is told to wait, and the rate of 0.
use native.Mathlib.Nat.{div-add-mod', mod-lt}
use civic_connect.Webmention.Limiter.Rate.{mul_mono}
use civic_connect.Prelude.{
  ℕ, zero, suc, ◌+◌, ◌-◌, ◌*◌, ◌/◌, ◌%◌, ◌≤◌, ◌<◌, ◌≡◌, ◌⊎◌, inl, inr, true, false, arith, ok,
}
use civic_connect.Webmention.Limiter.Bucket.{
  TokenBucket, token, refill, try_consume, nearest, time_until_available,
}

parity : (q : ℕ) → (q + q % 2 ≡ q) ⊎ (q + q % 2 ≡ q + 1)
parity q = omega arith

nearest_cases :
    (n d : ℕ)
    → ((nearest n d ≡ n / d) × (2 * (n % d) ≤ d)) ⊎ ((nearest n d ≡ n / d + 1) × (d ≤ 2 * (n % d)))
unfolding nearest
nearest_cases n d = ground (arith, parity (n / d))

-- Rounding to the nearest is off by half a divisor at most.
nearest_bounds :
    (n d : ℕ) → 0 < d → (2 * n ≤ 2 * (nearest n d * d) + d) × (2 * (nearest n d * d) ≤ 2 * n + d)
nearest_bounds n d h = elim (nearest_cases n d) [
  | inl down ↦ rw down.0 (omega (arith, div-add-mod' n d, down.1))
  | inr up ↦ rw up.0 (omega (arith, div-add-mod' n d, up.1, mod-lt n {m = d} h))
]

elapsed_small : (r l t w : ℕ) → t < l + w → ((t - l) * r ≡ 0) ⊎ ((t - l) * r + r ≤ w * r)
elapsed_small r l t zero h = inl (let e : t - l ≡ 0 = omega arith in rw e (omega arith))
elapsed_small r l t (suc w) h = inr (omega (arith, mul_mono r (t - l) w (omega arith)))

told_nearest :
    (b : TokenBucket) (wait : ℕ)
    → b.tokens < token
    → time_until_available b ≡ ok wait
    → (0 < b.refill_rate) × (nearest (token - b.tokens) b.refill_rate ≡ wait)
unfolding time_until_available
told_nearest b wait less told = (ground arith, ground arith)

-- A bucket that refuses a token is told a time `wait` that is exact: a request more than `wait` after
-- the last refill finds a token, and a request less than `wait` after it finds none. (The capacity is
-- at least one token; times are nanoseconds.)
pub retry_after_exact :
    (b : TokenBucket) (wait t p : ℕ)
    → token ≤ b.max_tokens
    → b.tokens < token
    → time_until_available b ≡ ok wait
    → (b.last_refill + wait < t → (try_consume t p b).1 ≡ true)
      × (t < b.last_refill + wait → (try_consume t p b).1 ≡ false)
unfolding try_consume refill
retry_after_exact b wait t p room less told =
    let (pos, near) = told_nearest b wait less told in
    let bounds = nearest_bounds (token - b.tokens) b.refill_rate pos in
    (
      λ late. ground (
        arith,
        near,
        bounds,
        mul_mono b.refill_rate (wait + 1) (t - b.last_refill) (omega arith),
      ),
      λ early.
          ground (arith, near, bounds, pos, elapsed_small b.refill_rate b.last_refill t wait early),
    )
