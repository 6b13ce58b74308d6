-- ===== src/Webmention/Limiter/Rate.antt =====
-- indieweb2-bastion/services/webmention-rate-limiter/src/limiter.rs: the rate of one bucket.
use civic_connect.Prelude.{
  ℕ, ◌+◌, ◌-◌, ◌*◌, ◌≤◌, ◌≡◌, refl, ap, Bool-cases, inl, inr, ltb, Bool, true, false, arith, Option,
  none, some,
}
use civic_connect.Prelude.Table.{or_insert, keep}
use civic_connect.Webmention.Config.{F32}
use civic_connect.Webmention.Limiter.Bucket.{
  TokenBucket, token, new, refill, try_consume, detect_burst,
}

-- Elapsed time, multiplied by the rate.
pub sub_mul : (r l t : ℕ) → l ≤ t → (t - l) * r + l * r ≡ t * r
sub_mul r l t h = let e : (t - l) + l ≡ t = omega arith in omega (arith, ap (λ (x : ℕ). x * r) e)

pub mul_mono : (r a b : ℕ) → a ≤ b → a * r ≤ b * r
mul_mono r a b h = grind arith

-- Since the time `t0`, `count` tokens were taken from a bucket of this rate, at most those that it
-- held and those that came in.
pub record Conforms (rate t0 count : ℕ) (b : TokenBucket) : Type 0 where
  pub refills : b.refill_rate ≡ rate
  pub capacity : b.max_tokens ≡ rate * token
  pub full : b.tokens ≤ rate * token
  pub spent : count * token + b.tokens + t0 * rate ≤ rate * token + b.last_refill * rate

abbrev pub one_if : Bool → ℕ
one_if true = 1
one_if false = 0

module _ (rate t0 count : ℕ) where
  pub try_consume-Conforms :
      (t p : ℕ) (b : TokenBucket)
      → b.last_refill ≤ t
      → Conforms rate t0 count b
      → Conforms rate t0 (count + one_if (try_consume t p b).1) (try_consume t p b).0
  unfolding try_consume refill
  try_consume-Conforms t p b h c = record {
    refills = ground (arith, c.refills);
    capacity = ground (arith, c.capacity);
    full = ground (arith, c.full, c.capacity);
    spent = ground (arith, c.spent, c.refills, c.capacity, sub_mul rate b.last_refill t h);
  }

  pub detect_burst-Conforms :
      (t : ℕ) (k : F32) (b : TokenBucket)
      → Conforms rate t0 count b
      → Conforms rate t0 count (detect_burst t k b).0
  unfolding detect_burst
  detect_burst-Conforms t k b c = record {
    refills = c.refills;
    capacity = c.capacity;
    full = c.full;
    spent = c.spent;
  }

  -- The same of an entry of a table at the time `now`: an absent bucket stands for a full one.
  abbrev pub SlotConforms : ℕ → Option TokenBucket → Type 0
  SlotConforms now none = count * token + t0 * rate ≤ now * rate
  SlotConforms now (some b) = Conforms rate t0 count b × (b.last_refill ≤ now)

  -- The bucket that a request finds or makes.
  pub or_insert-Conforms :
      (now created : ℕ) (slot : Option TokenBucket)
      → now ≤ created
      → SlotConforms now slot
      → SlotConforms created (some (or_insert slot (new created rate)))
  unfolding new
  or_insert-Conforms now created none h c = (
    record {
      refills = refl;
      capacity = refl;
      full = omega arith;
      spent = omega (arith, mul_mono rate now created h);
    },
    omega arith,
  )
  or_insert-Conforms now created (some b) h c = (c.0, omega arith)

  pub later-SlotConforms :
      (now later : ℕ) (slot : Option TokenBucket)
      → now ≤ later
      → SlotConforms now slot
      → SlotConforms later slot
  later-SlotConforms now later none h c = omega (arith, mul_mono rate now later h)
  later-SlotConforms now later (some b) h c = (c.0, omega arith)

  -- `cleanup` drops a bucket only after it has refilled, also when its reading `read` of the clock is
  -- not the latest.
  pub keep-SlotConforms :
      (now read later : ℕ) (slot : Option TokenBucket)
      → now ≤ later
      → read ≤ later
      → SlotConforms now slot
      → SlotConforms later
          (keep (λ (b : TokenBucket). ltb (read - b.last_refill) (300 * 1000000000)) slot)
  keep-SlotConforms now read later none h g c = omega (arith, mul_mono rate now later h)
  keep-SlotConforms now read later (some b) h g c =
      elim (Bool-cases (ltb (read - b.last_refill) (300 * 1000000000))) [
        | inl kept ↦ rw kept (c.0, omega arith)
        | inr dropped ↦
            (let late : b.last_refill + 300 * 1000000000 ≤ later = ground (arith, g) in
              let spent = c.0.spent in
              rw dropped
                (omega (arith, spent, mul_mono rate (b.last_refill + 300 * 1000000000) later late)))
      ]

  -- What is spent by the time `now` is at most the capacity and what came in.
  pub spent_bound :
      (now : ℕ) (slot : Option TokenBucket)
      → SlotConforms now slot
      → count * token + t0 * rate ≤ rate * token + now * rate
  spent_bound now none c = omega arith
  spent_bound now (some b) c =
      let spent = c.0.spent in omega (arith, spent, mul_mono rate b.last_refill now c.1)
