-- ===== src/Webmention/Limiter/Interleaved.antt =====
-- indieweb2-bastion/services/webmention-rate-limiter/src/limiter.rs: checks that interleave. A check
-- takes the locks of its tables one after the other: it reads the cooldowns, then it holds the buckets
-- of IPs, then those of sources; a cleanup holds the three tables one after the other. What happens
-- under one lock is one action, and the actions of different tasks come in any order.
pub mod Load
pub mod Bound
use civic_connect.Prelude.{
  ℕ, zero, suc, ◌-◌, ◌≤◌, String, Option, none, some, max, List, [], ◌∷◌, ltb, Result, ok,
}
use native.Mathlib.Omega.{arith}
use civic_connect.Webmention.Url.{IpAddr, UrlLib}
use civic_connect.Webmention.Limiter.Bucket.{Panic}
use civic_connect.Webmention.Limiter.{
  burst_cooldown, RateLimitResult, allowed, limited, RateLimiter, Readings, SourceReadings,
  cooling_left, check_bucket, check_source, merge, stale_threshold,
}
use civic_connect.Prelude.Table.{retain}

-- A check between two of its locks: it has seen that the IP is not cooling, or `check_ip` let it
-- through and the source URL is still to be checked.
pub data Flight : Type 0 where
  looked : IpAddr → Option String → Flight
  granted : IpAddr → String → ℕ → ℕ → Flight

-- The limiter, the checks under way, and the replies so far.
pub record Pool : Type 0 where
  pub limiter : RateLimiter
  pub flights : List Flight
  pub replies : List (IpAddr × Result Panic RateLimitResult)

-- A check begins, and reads the clock; the check under way with this number goes on, with the readings
-- of the lock that it takes; a cleanup holds one of the tables.
pub data Action : Type 0 where
  begin : ℕ → IpAddr → Option String → Action
  go_on : ℕ → Readings → SourceReadings → Action
  sweep_ips sweep_sources sweep_cooldowns : ℕ → Action

-- The flight of a number, and the others.
abbrev pub resume : ℕ → List Flight → Option (Flight × List Flight)
resume i [] = none
resume zero (f ∷ fs) = some (f, fs)
resume (suc i) (f ∷ fs) = elim (resume i fs) [ none ↦ none | some (g, gs) ↦ some (g, f ∷ gs) ]

abbrev pub replied : IpAddr → Result Panic RateLimitResult → Pool → Pool
replied ip result p = record p { replies = (ip, result) ∷ p.replies }

abbrev pub underway : Flight → Pool → Pool
underway f p = record p { flights = f ∷ p.flights }

-- How a check goes on from the reply for its IP.
unfoldable pub after_ip : IpAddr → Option String → Result Panic RateLimitResult → Pool → Pool
after_ip ip (some source) (ok (allowed remaining reset_in)) p =
    underway (granted ip source remaining reset_in) p
after_ip ip source result p = replied ip result p

unfoldable pub look : ℕ → IpAddr → Option String → Pool → Pool
look now ip source p = elim (cooling_left (p.limiter.cooldowns ip) now) [
  | some left ↦ replied ip (ok (limited burst_cooldown left)) p
  | none ↦ underway (looked ip source) p
]

module _ (u : UrlLib) where
  unfoldable pub advance : Readings → SourceReadings → Flight → Pool → Pool
  unfolding after_ip
  advance r s (looked ip source) p =
      let x = check_bucket r ip p.limiter in after_ip ip source x.1 (record p { limiter = x.0 })
  advance r s (granted ip source remaining reset_in) p =
      let x = merge (ok (allowed remaining reset_in)) (check_source u s source p.limiter) in
      replied ip x.1 (record p { limiter = x.0 })

  abbrev pub resumed : Readings → SourceReadings → Option (Flight × List Flight) → Pool → Pool
  resumed r s none p = p
  resumed r s (some (f, fs)) p = advance r s f (record p { flights = fs })

  unfoldable pub act : Pool → Action → Pool
  unfolding advance look
  act p (begin now ip source) = look now ip source p
  act p (go_on i r s) = resumed r s (resume i p.flights) p
  act p (sweep_ips now) =
      let l = p.limiter in
      record p {
        limiter = record l {
          ip_buckets = retain (λ b. ltb (now - b.last_refill) stale_threshold) l.ip_buckets;
        };
      }
  act p (sweep_sources now) =
      let l = p.limiter in
      record p {
        limiter = record l {
          source_buckets = retain (λ b. ltb (now - b.last_refill) stale_threshold) l.source_buckets;
        };
      }
  act p (sweep_cooldowns now) =
      let l = p.limiter in
      record p { limiter = record l { cooldowns = retain (λ until. ltb now until) l.cooldowns } }

  unfoldable pub act_all : Pool → List Action → Pool
  act_all p [] = p
  act_all p (x ∷ xs) = act_all (act p x) xs

abbrev pub quiet : RateLimiter → Pool
quiet l = record { limiter = l; flights = []; replies = [] }

-- The readings of the clock under the lock of the buckets of IPs follow one another, from the time
-- `now`. Those under the other locks may be any; a check that waits for its source reads none under
-- this lock, so that any time stands for it. A cleanup has read the clock before it takes the lock,
-- so that checks may have read a later time.
abbrev pub Follows : ℕ → Action → Type 0
Follows now (go_on i r s) = (now ≤ r.created) × (r.created ≤ r.refilled)
Follows now x = Unit

abbrev pub stamp : ℕ → Action → ℕ
stamp now (go_on i r s) = r.refilled
stamp now (sweep_ips read) = max now read
stamp now x = now

abbrev pub InOrder : ℕ → List Action → Type 0
InOrder now [] = Unit
InOrder now (x ∷ xs) = Follows now x × InOrder (stamp now x) xs

abbrev pub finish : ℕ → List Action → ℕ
finish now [] = now
finish now (x ∷ xs) = finish (stamp now x) xs

le-stamp : (now : ℕ) (x : Action) → Follows now x → now ≤ stamp now x
le-stamp now (begin at from source) o = omega arith
le-stamp now (go_on i r s) o = omega (arith, o.0, o.1)
le-stamp now (sweep_ips read) o = ground arith
le-stamp now (sweep_sources read) o = omega arith
le-stamp now (sweep_cooldowns read) o = omega arith

pub le-finish : (now : ℕ) (xs : List Action) → InOrder now xs → now ≤ finish now xs
le-finish now [] o = omega arith
le-finish now (x ∷ xs) o = omega (arith, le-stamp now x o.0, le-finish (stamp now x) xs o.1)
