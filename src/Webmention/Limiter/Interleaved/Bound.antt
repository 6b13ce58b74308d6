-- ===== src/Webmention/Limiter/Interleaved/Bound.antt =====
-- indieweb2-bastion/services/webmention-rate-limiter/src/limiter.rs: how many requests of an IP are let
-- through when checks interleave.
use civic_connect.Prelude.{
  ℕ, ◌+◌, ◌-◌, ◌*◌, ◌≤◌, max, String, ◌≡◌, refl, sym, ap, subst, ◌∙◌, inl, inr, ◌&&◌, Option, List,
  [], ◌∷◌, Bool-cases, Option-cases, ok,
}
use native.Mathlib.Omega.{arith}
use civic_connect.Webmention.Url.{IpAddr, UrlLib}
use civic_connect.Webmention.Config.{RateLimitConfig}
use civic_connect.Webmention.Limiter.Bucket.{token}
use civic_connect.Webmention.Limiter.Rate.{
  sub_mul, one_if, SlotConforms, later-SlotConforms, keep-SlotConforms, spent_bound,
}
use civic_connect.Webmention.Limiter.Cases.{Reply, eq_of_ip_eq}
use civic_connect.Webmention.Limiter.Bound.Slots.{
  is_allowed, one_if_mono, fewer-SlotConforms, none_more, check_ip-SlotConforms, check_ip-other,
}
use civic_connect.Webmention.Limiter.{
  ip_eq, allowed, RateLimiter, Readings, SourceReadings, new_limiter, cooling_left, check_ip,
  check_bucket, check_key, check_source, merge,
}
use civic_connect.Webmention.Limiter.Interleaved.{
  looked, granted, Pool, Action, begin, go_on, sweep_ips, sweep_sources, sweep_cooldowns, resume,
  replied, after_ip, look, advance, resumed, act, act_all, quiet,
}
use civic_connect.Webmention.Limiter.Interleaved.{Follows, stamp, InOrder, finish, le-finish}
use civic_connect.Webmention.Limiter.Interleaved.Load.{
  check_bucket-check_ip, config-check_bucket, weight, load, let_through, tokens_taken, load-resume,
  tokens_taken-after_ip, limiter-after_ip, limiter-merge,
}
use civic_connect.Prelude.Table.{new_table}

module _ (u : UrlLib) (rate t0 : ℕ) (ip : IpAddr) where
  -- As many requests of the IP have had a token as the rate allows.
  record IsBounded (now : ℕ) (p : Pool) : Type 0 where
    same_rate : p.limiter.config.max_rate_rpm ≡ rate
    slot : SlotConforms rate t0 (tokens_taken ip p) now (p.limiter.ip_buckets ip)

  bounded :
      (count now : ℕ) (p : Pool)
      → p.limiter.config.max_rate_rpm ≡ rate
      → tokens_taken ip p ≤ count
      → SlotConforms rate t0 count now (p.limiter.ip_buckets ip)
      → IsBounded now p
  bounded count now p e h c = record {
    same_rate = e;
    slot = fewer-SlotConforms rate t0 (tokens_taken ip p) count now (p.limiter.ip_buckets ip) h c;
  }

  check_ip-slot :
      (count now : ℕ) (r : Readings) (from : IpAddr) (l : RateLimiter)
      → l.config.max_rate_rpm ≡ rate
      → now ≤ r.created
      → r.created ≤ r.refilled
      → SlotConforms rate t0 count now (l.ip_buckets ip)
      → SlotConforms rate t0
          (count + one_if (ip_eq from ip && is_allowed (check_ip r from l).1))
          r.refilled
          ((check_ip r from l).0.ip_buckets ip)
  check_ip-slot count now r from l e a b c = elim (Bool-cases (ip_eq from ip)) [
    | inl same ↦
        let found = eq_of_ip_eq from ip same in
        rw same (
          subst
            (λ k.
              SlotConforms rate t0 (count + one_if (is_allowed (check_ip r from l).1)) r.refilled
                ((check_ip r from l).0.ip_buckets k))
            found
            (check_ip-SlotConforms rate t0 count r from l now e a b
              (subst (λ k. SlotConforms rate t0 count now (l.ip_buckets k)) (sym found) c)))
    | inr other ↦
        rw (other, check_ip-other r ip from l other)
          (none_more rate t0 count r.refilled (l.ip_buckets ip)
            (later-SlotConforms rate t0 count now r.refilled (l.ip_buckets ip) (omega arith) c))
  ]

  check_bucket-slot :
      (count now : ℕ) (r : Readings) (from : IpAddr) (l : RateLimiter)
      → l.config.max_rate_rpm ≡ rate
      → now ≤ r.created
      → r.created ≤ r.refilled
      → SlotConforms rate t0 count now (l.ip_buckets ip)
      → SlotConforms rate t0
          (count + one_if (ip_eq from ip && is_allowed (check_bucket r from l).1))
          r.refilled
          ((check_bucket r from l).0.ip_buckets ip)
  check_bucket-slot count now r from l e a b c =
      let bare : RateLimiter = record l { cooldowns = new_table } in
      let same = check_bucket-check_ip r from l in
      subst
        (λ t.
          SlotConforms rate t0
            (count + one_if (ip_eq from ip && is_allowed (check_bucket r from l).1)) r.refilled
            (t ip))
        same.buckets
        (subst
          (λ x.
            SlotConforms rate t0 (count + one_if (ip_eq from ip && is_allowed x)) r.refilled
              ((check_ip r from bare).0.ip_buckets ip))
          same.result (check_ip-slot count now r from bare e a b c))

  IsBounded-look :
      (now at : ℕ) (from : IpAddr) (source : Option String) (p : Pool)
      → IsBounded now p
      → IsBounded now (look at from source p)
  unfolding look
  IsBounded-look now at from source p h =
      elim (Option-cases (cooling_left (p.limiter.cooldowns from) at)) [
        | inl free ↦
            rw (free, look) (bounded (tokens_taken ip p) now _ h.same_rate (omega arith) h.slot)
        | inr (left, cool) ↦
            rw (cool, look) (bounded (tokens_taken ip p) now _ h.same_rate (ground arith) h.slot)
      ]

  IsBounded-looked :
      (now : ℕ) (r : Readings) (s : SourceReadings) (from : IpAddr) (source : Option String)
      (p : Pool)
      → now ≤ r.created
      → r.created ≤ r.refilled
      → IsBounded now p
      → IsBounded r.refilled (advance u r s (looked from source) p)
  unfolding advance
  IsBounded-looked now r s from source p a b h =
      let x : Reply = check_bucket r from p.limiter in
      let q : Pool = record p { limiter = x.0 } in
      let kept = limiter-after_ip from source x.1 q in
      bounded (tokens_taken ip p + one_if (ip_eq from ip && is_allowed x.1)) r.refilled
        (after_ip from source x.1 q)
        (ap (λ l. l.config.max_rate_rpm) kept ∙ config-check_bucket r from p.limiter ∙ h.same_rate)
        (omega (arith, tokens_taken-after_ip ip from source x.1 q))
        (subst
          (λ l.
            SlotConforms rate t0 (tokens_taken ip p + one_if (ip_eq from ip && is_allowed x.1))
              r.refilled (l.ip_buckets ip))
          (sym kept)
          (check_bucket-slot (tokens_taken ip p) now r from p.limiter h.same_rate a b h.slot))

  IsBounded-granted :
      (now : ℕ) (r : Readings) (s : SourceReadings) (from : IpAddr) (source : String) (m n : ℕ)
      (p : Pool) (count : ℕ)
      → count ≡ weight ip (granted from source m n) + tokens_taken ip p
      → p.limiter.config.max_rate_rpm ≡ rate
      → SlotConforms rate t0 count now (p.limiter.ip_buckets ip)
      → IsBounded now (advance u r s (granted from source m n) p)
  unfolding advance check_source check_key
  IsBounded-granted now r s from source m n p count e c h =
      let y : Reply = check_source u s source p.limiter in
      let x : Reply = merge (ok (allowed m n)) y in
      let kept : x.0 ≡ y.0 = limiter-merge (ok (allowed m n)) y in
      let fewer =
        one_if_mono (ip_eq from ip && is_allowed x.1) (ip_eq from ip) (λ e. ground arith) in
      bounded count now (replied from x.1 (record p { limiter = x.0 }))
        (ap (λ l. l.config.max_rate_rpm) kept ∙ c) (omega (arith, e, fewer))
        (subst (λ l. SlotConforms rate t0 count now (l.ip_buckets ip)) (sym kept) h)

  IsBounded-resumed :
      (now i : ℕ) (r : Readings) (s : SourceReadings) (p : Pool)
      → now ≤ r.created
      → r.created ≤ r.refilled
      → IsBounded now p
      → IsBounded r.refilled (resumed u r s (resume i p.flights) p)
  IsBounded-resumed now i r s p a b h = elim (Option-cases (resume i p.flights)) [
    | inl gone ↦ rw gone (
        bounded (tokens_taken ip p) r.refilled p h.same_rate (omega arith) (
          later-SlotConforms rate t0 (tokens_taken ip p) now r.refilled (p.limiter.ip_buckets ip)
            (omega arith) h.slot))
    | inr ((looked from source, fs), e) ↦ rw e (
        IsBounded-looked now r s from source (record p { flights = fs }) a b
          (bounded (tokens_taken ip p) now (record p { flights = fs }) h.same_rate
            (omega (arith, load-resume ip i p.flights fs (looked from source) e)) h.slot))
    | inr ((granted from source m n, fs), e) ↦ rw e (
        IsBounded-granted r.refilled r s from source m n (record p { flights = fs })
          (tokens_taken ip p)
          (omega (arith, load-resume ip i p.flights fs (granted from source m n) e)) h.same_rate
          (later-SlotConforms rate t0 (tokens_taken ip p) now r.refilled (p.limiter.ip_buckets ip)
            (omega arith) h.slot))
  ]

  IsBounded-act :
      (now : ℕ) (x : Action) (p : Pool)
      → Follows now x
      → IsBounded now p
      → IsBounded (stamp now x) (act u p x)
  unfolding act
  IsBounded-act now (begin at from source) p o h = IsBounded-look now at from source p h
  IsBounded-act now (go_on i r s) p o h = IsBounded-resumed now i r s p o.0 o.1 h
  IsBounded-act now (sweep_ips read) p o h =
      bounded (tokens_taken ip p) (max now read) _ h.same_rate (omega arith) (
        keep-SlotConforms rate t0 (tokens_taken ip p) now read (max now read)
          (p.limiter.ip_buckets ip) (ground arith) (ground arith) h.slot)
  IsBounded-act now (sweep_sources read) p o h =
      bounded (tokens_taken ip p) now _ h.same_rate (omega arith) h.slot
  IsBounded-act now (sweep_cooldowns read) p o h =
      bounded (tokens_taken ip p) now _ h.same_rate (omega arith) h.slot

  IsBounded-act_all :
      (now : ℕ) (xs : List Action) (p : Pool)
      → InOrder now xs
      → IsBounded now p
      → IsBounded (finish now xs) (act_all u p xs)
  unfolding act_all
  IsBounded-act_all now [] p o h = h
  IsBounded-act_all now (x ∷ xs) p o h =
      IsBounded-act_all (stamp now x) xs (act u p x) o.1 (IsBounded-act now x p o.0 h)

module _ (u : UrlLib) (config : RateLimitConfig) (ip : IpAddr) where
  -- The rate of one IP holds however checks interleave: for any actions of any number of checks and
  -- cleanups, from a new limiter at the time `t0`, of which the readings of the clock under the lock of
  -- the buckets of IPs are in order, the requests of an IP that are let through, with those that wait
  -- for the check of their source, number at most max_rate_rpm and max_rate_rpm for each minute.
  pub interleaved_bound :
      (t0 : ℕ) (xs : List Action)
      → InOrder t0 xs
      → (let p = act_all u (quiet (new_limiter config)) xs in
          (let_through ip p.replies + load ip p.flights) * token
          ≤ config.max_rate_rpm * token + (finish t0 xs - t0) * config.max_rate_rpm)
  unfolding new_limiter
  interleaved_bound t0 xs o =
      let rate = config.max_rate_rpm in
      let p = act_all u (quiet (new_limiter config)) xs in
      let h : IsBounded u rate t0 ip (finish t0 xs) p =
        IsBounded-act_all u rate t0 ip t0 xs (quiet (new_limiter config)) o
          (record { same_rate = refl; slot = omega arith }) in
      omega (
        arith,
        spent_bound rate t0 (let_through ip p.replies + load ip p.flights) (finish t0 xs)
            (p.limiter.ip_buckets ip) h.slot,
        sub_mul rate t0 (finish t0 xs) (le-finish t0 xs o),
      )
