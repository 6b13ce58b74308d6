-- ===== src/Webmention/Handlers/Served/Total.antt =====
-- indieweb2-bastion/services/webmention-rate-limiter/src/handlers.rs: the bound on what the service lets
-- through.
use civic_connect.Prelude.{ℕ, ◌+◌, ◌-◌, ◌*◌, ◌≤◌, String, ◌≡◌, refl, ap, ◌∙◌, List, [], ◌∷◌}
use native.Mathlib.Omega.{arith}
use civic_connect.Webmention.Url.{IpAddr, UrlLib}
use civic_connect.Webmention.Config.{Config, ValidationConfig}
use civic_connect.Webmention.Limiter.Bucket.{token}
use civic_connect.Webmention.Limiter.Rate.{
  sub_mul, one_if, SlotConforms, later-SlotConforms, spent_bound,
}
use civic_connect.Webmention.Limiter.{new_limiter}
use civic_connect.Webmention.Limiter.Bound.Slots.{none_more}
use civic_connect.Webmention.Limiter.Bound.{Follows, stamp, config-after, step_ip}
use civic_connect.Webmention.Handlers.{AppState}
use civic_connect.Webmention.Handlers.Served.{
  Call, checked, proxied, swept, serve_call, permits, served, Succeeds, call_stamp, CallsInOrder,
  calls_end,
}
use civic_connect.Webmention.Handlers.Served.Effects.{
  event_of, Effect, refused_before, limited_by, call-Effect,
}

module _ (u : UrlLib) (debug : String → String) (ip : IpAddr) where
  Effect-config :
      (state : AppState) (c : Call)
      → Effect u debug ip state c
      → (serve_call u debug state c).limiter.config ≡ state.limiter.config
  Effect-config state c (refused_before same idle_call) = ap (λ x. x.limiter.config) same
  Effect-config state c (limited_by from step count) =
      ap (λ x. x.config) step ∙ config-after u state.limiter (event_of from c)

  Succeeds-Follows :
      (from : IpAddr) (now : ℕ) (c : Call) → Succeeds now c → Follows now (event_of from c)
  Succeeds-Follows from now (checked r s req) o = o
  Succeeds-Follows from now (proxied r f content_type) o = (o.0, o.1, omega arith, omega arith)
  Succeeds-Follows from now (swept later) o = o

  call_stamp-event_of : (from : IpAddr) (c : Call) → stamp (event_of from c) ≡ call_stamp c
  call_stamp-event_of from (checked r s req) = refl
  call_stamp-event_of from (proxied r f content_type) = refl
  call_stamp-event_of from (swept later) = refl

  le-call_stamp : (now : ℕ) (c : Call) → Succeeds now c → now ≤ call_stamp c
  le-call_stamp now (checked r s req) o = omega (arith, o.0)
  le-call_stamp now (proxied r f content_type) o = omega (arith, o.0)
  le-call_stamp now (swept later) o = o

  module _ (rate t0 : ℕ) where
    step_call :
        (count now : ℕ) (state : AppState) (c : Call)
        → Effect u debug ip state c
        → state.limiter.config.max_rate_rpm ≡ rate
        → Succeeds now c
        → SlotConforms rate t0 count now (state.limiter.ip_buckets ip)
        → SlotConforms rate t0
            (count + one_if (permits u debug ip state c))
            (call_stamp c)
            ((serve_call u debug state c).limiter.ip_buckets ip)
    step_call count now state c (refused_before same idle_call) cfg o h =
        rw (same, idle_call)
          (none_more rate t0 count (call_stamp c) (state.limiter.ip_buckets ip) (
            later-SlotConforms rate t0 count now (call_stamp c) (state.limiter.ip_buckets ip)
              (le-call_stamp now c o) h))
    step_call count now state c (limited_by from step permitted) cfg o h =
        rw (step, permitted, ← call_stamp-event_of from c)
          (step_ip u rate t0 ip count now state.limiter (event_of from c) cfg
            (Succeeds-Follows from now c o) h)

    run_calls :
        (count now : ℕ) (state : AppState) (cs : List Call)
        → state.limiter.config.max_rate_rpm ≡ rate
        → CallsInOrder now cs
        → SlotConforms rate t0 count now (state.limiter.ip_buckets ip)
        → (count + served u debug ip state cs) * token + t0 * rate
          ≤ rate * token + calls_end now cs * rate
    unfolding served
    run_calls count now state [] cfg o h =
        omega (arith, spent_bound rate t0 count now (state.limiter.ip_buckets ip) h)
    run_calls count now state (c ∷ cs) cfg o h =
        let effect = call-Effect u debug ip state c in
        omega (
          arith,
          run_calls (count + one_if (permits u debug ip state c)) (call_stamp c)
              (serve_call u debug state c) cs
              (ap (λ g. g.max_rate_rpm) (Effect-config state c effect) ∙ cfg) o.1
              (step_call count now state c effect cfg o.0 h),
        )

  le-calls_end : (now : ℕ) (cs : List Call) → CallsInOrder now cs → now ≤ calls_end now cs
  le-calls_end now [] o = omega arith
  le-calls_end now (c ∷ cs) o =
      omega (arith, le-call_stamp now c o.0, le-calls_end (call_stamp c) cs o.1)

  -- The rate of one IP through the whole service: over any history, from the time `t0`, of requests to
  -- the check endpoint and to the proxy and of cleanups, which begins with a new limiter and whose
  -- readings of the clock are in order, the requests of an IP that the responses let through number at
  -- most max_rate_rpm and max_rate_rpm for each minute of the history.
  pub served_bound :
      (validator : ValidationConfig) (config : Config) (t0 : ℕ) (cs : List Call)
      → CallsInOrder t0 cs
      → (let state : AppState = record {
        limiter = new_limiter config.rate_limit;
        validator = validator;
        config = config;
      } in
          served u debug ip state cs * token
          ≤ config.rate_limit.max_rate_rpm * token
            + (calls_end t0 cs - t0) * config.rate_limit.max_rate_rpm)
  unfolding new_limiter
  served_bound validator config t0 cs o = omega (
    arith,
    run_calls config.rate_limit.max_rate_rpm t0 0 t0
        (record { limiter = new_limiter config.rate_limit; validator = validator; config = config })
        cs refl o (omega arith),
    sub_mul config.rate_limit.max_rate_rpm t0 (calls_end t0 cs) (le-calls_end t0 cs o),
  )
