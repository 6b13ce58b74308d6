-- ===== src/Webmention/Handlers/Served/Effects.antt =====
-- indieweb2-bastion/services/webmention-rate-limiter/src/handlers.rs: the steps of the limiter that calls of
-- the service make.
use civic_connect.Prelude.{
  ℕ, String, ◌≡◌, refl, ap, ◌∙◌, inl, inr, Bool, false, ◌&&◌, Option, none, Option-cases, Result,
  ok,
}
use native.Mathlib.Omega.{arith}
use civic_connect.Webmention.Url.{IpAddr, UrlLib}
use civic_connect.Webmention.Limiter.{ip_eq, Readings, SourceReadings, check_ip, check, then_source}
use civic_connect.Webmention.Limiter.Bound.{Event, request, sweep, after, admits_ip}
use civic_connect.Webmention.Validator.{ValidationError, valid, invalid, validate_content_type}
use civic_connect.Webmention.Handlers.{
  show_error, Panic, ErrorResponse, ProxyResponse, refused, unsupported_media_type, proxy_reply,
  AppState, CheckRequest, check_valid, check_request, proxy_handler,
}
use civic_connect.Webmention.Handlers.Admission.{
  ValidationResult-cases, verdict, unparsed, parsed, wrong, right,
}
use civic_connect.Webmention.Handlers.Served.{
  Call, checked, proxied, swept, is_permitted, is_validated, serve_call, permits, permitted_reply,
  validated_reply,
}

-- The readings of a check of the source that is not made.
abbrev idle : ℕ → SourceReadings
idle t = record { created = t; refilled = t; pushed = t }

-- The step of the limiter that a call makes where it is not refused before.
abbrev pub event_of : IpAddr → Call → Event
event_of from (checked r s req) = request r s from req.source
event_of from (proxied r ip content_type) = request r (idle r.refilled) from none
event_of from (swept now) = sweep now

module _ (u : UrlLib) (debug : String → String) (ip : IpAddr) where
  -- A call is refused before the limiter is asked, or makes a step of the limiter.
  pub data Effect (state : AppState) (c : Call) : Type 0 where
    refused_before :
        serve_call u debug state c ≡ state → permits u debug ip state c ≡ false → Effect state c
    limited_by :
        (from : IpAddr)
        → (serve_call u debug state c).limiter ≡ after u state.limiter (event_of from c)
        → permits u debug ip state c ≡ admits_ip u ip state.limiter (event_of from c)
        → Effect state c

  checked-Effect :
      (state : AppState) (r : Readings) (s : SourceReadings) (req : CheckRequest)
      → Effect state (checked r s req)
  unfolding serve_call permits check_valid after admits_ip
  checked-Effect state r s req = elim (Option-cases (u.parse_ip req.ip)) [
    | inl bad ↦
        refused_before (ap (λ x. x.0) (unparsed u debug r s req state bad)) (rw (permits, bad) refl)
    | inr (from, good) ↦
        (let runs = parsed u debug r s req state from good in
          let permitted : permits u debug ip state (checked r s req)
              ≡ ip_eq from ip && is_permitted (check_request u debug r s req state).1 =
            rw (permits, good) refl in
          elim (ValidationResult-cases (verdict u debug r s req state)) [
            | inl fine ↦
                (let whole = runs ∙ right u debug r s req state from good fine in
                  limited_by from (ap (λ x. x.0.limiter) whole) (
                    permitted
                    ∙ ap (λ x. ip_eq from ip && is_permitted x.1) whole
                    ∙ ap (λ b. ip_eq from ip && b)
                        (permitted_reply (check u r s from req.source state.limiter).1)))
            | inr (e, bad) ↦
                (let whole = runs ∙ wrong u debug r s req state from good e bad in
                  refused_before (ap (λ x. x.0) whole)
                    (permitted ∙ ap (λ x. ip_eq from ip && is_permitted x.1) whole ∙ ground arith))
          ])
  ]

  proxy_valid :
      (state : AppState) (r : Readings) (from : IpAddr) (content_type : Option String)
      → validate_content_type u state.validator content_type ≡ valid
      → proxy_handler u debug r from content_type state ≡ (
        record state { limiter = (check_ip r from state.limiter).0 },
        proxy_reply (check_ip r from state.limiter).1,
      )
  unfolding proxy_handler
  proxy_valid state r from content_type fine = rw (proxy_handler, fine) refl

  proxy_invalid :
      (state : AppState) (r : Readings) (from : IpAddr) (content_type : Option String)
      (e : ValidationError)
      → validate_content_type u state.validator content_type ≡ invalid e
      → (body : ErrorResponse) × (proxy_handler u debug r from content_type state
          ≡ (state, ok (refused unsupported_media_type none body)))
  unfolding proxy_handler
  proxy_invalid state r from content_type e bad = (
    record { error = show_error debug e; code = "INVALID_CONTENT_TYPE"; retry_after_secs = none },
    rw (proxy_handler, bad) refl,
  )

  proxied-Effect :
      (state : AppState) (r : Readings) (from : IpAddr) (content_type : Option String)
      → Effect state (proxied r from content_type)
  unfolding serve_call permits after admits_ip check then_source
  proxied-Effect state r from content_type =
      let allows : AppState × Result Panic ProxyResponse → Bool =
        λ x. ip_eq from ip && is_validated x.1 in
      elim (ValidationResult-cases (validate_content_type u state.validator content_type)) [
        | inl fine ↦
            (let whole = proxy_valid state r from content_type fine in
              limited_by from (ap (λ x. x.0.limiter) whole) (
                ap allows whole
                ∙ ap (λ b. ip_eq from ip && b) (validated_reply (check_ip r from state.limiter).1)))
        | inr (e, bad) ↦
            (let (body, whole) = proxy_invalid state r from content_type e bad in
              refused_before (ap (λ x. x.0) whole) (ap allows whole ∙ ground arith))
      ]

  pub call-Effect : (state : AppState) (c : Call) → Effect state c
  unfolding serve_call permits after admits_ip
  call-Effect state (checked r s req) = checked-Effect state r s req
  call-Effect state (proxied r from content_type) = proxied-Effect state r from content_type
  call-Effect state (swept now) = limited_by ip refl refl
