-- ===== src/Webmention/Handlers/Admission.antt =====
-- indieweb2-bastion/services/webmention-rate-limiter/src/handlers.rs: which requests are admitted.
use civic_connect.Prelude.{
  ℕ, String, ◌≡◌, ◌↔◌, ◌⊎◌, inl, inr, refl, Option, none, some, Result, ok, err,
}
use civic_connect.Webmention.Url.{IpAddr, UrlLib}
use civic_connect.Webmention.Limiter.Bucket.{Panic}
use civic_connect.Webmention.Limiter.{
  RateLimitResult, allowed, limited, Readings, SourceReadings, check_ip,
}
use civic_connect.Webmention.Validator.{
  ValidationError, ValidationResult, valid, invalid, validate_content_type, validate,
}
use civic_connect.Webmention.Handlers.{
  show_error, AppState, status_ok, CheckRequest, denial, bad_request, validated, proxy_reply,
  check_valid, check_parsed, check_request, proxy_handler,
}

proxy_reply_iff :
    (x : Result Panic RateLimitResult) (n : ℕ)
    → (proxy_reply x ≡ ok (validated n)) ↔ ((reset : ℕ) × (x ≡ ok (allowed n reset)))
unfolding proxy_reply
proxy_reply_iff (ok (allowed m reset)) n = (λ e. (reset, cc e), λ h. cc h.1)
proxy_reply_iff (ok (limited reason m)) n = (λ e. cc e, λ h. cc h.1)
proxy_reply_iff (err p) n = (λ e. cc e, λ h. cc h.1)

pub ValidationResult-cases :
    (v : ValidationResult) → (v ≡ valid) ⊎ ((e : ValidationError) × (v ≡ invalid e))
ValidationResult-cases valid = inl refl
ValidationResult-cases (invalid e) = inr (e, refl)

module _ (u : UrlLib) (debug : String → String) where
  module _ (r : Readings) (s : SourceReadings) (req : CheckRequest) (state : AppState) where
    -- What the request is validated to.
    abbrev pub verdict : ValidationResult
    verdict = validate u state.validator req.content_type req.source req.target

    pub unparsed :
        u.parse_ip req.ip ≡ none
        → check_request u debug r s req state
          ≡ (state, ok (bad_request, denial "Invalid IP address format"))
    unfolding check_request
    unparsed bad = rw (check_request, bad) refl

    module _ (ip : IpAddr) (good : u.parse_ip req.ip ≡ some ip) where
      pub parsed : check_request u debug r s req state ≡ check_parsed u debug r s ip req state
      unfolding check_request
      parsed = rw (check_request, good) refl

      pub wrong :
          (e : ValidationError)
          → verdict ≡ invalid e
          → check_parsed u debug r s ip req state
            ≡ (state, ok (status_ok, denial (show_error debug e)))
      unfolding check_parsed
      wrong e h = rw (check_parsed, h) refl

      pub right :
          verdict ≡ valid
          → check_parsed u debug r s ip req state ≡ check_valid u debug r s ip req state
      unfolding check_parsed
      right h = rw (check_parsed, h) refl

  -- The proxy lets a request through, with a number of tokens remaining, exactly when its content
  -- type is valid and the limit of its IP allows it with that number.
  pub proxy_handler_iff :
      (r : Readings) (ip : IpAddr) (content_type : Option String) (state : AppState) (n : ℕ)
      → ((proxy_handler u debug r ip content_type state).1 ≡ ok (validated n)) ↔ (
          (validate_content_type u state.validator content_type ≡ valid)
          × ((reset : ℕ) × ((check_ip r ip state.limiter).1 ≡ ok (allowed n reset))))
  unfolding proxy_handler
  proxy_handler_iff r ip content_type state n =
      elim (ValidationResult-cases (validate_content_type u state.validator content_type)) [
        | inl fine ↦
            (let reply = proxy_reply_iff (check_ip r ip state.limiter).1 n in
              (
                λ e. (fine, reply.0 (rw (proxy_handler, fine) at e)),
                λ h. rw (proxy_handler, fine) (reply.1 h.1),
              ))
        | inr (e, bad) ↦ (
          λ f. absurd (let f' = rw (proxy_handler, bad) at f in cc f'),
          λ h. absurd (cc (h.0, bad)),
        )
      ]
