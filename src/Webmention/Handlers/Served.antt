-- ===== src/Webmention/Handlers/Served.antt =====
-- indieweb2-bastion/services/webmention-rate-limiter/src/handlers.rs: how many requests the service
-- lets through, over the calls of its two handlers and of the cleanup.
pub mod Effects
pub mod Total
use civic_connect.Prelude.{
  ℕ, ◌+◌, ◌≤◌, String, ◌≡◌, refl, Bool, true, false, ◌&&◌, Option, none, some, List, [], ◌∷◌,
  Result, ok, err,
}
use civic_connect.Webmention.Url.{IpAddr, UrlLib}
use civic_connect.Webmention.Limiter.Bucket.{Panic}
use civic_connect.Webmention.Limiter.Rate.{one_if}
use civic_connect.Webmention.Limiter.{
  ip_eq, RateLimitResult, allowed, limited, Readings, SourceReadings, cleanup,
}
use civic_connect.Webmention.Limiter.Bound.Slots.{is_allowed}
use civic_connect.Webmention.Validator.{ValidationError}
use civic_connect.Webmention.Handlers.{
  AppState, StatusCode, CheckRequest, CheckResponse, ProxyResponse, validated, refused, check_reply,
  proxy_reply, check_request, proxy_handler,
}

-- A request to the check endpoint or to the proxy, with the readings of the clock, or a cleanup.
pub data Call : Type 0 where
  checked : Readings → SourceReadings → CheckRequest → Call
  proxied : Readings → IpAddr → Option String → Call
  swept : ℕ → Call

abbrev pub is_permitted : Result Panic (StatusCode × CheckResponse) → Bool
is_permitted (ok (code, response)) = response.allowed
is_permitted (err p) = false

abbrev pub is_validated : Result Panic ProxyResponse → Bool
is_validated (ok (validated n)) = true
is_validated (ok (refused code retry_after body)) = false
is_validated (err p) = false

module _ (u : UrlLib) (debug : String → String) where
  unfoldable pub serve_call : AppState → Call → AppState
  serve_call state (checked r s req) = (check_request u debug r s req state).0
  serve_call state (proxied r ip content_type) = (proxy_handler u debug r ip content_type state).0
  serve_call state (swept now) = record state { limiter = cleanup now state.limiter }

  -- The call is a request from the IP, and the response lets it through.
  unfoldable pub permits : IpAddr → AppState → Call → Bool
  permits ip state (checked r s req) = elim (u.parse_ip req.ip) [
    | none ↦ false
    | some from ↦ ip_eq from ip && is_permitted (check_request u debug r s req state).1
  ]
  permits ip state (proxied r from content_type) =
      ip_eq from ip && is_validated (proxy_handler u debug r from content_type state).1
  permits ip state (swept now) = false

  -- How many calls let a request of the IP through.
  unfoldable pub served : IpAddr → AppState → List Call → ℕ
  served ip state [] = 0
  served ip state (c ∷ cs) = one_if (permits ip state c) + served ip (serve_call state c) cs

-- The readings of the clock of one call follow one another, from the time `now`.
abbrev pub Succeeds : ℕ → Call → Type 0
Succeeds now (checked r s req) =
    (now ≤ r.created)
    × (r.created ≤ r.refilled)
    × (r.refilled ≤ s.created)
    × (s.created ≤ s.refilled)
Succeeds now (proxied r ip content_type) = (now ≤ r.created) × (r.created ≤ r.refilled)
Succeeds now (swept later) = now ≤ later

-- The last reading of a call.
abbrev pub call_stamp : Call → ℕ
call_stamp (checked r s req) = s.refilled
call_stamp (proxied r ip content_type) = r.refilled
call_stamp (swept later) = later

abbrev pub CallsInOrder : ℕ → List Call → Type 0
CallsInOrder now [] = Unit
CallsInOrder now (c ∷ cs) = Succeeds now c × CallsInOrder (call_stamp c) cs

abbrev pub calls_end : ℕ → List Call → ℕ
calls_end now [] = now
calls_end now (c ∷ cs) = calls_end (call_stamp c) cs

permitted_reply : (x : Result Panic RateLimitResult) → is_permitted (check_reply x) ≡ is_allowed x
unfolding check_reply
permitted_reply (ok (allowed n reset)) = refl
permitted_reply (ok (limited reason n)) = refl
permitted_reply (err p) = refl

validated_reply : (x : Result Panic RateLimitResult) → is_validated (proxy_reply x) ≡ is_allowed x
unfolding proxy_reply
validated_reply (ok (allowed n reset)) = refl
validated_reply (ok (limited reason n)) = refl
validated_reply (err p) = refl
