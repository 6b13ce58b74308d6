-- ===== src/Webmention/Service/Started.antt =====
-- indieweb2-bastion/services/webmention-rate-limiter/src/main.rs: how many requests of an IP the program
-- lets through, from its start.
use civic_connect.Prelude.{
  ℕ, ◌+◌, ◌-◌, ◌*◌, ◌≤◌, String, ◌≡◌, refl, sym, ap, subst, ◌∙◌, inl, inr, Bool, true, false, ◌&&◌,
  Option, none, some, List, [], ◌∷◌, if◌then◌else◌, Option-cases, Result, ok, err, ok_or, ◌>>=◌,
  bind-ok_inv,
}
use native.Mathlib.Omega.{arith}
use civic_connect.Webmention.Config.{Config, load_config}
use civic_connect.Webmention.Url.{IpAddr, UrlLib}
use civic_connect.Webmention.Limiter.Bucket.{Panic, token}
use civic_connect.Webmention.Limiter.Rate.{one_if}
use civic_connect.Webmention.Limiter.{ip_eq, Readings, SourceReadings}
use civic_connect.Webmention.Handlers.{
  AppState, StatusCode, CheckRequest, CheckResponse, check_request,
}
use civic_connect.Webmention.Handlers.Served.{
  Call, checked, swept, is_permitted, serve_call, permits, served, CallsInOrder, calls_end,
}
use civic_connect.Webmention.Handlers.Served.Total.{served_bound}
use civic_connect.Webmention.Service.{
  Axum, bad_address, not_bound, new_state, start_service, Destination, to_health, to_check,
  to_status, route, HttpReply, healthy, checked_reply, status_only, Happening, arrives, ticks,
  serve_body, serve_route, serve_http, happen,
}

abbrev pub is_granted : Result Panic HttpReply → Bool
is_granted (ok (checked_reply code response)) = response.allowed
is_granted (ok (healthy h)) = false
is_granted (ok (status_only code)) = false
is_granted (err p) = false

-- The request that the check endpoint answers, if it comes to that.
abbrev pub asked : Destination → Result ℕ CheckRequest → Option CheckRequest
asked to_check (ok req) = some req
asked to_check (err code) = none
asked to_health body = none
asked (to_status code) body = none

granted_reply :
    (x : Result Panic (StatusCode × CheckResponse))
    → is_granted (x >>= λ reply. ok (checked_reply reply.0 reply.1)) ≡ is_permitted x
granted_reply (ok (code, response)) = refl
granted_reply (err p) = refl

abbrev pub with_call : Option Call → List Call → List Call
with_call none cs = cs
with_call (some c) cs = c ∷ cs

module _ (a : Axum) where
  abbrev pub call_of : Happening a → Option Call
  call_of (arrives r s req) = elim (asked (route req.method req.path) (a.extract req.body)) [
    | none ↦ none
    | some q ↦ some (checked r s q)
  ]
  call_of (ticks now) = some (swept now)

  -- The calls of the handlers and of the cleanup in a history.
  abbrev pub calls_of : List (Happening a) → List Call
  calls_of [] = []
  calls_of (h ∷ hs) = with_call (call_of h) (calls_of hs)

module _ (a : Axum) (u : UrlLib) (debug : String → String) (ip : IpAddr) where
  -- The request asks for the IP, and the reply lets it through.
  abbrev pub asks_for : Option CheckRequest → Bool → Bool
  asks_for none granted = false
  asks_for (some q) granted = elim (u.parse_ip q.ip) [
    | none ↦ false
    | some from ↦ ip_eq from ip && granted
  ]

  unfoldable pub lets_in : AppState → Happening a → Bool
  lets_in state (arrives r s req) =
      asks_for (asked (route req.method req.path) (a.extract req.body))
        (is_granted (serve_http a u debug r s req state).1)
  lets_in state (ticks now) = false

  unfoldable pub let_in : AppState → List (Happening a) → ℕ
  let_in state [] = 0
  let_in state (h ∷ hs) = one_if (lets_in state h) + let_in (happen a u debug state h) hs

  -- What a call does, and whether it lets a request of the IP through.
  abbrev Effected : AppState → Option Call → AppState × Bool
  Effected state none = (state, false)
  Effected state (some c) = (serve_call u debug state c, permits u debug ip state c)

  body-Effected :
      (state : AppState) (r : Readings) (s : SourceReadings) (x : Result ℕ CheckRequest)
      → (
        (serve_body a u debug r s x state).0,
        asks_for (asked to_check x) (is_granted (serve_body a u debug r s x state).1),
      )
        ≡ Effected state (elim (asked to_check x) [ none ↦ none | some q ↦ some (checked r s q) ])
  unfolding serve_body serve_call permits
  body-Effected state r s (err code) = refl
  body-Effected state r s (ok q) =
      let done = check_request u debug r s q state in
      ap (λ granted. (done.0, asks_for (some q) granted)) (granted_reply done.1)

  route-Effected :
      (state : AppState) (r : Readings) (s : SourceReadings) (to : Destination) (body : a.Body)
      → (
        (serve_route a u debug r s to body state).0,
        asks_for
            (asked to (a.extract body))
            (is_granted (serve_route a u debug r s to body state).1),
      )
        ≡ Effected state
            (elim (asked to (a.extract body)) [ none ↦ none | some q ↦ some (checked r s q) ])
  unfolding serve_route
  route-Effected state r s to_health body = refl
  route-Effected state r s (to_status code) body = refl
  route-Effected state r s to_check body = body-Effected state r s (a.extract body)

  happen-Effected :
      (state : AppState) (h : Happening a)
      → (happen a u debug state h, lets_in state h) ≡ Effected state (call_of a h)
  unfolding happen lets_in serve_http serve_call permits
  happen-Effected state (arrives r s req) =
      route-Effected state r s (route req.method req.path) req.body
  happen-Effected state (ticks now) = refl

  -- The requests that are let in are those that the calls of the handlers let through.
  let_in-served :
      (state : AppState) (hs : List (Happening a))
      → let_in state hs ≡ served u debug ip state (calls_of a hs)
  unfolding let_in served
  let_in-served state [] = refl
  let_in-served state (h ∷ hs) = elim (Option-cases (call_of a h)) [
    | inl idle ↦
        let effect = happen-Effected state h ∙ ap (Effected state) idle in
        subst (λ x. let_in state (h ∷ hs) ≡ served u debug ip state (with_call x (calls_of a hs)))
          (sym idle)
          (omega (arith, ap (λ x. one_if x.1 + let_in x.0 hs) effect, let_in-served state hs))
    | inr (c, e) ↦
        let effect = happen-Effected state h ∙ ap (Effected state) e in
        subst (λ x. let_in state (h ∷ hs) ≡ served u debug ip state (with_call x (calls_of a hs)))
          (sym e)
          (ap (λ x. one_if x.1 + let_in x.0 hs) effect
            ∙ ap (λ n. one_if (permits u debug ip state c) + n)
                (let_in-served (serve_call u debug state c) hs))
  ]

  started-state :
      (var : String → Option String) (state : AppState)
      → start_service a var ≡ ok state
      → new_state (load_config var) ≡ state
  unfolding start_service
  started-state var state e =
      let config = load_config var in
      let (addr, parsed, bound) =
        bind-ok_inv (ok_or (a.parse_addr config.bind_addr) bad_address)
          (λ addr. if a.bind addr then ok (new_state config) else err not_bound) state e in
      if_bound (a.bind addr) config bound
    where
      if_bound :
          (b : Bool) (config : Config)
          → (if b then ok (new_state config) else err not_bound) ≡ ok state
          → new_state config ≡ state
      if_bound true config h = cc h
      if_bound false config h = absurd (cc h)

  -- The rate of one IP through the whole program: whatever the environment, when the service has started
  -- then over any HTTP requests and ticks of the cleanup task, of which the readings of the clock are in
  -- order from the time `t0`, the requests of an IP that the replies let through number at most the rate
  -- that MAX_RATE_RPM gives and that rate for each minute.
  pub started_bound :
      (var : String → Option String) (state : AppState) (t0 : ℕ) (hs : List (Happening a))
      → start_service a var ≡ ok state
      → CallsInOrder t0 (calls_of a hs)
      → (let rate = (load_config var).rate_limit.max_rate_rpm in
          let_in state hs * token ≤ rate * token + (calls_end t0 (calls_of a hs) - t0) * rate)
  unfolding start_service new_state
  started_bound var state t0 hs e o =
      let config = load_config var in
      subst
        (λ x.
          let_in x hs * token
          ≤ config.rate_limit.max_rate_rpm * token
            + (calls_end t0 (calls_of a hs) - t0) * config.rate_limit.max_rate_rpm)
        (started-state var state e)
        (rw (let_in-served (new_state config) hs)
          (served_bound u debug ip config.validation config t0 (calls_of a hs) o))
