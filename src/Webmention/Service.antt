-- ===== src/Webmention/Service.antt =====
-- indieweb2-bastion/services/webmention-rate-limiter/src: the program of main.rs, and `health` of
-- handlers.rs. Its start from the environment, its routes, and the ticks of its cleanup task. What axum
-- makes of the body of a request, and the sockets, are parameters.
pub mod Started
use civic_connect.Prelude.{
  ℕ, String, Bool, Option, ◌==◌, if◌then◌else◌, Result, ok, err, ok_or, ◌>>=◌,
}
use civic_connect.Webmention.Config.{Config, load_config}
use civic_connect.Webmention.Url.{UrlLib}
use civic_connect.Webmention.Limiter.Bucket.{Panic}
use civic_connect.Webmention.Limiter.{Readings, SourceReadings, new_limiter, cleanup}
use civic_connect.Webmention.Handlers.{
  AppState, StatusCode, CheckRequest, CheckResponse, check_request,
}

-- A body, and the request in it or the status with which the extractor `Json` rejects it; an address to
-- listen at, and whether it can be bound.
pub record Axum : Type 1 where
  pub Body : Type 0
  pub extract : Body → Result ℕ CheckRequest
  pub Addr : Type 0
  pub parse_addr : String → Option Addr
  pub bind : Addr → Bool

pub data StartError : Type 0 where
  bad_address not_bound : StartError

unfoldable pub new_state : Config → AppState
new_state config = record {
  limiter = new_limiter config.rate_limit;
  validator = config.validation;
  config = config;
}

pub data Method : Type 0 where
  get_method head_method post_method other_method : Method

pub record HealthResponse : Type 0 where
  pub status : String
  pub service : String
  pub version : String

-- `health`, with the version of the package
abbrev pub health : HealthResponse
health = record { status = "healthy"; service = "webmention-rate-limiter"; version = "0.1.0" }

-- Where a request goes: to a handler, or to the status of a path or a method that is not routed.
pub data Destination : Type 0 where
  to_health to_check : Destination
  to_status : ℕ → Destination

-- `get(health)` of axum answers HEAD too.
abbrev pub health_route : Method → Destination
health_route get_method = to_health
health_route head_method = to_health
health_route post_method = to_status 405
health_route other_method = to_status 405

abbrev pub check_route : Method → Destination
check_route post_method = to_check
check_route get_method = to_status 405
check_route head_method = to_status 405
check_route other_method = to_status 405

unfoldable pub route : Method → String → Destination
route method path =
    if path == "/health"
    then health_route method
    else if path == "/healthz"
    then health_route method
    else if path == "/check"
    then check_route method
    else to_status 404

pub data HttpReply : Type 0 where
  healthy : HealthResponse → HttpReply
  checked_reply : StatusCode → CheckResponse → HttpReply
  status_only : ℕ → HttpReply

module _ (a : Axum) where
  -- `main` up to the server: its state, when the address of the configuration can be bound.
  unfoldable pub start_service : (String → Option String) → Result StartError AppState
  unfolding new_state
  start_service var = do
    let config = load_config var
    addr ← ok_or (a.parse_addr config.bind_addr) bad_address
    if a.bind addr then ok (new_state config) else err not_bound

  pub record HttpRequest : Type 0 where
    pub method : Method
    pub path : String
    pub body : a.Body

  -- A request comes in, with the readings of the clock if it is checked, or the cleanup task ticks.
  pub data Happening : Type 0 where
    arrives : Readings → SourceReadings → HttpRequest → Happening
    ticks : ℕ → Happening

module _ (a : Axum) (u : UrlLib) (debug : String → String) where
  -- `check` behind its extractor
  unfoldable pub serve_body :
      Readings
      → SourceReadings
      → Result ℕ CheckRequest
      → AppState
      → AppState × Result Panic HttpReply
  serve_body r s (err code) state = (state, ok (status_only code))
  serve_body r s (ok req) state =
      let done = check_request u debug r s req state in
      (done.0, (do reply ← done.1; ok (checked_reply reply.0 reply.1)))

  unfoldable pub serve_route :
      Readings
      → SourceReadings
      → Destination
      → a.Body
      → AppState
      → AppState × Result Panic HttpReply
  unfolding serve_body
  serve_route r s to_health body state = (state, ok (healthy health))
  serve_route r s (to_status code) body state = (state, ok (status_only code))
  serve_route r s to_check body state = serve_body r s (a.extract body) state

  unfoldable pub serve_http :
      Readings → SourceReadings → HttpRequest a → AppState → AppState × Result Panic HttpReply
  unfolding serve_route route
  serve_http r s req state = serve_route r s (route req.method req.path) req.body state

  unfoldable pub happen : AppState → Happening a → AppState
  unfolding serve_http
  happen state (arrives r s req) = (serve_http r s req state).0
  happen state (ticks now) = record state { limiter = cleanup now state.limiter }
