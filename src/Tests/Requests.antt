-- ===== src/Tests/Requests.antt =====
-- Inputs for validator.rs and handlers.rs of
-- indieweb2-bastion/services/webmention-rate-limiter/src.
use civic_connect.Prelude.{
  ℕ, ◌+◌, ◌-◌, ◌*◌, ◌≤◌, ◌≡◌, refl, ◌↔◌, true, none, some, List, [], ◌∷◌, ok,
}
use native.Mathlib.Omega.{arith}
use civic_connect.Webmention.Config.{default_validation, default_config, default_rate_limit}
use civic_connect.Webmention.Url.{v4}
use civic_connect.Webmention.Limiter.{new_limiter}
use civic_connect.Webmention.Validator.{valid, validate}
use civic_connect.Webmention.Validator.Meaning.{HasType, HasLink, validate_iff}
use civic_connect.Webmention.Limiter.Bucket.{token}
use civic_connect.Webmention.Handlers.Served.{Call, checked, proxied, swept, served}
use civic_connect.Webmention.Handlers.Served.Total.{served_bound}
use civic_connect.Webmention.Handlers.{AppState, CheckRequest}
use civic_connect.Webmention.Service.{
  Axum, new_state, post_method, get_method, route, Happening, arrives, ticks, start_service,
}
use civic_connect.Webmention.Service.Started.{calls_of, let_in, started_bound}
use civic_connect.Webmention.Config.{load_config}
use civic_connect.Webmention.Handlers.Served.{CallsInOrder, calls_end}
use civic_connect.Prelude.{String, Option, Result, err, ◌==◌, if◌then◌else◌}
use civic_connect.Tests.Webmention.{hosts_only, at_time, at_source_time}

abbrev form : Option String
form = some "application/x-www-form-urlencoded; charset=utf-8"

validate_iff_example :
    (validate hosts_only default_validation form (some "www.a.co.uk") (some "b.co.uk") ≡ valid) ↔ (
      HasType hosts_only default_validation form
      × ((true ≡ true)
          → HasLink hosts_only default_validation (some "www.a.co.uk") (some "b.co.uk")))
validate_iff_example =
    validate_iff hosts_only default_validation form (some "www.a.co.uk") (some "b.co.uk")

abbrev state : AppState
state = record {
  limiter = new_limiter default_rate_limit;
  validator = default_validation;
  config = default_config;
}

abbrev ask : CheckRequest
ask = record {
  ip = "1.2.3.4";
  source = some "a.com";
  target = some "b.com";
  content_type = some "application/x-www-form-urlencoded; charset=utf-8";
}

-- Two requests of one IP, of which the proxy refuses one for its media type, and a cleanup.
abbrev calls : List Call
calls =
    checked (at_time 5) (at_source_time 5)
      (record { ip = "1.2.3.4"; source = none; target = none; content_type = none })
    ∷ proxied (at_time 6) (v4 16909060) (some "application/x-www-form-urlencoded")
    ∷ proxied (at_time 7) (v4 16909060) none
    ∷ swept 8
    ∷ []

served_bound_example :
    served hosts_only
        (λ s. s)
        (v4 16909060)
        (record {
          limiter = new_limiter default_rate_limit;
          validator = default_validation;
          config = default_config;
        })
        calls
      * token
    ≤ 60 * token + (8 - 5) * 60
served_bound_example =
    served_bound hosts_only (λ s. s) (v4 16909060) default_validation default_config 5 calls
      (
        (omega arith, omega arith, omega arith, omega arith),
        ((omega arith, omega arith), ((omega arith, omega arith), (omega arith, tt))),
      )

-- A server whose bodies are read already, and which can bind any address.
abbrev server : Axum
server = record {
  Body = Result ℕ CheckRequest;
  extract = λ body. body;
  Addr = String;
  parse_addr = some;
  bind = λ addr. true;
}

abbrev environment : String → Option String
environment name = if name == "MAX_RATE_RPM" then some "2" else none

abbrev happenings : List (Happening server)
happenings =
    arrives (at_time 5) (at_source_time 5)
      (record { method = post_method; path = "/check"; body = ok ask })
    ∷ arrives (at_time 6) (at_source_time 6)
        (record { method = get_method; path = "/healthz"; body = err 415 })
    ∷ ticks 8
    ∷ arrives (at_time 9) (at_source_time 9)
        (record { method = post_method; path = "/check"; body = err 422 })
    ∷ []

starts : start_service server environment ≡ ok (new_state (load_config environment))
unfolding start_service
starts = refl

happenings-InOrder : CallsInOrder 5 (calls_of server happenings)
unfolding route
happenings-InOrder = ((omega arith, omega arith, omega arith, omega arith), (omega arith, tt))

started_bound_example :
    (let rate = (load_config environment).rate_limit.max_rate_rpm in
      let_in server hosts_only
          (λ s. s)
          (v4 16909060)
          (new_state (load_config environment))
          happenings
        * token
      ≤ rate * token + (calls_end 5 (calls_of server happenings) - 5) * rate)
started_bound_example =
    started_bound server hosts_only (λ s. s) (v4 16909060) environment
      (new_state (load_config environment)) 5 happenings starts happenings-InOrder
