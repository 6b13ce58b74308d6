-- ===== src/Dns/Startup.antt =====
-- indieweb2-bastion/graphql-dns-api/src: main.rs, and from_nickel_file of policy.rs, from the policy file
-- to the requests that the server answers. The command nickel, serde_json and the listener are
-- parameters; the tracing and the constant pages are not modelled.
pub mod Idle
use civic_connect.Prelude.{
  false, true, ◌||◌, if◌then◌else◌, ℕ, String, Bool, true, false, Option, none, some, List, [], ◌∷◌,
  map, Result, ok, err, ok_or, map_err, ◌>>=◌,
}
use civic_connect.Prelude.Text.{split, trim}
use civic_connect.Dns.Policy.{Policy, PolicyEnforcer}
use civic_connect.Dns.Database.{Engine, ConnectError, connect}
use civic_connect.Dns.Mutations.{Request, ask_propose, ask_approve, ask_execute, serve}

-- What is used of the command and of serde_json: whether the command succeeded, with its output and
-- its errors.
pub record Nickel : Type 1 where
  pub Json : Type 0
  pub output : String → Result String (Bool × List ℕ × List ℕ)
  pub from_utf8 : List ℕ → Option String
  pub from_utf8_lossy : List ℕ → String
  pub from_str : String → Option Json
  pub field : String → Json → Option Json
  pub from_value : Json → Option Policy

pub data NickelError : Type 0 where
  command_error export_failed : String → NickelError
  not_utf8 not_json missing_policy not_a_policy : NickelError

module _ (n : Nickel) where
  -- The policy in the output of the command.
  unfoldable pub read_policy : Bool × List ℕ × List ℕ → Result NickelError Policy
  read_policy (false, stdout, stderr) = err (export_failed (n.from_utf8_lossy stderr))
  read_policy (true, stdout, stderr) = do
    json ← ok_or (n.from_utf8 stdout) not_utf8
    policy_wrapper ← ok_or (n.from_str json) not_json
    policy ← ok_or (n.field "policy" policy_wrapper) missing_policy
    ok_or (n.from_value policy) not_a_policy

  unfoldable pub from_nickel_file : {J : Type 0} → String → Result NickelError (PolicyEnforcer J)
  unfolding read_policy
  from_nickel_file path = do
    output ← map_err command_error (n.output path)
    policy ← read_policy output
    ok (record { policy = policy; proposals = [] })

-- The policy of a server whose policy file does not load.
abbrev pub default_policy : Policy
default_policy = record {
  version = "0.1.0";
  capabilities = [];
  mutations = [];
  roles = [];
  routes = [];
  consent_bindings = [];
  constraints = record { require_mtls = false; log_all_mutations = true; max_rate_rpm = 120 };
}

-- The enforcer with which the server starts.
unfoldable pub start_enforcer :
    {J : Type 0} → Result NickelError (PolicyEnforcer J) → PolicyEnforcer J
start_enforcer (ok enforcer) = enforcer
start_enforcer (err e) = record { policy = default_policy; proposals = [] }

-- A mutation of the enforcer in the body of an HTTP request.
pub data GraphqlRequest (J : Type 0) : Type 0 where
  propose_request : String → Option ℕ → String → J → GraphqlRequest J
  approve_request : String → GraphqlRequest J
  execute_request : Option ℕ → String → GraphqlRequest J

-- `graphql_handler` gives the database, the enforcer and the consent client to the context of a request,
-- but no text: the identity that the resolvers look for is missing.
abbrev pub in_context : {J : Type 0} → GraphqlRequest J → Request J
in_context (propose_request id now name payload) = ask_propose id now none name payload
in_context (approve_request id) = ask_approve none id
in_context (execute_request now id) = ask_execute now id

-- The enforcer after some requests.
unfoldable pub graphql_handler :
    {J : Type 0} → PolicyEnforcer J → List (GraphqlRequest J) → PolicyEnforcer J
graphql_handler e requests = serve e (map in_context requests)

-- The origins of ALLOWED_ORIGINS; `parse` is that of a header's value.
abbrev pub filter_map {ℓ κ} : {A : Type ℓ} {B : Type κ} → (A → Option B) → List A → List B
filter_map f [] = []
filter_map f (x ∷ xs) = elim (f x) [ none ↦ filter_map f xs | some y ↦ y ∷ filter_map f xs ]

-- What is used of http, tower-http and tokio for the listener: the parsing of a header's value, whether
-- it is the wildcard `*`, at which `AllowOrigin::list` panics, and whether the port 8080 can be bound.
pub record Listening : Type 1 where
  pub HeaderValue : Type 0
  pub parse : String → Option HeaderValue
  pub is_wildcard : HeaderValue → Bool
  pub bind : Bool

abbrev pub any_wildcard : (w : Listening) → List w.HeaderValue → Bool
any_wildcard w [] = false
any_wildcard w (v ∷ vs) = w.is_wildcard v || any_wildcard w vs

abbrev pub or_localhost : Option String → String
or_localhost none = "https://localhost"
or_localhost (some origins) = origins

unfoldable pub allowed_origins : (w : Listening) → Option String → List w.HeaderValue
allowed_origins w var = filter_map (λ o. w.parse (trim o)) (split "," (or_localhost var))

-- The state that the handlers share: the database, the enforcer and the address of the consent service.
pub record AppState (g : Engine) (J : Type 0) : Type 0 where
  pub db : g.Session
  pub policy : PolicyEnforcer J
  pub consent : String

abbrev pub consent_api_url : Option String → String
consent_api_url none = "http://localhost:8082"
consent_api_url (some url) = url

-- How the start fails; `wildcard_origin` is the panic of `AllowOrigin::list`.
pub data ServerError : Type 0 where
  not_connected : ConnectError → ServerError
  wildcard_origin not_bound : ServerError

-- `AllowOrigin::list`
abbrev pub allow_list :
    (w : Listening) → List w.HeaderValue → Result ServerError (List w.HeaderValue)
allow_list w origins = if any_wildcard w origins then err wildcard_origin else ok origins

-- A server: its state, and the origins that it allows.
pub record Server (g : Engine) (J : Type 0) (w : Listening) : Type 0 where
  pub state : AppState g J
  pub origins : List w.HeaderValue

-- `TcpListener::bind`
abbrev pub bind_port : {S : Type 0} → Listening → S → Result ServerError S
bind_port w server = if w.bind then ok server else err not_bound

-- `main` up to `axum::serve`; `var` is the environment. What the health check of the consent service
-- says is logged only.
unfoldable pub start :
    {J : Type 0}
    → (g : Engine) → Nickel
    → (w : Listening) → (String → Option String)
    → Result ServerError (Server g J w)
unfolding connect start_enforcer from_nickel_file allowed_origins
start g n w var = do
  db ← map_err not_connected (connect g "memory")
  origins ← allow_list w (allowed_origins w (var "ALLOWED_ORIGINS"))
  bind_port w (record {
    state = record {
      db = db;
      policy = start_enforcer (from_nickel_file n "../policy/curps/policy.ncl");
      consent = consent_api_url (var "CONSENT_API_URL");
    };
    origins = origins;
  })
