-- ===== src/Dns/Consent.antt =====
-- indieweb2-bastion/graphql-dns-api/src/consent.rs: the client of the consent service. HTTP requests, JSON
-- values and the encoding of URLs are parameters.
pub mod Creation
use civic_connect.Prelude.{
  ℕ, String, Bool, false, ◌&&◌, Option, none, some, ltb, leb, eqb, if◌then◌else◌, Result, ok, err,
  ◌>>=◌,
}
use civic_connect.Prelude.Text.{append}
use civic_connect.Dns.Records.{Consent}

-- What is used of the crates reqwest, serde_json and urlencoding. A request gives the status of the
-- answer and its body, which may not be JSON.
pub record Http : Type 1 where
  pub Json : Type 0
  pub post : String → Json → Result String (ℕ × Result String Json)
  pub fetch : String → Result String (ℕ × Result String Json)
  pub operation : String → Json
  pub index : Json → String → Json
  pub as_bool : Json → Option Bool
  pub url_encode : String → String
  pub show_status : ℕ → String

pub record ConsentRecord : Type 0 where
  pub identity : String
  pub telemetry : String
  pub indexing : String
  pub webmentions : String
  pub dns_operations : String
  pub timestamp : String
  pub source : String

-- `StatusCode::is_success`
abbrev pub is_success : ℕ → Bool
is_success status = leb 200 status && ltb status 300

abbrev pub unwrap_or_false : Option Bool → Bool
unwrap_or_false (some b) = b
unwrap_or_false none = false

module _ (h : Http) (base_url : String) where
  -- `result["allowed"].as_bool().unwrap_or(false)`
  abbrev pub is_allowed : h.Json → Bool
  is_allowed result = unwrap_or_false (h.as_bool (h.index result "allowed"))

  -- What an answer to the check says.
  unfoldable pub read_check : ℕ × Result String h.Json → Result String Bool
  read_check (status, body) =
      if is_success status
      then (do result ← body; ok (is_allowed result))
      else if eqb status 404
      then ok false
      else err (append "Consent API error: " (h.show_status status))

  unfoldable pub check_dns_operations_consent : Consent
  unfolding read_check
  check_dns_operations_consent identity = do
    response ←
        h.post (append base_url (append "/consent/" (append (h.url_encode identity) "/check")))
          (h.operation "dnsOperations")
    read_check response

  -- `from_json` reads the fields of a record.
  unfoldable pub read_record :
      (h.Json → Result String ConsentRecord)
      → ℕ × Result String h.Json
      → Result String (Option ConsentRecord)
  read_record from_json (status, body) =
      if is_success status
      then (do value ← body; r ← from_json value; ok (some r))
      else if eqb status 404
      then ok none
      else err (append "Consent API error: " (h.show_status status))

  unfoldable pub get_consent :
      (h.Json → Result String ConsentRecord) → String → Result String (Option ConsentRecord)
  unfolding read_record
  get_consent from_json identity = do
    response ← h.fetch (append base_url (append "/consent/" (h.url_encode identity)))
    read_record from_json response

  unfoldable pub health_check : Result String Bool
  health_check = do response ← h.fetch (append base_url "/health"); ok (is_success response.0)
