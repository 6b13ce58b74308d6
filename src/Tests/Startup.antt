-- ===== src/Tests/Startup.antt =====
-- Inputs for main.rs and consent.rs of indieweb2-bastion/graphql-dns-api/src.
use civic_connect.Prelude.{
  ℕ, String, ◌≡◌, ◌==◌, refl, Bool, true, false, none, some, List, [], ◌∷◌, ok, err,
}
use civic_connect.Prelude.Text.{split, trim, is_whitespace, parse_uint}
use civic_connect.Dns.Records.{created_record, create_dns_record, validate_dns_record}
use civic_connect.Dns.Consent.{Http, check_dns_operations_consent}
use civic_connect.Dns.Consent.Creation.{Agreed, create_dns_record-Agreed}
use civic_connect.Dns.Database.{
  Engine, connect, dns_records_schema, dnssec_zones_schema, blockchain_provenance_schema,
}
use civic_connect.Dns.Startup.{
  Listening, any_wildcard, allowed_origins, Nickel, default_policy, GraphqlRequest, propose_request,
  approve_request, execute_request,
}
use civic_connect.Tests.Records.{keeper, five_octets}

-- A command of which every output is the default policy.
abbrev nickel : Nickel
nickel = record {
  Json = Unit {0};
  output = λ path. ok (true, [], []);
  from_utf8 = λ bytes. some "";
  from_utf8_lossy = λ bytes. "";
  from_str = λ text. some tt;
  field = λ name json. some json;
  from_value = λ json. some default_policy;
}

abbrev requests : List (GraphqlRequest ℕ)
requests =
    propose_request "p1" (some 5) "update" 0
    ∷ approve_request "p1"
    ∷ execute_request (some 6) "p1"
    ∷ []

-- An engine in which every query succeeds, and is kept.
abbrev engine : Engine
engine = record {
  Session = List (List String);
  open_memory = ok [];
  open_rocksdb = none;
  use_ns_db = λ namespace name db. ok db;
  query = λ statements db. ok (statements ∷ db);
}

abbrev schemas : engine.Session
schemas = blockchain_provenance_schema ∷ dnssec_zones_schema ∷ dns_records_schema ∷ []

opened : connect engine "memory" ≡ ok schemas
unfolding connect
opened = refl

-- A listener that can be bound, and headers that are texts.
abbrev listener : Listening
listener = record { HeaderValue = String; parse = some; is_wildcard = λ v. v == "*"; bind = true }

-- The conditions of a start hold without a setting of origins, and fail for a wildcard.
no_wildcard : any_wildcard listener (allowed_origins listener none) ≡ false
unfolding allowed_origins trim split is_whitespace
no_wildcard = refl

wildcard : any_wildcard listener (allowed_origins listener (some "https://a.example, *")) ≡ true
unfolding allowed_origins trim split is_whitespace
wildcard = refl

-- A service of which every answer allows, or is the text of a status.
abbrev http : Http
http = record {
  Json = Bool;
  post = λ url body. ok (200, ok true);
  fetch = λ url. ok (404, err "");
  operation = λ name. false;
  index = λ json name. json;
  as_bool = some;
  url_encode = λ text. text;
  show_status = λ status. "";
}

created :
    create_dns_record keeper
      (check_dns_operations_consent http "http://localhost:8082")
      "r1"
      7
      (some "alice")
      five_octets
      []
    ≡ ok (created_record "r1" 7 five_octets, created_record "r1" 7 five_octets ∷ [])
unfolding create_dns_record check_dns_operations_consent validate_dns_record split parse_uint
created = refl

create_dns_record-Agreed_example :
    (who : String) × (some "alice" ≡ some who) × Agreed http "http://localhost:8082" who
create_dns_record-Agreed_example =
    create_dns_record-Agreed http "http://localhost:8082" keeper "r1" 7 five_octets [] _
      (some "alice") _ created
