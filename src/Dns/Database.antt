-- ===== src/Dns/Database.antt =====
-- indieweb2-bastion/graphql-dns-api/src/db.rs: the connection to SurrealDB and the schema of its tables.
-- The engine is a parameter; a text of several statements is the list of them.
use civic_connect.Prelude.{
  String, Option, none, some, List, [], ◌∷◌, ◌==◌, if◌then◌else◌, Result, err, map_err, ◌>>=◌,
}
use civic_connect.Prelude.Text.{append}

-- What is used of the engine; `open_rocksdb` is there where the feature is.
pub record Engine : Type 1 where
  pub Session : Type 0
  pub open_memory : Result String Session
  pub open_rocksdb : Option (String → Result String Session)
  pub use_ns_db : String → String → Session → Result String Session
  pub query : List String → Session → Result String Session

pub data ConnectError : Type 0 where
  database_error internal_error : String → ConnectError

abbrev pub dns_records_schema : List String
dns_records_schema =
    "DEFINE TABLE IF NOT EXISTS dns_records SCHEMAFULL"
    ∷ "DEFINE FIELD IF NOT EXISTS name ON dns_records TYPE string"
    ∷ "DEFINE FIELD IF NOT EXISTS type ON dns_records TYPE string"
    ∷ "DEFINE FIELD IF NOT EXISTS ttl ON dns_records TYPE int"
    ∷ "DEFINE FIELD IF NOT EXISTS value ON dns_records TYPE string"
    ∷ "DEFINE FIELD IF NOT EXISTS dnssec ON dns_records TYPE bool"
    ∷ "DEFINE FIELD IF NOT EXISTS rrsig ON dns_records TYPE option<string>"
    ∷ "DEFINE FIELD IF NOT EXISTS blockchain_tx_hash ON dns_records TYPE option<string>"
    ∷ "DEFINE FIELD IF NOT EXISTS created_at ON dns_records TYPE datetime"
    ∷ "DEFINE FIELD IF NOT EXISTS updated_at ON dns_records TYPE datetime"
    ∷ "DEFINE INDEX IF NOT EXISTS name_idx ON dns_records COLUMNS name"
    ∷ "DEFINE INDEX IF NOT EXISTS type_idx ON dns_records COLUMNS type" ∷ []

abbrev pub dnssec_zones_schema : List String
dnssec_zones_schema =
    "DEFINE TABLE IF NOT EXISTS dnssec_zones SCHEMAFULL"
    ∷ "DEFINE FIELD IF NOT EXISTS zone ON dnssec_zones TYPE string"
    ∷ "DEFINE FIELD IF NOT EXISTS enabled ON dnssec_zones TYPE bool"
    ∷ "DEFINE FIELD IF NOT EXISTS ksk ON dnssec_zones TYPE option<string>"
    ∷ "DEFINE FIELD IF NOT EXISTS zsk ON dnssec_zones TYPE option<string>"
    ∷ "DEFINE FIELD IF NOT EXISTS ds_record ON dnssec_zones TYPE option<string>"
    ∷ "DEFINE FIELD IF NOT EXISTS last_rotation ON dnssec_zones TYPE option<datetime>"
    ∷ "DEFINE INDEX IF NOT EXISTS zone_idx ON dnssec_zones COLUMNS zone UNIQUE" ∷ []

abbrev pub blockchain_provenance_schema : List String
blockchain_provenance_schema =
    "DEFINE TABLE IF NOT EXISTS blockchain_provenance SCHEMAFULL"
    ∷ "DEFINE FIELD IF NOT EXISTS record_id ON blockchain_provenance TYPE string"
    ∷ "DEFINE FIELD IF NOT EXISTS content_hash ON blockchain_provenance TYPE string"
    ∷ "DEFINE FIELD IF NOT EXISTS network ON blockchain_provenance TYPE string"
    ∷ "DEFINE FIELD IF NOT EXISTS tx_hash ON blockchain_provenance TYPE string"
    ∷ "DEFINE FIELD IF NOT EXISTS block_number ON blockchain_provenance TYPE int"
    ∷ "DEFINE FIELD IF NOT EXISTS timestamp ON blockchain_provenance TYPE datetime"
    ∷ "DEFINE INDEX IF NOT EXISTS record_idx ON blockchain_provenance COLUMNS record_id" ∷ []

-- The error of a path that is no memory where the feature rocksdb is missing.
abbrev pub needs_rocksdb : String → ConnectError
needs_rocksdb path = internal_error (
    append "persistent storage path '" (
      append path
        "' requires the 'rocksdb' feature — rebuild with: cargo build --features rocksdb"))

module _ (g : Engine) where
  unfoldable pub init_schema : g.Session → Result ConnectError g.Session
  init_schema db = do
    with_records ← map_err database_error (g.query dns_records_schema db)
    with_zones ← map_err database_error (g.query dnssec_zones_schema with_records)
    map_err database_error (g.query blockchain_provenance_schema with_zones)

  abbrev pub open_path :
      Option (String → Result String g.Session) → String → Result ConnectError g.Session
  open_path none path = err (needs_rocksdb path)
  open_path (some open_rocksdb) path = map_err database_error (open_rocksdb path)

  unfoldable pub connect : String → Result ConnectError g.Session
  unfolding init_schema
  connect path = do
    db ←
        if path == "memory"
        then map_err database_error g.open_memory
        else open_path g.open_rocksdb path
    selected ← map_err database_error (g.use_ns_db "indieweb2" "dns" db)
    init_schema selected
