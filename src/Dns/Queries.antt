-- ===== src/Dns/Queries.antt =====
-- indieweb2-bastion/graphql-dns-api/src: of resolvers.rs, db.rs and models.rs the queries. The answers of
-- SurrealDB to a query with its bindings are a parameter.
pub mod Reverse
use civic_connect.Prelude.{
  String, Option, none, some, List, [], ◌∷◌, ◌++◌, map, if◌then◌else◌, Result, ok, err, map_err,
  ◌>>=◌,
}
use civic_connect.Prelude.Text.{append}
use civic_connect.Dns.Policy.{
  Policy, ProposalStatus, status_eq, MutationProposal, PolicyEnforcer, get_proposal, get_proposals,
}
use civic_connect.Dns.Records.{
  ℤ, pos, DnsRecordType, a, aaaa, cname, mx, txt, srv, caa, tlsa, ns, soa, ptr, DnsRecord,
  ResolverError, database, Surreal, get_record, ip_to_reverse_name,
}
use civic_connect.Dns.Zones.{
  DnssecZone, BlockchainProvenance, Tables, get_dnssec_zone, get_provenance,
}

-- What is bound to a name of a query.
pub data Binding : Type 0 where
  number : ℤ → Binding
  text : String → Binding

pub record RecordTypeCount : Type 0 where
  pub record_type : DnsRecordType
  pub count : ℤ

pub record ReverseDnsResult : Type 0 where
  pub ip : String
  pub hostnames : List String
  pub ptr_records : List DnsRecord

pub record DnsStatistics : Type 0 where
  pub total_records : ℤ
  pub records_by_type : List RecordTypeCount
  pub dnssec_zones : ℤ
  pub blockchain_anchored : ℤ

-- The answers of the database: the records, the count and the counts by type that a query selects.
pub record Answering (db : Surreal) : Type 0 where
  pub select_records : String → List (String × Binding) → db.Store → Result String (List DnsRecord)
  pub select_count : String → db.Store → Result String (Option ℤ)
  pub select_counts : String → db.Store → Result String (List RecordTypeCount)

-- `{:?}` of a type
unfoldable pub show_type : DnsRecordType → String
show_type a = "A"
show_type aaaa = "AAAA"
show_type cname = "CNAME"
show_type mx = "MX"
show_type txt = "TXT"
show_type srv = "SRV"
show_type caa = "CAA"
show_type tlsa = "TLSA"
show_type ns = "NS"
show_type soa = "SOA"
show_type ptr = "PTR"

abbrev pub condition {ℓ} : {A : Type ℓ} → String → Option A → List String
condition c none = []
condition c (some x) = c ∷ []

-- `conditions.join(" AND ")`
abbrev pub join_and : List String → String
join_and [] = ""
join_and (c ∷ []) = c
join_and (c ∷ d ∷ ds) = append c (append " AND " (join_and (d ∷ ds)))

-- The text of the query for some conditions.
unfoldable pub query_text : List String → String
query_text [] = "SELECT * FROM dns_records LIMIT $limit START $offset"
query_text (c ∷ cs) =
    append "SELECT * FROM dns_records WHERE "
      (append (join_and (c ∷ cs)) " LIMIT $limit START $offset")

abbrev pub binding : String → Option Binding → List (String × Binding)
binding name none = []
binding name (some b) = (name, b) ∷ []

abbrev pub bind_text {ℓ} : {A : Type ℓ} → (A → String) → Option A → Option Binding
bind_text show none = none
bind_text show (some x) = some (text (show x))

abbrev pub unwrap_or_zero : Option ℤ → ℤ
unwrap_or_zero none = pos 0
unwrap_or_zero (some n) = n

-- `match … { Ok(x) => Ok(Some(x)), Err(_) => Ok(None) }`
abbrev pub if_found {ℓ κ} : {E : Type ℓ} {A : Type κ} → Result E A → Option A
if_found (ok x) = some x
if_found (err e) = none

module _ (db : Surreal) (q : Answering db) where
  unfoldable pub query_records :
      Option String
      → Option DnsRecordType
      → ℤ
      → ℤ
      → db.Store
      → Result ResolverError (List DnsRecord)
  unfolding query_text show_type
  query_records name record_type limit offset store = map_err database (
      q.select_records
        (query_text (condition "name = $name" name ++ condition "type = $record_type" record_type))
        (("limit", number limit)
          ∷ ("offset", number offset)
          ∷ (binding "name" (bind_text (λ n. n) name)
              ++ binding "record_type" (bind_text show_type record_type)))
        store)

  unfoldable pub dns_record : String → db.Store → Option DnsRecord
  dns_record id store = if_found (get_record db id store)

  unfoldable pub dns_records :
      Option String
      → Option DnsRecordType
      → ℤ
      → ℤ
      → db.Store
      → Result ResolverError (List DnsRecord)
  dns_records name record_type limit offset store =
      query_records name record_type limit offset store

  unfoldable pub reverse_dns : String → db.Store → Result ResolverError ReverseDnsResult
  reverse_dns ip store = do
    reverse_name ← ip_to_reverse_name ip
    ptr_records ← query_records (some reverse_name) (some ptr) (pos 100) (pos 0) store
    ok (record { ip = ip; hostnames = map (λ r. r.value) ptr_records; ptr_records = ptr_records })

  unfoldable pub dnssec_zone : Tables db → String → db.Store → Option DnssecZone
  dnssec_zone t zone store = if_found (get_dnssec_zone db t zone store)

  unfoldable pub blockchain_provenance : Tables db → String → db.Store → Option BlockchainProvenance
  blockchain_provenance t record_id store = if_found (get_provenance db t record_id store)

  unfoldable pub get_statistics : db.Store → Result ResolverError (ℤ × List RecordTypeCount × ℤ × ℤ)
  get_statistics store = do
    total ← map_err database (q.select_count "SELECT count() FROM dns_records GROUP ALL" store)
    type_counts ←
        map_err database
          (q.select_counts "SELECT type, count() FROM dns_records GROUP BY type" store)
    dnssec ←
        map_err database
          (q.select_count "SELECT count() FROM dnssec_zones WHERE enabled = true GROUP ALL" store)
    blockchain ← map_err database (
        q.select_count
          "SELECT count() FROM dns_records WHERE blockchain_tx_hash IS NOT NULL GROUP ALL" store)
    ok (unwrap_or_zero total, type_counts, unwrap_or_zero dnssec, unwrap_or_zero blockchain)

  unfoldable pub statistics : db.Store → Result ResolverError DnsStatistics
  unfolding get_statistics
  statistics store = do
    counts ← get_statistics store
    ok (record {
      total_records = counts.0;
      records_by_type = counts.1;
      dnssec_zones = counts.2;
      blockchain_anchored = counts.3;
    })

-- The proposals of a status, if one is asked for.
abbrev pub of_status :
    {J : Type 0} → Option ProposalStatus → List (MutationProposal J) → List (MutationProposal J)
of_status none ps = ps
of_status (some status) [] = []
of_status (some status) (p ∷ ps) =
    let rest = of_status (some status) ps in if status_eq p.status status then p ∷ rest else rest

module _ {J : Type 0} where
  unfoldable pub policy : PolicyEnforcer J → Policy
  policy e = e.policy

  unfoldable pub proposal : String → PolicyEnforcer J → Option (MutationProposal J)
  proposal id e = get_proposal e id

  unfoldable pub proposals : Option ProposalStatus → PolicyEnforcer J → List (MutationProposal J)
  proposals status e = of_status status (get_proposals e)
