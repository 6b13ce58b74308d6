-- ===== src/Dns/Records.antt =====
-- indieweb2-bastion/graphql-dns-api/src: models.rs, and of resolvers.rs the mutations of records with
-- what they call of consent.rs and db.rs. SurrealDB and the consent service are parameters; a fresh
-- identifier and a reading of the clock are arguments.
pub mod Validation
pub mod Accepted
pub mod Creation
pub mod Content
use civic_connect.Prelude.{
  ℕ, String, Bool, true, false, not, Option, none, some, List, [], ◌∷◌, if◌then◌else◌, Result, ok,
  err, map_err, ok_or, ◌>>=◌, ◌>>◌, ◌&&◌,
}
use civic_connect.Prelude.Text.{append, replace, is_empty, has_char, split, join, parse_uint}

-- A signed number: an i32 or an i64.
pub data ℤ : Type 0 where
  pos negsuc : ℕ → ℤ

pub data DnsRecordType : Type 0 where
  a aaaa cname mx txt srv caa tlsa ns soa ptr : DnsRecordType

pub record DnsRecord : Type 0 where
  pub id : String
  pub name : String
  pub record_type : DnsRecordType
  pub ttl : ℤ
  pub value : String
  pub dnssec : Bool
  pub rrsig : Option String
  pub blockchain_tx_hash : Option String
  pub created_at : ℕ
  pub updated_at : ℕ

pub record DnsRecordInput : Type 0 where
  pub name : String
  pub record_type : DnsRecordType
  pub ttl : ℤ
  pub value : String
  pub dnssec : Option Bool

-- `DNSRecord::new`
unfoldable pub new_record : String → ℕ → String → DnsRecordType → ℤ → String → DnsRecord
new_record id now name record_type ttl value = record {
  id = id;
  name = name;
  record_type = record_type;
  ttl = ttl;
  value = value;
  dnssec = false;
  rrsig = none;
  blockchain_tx_hash = none;
  created_at = now;
  updated_at = now;
}

pub data ResolverError : Type 0 where
  authentication_required internal : ResolverError
  consent_error no_consent invalid database record_not_found zone_not_found : String → ResolverError

abbrev pub is_negative : ℤ → Bool
is_negative (pos n) = false
is_negative (negsuc n) = true

-- `parse::<u8>().is_ok()`
abbrev pub is_octet : String → Bool
is_octet part = elim (parse_uint 256 part) [ none ↦ false | some n ↦ true ]

abbrev pub all_octets : List String → Bool
all_octets [] = true
all_octets (p ∷ ps) = is_octet p && all_octets ps

unfoldable pub validate_value : DnsRecordType → String → Result ResolverError (Unit {0})
validate_value a value =
    if not (all_octets (split "." value)) then err (invalid "Invalid IPv4 address") else ok tt
validate_value aaaa value =
    if not (has_char ":" value) then err (invalid "Invalid IPv6 address") else ok tt
validate_value _ value =
    if is_empty value then err (invalid "Record value cannot be empty") else ok tt

unfoldable pub validate_dns_record : DnsRecordInput → Result ResolverError (Unit {0})
unfolding validate_value
validate_dns_record input =
    if is_empty input.name
    then err (invalid "DNS name cannot be empty")
    else if is_negative input.ttl
    then err (invalid "TTL must be positive")
    else validate_value input.record_type input.value

-- `ip_to_reverse_name` of the parts of an IPv4 address.
abbrev pub reverse_parts : List String → Result ResolverError String
reverse_parts (p0 ∷ p1 ∷ p2 ∷ p3 ∷ []) = ok (join "." (p3 ∷ p2 ∷ p1 ∷ p0 ∷ "in-addr" ∷ "arpa" ∷ []))
reverse_parts _ = err (invalid "Invalid IPv4 address")

unfoldable pub ip_to_reverse_name : String → Result ResolverError String
ip_to_reverse_name ip =
    if has_char ":" ip
    then ok (append (replace ":" "." ip) ".ip6.arpa")
    else reverse_parts (split "." ip)

-- The calls of SurrealDB on the table `dns_records`, with its errors.
pub record Surreal : Type 1 where
  pub Store : Type 0
  pub create : DnsRecord → Store → Result String (Option DnsRecord × Store)
  pub select : String → Store → Result String (Option DnsRecord)
  pub update : String → DnsRecord → Store → Result String (Option DnsRecord × Store)
  pub delete : String → Store → Result String Store

-- `check_dns_operations_consent`, with its errors.
abbrev pub Consent : Type 0
Consent = String → Result String Bool

abbrev pub consented : String → Bool → Result ResolverError (Unit {0})
consented identity allowed = if not allowed then err (no_consent identity) else ok tt

unfoldable pub require_dns_consent : Consent → String → Result ResolverError (Unit {0})
require_dns_consent consent identity = do
  allowed ← map_err consent_error (consent identity)
  consented identity allowed

abbrev pub with_dnssec : Option Bool → DnsRecord → DnsRecord
with_dnssec none r = r
with_dnssec (some dnssec) r = record r { dnssec = dnssec }

-- The record that `create_dns_record` stores.
unfoldable pub created_record : String → ℕ → DnsRecordInput → DnsRecord
unfolding new_record
created_record id now input =
    with_dnssec input.dnssec (new_record id now input.name input.record_type input.ttl input.value)

-- What `update_dns_record` makes of the stored record.
unfoldable pub updated_record : ℕ → DnsRecordInput → DnsRecord → DnsRecord
updated_record now input r = with_dnssec input.dnssec (record r {
  name = input.name;
  record_type = input.record_type;
  ttl = input.ttl;
  value = input.value;
  updated_at = now;
})

module _ (db : Surreal) where
  -- The record of an answer, or the error of none.
  abbrev pub stored :
      ResolverError → Option DnsRecord × db.Store → Result ResolverError (DnsRecord × db.Store)
  stored e (some r, store) = ok (r, store)
  stored e (none, store) = err e

  unfoldable pub create_record : DnsRecord → db.Store → Result ResolverError (DnsRecord × db.Store)
  create_record r store = do created ← map_err database (db.create r store); stored internal created

  unfoldable pub get_record : String → db.Store → Result ResolverError DnsRecord
  get_record id store = do
    found ← map_err database (db.select id store)
    ok_or found (record_not_found id)

  unfoldable pub update_record :
      String → DnsRecord → db.Store → Result ResolverError (DnsRecord × db.Store)
  update_record id r store = do
    updated ← map_err database (db.update id r store)
    stored (record_not_found id) updated

  unfoldable pub delete_record : String → db.Store → Result ResolverError (Bool × db.Store)
  delete_record id store = do rest ← map_err database (db.delete id store); ok (true, rest)

  -- `identity` is the one in the context of the request, if any.
  unfoldable pub create_dns_record :
      Consent
      → String
      → ℕ
      → Option String
      → DnsRecordInput
      → db.Store
      → Result ResolverError (DnsRecord × db.Store)
  unfolding require_dns_consent create_record created_record
  create_dns_record consent id now identity input store = do
    who ← ok_or identity authentication_required
    require_dns_consent consent who
    validate_dns_record input
    create_record (created_record id now input) store

  unfoldable pub update_dns_record :
      ℕ → String → DnsRecordInput → db.Store → Result ResolverError (DnsRecord × db.Store)
  unfolding get_record update_record updated_record
  update_dns_record now id input store = do
    r ← get_record id store
    validate_dns_record input
    update_record id (updated_record now input r) store

  unfoldable pub delete_dns_record : String → db.Store → Result ResolverError (Bool × db.Store)
  unfolding delete_record
  delete_dns_record id store = do deleted ← delete_record id store; ok (true, deleted.1)
