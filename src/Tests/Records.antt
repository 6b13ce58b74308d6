-- ===== src/Tests/Records.antt =====
-- Inputs for models.rs and resolvers.rs of indieweb2-bastion/graphql-dns-api/src.
use civic_connect.Prelude.{ℕ, String, ◌≡◌, ◌≢◌, ◌↔◌, true, false, none, some, List, [], ◌∷◌, ok}
use civic_connect.Dns.Records.{
  pos, a, DnsRecord, DnsRecordInput, validate_dns_record, Surreal, Consent, create_dns_record,
}
use civic_connect.Dns.Records.Accepted.{AcceptsValue, validate_dns_record_iff}
use civic_connect.Dns.Records.Creation.{Accepts, create_dns_record_iff}

abbrev pub five_octets : DnsRecordInput
five_octets = record {
  name = "host.example";
  record_type = a;
  ttl = pos 300;
  value = "1.2.3.4.5";
  dnssec = none;
}

validate_dns_record_iff_example : (validate_dns_record five_octets ≡ ok tt) ↔ (
    (five_octets.name ≢ "")
    × ((n : ℕ) × (five_octets.ttl ≡ pos n))
    × AcceptsValue a five_octets.value)
validate_dns_record_iff_example = validate_dns_record_iff five_octets

-- A database that keeps what it is given.
abbrev pub keeper : Surreal
keeper = record {
  Store = List DnsRecord;
  create = λ r store. ok (some r, r ∷ store);
  select = λ id store. ok none;
  update = λ id r store. ok (none, store);
  delete = λ id store. ok store;
}

abbrev all_consent : Consent
all_consent who = ok true

-- The record of the input, with the flag that it does not give.
abbrev stored_octets : DnsRecord
stored_octets = record {
  id = "r1";
  name = "host.example";
  record_type = a;
  ttl = pos 300;
  value = "1.2.3.4.5";
  dnssec = false;
  rrsig = none;
  blockchain_tx_hash = none;
  created_at = 7;
  updated_at = 7;
}

create_dns_record_iff_example :
    (create_dns_record keeper all_consent "r1" 7 (some "alice") five_octets []
      ≡ ok (stored_octets, stored_octets ∷ []))
    ↔ ((who : String) × (some "alice" ≡ some who)
        × (all_consent who ≡ ok true)
        × Accepts five_octets
        × (keeper.create stored_octets [] ≡ ok (some stored_octets, stored_octets ∷ [])))
create_dns_record_iff_example =
    create_dns_record_iff keeper all_consent "r1" 7 five_octets [] (some "alice") stored_octets
      (stored_octets ∷ [])
