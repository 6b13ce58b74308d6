-- ===== src/Dns/Records/Creation.antt =====
-- indieweb2-bastion/graphql-dns-api/src/resolvers.rs: who creates a record.
use civic_connect.Prelude.{
  ◌≢◌, ℕ, String, ◌≡◌, ◌↔◌, refl, subst, true, false, Bool, Option, none, some, ok, err, Result,
  map_err, ◌>>=◌, ◌>>◌,
}
use civic_connect.Dns.Records.Accepted.{AcceptsValue, validate_dns_record_iff}
use civic_connect.Dns.Records.{
  ℤ, pos, DnsRecordType, new_record, DnsRecord, DnsRecordInput, ResolverError, consent_error,
  database, internal, stored, consented, Surreal, Consent, require_dns_consent, validate_dns_record,
  create_record, created_record, create_dns_record,
}

chain_iff :
    {A : Type 0} (m : Result ResolverError (Unit {0})) (k : Result ResolverError A) (x : A)
    → ((m >> k) ≡ ok x) ↔ ((m ≡ ok tt) × (k ≡ ok x))
chain_iff (ok u) k x = (λ e. (refl, e), λ h. h.1)
chain_iff (err e) k x = (λ f. absurd (cc f), λ h. absurd (cc h.0))

consent_iff :
    (answer : Result String Bool) (who : String)
    → ((map_err consent_error answer >>= consented who) ≡ ok tt) ↔ (answer ≡ ok true)
consent_iff (ok true) who = (λ e. refl, λ e. refl)
consent_iff (ok false) who = (λ e. absurd (cc e), λ e. absurd (cc e))
consent_iff (err m) who = (λ e. absurd (cc e), λ e. absurd (cc e))

-- What the validation accepts: a name, a TTL that is not negative, and a value of the type.
abbrev pub Accepts : DnsRecordInput → Type 0
Accepts input =
    (input.name ≢ "") × ((n : ℕ) × (input.ttl ≡ pos n)) × AcceptsValue input.record_type input.value

abbrev pub flag_or_false : Option Bool → Bool
flag_or_false none = false
flag_or_false (some flag) = flag

-- A new record with the name, type, TTL, value and flag of the input, and nothing else.
abbrev pub record_of : String → ℕ → DnsRecordInput → DnsRecord
record_of id now input = record {
  id = id;
  name = input.name;
  record_type = input.record_type;
  ttl = input.ttl;
  value = input.value;
  dnssec = flag_or_false input.dnssec;
  rrsig = none;
  blockchain_tx_hash = none;
  created_at = now;
  updated_at = now;
}

created_record-record_of :
    (id : String) (now : ℕ) (name : String) (kind : DnsRecordType) (ttl : ℤ) (value : String)
    (dnssec : Option Bool)
    → (let input : DnsRecordInput = record {
      name = name;
      record_type = kind;
      ttl = ttl;
      value = value;
      dnssec = dnssec;
    } in
        created_record id now input ≡ record_of id now input)
unfolding created_record new_record
created_record-record_of id now name kind ttl value none = refl
created_record-record_of id now name kind ttl value (some flag) = refl

stored_iff :
    (db : Surreal) (answer : Result String (Option DnsRecord × db.Store)) (r : DnsRecord)
    (after : db.Store)
    → ((map_err database answer >>= stored db internal) ≡ ok (r, after))
      ↔ (answer ≡ ok (some r, after))
stored_iff db (ok (some s, store)) r after = (λ e. cc e, λ e. cc e)
stored_iff db (ok (none, store)) r after = (λ e. absurd (cc e), λ e. absurd (cc e))
stored_iff db (err m) r after = (λ e. absurd (cc e), λ e. absurd (cc e))

module _ (db : Surreal) (consent : Consent) (id : String) (now : ℕ) (input : DnsRecordInput)
    (store : db.Store) where
  create_record_iff :
      (r : DnsRecord) (after : db.Store)
      → (create_record db (created_record id now input) store ≡ ok (r, after))
        ↔ (db.create (record_of id now input) store ≡ ok (some r, after))
  unfolding create_record
  create_record_iff r after =
      subst
        (λ x.
          (create_record db (created_record id now input) store ≡ ok (r, after))
          ↔ (db.create x store ≡ ok (some r, after)))
        (created_record-record_of id now input.name input.record_type input.ttl input.value
          input.dnssec)
        (stored_iff db (db.create (created_record id now input) store) r after)

  -- A record is created, with a new state of the store, exactly when the request has an identity that
  -- consented to DNS operations, the input has a name, a TTL that is not negative and a value that is
  -- one of its type, and the database answers with the record when it is given one of the name, type,
  -- TTL, value and DNSSEC flag of the input (false when there is none), without signature and
  -- transaction, created and updated now.
  pub create_dns_record_iff :
      (identity : Option String) (r : DnsRecord) (after : db.Store)
      → (create_dns_record db consent id now identity input store ≡ ok (r, after)) ↔ (
          (who : String) × (identity ≡ some who)
          × (consent who ≡ ok true)
          × Accepts input
          × (db.create (record_of id now input) store ≡ ok (some r, after)))
  unfolding create_dns_record require_dns_consent
  create_dns_record_iff none r after = (λ e. absurd (cc e), λ h. absurd (cc h.1))
  create_dns_record_iff (some who) r after =
      let last = create_record db (created_record id now input) store in
      let outer =
        chain_iff (require_dns_consent consent who) (validate_dns_record input >> last)
          (r, after) in
      let inner = chain_iff (validate_dns_record input) last (r, after) in
      let accepted = validate_dns_record_iff input in
      (
        λ e.
            (let (agreed, rest) = outer.0 e in
              let (fine, done) = inner.0 rest in
              (
                who,
                refl,
                (consent_iff (consent who) who).0 agreed,
                accepted.0 fine,
                (create_record_iff r after).0 done,
              )),
        λ h. outer.1 (
          (consent_iff (consent who) who).1 (subst (λ w. consent w ≡ ok true) (cc h.1) h.2),
          inner.1 (accepted.1 h.3, (create_record_iff r after).1 h.4),
        ),
      )
