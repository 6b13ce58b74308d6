-- ===== src/Dns/Consent/Creation.antt =====
-- indieweb2-bastion/graphql-dns-api/src: consent.rs and resolvers.rs, a record that is created with the
-- answer of the consent service.
use civic_connect.Prelude.{
  ℕ, String, ◌≡◌, refl, ap, ◌∙◌, inl, inr, Bool, true, false, Option, none, some, Bool-cases,
  Result, ok, bind-ok_inv,
}
use native.Mathlib.Omega.{arith}
use civic_connect.Prelude.Text.{append}
use civic_connect.Dns.Records.{DnsRecord, DnsRecordInput, Surreal, create_dns_record}
use civic_connect.Dns.Records.Creation.{create_dns_record_iff}
use civic_connect.Dns.Consent.{
  Http, is_success, unwrap_or_false, read_check, check_dns_operations_consent,
}

unwrap_or_false_iff : (o : Option Bool) → unwrap_or_false o ≡ true → o ≡ some true
unwrap_or_false_iff (some true) e = refl
unwrap_or_false_iff (some false) e = absurd (cc e)
unwrap_or_false_iff none e = absurd (cc e)

module _ (h : Http) (base_url : String) where
  -- The service answered the check of an identity with a success and a body in which `allowed` is
  -- true.
  abbrev pub Agreed : String → Type 0
  Agreed identity =
      (status : ℕ) × (result : h.Json) × (h.post
          (append base_url (append "/consent/" (append (h.url_encode identity) "/check")))
          (h.operation "dnsOperations")
        ≡ ok (status, ok result))
      × (is_success status ≡ true)
      × (h.as_bool (h.index result "allowed") ≡ some true)

  read_check-true :
      (status : ℕ) (body : Result String h.Json)
      → read_check h base_url (status, body) ≡ ok true
      → (result : h.Json) × (body ≡ ok result)
        × (is_success status ≡ true)
        × (h.as_bool (h.index result "allowed") ≡ some true)
  unfolding read_check
  read_check-true status body e = elim (Bool-cases (is_success status)) [
    | inl good ↦
        (let f = rw (good) at e in
          let (result, p, q) = bind-ok_inv body _ true f in
          (result, p, good, unwrap_or_false_iff (h.as_bool (h.index result "allowed")) (cc q)))
    | inr bad ↦ absurd (ground (arith, e, bad))
  ]

  consent-Agreed :
      (identity : String)
      → check_dns_operations_consent h base_url identity ≡ ok true
      → Agreed identity
  unfolding check_dns_operations_consent
  consent-Agreed identity e =
      let ((status, body), p, q) =
        bind-ok_inv
          (h.post (append base_url (append "/consent/" (append (h.url_encode identity) "/check")))
            (h.operation "dnsOperations"))
          _ true e in
      let (result, r, good, agreed) = read_check-true status body q in
      (status, result, p ∙ ap (λ b. ok (status, b)) r, good, agreed)

  -- No record without consent: when a record is created with the consent service at this URL, the
  -- request has an identity for which the service answered the check with a success and a body whose
  -- field `allowed` is true. (No answer, another status, another body or none in it create nothing.)
  pub create_dns_record-Agreed :
      (db : Surreal) (id : String) (now : ℕ) (input : DnsRecordInput) (store after : db.Store)
      (identity : Option String) (r : DnsRecord)
      → create_dns_record db (check_dns_operations_consent h base_url) id now identity input store
        ≡ ok (r, after)
      → (who : String) × (identity ≡ some who) × Agreed who
  create_dns_record-Agreed db id now input store after identity r e =
      let (who, p, q, fine, done) =
        (create_dns_record_iff db (check_dns_operations_consent h base_url) id now input store
            identity r after).0
          e in
      (who, p, consent-Agreed who q)
