-- ===== src/Dns/Records/Validation.antt =====
-- indieweb2-bastion/graphql-dns-api/src/resolvers.rs: which inputs pass, and reverse names.
use civic_connect.Prelude.{String, ◌≡◌, refl, ap, ◌∙◌, true, false, List, [], ◌∷◌, ok, All}
use civic_connect.Prelude.Text.{is_empty, has_char, split, join, split-join}
use civic_connect.Dns.Records.{
  DnsRecordInput, a, is_negative, is_octet, all_octets, validate_value, validate_dns_record,
  reverse_parts, ip_to_reverse_name,
}

all_octets-All : (ps : List String) → All (λ p. is_octet p ≡ true) ps → all_octets ps ≡ true
all_octets-All [] h = refl
all_octets-All (p ∷ ps) h = rw (h.0, all_octets-All ps h.1) refl

octets_value :
    (p : String) (ps : List String)
    → All (λ q. has_char "." q ≡ false) (p ∷ ps)
    → All (λ q. is_octet q ≡ true) (p ∷ ps)
    → validate_value a (join "." (p ∷ ps)) ≡ ok tt
unfolding validate_value
octets_value p ps plain octets = rw (split-join "." p ps plain, all_octets-All (p ∷ ps) octets) refl

addr_plain : has_char "." "in-addr" ≡ false
unfolding has_char
addr_plain = refl

arpa_plain : has_char "." "arpa" ≡ false
unfolding has_char
arpa_plain = refl

-- Any number of octets passes for an IPv4 address: an input of type A with a name and a TTL that is
-- not negative is valid when its value is one or more octets with dots between them.
pub octets_pass :
    (input : DnsRecordInput) (p : String) (ps : List String)
    → is_empty input.name ≡ false
    → is_negative input.ttl ≡ false
    → input.record_type ≡ a
    → input.value ≡ join "." (p ∷ ps)
    → All (λ q. has_char "." q ≡ false) (p ∷ ps)
    → All (λ q. is_octet q ≡ true) (p ∷ ps)
    → validate_dns_record input ≡ ok tt
unfolding validate_dns_record
octets_pass input p ps named lasting typed value plain octets =
    rw (named, lasting)
      (ap (λ t. validate_value t input.value) typed
        ∙ ap (validate_value a) value
        ∙ octets_value p ps plain octets)

-- The reverse name of an IPv4 address of four parts has these parts in reverse order and then
-- in-addr and arpa.
pub split-ip_to_reverse_name :
    (p0 p1 p2 p3 : String)
    → All (λ q. has_char "." q ≡ false) (p0 ∷ p1 ∷ p2 ∷ p3 ∷ [])
    → has_char ":" (join "." (p0 ∷ p1 ∷ p2 ∷ p3 ∷ [])) ≡ false
    → (name : String) × (ip_to_reverse_name (join "." (p0 ∷ p1 ∷ p2 ∷ p3 ∷ [])) ≡ ok name)
      × (split "." name ≡ p3 ∷ p2 ∷ p1 ∷ p0 ∷ "in-addr" ∷ "arpa" ∷ [])
unfolding ip_to_reverse_name
split-ip_to_reverse_name p0 p1 p2 p3 plain v4 = (
  join "." (p3 ∷ p2 ∷ p1 ∷ p0 ∷ "in-addr" ∷ "arpa" ∷ []),
  rw v4 (ap reverse_parts (split-join "." p0 (p1 ∷ p2 ∷ p3 ∷ []) plain)),
  split-join "." p3 (p2 ∷ p1 ∷ p0 ∷ "in-addr" ∷ "arpa" ∷ [])
      (plain.1.1.1.0, (plain.1.1.0, (plain.1.0, (plain.0, (addr_plain, (arpa_plain, tt)))))),
)
