-- ===== src/Tests/Zones.antt =====
-- Inputs for the zones and the provenance of records of indieweb2-bastion/graphql-dns-api/src.
use civic_connect.Prelude.{
  ℕ, String, ◌≡◌, refl, subst, ◌↔◌, inl, inr, true, false, none, some, List, [], ◌∷◌, ◌++◌, ◌==◌,
  eq_iff, if◌then◌else◌, Bool-cases, All, ok,
}
use civic_connect.Odns.Signatures.{Scheme}
use civic_connect.Prelude.Decimal.{to_string}
use civic_connect.Prelude.Text.{has_char}
use civic_connect.Prelude.Bytes.{as_bytes}
use civic_connect.Dns.Dnssec.{generate_keys}
use civic_connect.Dns.Blockchain.{anchored, anchor_hash, verify_hash, new_client}
use civic_connect.Dns.Records.{pos, a, DnsRecord, Surreal, get_record}
use civic_connect.Dns.Records.Content.{content, content_hash}
use civic_connect.Dns.Zones.{
  DnssecZone, BlockchainProvenance, Tables, IsTables, store_provenance, read_to_anchor,
  record_anchoring, anchor_to_blockchain,
}
use civic_connect.Dns.Zones.Tampering.{verify_hash-content_iff}
use civic_connect.Dns.Zones.Provenance.{anchor_to_blockchain_verifies}
use civic_connect.Tests.Signatures.{echo}
use civic_connect.Tests.Codecs.{hex_codecs, hex_codecs-IsCodec}
use civic_connect.Tests.Blockchain.{ledger, ledger-IsEthers, client, show}

abbrev web : DnsRecord
web = record {
  id = "r1";
  name = "x";
  record_type = a;
  ttl = pos 1;
  value = "0:2:y";
  dnssec = false;
  rrsig = none;
  blockchain_tx_hash = none;
  created_at = 7;
  updated_at = 7;
}

-- Another record with the same hashed text.
abbrev other_web : DnsRecord
other_web = record web { name = "x:0:1"; ttl = pos 2; value = "y" }

same_content : content web ≡ content other_web
unfolding content to_string
same_content = refl

-- A database of zones and provenances that holds one record.
abbrev db : Surreal
db = record {
  Store = List DnssecZone × List BlockchainProvenance;
  create = λ r store. ok (some r, store);
  select = λ id store. ok (some web);
  update = λ id r store. ok (none, store);
  delete = λ id store. ok store;
}

abbrev named : String → List DnssecZone → List DnssecZone
named name [] = []
named name (z ∷ zs) = let rest = named name zs in if z.zone == name then z ∷ rest else rest

named-All : (name : String) (zs : List DnssecZone) → All (λ z. z.zone ≡ name) (named name zs)
named-All name [] = tt
named-All name (z ∷ zs) = elim (Bool-cases (z.zone == name)) [
  | inl h ↦ rw h ((eq_iff z.zone name).0 h, named-All name zs)
  | inr h ↦ rw h (named-All name zs)
]

abbrev tables : Tables db
tables = record {
  select_zones = λ name store. ok (named name store.0);
  update_zone = λ z store. ok (some z, (z ∷ store.0, store.1));
  select_provenances = λ id store. ok store.1;
  create_provenance = λ p store. ok (some p, (store.0, p ∷ store.1));
}

tables-IsTables : IsTables db tables
tables-IsTables = record {
  select_zones-zone =
      λ name store zones e. subst (All (λ z. z.zone ≡ name)) (cc e) (named-All name store.0);
  update_zone-written = λ z written store after e. cc e;
  create_provenance-written = λ p written store after e. cc e;
}

abbrev ed : Scheme
ed = echo 56 113

abbrev dil : Scheme
dil = echo 2591 4626

abbrev ksk : String
ksk = (generate_keys ed dil hex_codecs (1, 2) (3, 4) "example").0

abbrev zone : DnssecZone
zone = record {
  zone = "example";
  enabled = true;
  ksk = some ksk;
  zsk = some (generate_keys ed dil hex_codecs (1, 2) (3, 4) "example").1;
  ds_record = some (generate_keys ed dil hex_codecs (1, 2) (3, 4) "example").2;
  last_rotation = some 9;
}

abbrev sent_data : List ℕ
sent_data = as_bytes "DNS:" ++ hex_codecs.blake3 (as_bytes (content web))

abbrev provenance : BlockchainProvenance
provenance = record {
  record_id = "r1";
  content_hash = content_hash hex_codecs web;
  network = "sepolia";
  tx_hash = show sent_data;
  block_number = pos 1;
  timestamp = 9;
}

anchoring :
    (anchor_to_blockchain db tables ledger hex_codecs
      (λ name. some "0xabc")
      9
      "r1"
      "sepolia"
      ([], [])
      []).1
    ≡ ok (provenance, ([], provenance ∷ []))
unfolding anchor_to_blockchain read_to_anchor record_anchoring store_provenance get_record
    new_client anchor_hash anchored content_hash content as_bytes to_string
anchoring = refl

anchor_to_blockchain_verifies_example :
    (r : DnsRecord) × (get_record db "r1" ([], []) ≡ ok r)
    × (provenance.content_hash ≡ content_hash hex_codecs r)
    × (verify_hash ledger hex_codecs client provenance.tx_hash provenance.content_hash
          (sent_data ∷ [])
        ≡ ok true)
unfolding content as_bytes to_string
anchor_to_blockchain_verifies_example =
    anchor_to_blockchain_verifies db tables tables-IsTables ledger hex_codecs ledger-IsEthers
      hex_codecs-IsCodec (λ name. some "0xabc") 9 "r1" "sepolia" ([], []) ([], provenance ∷ []) []
      (sent_data ∷ []) provenance client sent_data (record { input = sent_data }) anchoring refl
      refl

-- The record under another identifier.
abbrev renamed : DnsRecord
renamed = record web { id = "r2" }

anchored_web :
    (anchor_hash ledger hex_codecs client (content_hash hex_codecs web) []).1
    ≡ ok (show sent_data, pos 1)
unfolding anchor_hash anchored content_hash content as_bytes to_string
anchored_web = refl

verify_hash-content_iff_example :
    (verify_hash ledger hex_codecs client
        (show sent_data)
        (content_hash hex_codecs renamed)
        (sent_data ∷ [])
      ≡ ok true)
    ↔ ((web.name ≡ renamed.name) × (a ≡ a) × (pos 1 ≡ pos 1) × (web.value ≡ renamed.value))
unfolding has_char content content_hash as_bytes to_string
verify_hash-content_iff_example =
    verify_hash-content_iff ledger hex_codecs hex_codecs-IsCodec ledger-IsEthers web renamed client
      client [] (sent_data ∷ []) (show sent_data) (pos 1) sent_data (record { input = sent_data })
      refl refl (λ e. refl) anchored_web refl refl
