-- ===== src/Dns/Zones.antt =====
-- indieweb2-bastion/graphql-dns-api/src: of resolvers.rs, db.rs and models.rs the mutations and queries of
-- DNSSEC zones and of the provenance of records. SurrealDB, the crates and the chain are parameters, the
-- randomness of keys and the clock are arguments.
pub mod Keys
pub mod Provenance
pub mod Tampering
use civic_connect.Prelude.{
  ℕ, String, ◌≡◌, Bool, true, Option, none, some, List, [], ◌∷◌, All, Result, ok, err, ok_or,
  map_err, ◌>>=◌,
}
use civic_connect.Prelude.Bytes.{Codecs}
use civic_connect.Odns.Signatures.{Scheme}
use civic_connect.Dns.Dnssec.{generate_keys}
use civic_connect.Dns.Blockchain.{
  Ethers, BlockchainError, BlockchainClient, new_client, anchor_hash,
}
use civic_connect.Dns.Records.{
  ℤ, DnsRecord, ResolverError, internal, database, record_not_found, zone_not_found, Surreal,
  get_record,
}
use civic_connect.Dns.Records.Content.{content_hash}

pub record DnssecZone : Type 0 where
  pub zone : String
  pub enabled : Bool
  pub ksk : Option String
  pub zsk : Option String
  pub ds_record : Option String
  pub last_rotation : Option ℕ

pub record BlockchainProvenance : Type 0 where
  pub record_id : String
  pub content_hash : String
  pub network : String
  pub tx_hash : String
  pub block_number : ℤ
  pub timestamp : ℕ

-- The calls of SurrealDB on the tables `dnssec_zones` and `blockchain_provenance`.
pub record Tables (db : Surreal) : Type 0 where
  pub select_zones : String → db.Store → Result String (List DnssecZone)
  pub update_zone : DnssecZone → db.Store → Result String (Option DnssecZone × db.Store)
  pub select_provenances : String → db.Store → Result String (List BlockchainProvenance)
  pub create_provenance :
      BlockchainProvenance → db.Store → Result String (Option BlockchainProvenance × db.Store)

-- What SurrealDB documents: a zone that is found has the name that was asked for, and what is written
-- is given back.
pub record IsTables (db : Surreal) (t : Tables db) : Type 0 where
  pub select_zones-zone :
      (name : String) (store : db.Store) (zones : List DnssecZone)
      → t.select_zones name store ≡ ok zones
      → All (λ z. z.zone ≡ name) zones
  pub update_zone-written :
      (z written : DnssecZone) (store after : db.Store)
      → t.update_zone z store ≡ ok (some written, after)
      → written ≡ z
  pub create_provenance-written :
      (p written : BlockchainProvenance) (store after : db.Store)
      → t.create_provenance p store ≡ ok (some written, after)
      → written ≡ p

-- The first of the answers.
abbrev pub next {ℓ} : {A : Type ℓ} → List A → Option A
next [] = none
next (x ∷ xs) = some x

-- The answer to a write, with the new state of the store, or the error of none.
abbrev pub written_or {ℓ κ} :
    {A : Type ℓ} {S : Type κ} → ResolverError → Option A × S → Result ResolverError (A × S)
written_or e (some a, store) = ok (a, store)
written_or e (none, store) = err e

-- The seeds of the two keys, for each of the two schemes.
abbrev pub Seeds : Type 0
Seeds = (ℕ × ℕ) × (ℕ × ℕ)

module _ (db : Surreal) (t : Tables db) where
  unfoldable pub get_dnssec_zone : String → db.Store → Result ResolverError DnssecZone
  get_dnssec_zone zone store = do
    zones ← map_err database (t.select_zones zone store)
    ok_or (next zones) (zone_not_found zone)

  unfoldable pub upsert_dnssec_zone :
      DnssecZone → db.Store → Result ResolverError (DnssecZone × db.Store)
  upsert_dnssec_zone zone store = do
    updated ← map_err database (t.update_zone zone store)
    written_or internal updated

  unfoldable pub store_provenance :
      BlockchainProvenance → db.Store → Result ResolverError (BlockchainProvenance × db.Store)
  store_provenance provenance store = do
    created ← map_err database (t.create_provenance provenance store)
    written_or internal created

  unfoldable pub get_provenance : String → db.Store → Result ResolverError BlockchainProvenance
  get_provenance record_id store = do
    provenances ← map_err database (t.select_provenances record_id store)
    ok_or (next provenances) (record_not_found record_id)

  module _ (ed dil : Scheme) (c : Codecs) where
    unfoldable pub enable_dnssec :
        Seeds → ℕ → String → db.Store → Result ResolverError (DnssecZone × db.Store)
    enable_dnssec seeds now zone store =
        let keys = generate_keys ed dil c seeds.0 seeds.1 zone in
        upsert_dnssec_zone
          (record {
            zone = zone;
            enabled = true;
            ksk = some keys.0;
            zsk = some keys.1;
            ds_record = some keys.2;
            last_rotation = some now;
          })
          store

    unfoldable pub rotate_dnssec_keys :
        Seeds → ℕ → String → db.Store → Result ResolverError (DnssecZone × db.Store)
    rotate_dnssec_keys seeds now zone store = do
      z ← get_dnssec_zone zone store
      let keys = generate_keys ed dil c seeds.0 seeds.1 zone
      upsert_dnssec_zone
          (record z {
            ksk = some keys.0;
            zsk = some keys.1;
            ds_record = some keys.2;
            last_rotation = some now;
          })
          store

-- The errors of `anchor_to_blockchain`
pub data AnchorError : Type 0 where
  resolver_error : ResolverError → AnchorError
  blockchain_error : BlockchainError → AnchorError

module _ (db : Surreal) (t : Tables db) (x : Ethers) (c : Codecs) where
  -- What follows the anchoring of a record, on the chain that it left.
  unfoldable pub record_anchoring :
      String
      → String
      → String
      → ℕ
      → db.Store
      → x.Chain × Result BlockchainError (String × ℤ)
      → x.Chain × Result AnchorError (BlockchainProvenance × db.Store)
  record_anchoring record_id hash network now store (chain, outcome) = (
    chain,
    do
      done ← map_err blockchain_error outcome
      map_err resolver_error (
          store_provenance db t
            (record {
              record_id = record_id;
              content_hash = hash;
              network = network;
              tx_hash = done.0;
              block_number = done.1;
              timestamp = now;
            })
            store),
  )

  -- `anchor_to_blockchain` after the record is read and the client is made.
  abbrev pub anchor_with :
      String
      → String
      → ℕ
      → db.Store
      → x.Chain
      → Result AnchorError (DnsRecord × BlockchainClient x)
      → x.Chain × Result AnchorError (BlockchainProvenance × db.Store)
  anchor_with record_id network now store chain (err e) = (chain, err e)
  anchor_with record_id network now store chain (ok (r, client)) =
      record_anchoring record_id (content_hash c r) network now store
        (anchor_hash x c client (content_hash c r) chain)

  unfoldable pub read_to_anchor :
      (String → Option String)
      → String
      → String
      → db.Store
      → Result AnchorError (DnsRecord × BlockchainClient x)
  read_to_anchor env record_id network store = do
    r ← map_err resolver_error (get_record db record_id store)
    client ← map_err blockchain_error (new_client x env network)
    ok (r, client)

  unfoldable pub anchor_to_blockchain :
      (String → Option String)
      → ℕ
      → String
      → String
      → db.Store
      → x.Chain
      → x.Chain × Result AnchorError (BlockchainProvenance × db.Store)
  anchor_to_blockchain env now record_id network store chain =
      anchor_with record_id network now store chain (read_to_anchor env record_id network store)
