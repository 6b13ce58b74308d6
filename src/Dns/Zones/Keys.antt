-- ===== src/Dns/Zones/Keys.antt =====
-- indieweb2-bastion/graphql-dns-api/src/resolvers.rs: the keys that a zone announces.
use civic_connect.Prelude.{ℕ, String, ◌≡◌, Option, none, some, ok}
use civic_connect.Prelude.Bytes.{Codecs}
use civic_connect.Odns.Signatures.{Scheme}
use civic_connect.Dns.Dnssec.{generate_ds_record}
use civic_connect.Dns.Records.{ResolverError, Surreal}
use civic_connect.Dns.Zones.{
  DnssecZone, Tables, written_or, Seeds, enable_dnssec, rotate_dnssec_keys,
}

pub written_inv :
    {A S : Type 0} (e : ResolverError) (answer : Option A × S) (a : A) (s : S)
    → written_or e answer ≡ ok (a, s)
    → answer ≡ (some a, s)
written_inv e (some b, r) a s h = cc h
written_inv e (none, r) a s h = absurd (cc h)

module _ (db : Surreal) (t : Tables db) (ed dil : Scheme) (c : Codecs) where
  -- A mutation of the zone's keys gave this zone and this state of the store.
  pub data Rekeyed (name : String) (store : db.Store) (z : DnssecZone) (after : db.Store)
      : Type 0 where
    enabling :
        (seeds : Seeds) (now : ℕ)
        → enable_dnssec db t ed dil c seeds now name store ≡ ok (z, after)
        → Rekeyed name store z after
    rotating :
        (seeds : Seeds) (now : ℕ)
        → rotate_dnssec_keys db t ed dil c seeds now name store ≡ ok (z, after)
        → Rekeyed name store z after

module _ (ed dil : Scheme) (c : Codecs) where
  -- The DS record of the zone is that of its name and of the key signing key.
  abbrev pub Announces : DnssecZone → Type 0
  Announces z =
      (ksk : String) × (z.ksk ≡ some ksk)
      × (z.ds_record ≡ some (generate_ds_record ed dil c z.zone ksk))
