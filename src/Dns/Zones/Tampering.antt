-- ===== src/Dns/Zones/Tampering.antt =====
-- indieweb2-bastion/graphql-dns-api/src: what the verification of a record against an anchored one says.
use civic_connect.Prelude.{String, ◌≡◌, sym, ap, subst, ◌∙◌, ◌↔◌, true, false, some, drop, ok}
use civic_connect.Prelude.Text.{has_char}
use civic_connect.Prelude.Bytes.{as_bytes, Codecs, IsCodec}
use civic_connect.Dns.Blockchain.{
  Ethers, IsEthers, Transaction, BlockchainClient, anchor_hash, verify_hash,
}
use civic_connect.Dns.Blockchain.Verifying.{verify_hash_iff}
use civic_connect.Dns.Records.{ℤ, DnsRecord}
use civic_connect.Dns.Records.Content.{content, content_hash, content_iff}
use civic_connect.Dns.Zones.Provenance.{verify_hash-content_hash}

module _ (x : Ethers) (c : Codecs) (codec : IsCodec c) where
  -- Two hashes that are anchored in the transaction of one text are the same.
  one_hash :
      (self : BlockchainClient x) (tx_hash a b : String) (chain : x.Chain)
      → verify_hash x c self tx_hash a chain ≡ ok true
      → verify_hash x c self tx_hash b chain ≡ ok true
      → a ≡ b
  one_hash self tx_hash a b chain p q =
      let (h, t, h1, t1, l, e) = (verify_hash_iff x c codec self tx_hash a chain).0 p in
      let (g, s, g1, s1, m, f) = (verify_hash_iff x c codec self tx_hash b chain).0 q in
      let same_hash = sym h1 ∙ g1 in
      let same_tx : t ≡ s = cc (same_hash, t1, s1) in
      e ∙ ap (λ u. c.hex_encode (drop 4 u.input)) same_tx ∙ sym f

  module _ (ethers : IsEthers x) where
    -- Tampering shows: when a record was anchored and a node finds the transaction, the content hash of a
    -- record verifies against it exactly when that record has the name, type, TTL and value of the one
    -- that was anchored, if no name holds a colon and the texts of the two have no common digest unless
    -- they are the same.
    pub verify_hash-content_iff :
        (r s : DnsRecord) (client other : BlockchainClient x) (before later : x.Chain)
        (tx_hash : String) (n : ℤ) (h : x.TxHash) (tx : Transaction)
        → has_char ":" r.name ≡ false
        → has_char ":" s.name ≡ false
        → (content_hash c r ≡ content_hash c s → content r ≡ content s)
        → (anchor_hash x c client (content_hash c r) before).1 ≡ ok (tx_hash, n)
        → x.parse_hash tx_hash ≡ ok h
        → x.get_transaction other.provider h later ≡ ok (some tx)
        → (verify_hash x c other tx_hash (content_hash c s) later ≡ ok true) ↔ (
            (r.name ≡ s.name)
            × (r.record_type ≡ s.record_type)
            × (r.ttl ≡ s.ttl)
            × (r.value ≡ s.value))
    unfolding content_hash
    verify_hash-content_iff r s client other before later tx_hash n h tx plain_r plain_s apart a p
          q =
        let held =
          verify_hash-content_hash x c ethers codec r client other before later tx_hash n h tx a p
            q in
        (
          λ e.
              (content_iff r s plain_r plain_s).0
                (apart (one_hash other tx_hash (content_hash c r) (content_hash c s) later held e)),
          λ k.
              subst (λ text. verify_hash x c other tx_hash text later ≡ ok true)
                (ap (λ u. c.hex_encode (c.blake3 (as_bytes u)))
                  ((content_iff r s plain_r plain_s).1 k))
                held,
        )
