-- ===== src/Dns/Zones/Provenance.antt =====
-- indieweb2-bastion/graphql-dns-api/src/resolvers.rs: what anchoring a record leaves in the database and on the chain.
use civic_connect.Prelude.{
  ℕ, String, ◌≡◌, refl, sym, ap, subst, ◌∙◌, true, Option, some, Result, ok, err, map_err,
  bind-ok_inv, map_err-ok_inv,
}
use native.Mathlib.Omega.{arith}
use civic_connect.Prelude.Bytes.{as_bytes, Codecs, IsCodec}
use civic_connect.Dns.Blockchain.{
  Ethers, IsEthers, Transaction, BlockchainError, BlockchainClient, new_client, anchor_hash,
  verify_hash,
}
use civic_connect.Dns.Blockchain.Anchoring.{verify_hash-anchor_hash}
use civic_connect.Dns.Records.{ℤ, DnsRecord, internal, database, Surreal, get_record}
use civic_connect.Dns.Records.Content.{content, content_hash}
use civic_connect.Dns.Zones.{
  BlockchainProvenance, Tables, IsTables, store_provenance, AnchorError, resolver_error,
  blockchain_error, record_anchoring, anchor_with, read_to_anchor, anchor_to_blockchain,
}
use civic_connect.Dns.Zones.Keys.{written_inv}

module _ (x : Ethers) (c : Codecs) (ethers : IsEthers x) (codec : IsCodec c) where
  pub verify_hash-content_hash :
      (r : DnsRecord) (client other : BlockchainClient x) (before later : x.Chain)
      (tx_hash : String) (n : ℤ) (h : x.TxHash) (tx : Transaction)
      → (anchor_hash x c client (content_hash c r) before).1 ≡ ok (tx_hash, n)
      → x.parse_hash tx_hash ≡ ok h
      → x.get_transaction other.provider h later ≡ ok (some tx)
      → verify_hash x c other tx_hash (content_hash c r) later ≡ ok true
  unfolding content_hash
  verify_hash-content_hash r client other before later tx_hash n h tx a p q =
      let digest = c.blake3 (as_bytes (content r)) in
      verify_hash-anchor_hash x c ethers codec client other digest before later tx_hash n h tx
        (codec.blake3-IsBytes (as_bytes (content r)))
        (omega (arith, codec.length-blake3 (as_bytes (content r)))) a p q

module _ (db : Surreal) (t : Tables db) (l : IsTables db t) where
  store_provenance_written :
      (p out : BlockchainProvenance) (store after : db.Store)
      → store_provenance db t p store ≡ ok (out, after)
      → out ≡ p
  unfolding store_provenance
  store_provenance_written p out store after e =
      let (answer, h, q) = bind-ok_inv (map_err database (t.create_provenance p store)) _ _ e in
      l.create_provenance-written p out store after (
        map_err-ok_inv database (t.create_provenance p store) answer h
        ∙ ap ok (written_inv internal answer out after q))

  module _ (x : Ethers) (c : Codecs) where
    read_record :
        (env : String → Option String) (record_id network : String) (store : db.Store)
        (r : DnsRecord) (client : BlockchainClient x)
        → read_to_anchor db t x c env record_id network store ≡ ok (r, client)
        → get_record db record_id store ≡ ok r
    unfolding read_to_anchor
    read_record env record_id network store r client e =
        let (s, p, q) =
          bind-ok_inv (map_err resolver_error (get_record db record_id store)) _ _ e in
        let (k, p1, q1) = bind-ok_inv (map_err blockchain_error (new_client x env network)) _ _ q in
        let same : ◌≡◌ {A = DnsRecord × BlockchainClient x} (s, k) (r, client) = cc q1 in
        map_err-ok_inv resolver_error (get_record db record_id store) s p ∙ ap (λ y. ok y.0) same

    -- What is stored after a successful anchoring.
    recorded :
        (record_id hash network : String) (now : ℕ) (store after : db.Store)
        (answer : x.Chain × Result BlockchainError (String × ℤ)) (p : BlockchainProvenance)
        → (record_anchoring db t x c record_id hash network now store answer).1 ≡ ok (p, after)
        → (n : ℤ) × (answer.1 ≡ ok (p.tx_hash, n)) × (p.content_hash ≡ hash)
    unfolding record_anchoring
    recorded record_id hash network now store after (chain, outcome) p e =
        let (done, h, q) = bind-ok_inv (map_err blockchain_error outcome) _ _ e in
        let same = store_provenance_written _ p store after (map_err-ok_inv resolver_error _ _ q) in
        (
          done.1,
          map_err-ok_inv blockchain_error outcome done h
              ∙ ap (λ y. ok (y.tx_hash, done.1)) (sym same),
          ap (λ y. y.content_hash) same,
        )

    anchored_with :
        (record_id network : String) (now : ℕ) (store after : db.Store) (chain : x.Chain)
        (read : Result AnchorError (DnsRecord × BlockchainClient x)) (p : BlockchainProvenance)
        → (anchor_with db t x c record_id network now store chain read).1 ≡ ok (p, after)
        → (r : DnsRecord) × (client : BlockchainClient x) × (n : ℤ) × (read ≡ ok (r, client))
          × ((anchor_hash x c client (content_hash c r) chain).1 ≡ ok (p.tx_hash, n))
          × (p.content_hash ≡ content_hash c r)
    anchored_with record_id network now store after chain (err f) p e = absurd (cc e)
    anchored_with record_id network now store after chain (ok (r, client)) p e =
        let (n, q, k) =
          recorded record_id (content_hash c r) network now store after
            (anchor_hash x c client (content_hash c r) chain) p e in
        (r, client, n, refl, q, k)

    module _ (ethers : IsEthers x) (codec : IsCodec c) where
      -- The provenance that the anchoring of a record stores has the content hash of the record that the
      -- database held, and a client whose node later finds the transaction of the provenance says that
      -- this hash is anchored there.
      pub anchor_to_blockchain_verifies :
          (env : String → Option String) (now : ℕ) (record_id network : String)
          (store after : db.Store) (chain later : x.Chain) (p : BlockchainProvenance)
          (other : BlockchainClient x) (h : x.TxHash) (tx : Transaction)
          → (anchor_to_blockchain db t x c env now record_id network store chain).1 ≡ ok (p, after)
          → x.parse_hash p.tx_hash ≡ ok h
          → x.get_transaction other.provider h later ≡ ok (some tx)
          → (r : DnsRecord) × (get_record db record_id store ≡ ok r)
            × (p.content_hash ≡ content_hash c r)
            × (verify_hash x c other p.tx_hash p.content_hash later ≡ ok true)
      unfolding anchor_to_blockchain
      anchor_to_blockchain_verifies env now record_id network store after chain later p other h tx e
            f g =
          let read = read_to_anchor db t x c env record_id network store in
          let (r, client, n, q, a, k) =
            anchored_with record_id network now store after chain read p e in
          (
            r,
            read_record env record_id network store r client q,
            k,
            subst (λ s. verify_hash x c other p.tx_hash s later ≡ ok true) (sym k)
                (verify_hash-content_hash x c ethers codec r client other chain later p.tx_hash n h
                  tx a f g),
          )
