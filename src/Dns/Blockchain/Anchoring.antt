-- ===== src/Dns/Blockchain/Anchoring.antt =====
-- indieweb2-bastion/graphql-dns-api/src/blockchain.rs: an anchored hash and its later verification.
use civic_connect.Prelude.{
  All-append, ℕ, ◌<◌, String, ◌≡◌, refl, sym, ap, ◌∙◌, inl, inr, true, Option, none, some, List,
  ◌∷◌, ◌++◌, Option-cases, length, drop, Result, ok, err, ok_or, map_err, bind-ok_inv, ok_or-ok_inv,
}
use native.Mathlib.Omega.{arith}
use civic_connect.Prelude.Bytes.{as_bytes, IsBytes, Codecs, IsCodec}
use civic_connect.Dns.Records.{ℤ}
use civic_connect.Dns.Blockchain.{
  Ethers, IsEthers, Transaction, TransactionRequest, Receipt, BlockchainError, BlockchainClient,
  provider_error, transaction_failed, no_block_number, invalid_hex_data, as_i64, anchored, sent,
  submit, anchor_data, prepare, anchor_hash, verify_hash,
}
use civic_connect.Dns.Blockchain.Verifying.{verify_hash_iff}

prefix-IsBytes : IsBytes (as_bytes "DNS:")
unfolding as_bytes
prefix-IsBytes = (omega arith, (omega arith, (omega arith, (omega arith, tt))))

module _ (x : Ethers) where
  anchored_ok :
      (h : x.TxHash) (answer : Option Receipt) (out : String × ℤ)
      → anchored x h answer ≡ ok out
      → out.0 ≡ x.show_hash h
  unfolding anchored
  anchored_ok h none out e = absurd (cc e)
  anchored_ok h (some r) out e =
      let (n, p, q) = bind-ok_inv (ok_or r.block_number no_block_number) _ out e in
      let same : (x.show_hash h, as_i64 n) ≡ out = cc q in ap (λ o. o.0) (sym same)

  -- What was sent when an anchoring ended well.
  sent_ok :
      (p : x.Provider) (s : x.Chain × Result String x.TxHash) (out : String × ℤ)
      → (sent x p s).1 ≡ ok out
      → (h : x.TxHash) × (s.1 ≡ ok h) × (out.0 ≡ x.show_hash h)
  sent_ok p (chain, err e) out k = absurd (cc k)
  sent_ok p (chain, ok h) out k =
      let (o, q, r) = bind-ok_inv (map_err transaction_failed (x.confirm p h chain).1) _ out k in
      (h, refl, anchored_ok h o out r)

  module _ (c : Codecs) where
    submit_ok :
        (p : x.Provider) (chain : x.Chain)
        (r : Result BlockchainError (x.Wallet × TransactionRequest)) (out : String × ℤ)
        → (submit x c p chain r).1 ≡ ok out
        → (signer : x.Wallet) × (tx : TransactionRequest) × (h : x.TxHash) × (r ≡ ok (signer, tx))
          × ((x.send_transaction p signer tx chain).1 ≡ ok h)
          × (out.0 ≡ x.show_hash h)
    submit_ok p chain (err e) out k = absurd (cc k)
    submit_ok p chain (ok (signer, tx)) out k =
        let (h, q, r) = sent_ok p (x.send_transaction p signer tx chain) out k in
        (signer, tx, h, refl, q, r)

    -- The data of the transaction that is sent.
    prepare_ok :
        (p : x.Provider) (wallet signer : x.Wallet) (hash : String) (chain : x.Chain)
        (tx : TransactionRequest)
        → prepare x c p wallet hash chain ≡ ok (signer, tx)
        → c.hex_decode (anchor_data x c hash) ≡ some tx.data_field
    unfolding prepare
    prepare_ok p wallet signer hash chain tx e =
        let (n, q, r) = bind-ok_inv (map_err provider_error (x.get_chainid p chain)) _ _ e in
        let (g, q1, r1) = bind-ok_inv (map_err provider_error (x.get_gas_price p chain)) _ _ r in
        let decoded = c.hex_decode (anchor_data x c hash) in
        let (b, q2, r2) = bind-ok_inv (ok_or decoded invalid_hex_data) _ _ r1 in
        ok_or-ok_inv decoded invalid_hex_data b q2 ∙ ap some (cc r2)

    anchor_hash_ok :
        (self : BlockchainClient x) (hash : String) (chain : x.Chain) (out : String × ℤ)
        → (anchor_hash x c self hash chain).1 ≡ ok out
        → (signer : x.Wallet) × (tx : TransactionRequest) × (h : x.TxHash) × (c.hex_decode
              (anchor_data x c hash)
            ≡ some tx.data_field)
          × ((x.send_transaction self.provider signer tx chain).1 ≡ ok h)
          × (out.0 ≡ x.show_hash h)
    unfolding anchor_hash
    anchor_hash_ok self hash chain out e = elim (Option-cases self.wallet) [
      | inl gone ↦ absurd (let f = rw (gone) at e in cc f)
      | inr (wallet, some_w) ↦
          (let f = rw (some_w) at e in
            let (signer, tx, h, p, q, r) =
              submit_ok self.provider chain (prepare x c self.provider wallet hash chain) out f in
            (signer, tx, h, prepare_ok self.provider wallet signer hash chain tx p, q, r))
    ]

    module _ (e : IsEthers x) (l : IsCodec c) where
      -- The bytes that the data of an anchored hash decode to.
      decode_anchor_data :
          (b : List ℕ)
          → IsBytes b
          → c.hex_decode (anchor_data x c (c.hex_encode b)) ≡ some (as_bytes "DNS:" ++ b)
      unfolding anchor_data
      decode_anchor_data b h =
          ap c.hex_decode (sym (l.hex_encode-append (as_bytes "DNS:") b))
          ∙ l.hex_decode-hex_encode (as_bytes "DNS:" ++ b)
              (All-append _ (as_bytes "DNS:") b prefix-IsBytes h)

      -- What is anchored verifies: when the anchoring of the hexadecimal text of one byte or more gave
      -- the hash of a transaction, any client whose node finds the transaction by that hash, on the
      -- chain of any time, says that the text is anchored there.
      pub verify_hash-anchor_hash :
          (self other : BlockchainClient x) (b : List ℕ) (before later : x.Chain) (tx_hash : String)
          (number : ℤ) (h : x.TxHash) (t : Transaction)
          → IsBytes b
          → 0 < length b
          → (anchor_hash x c self (c.hex_encode b) before).1 ≡ ok (tx_hash, number)
          → x.parse_hash tx_hash ≡ ok h
          → x.get_transaction other.provider h later ≡ ok (some t)
          → verify_hash x c other tx_hash (c.hex_encode b) later ≡ ok true
      unfolding as_bytes
      verify_hash-anchor_hash self other b before later tx_hash number h t bytes full a p q =
          let (signer, tx, g, d, s, r) = anchor_hash_ok self (c.hex_encode b) before _ a in
          let same : ok g ≡ ok h = sym (e.parse_hash-show_hash g) ∙ sym (ap x.parse_hash r) ∙ p in
          let sent_h = s ∙ same in
          let input =
            e.get_transaction-send_transaction self.provider other.provider signer tx before later h
              t sent_h q in
          let whole : some tx.data_field ≡ some (as_bytes "DNS:" ++ b) =
            sym d ∙ decode_anchor_data b bytes in
          let held : t.input ≡ 68 ∷ 78 ∷ 83 ∷ 58 ∷ b = cc (input, whole) in
          (verify_hash_iff x c l other tx_hash (c.hex_encode b) later).1 (
            h,
            t,
            p,
            q,
            omega (arith, full, ap length held),
            ap (λ i. c.hex_encode (drop 4 i)) (sym held),
          )
