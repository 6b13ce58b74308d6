-- ===== src/Dns/Blockchain/Verifying.antt =====
-- indieweb2-bastion/graphql-dns-api/src/blockchain.rs: what a verification of an anchored hash says.
use civic_connect.Prelude.{
  ℕ, ◌<◌, String, ◌≡◌, refl, sym, ap, ◌∙◌, ◌↔◌, inl, inr, Bool, true, some, List, eq_iff, leb,
  Bool-cases, length, take, drop, length-take, take-append-drop, Result, ok, ok_or, map_err, ◌>>=◌,
  bind-ok_inv, ok_or-ok_inv, map_err-ok_inv,
}
use native.Mathlib.Omega.{arith}
use civic_connect.Prelude.Text.{skip, text_length, skip-append}
use civic_connect.Prelude.Bytes.{Codecs, IsCodec}
use civic_connect.Dns.Blockchain.{
  Ethers, Transaction, BlockchainError, BlockchainClient, invalid_transaction_hash, provider_error,
  transaction_not_found, holds_hash, verify_hash,
}

module _ (x : Ethers) (c : Codecs) (l : IsCodec c) where
  skip-hex_encode : (b : List ℕ) → 4 < length b → skip 8 (c.hex_encode b) ≡ c.hex_encode (drop 4 b)
  skip-hex_encode b h =
      let a = take 4 b in
      ap (λ s. skip 8 (c.hex_encode s)) (sym (take-append-drop 4 b))
      ∙ ap (skip 8) (l.hex_encode-append a (drop 4 b))
      ∙ skip-append 8 (c.hex_encode a) (c.hex_encode (drop 4 b))
          (omega (arith, l.length-hex_encode a, length-take 4 b))

  holds_hash_iff :
      (b : List ℕ) (expected : String)
      → (holds_hash x c (c.hex_encode b) expected ≡ true)
        ↔ ((4 < length b) × (expected ≡ c.hex_encode (drop 4 b)))
  unfolding holds_hash
  holds_hash_iff b expected = elim (Bool-cases (leb (text_length (c.hex_encode b)) 8)) [
    | inl h ↦ (
      λ e. absurd (ground (arith, e, h)),
      λ k. absurd (ground (arith, k.0, h, l.length-hex_encode b)),
    )
    | inr h ↦
        (let more : 4 < length b = ground (arith, h, l.length-hex_encode b) in
          let same = skip-hex_encode b more in
          (
            λ e. (more, ground (arith, e, h, same, eq_iff (skip 8 (c.hex_encode b)) expected)),
            λ k. ground (arith, h, k.1, same, eq_iff (skip 8 (c.hex_encode b)) expected),
          ))
  ]

  verify_found :
      (self : BlockchainClient x) (tx_hash expected : String) (chain : x.Chain) (h : x.TxHash)
      (t : Transaction)
      → x.parse_hash tx_hash ≡ ok h
      → x.get_transaction self.provider h chain ≡ ok (some t)
      → verify_hash x c self tx_hash expected chain
        ≡ ok (holds_hash x c (c.hex_encode t.input) expected)
  unfolding verify_hash
  verify_found self tx_hash expected chain h t e f = rw (e, f) refl

  -- The rest of `verify_hash` after the hash is parsed.
  answered : BlockchainClient x → x.TxHash → String → x.Chain → Result BlockchainError Bool
  answered self h expected chain = do
    answer ← map_err provider_error (x.get_transaction self.provider h chain)
    tx ← ok_or answer transaction_not_found
    ok (holds_hash x c (c.hex_encode tx.input) expected)

  verify_parsed :
      (self : BlockchainClient x) (tx_hash expected : String) (chain : x.Chain)
      → verify_hash x c self tx_hash expected chain ≡ ok true
      → (h : x.TxHash) × (x.parse_hash tx_hash ≡ ok h) × (answered self h expected chain ≡ ok true)
  unfolding verify_hash answered
  verify_parsed self tx_hash expected chain e =
      let (h, p, r) =
        bind-ok_inv (map_err invalid_transaction_hash (x.parse_hash tx_hash)) _ true e in
      (h, map_err-ok_inv invalid_transaction_hash (x.parse_hash tx_hash) h p, r)

  verify_answered :
      (self : BlockchainClient x) (h : x.TxHash) (expected : String) (chain : x.Chain)
      → answered self h expected chain ≡ ok true
      → (t : Transaction) × (x.get_transaction self.provider h chain ≡ ok (some t))
        × (holds_hash x c (c.hex_encode t.input) expected ≡ true)
  unfolding answered
  verify_answered self h expected chain e =
      let found = x.get_transaction self.provider h chain in
      let (o, p, r) = bind-ok_inv (map_err provider_error found) _ true e in
      let (t, q, k) = bind-ok_inv (ok_or o transaction_not_found) _ true r in
      let some_t = ok_or-ok_inv o transaction_not_found t q in
      (t, map_err-ok_inv provider_error found o p ∙ ap ok some_t, cc k)

  -- A verification says that a hash is anchored exactly when the text of the transaction's hash is one,
  -- the node finds the transaction, and the data of the transaction are more than four bytes of which
  -- those from the fifth have the expected hash as their hexadecimal text. What the first four are is
  -- not asked.
  pub verify_hash_iff :
      (self : BlockchainClient x) (tx_hash expected : String) (chain : x.Chain)
      → (verify_hash x c self tx_hash expected chain ≡ ok true) ↔ (
          (h : x.TxHash) × (t : Transaction) × (x.parse_hash tx_hash ≡ ok h)
          × (x.get_transaction self.provider h chain ≡ ok (some t))
          × (4 < length t.input)
          × (expected ≡ c.hex_encode (drop 4 t.input)))
  verify_hash_iff self tx_hash expected chain = (
    λ e.
        (let (h, p, e1) = verify_parsed self tx_hash expected chain e in
          let (t, q, r) = verify_answered self h expected chain e1 in
          let k = (holds_hash_iff t.input expected).0 r in (h, t, p, q, k.0, k.1)),
    λ (h, t, p, q, k, j).
        verify_found self tx_hash expected chain h t p q
        ∙ ap ok ((holds_hash_iff t.input expected).1 (k, j)),
  )
