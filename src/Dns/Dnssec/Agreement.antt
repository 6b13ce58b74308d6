-- ===== src/Dns/Dnssec/Agreement.antt =====
-- indieweb2-bastion/graphql-dns-api/src/dnssec.rs and indieweb2-bastion/odns-rs/common/src/signatures.rs:
-- the two services' verifications of the same scheme.
use native.Mathlib.Omega.{arith}
use civic_connect.Prelude.{
  length, eqb, refl, inl, inr, take, drop, Bool-cases, ℕ, ◌≡◌, Bool, false, List, Result, ok, err,
  is_ok, ◌>>=◌,
}
use civic_connect.Odns.Signatures as Odns
use civic_connect.Odns.Signatures.{Scheme}
use civic_connect.Dns.Dnssec.{DnssecError, both_verify, verify_parts, hybrid_verify}

-- The verification ended and both signatures verified.
abbrev pub accepted : Result DnssecError Bool → Bool
accepted (ok b) = b
accepted (err e) = false

module _ (ed dil : Scheme) where
  parts_agree :
      (message a b x y : List ℕ)
      → accepted (verify_parts ed dil message a b x y)
        ≡ is_ok (do
          key ← Odns.key_of_parts ed dil a b
          signature ← Odns.sig_of_parts ed dil x y
          Odns.hybrid_verify ed dil message signature key)
  unfolding verify_parts both_verify Odns.key_of_parts Odns.sig_of_parts Odns.hybrid_verify
  parts_agree message a b x y = ground arith

  no_signature :
      (key : Result Odns.SignatureError (Odns.HybridPublicKey ed dil)) (e : Odns.SignatureError)
      (rest : Odns.HybridPublicKey ed dil
        → Odns.HybridSignature ed dil
        → Result Odns.SignatureError (Unit {0}))
      → false ≡ is_ok (key >>= λ k. err e >>= rest k)
  no_signature (ok k) e rest = refl
  no_signature (err d) e rest = refl

  -- The DNS service accepts a signature of a message under a public key, both given as bytes, exactly
  -- when oDNS reads the key and the signature from these bytes and verifies it.
  pub hybrid_verify_agrees :
      (message signature_bytes key_bytes : List ℕ)
      → accepted (hybrid_verify ed dil message signature_bytes key_bytes)
        ≡ is_ok (do
          key ← Odns.key_from_bytes ed dil key_bytes
          signature ← Odns.sig_from_bytes ed dil signature_bytes
          Odns.hybrid_verify ed dil message signature key)
  unfolding hybrid_verify Odns.key_from_bytes Odns.sig_from_bytes
  hybrid_verify_agrees message s k = elim (Bool-cases (eqb (length k) 2649)) [
    | inr h ↦ rw h refl
    | inl h ↦ elim (Bool-cases (eqb (length s) 4741)) [
      | inl g ↦ rw (h, g) (parts_agree message (take 57 k) (drop 57 k) (take 114 s) (drop 114 s))
      | inr g ↦
          rw (h, g)
            (no_signature (Odns.key_of_parts ed dil (take 57 k) (drop 57 k))
              (Odns.invalid_signature 4741 (length s))
              (λ key g. Odns.hybrid_verify ed dil message g key))
    ]
  ]
