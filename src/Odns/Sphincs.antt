-- ===== src/Odns/Sphincs.antt =====
-- indieweb2-bastion/odns-rs/common/src/sphincs_fallback.rs: the fallback signatures of one scheme.
use civic_connect.Prelude.{
  ℕ, ◌≡◌, refl, ap, ◌∙◌, Bool, true, false, some, List, Result, ok, err, ok_or, ◌>>=◌,
}
use civic_connect.Odns.Signatures.{Scheme, IsScheme}

abbrev pub sphincs_pk_len : ℕ
sphincs_pk_len = 32

abbrev pub sphincs_sig_len : ℕ
sphincs_sig_len = 29792

-- The variants with a length are those that no function of the module gives.
pub data SphincsError : Type 0 where
  verify_failed deserialize_public_key deserialize_secret_key deserialize_signature : SphincsError
  invalid_public_key invalid_secret_key invalid_signature : ℕ → ℕ → SphincsError

module _ (s : Scheme) where
  pub record SphincsKeyPair : Type 0 where
    pub pk : s.PublicKey
    pub sk : s.SecretKey

  unfoldable pub generate_sphincs_keypair : ℕ → SphincsKeyPair
  generate_sphincs_keypair seed = record { pk = (s.generate seed).0; sk = (s.generate seed).1 }

  unfoldable pub sphincs_sign : List ℕ → SphincsKeyPair → List ℕ
  sphincs_sign message keypair = s.sig_bytes (s.sign message keypair.sk)

  abbrev verified : Bool → Result SphincsError (Unit {0})
  verified true = ok tt
  verified false = err verify_failed

  unfoldable pub sphincs_verify : List ℕ → List ℕ → List ℕ → Result SphincsError (Unit {0})
  sphincs_verify message signature public_key = do
    pk ← ok_or (s.key_from_bytes public_key) deserialize_public_key
    sig ← ok_or (s.sig_from_bytes signature) deserialize_signature
    verified (s.verify sig message pk)

  unfoldable pub public_key_bytes : SphincsKeyPair → List ℕ
  public_key_bytes keypair = s.key_bytes keypair.pk

  -- `as_bytes` of a secret key is a parameter.
  unfoldable pub secret_key_bytes : (s.SecretKey → List ℕ) → SphincsKeyPair → List ℕ
  secret_key_bytes as_bytes keypair = as_bytes keypair.sk

  unfoldable pub public_key_from_bytes : List ℕ → Result SphincsError s.PublicKey
  public_key_from_bytes bytes = ok_or (s.key_from_bytes bytes) deserialize_public_key

  verify_read :
      (message a b : List ℕ) (g : s.Signature) (k : s.PublicKey)
      → s.sig_from_bytes a ≡ some g
      → s.key_from_bytes b ≡ some k
      → sphincs_verify message a b ≡ verified (s.verify g message k)
  unfolding sphincs_verify
  verify_read message a b g k p q = rw (sphincs_verify, p, q) refl

  -- What is signed with a generated pair of keys verifies with the bytes of its public key.
  sphincs_verify-sphincs_sign :
      (e : IsScheme s sphincs_pk_len sphincs_sig_len) (seed : ℕ) (message : List ℕ)
      → sphincs_verify message
          (sphincs_sign message (generate_sphincs_keypair seed))
          (public_key_bytes (generate_sphincs_keypair seed))
        ≡ ok tt
  unfolding sphincs_sign generate_sphincs_keypair public_key_bytes
  sphincs_verify-sphincs_sign e seed message =
      let k = s.generate seed in
      verify_read message _ _ (s.sign message k.1) k.0
        (e.sig_from_bytes-sig_bytes (s.sign message k.1)) (e.key_from_bytes-key_bytes k.0)
      ∙ ap verified (e.verify-sign seed message)
