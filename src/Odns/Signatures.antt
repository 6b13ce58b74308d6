-- ===== src/Odns/Signatures.antt =====
-- indieweb2-bastion/odns-rs/common/src/signatures.rs: signatures of two schemes that must both hold.
-- Ed448 and Dilithium5 are parameters of one shape, `Scheme`.
pub mod Hybrid
use civic_connect.Prelude.{
  ℕ, ◌+◌, ◌≡◌, Bool, true, Option, none, some, List, ◌++◌, length, take, drop, eqb, if◌then◌else◌,
  Result, ok, err, ok_or, ◌>>=◌,
}
use civic_connect.Prelude.Bytes.{IsBytes}

abbrev pub ed448_pk_len : ℕ
ed448_pk_len = 57

abbrev pub ed448_sig_len : ℕ
ed448_sig_len = 114

abbrev pub dil5_pk_len : ℕ
dil5_pk_len = 2592

abbrev pub dil5_sig_len : ℕ
dil5_sig_len = 4627

abbrev pub hybrid_pk_len : ℕ
hybrid_pk_len = ed448_pk_len + dil5_pk_len

abbrev pub hybrid_sig_len : ℕ
hybrid_sig_len = ed448_sig_len + dil5_sig_len

-- What is used of a crate of signatures. `generate` takes its randomness.
pub record Scheme : Type 1 where
  pub PublicKey : Type 0
  pub SecretKey : Type 0
  pub Signature : Type 0
  pub generate : ℕ → PublicKey × SecretKey
  pub sign : List ℕ → SecretKey → Signature
  pub verify : Signature → List ℕ → PublicKey → Bool
  pub key_bytes : PublicKey → List ℕ
  pub key_from_bytes : List ℕ → Option PublicKey
  pub sig_bytes : Signature → List ℕ
  pub sig_from_bytes : List ℕ → Option Signature

-- What a crate documents: the sizes of keys and signatures, that both are read back, and that what is
-- signed with a generated key verifies with its public key.
pub record IsScheme (s : Scheme) (pk_len sig_len : ℕ) : Type 0 where
  pub length-key_bytes : (k : s.PublicKey) → length (s.key_bytes k) ≡ pk_len
  pub key_from_bytes-key_bytes : (k : s.PublicKey) → s.key_from_bytes (s.key_bytes k) ≡ some k
  pub length-sig_bytes : (g : s.Signature) → length (s.sig_bytes g) ≡ sig_len
  pub sig_from_bytes-sig_bytes : (g : s.Signature) → s.sig_from_bytes (s.sig_bytes g) ≡ some g
  pub key_bytes-IsBytes : (k : s.PublicKey) → IsBytes (s.key_bytes k)
  pub sig_bytes-IsBytes : (g : s.Signature) → IsBytes (s.sig_bytes g)
  pub verify-sign :
      (seed : ℕ) (message : List ℕ)
      → s.verify (s.sign message (s.generate seed).1) message (s.generate seed).0 ≡ true

-- `invalid_public_key expected got`, `invalid_signature expected got`
pub data SignatureError : Type 0 where
  ed448_verify_failed dilithium5_verify_failed : SignatureError
  invalid_public_key invalid_signature : ℕ → ℕ → SignatureError
  invalid_ed448_key invalid_ed448_signature : SignatureError
  invalid_dilithium_key invalid_dilithium_signature : SignatureError

module _ (ed dil : Scheme) where
  pub record HybridKeyPair : Type 0 where
    pub ed448_sk : ed.SecretKey
    pub ed448_vk : ed.PublicKey
    pub dil5_pk : dil.PublicKey
    pub dil5_sk : dil.SecretKey

  pub record HybridPublicKey : Type 0 where
    pub ed448_vk : ed.PublicKey
    pub dil5_pk : dil.PublicKey

  pub record HybridSignature : Type 0 where
    pub ed448_sig : ed.Signature
    pub dil5_sig : dil.Signature

  unfoldable pub generate_hybrid_keypair : ℕ → ℕ → HybridKeyPair
  generate_hybrid_keypair ed_seed dil_seed = record {
    ed448_sk = (ed.generate ed_seed).1;
    ed448_vk = (ed.generate ed_seed).0;
    dil5_pk = (dil.generate dil_seed).0;
    dil5_sk = (dil.generate dil_seed).1;
  }

  unfoldable pub hybrid_sign : List ℕ → HybridKeyPair → HybridSignature
  hybrid_sign message keypair = record {
    ed448_sig = ed.sign message keypair.ed448_sk;
    dil5_sig = dil.sign message keypair.dil5_sk;
  }

  unfoldable pub hybrid_verify :
      List ℕ → HybridSignature → HybridPublicKey → Result SignatureError (Unit {0})
  hybrid_verify message signature public_key =
      if ed.verify signature.ed448_sig message public_key.ed448_vk
      then (if dil.verify signature.dil5_sig message public_key.dil5_pk
          then ok tt
          else err dilithium5_verify_failed)
      else err ed448_verify_failed

  unfoldable pub key_to_bytes : HybridPublicKey → List ℕ
  key_to_bytes k = ed.key_bytes k.ed448_vk ++ dil.key_bytes k.dil5_pk

  -- `from_bytes` of the two parts
  unfoldable pub key_of_parts : List ℕ → List ℕ → Result SignatureError HybridPublicKey
  key_of_parts ed448_bytes rest = do
    ed448_vk ← ok_or (ed.key_from_bytes ed448_bytes) invalid_ed448_key
    dil5_pk ← ok_or (dil.key_from_bytes rest) invalid_dilithium_key
    ok (record { ed448_vk = ed448_vk; dil5_pk = dil5_pk })

  unfoldable pub key_from_bytes : List ℕ → Result SignatureError HybridPublicKey
  unfolding key_of_parts
  key_from_bytes bytes =
      if eqb (length bytes) hybrid_pk_len
      then key_of_parts (take ed448_pk_len bytes) (drop ed448_pk_len bytes)
      else err (invalid_public_key hybrid_pk_len (length bytes))

  unfoldable pub sig_to_bytes : HybridSignature → List ℕ
  sig_to_bytes g = ed.sig_bytes g.ed448_sig ++ dil.sig_bytes g.dil5_sig

  unfoldable pub sig_of_parts : List ℕ → List ℕ → Result SignatureError HybridSignature
  sig_of_parts ed448_bytes rest = do
    ed448_sig ← ok_or (ed.sig_from_bytes ed448_bytes) invalid_ed448_signature
    dil5_sig ← ok_or (dil.sig_from_bytes rest) invalid_dilithium_signature
    ok (record { ed448_sig = ed448_sig; dil5_sig = dil5_sig })

  unfoldable pub sig_from_bytes : List ℕ → Result SignatureError HybridSignature
  unfolding sig_of_parts
  sig_from_bytes bytes =
      if eqb (length bytes) hybrid_sig_len
      then sig_of_parts (take ed448_sig_len bytes) (drop ed448_sig_len bytes)
      else err (invalid_signature hybrid_sig_len (length bytes))

  -- `public_key`, which passes both keys through their bytes.
  unfoldable pub public_key : HybridKeyPair → Result SignatureError HybridPublicKey
  public_key k = do
    ed448_vk ← ok_or (ed.key_from_bytes (ed.key_bytes k.ed448_vk)) invalid_ed448_key
    dil5_pk ← ok_or (dil.key_from_bytes (dil.key_bytes k.dil5_pk)) invalid_dilithium_key
    ok (record { ed448_vk = ed448_vk; dil5_pk = dil5_pk })
