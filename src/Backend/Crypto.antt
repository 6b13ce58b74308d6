-- ===== src/Backend/Crypto.antt =====
-- backend/rust-api/src/crypto/mod.rs: passwords, signatures, nonces and the hashes of email addresses.
-- The crates argon2, ed25519-dalek, sha2 and hex are parameters; randomness is an argument.
pub mod Passwords
use civic_connect.Prelude.{ℕ, String, ◌≡◌, Bool, true, Option, some, List, Result, ok, ok_or, ◌>>=◌}
use civic_connect.Prelude.Bytes.{as_bytes}
use civic_connect.Backend.Errors.{ApiError, internal}

-- What is used of the crates.
pub record CryptoCrates : Type 1 where
  pub PasswordHash : Type 0
  pub SigningKey : Type 0
  pub VerifyingKey : Type 0
  pub Signature : Type 0
  pub hash_bytes : List ℕ → ℕ → Option PasswordHash
  pub show_hash : PasswordHash → String
  pub parse_hash : String → Option PasswordHash
  pub matches : List ℕ → PasswordHash → Bool
  pub generate_key : ℕ → SigningKey
  pub verifying_key : SigningKey → VerifyingKey
  pub sign : SigningKey → List ℕ → Signature
  pub verify : VerifyingKey → List ℕ → Signature → Bool
  pub sha256 : List ℕ → List ℕ
  pub hex_encode : List ℕ → String
  pub to_lowercase : String → String

-- What argon2 and ed25519-dalek document: a hash is read back from its text, a password matches its own
-- hash, and what is signed verifies with the key that belongs to the signing key.
pub record IsCryptoCrates (c : CryptoCrates) : Type 0 where
  pub parse_hash-show_hash : (h : c.PasswordHash) → c.parse_hash (c.show_hash h) ≡ some h
  pub matches-hash_bytes :
      (password : List ℕ) (salt : ℕ) (h : c.PasswordHash)
      → c.hash_bytes password salt ≡ some h
      → c.matches password h ≡ true
  pub verify-sign :
      (k : c.SigningKey) (message : List ℕ)
      → c.verify (c.verifying_key k) message (c.sign k message) ≡ true

module _ (c : CryptoCrates) where
  unfoldable pub hash_password : ℕ → String → Result ApiError String
  hash_password salt password = do
    hash ← ok_or (c.hash_bytes (as_bytes password) salt) internal
    ok (c.show_hash hash)

  unfoldable pub verify_password : String → String → Result ApiError Bool
  verify_password password hash = do
    parsed_hash ← ok_or (c.parse_hash hash) internal
    ok (c.matches (as_bytes password) parsed_hash)

  unfoldable pub generate_keypair : ℕ → c.SigningKey × c.VerifyingKey
  generate_keypair seed = (c.generate_key seed, c.verifying_key (c.generate_key seed))

  unfoldable pub sign_message : c.SigningKey → List ℕ → c.Signature
  sign_message signing_key message = c.sign signing_key message

  unfoldable pub verify_signature : c.VerifyingKey → List ℕ → c.Signature → Bool
  verify_signature verifying_key message signature = c.verify verifying_key message signature

  -- `nonce` is what the generator of random bytes gave.
  unfoldable pub generate_nonce : List ℕ → String
  generate_nonce nonce = c.hex_encode nonce

  unfoldable pub hash_email : String → String
  hash_email email = c.hex_encode (c.sha256 (as_bytes (c.to_lowercase email)))
