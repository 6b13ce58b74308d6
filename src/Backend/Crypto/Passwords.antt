-- ===== src/Backend/Crypto/Passwords.antt =====
-- backend/rust-api/src/crypto/mod.rs: a password and its hash, a message and its signature.
use civic_connect.Prelude.{
  ℕ, String, ◌≡◌, refl, sym, ap, ◌∙◌, true, some, List, ok, ok_or, bind-ok_inv, ok_or-ok_inv,
}
use civic_connect.Prelude.Bytes.{as_bytes}
use civic_connect.Backend.Errors.{internal}
use civic_connect.Backend.Crypto.{
  CryptoCrates, IsCryptoCrates, hash_password, verify_password, generate_keypair, sign_message,
  verify_signature,
}

module _ (c : CryptoCrates) (l : IsCryptoCrates c) where
  verify_read :
      (password text : String) (h : c.PasswordHash)
      → c.parse_hash text ≡ some h
      → verify_password c password text ≡ ok (c.matches (as_bytes password) h)
  unfolding verify_password
  verify_read password text h e = rw e refl

  -- A password verifies with the text of its own hash, whatever the salt, where hashing succeeds.
  verify_password-hash_password :
      (salt : ℕ) (password text : String)
      → hash_password c salt password ≡ ok text
      → verify_password c password text ≡ ok true
  unfolding hash_password
  verify_password-hash_password salt password text e =
      let (h, p, q) =
        bind-ok_inv (ok_or (c.hash_bytes (as_bytes password) salt) internal) _ text e in
      let hashed = ok_or-ok_inv (c.hash_bytes (as_bytes password) salt) internal h p in
      let shown : c.show_hash h ≡ text = cc q in
      verify_read password text h (ap c.parse_hash (sym shown) ∙ l.parse_hash-show_hash h)
      ∙ ap ok (l.matches-hash_bytes (as_bytes password) salt h hashed)

  -- A message that is signed with a generated key verifies with the public key of the pair.
  verify_signature-sign_message :
      (seed : ℕ) (message : List ℕ)
      → verify_signature c
          (generate_keypair c seed).1
          message
          (sign_message c (generate_keypair c seed).0 message)
        ≡ true
  unfolding verify_signature sign_message generate_keypair
  verify_signature-sign_message seed message = l.verify-sign (c.generate_key seed) message
