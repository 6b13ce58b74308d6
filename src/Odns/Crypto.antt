-- ===== src/Odns/Crypto.antt =====
-- indieweb2-bastion/odns-rs/common/src/crypto.rs: the encryption of a query for the resolver.
-- Kyber-1024, HKDF-SHA3-512 and XChaCha20-Poly1305 are parameters; the randomness of an
-- encapsulation and of a nonce is an argument.
use mathlib.Core.List.{append_assoc}
use civic_connect.Prelude.{
  ℕ, ◌+◌, ◌≤◌, ◌≡◌, refl, sym, ap, ◌∙◌, Option, some, List, ◌++◌, length, take, drop, length-append,
  take-append, drop-append, ltb, if◌then◌else◌, Result, ok, err, ◌>>=◌, ok_or, arith, Option-cases,
  inl, inr, le→ltb,
}

abbrev pub kem_ct_len : ℕ
kem_ct_len = 1568

abbrev pub nonce_len : ℕ
nonce_len = 24

abbrev pub tag_len : ℕ
tag_len = 16

abbrev pub overhead : ℕ
overhead = kem_ct_len + nonce_len + tag_len

-- What is used of the crates. `hkdf` is the whole of `derive_symmetric_key`'s calls, with `none` for
-- an error of `expand`.
pub record Crates : Type 1 where
  pub PublicKey : Type 0
  pub SecretKey : Type 0
  pub Ciphertext : Type 0
  pub encapsulate : ℕ → PublicKey → List ℕ × Ciphertext
  pub decapsulate : Ciphertext → SecretKey → List ℕ
  pub as_bytes : Ciphertext → List ℕ
  pub from_bytes : List ℕ → Option Ciphertext
  pub hkdf : List ℕ → Option (List ℕ)
  pub encrypt : List ℕ → List ℕ → List ℕ → Option (List ℕ)
  pub decrypt : List ℕ → List ℕ → List ℕ → Option (List ℕ)
  pub public_key_from_bytes : List ℕ → Option PublicKey
  pub secret_key_from_bytes : List ℕ → Option SecretKey

-- What the crates document: a KEM ciphertext of 1568 bytes that is read back, and an AEAD that
-- decrypts what it encrypted and adds a tag of 16 bytes.
pub record IsSound (c : Crates) : Type 0 where
  pub length-as_bytes : (k : c.Ciphertext) → length (c.as_bytes k) ≡ kem_ct_len
  pub from_bytes-as_bytes : (k : c.Ciphertext) → c.from_bytes (c.as_bytes k) ≡ some k
  pub length-encrypt :
      (key nonce text sealed : List ℕ)
      → c.encrypt key nonce text ≡ some sealed
      → length sealed ≡ length text + tag_len
  pub decrypt-encrypt :
      (key nonce text sealed : List ℕ)
      → c.encrypt key nonce text ≡ some sealed
      → c.decrypt key nonce sealed ≡ some text

-- The two keys are of one pair: what is encapsulated for the one is decapsulated by the other.
abbrev pub Paired : (c : Crates) → c.PublicKey → c.SecretKey → Type 0
Paired c pk sk = (seed : ℕ) → c.decapsulate (c.encapsulate seed pk).1 sk ≡ (c.encapsulate seed pk).0

-- `message_too_short min got`
pub data Error : Type 0 where
  message_too_short : ℕ → ℕ → Error
  invalid_ciphertext encryption_failed decryption_failed key_derivation_failed : Error
  invalid_public_key invalid_secret_key : Error

module _ (c : Crates) where
  unfoldable pub derive_symmetric_key : List ℕ → Result Error (List ℕ)
  derive_symmetric_key shared_secret = ok_or (c.hkdf shared_secret) key_derivation_failed

  unfoldable pub encrypt_query : ℕ → List ℕ → List ℕ → c.PublicKey → Result Error (List ℕ)
  unfolding derive_symmetric_key
  encrypt_query seed nonce query public_key =
      let (shared_secret, kem_ct) = c.encapsulate seed public_key in
      do
        sym_key ← derive_symmetric_key shared_secret
        aead_ct ← ok_or (c.encrypt sym_key nonce query) encryption_failed
        ok (c.as_bytes kem_ct ++ nonce ++ aead_ct)

  -- `decrypt_query` of a message that is long enough
  unfoldable pub decrypt_parts : List ℕ → List ℕ → List ℕ → c.SecretKey → Result Error (List ℕ)
  unfolding derive_symmetric_key
  decrypt_parts kem_ct_bytes nonce aead_ct secret_key = do
    kem_ct ← ok_or (c.from_bytes kem_ct_bytes) invalid_ciphertext
    sym_key ← derive_symmetric_key (c.decapsulate kem_ct secret_key)
    ok_or (c.decrypt sym_key nonce aead_ct) decryption_failed

  unfoldable pub decrypt_query : List ℕ → c.SecretKey → Result Error (List ℕ)
  unfolding decrypt_parts
  decrypt_query encrypted secret_key =
      if ltb (length encrypted) overhead
      then err (message_too_short overhead (length encrypted))
      else decrypt_parts (take kem_ct_len encrypted) (take nonce_len (drop kem_ct_len encrypted))
          (drop (kem_ct_len + nonce_len) encrypted) secret_key

  unfoldable pub public_key_from_bytes : List ℕ → Result Error c.PublicKey
  public_key_from_bytes bytes = ok_or (c.public_key_from_bytes bytes) invalid_public_key

  unfoldable pub secret_key_from_bytes : List ℕ → Result Error c.SecretKey
  secret_key_from_bytes bytes = ok_or (c.secret_key_from_bytes bytes) invalid_secret_key

module _ (c : Crates) (sk : c.SecretKey) where
  long :
      (wire head nonce sealed : List ℕ)
      → overhead ≤ length wire
      → take kem_ct_len wire ≡ head
      → take nonce_len (drop kem_ct_len wire) ≡ nonce
      → drop (kem_ct_len + nonce_len) wire ≡ sealed
      → decrypt_query c wire sk ≡ decrypt_parts c head nonce sealed sk
  unfolding decrypt_query
  long wire head nonce sealed h a b d = rw (le→ltb (length wire) overhead h, a, b, d) refl

  cut :
      (head nonce sealed : List ℕ)
      → length head ≡ kem_ct_len
      → length nonce ≡ nonce_len
      → tag_len ≤ length sealed
      → decrypt_query c (head ++ nonce ++ sealed) sk ≡ decrypt_parts c head nonce sealed sk
  cut head nonce sealed h n t =
      long (head ++ nonce ++ sealed) head nonce sealed
        (omega (arith, length-append (head ++ nonce) sealed, length-append head nonce))
        (ap (take kem_ct_len) (append_assoc head nonce sealed)
          ∙ take-append kem_ct_len head (nonce ++ sealed) h)
        (ap (λ w. take nonce_len (drop kem_ct_len w)) (append_assoc head nonce sealed)
          ∙ ap (take nonce_len) (drop-append kem_ct_len head (nonce ++ sealed) h)
          ∙ take-append nonce_len nonce sealed n)
        (drop-append (kem_ct_len + nonce_len) (head ++ nonce) sealed
          (omega (arith, length-append head nonce)))

  opened :
      (head nonce sealed key text : List ℕ) (ct : c.Ciphertext)
      → c.from_bytes head ≡ some ct
      → c.hkdf (c.decapsulate ct sk) ≡ some key
      → c.decrypt key nonce sealed ≡ some text
      → decrypt_parts c head nonce sealed sk ≡ ok text
  unfolding decrypt_parts derive_symmetric_key
  opened head nonce sealed key text ct a k t = rw (decrypt_parts, a, k, t) refl

-- The parts of an encryption: the key that was derived and the sealed text.
abbrev pub Parts : (c : Crates) → ℕ → List ℕ → List ℕ → c.PublicKey → List ℕ → Type 0
Parts c seed nonce query pk wire =
    (key sealed : List ℕ) × (c.hkdf (c.encapsulate seed pk).0 ≡ some key)
    × (c.encrypt key nonce query ≡ some sealed)
    × (c.as_bytes (c.encapsulate seed pk).1 ++ nonce ++ sealed ≡ wire)

module _ (c : Crates) (seed : ℕ) (nonce query : List ℕ) (pk : c.PublicKey) where
  encrypt_query-Parts :
      (wire : List ℕ)
      → encrypt_query c seed nonce query pk ≡ ok wire
      → Parts c seed nonce query pk wire
  unfolding encrypt_query derive_symmetric_key
  encrypt_query-Parts wire e = elim (Option-cases (c.hkdf (c.encapsulate seed pk).0)) [
    | inl gone ↦ absurd (let f = rw (encrypt_query, gone) at e in cc f)
    | inr (key, k) ↦ elim (Option-cases (c.encrypt key nonce query)) [
      | inl gone ↦ absurd (let f = rw (encrypt_query, k, gone) at e in cc f)
      | inr (sealed, s) ↦ (key, sealed, k, s, (let f = rw (encrypt_query, k, s) at e in cc f))
    ]
  ]

  module _ (sound : IsSound c) (wide : length nonce ≡ nonce_len) (wire : List ℕ)
      (sent : encrypt_query c seed nonce query pk ≡ ok wire) where
    -- An encrypted query is 1608 bytes longer than the query.
    pub length-encrypt_query : length wire ≡ length query + overhead
    length-encrypt_query =
        let (key, sealed, k, s, shape) = encrypt_query-Parts wire sent in
        let kem = c.as_bytes (c.encapsulate seed pk).1 in
        ap length (sym shape)
        ∙ omega (
          arith,
          length-append (kem ++ nonce) sealed,
          length-append kem nonce,
          sound.length-as_bytes (c.encapsulate seed pk).1,
          sound.length-encrypt key nonce query sealed s,
        )

    -- The resolver decrypts what the proxy encrypted: with keys of one pair and a nonce of 24 bytes,
    -- the decryption of an encrypted query is the query.
    pub decrypt_query-encrypt_query :
        (sk : c.SecretKey) → Paired c pk sk → decrypt_query c wire sk ≡ ok query
    decrypt_query-encrypt_query sk paired =
        let (key, sealed, k, s, shape) = encrypt_query-Parts wire sent in
        let kem_ct = (c.encapsulate seed pk).1 in
        ap (λ w. decrypt_query c w sk) (sym shape)
        ∙ cut c sk (c.as_bytes kem_ct) nonce sealed (sound.length-as_bytes kem_ct) wide
            (omega (arith, sound.length-encrypt key nonce query sealed s))
        ∙ opened c sk (c.as_bytes kem_ct) nonce sealed key query kem_ct
            (sound.from_bytes-as_bytes kem_ct) (ap c.hkdf (paired seed) ∙ k)
            (sound.decrypt-encrypt key nonce query sealed s)
