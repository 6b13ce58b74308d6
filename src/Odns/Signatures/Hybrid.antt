-- ===== src/Odns/Signatures/Hybrid.antt =====
-- indieweb2-bastion/odns-rs/common/src/signatures.rs: signing, sending and verifying.
use native.Mathlib.Omega.{arith}
use civic_connect.Prelude.{
  ℕ, ◌≡◌, ◌↔◌, refl, ap, ◌∙◌, true, some, List, ◌++◌, length, drop, eqb, length-append, take-append,
  drop-append, ok, ◌>>=◌, bind-ok,
}
use civic_connect.Odns.Signatures.{
  Scheme, IsScheme, ed448_pk_len, ed448_sig_len, dil5_pk_len, dil5_sig_len, hybrid_pk_len,
  hybrid_sig_len, HybridKeyPair, HybridPublicKey, HybridSignature, generate_hybrid_keypair,
  hybrid_sign, hybrid_verify, key_to_bytes, key_of_parts, key_from_bytes, sig_to_bytes,
  sig_of_parts, sig_from_bytes, public_key,
}

eqb_self : (m n : ℕ) → m ≡ n → eqb m n ≡ true
eqb_self m n h = ground arith

module _ (ed dil : Scheme) where
  -- A hybrid signature verifies exactly when both of its signatures verify.
  pub hybrid_verify_iff :
      (message : List ℕ) (signature : HybridSignature ed dil) (key : HybridPublicKey ed dil)
      → (hybrid_verify ed dil message signature key ≡ ok tt) ↔ (
          (ed.verify signature.ed448_sig message key.ed448_vk ≡ true)
          × (dil.verify signature.dil5_sig message key.dil5_pk ≡ true))
  unfolding hybrid_verify
  hybrid_verify_iff message signature key =
      (λ e. (ground (arith, e), ground (arith, e)), λ h. ground (arith, h))

  key_parts :
      (x y : List ℕ) (vk : ed.PublicKey) (pk : dil.PublicKey)
      → ed.key_from_bytes x ≡ some vk
      → dil.key_from_bytes y ≡ some pk
      → key_of_parts ed dil x y ≡ ok (record { ed448_vk = vk; dil5_pk = pk })
  unfolding key_of_parts
  key_parts x y vk pk h k = rw (key_of_parts, h, k) refl

  sig_parts :
      (x y : List ℕ) (a : ed.Signature) (b : dil.Signature)
      → ed.sig_from_bytes x ≡ some a
      → dil.sig_from_bytes y ≡ some b
      → sig_of_parts ed dil x y ≡ ok (record { ed448_sig = a; dil5_sig = b })
  unfolding sig_of_parts
  sig_parts x y a b h k = rw (sig_of_parts, h, k) refl

  public_key_parts :
      (k : HybridKeyPair ed dil)
      → ed.key_from_bytes (ed.key_bytes k.ed448_vk) ≡ some k.ed448_vk
      → dil.key_from_bytes (dil.key_bytes k.dil5_pk) ≡ some k.dil5_pk
      → public_key ed dil k ≡ ok (record { ed448_vk = k.ed448_vk; dil5_pk = k.dil5_pk })
  unfolding public_key
  public_key_parts k h g = rw (public_key, h, g) refl

  module _ (e : IsScheme ed ed448_pk_len ed448_sig_len)
      (d : IsScheme dil dil5_pk_len dil5_sig_len) where
    -- A hybrid public key is read back from its bytes.
    pub key_from_bytes-key_to_bytes :
        (k : HybridPublicKey ed dil) → key_from_bytes ed dil (key_to_bytes ed dil k) ≡ ok k
    unfolding key_from_bytes key_to_bytes
    key_from_bytes-key_to_bytes k =
        let x = ed.key_bytes k.ed448_vk in
        let y = dil.key_bytes k.dil5_pk in
        let hx = e.length-key_bytes k.ed448_vk in
        let whole : length (x ++ y) ≡ hybrid_pk_len =
          omega (arith, length-append x y, hx, d.length-key_bytes k.dil5_pk) in
        rw (eqb_self (length (x ++ y)) hybrid_pk_len whole) (
          ap (λ a. key_of_parts ed dil a (drop ed448_pk_len (x ++ y)))
            (take-append ed448_pk_len x y hx)
          ∙ ap (key_of_parts ed dil x) (drop-append ed448_pk_len x y hx)
          ∙ key_parts x y k.ed448_vk k.dil5_pk (e.key_from_bytes-key_bytes k.ed448_vk)
              (d.key_from_bytes-key_bytes k.dil5_pk))

    -- A hybrid signature is read back from its bytes.
    pub sig_from_bytes-sig_to_bytes :
        (g : HybridSignature ed dil) → sig_from_bytes ed dil (sig_to_bytes ed dil g) ≡ ok g
    unfolding sig_from_bytes sig_to_bytes
    sig_from_bytes-sig_to_bytes g =
        let x = ed.sig_bytes g.ed448_sig in
        let y = dil.sig_bytes g.dil5_sig in
        let hx = e.length-sig_bytes g.ed448_sig in
        let whole : length (x ++ y) ≡ hybrid_sig_len =
          omega (arith, length-append x y, hx, d.length-sig_bytes g.dil5_sig) in
        rw (eqb_self (length (x ++ y)) hybrid_sig_len whole) (
          ap (λ a. sig_of_parts ed dil a (drop ed448_sig_len (x ++ y)))
            (take-append ed448_sig_len x y hx)
          ∙ ap (sig_of_parts ed dil x) (drop-append ed448_sig_len x y hx)
          ∙ sig_parts x y g.ed448_sig g.dil5_sig (e.sig_from_bytes-sig_bytes g.ed448_sig)
              (d.sig_from_bytes-sig_bytes g.dil5_sig))

    -- What is signed with generated keys verifies with their public key, after both the key and the
    -- signature were sent as bytes.
    pub signed_verifies :
        (ed_seed dil_seed : ℕ) (message : List ℕ)
        → (do
          let keypair = generate_hybrid_keypair ed dil ed_seed dil_seed
          key ← public_key ed dil keypair
          received ← key_from_bytes ed dil (key_to_bytes ed dil key)
          signature ←
              sig_from_bytes ed dil (sig_to_bytes ed dil (hybrid_sign ed dil message keypair))
          hybrid_verify ed dil message signature received)
          ≡ ok tt
    unfolding generate_hybrid_keypair hybrid_sign
    signed_verifies ed_seed dil_seed message =
        let keypair = generate_hybrid_keypair ed dil ed_seed dil_seed in
        let key : HybridPublicKey ed dil = record {
          ed448_vk = keypair.ed448_vk;
          dil5_pk = keypair.dil5_pk;
        } in
        let signature = hybrid_sign ed dil message keypair in
        bind-ok (public_key ed dil keypair) _ key (
          public_key_parts keypair (e.key_from_bytes-key_bytes keypair.ed448_vk)
            (d.key_from_bytes-key_bytes keypair.dil5_pk))
        ∙ bind-ok (key_from_bytes ed dil (key_to_bytes ed dil key)) _ key
            (key_from_bytes-key_to_bytes key)
        ∙ bind-ok (sig_from_bytes ed dil (sig_to_bytes ed dil signature)) _ signature
            (sig_from_bytes-sig_to_bytes signature)
        ∙ (hybrid_verify_iff message signature key).1
            (e.verify-sign ed_seed message, d.verify-sign dil_seed message)
