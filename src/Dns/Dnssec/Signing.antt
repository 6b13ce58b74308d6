-- ===== src/Dns/Dnssec/Signing.antt =====
-- indieweb2-bastion/graphql-dns-api/src/dnssec.rs: signing a record and verifying the signature.
use native.Mathlib.Omega.{arith}
use civic_connect.Prelude.{
  ℕ, ◌≡◌, refl, ap, ◌∙◌, String, true, some, List, ◌++◌, length, take, drop, eqb, length-append,
  take-append, drop-append, All-append, ok,
}
use civic_connect.Prelude.Bytes.{as_bytes, Codecs, IsCodec}
use civic_connect.Odns.Signatures.{Scheme, IsScheme}
use civic_connect.Dns.Dnssec.{
  generate, public_key_bytes, sign, both_verify, verify_parts, hybrid_verify, sign_record,
  verify_signature,
}

eqb_self : (m n : ℕ) → m ≡ n → eqb m n ≡ true
eqb_self m n h = ground arith

module _ (ed dil : Scheme) where
  pub hybrid_verify_whole :
      (message signature key : List ℕ)
      → length key ≡ 2649
      → length signature ≡ 4741
      → hybrid_verify ed dil message signature key
        ≡ verify_parts ed dil message
            (take 57 key)
            (drop 57 key)
            (take 114 signature)
            (drop 114 signature)
  unfolding hybrid_verify
  hybrid_verify_whole message signature key h k =
      rw (eqb_self (length key) 2649 h, eqb_self (length signature) 4741 k) refl

  pub verify_parts_ok :
      (message : List ℕ) (a b x y : List ℕ) (vk : ed.PublicKey) (pk : dil.PublicKey)
      (g : ed.Signature) (s : dil.Signature)
      → ed.key_from_bytes a ≡ some vk
      → dil.key_from_bytes b ≡ some pk
      → ed.sig_from_bytes x ≡ some g
      → dil.sig_from_bytes y ≡ some s
      → verify_parts ed dil message a b x y ≡ ok (both_verify ed dil message vk pk g s)
  unfolding verify_parts
  verify_parts_ok message a b x y vk pk g s ha hb hx hy = rw (verify_parts, ha, hb, hx, hy) refl

  both_verify-true :
      (message : List ℕ) (vk : ed.PublicKey) (pk : dil.PublicKey) (g : ed.Signature)
      (s : dil.Signature)
      → ed.verify g message vk ≡ true
      → dil.verify s message pk ≡ true
      → both_verify ed dil message vk pk g s ≡ true
  unfolding both_verify
  both_verify-true message vk pk g s h k = rw (h, k) refl

  module _ (e : IsScheme ed 57 114) (d : IsScheme dil 2592 4627) where
    hybrid_verify-append :
        (message : List ℕ) (vk : ed.PublicKey) (pk : dil.PublicKey) (g : ed.Signature)
        (s : dil.Signature)
        → hybrid_verify ed dil message
            (ed.sig_bytes g ++ dil.sig_bytes s)
            (ed.key_bytes vk ++ dil.key_bytes pk)
          ≡ ok (both_verify ed dil message vk pk g s)
    hybrid_verify-append message vk pk g s =
        let a = ed.key_bytes vk in
        let b = dil.key_bytes pk in
        let x = ed.sig_bytes g in
        let y = dil.sig_bytes s in
        let ha = e.length-key_bytes vk in
        let hx = e.length-sig_bytes g in
        hybrid_verify_whole message (x ++ y) (a ++ b)
          (omega (arith, length-append a b, ha, d.length-key_bytes pk))
          (omega (arith, length-append x y, hx, d.length-sig_bytes s))
        ∙ verify_parts_ok message (take 57 (a ++ b)) (drop 57 (a ++ b)) (take 114 (x ++ y))
            (drop 114 (x ++ y)) vk pk g s
            (ap ed.key_from_bytes (take-append 57 a b ha) ∙ e.key_from_bytes-key_bytes vk)
            (ap dil.key_from_bytes (drop-append 57 a b ha) ∙ d.key_from_bytes-key_bytes pk)
            (ap ed.sig_from_bytes (take-append 114 x y hx) ∙ e.sig_from_bytes-sig_bytes g)
            (ap dil.sig_from_bytes (drop-append 114 x y hx) ∙ d.sig_from_bytes-sig_bytes s)

    hybrid_verify-sign :
        (ed_seed dil_seed : ℕ) (message : List ℕ)
        → hybrid_verify ed dil message
            (sign ed dil message (generate ed dil ed_seed dil_seed))
            (public_key_bytes ed dil (generate ed dil ed_seed dil_seed))
          ≡ ok true
    unfolding sign generate public_key_bytes
    hybrid_verify-sign ed_seed dil_seed message =
        let vk = (ed.generate ed_seed).0 in
        let pk = (dil.generate dil_seed).0 in
        let g = ed.sign message (ed.generate ed_seed).1 in
        let s = dil.sign message (dil.generate dil_seed).1 in
        hybrid_verify-append message vk pk g s
        ∙ ap ok (
            both_verify-true message vk pk g s (e.verify-sign ed_seed message)
              (d.verify-sign dil_seed message))

    module _ (c : Codecs) (l : IsCodec c) where
      verify_signature_decoded :
          (record_data encoded : String) (bytes public_key : List ℕ)
          → c.base64_decode encoded ≡ some bytes
          → verify_signature ed dil c record_data encoded public_key
            ≡ hybrid_verify ed dil (as_bytes record_data) bytes public_key
      unfolding verify_signature
      verify_signature_decoded record_data encoded bytes public_key h = rw h refl

      -- A record that is signed with a generated key verifies, under the same codecs, with the bytes
      -- of the key's public part.
      pub verify_signature-sign_record :
          (record_data : String) (ed_seed dil_seed : ℕ)
          → verify_signature ed dil c record_data
              (sign_record ed dil c record_data (generate ed dil ed_seed dil_seed))
              (public_key_bytes ed dil (generate ed dil ed_seed dil_seed))
            ≡ ok true
      unfolding sign_record sign
      verify_signature-sign_record record_data ed_seed dil_seed =
          let k = generate ed dil ed_seed dil_seed in
          let m = as_bytes record_data in
          let g = ed.sign m k.ed448_sk in
          let s = dil.sign m k.dil5_sk in
          verify_signature_decoded record_data _ (sign ed dil m k) (public_key_bytes ed dil k) (
            l.base64_decode-base64_encode (sign ed dil m k) (
              All-append _ (ed.sig_bytes g) (dil.sig_bytes s) (e.sig_bytes-IsBytes g)
                (d.sig_bytes-IsBytes s)))
          ∙ hybrid_verify-sign ed_seed dil_seed m
